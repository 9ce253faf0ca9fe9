-- ===== src/Dhcp.antt =====
-- services/dhcp-service/dhcp_agent.py: the agent of the Kea servers.
pub mod Payloads
pub mod Render
pub mod Apply
pub mod Leases
mod Scenarios
