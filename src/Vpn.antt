-- ===== src/Vpn.antt =====
-- services/vpn-service/viswall_vpn_agent: the agent of the site-to-site tunnel.
pub mod Config
pub mod Service
mod Scenarios
