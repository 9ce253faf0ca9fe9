-- ===== src/Gateway.antt =====
-- services/api-gateway: what the gateway sends to the agents.
pub mod Dispatch
pub mod Routes
pub mod Rows
pub mod Tunnels
mod Scenarios
