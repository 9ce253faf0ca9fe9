-- ===== src/Firewall.antt =====
-- services/firewall-service/viswall_firewall_agent: the agent that a firewall host runs.
pub mod Qos
pub mod Nft
pub mod Routing
pub mod Deploy
pub mod Snapshots
