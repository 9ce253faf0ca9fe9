-- ===== src/Dns.antt =====
-- services/dns-service/viswall_dns_agent: the agent of a name server.
pub mod Render
pub mod Configs
mod Scenarios
