-- ===== src/Simulator.antt =====
-- shared/firewall_simulator.py: packets, rules, the simulator of one firewall, its test suites, and
-- the simulation of several connected firewalls.
-- `net` stands for `ipaddress.ip_address(ip) in ipaddress.ip_network(network)`; `none` is an exception.
pub mod Packet
pub mod Engine
pub mod Suite
pub mod Multi
pub mod Cases
mod Scenarios
