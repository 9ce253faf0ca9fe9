-- ===== src/Simulator/Cases.antt =====
-- shared/firewall_simulator.py: `TestSuiteLibrary`. The random numbers of `get_custom_test` are
-- arguments, and so are its optional keywords.
pub mod Basic
pub mod Security
pub mod Application
pub mod Custom
