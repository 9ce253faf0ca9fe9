-- ===== src/Simulator/Cases/Security.antt =====
-- shared/firewall_simulator.py: `get_security_tests`
use viswall.Prelude.{true, false, none, some, List, [], ◌∷◌}
use viswall.Simulator.Packet.{drop, tcp}
use viswall.Simulator.Suite.{TestCase}

abbrev block_spoofed_internal : TestCase
block_spoofed_internal = record {
  id = "block-spoofed-internal";
  name = "Block Spoofed Internal Traffic";
  description = "Block traffic claiming to be from internal network but coming from WAN";
  packet = record {
    src_ip = "192.168.1.50";
    dst_ip = some "192.168.1.100";
    protocol = tcp;
    src_port = some 12345;
    dst_port = some 22;
    interface_in = "eth0";
    interface_out = "eth1";
    flags = "SYN" ∷ [];
    payload_size = 64;
    connection_state = "NEW";
  };
  expected_action = drop;
  expected_chain = none;
  critical = true;
  tags = "security" ∷ "spoofing" ∷ "wan" ∷ [];
}

abbrev block_port_scan : TestCase
block_port_scan = record {
  id = "block-port-scan";
  name = "Block Port Scan";
  description = "Block rapid port scanning attempts";
  packet = record {
    src_ip = "203.0.113.200";
    dst_ip = some "192.0.2.1";
    protocol = tcp;
    src_port = some 12345;
    dst_port = some 23;
    interface_in = "eth0";
    interface_out = "lo";
    flags = "SYN" ∷ [];
    payload_size = 64;
    connection_state = "NEW";
  };
  expected_action = drop;
  expected_chain = none;
  critical = false;
  tags = "security" ∷ "port-scan" ∷ "telnet" ∷ [];
}

abbrev block_invalid_state : TestCase
block_invalid_state = record {
  id = "block-invalid-state";
  name = "Block Invalid State Packets";
  description = "Block packets with invalid connection state";
  packet = record {
    src_ip = "203.0.113.50";
    dst_ip = some "192.0.2.1";
    protocol = tcp;
    src_port = some 12345;
    dst_port = some 443;
    interface_in = "eth0";
    interface_out = "lo";
    flags = "ACK" ∷ [];
    payload_size = 64;
    connection_state = "INVALID";
  };
  expected_action = drop;
  expected_chain = none;
  critical = true;
  tags = "security" ∷ "invalid-state" ∷ "tcp" ∷ [];
}

unfoldable pub get_security_tests : List TestCase
get_security_tests = block_spoofed_internal ∷ block_port_scan ∷ block_invalid_state ∷ []
