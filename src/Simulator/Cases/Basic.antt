-- ===== src/Simulator/Cases/Basic.antt =====
-- shared/firewall_simulator.py: `get_basic_connectivity_tests`
use viswall.Prelude.{true, none, some, List, [], ◌∷◌}
use viswall.Simulator.Packet.{accept, drop, tcp, icmp}
use viswall.Simulator.Suite.{TestCase}

abbrev basic_internet_http : TestCase
basic_internet_http = record {
  id = "basic-internet-http";
  name = "LAN to Internet HTTP";
  description = "Verify HTTP traffic from LAN to internet works";
  packet = record {
    src_ip = "192.168.1.100";
    dst_ip = some "8.8.8.8";
    protocol = tcp;
    src_port = some 12345;
    dst_port = some 80;
    interface_in = "eth1";
    interface_out = "eth0";
    flags = "SYN" ∷ [];
    payload_size = 64;
    connection_state = "NEW";
  };
  expected_action = accept;
  expected_chain = some "forward";
  critical = true;
  tags = "basic" ∷ "http" ∷ "lan-wan" ∷ [];
}

abbrev basic_internet_https : TestCase
basic_internet_https = record {
  id = "basic-internet-https";
  name = "LAN to Internet HTTPS";
  description = "Verify HTTPS traffic from LAN to internet works";
  packet = record {
    src_ip = "192.168.1.100";
    dst_ip = some "1.1.1.1";
    protocol = tcp;
    src_port = some 12345;
    dst_port = some 443;
    interface_in = "eth1";
    interface_out = "eth0";
    flags = "SYN" ∷ [];
    payload_size = 64;
    connection_state = "NEW";
  };
  expected_action = accept;
  expected_chain = some "forward";
  critical = true;
  tags = "basic" ∷ "https" ∷ "lan-wan" ∷ [];
}

abbrev wan_ping : TestCase
wan_ping = record {
  id = "wan-ping";
  name = "WAN Ping Response";
  description = "Verify ping responses from firewall work";
  packet = record {
    src_ip = "203.0.113.1";
    dst_ip = some "192.0.2.1";
    protocol = icmp;
    src_port = none;
    dst_port = none;
    interface_in = "eth0";
    interface_out = "lo";
    flags = [];
    payload_size = 64;
    connection_state = "NEW";
  };
  expected_action = accept;
  expected_chain = some "input";
  critical = true;
  tags = "basic" ∷ "icmp" ∷ "ping" ∷ [];
}

abbrev block_wan_ssh : TestCase
block_wan_ssh = record {
  id = "block-wan-ssh";
  name = "Block WAN SSH";
  description = "Verify SSH from internet is blocked";
  packet = record {
    src_ip = "203.0.113.100";
    dst_ip = some "192.0.2.1";
    protocol = tcp;
    src_port = some 54321;
    dst_port = some 22;
    interface_in = "eth0";
    interface_out = "lo";
    flags = "SYN" ∷ [];
    payload_size = 64;
    connection_state = "NEW";
  };
  expected_action = drop;
  expected_chain = none;
  critical = true;
  tags = "security" ∷ "ssh" ∷ "wan-block" ∷ [];
}

abbrev established_allowed : TestCase
established_allowed = record {
  id = "established-allowed";
  name = "Established Connections Allowed";
  description = "Verify established connections are allowed back in";
  packet = record {
    src_ip = "8.8.8.8";
    dst_ip = some "192.168.1.100";
    protocol = tcp;
    src_port = some 443;
    dst_port = some 12345;
    interface_in = "eth0";
    interface_out = "eth1";
    flags = "SYN" ∷ "ACK" ∷ [];
    payload_size = 64;
    connection_state = "ESTABLISHED";
  };
  expected_action = accept;
  expected_chain = none;
  critical = true;
  tags = "basic" ∷ "established" ∷ "return-traffic" ∷ [];
}

unfoldable pub get_basic_connectivity_tests : List TestCase
get_basic_connectivity_tests =
    basic_internet_http ∷ basic_internet_https ∷ wan_ping ∷ block_wan_ssh ∷ established_allowed ∷ []
