-- ===== src/Simulator/Cases/Application.antt =====
-- shared/firewall_simulator.py: `get_application_tests`
use viswall.Prelude.{true, false, none, some, List, [], ◌∷◌}
use viswall.Simulator.Packet.{accept, tcp, udp}
use viswall.Simulator.Suite.{TestCase}

abbrev dns_udp : TestCase
dns_udp = record {
  id = "dns-udp";
  name = "DNS UDP Query";
  description = "Allow DNS queries over UDP";
  packet = record {
    src_ip = "192.168.1.100";
    dst_ip = some "8.8.8.8";
    protocol = udp;
    src_port = some 12345;
    dst_port = some 53;
    interface_in = "eth1";
    interface_out = "eth0";
    flags = [];
    payload_size = 64;
    connection_state = "NEW";
  };
  expected_action = accept;
  expected_chain = none;
  critical = true;
  tags = "dns" ∷ "udp" ∷ "essential" ∷ [];
}

abbrev smtp_outbound : TestCase
smtp_outbound = record {
  id = "smtp-outbound";
  name = "SMTP Outbound";
  description = "Allow outbound SMTP from mail server";
  packet = record {
    src_ip = "192.168.1.10";
    dst_ip = some "203.0.113.10";
    protocol = tcp;
    src_port = some 12345;
    dst_port = some 25;
    interface_in = "eth1";
    interface_out = "eth0";
    flags = "SYN" ∷ [];
    payload_size = 64;
    connection_state = "NEW";
  };
  expected_action = accept;
  expected_chain = none;
  critical = false;
  tags = "mail" ∷ "smtp" ∷ "server" ∷ [];
}

abbrev voip_sip : TestCase
voip_sip = record {
  id = "voip-sip";
  name = "VoIP SIP Traffic";
  description = "Allow SIP signaling for VoIP";
  packet = record {
    src_ip = "192.168.1.50";
    dst_ip = some "203.0.113.20";
    protocol = udp;
    src_port = some 5060;
    dst_port = some 5060;
    interface_in = "eth1";
    interface_out = "eth0";
    flags = [];
    payload_size = 64;
    connection_state = "NEW";
  };
  expected_action = accept;
  expected_chain = none;
  critical = false;
  tags = "voip" ∷ "sip" ∷ "udp" ∷ [];
}

unfoldable pub get_application_tests : List TestCase
get_application_tests = dns_udp ∷ smtp_outbound ∷ voip_sip ∷ []
