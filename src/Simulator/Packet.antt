-- ===== src/Simulator/Packet.antt =====
-- shared/firewall_simulator.py: `Protocol`, `Action`, `NetworkPacket`, `FirewallRule` and `matches`.
-- `timestamp` and `to_dict` (for the JSON reply) are left out: no decision reads them.
use viswall.Prelude.{
  ℕ, Bool, true, false, ◌&&◌, Option, none, some, List, String, str_eq, if◌then◌else◌, truthy,
  truthy_num, has_slash, opt_eq, opt_num_eq,
}

pub data Protocol : Type 0 where
  tcp udp icmp any : Protocol

pub data Action : Type 0 where
  accept drop reject log nat : Action

-- `dst_ip` may be `None` behind a NAT rule that has no `dst_ip`.
pub record NetworkPacket : Type 0 where
  pub src_ip : String
  pub dst_ip : Option String
  pub protocol : Protocol
  pub src_port : Option ℕ
  pub dst_port : Option ℕ
  pub interface_in : String
  pub interface_out : String
  pub flags : List String
  pub payload_size : ℕ
  pub connection_state : String

pub record FirewallRule : Type 0 where
  pub id : ℕ
  pub name : String
  pub chain : String
  pub action : Action
  pub src_ip : Option String
  pub dst_ip : Option String
  pub protocol : Option Protocol
  pub src_port : Option ℕ
  pub dst_port : Option ℕ
  pub interface_in : Option String
  pub interface_out : Option String
  pub state : Option String
  pub log : Bool
  pub order : ℕ
  pub enabled : Bool

abbrev pub protocol_eq : Protocol → Protocol → Bool
protocol_eq tcp tcp = true
protocol_eq udp udp = true
protocol_eq icmp icmp = true
protocol_eq any any = true
protocol_eq _ _ = false

abbrev pub action_eq : Action → Action → Bool
action_eq accept accept = true
action_eq drop drop = true
action_eq reject reject = true
action_eq log log = true
action_eq nat nat = true
action_eq _ _ = false

abbrev pub Network : Type 0
Network = Option String → String → Option Bool

unfoldable pub ip_in_network : Network → Option String → String → Bool
ip_in_network net ip network = elim (net ip network) [ none ↦ false | some b ↦ b ]

-- The source and the destination address are checked alike.
unfoldable pub address_matches : Network → Option String → Option String → Bool
unfolding ip_in_network
address_matches net wanted ip = elim (truthy wanted) [
  | none ↦ true
  | some a ↦
      if str_eq a "any" then true else if has_slash a then ip_in_network net ip a else opt_eq ip a
]

unfoldable pub protocol_matches : Option Protocol → Protocol → Bool
protocol_matches none p = true
protocol_matches (some any) p = true
protocol_matches (some q) p = protocol_eq p q

unfoldable pub port_matches : Option ℕ → Option ℕ → Bool
port_matches wanted port = elim (truthy_num wanted) [ none ↦ true | some n ↦ opt_num_eq port n ]

unfoldable pub text_matches : Option String → String → Bool
text_matches wanted text = elim (truthy wanted) [ none ↦ true | some s ↦ str_eq text s ]

-- Each early `return False` is a factor, in the order of the code.
unfoldable pub matches : Network → FirewallRule → NetworkPacket → Bool
unfolding address_matches protocol_matches port_matches text_matches
matches net rule packet =
    rule.enabled
    && (address_matches net rule.src_ip (some packet.src_ip)
        && (address_matches net rule.dst_ip packet.dst_ip
            && (protocol_matches rule.protocol packet.protocol
                && (port_matches rule.src_port packet.src_port
                    && (port_matches rule.dst_port packet.dst_port
                        && (text_matches rule.interface_in packet.interface_in
                            && (text_matches rule.interface_out packet.interface_out
                                && text_matches rule.state packet.connection_state)))))))
