-- ===== src/Simulator/Cases/Custom.antt =====
-- shared/firewall_simulator.py: `get_custom_test`. The two random numbers are arguments; the
-- keywords are optional. `none`: `Protocol(...)` or `Action(...)` raised `ValueError`.
use viswall.Prelude.{
  ℕ, Bool, false, Option, none, some, List, [], ◌∷◌, String, str_eq, if◌then◌else◌, ◌>>=◌,
}
use viswall.Simulator.Packet.{Protocol, tcp, udp, icmp, any, Action, accept, drop, reject, log, nat}
use viswall.Simulator.Suite.{TestCase}

unfoldable pub parse_protocol : String → Option Protocol
parse_protocol s =
    if str_eq s "tcp"
    then some tcp
    else if str_eq s "udp"
    then some udp
    else if str_eq s "icmp"
    then some icmp
    else if str_eq s "any"
    then some any
    else none

unfoldable pub parse_action : String → Option Action
parse_action s =
    if str_eq s "accept"
    then some accept
    else if str_eq s "drop"
    then some drop
    else if str_eq s "reject"
    then some reject
    else if str_eq s "log"
    then some log
    else if str_eq s "nat"
    then some nat
    else none

-- The keyword arguments, each with the value that `kwargs.get` falls back to if it is not given.
pub record Keywords : Type 0 where
  pub description : Option String
  pub src_port : Option (Option ℕ)
  pub interface_in : Option String
  pub interface_out : Option String
  pub flags : Option (List String)
  pub connection_state : Option String
  pub critical : Option Bool
  pub tags : Option (List String)

abbrev given {ℓ} : {A : Type ℓ} → Option A → A → A
given none default = default
given (some a) default = a

-- `custom_id` is the text `custom-<random number>`, and `random_port` lies in 10000 .. 65000.
unfoldable pub get_custom_test :
    (custom_id : String) (random_port : ℕ) (name src_ip dst_ip protocol : String)
    (dst_port : Option ℕ) (expected_action : String)
    → Keywords
    → Option TestCase
unfolding parse_protocol parse_action
get_custom_test custom_id random_port name src_ip dst_ip protocol dst_port expected_action kw = do
  proto ← parse_protocol protocol
  action ← parse_action expected_action
  some (record {
    id = custom_id;
    name = name;
    description = given kw.description "";
    packet = record {
      src_ip = src_ip;
      dst_ip = some dst_ip;
      protocol = proto;
      src_port = given kw.src_port (some random_port);
      dst_port = dst_port;
      interface_in = given kw.interface_in "eth1";
      interface_out = given kw.interface_out "eth0";
      flags = given kw.flags ("SYN" ∷ []);
      payload_size = 64;
      connection_state = given kw.connection_state "NEW";
    };
    expected_action = action;
    expected_chain = none;
    critical = given kw.critical false;
    tags = given kw.tags [];
  })
