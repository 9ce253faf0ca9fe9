-- ===== src/Firewall/Qos/Commands.antt =====
-- services/firewall-service/viswall_firewall_agent/qos.py: the arguments of the tc commands. An argument
-- is a word, or the text that an f-string makes of a number.
use viswall.Prelude.{ℕ, List, [], ◌∷◌, String}
use viswall.Firewall.Qos.{MatchProtocol, any, tcp, udp}

pub data Arg : Type 0 where
  word : String → Arg
  num : ℕ → Arg
  kbit : ℕ → Arg
  classid : (minor : ℕ) → Arg

abbrev pub Argv : Type 0
Argv = List Arg

abbrev pub proto_word : MatchProtocol → String
proto_word tcp = "tcp"
proto_word _ = "udp"

-- `"6" if protocol == "tcp" else "17"`
abbrev pub proto_number : MatchProtocol → ℕ
proto_number tcp = 6
proto_number _ = 17

-- The protocols of a class: both for "any".
abbrev pub protocols : MatchProtocol → List MatchProtocol
protocols any = tcp ∷ udp ∷ []
protocols p = p ∷ []

abbrev pub base_id : ℕ
base_id = 10

abbrev pub filter_argv : String → ℕ → MatchProtocol → ℕ → Argv
filter_argv interface minor protocol port =
    word "filter"
    ∷ word "add"
    ∷ word "dev"
    ∷ word interface
    ∷ word "protocol"
    ∷ word "ip"
    ∷ word "parent"
    ∷ word "1:0"
    ∷ word "prio"
    ∷ word "1"
    ∷ word "u32"
    ∷ word "match"
    ∷ word "ip"
    ∷ word "protocol"
    ∷ num (proto_number protocol)
    ∷ word "0xff"
    ∷ word "match"
    ∷ word (proto_word protocol)
    ∷ word "dport"
    ∷ num port
    ∷ word "0xffff"
    ∷ word "flowid"
    ∷ classid minor
    ∷ []

abbrev pub filter_ipv6_argv : String → ℕ → MatchProtocol → ℕ → Argv
filter_ipv6_argv interface minor protocol port =
    word "filter"
    ∷ word "add"
    ∷ word "dev"
    ∷ word interface
    ∷ word "protocol"
    ∷ word "ipv6"
    ∷ word "parent"
    ∷ word "1:0"
    ∷ word "prio"
    ∷ word "1"
    ∷ word "flower"
    ∷ word "ip_proto"
    ∷ word (proto_word protocol)
    ∷ word "dst_port"
    ∷ num port
    ∷ word "flowid"
    ∷ classid minor
    ∷ []

abbrev pub class_argv : String → ℕ → ℕ → ℕ → ℕ → Argv
class_argv interface minor rate ceil prio =
    word "class"
    ∷ word "add"
    ∷ word "dev"
    ∷ word interface
    ∷ word "parent"
    ∷ word "1:1"
    ∷ word "classid"
    ∷ classid minor
    ∷ word "htb"
    ∷ word "rate"
    ∷ kbit rate
    ∷ word "ceil"
    ∷ kbit ceil
    ∷ word "prio"
    ∷ num prio
    ∷ []

abbrev pub leaf_argv : String → ℕ → Argv
leaf_argv interface minor =
    word "qdisc"
    ∷ word "add"
    ∷ word "dev"
    ∷ word interface
    ∷ word "parent"
    ∷ classid minor
    ∷ word "fq_codel"
    ∷ []

abbrev pub root_argv : String → ℕ → Argv
root_argv interface minor =
    word "qdisc"
    ∷ word "add"
    ∷ word "dev"
    ∷ word interface
    ∷ word "root"
    ∷ word "handle"
    ∷ word "1:"
    ∷ word "htb"
    ∷ word "default"
    ∷ num minor
    ∷ []

abbrev pub root_class_argv : String → ℕ → Argv
root_class_argv interface rate =
    word "class"
    ∷ word "add"
    ∷ word "dev"
    ∷ word interface
    ∷ word "parent"
    ∷ word "1:"
    ∷ word "classid"
    ∷ word "1:1"
    ∷ word "htb"
    ∷ word "rate"
    ∷ kbit rate
    ∷ word "burst"
    ∷ word "15k"
    ∷ []

abbrev pub cake_argv : String → ℕ → Argv
cake_argv interface download_rate =
    word "qdisc"
    ∷ word "add"
    ∷ word "dev"
    ∷ word interface
    ∷ word "root"
    ∷ word "handle"
    ∷ word "1:"
    ∷ word "cake"
    ∷ word "bandwidth"
    ∷ kbit download_rate
    ∷ word "diffserv4"
    ∷ word "dual-srchost"
    ∷ word "nat"
    ∷ word "wash"
    ∷ []

abbrev pub fq_codel_argv : String → Argv
fq_codel_argv interface =
    word "qdisc"
    ∷ word "add"
    ∷ word "dev"
    ∷ word interface
    ∷ word "root"
    ∷ word "handle"
    ∷ word "1:"
    ∷ word "fq_codel"
    ∷ word "flows"
    ∷ word "1024"
    ∷ word "quantum"
    ∷ word "1514"
    ∷ []
