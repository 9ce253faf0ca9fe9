-- ===== src/Firewall/Nft/Convert.antt =====
-- services/firewall-service/viswall_firewall_agent/nft.py: `_convert_rule_to_nft`,
-- `_convert_nat_rule_to_nft` and the NAT targets they take.
pub mod Lines
pub mod Targets
use Prim.Native.Char.{Char, code}
use Prim.Native.String
use viswall.Prelude.{
  ℕ, ◌+◌, Bool, true, false, not, ◌&&◌, ◌||◌, Option, none, some, List, [], ◌∷◌, ◌++◌, String,
  if◌then◌else◌, str_eq, ◌==◌, leb, mem_str, has_slash, truthy, truthy_num, select, map, ◌>>=◌,
}
use viswall.Prelude.Texts.{concat, joined, decimal, split}
use viswall.Firewall.Nft.Rules.{
  FirewallAction, log, action_value, FirewallRule, NatRule, Family, ip, ip6, family_text, Python,
  is_some, or_empty, safe_ifname, after, leading, valid_limit, valid_net, quote, has_char,
  before_last_colon, after_last_colon,
}

abbrev pub proto_names : List String
proto_names = "tcp" ∷ "udp" ∷ "icmp" ∷ "icmpv6" ∷ "sctp" ∷ "igmp" ∷ "esp" ∷ "ah" ∷ "gre" ∷ []

abbrev pub ct_states : List String
ct_states = "NEW" ∷ "ESTABLISHED" ∷ "RELATED" ∷ "INVALID" ∷ "UNTRACKED" ∷ []

abbrev pub either_ip6 : Family → Family → Family
either_ip6 ip6 g = ip6
either_ip6 ip g = g

abbrev in_port_range : ℕ → Bool
in_port_range n = leb 1 n && leb n 65535

-- A condition on an optional value that is true in Python.
abbrev pub condition {ℓ} : {A : Type ℓ} → Option A → (A → List String) → List String
condition none f = []
condition (some a) f = f a

abbrev pub quoted_name : (keyword : String) → String → List String
quoted_name keyword s = if safe_ifname s then concat (keyword ∷ " \"" ∷ s ∷ "\"" ∷ []) ∷ [] else []

abbrev pub port_match : (proto keyword : String) → ℕ → List String
port_match proto keyword n =
    if in_port_range n then concat (proto ∷ " " ∷ keyword ∷ " " ∷ decimal n ∷ []) ∷ [] else []

abbrev pub protocol_match : Family → String → String
protocol_match ip proto = concat ("ip protocol " ∷ proto ∷ [])
protocol_match ip6 proto = concat ("ip6 nexthdr " ∷ proto ∷ [])

abbrev pub state_match : List String → List String
state_match [] = []
state_match (s ∷ states) = concat ("ct state " ∷ joined "," (s ∷ states) ∷ []) ∷ []

abbrev pub comment_part : Option String → String
comment_part none = ""
comment_part (some s) = concat (" comment " ∷ quote s ∷ [])

module _ (py : Python) where
  abbrev or_ip : Option Family → Family
  or_ip none = ip
  or_ip (some f) = f

  abbrev address_family : String → Family
  address_family s =
      if str_eq s "any"
      then ip
      else if has_slash s
      then or_ip (py.ip_network s)
      else or_ip (py.ip_address s)

  -- `_ip_family`
  unfoldable pub ip_family : Option String → Family
  ip_family none = ip
  ip_family (some s) = if str_eq s "" then ip else address_family s

  abbrev pub address_match : (side : String) → Family → String → List String
  address_match side f s =
      if valid_net py s then concat (family_text f ∷ " " ∷ side ∷ " " ∷ s ∷ []) ∷ [] else []

  abbrev pub unless_any : (String → List String) → String → List String
  unless_any f s = if str_eq s "any" then [] else f s

  abbrev pub known_protocol : String → (String → List String) → List String
  known_protocol s f =
      if str_eq s "any" then [] else if mem_str (py.lower s) proto_names then f (py.lower s) else []

  abbrev pub limit_match : String → List String
  limit_match s = if valid_limit py s then concat ("limit rate " ∷ s ∷ []) ∷ [] else []

  abbrev pub states_of : String → List String
  states_of s =
      state_match
        (select (λ t. mem_str t ct_states) (map (λ t. py.upper (py.strip t)) (split b',' s)))

  abbrev pub protocol_conditions : Family → FirewallRule → (proto : String) → List String
  protocol_conditions f r proto =
      protocol_match f proto
      ∷ (condition (truthy_num r.source_port) (port_match proto "sport")
          ++ condition (truthy_num r.destination_port) (port_match proto "dport"))

  unfoldable pub conditions : FirewallRule → List String
  conditions r =
      let source_family = ip_family r.source in
      let destination_family = ip_family r.destination in
      condition (truthy r.interface_in) (quoted_name "iifname")
      ++ (condition (truthy r.interface_out) (quoted_name "oifname")
          ++ (condition (truthy r.source) (unless_any (address_match "saddr" source_family))
              ++ (condition (truthy r.destination)
                    (unless_any (address_match "daddr" destination_family))
                  ++ (condition (truthy r.protocol) (λ s.
                        known_protocol s
                          (protocol_conditions (either_ip6 source_family destination_family) r))
                      ++ (condition (truthy r.state) states_of
                          ++ condition (truthy r.limit) limit_match)))))

  abbrev pub before_action : List String → String
  before_action [] = ""
  before_action (s ∷ parts) = concat (joined " " (s ∷ parts) ∷ " " ∷ [])

  abbrev pub verdict : FirewallAction → (log_matches : Bool) → (name : String) → String
  verdict log logs name = concat ("log prefix " ∷ name ∷ " accept" ∷ [])
  verdict action true name = concat ("log prefix " ∷ name ∷ " " ∷ action_value action ∷ [])
  verdict action false name = action_value action

  -- `_convert_rule_to_nft`, before the newline at its end
  unfoldable pub convert_rule_to_nft : FirewallRule → String
  convert_rule_to_nft r = concat (
      "        "
      ∷ before_action (conditions r)
      ∷ verdict r.action r.log_matches (quote (concat ("[NFT " ∷ r.name ∷ "]" ∷ [])))
      ∷ comment_part (truthy r.comment)
      ∷ [])

  -- `\d{1,5}` to the end, and the number in the range of the ports
  abbrev pub port_text : String → Option String
  port_text s =
      if not (str_eq s "")
        && str_eq (leading py.is_decimal s) s
        && leb (String.count s) 5
        && in_port_range (py.int_of s)
      then some s
      else none

  abbrev is_hex : Char → Bool
  is_hex c =
      (leb b'0' (code c) && leb (code c) b'9')
      || (leb b'a' (code c) && leb (code c) b'f')
      || (leb b'A' (code c) && leb (code c) b'F')
      || code c == b':'
      || code c == b'.'
      || code c == b'%'

  -- After the closing bracket: nothing, or a colon and a port.
  abbrev pub v6_target : (address rest : String) → Option String
  v6_target address rest = if str_eq rest "" then some (concat ("[" ∷ address ∷ "]" ∷ [])) else (do
    text ← after ":" rest
    port ← port_text text
    some (concat ("[" ∷ address ∷ "]:" ∷ port ∷ [])))

  abbrev pub bracketed : String → Option String
  bracketed s = do
    rest ← after (concat (leading is_hex s ∷ "]" ∷ [])) s
    address ← py.ipv6 (leading is_hex s)
    v6_target address rest

  abbrev pub with_port : String → Option String
  with_port s = do
    port ← port_text (after_last_colon s)
    address ← py.ipv4 (before_last_colon s)
    some (concat (address ∷ ":" ∷ port ∷ []))

  abbrev is_broken : String → Bool
  is_broken s = str_eq s "" || has_char 10 s || has_char 13 s || has_char b'=' s

  abbrev pub opened : Option String → String → Option String
  opened (some rest) s = bracketed rest
  opened none s = if has_char b':' s then with_port s else py.ipv4 s

  -- `_normalize_to_addr`
  unfoldable pub normalize_to_addr : String → Option String
  normalize_to_addr s = if is_broken s then none else opened (after "[" s) s

  unfoldable pub nat_conditions : NatRule → List String
  nat_conditions r =
      let source_family = ip_family r.source in
      let destination_family = ip_family r.destination in
      condition (truthy r.interface) (quoted_name "iifname")
      ++ (condition (truthy r.source) (address_match "saddr" source_family)
          ++ (condition (truthy r.destination) (address_match "daddr" destination_family)
              ++ condition (truthy r.protocol) (λ s. known_protocol s (λ proto.
                protocol_match (either_ip6 source_family destination_family) proto
                ∷ condition (truthy_num r.port) (port_match proto "dport")))))

  abbrev pub nat_line : NatRule → (target : String) → String
  nat_line r target = concat (
      "        " ∷ before_action (nat_conditions r) ∷ target ∷ comment_part (truthy r.comment) ∷ [])

  abbrev pub nat_target : (keyword : String) → Option String → Option String
  nat_target keyword none = none
  nat_target keyword (some s) = do
    address ← normalize_to_addr s
    some (concat (keyword ∷ " to " ∷ address ∷ []))

  abbrev target_of : NatRule → Option String
  target_of r =
      if str_eq r.type "dnat"
      then nat_target "dnat" (truthy r.to_destination)
      else if str_eq r.type "snat"
      then nat_target "snat" (truthy r.to_source)
      else some ""

  -- `_convert_nat_rule_to_nft`, before the newline at its end; `none` is the empty text.
  unfoldable pub convert_nat_rule_to_nft : NatRule → Option String
  convert_nat_rule_to_nft r = do target ← target_of r; some (nat_line r target)
