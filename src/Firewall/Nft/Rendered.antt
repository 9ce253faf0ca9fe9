-- ===== src/Firewall/Nft/Rendered.antt =====
-- Rule sets as they are rendered, and the theorems of the renderer at them.
use Prim.Native.Char.{code}
use mathlib.Core.List.{Perm}
use viswall.Prelude.{
  ℕ, true, false, ◌&&◌, ◌||◌, ◌≡◌, refl, none, some, List, [], ◌∷◌, ◌++◌, String, if◌then◌else◌,
  str_eq, ◌==◌, leb, map, select,
}
use viswall.Prelude.Sort.{insert, sort, IsSorted}
use viswall.Prelude.Lines.{IsLine, line}
use viswall.Firewall.Nft.Rules.{
  accept, drop, FirewallRule, NatRule, ip, ip6, Python, safe_ifname, valid_limit, quote,
}
use viswall.Firewall.Nft.Convert.{conditions, convert_rule_to_nft, ip_family, normalize_to_addr}
use viswall.Firewall.Nft.Convert.Lines.{convert_rule_to_nft-IsLine}
use viswall.Firewall.Nft.Convert.Targets.{IsTarget, normalize_to_addr-IsTarget}
use viswall.Firewall.Nft.Sections.{
  Meter, with_burst, meter_rate, is_anti_spoof, is_internal_port, is_user_rule, user_rules,
}
use viswall.Firewall.Nft.AntiSpoof.{anti_spoof_bridge, anti_spoof_lines}
use viswall.Firewall.Nft.Sections.Order.{user_rules-IsSorted}
use viswall.Firewall.Nft.Sections.Meters.{RateOf, meter_rate-RateOf}
use viswall.Firewall.Nft.NatChains.{render_nat}
use viswall.Firewall.Nft.Render.{generate_ruleset}
use viswall.Firewall.Nft.Render.Chains.{generate_ruleset-seen}

abbrev number_of : String → ℕ
number_of String.[] = 0
number_of (String.◌∷◌ c s) = code c

-- A stand-in for Python's library that knows a few texts.
abbrev python : Python
python = record {
  lower = λ s. if str_eq s "TCP" then "tcp" else s;
  upper = λ s. if str_eq s "new" then "NEW" else s;
  strip = λ s. s;
  is_space = λ c. code c == b' ' || code c == 9 || code c == 10;
  is_decimal = λ c. leb b'0' (code c) && leb (code c) b'9';
  is_word = λ c. leb b'a' (code c) && leb (code c) b'z';
  int_of = number_of;
  ip_address = λ s.
      if str_eq s "172.18.0.3" || str_eq s "198.51.100.7"
      then some ip
      else if str_eq s "fe80::1%\nflush ruleset\n"
      then some ip6
      else none;
  ip_network = λ s.
      if str_eq s "fe80::1%\nflush ruleset\n"
      then some ip6
      else if str_eq s "198.51.100.7"
      then some ip
      else none;
  ipv4 = λ s. if str_eq s "10.0.0.5" then some s else none;
  ipv6 = λ s. none;
}

abbrev ssh : FirewallRule
ssh = record {
  id = 1;
  name = "office";
  chain = "input";
  source = some "198.51.100.7";
  destination = none;
  protocol = some "TCP";
  source_port = none;
  destination_port = some 2222;
  interface_in = some "eth0";
  interface_out = none;
  action = accept;
  log_matches = false;
  state = some "new,odd";
  limit = none;
  comment = some "say \"hi\"";
  order = 20;
  anti_spoof = false;
}

ssh_line :
    convert_rule_to_nft python ssh
    ≡ "        iifname \"eth0\" ip saddr 198.51.100.7 ip protocol tcp tcp dport 2222 ct state NEW accept comment \"say \\\"hi\\\"\""
unfolding convert_rule_to_nft conditions ip_family safe_ifname valid_limit quote
ssh_line = refl

convert_rule_to_nft-IsLine_example : IsLine (convert_rule_to_nft python ssh)
convert_rule_to_nft-IsLine_example =
    convert_rule_to_nft-IsLine python ssh (line refl) (line refl) tt tt (line refl)

-- An IPv6 zone may hold any text, which is rendered as it is.
abbrev zoned : FirewallRule
zoned = record {
  id = 2;
  name = "zone";
  chain = "input";
  source = some "fe80::1%\nflush ruleset\n";
  destination = none;
  protocol = none;
  source_port = none;
  destination_port = none;
  interface_in = none;
  interface_out = none;
  action = accept;
  log_matches = false;
  state = none;
  limit = none;
  comment = none;
  order = 10;
  anti_spoof = false;
}

zoned_line : convert_rule_to_nft python zoned ≡ "        ip6 saddr fe80::1%\nflush ruleset\n accept"
unfolding convert_rule_to_nft conditions ip_family safe_ifname valid_limit quote
zoned_line = refl

target : normalize_to_addr python "10.0.0.5:8" ≡ some "10.0.0.5:8"
unfolding normalize_to_addr
target = refl

normalize_to_addr-IsTarget_example : IsTarget python "10.0.0.5:8"
normalize_to_addr-IsTarget_example =
    normalize_to_addr-IsTarget python "10.0.0.5:8" "10.0.0.5:8" target

user_rules-IsSorted_example :
    (shown : List FirewallRule) × (user_rules python (ssh ∷ zoned ∷ []) "input"
      ≡ map (convert_rule_to_nft python) shown)
    × (IsSorted (λ r. r.order) shown)
    × (Perm shown (select (is_user_rule python "input") (ssh ∷ zoned ∷ [])))
user_rules-IsSorted_example = user_rules-IsSorted python "input" (ssh ∷ zoned ∷ [])

-- A burst clause after a tab gets a second one.
tabbed : valid_limit python "10/minute\tburst 5 packets" ≡ true
unfolding valid_limit
tabbed = refl

two_bursts : with_burst "10/minute\tburst 5 packets" ≡ "10/minute\tburst 5 packets burst 5 packets"
unfolding with_burst
two_bursts = refl

abbrev ssh_limit : Meter
ssh_limit = record { proto = "tcp"; port = 22; name = "ssh_limit"; rate = "10/minute" }

abbrev slower : FirewallRule
slower = record {
  id = 3;
  name = "ssh";
  chain = "input";
  source = none;
  destination = none;
  protocol = some "TCP";
  source_port = none;
  destination_port = some 22;
  interface_in = none;
  interface_out = none;
  action = drop;
  log_matches = false;
  state = none;
  limit = some "3/minute";
  comment = none;
  order = 5;
  anti_spoof = false;
}

slower_rate : meter_rate python (ssh ∷ slower ∷ []) ssh_limit ip ≡ "3/minute"
unfolding meter_rate valid_limit
slower_rate = refl

meter_rate-RateOf_example :
    RateOf python ssh_limit ip
      (ssh ∷ slower ∷ [])
      (meter_rate python (ssh ∷ slower ∷ []) ssh_limit ip)
meter_rate-RateOf_example = meter_rate-RateOf python ssh_limit ip (ssh ∷ slower ∷ [])

-- A rule of the chain output.
abbrev outgoing : FirewallRule
outgoing = record {
  id = 4;
  name = "no smtp";
  chain = "output";
  source = none;
  destination = none;
  protocol = some "TCP";
  source_port = none;
  destination_port = some 25;
  interface_in = none;
  interface_out = none;
  action = drop;
  log_matches = false;
  state = none;
  limit = none;
  comment = none;
  order = 1;
  anti_spoof = false;
}

-- The rule of the chain output stands between two others.
generate_ruleset-seen_example :
    generate_ruleset python "now" false [] (ssh ∷ outgoing ∷ ssh ∷ []) [] true true
    ≡ generate_ruleset python "now" false [] (ssh ∷ ssh ∷ []) [] true true
generate_ruleset-seen_example =
    generate_ruleset-seen python "now" false [] (ssh ∷ outgoing ∷ ssh ∷ []) [] true true

-- An anti-spoof rule whose bridge is not known has no line at all.
abbrev spoofed : FirewallRule
spoofed = record {
  id = 5;
  name = "anti-spoof 172.18.0.3";
  chain = "forward";
  source = none;
  destination = some "172.18.0.3";
  protocol = none;
  source_port = none;
  destination_port = none;
  interface_in = none;
  interface_out = none;
  action = drop;
  log_matches = false;
  state = none;
  limit = none;
  comment = none;
  order = 1;
  anti_spoof = false;
}

spoofed_lines :
    anti_spoof_lines python (spoofed ∷ []) ++ user_rules python (spoofed ∷ []) "forward" ≡ []
unfolding anti_spoof_lines is_anti_spoof anti_spoof_bridge user_rules sort insert is_internal_port
spoofed_lines = refl

-- A masquerade rule is rendered as a comment with its name, whatever stands in it.
abbrev masquerade : NatRule
masquerade = record {
  id = 6;
  name = "home\nflush ruleset";
  type = "masquerade";
  chain = "postrouting";
  source = none;
  destination = none;
  to_source = none;
  to_destination = none;
  protocol = none;
  port = none;
  interface = none;
  comment = none;
}

masquerade_lines :
    render_nat python (masquerade ∷ [])
    ≡ "    chain prerouting {\n        type nat hook prerouting priority -110; policy accept;\n    }\n    chain postrouting {\n        type nat hook postrouting priority 90; policy accept;\n        # masquerade skipped (docker owns NAT): home\nflush ruleset\n    }"
unfolding render_nat
masquerade_lines = refl
