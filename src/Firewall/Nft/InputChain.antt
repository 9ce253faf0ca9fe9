-- ===== src/Firewall/Nft/InputChain.antt =====
-- services/firewall-service/viswall_firewall_agent/nft.py: `_render_input`, with the texts that the chains share.
use viswall.Prelude.{ℕ, Bool, true, false, List, [], ◌∷◌, ◌++◌, String, if◌then◌else◌, map}
use viswall.Prelude.Texts.{concat, joined, decimal}
use viswall.Firewall.Nft.Rules.{FirewallRule, ip, ip6, Python}
use viswall.Firewall.Nft.Sections.{
  Ports, port, range, port_set, Meter, meter_specs, with_burst, meter_rate, user_rules,
}

-- `"\n".join(lines)`
abbrev pub unlines : List String → String
unlines lines = joined "\n" lines

abbrev pub when : Bool → List String → List String
when true lines = lines
when false lines = []

abbrev pub policy_text : Bool → String
policy_text validation = if validation then "accept" else "drop"

-- _MGMT_ACCEPTS, by protocol and family
abbrev v4_tcp : List Ports
v4_tcp =
    port 22
    ∷ port 80
    ∷ port 443
    ∷ port 25
    ∷ port 53
    ∷ port 110
    ∷ port 143
    ∷ port 993
    ∷ port 995
    ∷ range 21114 21119
    ∷ []

abbrev v4_udp : List Ports
v4_udp = port 51820 ∷ port 53 ∷ port 21116 ∷ []

abbrev v6_tcp : List Ports
v6_tcp = port 22 ∷ port 80 ∷ port 443 ∷ []

abbrev v6_udp : List Ports
v6_udp = port 51820 ∷ []

abbrev pub ports : List ℕ → String
ports ns = port_set (map (λ n. port n) ns)

module _ (py : Python) where
  abbrev meter_line : (version suffix address : String) → Meter → (rate : String) → String
  meter_line version suffix address m rate = concat (
      "        meta nfproto "
      ∷ version
      ∷ " "
      ∷ m.proto
      ∷ " dport "
      ∷ decimal m.port
      ∷ " meter "
      ∷ m.name
      ∷ suffix
      ∷ " { "
      ∷ address
      ∷ " saddr limit rate over "
      ∷ rate
      ∷ " } drop"
      ∷ [])

  abbrev pub meter_lines : List FirewallRule → List Meter → List String
  meter_lines rules [] = []
  meter_lines rules (m ∷ meters) =
      meter_line "ipv4" "" "ip" m (with_burst (meter_rate py rules m ip))
      ∷ meter_line "ipv6" "_v6" "ip6" m (with_burst (meter_rate py rules m ip6))
      ∷ meter_lines rules meters

  abbrev accept_line : (version proto : String) → List Ports → String
  accept_line version proto accepted = concat (
      "        meta nfproto "
      ∷ version
      ∷ " "
      ∷ proto
      ∷ " dport "
      ∷ port_set accepted
      ∷ " accept"
      ∷ [])

  -- What precedes the rules of the chain input.
  abbrev pub input_guards : (meters : List String) → (conntrack : Bool) → List String
  input_guards meters conntrack =
      when conntrack
        ("        # Connection tracking" ∷ "        ct state established,related accept" ∷ [])
      ++ ("        # Blacklist (host INPUT only, pre-accept precedence)"
          ∷ "        ip saddr @blacklist_v4 drop"
          ∷ "        ip6 saddr @blacklist_v6 drop"
          ∷ "        # Loopback"
          ∷ "        iif \"lo\" accept"
          ∷ "        # ICMP / ICMPv6 rate limited (deliberate addition — live drops all icmp; parity rows A05/A06)"
          ∷ "        ip protocol icmp limit rate 5/second accept"
          ∷ "        ip6 nexthdr icmpv6 limit rate 5/second accept"
          ∷ (meters
              ++ accept_line "ipv4" "tcp" v4_tcp
                ∷ accept_line "ipv4" "udp" v4_udp
                ∷ accept_line "ipv6" "tcp" v6_tcp
                ∷ accept_line "ipv6" "udp" v6_udp
                ∷ "        # Container bridges (docker coexistence) — live INPUT accepts docker0 only"
                ∷ "        iifname \"docker0\" accept"
                ∷ "        iifname \"docker0\" tcp dport {8081, 8083, 8085} accept"
                ∷ "        iifname \"br-*\" tcp dport {8081, 8083, 8085} accept"
                ∷ "        # PostgreSQL never exposed"
                ∷ "        tcp dport 5432 drop"
                ∷ []))

  abbrev last_drop : Bool → String
  last_drop logging =
      if logging
      then "        log prefix \"FIREWALL-DROP: \" limit rate 5/minute drop"
      else "        drop"

  abbrev pub input_text : (meters users : List String) → (conntrack logging : Bool) → String
  input_text meters users conntrack logging = unlines (
      "    chain input {"
      ∷ "        type filter hook input priority -200; policy drop;"
      ∷ (input_guards meters conntrack
          ++ (users
              ++ (when conntrack ("        ct state invalid drop" ∷ [])
                  ++ last_drop logging ∷ "    }" ∷ []))))

  -- `_render_input`
  unfoldable pub render_input :
      (validation : Bool) → List FirewallRule → (conntrack logging : Bool) → String
  render_input true rules conntrack logging = unlines (
      "    chain input {" ∷ "        type filter hook input priority -200; policy accept;"
      ∷ "        log prefix \"VW-VALIDATION: input \" limit rate 10/minute accept" ∷ "    }" ∷ [])
  render_input false rules conntrack logging =
      input_text (meter_lines rules meter_specs) (user_rules py rules "input") conntrack logging
