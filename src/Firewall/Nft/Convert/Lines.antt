-- ===== src/Firewall/Nft/Convert/Lines.antt =====
-- services/firewall-service/viswall_firewall_agent/nft.py: a rule is rendered in one line.
use Prim.Native.Char.{code}
use viswall.Prelude.{
  ℕ, Bool, true, false, ◌≡◌, refl, Option, none, some, List, [], ◌∷◌, ◌++◌, String, if◌then◌else◌,
  str_eq, ◌==◌, mem_str, truthy, truthy_num, select, map, All, arith, Bool-cases, inl, inr,
}
use viswall.Prelude.Texts.{concat, joined, split}
use viswall.Prelude.Lines.{
  all_chars-weaken, is_inline, line, IsLine, if-IsLine, ◌⊕◌, decimal-IsLine, mem_str-IsLine,
}
use viswall.Firewall.Nft.Rules.{
  FirewallAction, accept, drop, reject, log, queue, action_value, FirewallRule, Family, ip, ip6,
  family_text, Python, is_ifname_char, safe_ifname, valid_limit, valid_net, escaped, quote,
}
use viswall.Firewall.Nft.Convert.{
  proto_names, ct_states, either_ip6, condition, quoted_name, port_match, protocol_match,
  state_match, comment_part, ip_family, address_match, unless_any, known_protocol, limit_match,
  states_of, protocol_conditions, conditions, before_action, verdict, convert_rule_to_nft,
}

abbrev pub IsLineOrNone : Option String → Type 0
IsLineOrNone none = Unit
IsLineOrNone (some s) = IsLine s

truthy-IsLineOrNone : (o : Option String) → IsLineOrNone o → IsLineOrNone (truthy o)
truthy-IsLineOrNone none h = tt
truthy-IsLineOrNone (some s) h = elim (Bool-cases (str_eq s "")) [
  | inl e ↦ rw e tt
  | inr e ↦ rw e h
]

All-append : (xs ys : List String) → All IsLine xs → All IsLine ys → All IsLine (xs ++ ys)
All-append [] ys a b = b
All-append (x ∷ xs) ys a b = (a.0, All-append xs ys a.1 b)

condition-All :
    {A : Type 0} (o : Option A) (f : A → List String)
    → ((a : A) → All IsLine (f a))
    → All IsLine (condition o f)
condition-All none f h = tt
condition-All (some a) f h = h a

condition-All_text :
    (o : Option String) (f : String → List String)
    → IsLineOrNone o
    → ((s : String) → IsLine s → All IsLine (f s))
    → All IsLine (condition (truthy o) f)
condition-All_text none f i h = tt
condition-All_text (some s) f i h = elim (Bool-cases (str_eq s "")) [
  | inl e ↦ rw e tt
  | inr e ↦ rw e (h s i)
]

-- A line or nothing.
if-All : (b : Bool) (s : String) → (b ≡ true → IsLine s) → All IsLine (if b then s ∷ [] else [])
if-All true s h = (h refl, tt)
if-All false s h = tt

safe_ifname-IsLine : (s : String) → safe_ifname s ≡ true → IsLine s
unfolding safe_ifname
safe_ifname-IsLine s h =
    line (all_chars-weaken is_ifname_char is_inline s (λ c a. ground arith) (ground arith))

quoted_name-All : (keyword s : String) → IsLine keyword → All IsLine (quoted_name keyword s)
quoted_name-All keyword s k =
    if-All (safe_ifname s) _ (λ h. (k ⊕ (line refl) ⊕ (safe_ifname-IsLine s h) ⊕ line refl))

port_match-All :
    (proto keyword : String) (n : ℕ)
    → IsLine proto
    → IsLine keyword
    → All IsLine (port_match proto keyword n)
port_match-All proto keyword n p k =
    if-All _ _ (λ h. (p ⊕ (line refl) ⊕ k ⊕ (line refl) ⊕ (decimal-IsLine n) ⊕ (line refl)))

protocol_match-IsLine :
    (f : Family) (proto : String) → IsLine proto → IsLine (protocol_match f proto)
protocol_match-IsLine ip proto p = ((line refl) ⊕ p ⊕ (line refl))
protocol_match-IsLine ip6 proto p = ((line refl) ⊕ p ⊕ (line refl))

family_text-IsLine : (f : Family) → IsLine (family_text f)
family_text-IsLine ip = line refl
family_text-IsLine ip6 = line refl

joined-IsLine :
    (separator : String) (xs : List String)
    → IsLine separator
    → All IsLine xs
    → IsLine (joined separator xs)
joined-IsLine separator [] s a = line refl
joined-IsLine separator (x ∷ []) s a = a.0
joined-IsLine separator (x ∷ y ∷ xs) s a =
    (a.0 ⊕ s ⊕ (joined-IsLine separator (y ∷ xs) s a.1) ⊕ (line refl))

ct_states-All : All IsLine ct_states
ct_states-All = ((line refl), ((line refl), ((line refl), ((line refl), ((line refl), tt)))))

proto_names-All : All IsLine proto_names
proto_names-All = (
  (line refl),
  (
    (line refl),
    (
      (line refl),
      ((line refl), ((line refl), ((line refl), ((line refl), ((line refl), ((line refl), tt)))))),
    ),
  ),
)

states-All : (xs : List String) → All IsLine (select (λ t. mem_str t ct_states) xs)
states-All [] = tt
states-All (x ∷ xs) = elim (Bool-cases (mem_str x ct_states)) [
  | inl e ↦ rw e (mem_str-IsLine x ct_states ct_states-All e, states-All xs)
  | inr e ↦ rw e (states-All xs)
]

state_match-All : (xs : List String) → All IsLine xs → All IsLine (state_match xs)
state_match-All [] a = tt
state_match-All (x ∷ xs) a =
    (((line refl) ⊕ (joined-IsLine "," (x ∷ xs) (line refl) a) ⊕ (line refl)), tt)

pub escaped-IsLine : (s : String) → IsLine s → IsLine (escaped s)
escaped-IsLine String.[] h = line refl
escaped-IsLine (String.◌∷◌ c s) h =
    let rest = escaped-IsLine s (line (ground (arith, h.chars))) in
    if-IsLine (code c == b'\\') _ _ (((line refl) ⊕ rest ⊕ (line refl))) (
      if-IsLine (code c == b'"') _ _ (((line refl) ⊕ rest ⊕ (line refl)))
        (line (ground (arith, rest.chars, h.chars))))

pub quote-IsLine : (s : String) → IsLine s → IsLine (quote s)
unfolding quote
quote-IsLine s h = ((line refl) ⊕ (escaped-IsLine s h) ⊕ line refl)

pub comment_part-IsLine : (o : Option String) → IsLineOrNone o → IsLine (comment_part o)
comment_part-IsLine none h = line refl
comment_part-IsLine (some s) h = ((line refl) ⊕ (quote-IsLine s h) ⊕ (line refl))

action_value-IsLine : (a : FirewallAction) → IsLine (action_value a)
action_value-IsLine accept = line refl
action_value-IsLine drop = line refl
action_value-IsLine reject = line refl
action_value-IsLine log = line refl
action_value-IsLine queue = line refl

before_action-IsLine :
    (py : Python) (xs : List String) → All IsLine xs → IsLine (before_action py xs)
before_action-IsLine py [] a = line refl
before_action-IsLine py (x ∷ xs) a = ((joined-IsLine " " (x ∷ xs) (line refl) a) ⊕ line refl)

verdict-IsLine :
    (py : Python) (a : FirewallAction) (logs : Bool) (name : String)
    → IsLine name
    → IsLine (verdict py a logs name)
verdict-IsLine py log logs name n = ((line refl) ⊕ n ⊕ line refl)
verdict-IsLine py accept true name n = (line refl) ⊕ n ⊕ line refl
verdict-IsLine py drop true name n = (line refl) ⊕ n ⊕ line refl
verdict-IsLine py reject true name n = (line refl) ⊕ n ⊕ line refl
verdict-IsLine py queue true name n = (line refl) ⊕ n ⊕ line refl
verdict-IsLine py accept false name n = line refl
verdict-IsLine py drop false name n = line refl
verdict-IsLine py reject false name n = line refl
verdict-IsLine py queue false name n = line refl

module _ (py : Python) where
  address_match-All :
      (side : String) (f : Family) (s : String)
      → IsLine side
      → IsLine s
      → All IsLine (unless_any py (address_match py side f) s)
  address_match-All side f s a h = elim (Bool-cases (str_eq s "any")) [
    | inl e ↦ rw e tt
    | inr e ↦ rw e (
        if-All (valid_net py s) _
          (λ v. ((family_text-IsLine f) ⊕ (line refl) ⊕ a ⊕ (line refl) ⊕ h ⊕ (line refl))))
  ]

  -- The conditions that a protocol opens.
  known_protocol-All :
      (s : String) (f : String → List String)
      → ((proto : String) → IsLine proto → All IsLine (f proto))
      → All IsLine (known_protocol py s f)
  known_protocol-All s f h = elim (Bool-cases (str_eq s "any")) [
    | inl e ↦ rw e tt
    | inr e ↦ elim (Bool-cases (mem_str (py.lower s) proto_names)) [
      | inl m ↦
          rw (e, m) (h (py.lower s) (mem_str-IsLine (py.lower s) proto_names proto_names-All m))
      | inr m ↦ rw (e, m) tt
    ]
  ]

  protocol_conditions-All :
      (f : Family) (r : FirewallRule) (proto : String)
      → IsLine proto
      → All IsLine (protocol_conditions py f r proto)
  protocol_conditions-All f r proto p = (
    protocol_match-IsLine f proto p,
    All-append _ _
        (condition-All (truthy_num r.source_port) _
          (λ n. port_match-All proto "sport" n p (line refl)))
        (condition-All (truthy_num r.destination_port) _
          (λ n. port_match-All proto "dport" n p (line refl))),
  )

  states_of-All : (s : String) → All IsLine (states_of py s)
  states_of-All s = state_match-All _ (states-All (map (λ t. py.upper (py.strip t)) (split b',' s)))

  limit_match-All : (s : String) → IsLine s → All IsLine (limit_match py s)
  limit_match-All s h =
      if-All (valid_limit py s) (concat ("limit rate " ∷ s ∷ [])) (λ v. (line refl) ⊕ h ⊕ line refl)

  conditions-All :
      (r : FirewallRule)
      → IsLineOrNone r.source
      → IsLineOrNone r.destination
      → IsLineOrNone r.limit
      → All IsLine (conditions py r)
  unfolding conditions
  conditions-All r source destination limit =
      let sf = ip_family py r.source in
      let df = ip_family py r.destination in
      All-append _ _
        (condition-All (truthy r.interface_in) _ (λ s. quoted_name-All "iifname" s (line refl)))
        (All-append _ _
          (condition-All (truthy r.interface_out) _ (λ s. quoted_name-All "oifname" s (line refl)))
          (All-append _ _
            (condition-All_text r.source _ source
              (λ s h. address_match-All "saddr" sf s (line refl) h))
            (All-append _ _
              (condition-All_text r.destination _ destination
                (λ s h. address_match-All "daddr" df s (line refl) h))
              (All-append _ _
                (condition-All (truthy r.protocol) _ (λ s.
                  known_protocol-All s (protocol_conditions py (either_ip6 sf df) r)
                    (λ proto p. protocol_conditions-All (either_ip6 sf df) r proto p)))
                (All-append _ _ (condition-All (truthy r.state) (states_of py) states_of-All)
                  (condition-All_text r.limit (limit_match py) limit limit_match-All))))))

-- A rule whose name, source, destination, limit and comment have no newline is rendered without one,
-- whatever stands in its interfaces, protocol, ports and states.
pub convert_rule_to_nft-IsLine :
    (py : Python) (r : FirewallRule)
    → IsLine r.name
    → IsLineOrNone r.source
    → IsLineOrNone r.destination
    → IsLineOrNone r.limit
    → IsLineOrNone r.comment
    → IsLine (convert_rule_to_nft py r)
unfolding convert_rule_to_nft
convert_rule_to_nft-IsLine py r name source destination limit comment =
    let named = quote-IsLine _ (((line refl) ⊕ name ⊕ line refl)) in
    ((line refl)
      ⊕ (before_action-IsLine py _ (conditions-All py r source destination limit))
      ⊕ (verdict-IsLine py r.action r.log_matches _ named)
      ⊕ (comment_part-IsLine (truthy r.comment) (truthy-IsLineOrNone r.comment comment))
      ⊕ (line refl))
