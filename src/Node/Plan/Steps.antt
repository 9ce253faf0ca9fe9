-- ===== src/Node/Plan/Steps.antt =====
-- When the groups of steps of one interface have no command.
use viswall.Prelude.{
  ℕ, true, false, not, ◌&&◌, ◌≡◌, refl, sym, ap, subst, ◌∙◌, Option, none, some, List, [], ◌∷◌,
  ◌++◌, map, String, if◌then◌else◌, str_eq, truthy, opt_eq, select, All, ◌↔◌, inl, inr, arith,
  eq_iff, Bool-cases, opt_num_eq_iff, opt_eq_iff, Option-cases, str_eq_refl,
}
use viswall.Node.{LiveInterface, InterfaceConfig, PlannedStep}
use viswall.Node.Plan.{
  Address, same_address, mem_address, ipv4_addresses, is_static, manage_address, set_step,
  stale_step, address_steps, mtu_steps, link_steps, gateway_steps, route_steps, note_steps,
}

-- No step of the list has a command.
abbrev pub IsQuiet : List PlannedStep → Type 0
IsQuiet steps = All (λ s. s.argv ≡ []) steps

-- The IPv4 addresses are what the configuration asks for.
abbrev pub AddressMatches : InterfaceConfig → Option Address → List Address → Type 0
AddressMatches cfg (some a) current = (mem_address a current ≡ true) × All (λ x. x ≡ a) current
AddressMatches cfg none current = (is_static cfg && not cfg.enabled) ≡ true → current ≡ []

-- The default route is what the configuration asks for, where it manages it.
abbrev pub GatewayMatches :
    (default_iface default_gw : Option String) → InterfaceConfig → Option String → Type 0
GatewayMatches default_iface default_gw cfg (some via) =
    (default_iface ≡ some cfg.name) × (default_gw ≡ some via)
GatewayMatches default_iface default_gw cfg none = opt_eq default_iface cfg.name ≡ false

pub record Matches (default_iface default_gw : Option String) (cfg : InterfaceConfig)
    (current : LiveInterface) (desired : Option Address) : Type 0 where
  pub addresses : AddressMatches cfg desired (ipv4_addresses current.addresses)
  pub mtu : (n : ℕ) → cfg.mtu ≡ some n → current.mtu ≡ some n
  pub up : current.up ≡ cfg.enabled
  pub gateway :
      manage_address cfg ≡ true → GatewayMatches default_iface default_gw cfg (truthy cfg.gateway)

pub IsQuiet-append : (xs ys : List PlannedStep) → IsQuiet (xs ++ ys) ↔ (IsQuiet xs × IsQuiet ys)
IsQuiet-append [] ys = (λ q. (tt, q), λ q. q.1)
IsQuiet-append (x ∷ xs) ys = (
  λ q. let (a, b) = (IsQuiet-append xs ys).0 q.1 in ((q.0, a), b),
  λ q. (q.0.0, (IsQuiet-append xs ys).1 (q.0.1, q.1)),
)

same_address-eq : (a x : Address) → same_address a x ≡ true → x ≡ a
same_address-eq (a, p) (b, q) h = ground (arith, eq_iff a b)

same_address_refl : (a : Address) → same_address a a ≡ true
same_address_refl (a, p) = ground (arith, str_eq_refl a)

stale-IsQuiet :
    (name suffix : String) (xs : List Address) → IsQuiet (map (stale_step name suffix) xs) → xs ≡ []
stale-IsQuiet name suffix [] q = refl
stale-IsQuiet name suffix (x ∷ xs) q = cc

kept-All :
    (a : Address) (xs : List Address)
    → select (λ x. not (same_address a x)) xs ≡ []
    → All (λ x. x ≡ a) xs
kept-All a [] h = tt
kept-All a (x ∷ xs) h = elim (Bool-cases (same_address a x)) [
  | inl e ↦ (same_address-eq a x e, kept-All a xs (ground arith))
  | inr e ↦ ground arith
]

All-kept :
    (a : Address) (xs : List Address)
    → All (λ x. x ≡ a) xs
    → select (λ x. not (same_address a x)) xs ≡ []
All-kept a [] all = refl
All-kept a (x ∷ xs) all =
    let same : same_address a x ≡ true = ap (λ y. same_address a y) all.0 ∙ same_address_refl a in
    rw same (All-kept a xs all.1)

pub IsQuiet-AddressMatches :
    (cfg : InterfaceConfig) (desired : Option Address) (current : List Address)
    → IsQuiet (address_steps cfg desired current)
    → AddressMatches cfg desired current
unfolding address_steps
IsQuiet-AddressMatches cfg (some a) current q =
    let (set, stale) =
      (IsQuiet-append (if mem_address a current then [] else set_step cfg.name a ∷ []) _).0 q in
    (
      elim (Bool-cases (mem_address a current)) [ inl e ↦ e | inr e ↦ ground arith ],
      kept-All a current (stale-IsQuiet cfg.name "" _ stale),
    )
IsQuiet-AddressMatches cfg none current q = λ e.
    stale-IsQuiet cfg.name " (interface disabled)" current (
      subst
        (λ b. IsQuiet (if b then map (stale_step cfg.name " (interface disabled)") current else []))
        e q)

pub AddressMatches-IsQuiet :
    (cfg : InterfaceConfig) (desired : Option Address) (current : List Address)
    → AddressMatches cfg desired current
    → IsQuiet (address_steps cfg desired current)
unfolding address_steps
AddressMatches-IsQuiet cfg (some a) current (known, all) = rw (known, All-kept a current all) tt
AddressMatches-IsQuiet cfg none current m = elim (Bool-cases (is_static cfg && not cfg.enabled)) [
  | inl e ↦ rw (e, m e) tt
  | inr e ↦ rw e tt
]

pub IsQuiet-mtu :
    (cfg : InterfaceConfig) (current : LiveInterface)
    → IsQuiet (mtu_steps cfg current) ↔ ((n : ℕ) → cfg.mtu ≡ some n → current.mtu ≡ some n)
unfolding mtu_steps
IsQuiet-mtu cfg current = elim (Option-cases cfg.mtu) [
  | inl e ↦ (λ q n h. cc, λ k. rw e tt)
  | inr (m, e) ↦ (
    λ q n h. ground (arith, opt_num_eq_iff current.mtu n),
    λ k. rw (e, (opt_num_eq_iff current.mtu m).1 (k m e)) tt,
  )
]

pub IsQuiet-link :
    (cfg : InterfaceConfig) (current : LiveInterface)
    → IsQuiet (link_steps cfg current) ↔ (current.up ≡ cfg.enabled)
unfolding link_steps
IsQuiet-link cfg current = elim (Bool-cases cfg.enabled) [
  | inl e ↦ elim (Bool-cases current.up) [
    | inl u ↦ (λ q. u ∙ sym e, λ k. rw (e, u) tt)
    | inr u ↦ (λ q. ground arith, λ k. cc)
  ]
  | inr e ↦ elim (Bool-cases current.up) [
    | inl u ↦ (λ q. ground arith, λ k. cc)
    | inr u ↦ (λ q. u ∙ sym e, λ k. rw (e, u) tt)
  ]
]

IsQuiet-route :
    (default_iface default_gw : Option String) (cfg : InterfaceConfig) (via : Option String)
    → IsQuiet (route_steps default_iface default_gw cfg.name via)
      ↔ GatewayMatches default_iface default_gw cfg via
IsQuiet-route default_iface default_gw cfg none = (λ q. ground arith, λ k. rw k tt)
IsQuiet-route default_iface default_gw cfg (some via) =
    elim (Bool-cases (opt_eq default_iface cfg.name)) [
      | inl a ↦ elim (Bool-cases (opt_eq default_gw via)) [
        | inl b ↦ (
          λ q. ((opt_eq_iff default_iface cfg.name).0 a, (opt_eq_iff default_gw via).0 b),
          λ k. rw (a, b) tt,
        )
        | inr b ↦ (λ q. ground arith, λ k. ground (arith, (opt_eq_iff default_gw via).1 k.1))
      ]
      | inr a ↦ (λ q. ground arith, λ k. ground (arith, (opt_eq_iff default_iface cfg.name).1 k.0))
    ]

pub IsQuiet-gateway :
    (default_iface default_gw : Option String) (cfg : InterfaceConfig)
    → IsQuiet (gateway_steps default_iface default_gw cfg) ↔ (
        manage_address cfg ≡ true
        → GatewayMatches default_iface default_gw cfg (truthy cfg.gateway))
unfolding gateway_steps
IsQuiet-gateway default_iface default_gw cfg = elim (Bool-cases (manage_address cfg)) [
  | inl e ↦
      let route = IsQuiet-route default_iface default_gw cfg (truthy cfg.gateway) in
      (
        λ q h. route.0 (
            subst
              (λ b. IsQuiet (
                if b
                then route_steps default_iface default_gw cfg.name (truthy cfg.gateway)
                else []))
              e q),
        λ k. rw e (route.1 (k e)),
      )
  | inr e ↦ (λ q h. cc, λ k. rw e tt)
]

pub note-IsQuiet : (cfg : InterfaceConfig) → IsQuiet (note_steps cfg)
unfolding note_steps
note-IsQuiet cfg = elim (Bool-cases (str_eq cfg.config_type "dhcp" && cfg.enabled)) [
  | inl e ↦ rw e (refl, tt)
  | inr e ↦ rw e tt
]
