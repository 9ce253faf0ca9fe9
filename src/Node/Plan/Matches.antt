-- ===== src/Node/Plan/Matches.antt =====
-- `plan_changes` plans a command only where the live state differs from the desired one.
use viswall.Prelude.{
  ◌≡◌, sym, subst, Option, some, List, [], ◌∷◌, ◌++◌, map, String, All, ◌↔◌, inl, inr, arith,
  Bool-cases, Option-cases, Sum-cases,
}
use viswall.Prelude.Dict.{Dict, get}
use viswall.Node.{LiveInterface, InterfaceConfig, PrefixOf, PlannedStep}
use viswall.Node.Plan.{
  Address, ipv4_addresses, desired_address, address_steps, mtu_steps, link_steps, gateway_steps,
  steps_for, plan_interface, plan_interfaces, plan_changes, index_live, has_duplicate,
}
use viswall.Node.Plan.Steps.{
  IsQuiet, Matches, IsQuiet-append, IsQuiet-AddressMatches, AddressMatches-IsQuiet, IsQuiet-mtu,
  IsQuiet-link, IsQuiet-gateway, note-IsQuiet,
}

pub IsQuiet-Matches :
    (default_iface default_gw : Option String) (cfg : InterfaceConfig) (current : LiveInterface)
    (desired : Option Address)
    → IsQuiet (steps_for default_iface default_gw cfg current desired)
      ↔ Matches default_iface default_gw cfg current desired
unfolding steps_for
IsQuiet-Matches default_iface default_gw cfg current desired = (
  λ q.
      let (a, q1) =
        (IsQuiet-append (address_steps cfg desired (ipv4_addresses current.addresses)) _).0 q in
      let (m, q2) = (IsQuiet-append (mtu_steps cfg current) _).0 q1 in
      let (l, q3) = (IsQuiet-append (link_steps cfg current) _).0 q2 in
      let (g, n) = (IsQuiet-append (gateway_steps default_iface default_gw cfg) _).0 q3 in
      record {
        addresses = IsQuiet-AddressMatches cfg desired _ a;
        mtu = (IsQuiet-mtu cfg current).0 m;
        up = (IsQuiet-link cfg current).0 l;
        gateway = (IsQuiet-gateway default_iface default_gw cfg).0 g;
      },
  λ m. (IsQuiet-append (address_steps cfg desired (ipv4_addresses current.addresses)) _).1 (
    AddressMatches-IsQuiet cfg desired _ m.addresses,
    (IsQuiet-append (mtu_steps cfg current) _).1 (
      (IsQuiet-mtu cfg current).1 m.mtu,
      (IsQuiet-append (link_steps cfg current) _).1 (
        (IsQuiet-link cfg current).1 m.up,
        (IsQuiet-append (gateway_steps default_iface default_gw cfg) _).1
            ((IsQuiet-gateway default_iface default_gw cfg).1 m.gateway, note-IsQuiet cfg),
      ),
    ),
  ),
)

module _ (prefix_of : PrefixOf) (live : Dict LiveInterface)
    (default_iface default_gw : Option String) where
  -- The interface exists and its live state is the desired one.
  abbrev pub IsUpToDate : InterfaceConfig → Type 0
  IsUpToDate cfg =
      (current : LiveInterface) × (desired : Option Address) × (get live cfg.name ≡ some current)
      × (desired_address prefix_of cfg ≡ inr desired)
      × Matches default_iface default_gw cfg current desired

  abbrev pub HasSteps : InterfaceConfig → List PlannedStep → Type 0
  HasSteps cfg steps =
      (current : LiveInterface) × (desired : Option Address) × (get live cfg.name ≡ some current)
      × (desired_address prefix_of cfg ≡ inr desired)
      × (steps ≡ steps_for default_iface default_gw cfg current desired)

  pub plan_interface-HasSteps :
      (cfg : InterfaceConfig) (steps : List PlannedStep)
      → plan_interface prefix_of live default_iface default_gw cfg ≡ inr steps
      → HasSteps cfg steps
  unfolding plan_interface
  plan_interface-HasSteps cfg steps h = elim (Option-cases (get live cfg.name)) [
    | inl e ↦ cc
    | inr (current, e) ↦ elim (Sum-cases (desired_address prefix_of cfg)) [
      | inl (why, d) ↦ cc
      | inr (desired, d) ↦ (current, desired, e, d, cc)
    ]
  ]

  up_to_date-IsQuiet :
      (cfg : InterfaceConfig) (steps : List PlannedStep)
      → HasSteps cfg steps
      → IsUpToDate cfg
      → IsQuiet steps
  up_to_date-IsQuiet cfg steps (c, d, g, r, is) (c2, d2, g2, r2, m) =
      let same : steps ≡ steps_for default_iface default_gw cfg c2 d2 = cc in
      subst IsQuiet (sym same) ((IsQuiet-Matches default_iface default_gw cfg c2 d2).1 m)

  pub plan_interfaces-IsQuiet :
      (cfgs : List InterfaceConfig) (steps : List PlannedStep)
      → plan_interfaces prefix_of live default_iface default_gw cfgs ≡ inr steps
      → IsQuiet steps ↔ All IsUpToDate cfgs
  unfolding plan_interfaces
  plan_interfaces-IsQuiet [] steps h = (λ q. tt, λ a. ground arith)
  plan_interfaces-IsQuiet (cfg ∷ cfgs) steps h =
      elim (Sum-cases (plan_interface prefix_of live default_iface default_gw cfg)) [
        | inl (why, e) ↦ cc
        | inr (first, e) ↦
            elim (Sum-cases (plan_interfaces prefix_of live default_iface default_gw cfgs)) [
              | inl (why, d) ↦ ground arith
              | inr (more, d) ↦
                  let (current, desired, g, r, is) = plan_interface-HasSteps cfg first e in
                  let whole : steps ≡ first ++ more = cc in
                  let rest = plan_interfaces-IsQuiet cfgs more d in
                  let here = IsQuiet-Matches default_iface default_gw cfg current desired in
                  (
                    λ q.
                        let (a, b) = (IsQuiet-append first more).0 (subst IsQuiet whole q) in
                        ((current, desired, g, r, here.0 (subst IsQuiet is a)), rest.0 b),
                    λ k. subst IsQuiet (sym whole) (
                        (IsQuiet-append first more).1 (
                          up_to_date-IsQuiet cfg first (current, desired, g, r, is) k.0,
                          rest.1 k.1,
                        )),
                  )
            ]
      ]

-- A plan that `plan_changes` makes has no command exactly where each configured interface exists and
-- its live IPv4 addresses, MTU, link state and default route are already the desired ones.
pub plan_changes-IsQuiet :
    (prefix_of : PrefixOf) (live : List LiveInterface) (default_iface default_gw : Option String)
    (desired : List InterfaceConfig) (steps : List PlannedStep)
    → plan_changes prefix_of live default_iface default_gw desired ≡ inr steps
    → IsQuiet steps
      ↔ All (IsUpToDate prefix_of (index_live [] live) default_iface default_gw) desired
unfolding plan_changes
plan_changes-IsQuiet prefix_of live default_iface default_gw desired steps h =
    elim (Bool-cases (has_duplicate (map (λ cfg. cfg.name) desired))) [
      | inl e ↦ cc
      | inr e ↦
          plan_interfaces-IsQuiet prefix_of (index_live [] live) default_iface default_gw desired
            steps cc
    ]
