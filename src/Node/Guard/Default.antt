-- ===== src/Node/Guard/Default.antt =====
-- What a plan that `guard_plan` lets pass leaves as it is on the interface with the default route.
use viswall.Prelude.{
  true, false, not, ◌&&◌, ◌||◌, ◌≡◌, refl, subst, sym, Option, none, some, List, [], ◌∷◌, ◌++◌, map,
  String, if◌then◌else◌, str_eq, truthy, opt_eq, select, All, inl, inr, arith, eq_iff, Bool-cases,
  Sum-cases,
}
use viswall.Prelude.Dict.{Dict, get}
use viswall.Node.{LiveInterface, InterfaceConfig, PrefixOf, PlannedStep}
use viswall.Node.Plan.{
  Address, ipv4_addresses, mem_address, same_address, is_static, manage_address, set_step,
  stale_step, desired_address, address_steps, mtu_steps, link_steps, gateway_steps, route_steps,
  note_steps, steps_for, plan_interface, plan_interfaces, plan_changes, index_live, has_duplicate,
}
use viswall.Node.Plan.Steps.{
  IsQuiet, AddressMatches, GatewayMatches, IsQuiet-AddressMatches, IsQuiet-link, IsQuiet-gateway,
}
use viswall.Node.Plan.Matches.{plan_interface-HasSteps}
use viswall.Node.Plan.Commands.{All-append}
use viswall.Node.Guard.{cuts_off, touching, refusal, guard_plan}

-- The step is not one that `guard_plan` refuses on the interface `d`.
abbrev pub IsSpared : String → PlannedStep → Type 0
IsSpared d s = s.interface ≡ d → cuts_off s.action ≡ false

-- The step is on the interface `d`, and one that the guard refuses.
abbrev Cuts : String → PlannedStep → Type 0
Cuts d s = (s.interface ≡ d) × (cuts_off s.action ≡ true)

touching-IsSpared :
    (d : String) (steps : List PlannedStep) → touching d steps ≡ [] → All (IsSpared d) steps
touching-IsSpared d [] h = tt
touching-IsSpared d (s ∷ steps) h = elim (Bool-cases (str_eq s.interface d && cuts_off s.action)) [
  | inl e ↦ ground arith
  | inr e ↦ (λ is. ground (arith, eq_iff s.interface d), touching-IsSpared d steps (ground arith))
]

refusal-none : (found : List PlannedStep) → refusal found ≡ none → found ≡ []
refusal-none [] h = refl
refusal-none (s ∷ more) h = cc

guard_plan-IsSpared :
    (d : String) (steps : List PlannedStep)
    → guard_plan steps (some d) false ≡ none
    → All (IsSpared d) steps
unfolding guard_plan
guard_plan-IsSpared d steps h = touching-IsSpared d steps (refusal-none (touching d steps) h)

All-left :
    (P : PlannedStep → Type 0) (xs ys : List PlannedStep) → All P (xs ++ ys) → All P xs × All P ys
All-left P [] ys all = (tt, all)
All-left P (x ∷ xs) ys all = let (a, b) = All-left P xs ys all.1 in ((all.0, a), b)

spared-IsQuiet :
    (d : String) (steps : List PlannedStep)
    → All (Cuts d) steps
    → All (IsSpared d) steps
    → IsQuiet steps
spared-IsQuiet d [] cuts spared = tt
spared-IsQuiet d (s ∷ steps) cuts spared =
    let no : cuts_off s.action ≡ false = spared.0 cuts.0.0 in cc

stale-Cuts : (d suffix : String) (xs : List Address) → All (Cuts d) (map (stale_step d suffix) xs)
stale-Cuts d suffix [] = tt
stale-Cuts d suffix (x ∷ xs) = ((refl, refl), stale-Cuts d suffix xs)

address_steps-Cuts :
    (cfg : InterfaceConfig) (desired : Option Address) (current : List Address)
    → All (Cuts cfg.name) (address_steps cfg desired current)
unfolding address_steps
address_steps-Cuts cfg (some a) current =
    All-append (Cuts cfg.name) (if mem_address a current then [] else set_step cfg.name a ∷ []) _
      (elim (Bool-cases (mem_address a current)) [
        | inl e ↦ rw e tt
        | inr e ↦ rw e ((refl, refl), tt)
      ])
      (stale-Cuts cfg.name "" (select (λ x. not (same_address a x)) current))
address_steps-Cuts cfg none current = elim (Bool-cases (is_static cfg && not cfg.enabled)) [
  | inl e ↦ rw e (stale-Cuts cfg.name " (interface disabled)" current)
  | inr e ↦ rw e tt
]

link_steps-Cuts :
    (cfg : InterfaceConfig) (current : LiveInterface) → All (Cuts cfg.name) (link_steps cfg current)
unfolding link_steps
link_steps-Cuts cfg current = elim (Bool-cases cfg.enabled) [
  | inl e ↦ elim (Bool-cases current.up) [
    | inl u ↦ rw (e, u) tt
    | inr u ↦ rw (e, u) ((refl, refl), tt)
  ]
  | inr e ↦ elim (Bool-cases current.up) [
    | inl u ↦ rw (e, u) ((refl, refl), tt)
    | inr u ↦ rw (e, u) tt
  ]
]

route_steps-Cuts :
    (default_iface default_gw : Option String) (name : String) (via : Option String)
    → All (Cuts name) (route_steps default_iface default_gw name via)
route_steps-Cuts default_iface default_gw name none =
    elim (Bool-cases (opt_eq default_iface name)) [
      | inl e ↦ rw e ((refl, refl), tt)
      | inr e ↦ rw e tt
    ]
route_steps-Cuts default_iface default_gw name (some via) =
    elim (Bool-cases (not (opt_eq default_iface name) || not (opt_eq default_gw via))) [
      | inl e ↦ rw e ((refl, refl), tt)
      | inr e ↦ rw e tt
    ]

gateway_steps-Cuts :
    (default_iface default_gw : Option String) (cfg : InterfaceConfig)
    → All (Cuts cfg.name) (gateway_steps default_iface default_gw cfg)
unfolding gateway_steps
gateway_steps-Cuts default_iface default_gw cfg = elim (Bool-cases (manage_address cfg)) [
  | inl e ↦ rw e (route_steps-Cuts default_iface default_gw cfg.name (truthy cfg.gateway))
  | inr e ↦ rw e tt
]

-- The interface's live state is the desired one, but for its MTU.
pub record IsKept (default_gw : Option String) (cfg : InterfaceConfig) (current : LiveInterface)
    (desired : Option Address) : Type 0 where
  pub addresses : AddressMatches cfg desired (ipv4_addresses current.addresses)
  pub up : current.up ≡ cfg.enabled
  pub gateway :
      manage_address cfg ≡ true → GatewayMatches (some cfg.name) default_gw cfg (truthy cfg.gateway)

spared-IsKept :
    (default_gw : Option String) (cfg : InterfaceConfig) (current : LiveInterface)
    (desired : Option Address)
    → All (IsSpared cfg.name) (steps_for (some cfg.name) default_gw cfg current desired)
    → IsKept default_gw cfg current desired
unfolding steps_for
spared-IsKept default_gw cfg current desired all =
    let addrs = ipv4_addresses current.addresses in
    let (a, all1) = All-left (IsSpared cfg.name) (address_steps cfg desired addrs) _ all in
    let (m, all2) = All-left (IsSpared cfg.name) (mtu_steps cfg current) _ all1 in
    let (l, all3) = All-left (IsSpared cfg.name) (link_steps cfg current) _ all2 in
    let (g, n) =
      All-left (IsSpared cfg.name) (gateway_steps (some cfg.name) default_gw cfg) (note_steps cfg)
        all3 in
    record {
      addresses =
          IsQuiet-AddressMatches cfg desired addrs
            (spared-IsQuiet cfg.name _ (address_steps-Cuts cfg desired addrs) a);
      up = (IsQuiet-link cfg current).0 (spared-IsQuiet cfg.name _ (link_steps-Cuts cfg current) l);
      gateway =
          (IsQuiet-gateway (some cfg.name) default_gw cfg).0
            (spared-IsQuiet cfg.name _ (gateway_steps-Cuts (some cfg.name) default_gw cfg) g);
    }

-- The interface is live, and kept.
abbrev pub StaysAsItIs : PrefixOf → Dict LiveInterface → Option String → InterfaceConfig → Type 0
StaysAsItIs prefix_of live default_gw cfg =
    (current : LiveInterface) × (desired : Option Address) × (get live cfg.name ≡ some current)
    × (desired_address prefix_of cfg ≡ inr desired)
    × IsKept default_gw cfg current desired

module _ (prefix_of : PrefixOf) (live : Dict LiveInterface) (default_iface : String)
    (default_gw : Option String) where
  -- If the configuration is of the default interface, that interface is live and kept.
  abbrev LeavesDefault : InterfaceConfig → Type 0
  LeavesDefault cfg = cfg.name ≡ default_iface → StaysAsItIs prefix_of live default_gw cfg

  plan_interfaces-LeavesDefault :
      (cfgs : List InterfaceConfig) (steps : List PlannedStep)
      → plan_interfaces prefix_of live (some default_iface) default_gw cfgs ≡ inr steps
      → All (IsSpared default_iface) steps
      → All LeavesDefault cfgs
  unfolding plan_interfaces
  plan_interfaces-LeavesDefault [] steps h all = tt
  plan_interfaces-LeavesDefault (cfg ∷ cfgs) steps h all =
      elim (Sum-cases (plan_interface prefix_of live (some default_iface) default_gw cfg)) [
        | inl (why, e) ↦ cc
        | inr (first, e) ↦
            elim (Sum-cases (plan_interfaces prefix_of live (some default_iface) default_gw cfgs)) [
              | inl (why, d) ↦ ground arith
              | inr (more, d) ↦
                  let (current, desired, g, r, is) =
                    plan_interface-HasSteps prefix_of live (some default_iface) default_gw cfg first
                      e in
                  let whole : steps ≡ first ++ more = cc in
                  let (here, rest) =
                    All-left (IsSpared default_iface) first more
                      (subst (All (IsSpared default_iface)) whole all) in
                  (
                    λ same. (
                      current,
                      desired,
                      g,
                      r,
                      spared-IsKept default_gw cfg current desired (
                          subst
                            (λ d.
                              All (IsSpared d) (steps_for (some d) default_gw cfg current desired))
                            (sym same) (subst (All (IsSpared default_iface)) is here)),
                    ),
                    plan_interfaces-LeavesDefault cfgs more d rest,
                  )
            ]
      ]

guard_plan-LeavesDefault :
    (prefix_of : PrefixOf) (live : List LiveInterface) (default_iface : String)
    (default_gw : Option String) (desired : List InterfaceConfig) (steps : List PlannedStep)
    → plan_changes prefix_of live (some default_iface) default_gw desired ≡ inr steps
    → guard_plan steps (some default_iface) false ≡ none
    → All (LeavesDefault prefix_of (index_live [] live) default_iface default_gw) desired
unfolding plan_changes
guard_plan-LeavesDefault prefix_of live default_iface default_gw desired steps h passed =
    elim (Bool-cases (has_duplicate (map (λ cfg. cfg.name) desired))) [
      | inl e ↦ cc
      | inr e ↦
          plan_interfaces-LeavesDefault prefix_of (index_live [] live) default_iface default_gw
            desired steps (cc) (guard_plan-IsSpared default_iface steps passed)
    ]

All-at :
    (P : InterfaceConfig → Type 0) (before after : List InterfaceConfig) (cfg : InterfaceConfig)
    → All P (before ++ cfg ∷ after)
    → P cfg
All-at P [] after cfg all = all.0
All-at P (x ∷ before) after cfg all = All-at P before after cfg all.1

-- If `guard_plan` lets a plan pass without force, then for the configuration of the interface that
-- carries the default route, the IPv4 addresses, the link state and the default route are already the
-- live ones.
pub guard_plan-StaysAsItIs :
    (prefix_of : PrefixOf) (live : List LiveInterface) (default_gw : Option String)
    (before after : List InterfaceConfig) (cfg : InterfaceConfig) (steps : List PlannedStep)
    → plan_changes prefix_of live (some cfg.name) default_gw (before ++ cfg ∷ after) ≡ inr steps
    → guard_plan steps (some cfg.name) false ≡ none
    → StaysAsItIs prefix_of (index_live [] live) default_gw cfg
guard_plan-StaysAsItIs prefix_of live default_gw before after cfg steps h passed =
    All-at (LeavesDefault prefix_of (index_live [] live) cfg.name default_gw) before after cfg
      (guard_plan-LeavesDefault prefix_of live cfg.name default_gw (before ++ cfg ∷ after) steps h
        passed)
      refl
