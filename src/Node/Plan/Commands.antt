-- ===== src/Node/Plan/Commands.antt =====
-- What the commands of a plan are, by the action of the step.
use viswall.Prelude.{
  false, not, ◌&&◌, ◌||◌, ◌≡◌, refl, Option, none, some, List, [], ◌∷◌, ◌++◌, map, String,
  if◌then◌else◌, str_eq, truthy, opt_eq, opt_num_eq, select, All, inl, inr, arith, eq_iff,
  Bool-cases, Option-cases, Sum-cases,
}
use viswall.Prelude.Dict.{Dict}
use viswall.Node.{LiveInterface, InterfaceConfig, PrefixOf, PlannedStep, stale_address, gateway}
use viswall.Node.Plan.{
  Address, mem_address, ipv4_addresses, manage_address, is_static, set_step, stale_step,
  address_steps, mtu_steps, link_steps, same_address, route_steps, gateway_steps, note_steps,
  steps_for, plan_interface, plan_interfaces, plan_changes, index_live, has_duplicate,
}
use viswall.Node.Plan.Matches.{plan_interface-HasSteps}

-- A step that takes an address away is marked so, and one that takes the default route away too.
pub record IsMarked (s : PlannedStep) : Type 0 where
  pub removes_address :
      (a dev : String) → s.argv ≡ "addr" ∷ "del" ∷ a ∷ "dev" ∷ dev ∷ [] → s.action ≡ stale_address
  pub removes_default :
      s.argv ≡ "route" ∷ "del" ∷ "default" ∷ []
      → (s.action ≡ gateway) × (s.detail ≡ "remove default route")

pub All-append {ℓ κ} :
    {A : Type ℓ} (P : A → Type κ) (xs ys : List A) → All P xs → All P ys → All P (xs ++ ys)
All-append P [] ys a b = b
All-append P (x ∷ xs) ys a b = (a.0, All-append P xs ys a.1 b)

set-IsMarked : (name : String) (a : Address) → IsMarked (set_step name a)
set-IsMarked name a = record {
  removes_address = λ b dev h. ground (arith, eq_iff "replace" "del");
  removes_default = λ h. ground arith;
}

stale-IsMarked : (name suffix : String) (a : Address) → IsMarked (stale_step name suffix a)
stale-IsMarked name suffix a = record {
  removes_address = λ b dev h. refl;
  removes_default = λ h. cc;
}

stale-Marked :
    (name suffix : String) (xs : List Address) → All IsMarked (map (stale_step name suffix) xs)
stale-Marked name suffix [] = tt
stale-Marked name suffix (x ∷ xs) = (stale-IsMarked name suffix x, stale-Marked name suffix xs)

address_steps-Marked :
    (cfg : InterfaceConfig) (desired : Option Address) (current : List Address)
    → All IsMarked (address_steps cfg desired current)
unfolding address_steps
address_steps-Marked cfg (some a) current =
    All-append IsMarked (if mem_address a current then [] else set_step cfg.name a ∷ []) _
      (elim (Bool-cases (mem_address a current)) [
        | inl e ↦ rw e tt
        | inr e ↦ rw e (set-IsMarked cfg.name a, tt)
      ])
      (stale-Marked cfg.name "" (select (λ x. not (same_address a x)) current))
address_steps-Marked cfg none current = elim (Bool-cases (is_static cfg && not cfg.enabled)) [
  | inl e ↦ rw e (stale-Marked cfg.name " (interface disabled)" current)
  | inr e ↦ rw e tt
]

other-IsMarked :
    (s : PlannedStep) (first : String) (rest : List String)
    → s.argv ≡ first ∷ rest
    → str_eq first "addr" ≡ false
    → str_eq first "route" ≡ false
    → IsMarked s
other-IsMarked s first rest is a r = record {
  removes_address = λ b dev h. ground (arith, eq_iff first "addr");
  removes_default = λ h. ground (arith, eq_iff first "route");
}

mtu_steps-Marked :
    (cfg : InterfaceConfig) (current : LiveInterface) → All IsMarked (mtu_steps cfg current)
unfolding mtu_steps
mtu_steps-Marked cfg current = elim (Option-cases cfg.mtu) [
  | inl e ↦ rw e tt
  | inr (n, e) ↦ elim (Bool-cases (opt_num_eq current.mtu n)) [
    | inl b ↦ rw (e, b) tt
    | inr b ↦ rw (e, b) (other-IsMarked _ "link" _ refl refl refl, tt)
  ]
]

link_steps-Marked :
    (cfg : InterfaceConfig) (current : LiveInterface) → All IsMarked (link_steps cfg current)
unfolding link_steps
link_steps-Marked cfg current = elim (Bool-cases cfg.enabled) [
  | inl e ↦ elim (Bool-cases current.up) [
    | inl u ↦ rw (e, u) tt
    | inr u ↦ rw (e, u) (other-IsMarked _ "link" _ refl refl refl, tt)
  ]
  | inr e ↦ elim (Bool-cases current.up) [
    | inl u ↦ rw (e, u) (other-IsMarked _ "link" _ refl refl refl, tt)
    | inr u ↦ rw (e, u) tt
  ]
]

route_steps-Marked :
    (default_iface default_gw : Option String) (name : String) (via : Option String)
    → All IsMarked (route_steps default_iface default_gw name via)
route_steps-Marked default_iface default_gw name none =
    elim (Bool-cases (opt_eq default_iface name)) [
      | inl e ↦ rw e (
        record {
          removes_address = λ b dev h. ground (arith, eq_iff "route" "addr");
          removes_default = λ h. (refl, refl);
        },
        tt,
      )
      | inr e ↦ rw e tt
    ]
route_steps-Marked default_iface default_gw name (some via) =
    elim (Bool-cases (not (opt_eq default_iface name) || not (opt_eq default_gw via))) [
      | inl e ↦ rw e (
        record {
          removes_address = λ b dev h. ground (arith, eq_iff "route" "addr");
          removes_default = λ h. ground (arith, eq_iff "replace" "del");
        },
        tt,
      )
      | inr e ↦ rw e tt
    ]

gateway_steps-Marked :
    (default_iface default_gw : Option String) (cfg : InterfaceConfig)
    → All IsMarked (gateway_steps default_iface default_gw cfg)
unfolding gateway_steps
gateway_steps-Marked default_iface default_gw cfg = elim (Bool-cases (manage_address cfg)) [
  | inl e ↦ rw e (route_steps-Marked default_iface default_gw cfg.name (truthy cfg.gateway))
  | inr e ↦ rw e tt
]

note_steps-Marked : (cfg : InterfaceConfig) → All IsMarked (note_steps cfg)
unfolding note_steps
note_steps-Marked cfg = elim (Bool-cases (str_eq cfg.config_type "dhcp" && cfg.enabled)) [
  | inl e ↦ rw e (record { removes_address = λ b dev h. cc; removes_default = λ h. cc }, tt)
  | inr e ↦ rw e tt
]

steps_for-Marked :
    (default_iface default_gw : Option String) (cfg : InterfaceConfig) (current : LiveInterface)
    (desired : Option Address)
    → All IsMarked (steps_for default_iface default_gw cfg current desired)
unfolding steps_for
steps_for-Marked default_iface default_gw cfg current desired =
    All-append IsMarked (address_steps cfg desired (ipv4_addresses current.addresses)) _
      (address_steps-Marked cfg desired (ipv4_addresses current.addresses))
      (All-append IsMarked (mtu_steps cfg current) _ (mtu_steps-Marked cfg current) (
        All-append IsMarked (link_steps cfg current) _ (link_steps-Marked cfg current) (
          All-append IsMarked (gateway_steps default_iface default_gw cfg) _
            (gateway_steps-Marked default_iface default_gw cfg) (note_steps-Marked cfg))))

module _ (prefix_of : PrefixOf) (live : Dict LiveInterface)
    (default_iface default_gw : Option String) where
  plan_interfaces-Marked :
      (cfgs : List InterfaceConfig) (steps : List PlannedStep)
      → plan_interfaces prefix_of live default_iface default_gw cfgs ≡ inr steps
      → All IsMarked steps
  unfolding plan_interfaces
  plan_interfaces-Marked [] steps h = let is : steps ≡ [] = cc in rw is tt
  plan_interfaces-Marked (cfg ∷ cfgs) steps h =
      elim (Sum-cases (plan_interface prefix_of live default_iface default_gw cfg)) [
        | inl (why, e) ↦ cc
        | inr (first, e) ↦
            elim (Sum-cases (plan_interfaces prefix_of live default_iface default_gw cfgs)) [
              | inl (why, d) ↦ ground arith
              | inr (more, d) ↦
                  let (current, desired, g, r, is) =
                    plan_interface-HasSteps prefix_of live default_iface default_gw cfg first e in
                  let whole : steps ≡ first ++ more = cc in
                  rw whole (
                    All-append IsMarked first more
                      (rw is (steps_for-Marked default_iface default_gw cfg current desired))
                      (plan_interfaces-Marked cfgs more d))
            ]
      ]

pub plan_changes-Marked :
    (prefix_of : PrefixOf) (live : List LiveInterface) (default_iface default_gw : Option String)
    (desired : List InterfaceConfig) (steps : List PlannedStep)
    → plan_changes prefix_of live default_iface default_gw desired ≡ inr steps
    → All IsMarked steps
unfolding plan_changes
plan_changes-Marked prefix_of live default_iface default_gw desired steps h =
    elim (Bool-cases (has_duplicate (map (λ cfg. cfg.name) desired))) [
      | inl e ↦ cc
      | inr e ↦
          plan_interfaces-Marked prefix_of (index_live [] live) default_iface default_gw desired
            steps cc
    ]
