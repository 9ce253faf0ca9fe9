-- ===== src/Node/Guard/Safe.antt =====
-- What an accepted plan does not do.
use viswall.Prelude.{
  true, false, ◌≡◌, ◌≢◌, refl, ap, ◌∙◌, Option, none, some, List, [], ◌∷◌, String, if◌then◌else◌,
  truthy, All, mem_str, inl, inr, arith, Bool-cases, str_eq_refl,
}
use viswall.Node.{LiveInterface, InterfaceConfig, PrefixOf, PlannedStep, stale_address}
use viswall.Node.Plan.{plan_changes}
use viswall.Node.Plan.Commands.{IsMarked, plan_changes-Marked}
use viswall.Node.Guard.{
  GuardrailContext, removes_wan_address, removes_default_route, enslaved, WanRefusal, check_names,
  check_steps, check_removed, check_default_route, check_master, refuse_master, or_else,
  check_wan_guardrails, link_master, is_docker_bridge,
}

-- The step neither takes the WAN address away nor the default route, and its interface is not a
-- docker bridge's.
pub record SparesWan (ctx : GuardrailContext) (s : PlannedStep) : Type 0 where
  pub address : (dev : String) → s.argv ≢ "addr" ∷ "del" ∷ ctx.wan_ip ∷ "dev" ∷ dev ∷ []
  pub route : s.argv ≢ "route" ∷ "del" ∷ "default" ∷ []
  pub master :
      (m : String)
      → truthy (link_master ctx.link_rows s.interface) ≡ some m
      → is_docker_bridge m ≡ false

checked-SparesWan :
    (ctx : GuardrailContext) (s : PlannedStep)
    → IsMarked s
    → check_removed ctx s ≡ none
    → check_default_route s ≡ none
    → check_master ctx s ≡ none
    → SparesWan ctx s
checked-SparesWan ctx s marked removed default master = record {
  address = λ dev is.
      let stale : s.action ≡ stale_address = marked.removes_address ctx.wan_ip dev is in
      let found : check_removed ctx s ≡ some (removes_wan_address ctx.wan_ip) =
        rw (stale, is, str_eq_refl ctx.wan_ip) refl in
      cc;
  route = λ is.
      let (act, text) = marked.removes_default is in
      let found : check_default_route s ≡ some removes_default_route = rw (act, text) refl in cc;
  master = λ m is. elim (Bool-cases (is_docker_bridge m)) [
    | inl e ↦
        let found : check_master ctx s ≡ some (enslaved s.interface m) =
          ap (λ o. refuse_master s.interface o) is
          ∙ ap (λ b. if b then some (enslaved s.interface m) else none) e in
        cc
    | inr e ↦ e
  ];
}

both_none :
    (first rest : Option WanRefusal) → or_else first rest ≡ none → (first ≡ none) × (rest ≡ none)
both_none none rest h = (refl, h)
both_none (some r) rest h = cc

check_steps-SparesWan :
    (ctx : GuardrailContext) (steps : List PlannedStep)
    → All IsMarked steps
    → check_steps ctx steps ≡ none
    → All (SparesWan ctx) steps
unfolding check_steps
check_steps-SparesWan ctx [] marked h = tt
check_steps-SparesWan ctx (s ∷ steps) marked h =
    let (a, h1) = both_none (check_removed ctx s) _ h in
    let (b, h2) = both_none (check_default_route s) _ h1 in
    let (c, h3) = both_none (check_master ctx s) _ h2 in
    (checked-SparesWan ctx s marked.0 a b c, check_steps-SparesWan ctx steps marked.1 h3)

-- A plan that `check_wan_guardrails` lets pass, forced or not, has no `addr del` of the WAN address as
-- it is configured, with its prefix length, no `route del default`, and no step on an interface whose
-- master is a docker bridge.
pub check_wan_guardrails-SparesWan :
    (ctx : GuardrailContext) (prefix_of : PrefixOf) (live : List LiveInterface)
    (default_iface default_gw : Option String)
    → plan_changes prefix_of live default_iface default_gw ctx.desired ≡ inr ctx.steps
    → check_wan_guardrails ctx ≡ none
    → All (SparesWan ctx) ctx.steps
unfolding check_wan_guardrails
check_wan_guardrails-SparesWan ctx prefix_of live default_iface default_gw planned passed =
    check_steps-SparesWan ctx ctx.steps
      (plan_changes-Marked prefix_of live default_iface default_gw ctx.desired ctx.steps planned)
      (both_none (check_steps ctx ctx.steps) _ passed).0

names-mem :
    (known : List String) (desired : List InterfaceConfig)
    → check_names known desired ≡ none
    → All (λ cfg. mem_str cfg.name known ≡ true) desired
unfolding check_names
names-mem known [] h = tt
names-mem known (cfg ∷ rest) h = elim (Bool-cases (mem_str cfg.name known)) [
  | inl e ↦ (e, names-mem known rest (ground arith))
  | inr e ↦ ground arith
]
