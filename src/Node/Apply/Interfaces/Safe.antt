-- ===== src/Node/Apply/Interfaces/Safe.antt =====
-- What `apply_interfaces` does to the host.
use mathlib.Core.List.{append_assoc, append-nil}
use viswall.Prelude.{
  Bool, true, false, ◌≡◌, ◌≢◌, refl, sym, subst, ◌∙◌, ap, Option, none, some, List, [], ◌∷◌, ◌++◌,
  String, if◌then◌else◌, truthy, inl, inr, All, arith, Bool-cases, Option-cases, Sum-cases,
}
use viswall.Node.{PrefixOf, PlannedStep}
use viswall.Node.Plan.{plan_changes, index_live}
use viswall.Node.Plan.Steps.{IsQuiet}
use viswall.Node.Plan.Matches.{IsUpToDate, plan_changes-IsQuiet}
use viswall.Node.Guard.{guard_plan, check_wan_guardrails}
use viswall.Node.Guard.Safe.{SparesWan, check_wan_guardrails-SparesWan}
use viswall.Node.Apply.{
  RunIp, Argv, Progress, run_step, run_steps, persisted, unwritten, AgentConfig, HostState,
  ApplyRequest, Applied, apply_live,
}
use viswall.Node.Apply.Try.{TryHost}
use viswall.Node.Apply.Interfaces.{context, guarded_plan, apply_planned, apply_interfaces}
use viswall.Node.Netplan.{render_netplan}
use viswall.Node.Apply.Try.Confirm.{spawned}

abbrev with_command : Argv → List Argv → List Argv
with_command [] rest = rest
with_command (a ∷ argv) rest = (a ∷ argv) ∷ rest

-- The commands of the steps that have one.
abbrev pub commands : List PlannedStep → List Argv
commands [] = []
commands (s ∷ steps) = with_command s.argv (commands steps)

run_step-ran :
    (run : RunIp) (p : Progress) (s : PlannedStep) (argv : Argv) (rest : List Argv)
    → (run_step run p s argv).ran ++ rest ≡ p.ran ++ with_command argv rest
run_step-ran run p s [] rest = refl
run_step-ran run p s (a ∷ argv) rest = append_assoc p.ran ((a ∷ argv) ∷ []) rest

run_steps-ran :
    (run : RunIp) (steps : List PlannedStep) (p : Progress)
    → (run_steps run p steps).ran ≡ p.ran ++ commands steps
unfolding run_steps
run_steps-ran run [] p = sym (append-nil p.ran)
run_steps-ran run (s ∷ steps) p =
    run_steps-ran run steps (run_step run p s s.argv) ∙ run_step-ran run p s s.argv (commands steps)

unwritten-ran : (p : Progress) (path : Option String) → (unwritten p path).ran ≡ p.ran
unwritten-ran p none = refl
unwritten-ran p (some path) = refl

persisted-ran :
    (config : AgentConfig) (p : Progress) (written : Bool)
    → (persisted config p written).ran ≡ p.ran
persisted-ran config p true = refl
persisted-ran config p false = unwritten-ran p (truthy config.netplan_path)

guarded_plan-passed :
    (prefix_of : PrefixOf) (config : AgentConfig) (host : HostState) (request : ApplyRequest)
    (steps : List PlannedStep)
    → guarded_plan prefix_of config host request ≡ inr steps
    → (plan_changes prefix_of host.live host.default_iface host.default_gw request.interfaces
        ≡ inr steps)
      × (guard_plan steps host.default_iface request.force ≡ none)
      × (check_wan_guardrails (context prefix_of config host request steps) ≡ none)
unfolding guarded_plan
guarded_plan-passed prefix_of config host request steps h =
    elim (Sum-cases
      (plan_changes prefix_of host.live host.default_iface host.default_gw request.interfaces)) [
        | inl (why, e) ↦ cc
        | inr (made, e) ↦ elim (Option-cases (guard_plan made host.default_iface request.force)) [
          | inr (t, g) ↦ ground arith
          | inl g ↦
              elim (Option-cases
                (check_wan_guardrails (context prefix_of config host request made))) [
                  | inr (why, c) ↦ ground arith
                  | inl c ↦
                      let same : made ≡ steps = cc in
                      subst
                        (λ x.
                          (plan_changes prefix_of host.live host.default_iface host.default_gw
                              request.interfaces
                            ≡ inr x)
                          × (guard_plan x host.default_iface request.force ≡ none)
                          × (check_wan_guardrails (context prefix_of config host request x) ≡ none))
                        same (e, g, c)
                ]
        ]
      ]

apply_live-ran :
    (run : RunIp) (config : AgentConfig) (host : HostState) (snapshot : Option String)
    (written : Bool) (planned : List PlannedStep)
    → (apply_live run config host snapshot written planned).ran ≡ commands planned
unfolding apply_live
apply_live-ran run config host snapshot written planned =
    persisted-ran config _ written ∙ run_steps-ran run planned _

-- The command is neither `addr del` of the configured WAN address nor `route del default`.
abbrev pub IsHarmless : (wan_ip : String) → Argv → Type 0
IsHarmless wan_ip argv =
    ((dev : String) → argv ≢ "addr" ∷ "del" ∷ wan_ip ∷ "dev" ∷ dev ∷ [])
    × (argv ≢ "route" ∷ "del" ∷ "default" ∷ [])

with_command-All :
    (P : Argv → Type 0) (argv : Argv) (rest : List Argv)
    → P argv
    → All P rest
    → All P (with_command argv rest)
with_command-All P [] rest p all = all
with_command-All P (a ∷ argv) rest p all = (p, all)

commands-IsHarmless :
    (prefix_of : PrefixOf) (config : AgentConfig) (host : HostState) (request : ApplyRequest)
    (planned steps : List PlannedStep)
    → All (SparesWan (context prefix_of config host request planned)) steps
    → All (IsHarmless config.wan_ip) (commands steps)
commands-IsHarmless prefix_of config host request planned [] all = tt
commands-IsHarmless prefix_of config host request planned (s ∷ steps) all =
    with_command-All (IsHarmless config.wan_ip) s.argv (commands steps) (all.0.address, all.0.route)
      (commands-IsHarmless prefix_of config host request planned steps all.1)

IsQuiet-commands : (steps : List PlannedStep) → IsQuiet steps → commands steps ≡ []
IsQuiet-commands [] q = refl
IsQuiet-commands (s ∷ steps) q =
    ap (λ argv. with_command argv (commands steps)) q.0 ∙ IsQuiet-commands steps q.1

module _ (prefix_of : PrefixOf) (run : RunIp) (write : String → Bool) (netplan_try : TryHost)
    (snapshot : Option String) (config : AgentConfig) (host : HostState)
    (request : ApplyRequest) where
  planned-ran :
      (a : Applied) (try_mode : Bool) (rendered : String) (steps : List PlannedStep)
      → apply_planned run write netplan_try snapshot config host try_mode rendered steps ≡ inr a
      → a.ran ≡ (if try_mode then [] else commands steps)
  planned-ran a true rendered steps h =
      let (path, is) = spawned write netplan_try config _ a h in ap (λ x. x.ran) is
  planned-ran a false rendered steps h =
      let is : a ≡ apply_live run config host snapshot (write rendered) steps = cc in
      ap (λ x. x.ran) is ∙ apply_live-ran run config host snapshot (write rendered) steps

  apply_interfaces-ran :
      (a : Applied)
      → apply_interfaces run write netplan_try snapshot config host prefix_of request ≡ inr a
      → (steps : List PlannedStep) × (guarded_plan prefix_of config host request ≡ inr steps)
        × (a.ran ≡ (if request.try_mode then [] else commands steps))
  unfolding apply_interfaces
  apply_interfaces-ran a h = elim (Sum-cases (guarded_plan prefix_of config host request)) [
    | inl (why, e) ↦ cc
    | inr (steps, e) ↦ (
      steps,
      e,
      planned-ran a request.try_mode (render_netplan prefix_of request.interfaces) steps cc,
    )
  ]

  -- No `ip` command that an apply runs, forced or not, is `addr del` of the WAN address as it is
  -- configured, with its prefix length, or `route del default`.
  pub apply_interfaces-IsHarmless :
      (a : Applied)
      → apply_interfaces run write netplan_try snapshot config host prefix_of request ≡ inr a
      → All (IsHarmless config.wan_ip) a.ran
  apply_interfaces-IsHarmless a h =
      let (steps, g, ran) = apply_interfaces-ran a h in
      let (planned, soft, hard) = guarded_plan-passed prefix_of config host request steps g in
      let spared =
        check_wan_guardrails-SparesWan (context prefix_of config host request steps) prefix_of
          host.live host.default_iface host.default_gw planned hard in
      elim (Bool-cases request.try_mode) [
        | inl t ↦ rw (ran, t) tt
        | inr t ↦ rw (ran, t) (commands-IsHarmless prefix_of config host request steps steps spared)
      ]

  -- An apply that returns runs no command if each configured interface exists and its live IPv4
  -- addresses, MTU, link state and default route are already the desired ones.
  apply_interfaces-idle :
      (a : Applied)
      → apply_interfaces run write netplan_try snapshot config host prefix_of request ≡ inr a
      → All
          (IsUpToDate prefix_of (index_live [] host.live) host.default_iface host.default_gw)
          request.interfaces
      → a.ran ≡ []
  apply_interfaces-idle a h current =
      let (steps, g, ran) = apply_interfaces-ran a h in
      let (planned, soft, hard) = guarded_plan-passed prefix_of config host request steps g in
      let quiet =
        (plan_changes-IsQuiet prefix_of host.live host.default_iface host.default_gw
            request.interfaces steps planned).1
          current in
      elim (Bool-cases request.try_mode) [
        | inl t ↦ rw (ran, t) refl
        | inr t ↦ rw (ran, t) (IsQuiet-commands steps quiet)
      ]
