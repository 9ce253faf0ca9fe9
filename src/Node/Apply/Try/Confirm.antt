-- ===== src/Node/Apply/Try/Confirm.antt =====
-- When `netplan try` is told to accept, and when the try mode reports success.
use viswall.Prelude.{
  Bool, true, false, ◌≡◌, refl, sym, subst, ◌∙◌, ap, ◌↔◌, List, [], ◌∷◌, String, if◌then◌else◌,
  truthy, inl, inr, All, arith, Bool-cases, Option-cases,
}
use viswall.Prelude.Json.{ℤ}
use viswall.Node.Apply.{
  AgentConfig, ProbeResult, Applied, NetplanOutcome, accepted, reverted, error, TryApplyContext,
}
use viswall.Node.Apply.Try.{
  TryHost, all_ok, answer, outcome_after, is_accepted, is_zero, code_of, after_spawn,
  apply_try_mode, run_health_probes,
}

abbrev pub AllPass : List ProbeResult → Type 0
AllPass probes = All (λ p. p.ok ≡ true) probes

all_ok-AllPass : (probes : List ProbeResult) → (all_ok probes ≡ true) ↔ AllPass probes
all_ok-AllPass [] = (λ h. tt, λ a. refl)
all_ok-AllPass (p ∷ ps) = (
  λ h. elim (Bool-cases p.ok) [
    | inl e ↦ (e, (all_ok-AllPass ps).0 (ground arith))
    | inr e ↦ ground arith
  ],
  λ a. rw a.0 ((all_ok-AllPass ps).1 a.1),
)

outcome-accepted :
    (before : NetplanOutcome) (code : ℤ)
    → is_accepted (outcome_after before code) ≡ true
    → (before ≡ accepted) × (is_zero code ≡ true)
outcome-accepted accepted code h = (refl, ground arith)
outcome-accepted reverted code h = cc
outcome-accepted error code h = cc

answer-accepted :
    (stdin ok failing : Bool)
    → (answer stdin ok failing).0 ≡ accepted
    → (stdin ≡ true) × (ok ≡ true) × (failing ≡ false)
answer-accepted false ok failing h = cc
answer-accepted true false failing h = cc
answer-accepted true true false h = (refl, refl, refl)
answer-accepted true true true h = cc

answer-sent : (stdin ok failing : Bool) → (answer stdin ok failing).1 ≡ true → ok ≡ true
answer-sent false ok failing h = cc
answer-sent true false failing h = cc
answer-sent true true failing h = refl

-- What the try mode needs to be accepted.
pub record IsAcceptable (host : TryHost) : Type 0 where
  pub has_stdin : host.has_stdin ≡ true
  pub probes : AllPass (run_health_probes host.probe_config host.command)
  pub newline : host.newline_error ≡ false
  pub exit : is_zero (code_of (host.finish true)) ≡ true

answered :
    (host : TryHost)
    → host.has_stdin ≡ true
    → all_ok (run_health_probes host.probe_config host.command) ≡ true
    → host.newline_error ≡ false
    → answer host.has_stdin
        (all_ok (run_health_probes host.probe_config host.command))
        host.newline_error
      ≡ (accepted, true)
answered host stdin ok clean = rw (stdin, ok, clean) refl

after_spawn-succeeds :
    (path : String) (host : TryHost) (ctx : TryApplyContext)
    → ((after_spawn path host ctx).result.success ≡ true) ↔ IsAcceptable host
after_spawn-succeeds path host ctx = (
  λ h.
      let (is, zero) = outcome-accepted _ _ h in
      let (stdin, ok, clean) = answer-accepted host.has_stdin _ host.newline_error is in
      record {
        has_stdin = stdin;
        probes = (all_ok-AllPass _).0 ok;
        newline = clean;
        exit =
            subst (λ r. is_zero (code_of (host.finish r.1)) ≡ true) (answered host stdin ok clean)
              zero;
      },
  λ m.
      let whole = answered host m.has_stdin ((all_ok-AllPass _).1 m.probes) m.newline in
      subst (λ r. is_accepted (outcome_after r.0 (code_of (host.finish r.1))) ≡ true) (sym whole)
        (ap (λ b. is_accepted (if b then accepted else error)) m.exit),
)

pub spawned :
    (write : String → Bool) (host : TryHost) (config : AgentConfig) (ctx : TryApplyContext)
    (a : Applied)
    → apply_try_mode write host config ctx ≡ inr a
    → (path : String) × (a ≡ after_spawn path host ctx)
unfolding apply_try_mode
spawned write host config ctx a h = elim (Option-cases (truthy config.netplan_path)) [
  | inl e ↦ cc
  | inr (path, e) ↦ elim (Bool-cases (write ctx.rendered)) [
    | inr w ↦ ground arith
    | inl w ↦ elim (Option-cases host.spawn_error) [
      | inr (why, s) ↦ ground arith
      | inl s ↦ (path, ground arith)
    ]
  ]
]

-- If the try mode writes the newline by which netplan accepts, each health probe passed.
pub confirmed-apply_try_mode :
    (write : String → Bool) (host : TryHost) (config : AgentConfig) (ctx : TryApplyContext)
    (a : Applied)
    → apply_try_mode write host config ctx ≡ inr a
    → a.confirmed ≡ true
    → AllPass (run_health_probes host.probe_config host.command)
confirmed-apply_try_mode write host config ctx a h sent =
    let (path, is) = spawned write host config ctx a h in
    (all_ok-AllPass _).0
      (answer-sent host.has_stdin _ host.newline_error (sym (ap (λ x. x.confirmed) is) ∙ sent))

-- A try that returns reports success exactly if netplan's standard input is there, every health
-- probe passes, the newline is written without an error and netplan then exits with 0.
pub apply_try_mode-succeeds :
    (write : String → Bool) (host : TryHost) (config : AgentConfig) (ctx : TryApplyContext)
    (a : Applied)
    → apply_try_mode write host config ctx ≡ inr a
    → (a.result.success ≡ true) ↔ IsAcceptable host
apply_try_mode-succeeds write host config ctx a h =
    let (path, is) = spawned write host config ctx a h in
    subst (λ x. (x.result.success ≡ true) ↔ IsAcceptable host) (sym is)
      (after_spawn-succeeds path host ctx)
