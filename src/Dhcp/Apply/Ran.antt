-- ===== src/Dhcp/Apply/Ran.antt =====
-- services/dhcp-service/dhcp_agent.py: what a run of several commands leaves.
use viswall.Prelude.{
  ℕ, Bool, true, false, ◌&&◌, ◌==◌, ◌≡◌, refl, sym, subst, ap, ◌∙◌, Option, none, some, List, [],
  ◌∷◌, ◌++◌, if◌then◌else◌, select, Bool-cases, Option-cases, inl, inr, arith,
}
use mathlib.Core.List.{append_assoc, append-nil}
use viswall.Dhcp.Payloads.{is_empty}
use viswall.Dhcp.Apply.{
  Argv, CommandResult, skipped, ran, Host, Exit, value, value_error, os_error, http_error, Agent,
  has_failed, after, run, run_all,
}

abbrev pub clean : List CommandResult → Bool
clean results = is_empty (select has_failed results)

pub clean-append : (rs ss : List CommandResult) → clean (rs ++ ss) ≡ (clean rs && clean ss)
clean-append [] ss = refl
clean-append (r ∷ rs) ss = elim (Bool-cases (has_failed r)) [
  | inl e ↦ rw e refl
  | inr e ↦ rw e (clean-append rs ss)
]

module _ (agent : Agent) where
  abbrev is_zero : Option ℕ → Bool
  is_zero none = false
  is_zero (some code) = code == 0

  -- Whether each command exits with 0, run one after the other after those that ran before.
  abbrev pub all_zero : (before commands : List Argv) → Bool
  all_zero before [] = true
  all_zero before (args ∷ rest) =
      is_zero (agent.exit_of before args) && all_zero (before ++ args ∷ []) rest

  abbrev pub permitted : List Argv → List Argv
  permitted commands = if agent.allow_commands then commands else []

  -- A command that could not be started stopped the commands.
  abbrev pub Stopped : (before commands now : List Argv) → Type 0
  Stopped before commands now =
      (done : List Argv) × (args : Argv) × (rest : List Argv) × (commands ≡ done ++ args ∷ rest)
      × (now ≡ before ++ done)
      × (agent.exit_of now args ≡ none)

  pub all_zero-append :
      (before xs ys : List Argv)
      → all_zero before (xs ++ ys) ≡ (all_zero before xs && all_zero (before ++ xs) ys)
  all_zero-append before [] ys = rw (append-nil before) refl
  all_zero-append before (x ∷ xs) ys = elim (Bool-cases (is_zero (agent.exit_of before x))) [
    | inl e ↦ rw e (
        all_zero-append (before ++ x ∷ []) xs ys
        ∙ ap (λ (b : List Argv). all_zero (before ++ x ∷ []) xs && all_zero b ys)
            (append_assoc before (x ∷ []) xs))
    | inr e ↦ rw e refl
  ]

  permitted-append : (xs ys : List Argv) → permitted (xs ++ ys) ≡ permitted xs ++ permitted ys
  permitted-append xs ys = elim (Bool-cases agent.allow_commands) [
    | inl e ↦ rw e refl
    | inr e ↦ rw e refl
  ]

  -- What a run in which these commands were due leaves.
  abbrev pub Ran : (due : List Argv) → Host → Exit (List CommandResult) × Host → Type 0
  Ran due h (value results, h') =
      (h'.ran ≡ h.ran ++ due)
      × (clean results ≡ all_zero h.ran due)
      × (h'.dhcp4 ≡ h.dhcp4)
      × (h'.dhcp6 ≡ h.dhcp6)
  Ran due h (os_error, h') = Stopped h.ran due h'.ran
  Ran due h (value_error, h') = ⊥
  Ran due h (http_error failed, h') = ⊥

  Ran_more :
      (args : Argv) (rest : List Argv) (code : ℕ) (h : Host) (r : Exit (List CommandResult) × Host)
      → agent.exit_of h.ran args ≡ some code
      → Ran rest (record h { ran = h.ran ++ args ∷ [] }) r
      → Ran (args ∷ rest) h (after r λ rs h2. (value (ran args code ∷ rs), h2))
  Ran_more args rest code h (value rs, h') e (now, same, file4, file6) =
      (now ∙ append_assoc h.ran (args ∷ []) rest, rw e (ground (arith, same)), file4, file6)
  Ran_more args rest code h (os_error, h') e (done, last, later, split, now, none_left) = (
    args ∷ done,
    last,
    later,
    ap (λ (cs : List Argv). args ∷ cs) split,
    now ∙ append_assoc h.ran (args ∷ []) done,
    none_left,
  )
  Ran_more args rest code h (value_error, h') e r = r
  Ran_more args rest code h (http_error failed, h') e r = r

  run_all-Ran :
      (commands : List Argv) (h : Host)
      → agent.allow_commands ≡ true
      → Ran commands h (run_all agent commands h)
  unfolding run_all run
  run_all-Ran [] h allow = (sym (append-nil h.ran), refl, refl, refl)
  run_all-Ran (args ∷ rest) h allow = elim (Option-cases (agent.exit_of h.ran args)) [
    | inl e ↦ rw (allow, e) ([], args, rest, refl, sym (append-nil h.ran), e)
    | inr (code, e) ↦
        rw (allow, e)
          (Ran_more args rest code h (run_all agent rest (record h { ran = h.ran ++ args ∷ [] })) e
            (run_all-Ran rest (record h { ran = h.ran ++ args ∷ [] }) allow))
  ]

  Ran_skipped :
      (args : Argv) (h : Host) (r : Exit (List CommandResult) × Host)
      → Ran [] h r
      → Ran [] h (after r λ rs h2. (value (skipped args ∷ rs), h2))
  Ran_skipped args h (value rs, h') r = r
  Ran_skipped args h (os_error, h') r = r
  Ran_skipped args h (value_error, h') r = r
  Ran_skipped args h (http_error failed, h') r = r

  run_all-skipped :
      (commands : List Argv) (h : Host)
      → agent.allow_commands ≡ false
      → Ran [] h (run_all agent commands h)
  unfolding run_all run
  run_all-skipped [] h forbid = (sym (append-nil h.ran), refl, refl, refl)
  run_all-skipped (args ∷ rest) h forbid =
      rw forbid (Ran_skipped args h (run_all agent rest h) (run_all-skipped rest h forbid))

  permitted_all :
      (commands : List Argv) → agent.allow_commands ≡ true → permitted commands ≡ commands
  permitted_all commands allow = rw allow refl

  pub permitted_none :
      (commands : List Argv) → agent.allow_commands ≡ false → permitted commands ≡ []
  permitted_none commands forbid = rw forbid refl

  pub run_all_lem :
      (commands : List Argv) (h : Host) → Ran (permitted commands) h (run_all agent commands h)
  run_all_lem commands h = elim (Bool-cases agent.allow_commands) [
    | inl e ↦
        subst (λ due. Ran due h (run_all agent commands h)) (sym (permitted_all commands e))
          (run_all-Ran commands h e)
    | inr e ↦
        subst (λ due. Ran due h (run_all agent commands h)) (sym (permitted_none commands e))
          (run_all-skipped commands h e)
  ]
