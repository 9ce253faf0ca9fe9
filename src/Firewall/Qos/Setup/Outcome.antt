-- ===== src/Firewall/Qos/Setup/Outcome.antt =====
-- What `setup_qos` returns, and which commands it ran.
use viswall.Prelude.{
  ℕ, ◌≡◌, ◌≢◌, refl, sym, ap, ◌∙◌, Bool, true, false, Option, none, some, List, [], ◌∷◌, ◌++◌,
  String,
}
use mathlib.Core.List.{append_assoc, append-nil}
use viswall.Prelude.Json.{Value}
use viswall.Firewall.Qos.{QosClass, QosError, ok, err}
use viswall.Firewall.Qos.Setup.{
  Argv, Exit, success, failure, unavailable, Tc, Action, continue, exit_of, run_tc, tc_checked,
  delete_root, returned, apply_qos, given_classes, setup_qos,
}
use viswall.Firewall.Qos.Setup.Plan.{plan}
use viswall.Firewall.Qos.Setup.Apply.{RanPartOf, run_plan, run_plan-done, run_plan-part, install-eq}

-- A class list that the validation refuses raises its error and no command runs.
setup_qos-invalid :
    (tc : Tc) (interface : String) (download_rate upload_rate : ℕ) (algorithm : String)
    (classes : Option Value) (ran : List Argv) (e : QosError)
    → given_classes classes ≡ err e
    → setup_qos tc interface download_rate upload_rate algorithm classes ran ≡ (err e, ran)
unfolding setup_qos
setup_qos-invalid tc interface download_rate upload_rate algorithm classes ran e h = rw h

module _ (tc : Tc) (interface : String) (p : List Argv) where
  -- The run of `setup_qos` behind its validation, by its plan.
  abbrev run_all : List Argv → Bool × List Argv
  run_all ran = returned (
      continue (run_tc tc (delete_root interface) ran).0 (λ _. run_plan tc p)
        (run_tc tc (delete_root interface) ran).1)

  returned-done : (r : Option (Unit {0}) × List Argv) → (returned r).0 ≡ true → r.0 ≡ some tt
  returned-done (none, ran) h = cc
  returned-done (some u, ran) h = refl

  returned-true : (r : Option (Unit {0}) × List Argv) → r.0 ≡ some tt → (returned r).0 ≡ true
  returned-true (none, ran) h = cc
  returned-true (some u, ran) h = refl

  returned-ran : (r : Option (Unit {0}) × List Argv) → (returned r).1 ≡ r.1
  returned-ran (none, ran) = refl
  returned-ran (some u, ran) = refl

  after_delete :
      (b : Bool) (ran : List Argv)
      → ((returned (continue (some b) (λ _. run_plan tc p) (ran ++ delete_root interface ∷ []))).0
            ≡ true
          → (returned
              (continue (some b) (λ _. run_plan tc p) (ran ++ delete_root interface ∷ []))).1
            ≡ ran ++ delete_root interface ∷ p)
        × RanPartOf tc
            (delete_root interface ∷ p)
            ran
            (returned
              (continue (some b) (λ _. run_plan tc p) (ran ++ delete_root interface ∷ []))).1
  after_delete b ran =
      let start = ran ++ delete_root interface ∷ [] in
      let (done, left, e, k) = run_plan-part tc p start in
      let out = run_plan tc p start in
      (
        λ h.
            returned-ran out
            ∙ run_plan-done tc p start (returned-done out h)
            ∙ append_assoc ran (delete_root interface ∷ []) p,
        (
          delete_root interface ∷ done,
          left,
          returned-ran out ∙ e ∙ append_assoc ran (delete_root interface ∷ []) done,
          ap (λ l. delete_root interface ∷ l) k,
        ),
      )

  run_all-ran :
      (ran : List Argv)
      → ((run_all ran).0 ≡ true → (run_all ran).1 ≡ ran ++ delete_root interface ∷ p)
        × RanPartOf tc (delete_root interface ∷ p) ran (run_all ran).1
  unfolding run_tc
  run_all-ran ran = go (tc ran (delete_root interface))
    where
      go :
          (e : Exit)
          → let d = exit_of tc e (delete_root interface) ran in
            ((returned (continue d.0 (λ _. run_plan tc p) d.1)).0 ≡ true
              → (returned (continue d.0 (λ _. run_plan tc p) d.1)).1
                ≡ ran ++ delete_root interface ∷ p)
            × RanPartOf tc
                (delete_root interface ∷ p)
                ran
                (returned (continue d.0 (λ _. run_plan tc p) d.1)).1
      go success = after_delete true ran
      go failure = after_delete false ran
      go unavailable = (λ h. cc, ([], delete_root interface ∷ p, sym (append-nil ran), refl))

ok-injective : {a b : Bool} → ok a ≡ ok b → a ≡ b
ok-injective h = cc

run_plan-succeeds :
    (tc : Tc) (p base ran more : List Argv)
    → ran ≡ base ++ more
    → ((more : List Argv) (args : Argv) → tc (base ++ more) args ≡ success)
    → (run_plan tc p ran).0 ≡ some tt
unfolding run_plan tc_checked run_tc
run_plan-succeeds tc [] base ran more e s = refl
run_plan-succeeds tc (a ∷ p) base ran more e s =
    rw (e, s more a)
      (run_plan-succeeds tc p base ((base ++ more) ++ a ∷ []) (more ++ a ∷ [])
        (append_assoc base more (a ∷ [])) s)

run_all-succeeds :
    (tc : Tc) (interface : String) (p ran : List Argv)
    → tc ran (delete_root interface) ≢ unavailable
    → ((more : List Argv) (args : Argv) → tc (ran ++ delete_root interface ∷ more) args ≡ success)
    → (run_all tc interface p ran).0 ≡ true
unfolding run_tc
run_all-succeeds tc interface p ran starts s = go (tc ran (delete_root interface)) starts (
    run_plan-succeeds tc p (ran ++ delete_root interface ∷ []) (ran ++ delete_root interface ∷ [])
      [] (sym (append-nil _))
      (λ more args. rw (append_assoc ran (delete_root interface ∷ []) more) (s more args)))
  where
    go :
        (e : Exit)
        → e ≢ unavailable
        → (run_plan tc p (ran ++ delete_root interface ∷ [])).0 ≡ some (tt {0})
        → let d = exit_of tc e (delete_root interface) ran in
          (returned (continue d.0 (λ _. run_plan tc p) d.1)).0 ≡ true
    go success n k = returned-true tc interface p _ k
    go failure n k = returned-true tc interface p _ k
    go unavailable n k = absurd (n refl)

apply_qos-run_all :
    (tc : Tc) (algorithm interface : String) (rate : ℕ) (cs : List QosClass) (ran : List Argv)
    → apply_qos tc interface algorithm rate cs ran
      ≡ run_all tc interface (plan algorithm interface rate cs) ran
unfolding apply_qos
apply_qos-run_all tc algorithm interface rate cs ran =
    ap
      (λ (k : Action Unit). returned (
        continue (run_tc tc (delete_root interface) ran).0 (λ _. k)
          (run_tc tc (delete_root interface) ran).1))
      (install-eq tc algorithm interface rate cs)

-- With a class list that the validation accepts, the commands that ran are the first ones of the
-- deletion of the root and the plan, and they are all of these if the result is true.
pub setup_qos-RanPartOf :
    (tc : Tc) (interface : String) (download_rate upload_rate : ℕ) (algorithm : String)
    (classes : Option Value) (cs : List QosClass) (ran : List Argv)
    → given_classes classes ≡ ok cs
    → ((setup_qos tc interface download_rate upload_rate algorithm classes ran).0 ≡ ok true
        → (setup_qos tc interface download_rate upload_rate algorithm classes ran).1
          ≡ ran ++ delete_root interface ∷ plan algorithm interface download_rate cs)
      × RanPartOf tc
          (delete_root interface ∷ plan algorithm interface download_rate cs)
          ran
          (setup_qos tc interface download_rate upload_rate algorithm classes ran).1
unfolding setup_qos
setup_qos-RanPartOf tc interface download_rate upload_rate algorithm classes cs ran h =
    let run = apply_qos-run_all tc algorithm interface download_rate cs ran in
    let (all, part) = run_all-ran tc interface (plan algorithm interface download_rate cs) ran in
    rw (h, setup_qos, run) (λ k. all (ok-injective k), part)

-- If the deletion of the root can be started, and every command after it succeeds, then a set-up
-- with an accepted class list returns true.
pub setup_qos-succeeds :
    (tc : Tc) (interface : String) (download_rate upload_rate : ℕ) (algorithm : String)
    (classes : Option Value) (cs : List QosClass) (ran : List Argv)
    → given_classes classes ≡ ok cs
    → tc ran (delete_root interface) ≢ unavailable
    → ((more : List Argv) (args : Argv) → tc (ran ++ delete_root interface ∷ more) args ≡ success)
    → (setup_qos tc interface download_rate upload_rate algorithm classes ran).0 ≡ ok true
unfolding setup_qos
setup_qos-succeeds tc interface download_rate upload_rate algorithm classes cs ran h starts go_on =
    rw (h, setup_qos, apply_qos-run_all tc algorithm interface download_rate cs ran)
      (ap ok (
        run_all-succeeds tc interface (plan algorithm interface download_rate cs) ran starts go_on))
