-- ===== src/Firewall/Qos/Setup/Apply.antt =====
-- `setup_qos` against its plan: the commands run in the plan's order up to the first that fails.
use mathlib.Core.List.{append_assoc, append-nil}
use mathlib.Core.Path.{fun_ext, ap₂}
use viswall.Prelude.{
  ℕ, ◌+◌, ◌≡◌, refl, sym, ap, ◌∙◌, Option, none, some, List, [], ◌∷◌, ◌++◌, String, arith, str_eq,
  Bool-cases, inl, inr, ◌⊎◌,
}
use viswall.Firewall.Qos.{QosClass, MatchProtocol, tcp, udp}
use viswall.Firewall.Qos.Setup.{
  Argv, Tc, Action, pure, continue, ◌>>◌, run_tc, tc_checked, add_filter, add_filter_ipv6,
  add_filters, add_port_filters, add_class_leaves, setup_htb, install, leaves, add_default_classes,
  protocols, base_id, filter_argv, filter_ipv6_argv, class_argv, leaf_argv, ceil_rate, cake_argv,
  fq_codel_argv, root_argv, root_class_argv, default_minor,
}
use viswall.Firewall.Qos.Setup.Plan.{
  legacy_classes, legacy_filters, leaves_plan, filters_plan, port_filters_plan, classes_plan, plan,
}

continue_assoc :
    {A B C : Type 0} (r : Option A) (n : Action B) (k : Action C) (ran : List Argv)
    → continue r (λ _. n >> k) ran
      ≡ continue (continue r (λ _. n) ran).0 (λ _. k) (continue r (λ _. n) ran).1
continue_assoc none n k ran = refl
continue_assoc (some a) n k ran = refl

>>_assoc :
    {A B C : Type 0} (m : Action A) (n : Action B) (k : Action C)
    → (m >> (n >> k)) ≡ ((m >> n) >> k)
>>_assoc m n k = fun_ext λ ran. continue_assoc (m ran).0 n k (m ran).1

continue-pure : (r : Option (Unit {0})) (ran : List Argv) → continue r (λ _. pure tt) ran ≡ (r, ran)
continue-pure none ran = refl
continue-pure (some u) ran = refl

>>-pure : (m : Action Unit) → (m >> pure tt) ≡ m
>>-pure m = fun_ext λ ran. continue-pure (m ran).0 (m ran).1

module _ (tc : Tc) where
  -- The commands of a list, each checked.
  unfoldable pub run_plan : List Argv → Action Unit
  run_plan [] = pure tt
  run_plan (args ∷ rest) = tc_checked tc args >> run_plan rest

  run_plan-append : (p q : List Argv) → run_plan (p ++ q) ≡ (run_plan p >> run_plan q)
  unfolding run_plan
  run_plan-append [] q = refl
  run_plan-append (a ∷ p) q =
      ap (λ k. tc_checked tc a >> k) (run_plan-append p q)
      ∙ >>_assoc (tc_checked tc a) (run_plan p) (run_plan q)

  add_filters-eq :
      (interface : String) (minor port : ℕ) (ps : List MatchProtocol)
      → add_filters tc interface minor port ps ≡ run_plan (filters_plan interface minor port ps)
  unfolding run_plan add_filters add_filter add_filter_ipv6
  add_filters-eq interface minor port [] = refl
  add_filters-eq interface minor port (p ∷ ps) =
      ap
        (λ k.
          tc_checked tc (filter_argv interface minor p port)
          >> (tc_checked tc (filter_ipv6_argv interface minor p port) >> k))
        (add_filters-eq interface minor port ps)

  add_port_filters-eq :
      (interface : String) (minor : ℕ) (ps : List MatchProtocol) (ports : List ℕ)
      → add_port_filters tc interface minor ps ports
        ≡ run_plan (port_filters_plan interface minor ps ports)
  unfolding run_plan add_port_filters
  add_port_filters-eq interface minor ps [] = refl
  add_port_filters-eq interface minor ps (port ∷ ports) =
      ap₂ (λ m k. m >> k) (add_filters-eq interface minor port ps)
        (add_port_filters-eq interface minor ps ports)
      ∙ sym (
          run_plan-append (filters_plan interface minor port ps)
            (port_filters_plan interface minor ps ports))

  add_class_leaves-eq :
      (interface : String) (rate index : ℕ) (cs : List QosClass)
      → add_class_leaves tc interface rate index cs
        ≡ run_plan (classes_plan interface rate index cs)
  unfolding run_plan add_class_leaves
  add_class_leaves-eq interface rate index [] = refl
  add_class_leaves-eq interface rate index (c ∷ cs) =
      let filters =
        port_filters_plan interface (base_id + index) (protocols c.match_protocol) c.match_ports in
      let rest = classes_plan interface rate (index + 1) cs in
      ap
        (λ k.
          tc_checked tc (
            class_argv interface (base_id + index) c.min_rate_kbps (ceil_rate c.max_rate_kbps rate)
              c.priority)
          >> (tc_checked tc (leaf_argv interface (base_id + index)) >> k))
        (ap₂ (λ m k. m >> k)
            (add_port_filters-eq interface (base_id + index) (protocols c.match_protocol)
              c.match_ports)
            (add_class_leaves-eq interface rate (index + 1) cs)
          ∙ sym (run_plan-append filters rest))

  leaves-eq :
      (interface : String) (rate : ℕ) (cs : List QosClass)
      → leaves tc interface rate cs ≡ run_plan (leaves_plan interface rate cs)
  unfolding run_plan add_default_classes add_filter add_filter_ipv6
  leaves-eq interface rate [] =
      ap
        (λ k.
          run_plan (legacy_classes interface rate)
          >> (tc_checked tc (filter_argv interface 10 udp 5060)
              >> (tc_checked tc (filter_ipv6_argv interface 10 udp 5060)
                  >> (tc_checked tc (filter_argv interface 10 udp 53)
                      >> (tc_checked tc (filter_ipv6_argv interface 10 udp 53)
                          >> (tc_checked tc (filter_argv interface 10 tcp 22) >> k))))))
        (sym (>>-pure (tc_checked tc (filter_ipv6_argv interface 10 tcp 22))))
      ∙ sym (run_plan-append (legacy_classes interface rate) (legacy_filters interface))
  leaves-eq interface rate (c ∷ cs) = add_class_leaves-eq interface rate 0 (c ∷ cs)

  pub install-eq :
      (algorithm interface : String) (rate : ℕ) (cs : List QosClass)
      → install tc algorithm interface rate cs ≡ run_plan (plan algorithm interface rate cs)
  unfolding run_plan plan setup_htb
  install-eq algorithm interface rate cs = elim (Bool-cases (str_eq algorithm "cake")) [
    | inl e ↦ rw e (sym (>>-pure (tc_checked tc (cake_argv interface rate))))
    | inr e ↦ rw e (elim (Bool-cases (str_eq algorithm "fq_codel")) [
      | inl f ↦ rw f (sym (>>-pure (tc_checked tc (fq_codel_argv interface))))
      | inr f ↦ rw f (elim (Bool-cases (str_eq algorithm "htb")) [
        | inl g ↦ rw g (
            ap
              (λ k.
                tc_checked tc (root_argv interface (default_minor cs))
                >> (tc_checked tc (root_class_argv interface rate) >> k))
              (leaves-eq interface rate cs))
        | inr g ↦ rw g refl
      ])
    ])
  ]

  -- A command that is checked ran, or could not be started.
  tc_checked-ran :
      (args : Argv) (ran : List Argv)
      → (((tc_checked tc args ran).1 ≡ ran ++ args ∷ []) ⊎ ((tc_checked tc args ran).1 ≡ ran))
        × ((tc_checked tc args ran).0 ≡ some tt → (tc_checked tc args ran).1 ≡ ran ++ args ∷ [])
  unfolding tc_checked run_tc
  tc_checked-ran args ran = (ground arith, λ h. ground arith)

  continue-done :
      (r : Option (Unit {0})) (ran ran' : List Argv) (a : Argv) (p : List Argv)
      → (r ≡ some tt → ran' ≡ ran ++ a ∷ [])
      → ((run_plan p ran').0 ≡ some tt → (run_plan p ran').1 ≡ ran' ++ p)
      → (continue r (λ _. run_plan p) ran').0 ≡ some tt
      → (continue r (λ _. run_plan p) ran').1 ≡ ran ++ a ∷ p
  continue-done none ran ran' a p e ih h = cc
  continue-done (some u) ran ran' a p e ih h =
      ih h ∙ ap (λ l. l ++ p) (e refl) ∙ append_assoc ran (a ∷ []) p

  -- A plan that is done ran to its end.
  pub run_plan-done :
      (p ran : List Argv) → (run_plan p ran).0 ≡ some tt → (run_plan p ran).1 ≡ ran ++ p
  unfolding run_plan
  run_plan-done [] ran h = sym (append-nil ran)
  run_plan-done (a ∷ p) ran h =
      let (r, ran') = tc_checked tc a ran in
      continue-done r ran ran' a p (tc_checked-ran a ran).1 (run_plan-done p ran') h

  -- The commands that ran are the first ones of a plan.
  abbrev pub RanPartOf : List Argv → List Argv → List Argv → Type 0
  RanPartOf p ran ran' =
      (done : List Argv) × (left : List Argv) × (ran' ≡ ran ++ done) × (done ++ left ≡ p)

  continue-part :
      (r : Option (Unit {0})) (ran ran' : List Argv) (a : Argv) (p : List Argv)
      → (ran' ≡ ran ++ a ∷ []) ⊎ (ran' ≡ ran)
      → (r ≡ some tt → ran' ≡ ran ++ a ∷ [])
      → RanPartOf p ran' (run_plan p ran').1
      → RanPartOf (a ∷ p) ran (continue r (λ _. run_plan p) ran').1
  continue-part none ran ran' a p (inl e) s ih = (a ∷ [], p, e, refl)
  continue-part none ran ran' a p (inr e) s ih = ([], a ∷ p, e ∙ sym (append-nil ran), refl)
  continue-part (some u) ran ran' a p c s (done, left, e, k) = (
    a ∷ done,
    left,
    e ∙ ap (λ l. l ++ done) (s refl) ∙ append_assoc ran (a ∷ []) done,
    ap (λ l. a ∷ l) k,
  )

  pub run_plan-part : (p ran : List Argv) → RanPartOf p ran (run_plan p ran).1
  unfolding run_plan
  run_plan-part [] ran = ([], [], sym (append-nil ran), refl)
  run_plan-part (a ∷ p) ran =
      let (r, ran') = tc_checked tc a ran in
      continue-part r ran ran' a p (tc_checked-ran a ran).0 (tc_checked-ran a ran).1
        (run_plan-part p ran')
