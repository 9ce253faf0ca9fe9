-- ===== src/Firewall/Nft/Steps.antt =====
-- The steps of `apply_ruleset`, one after the other.
use viswall.Prelude.{
  Bool, true, false, ◌≡◌, refl, sym, ap, subst, ◌∙◌, Option, none, some, String, if◌then◌else◌, inl,
  inr, arith, Bool-cases,
}
use viswall.Firewall.Nft.{
  Firewall, Nft, Faults, restore_last_good, after_load, swap_table, write_and_check, back_up,
}

-- After `nft delete table` there is no table. Where there is none, a file that `nft -f` loads with exit 0
-- is the table; nothing is asked of such a load into a table, which nft merges. A load with another exit
-- leaves the table as it was.
pub record LoadsAtOnce (nft : Nft) : Type 0 where
  pub deleted : (table : Option String) → nft.delete table ≡ none
  pub loaded : (text : String) → (nft.load none text).0 ≡ true → (nft.load none text).1 ≡ some text
  pub kept :
      (table : Option String) (text : String)
      → (nft.load table text).0 ≡ false
      → (nft.load table text).1 ≡ table

-- A load after the deletion.
pub loaded-deleted :
    (nft : Nft)
    → LoadsAtOnce nft
    → (table : Option String) (text : String) → (nft.load (nft.delete table) text).0 ≡ true
    → (nft.load (nft.delete table) text).1 ≡ some text
loaded-deleted nft whole table text =
    subst (λ t. (nft.load t text).0 ≡ true → (nft.load t text).1 ≡ some text)
      (sym (whole.deleted table)) (whole.loaded text)

-- No step of the run raises.
pub record IsClean (faults : Faults) : Type 0 where
  pub backup : faults.backup ≡ false
  pub write : faults.write ≡ false
  pub check : faults.check ≡ false
  pub delete : faults.delete ≡ false
  pub load : faults.load ≡ false
  pub copy_back : faults.copy_back ≡ false
  pub restore : faults.restore ≡ false

module _ (nft : Nft) (faults : Faults) (rules : String) where
  restored-false :
      (fw : Firewall) (good : Option String) → (restore_last_good nft faults fw good).0 ≡ false
  restored-false fw none = refl
  restored-false fw (some good) = ground arith

  after_load-true :
      (fw : Firewall) (r : Bool × Option String)
      → (after_load nft faults fw r).0 ≡ true
      → (r.0 ≡ true)
        × ((after_load nft faults fw r).1.table ≡ r.1)
        × ((after_load nft faults fw r).1.conf ≡ fw.conf)
  after_load-true fw (true, table) h = (refl, refl, refl)
  after_load-true fw (false, table) h = ground (arith, restored-false _ fw.last_good)

  -- A result of true comes with the rules in the table and in the file.
  abbrev Installed : Option String → Bool × Firewall → Type 0
  Installed conf r = (r.1.table ≡ some rules) × (r.1.conf ≡ conf)

  swap_table-Installed :
      (fw : Firewall)
      → LoadsAtOnce nft
      → (swap_table nft faults rules fw).0 ≡ true
      → Installed fw.conf (swap_table nft faults rules fw)
  unfolding swap_table
  swap_table-Installed fw whole h = elim (Bool-cases faults.delete) [
    | inl d ↦ ground arith
    | inr d ↦ elim (Bool-cases faults.load) [
      | inl l ↦ ground arith
      | inr l ↦
          let deleted : Firewall = record {
            conf = fw.conf;
            last_good = fw.last_good;
            table = nft.delete fw.table;
          } in
          let step : swap_table nft faults rules fw
              ≡ after_load nft faults deleted (nft.load deleted.table rules) =
            rw (d, l) refl in
          let (ok, table, conf) =
            after_load-true deleted (nft.load deleted.table rules) (sym (ap (λ r. r.0) step) ∙ h) in
          let installed : (nft.load deleted.table rules).1 ≡ some rules =
            loaded-deleted nft whole fw.table rules ok in
          subst (Installed fw.conf) (sym step) (table ∙ installed, conf)
    ]
  ]

  checked-Installed :
      (fw : Firewall)
      → LoadsAtOnce nft
      → (write_and_check nft faults rules fw).0 ≡ true
      → Installed (some rules) (write_and_check nft faults rules fw) × (nft.check rules ≡ true)
  unfolding write_and_check
  checked-Installed fw whole h = elim (Bool-cases faults.write) [
    | inl w ↦ ground arith
    | inr w ↦ elim (Bool-cases faults.check) [
      | inl c ↦ ground arith
      | inr c ↦ elim (Bool-cases (nft.check rules)) [
        | inl k ↦
            let written : Firewall = record {
              conf = some rules;
              last_good = fw.last_good;
              table = fw.table;
            } in
            let step : write_and_check nft faults rules fw ≡ swap_table nft faults rules written =
              rw (w, c, k) refl in
            let done = swap_table-Installed written whole (sym (ap (λ r. r.0) step) ∙ h) in
            (subst (Installed (some rules)) (sym step) done, k)
        | inr k ↦ ground arith
      ]
    ]
  ]

  rejected-write_and_check :
      (fw : Firewall)
      → nft.check rules ≡ false
      → ((write_and_check nft faults rules fw).0 ≡ false)
        × ((write_and_check nft faults rules fw).1.table ≡ fw.table)
  unfolding write_and_check
  rejected-write_and_check fw k = elim (Bool-cases faults.write) [
    | inl w ↦ rw w (refl, refl)
    | inr w ↦ elim (Bool-cases faults.check) [
      | inl c ↦ rw (w, c) (refl, refl)
      | inr c ↦ rw (w, c, k) (refl, refl)
    ]
  ]

  pub rejected-back_up :
      (fw : Firewall) (conf : Option String)
      → nft.check rules ≡ false
      → ((back_up nft faults rules fw conf).0 ≡ false)
        × ((back_up nft faults rules fw conf).1.table ≡ fw.table)
  rejected-back_up fw none k = rejected-write_and_check fw k
  rejected-back_up fw (some conf) k = elim (Bool-cases faults.backup) [
    | inl b ↦ rw b (refl, refl)
    | inr b ↦
        let saved : Firewall = record { conf = fw.conf; last_good = some conf; table = fw.table } in
        subst (λ r. (r.0 ≡ false) × (r.1.table ≡ fw.table))
          (sym (ap (λ x. if x then (false, fw) else write_and_check nft faults rules saved) b))
          (rejected-write_and_check saved k)
  ]

  pub back_up-Installed :
      (fw : Firewall) (conf : Option String)
      → LoadsAtOnce nft
      → (back_up nft faults rules fw conf).0 ≡ true
      → Installed (some rules) (back_up nft faults rules fw conf) × (nft.check rules ≡ true)
  back_up-Installed fw none whole h = checked-Installed fw whole h
  back_up-Installed fw (some conf) whole h = elim (Bool-cases faults.backup) [
    | inl b ↦ ground arith
    | inr b ↦
        let saved : Firewall = record { conf = fw.conf; last_good = some conf; table = fw.table } in
        let step : back_up nft faults rules fw (some conf)
            ≡ write_and_check nft faults rules saved =
          rw b refl in
        subst (λ r. Installed (some rules) r × (nft.check rules ≡ true)) (sym step)
          (checked-Installed saved whole (sym (ap (λ r. r.0) step) ∙ h))
  ]

module _ (nft : Nft) (faults : Faults) (rules : String) (clean : IsClean faults) where
  pub clean-back_up :
      (fw : Firewall) (conf : String)
      → back_up nft faults rules fw (some conf)
        ≡ write_and_check nft faults rules
            (record { conf = fw.conf; last_good = some conf; table = fw.table })
  clean-back_up fw conf =
      let saved : Firewall = record { conf = fw.conf; last_good = some conf; table = fw.table } in
      ap (λ x. if x then (false, fw) else write_and_check nft faults rules saved) clean.backup

  pub clean-write_and_check :
      (fw : Firewall)
      → nft.check rules ≡ true
      → write_and_check nft faults rules fw
        ≡ swap_table nft faults rules
            (record { conf = some rules; last_good = fw.last_good; table = fw.table })
  unfolding write_and_check
  clean-write_and_check fw k = rw (clean.write, clean.check, k) refl

  pub clean-swap_table :
      (fw : Firewall)
      → swap_table nft faults rules fw
        ≡ after_load nft faults
            (record { conf = fw.conf; last_good = fw.last_good; table = nft.delete fw.table })
            (nft.load (nft.delete fw.table) rules)
  unfolding swap_table
  clean-swap_table fw = rw (clean.delete, clean.load) refl

  clean-restore_last_good :
      (fw : Firewall) (good : String)
      → restore_last_good nft faults fw (some good) ≡ (
        false,
        record { conf = some good; last_good = fw.last_good; table = (nft.load fw.table good).1 },
      )
  clean-restore_last_good fw good = rw (clean.copy_back, clean.restore) refl

  pub after_load-false :
      (fw : Firewall) (good : String) (r : Bool × Option String)
      → r.0 ≡ false
      → fw.last_good ≡ some good
      → after_load nft faults fw r
        ≡ (false, record { conf = some good; last_good = some good; table = (nft.load r.1 good).1 })
  after_load-false fw good (true, table) h l = cc
  after_load-false fw good (false, table) h l = rw l (
      clean-restore_last_good (record { conf = fw.conf; last_good = some good; table = table })
        good)
