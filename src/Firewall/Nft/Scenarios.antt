-- ===== src/Firewall/Nft/Scenarios.antt =====
-- Runs of `apply_ruleset` and its theorems at them.
use Prim.Native.String
use viswall.Prelude.{
  true, false, ◌||◌, not, ◌≡◌, refl, Option, none, some, String, if◌then◌else◌, str_eq, Bool-cases,
  inl, inr, arith,
}
use viswall.Firewall.Nft.{Firewall, Nft, Faults, swap_table, write_and_check, apply_ruleset}
use viswall.Firewall.Nft.Steps.{LoadsAtOnce, IsClean}
use viswall.Firewall.Nft.Swap.{
  rejected-apply_ruleset, apply_ruleset-installs, apply_ruleset-restores,
}

abbrev merged : Option String → String → String
merged none text = text
merged (some table) text = String.◌++◌ table text

-- An nft that rejects "broken", that fails to load "broken" and "odd", and that loads a file into a table
-- by adding to it.
abbrev program : Nft
program = record {
  check = λ text. not (str_eq text "broken");
  delete = λ table. none;
  load = λ table text.
      if str_eq text "broken" || str_eq text "odd"
      then (false, table)
      else (true, some (merged table text));
}

program-LoadsAtOnce : LoadsAtOnce program
program-LoadsAtOnce = record {
  deleted = λ table. refl;
  loaded = λ text h. elim (Bool-cases (str_eq text "broken" || str_eq text "odd")) [
    | inl e ↦ ground arith
    | inr e ↦ rw e refl
  ];
  kept = λ table text h. elim (Bool-cases (str_eq text "broken" || str_eq text "odd")) [
    | inl e ↦ rw e refl
    | inr e ↦ ground arith
  ];
}

abbrev no_faults : Faults
no_faults = record {
  backup = false;
  write = false;
  partial = "";
  check = false;
  delete = false;
  load = false;
  copy_back = false;
  restore = false;
}

no_faults-IsClean : IsClean no_faults
no_faults-IsClean = record {
  backup = refl;
  write = refl;
  check = refl;
  delete = refl;
  load = refl;
  copy_back = refl;
  restore = refl;
}

abbrev running : Firewall
running = record { conf = some "first"; last_good = none; table = some "first" }

rejected-apply_ruleset_example :
    ((apply_ruleset program no_faults "broken" running).0 ≡ false)
    × ((apply_ruleset program no_faults "broken" running).1.table ≡ some "first")
rejected-apply_ruleset_example = rejected-apply_ruleset program no_faults "broken" running refl

second_installed : (apply_ruleset program no_faults "second" running).0 ≡ true
unfolding apply_ruleset write_and_check swap_table
second_installed = refl

apply_ruleset-installs_example :
    ((apply_ruleset program no_faults "second" running).1.table ≡ some "second")
    × ((apply_ruleset program no_faults "second" running).1.conf ≡ some "second")
    × (program.check "second" ≡ true)
apply_ruleset-installs_example =
    apply_ruleset-installs program no_faults "second" running program-LoadsAtOnce second_installed

apply_ruleset-restores_example :
    apply_ruleset program no_faults "odd" running
    ≡ (false, record { conf = some "first"; last_good = some "first"; table = some "first" })
apply_ruleset-restores_example =
    apply_ruleset-restores program no_faults "odd" running "first" no_faults-IsClean
      program-LoadsAtOnce refl refl refl refl

-- Rejected rules stay in the file, so the next apply saves them as the last good ones; when it
-- fails to load, there is no table to go back to.
no_table_left :
    apply_ruleset program no_faults "odd" (apply_ruleset program no_faults "broken" running).1
    ≡ (false, record { conf = some "broken"; last_good = some "broken"; table = none })
unfolding apply_ruleset write_and_check swap_table
no_table_left = refl
