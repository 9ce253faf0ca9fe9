-- ===== src/Firewall/Nft/Swap.antt =====
-- What `apply_ruleset` leaves of the live table.
use viswall.Prelude.{true, false, ◌≡◌, refl, ap, ◌∙◌, some, String}
use viswall.Firewall.Nft.{Firewall, Nft, Faults, back_up, apply_ruleset}
use viswall.Firewall.Nft.Steps.{
  LoadsAtOnce, loaded-deleted, IsClean, rejected-back_up, back_up-Installed, clean-back_up,
  clean-write_and_check, clean-swap_table, after_load-false,
}

-- Rules that `nft -c` rejects are not applied: the result is false, and the live table is as before,
-- whatever step raises.
pub rejected-apply_ruleset :
    (nft : Nft) (faults : Faults) (rules : String) (fw : Firewall)
    → nft.check rules ≡ false
    → ((apply_ruleset nft faults rules fw).0 ≡ false)
      × ((apply_ruleset nft faults rules fw).1.table ≡ fw.table)
unfolding apply_ruleset
rejected-apply_ruleset nft faults rules fw k = rejected-back_up nft faults rules fw fw.conf k

-- If `nft delete table` removes the table, and `nft -f` loads a file as a whole where there is no table
-- and otherwise, when it fails, leaves the table as it was, then after a result of true the live table and the
-- configuration file are the given rules, and `nft -c` accepts them.
pub apply_ruleset-installs :
    (nft : Nft) (faults : Faults) (rules : String) (fw : Firewall)
    → LoadsAtOnce nft
    → (apply_ruleset nft faults rules fw).0 ≡ true
    → ((apply_ruleset nft faults rules fw).1.table ≡ some rules)
      × ((apply_ruleset nft faults rules fw).1.conf ≡ some rules)
      × (nft.check rules ≡ true)
unfolding apply_ruleset
apply_ruleset-installs nft faults rules fw whole h =
    let ((table, conf), k) = back_up-Installed nft faults rules fw fw.conf whole h in
    (table, conf, k)

-- If no step raises, `nft delete table` removes the table, `nft -f` loads a file as a whole where there is
-- no table, leaves the table as it was when it fails, and can load the file in use before where there is no
-- table, then after rules that pass `nft -c` and fail to load, that file is back in place and in the
-- live table.
pub apply_ruleset-restores :
    (nft : Nft) (faults : Faults) (rules : String) (fw : Firewall) (before : String)
    → IsClean faults
    → LoadsAtOnce nft
    → fw.conf ≡ some before
    → nft.check rules ≡ true
    → (nft.load (nft.delete fw.table) rules).0 ≡ false
    → (nft.load (nft.delete fw.table) before).0 ≡ true
    → apply_ruleset nft faults rules fw
      ≡ (false, record { conf = some before; last_good = some before; table = some before })
unfolding apply_ruleset
apply_ruleset-restores nft faults rules fw before clean whole conf k bad good =
    let empty = nft.delete fw.table in
    let kept = whole.kept empty rules bad in
    let again : (nft.load (nft.load empty rules).1 before).1 ≡ some before =
      ap (λ t. (nft.load t before).1) kept ∙ loaded-deleted nft whole fw.table before good in
    ap (λ c. back_up nft faults rules fw c) conf
    ∙ (clean-back_up nft faults rules clean fw before
        ∙ (clean-write_and_check nft faults rules clean _ k
            ∙ (clean-swap_table nft faults rules clean _
                ∙ (after_load-false nft faults rules clean
                      (record { conf = some rules; last_good = some before; table = empty }) before
                      (nft.load empty rules) bad refl
                    ∙ ap
                        (λ t. (
                          false,
                          record { conf = some before; last_good = some before; table = t },
                        ))
                        again))))
