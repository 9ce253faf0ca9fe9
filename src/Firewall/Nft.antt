-- ===== src/Firewall/Nft.antt =====
-- services/firewall-service/viswall_firewall_agent/nft.py: `apply_ruleset`, on the configuration file,
-- its last good copy and the live table `inet viswall`.
pub mod Rules
pub mod Blacklist
pub mod AntiSpoof
pub mod InputChain
pub mod NatChains
pub mod Render
pub mod Sections
pub mod Convert
pub mod Steps
pub mod Swap
mod Scenarios
mod Rendered
use viswall.Prelude.{Bool, true, false, Option, none, some, String, if◌then◌else◌}

pub record Firewall : Type 0 where
  pub conf : Option String
  pub last_good : Option String
  pub table : Option String

-- The nft program: `nft -c -f`, `nft delete table` and `nft -f` on the text of the file. `load` gives
-- whether it exits with 0 and the table it leaves.
pub record Nft : Type 0 where
  pub check : String → Bool
  pub delete : Option String → Option String
  pub load : Option String → String → Bool × Option String

-- The steps that raise an `OSError`. A write that fails leaves `partial` in the file, a copy that fails
-- leaves its target as it was.
pub record Faults : Type 0 where
  pub backup : Bool
  pub write : Bool
  pub partial : String
  pub check : Bool
  pub delete : Bool
  pub load : Bool
  pub copy_back : Bool
  pub restore : Bool

module _ (nft : Nft) (faults : Faults) where
  -- After a load that failed: the last good file is copied back and loaded.
  abbrev pub restore_last_good : Firewall → Option String → Bool × Firewall
  restore_last_good fw none = (false, fw)
  restore_last_good fw (some good) =
      if faults.copy_back
      then (false, fw)
      else if faults.restore
      then (false, record { conf = some good; last_good = fw.last_good; table = fw.table })
      else (
        false,
        record { conf = some good; last_good = fw.last_good; table = (nft.load fw.table good).1 },
      )

  abbrev pub after_load : Firewall → Bool × Option String → Bool × Firewall
  after_load fw (true, table) =
      (true, record { conf = fw.conf; last_good = fw.last_good; table = table })
  after_load fw (false, table) =
      restore_last_good (record { conf = fw.conf; last_good = fw.last_good; table = table })
        fw.last_good

  -- From the deletion of the table on.
  unfoldable pub swap_table : String → Firewall → Bool × Firewall
  swap_table rules fw =
      if faults.delete
      then (false, fw)
      else let deleted : Firewall = record {
        conf = fw.conf;
        last_good = fw.last_good;
        table = nft.delete fw.table;
      } in
        if faults.load then (false, deleted) else after_load deleted (nft.load deleted.table rules)

  -- From the write of the file on.
  unfoldable pub write_and_check : String → Firewall → Bool × Firewall
  write_and_check rules fw =
      if faults.write
      then (
        false,
        record { conf = some faults.partial; last_good = fw.last_good; table = fw.table },
      )
      else let written : Firewall = record {
        conf = some rules;
        last_good = fw.last_good;
        table = fw.table;
      } in
        if faults.check
        then (false, written)
        else if nft.check rules
        then swap_table rules written
        else (false, written)

  abbrev pub back_up : String → Firewall → Option String → Bool × Firewall
  back_up rules fw none = write_and_check rules fw
  back_up rules fw (some conf) =
      if faults.backup
      then (false, fw)
      else write_and_check rules
          (record { conf = fw.conf; last_good = some conf; table = fw.table })

  unfoldable pub apply_ruleset : String → Firewall → Bool × Firewall
  apply_ruleset rules fw = back_up rules fw fw.conf
