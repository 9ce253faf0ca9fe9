-- ===== src/Firewall/Nft/Blacklist.antt =====
-- services/firewall-service/viswall_firewall_agent/nft.py: the addresses in the blacklist sets. `run` is
-- what a command of nft gives after those that ran before it, and `none` is an `OSError`.
use viswall.Prelude.{
  Bool, false, ◌&&◌, ◌||◌, Option, none, some, List, [], ◌∷◌, ◌++◌, String, if◌then◌else◌, str_eq,
}
use viswall.Firewall.Nft.Rules.{Family, ip, ip6, Python, is_some, after_some}
use viswall.Firewall.Nft.Convert.{ip_family}

abbrev pub Command : Type 0
Command = List String

abbrev is_unit : String → Bool
is_unit s = str_eq s "s" || str_eq s "m" || str_eq s "h" || str_eq s "d"

abbrev unit_follows : Option String → Bool
unit_follows none = false
unit_follows (some rest) = is_unit rest

module _ (py : Python) where
  -- `_valid_block_ip`
  abbrev pub valid_block_ip : String → Bool
  valid_block_ip address = is_some (py.ip_address address)

  -- `_valid_block_timeout`, in full: digits and one of s, m, h and d
  abbrev pub valid_block_timeout : String → Bool
  valid_block_timeout timeout = unit_follows (after_some py.is_decimal timeout)

  abbrev pub set_of : Family → String
  set_of ip = "blacklist_v4"
  set_of ip6 = "blacklist_v6"

  module _ (run : List Command → Command → Option Bool) where
    abbrev recorded : Option Bool → Command → List Command → Bool × List Command
    recorded none command ran = (false, ran)
    recorded (some succeeded) command ran = (succeeded, ran ++ command ∷ [])

    abbrev run_nft : Command → List Command → Bool × List Command
    run_nft command ran = recorded (run ran command) command ran

    unfoldable pub add_to_blacklist :
        (address timeout : String) → List Command → Bool × List Command
    add_to_blacklist address timeout ran =
        if valid_block_ip address && valid_block_timeout timeout
        then run_nft
            ("nft"
              ∷ "add"
              ∷ "element"
              ∷ "inet"
              ∷ "viswall"
              ∷ set_of (ip_family py (some address))
              ∷ "{"
              ∷ address
              ∷ "timeout"
              ∷ timeout
              ∷ "}"
              ∷ [])
            ran
        else (false, ran)

    unfoldable pub remove_from_blacklist : (address : String) → List Command → Bool × List Command
    remove_from_blacklist address ran =
        if valid_block_ip address
        then run_nft
            ("nft"
              ∷ "delete"
              ∷ "element"
              ∷ "inet"
              ∷ "viswall"
              ∷ set_of (ip_family py (some address))
              ∷ "{"
              ∷ address
              ∷ "}"
              ∷ [])
            ran
        else (false, ran)
