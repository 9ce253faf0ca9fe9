-- ===== src/Firewall/Deploy/Scenarios.antt =====
-- Runs of a deployment and of a roll-back, and their theorems at them.
use Prim.Native.String
use Prim.Native.Char.{code}
use viswall.Prelude.{
  true, false, ◌&&◌, ◌≡◌, refl, Option, none, some, String, [], ◌∷◌, if◌then◌else◌, str_eq, ◌==◌,
  leb, arith,
}
use viswall.Prelude.Json.{pos}
use viswall.Prelude.Dict.{get_or}
use viswall.Firewall.Routing.{Entry, word, int, table_id, prefix, mark, to_int}
use viswall.Firewall.Routing
use viswall.Firewall.Routing.Apply.{ensure_table, each, tables_of, reconcile, apply_routing}
use viswall.Firewall.Routing.Apply
use viswall.Firewall.Routing.Live.{read_rows}
use viswall.Firewall.Routing.Reconcile.{stale, missing}
use viswall.Firewall.Routing.Desired.{parse, collect, distinct, desired}
use viswall.Firewall.Nft.{Nft, Faults, write_and_check, swap_table, apply_ruleset}
use viswall.Firewall.Nft.Steps.{LoadsAtOnce}
use viswall.Firewall.Nft.Rules.{ip, ip6}
use viswall.Firewall.Nft.Rules
use viswall.Firewall.Qos.Setup
use viswall.Firewall.Deploy.{
  Payload, Agent, World, applied, convert_rules, convert_nat, deploy_firewall_config,
}
use viswall.Firewall.Deploy.Entries.{parse_service_ports, rules_from_payload}
use viswall.Firewall.Deploy.Answers.{Promise, deploy_firewall_config-Promise}
use viswall.Firewall.Deploy.Rollback.{
  Machine, Command, Answer, succeeded, failed, not_run, test, delete_table, restore, load_last_good,
  restore_failed, os_error, test_all, restore_all, rollback_direct,
}
use viswall.Firewall.Deploy.Rollback.Ran.{Ran, rollback_direct-Ran}

abbrev numbers : Routing.Python
numbers = record {
  int_of = λ s. if str_eq s "22" then some (pos 22) else none;
  int0_of = λ s. none;
  is_digit = λ s. str_eq s "22";
  network = λ s. some s;
}

abbrev texts : Rules.Python
texts = record {
  lower = λ s. s;
  upper = λ s. s;
  strip = λ s. s;
  is_space = λ c. code c == b' ';
  is_decimal = λ c. leb b'0' (code c) && leb (code c) b'9';
  is_word = λ c. leb b'a' (code c) && leb (code c) b'z';
  int_of = λ s. 22;
  ip_address = λ s. none;
  ip_network = λ s. none;
  ipv4 = λ s. none;
  ipv6 = λ s. none;
}

abbrev merged : Option String → String → String
merged none text = text
merged (some table) text = String.◌++◌ table text

-- An nft that adds the file to the table there is.
abbrev nft : Nft
nft = record {
  check = λ text. true;
  delete = λ table. none;
  load = λ table text. (true, some (merged table text));
}

nft-LoadsAtOnce : LoadsAtOnce nft
nft-LoadsAtOnce = record {
  deleted = λ table. refl;
  loaded = λ text h. refl;
  kept = λ table text h. ground arith;
}

abbrev no_faults : Faults
no_faults = record {
  backup = false;
  write = false;
  partial = "";
  check = false;
  delete = false;
  load = false;
  copy_back = false;
  restore = false;
}

abbrev world : World
world = record {
  numbers = numbers;
  texts = texts;
  nft = nft;
  faults = no_faults;
  host = record {
    ip = λ ran argv. record { code = 0; err = "" };
    writable = true;
    rules = Apply.rows [];
    routes = Apply.rows [];
  };
  tc = λ ran argv. Setup.success;
  now = "now";
  validation = false;
  snapshot_fails = false;
  marker_fails = false;
}

abbrev ssh : Entry
ssh = ("name", word "ssh") ∷ ("service_protocol", word "tcp") ∷ ("service_ports", word "22") ∷ []

-- A routing entry whose priority is no number.
abbrev odd : Entry
odd = ("source", word "10.0.0.0/8") ∷ ("table", int (pos 100)) ∷ ("priority", word "high") ∷ []

abbrev payload : Payload
payload = record {
  interfaces = [];
  rules = ssh ∷ [];
  nat_rules = [];
  routing_rules = odd ∷ [];
  qos = [];
}

abbrev agent : Agent
agent = record {
  nft = record { conf = none; last_good = none; table = none };
  routing = record { rt_tables = []; file = []; mutations = []; file_mutations = []; errors = [] };
  ran = [];
  applied_at = none;
}

deploy_firewall_config-Promise_example :
    Promise world payload agent
      (deploy_firewall_config world payload agent).1
      (deploy_firewall_config world payload agent).0
deploy_firewall_config-Promise_example =
    deploy_firewall_config-Promise world payload agent nft-LoadsAtOnce

-- The error of the routing entry is not in the answer.
error_lost : (deploy_firewall_config world payload agent).0 ≡ applied []
unfolding deploy_firewall_config convert_rules rules_from_payload convert_nat parse_service_ports
    get_or to_int apply_ruleset write_and_check swap_table apply_routing desired collect parse
    table_id prefix mark distinct tables_of each ensure_table read_rows reconcile stale missing
error_lost = refl

-- A machine on which the restorations end so, after tests that succeeded.
module _ (a : Answer) where
  abbrev answered : Command → Answer
  answered (test name) = succeeded
  answered delete_table = succeeded
  answered (restore name) = a
  answered load_last_good = succeeded

  abbrev machine : Machine
  machine = record {
    is_file = λ name. true;
    has_last_good = true;
    answer = λ ran command. answered command;
  }

fallen_back : rollback_direct (machine failed) [] ≡ (
  some (restore_failed "rules.v4"),
  test "rules.v4" ∷ test "rules.v6" ∷ delete_table ∷ restore "rules.v4" ∷ load_last_good ∷ [],
)
unfolding rollback_direct test_all restore_all
fallen_back = refl

rollback_direct-Ran_example :
    Ran
      (machine not_run)
      (rollback_direct (machine not_run) []).0
      (rollback_direct (machine not_run) []).1
rollback_direct-Ran_example = rollback_direct-Ran (machine not_run)

-- Where iptables-restore cannot be started for a restoration, there is neither the table nor the last good one.
nothing_left :
    rollback_direct (machine not_run) []
    ≡ (some os_error, test "rules.v4" ∷ test "rules.v6" ∷ delete_table ∷ [])
unfolding rollback_direct test_all restore_all
nothing_left = refl
