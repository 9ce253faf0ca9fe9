-- ===== src/Firewall/Qos/Setup/Scenarios.antt =====
-- qos.py: a class list and two hosts, and the theorems at these inputs.
use viswall.Prelude.{◌≡◌, refl, true, false, none, some, List, [], ◌∷◌, ◌++◌, length, All}
use viswall.Prelude.Json.{
  pos, negsuc, int, str, list, dict, Items, no_items, item, Fields, no_fields, field, find,
}
use viswall.Firewall.Qos.{
  QosClass, any, udp, given, numbered, ok, err, too_small, normalize_class, normalize_classes,
}
use viswall.Firewall.Qos.Valid.{IsValid, size, normalize_classes-IsValid}
use viswall.Firewall.Qos.Setup.{
  success, failure, Tc, delete_root, root_argv, setup_qos, run_tc, tc_checked, setup_htb,
}
use viswall.Firewall.Qos.Setup.Plan.{plan}
use viswall.Firewall.Qos.Setup.Apply.{RanPartOf}
use viswall.Firewall.Qos.Setup.Outcome.{setup_qos-RanPartOf, setup_qos-succeeds}

abbrev voip : Fields
voip = field "name" (str "voip") (
    field "min_rate_kbps" (int (pos 500)) (
      field "match_ports" (list (item (int (pos 5060)) no_items))
        (field "match_protocol" (str "UDP") no_fields)))

abbrev bulk : Fields
bulk = field "min_rate" (int (pos 100)) (field "max_rate" (int (pos 900)) no_fields)

abbrev entries : Items
entries = item (dict voip) (item (dict bulk) no_items)

abbrev voip_class : QosClass
voip_class = record {
  name = given (str "voip");
  priority = 1;
  min_rate_kbps = 500;
  max_rate_kbps = none;
  match_ports = 5060 ∷ [];
  match_protocol = udp;
}

abbrev bulk_class : QosClass
bulk_class = record {
  name = numbered 1;
  priority = 2;
  min_rate_kbps = 100;
  max_rate_kbps = some 900;
  match_ports = [];
  match_protocol = any;
}

abbrev classes : List QosClass
classes = voip_class ∷ bulk_class ∷ []

normalize_entries : normalize_classes (list entries) ≡ ok classes
unfolding normalize_classes normalize_class find
normalize_entries = refl

-- Nothing runs for a negative rate.
abbrev negative : Items
negative = item (dict (field "min_rate_kbps" (int (negsuc 4)) no_fields)) no_items

normalize_negative : normalize_classes (list negative) ≡ err (too_small 0)
unfolding normalize_classes normalize_class find
normalize_negative = refl

-- A host where every command succeeds, and one where every command fails.
abbrev healthy : Tc
healthy ran args = success

abbrev broken : Tc
broken ran args = failure

broken_returns :
    setup_qos broken "eth0" 1000 100 "htb" (some (list entries)) []
    ≡ (ok false, delete_root "eth0" ∷ root_argv "eth0" 11 ∷ [])
unfolding setup_qos run_tc tc_checked setup_htb normalize_classes normalize_class find
broken_returns = refl

normalize_classes-IsValid_example : All IsValid classes × (length classes ≡ size entries)
normalize_classes-IsValid_example = normalize_classes-IsValid entries classes normalize_entries

setup_qos-RanPartOf_example :
    ((setup_qos healthy "eth0" 1000 100 "htb" (some (list entries)) []).0 ≡ ok true
      → (setup_qos healthy "eth0" 1000 100 "htb" (some (list entries)) []).1
        ≡ [] ++ delete_root "eth0" ∷ plan "htb" "eth0" 1000 classes)
    × RanPartOf healthy
        (delete_root "eth0" ∷ plan "htb" "eth0" 1000 classes)
        []
        (setup_qos healthy "eth0" 1000 100 "htb" (some (list entries)) []).1
setup_qos-RanPartOf_example =
    setup_qos-RanPartOf healthy "eth0" 1000 100 "htb" (some (list entries)) classes []
      normalize_entries

setup_qos-succeeds_example :
    (setup_qos healthy "eth0" 1000 100 "htb" (some (list entries)) []).0 ≡ ok true
setup_qos-succeeds_example =
    setup_qos-succeeds healthy "eth0" 1000 100 "htb" (some (list entries)) classes []
      normalize_entries (λ e. cc) (λ more args. refl)
