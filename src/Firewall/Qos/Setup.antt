-- ===== src/Firewall/Qos/Setup.antt =====
-- services/firewall-service/viswall_firewall_agent/qos.py: `TrafficControlManager`. `tc` is a
-- parameter: what it answers may depend on all the commands before. The state is the list of the
-- commands that ran.
-- `int(rate * 0.3)` is `rate * 3 / 10`.
pub mod Plan
pub mod Apply
pub mod Outcome
mod Scenarios
use viswall.Prelude.{
  ℕ, ◌+◌, ◌-◌, ◌*◌, ◌/◌, ◌≡◌, Bool, true, false, Option, none, some, List, [], ◌∷◌, ◌++◌, String,
  str_eq, if◌then◌else◌, length, truthy_num,
}
use viswall.Prelude.Json.{Value, is_falsy}
use viswall.Firewall.Qos.{
  QosError, QosClass, MatchProtocol, any, tcp, udp, Checked, ok, err, normalize_classes,
}
pub use viswall.Firewall.Qos.Commands.{
  Arg, Argv, proto_word, proto_number, protocols, base_id, filter_argv, filter_ipv6_argv,
  class_argv, leaf_argv, root_argv, root_class_argv, cake_argv, fq_codel_argv, word, num, kbit,
  classid,
}

-- `OSError` is raised where the program cannot be started.
pub data Exit : Type 0 where
  success failure unavailable : Exit

abbrev pub Tc : Type 0
Tc = List Argv → Argv → Exit

-- `none` is a raised `QoSApplyError` or `OSError`.
abbrev pub Action : Type 0 → Type 0
Action A = List Argv → Option A × List Argv

module _ {A : Type 0} where
  abbrev pub pure : A → Action A
  pure a ran = (some a, ran)

  abbrev pub throw : Action A
  throw ran = (none, ran)

module _ {A B : Type 0} where
  abbrev pub continue : Option A → (A → Action B) → Action B
  continue none f ran = (none, ran)
  continue (some a) f ran = f a ran

  infixl 5 ◌>>=◌ ◌>>◌
  abbrev pub ◌>>=◌ : Action A → (A → Action B) → Action B
  ◌>>=◌ m f ran = let (r, ran') = m ran in continue r f ran'

  abbrev pub ◌>>◌ : Action A → Action B → Action B
  m >> n = m >>= λ _. n

-- `spec.get("max_rate_kbps") or root_rate`
abbrev pub ceil_rate : Option ℕ → ℕ → ℕ
ceil_rate max root_rate = elim (truthy_num max) [ none ↦ root_rate | some n ↦ n ]

abbrev pub default_minor : List QosClass → ℕ
default_minor [] = 12
default_minor (c ∷ cs) = base_id + length (c ∷ cs) - 1

-- (minor, rate, priority): high, normal and low priority.
abbrev pub default_classes : ℕ → List (ℕ × ℕ × ℕ)
default_classes rate =
    (10, rate * 3 / 10, 100) ∷ (11, rate * 4 / 10, 200) ∷ (12, rate * 3 / 10, 300) ∷ []

abbrev pub delete_root : String → Argv
delete_root interface = word "qdisc" ∷ word "del" ∷ word "dev" ∷ word interface ∷ word "root" ∷ []

-- `except (QoSApplyError, OSError): return False`
abbrev pub returned : Option (Unit {0}) × List Argv → Bool × List Argv
returned (none, ran) = (false, ran)
returned (some u, ran) = (true, ran)

-- `_normalize_classes(classes) if classes else []`
abbrev pub given_classes : Option Value → Checked (List QosClass)
given_classes none = ok []
given_classes (some v) = if is_falsy v then ok [] else normalize_classes v

abbrev with_classes :
    Checked (List QosClass)
    → (List QosClass → Bool × List Argv)
    → List Argv
    → Checked Bool × List Argv
with_classes (err e) f ran = (err e, ran)
with_classes (ok classes) f ran = let (b, ran') = f classes in (ok b, ran')

module _ (tc : Tc) where
  abbrev exit_of : Exit → Argv → Action Bool
  exit_of success args ran = (some true, ran ++ args ∷ [])
  exit_of failure args ran = (some false, ran ++ args ∷ [])
  exit_of unavailable args ran = (none, ran)

  unfoldable pub run_tc : Argv → Action Bool
  run_tc args ran = exit_of (tc ran args) args ran

  unfoldable pub tc_checked : Argv → Action Unit
  tc_checked args = do succeeded ← run_tc args; if succeeded then pure tt else throw

  unfoldable pub add_filter : String → ℕ → MatchProtocol → ℕ → Action Unit
  add_filter interface minor protocol port = tc_checked (filter_argv interface minor protocol port)

  unfoldable pub add_filter_ipv6 : String → ℕ → MatchProtocol → ℕ → Action Unit
  add_filter_ipv6 interface minor protocol port =
      tc_checked (filter_ipv6_argv interface minor protocol port)

  -- The inner loop over the protocols of a port, and the loop over the ports.
  unfoldable pub add_filters : String → ℕ → ℕ → List MatchProtocol → Action Unit
  add_filters interface minor port [] = pure tt
  add_filters interface minor port (p ∷ ps) = do
    add_filter interface minor p port
    add_filter_ipv6 interface minor p port
    add_filters interface minor port ps

  unfoldable pub add_port_filters : String → ℕ → List MatchProtocol → List ℕ → Action Unit
  add_port_filters interface minor ps [] = pure tt
  add_port_filters interface minor ps (port ∷ ports) = do
    add_filters interface minor port ps
    add_port_filters interface minor ps ports

  abbrev add_class : String → ℕ → ℕ → ℕ → ℕ → Action Unit
  add_class interface minor rate ceil prio = tc_checked (class_argv interface minor rate ceil prio)

  abbrev add_leaf : String → ℕ → Action Unit
  add_leaf interface minor = tc_checked (leaf_argv interface minor)

  unfoldable pub add_class_leaves : String → ℕ → ℕ → List QosClass → Action Unit
  add_class_leaves interface root_rate index [] = pure tt
  add_class_leaves interface root_rate index (spec ∷ specs) = do
    let minor = base_id + index
    add_class interface minor spec.min_rate_kbps (ceil_rate spec.max_rate_kbps root_rate)
        spec.priority
    add_leaf interface minor
    add_port_filters interface minor (protocols spec.match_protocol) spec.match_ports
    add_class_leaves interface root_rate (index + 1) specs

  -- The loop over `default_classes`: minor, rate and priority of each.
  unfoldable pub add_default_classes : String → ℕ → List (ℕ × ℕ × ℕ) → Action Unit
  add_default_classes interface rate [] = pure tt
  add_default_classes interface rate ((minor, class_rate, prio) ∷ rest) = do
    add_class interface minor class_rate rate prio
    add_leaf interface minor
    add_default_classes interface rate rest

  abbrev legacy_hierarchy : String → ℕ → Action Unit
  legacy_hierarchy interface rate = do
    add_default_classes interface rate (default_classes rate)
    add_filter interface 10 udp 5060
    add_filter_ipv6 interface 10 udp 5060
    add_filter interface 10 udp 53
    add_filter_ipv6 interface 10 udp 53
    add_filter interface 10 tcp 22
    add_filter_ipv6 interface 10 tcp 22

  abbrev leaves : String → ℕ → List QosClass → Action Unit
  leaves interface rate [] = legacy_hierarchy interface rate
  leaves interface rate (c ∷ cs) = add_class_leaves interface rate 0 (c ∷ cs)

  unfoldable pub setup_htb : String → ℕ → List QosClass → Action Unit
  setup_htb interface rate classes = do
    tc_checked (root_argv interface (default_minor classes))
    tc_checked (root_class_argv interface rate)
    leaves interface rate classes

  -- An algorithm of another name installs nothing.
  abbrev install : String → String → ℕ → List QosClass → Action Unit
  install algorithm interface download_rate classes =
      if str_eq algorithm "cake"
      then tc_checked (cake_argv interface download_rate)
      else if str_eq algorithm "fq_codel"
      then tc_checked (fq_codel_argv interface)
      else if str_eq algorithm "htb"
      then setup_htb interface download_rate classes
      else pure tt

  -- The body of the `try`, and what it returns.
  unfoldable pub apply_qos : String → String → ℕ → List QosClass → List Argv → Bool × List Argv
  apply_qos interface algorithm download_rate classes ran =
      returned
        ((do run_tc (delete_root interface); install algorithm interface download_rate classes) ran)

  -- `upload_rate` is not read. An error of the validation is raised.
  unfoldable pub setup_qos :
      String
      → (download_rate upload_rate : ℕ) → String
      → Option Value
      → List Argv
      → Checked Bool × List Argv
  unfolding apply_qos
  setup_qos interface download_rate upload_rate algorithm classes ran =
      with_classes (given_classes classes)
        (λ cs. apply_qos interface algorithm download_rate cs ran) ran
