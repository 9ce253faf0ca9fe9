-- ===== src/Firewall/Qos/Setup/Plan.antt =====
-- The commands that a set-up is made of, and the classes that they name.
use viswall.Prelude.{
  ℕ, ◌+◌, ◌*◌, ◌/◌, ◌≤◌, ◌<◌, List, [], ◌∷◌, ◌++◌, String, arith, str_eq, if◌then◌else◌, length,
  All, Bool-cases, inl, inr,
}
use viswall.Firewall.Qos.{QosClass, MatchProtocol, tcp, udp}
use viswall.Firewall.Qos.Setup.{
  word, num, kbit, classid, Argv, filter_argv, filter_ipv6_argv, class_argv, leaf_argv, root_argv,
  root_class_argv, cake_argv, fq_codel_argv, base_id, ceil_rate, default_minor, protocols,
}

abbrev pub filters_plan : String → ℕ → ℕ → List MatchProtocol → List Argv
filters_plan interface minor port [] = []
filters_plan interface minor port (p ∷ ps) =
    filter_argv interface minor p port
    ∷ filter_ipv6_argv interface minor p port
    ∷ filters_plan interface minor port ps

abbrev pub port_filters_plan : String → ℕ → List MatchProtocol → List ℕ → List Argv
port_filters_plan interface minor ps [] = []
port_filters_plan interface minor ps (port ∷ ports) =
    filters_plan interface minor port ps ++ port_filters_plan interface minor ps ports

abbrev pub classes_plan : String → ℕ → ℕ → List QosClass → List Argv
classes_plan interface root_rate index [] = []
classes_plan interface root_rate index (c ∷ cs) =
    class_argv interface (base_id + index) c.min_rate_kbps (ceil_rate c.max_rate_kbps root_rate)
      c.priority
    ∷ leaf_argv interface (base_id + index)
    ∷ (port_filters_plan interface (base_id + index) (protocols c.match_protocol) c.match_ports
        ++ classes_plan interface root_rate (index + 1) cs)

abbrev pub legacy_classes : String → ℕ → List Argv
legacy_classes interface rate =
    class_argv interface 10 (rate * 3 / 10) rate 100
    ∷ leaf_argv interface 10
    ∷ class_argv interface 11 (rate * 4 / 10) rate 200
    ∷ leaf_argv interface 11
    ∷ class_argv interface 12 (rate * 3 / 10) rate 300
    ∷ leaf_argv interface 12
    ∷ []

abbrev pub legacy_filters : String → List Argv
legacy_filters interface =
    filter_argv interface 10 udp 5060
    ∷ filter_ipv6_argv interface 10 udp 5060
    ∷ filter_argv interface 10 udp 53
    ∷ filter_ipv6_argv interface 10 udp 53
    ∷ filter_argv interface 10 tcp 22
    ∷ filter_ipv6_argv interface 10 tcp 22
    ∷ []

abbrev pub legacy_plan : String → ℕ → List Argv
legacy_plan interface rate = legacy_classes interface rate ++ legacy_filters interface

abbrev pub leaves_plan : String → ℕ → List QosClass → List Argv
leaves_plan interface rate [] = legacy_plan interface rate
leaves_plan interface rate (c ∷ cs) = classes_plan interface rate 0 (c ∷ cs)

-- The commands after the deletion of the root, for an algorithm and its classes.
unfoldable pub plan : String → String → ℕ → List QosClass → List Argv
plan algorithm interface rate classes =
    if str_eq algorithm "cake"
    then cake_argv interface rate ∷ []
    else if str_eq algorithm "fq_codel"
    then fq_codel_argv interface ∷ []
    else if str_eq algorithm "htb"
    then root_argv interface (default_minor classes)
      ∷ root_class_argv interface rate
      ∷ leaves_plan interface rate classes
    else []

-- The leaf classes that the arguments of a command name.
abbrev pub minors : Argv → List ℕ
minors [] = []
minors (classid m ∷ args) = m ∷ minors args
minors (word s ∷ args) = minors args
minors (num n ∷ args) = minors args
minors (kbit n ∷ args) = minors args

abbrev pub leaf_count : List QosClass → ℕ
leaf_count [] = 3
leaf_count (c ∷ cs) = length (c ∷ cs)

-- The commands name leaf classes below `10 + n` only.
abbrev pub NamesBelow : ℕ → List Argv → Type 0
NamesBelow n = All (λ args. All (λ m. (10 ≤ m) × (m < 10 + n)) (minors args))

NamesBelow-append :
    (n : ℕ) (p q : List Argv) → NamesBelow n p → NamesBelow n q → NamesBelow n (p ++ q)
NamesBelow-append n [] q a b = b
NamesBelow-append n (x ∷ p) q a b = (a.0, NamesBelow-append n p q a.1 b)

NamesBelow-filters :
    (interface : String) (n minor port : ℕ) (ps : List MatchProtocol)
    → 10 ≤ minor
    → minor < 10 + n
    → NamesBelow n (filters_plan interface minor port ps)
NamesBelow-filters interface n minor port [] h k = tt
NamesBelow-filters interface n minor port (p ∷ ps) h k =
    (((h, k), tt), (((h, k), tt), NamesBelow-filters interface n minor port ps h k))

NamesBelow-port_filters :
    (interface : String) (n minor : ℕ) (ps : List MatchProtocol) (ports : List ℕ)
    → 10 ≤ minor
    → minor < 10 + n
    → NamesBelow n (port_filters_plan interface minor ps ports)
NamesBelow-port_filters interface n minor ps [] h k = tt
NamesBelow-port_filters interface n minor ps (port ∷ ports) h k =
    NamesBelow-append n (filters_plan interface minor port ps) _
      (NamesBelow-filters interface n minor port ps h k)
      (NamesBelow-port_filters interface n minor ps ports h k)

NamesBelow-classes :
    (interface : String) (rate n index : ℕ) (cs : List QosClass)
    → index + length cs ≤ n
    → NamesBelow n (classes_plan interface rate index cs)
NamesBelow-classes interface rate n index [] h = tt
NamesBelow-classes interface rate n index (c ∷ cs) h =
    let low : 10 ≤ base_id + index = omega arith in
    let high : base_id + index < 10 + n = omega arith in
    (
      ((low, high), tt),
      (
        ((low, high), tt),
        NamesBelow-append n
            (port_filters_plan interface (base_id + index) (protocols c.match_protocol)
              c.match_ports)
            _
            (NamesBelow-port_filters interface n (base_id + index) (protocols c.match_protocol)
              c.match_ports low high)
            (NamesBelow-classes interface rate n (index + 1) cs (omega arith)),
      ),
    )

NamesBelow-leaves :
    (interface : String) (rate : ℕ) (cs : List QosClass)
    → NamesBelow (leaf_count cs) (leaves_plan interface rate cs)
NamesBelow-leaves interface rate [] = omega arith
NamesBelow-leaves interface rate (c ∷ cs) =
    NamesBelow-classes interface rate (length (c ∷ cs)) 0 (c ∷ cs) (omega arith)

-- Every class that a planned command names, and the default class, is one of the leaf classes:
-- those of the given list, or the three of the default hierarchy, counted from 10.
plan-NamesBelow :
    (algorithm interface : String) (rate : ℕ) (cs : List QosClass)
    → NamesBelow (leaf_count cs) (plan algorithm interface rate cs)
      × (10 ≤ default_minor cs)
      × (default_minor cs < 10 + leaf_count cs)
unfolding plan
plan-NamesBelow algorithm interface rate cs =
    (NamesBelow-plan algorithm interface rate cs, default_minor-le cs, default_minor-lt cs)
  where
    default_minor-le : (cs : List QosClass) → 10 ≤ default_minor cs
    default_minor-le [] = omega arith
    default_minor-le (c ∷ cs) = omega arith

    default_minor-lt : (cs : List QosClass) → default_minor cs < 10 + leaf_count cs
    default_minor-lt [] = omega arith
    default_minor-lt (c ∷ cs) = omega arith

    NamesBelow-plan :
        (algorithm interface : String) (rate : ℕ) (cs : List QosClass)
        → NamesBelow (leaf_count cs) (plan algorithm interface rate cs)
    NamesBelow-plan algorithm interface rate cs = elim (Bool-cases (str_eq algorithm "cake")) [
      | inl e ↦ rw e (tt, tt)
      | inr e ↦ rw e (elim (Bool-cases (str_eq algorithm "fq_codel")) [
        | inl f ↦ rw f (tt, tt)
        | inr f ↦ rw f (elim (Bool-cases (str_eq algorithm "htb")) [
          | inl g ↦ rw g (tt, (tt, NamesBelow-leaves interface rate cs))
          | inr g ↦ rw g tt
        ])
      ])
    ]
