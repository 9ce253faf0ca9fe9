-- ===== src/Firewall/Deploy.antt =====
-- services/firewall-service/viswall_firewall_agent/api.py: `FirewallAgent.deploy_firewall_config`. The
-- renderer, policy routing and traffic shaping are those of Nft, Routing and Qos.
pub mod Entries
pub mod Answers
pub mod Rollback
mod Scenarios
use viswall.Prelude.{
  ℕ, ◌+◌, Bool, true, false, ◌⊎◌, inl, inr, Option, none, some, List, [], ◌∷◌, ◌++◌, String,
  if◌then◌else◌, str_eq,
}
use viswall.Prelude.Json.{Value}
use viswall.Prelude.Dict.{Dict}
use viswall.Firewall.Qos.{Checked}
use viswall.Firewall.Qos
use viswall.Firewall.Qos.Setup.{Tc, setup_qos}
use viswall.Firewall.Qos.Setup
use viswall.Firewall.Routing.{Entry}
use viswall.Firewall.Routing
use viswall.Firewall.Routing.Apply.{Manager, Host, Problem, Outcome, apply_routing}
use viswall.Firewall.Routing.Apply
use viswall.Firewall.Nft.{Firewall, Nft, Faults, apply_ruleset}
use viswall.Firewall.Nft.Rules.{FirewallRule, NatRule}
use viswall.Firewall.Nft.Rules
use viswall.Firewall.Nft.Render.{generate_ruleset}
use viswall.Firewall.Deploy.Entries.{rules_from_payload, nat_from_payload}

-- A policy of the list `qos`; a key that is not there is `none`.
pub record QosPolicy : Type 0 where
  pub interface : Option String
  pub download_kbps : Option ℕ
  pub upload_kbps : Option ℕ
  pub algorithm : Option String
  pub classes : Option Value

pub record Payload : Type 0 where
  pub interfaces : List (Dict String)
  pub rules : List Entry
  pub nat_rules : List Entry
  pub routing_rules : List Entry
  pub qos : List QosPolicy

-- The agent's managers, the tc commands that ran, and the marker of the last apply.
pub record Agent : Type 0 where
  pub nft : Firewall
  pub routing : Manager
  pub ran : List Setup.Argv
  pub applied_at : Option String

-- `FirewallApplyError`
pub data DeployError : Type 0 where
  snapshot_failed : DeployError
  invalid_rule : (index : ℕ) → DeployError
  invalid_nat : (index : ℕ) → DeployError
  nft_failed : DeployError

-- The texts of the returned `errors`.
pub data DeployProblem : Type 0 where
  routing : Problem → DeployProblem
  invalid_classes : (interface : String) → DeployProblem
  invalid_policy : (interface : String) → DeployProblem
  setup_failed : (interface : String) → DeployProblem

-- How a request ends: an answer, a `FirewallApplyError`, or an exception of `apply_routing`.
pub data Answer : Type 0 where
  applied : List DeployProblem → Answer
  refused : DeployError → Answer
  crashed : Answer

-- What the agent runs on: Python's library, nft, the host with its ip program, tc, the clock, and the steps
-- that raise an `OSError`.
pub record World : Type 0 where
  pub numbers : Routing.Python
  pub texts : Rules.Python
  pub nft : Nft
  pub faults : Faults
  pub host : Host
  pub tc : Tc
  pub now : String
  pub validation : Bool
  pub snapshot_fails : Bool
  pub marker_fails : Bool

abbrev or_question_mark : Option String → String
or_question_mark none = "?"
or_question_mark (some s) = if str_eq s "" then "?" else s

abbrev or_cake : Option String → String
or_cake none = "cake"
or_cake (some s) = if str_eq s "" then "cake" else s

abbrev routing_problems : List Problem → List DeployProblem
routing_problems [] = []
routing_problems (p ∷ problems) = routing p ∷ routing_problems problems

module _ (w : World) where
  abbrev pub add_rules :
      ℕ → Option (List FirewallRule) → ℕ ⊎ List FirewallRule → ℕ ⊎ List FirewallRule
  add_rules index none rest = inl index
  add_rules index (some rules) (inl failed) = inl failed
  add_rules index (some rules) (inr others) = inr (rules ++ others)

  unfoldable pub convert_rules : ℕ → List Entry → ℕ ⊎ List FirewallRule
  convert_rules index [] = inr []
  convert_rules index (raw ∷ entries) =
      add_rules index (rules_from_payload w.numbers w.texts raw) (convert_rules (index + 1) entries)

  abbrev add_nat : ℕ → Option NatRule → ℕ ⊎ List NatRule → ℕ ⊎ List NatRule
  add_nat index none rest = inl index
  add_nat index (some rule) (inl failed) = inl failed
  add_nat index (some rule) (inr others) = inr (rule ∷ others)

  unfoldable pub convert_nat : ℕ → List Entry → ℕ ⊎ List NatRule
  convert_nat index [] = inr []
  convert_nat index (raw ∷ entries) =
      add_nat index (nat_from_payload w.numbers w.texts raw) (convert_nat (index + 1) entries)

  abbrev pub rendered : Payload → List FirewallRule → List NatRule → String
  rendered payload rules nat_rules =
      generate_ruleset w.texts w.now w.validation payload.interfaces rules nat_rules true true

  abbrev qos_outcome : String → Checked Bool → List DeployProblem
  qos_outcome interface (Qos.err e) = invalid_classes interface ∷ []
  qos_outcome interface (Qos.ok true) = []
  qos_outcome interface (Qos.ok false) = setup_failed interface ∷ []

  abbrev set_up :
      QosPolicy → Option ℕ → Option ℕ → List Setup.Argv → List DeployProblem × List Setup.Argv
  set_up policy (some download) (some upload) ran =
      let interface = or_question_mark policy.interface in
      let (done, after) =
        setup_qos w.tc interface download upload (or_cake policy.algorithm) policy.classes ran in
      (qos_outcome interface done, after)
  set_up policy download upload ran = (invalid_policy (or_question_mark policy.interface) ∷ [], ran)

  abbrev pub set_up_all : List QosPolicy → List Setup.Argv → List DeployProblem × List Setup.Argv
  set_up_all [] ran = ([], ran)
  set_up_all (policy ∷ policies) ran =
      let (problems, after) = set_up policy policy.download_kbps policy.upload_kbps ran in
      let (others, last) = set_up_all policies after in (problems ++ others, last)

  abbrev reported : Bool → Manager → List DeployProblem
  reported true m = []
  reported false m = routing_problems m.errors

  abbrev pub after_routing : List QosPolicy → Agent → Outcome → Answer × Agent
  after_routing policies a (Apply.raised m) =
      (crashed, record { nft = a.nft; routing = m; ran = a.ran; applied_at = a.applied_at })
  after_routing policies a (Apply.returned ok m) =
      let (problems, ran) = set_up_all policies a.ran in
      (
        applied (reported ok m ++ problems),
        record { nft = a.nft; routing = m; ran = ran; applied_at = a.applied_at },
      )

  abbrev pub marker : Bool → Option String → Option String
  marker true before = before
  marker false before = some w.now

  -- `apply_ruleset` returned, and left the files and the table.
  abbrev pub after_nft : Payload → Agent → Bool × Firewall → Answer × Agent
  after_nft payload a (false, fw) = (
    refused nft_failed,
    record { nft = fw; routing = a.routing; ran = a.ran; applied_at = a.applied_at },
  )
  after_nft payload a (true, fw) =
      after_routing payload.qos
        (record {
          nft = fw;
          routing = a.routing;
          ran = a.ran;
          applied_at = marker w.marker_fails a.applied_at;
        })
        (apply_routing w.numbers w.host false payload.routing_rules a.routing)

  abbrev pub install : Payload → Agent → ℕ ⊎ List FirewallRule → ℕ ⊎ List NatRule → Answer × Agent
  install payload a (inl index) nat_rules = (refused (invalid_rule index), a)
  install payload a (inr rules) (inl index) = (refused (invalid_nat index), a)
  install payload a (inr rules) (inr nat_rules) =
      after_nft payload a (apply_ruleset w.nft w.faults (rendered payload rules nat_rules) a.nft)

  unfoldable pub deploy_firewall_config : Payload → Agent → Answer × Agent
  deploy_firewall_config payload a =
      if w.snapshot_fails
      then (refused snapshot_failed, a)
      else install payload a (convert_rules 0 payload.rules) (convert_nat 0 payload.nat_rules)
