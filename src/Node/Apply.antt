-- ===== src/Node/Apply.antt =====
-- services/node-agent/viswall_node_agent/netcfg.py: `apply_interfaces` and its live mode. The state is
-- the list of the `ip` commands that ran; the messages are data that show what the f-strings show.
pub mod Try
pub mod Interfaces
pub mod Scenarios
use viswall.Prelude.{
  ℕ, Bool, true, false, ◌&&◌, Option, none, some, List, [], ◌∷◌, ◌++◌, String, if◌then◌else◌, ◌==◌,
  truthy, ◌⊎◌, inl, inr,
}
use viswall.Prelude.Json.{ℤ}
use viswall.Node.{LiveInterface, InterfaceConfig, PrefixOf, PlannedStep, StepAction}
use viswall.Node.Plan.{PlanError, plan_changes}
use viswall.Node.Guard.{LinkRow, WanRefusal, guard_plan, check_wan_guardrails}
use viswall.Node.Netplan.{render_netplan}

abbrev pub Argv : Type 0
Argv = List String

-- What a command leaves, and `run_ip`: the exit depends on the commands that ran before.
pub record Exit : Type 0 where
  pub code : ℕ
  pub err : String

abbrev pub RunIp : Type 0
RunIp = List Argv → Argv → Exit

pub data NetplanOutcome : Type 0 where
  accepted reverted error : NetplanOutcome

pub data ChangeAction : Type 0 where
  of_step : StepAction → ChangeAction
  netplan : ChangeAction

pub data ChangeDetail : Type 0 where
  done : String → ChangeDetail
  failed : (detail err : String) → ChangeDetail
  not_written : (path : String) → ChangeDetail
  backed_up : ChangeDetail
  try_exited : ℤ → NetplanOutcome → (stderr : String) → ChangeDetail

pub record ApplyChange : Type 0 where
  pub interface : String
  pub action : ChangeAction
  pub detail : ChangeDetail
  pub ok : Bool

pub record ProbeResult : Type 0 where
  pub name : String
  pub ok : Bool
  pub detail : String

pub data Message : Type 0 where
  configuration_applied completed_with_errors try_accepted : Message
  try_not_accepted : NetplanOutcome → (first_failure : String) → Message

pub record ApplyResult : Type 0 where
  pub success : Bool
  pub changes : List ApplyChange
  pub default_route_interface : Option String
  pub netplan_file : Option String
  pub netplan_written : Bool
  pub message : Message
  pub try_mode : Bool
  pub probes : List ProbeResult
  pub netplan_outcome : Option NetplanOutcome
  pub snapshot_dir : Option String

pub record ApplyRequest : Type 0 where
  pub interfaces : List InterfaceConfig
  pub force : Bool
  pub try_mode : Bool

-- What `discover`, `read_link_rows`, `read_existing_netplan` and the netplan directory show.
pub record HostState : Type 0 where
  pub live : List LiveInterface
  pub default_iface : Option String
  pub default_gw : Option String
  pub link_rows : List LinkRow
  pub known : List String
  pub old_content : Option String

-- The part of `AgentConfig` that the functions read.
pub record AgentConfig : Type 0 where
  pub netplan_path : Option String
  pub wan_ip : String

-- The exceptions that leave `apply_interfaces`.
pub data ApplyError : Type 0 where
  plan : PlanError → ApplyError
  refused : List PlannedStep → ApplyError
  guarded : WanRefusal → ApplyError
  persistence_off cannot_write : ApplyError
  cannot_spawn : String → ApplyError

pub record TryApplyContext : Type 0 where
  pub rendered : String
  pub snapshot_dir : Option String
  pub default_iface : Option String

-- The locals of the loop over the planned steps, and the commands that ran.
pub record Progress : Type 0 where
  pub changes : List ApplyChange
  pub success : Bool
  pub ran : List Argv

abbrev pub step_change : PlannedStep → Exit → ApplyChange
step_change step exit = record {
  interface = step.interface;
  action = of_step step.action;
  detail = if exit.code == 0 then done step.detail else failed step.detail exit.err;
  ok = exit.code == 0;
}

abbrev pub run_step : RunIp → Progress → PlannedStep → Argv → Progress
run_step run p step [] = record {
  changes =
      p.changes
      ++ record {
        interface = step.interface;
        action = of_step step.action;
        detail = done step.detail;
        ok = true;
      }
        ∷ [];
  success = p.success;
  ran = p.ran;
}
run_step run p step (a ∷ argv) = record {
  changes = p.changes ++ step_change step (run p.ran (a ∷ argv)) ∷ [];
  success = p.success && (run p.ran (a ∷ argv)).code == 0;
  ran = p.ran ++ (a ∷ argv) ∷ [];
}

unfoldable pub run_steps : RunIp → Progress → List PlannedStep → Progress
run_steps run p [] = p
run_steps run p (step ∷ steps) = run_steps run (run_step run p step step.argv) steps

abbrev written_change : String → ApplyChange
written_change path = record {
  interface = "*";
  action = netplan;
  detail = not_written path;
  ok = false;
}

abbrev pub unwritten : Progress → Option String → Progress
unwritten p none = p
unwritten p (some path) = record {
  changes = p.changes ++ written_change path ∷ [];
  success = false;
  ran = p.ran;
}

abbrev pub persisted : AgentConfig → Progress → (written : Bool) → Progress
persisted config p true = p
persisted config p false = unwritten p (truthy config.netplan_path)

-- What an apply leaves: its result, the commands that ran, and whether netplan was told to accept.
pub record Applied : Type 0 where
  pub result : ApplyResult
  pub ran : List Argv
  pub confirmed : Bool

-- The live mode, from the loop over the steps on. `written` is what `write_netplan` returns.
unfoldable pub apply_live :
    RunIp
    → AgentConfig
    → HostState
    → (snapshot : Option String) → (written : Bool) → List PlannedStep
    → Applied
apply_live run config host snapshot written planned =
    let p =
      persisted config (run_steps run (record { changes = []; success = true; ran = [] }) planned)
        written in
    record {
      result = record {
        success = p.success;
        changes = p.changes;
        default_route_interface = host.default_iface;
        netplan_file = config.netplan_path;
        netplan_written = written;
        message = if p.success then configuration_applied else completed_with_errors;
        try_mode = false;
        probes = [];
        netplan_outcome = none;
        snapshot_dir = snapshot;
      };
      ran = p.ran;
      confirmed = false;
    }
