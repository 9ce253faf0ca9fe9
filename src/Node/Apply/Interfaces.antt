-- ===== src/Node/Apply/Interfaces.antt =====
-- services/node-agent/viswall_node_agent/netcfg.py: `apply_interfaces`, in both modes.
pub mod Safe
use viswall.Prelude.{
  ℕ, Bool, true, false, Option, none, some, List, [], ◌∷◌, String, if◌then◌else◌, ◌⊎◌, inl, inr,
}
use viswall.Node.{PrefixOf, PlannedStep}
use viswall.Node.Plan.{plan_changes}
use viswall.Node.Guard.{guard_plan, check_wan_guardrails, GuardrailContext}
use viswall.Node.Netplan.{render_netplan}
use viswall.Node.Apply.{
  RunIp, AgentConfig, HostState, ApplyRequest, ApplyError, Applied, TryApplyContext, apply_live,
  plan, refused, guarded,
}
use viswall.Node.Apply.Try.{TryHost, apply_try_mode}

-- What the guardrails read, for the steps of a plan.
abbrev pub context :
    PrefixOf → AgentConfig → HostState → ApplyRequest → List PlannedStep → GuardrailContext
context prefix_of config host request steps = record {
  steps = steps;
  desired = request.interfaces;
  link_rows = host.link_rows;
  known = host.known;
  old_content = host.old_content;
  new_render = some (render_netplan prefix_of request.interfaces);
  wan_ip = config.wan_ip;
}

-- The plan, where both guards let it pass.
unfoldable pub guarded_plan :
    PrefixOf → AgentConfig → HostState → ApplyRequest → ApplyError ⊎ List PlannedStep
guarded_plan prefix_of config host request =
    elim (plan_changes prefix_of host.live host.default_iface host.default_gw request.interfaces) [
      | inl why ↦ inl (plan why)
      | inr steps ↦ elim (guard_plan steps host.default_iface request.force) [
        | some touching ↦ inl (refused touching)
        | none ↦ elim (check_wan_guardrails (context prefix_of config host request steps)) [
          | some why ↦ inl (guarded why)
          | none ↦ inr steps
        ]
      ]
    ]

-- From the rendered configuration on. `write` is `write_netplan` at the configured path, `snapshot`
-- what `snapshot_netplan` returns.
module _ (run : RunIp) (write : String → Bool) (netplan_try : TryHost) (snapshot : Option String)
    (config : AgentConfig) (host : HostState) where
  abbrev pub apply_planned :
      (try_mode : Bool) (rendered : String) → List PlannedStep → ApplyError ⊎ Applied
  apply_planned true rendered planned =
      apply_try_mode write netplan_try config (record {
        rendered = rendered;
        snapshot_dir = snapshot;
        default_iface = host.default_iface;
      })
  apply_planned false rendered planned =
      inr (apply_live run config host snapshot (write rendered) planned)

  unfoldable pub apply_interfaces : PrefixOf → ApplyRequest → ApplyError ⊎ Applied
  apply_interfaces prefix_of request = elim (guarded_plan prefix_of config host request) [
    | inl why ↦ inl why
    | inr planned ↦
        apply_planned request.try_mode (render_netplan prefix_of request.interfaces) planned
  ]
