-- ===== src/Node/Guard.antt =====
-- services/node-agent/viswall_node_agent/netcfg.py: `guard_plan` and `check_wan_guardrails`.
pub mod Safe
pub mod Default
use Prim.Native.Char.{code}
use Prim.Native.String
use text.Mathlib.Text.{starts_with}
use viswall.Prelude.{
  Bool, true, false, not, ◌&&◌, ◌||◌, Option, none, some, List, [], ◌∷◌, String, if◌then◌else◌,
  ◌==◌, str_eq, truthy, opt_eq, mem_str, select,
}
use viswall.Prelude.Texts.{before_slash}
use viswall.Node.{
  InterfaceConfig, PlannedStep, StepAction, address, stale_address, gateway, mtu, link, note,
  contains,
}

abbrev pub cuts_off : StepAction → Bool
cuts_off address = true
cuts_off stale_address = true
cuts_off gateway = true
cuts_off link = true
cuts_off mtu = false
cuts_off note = false

abbrev pub touching : String → List PlannedStep → List PlannedStep
touching default_iface steps =
    select (λ s. str_eq s.interface default_iface && cuts_off s.action) steps

abbrev pub refusal : List PlannedStep → Option (List PlannedStep)
refusal [] = none
refusal (s ∷ more) = some (s ∷ more)

-- `none` where it returns; the steps that `PlanRefused` tells otherwise.
unfoldable pub guard_plan :
    List PlannedStep → Option String → (force : Bool) → Option (List PlannedStep)
guard_plan steps none force = none
guard_plan steps (some default_iface) force =
    if force then none else refusal (touching default_iface steps)

-- A row of `ip -j link`
pub record LinkRow : Type 0 where
  pub ifname : Option String
  pub master : Option String

-- The names in the netplan files, as the directory's texts give them, are in `known`.
pub record GuardrailContext : Type 0 where
  pub steps : List PlannedStep
  pub desired : List InterfaceConfig
  pub link_rows : List LinkRow
  pub known : List String
  pub old_content : Option String
  pub new_render : Option String
  pub wan_ip : String

abbrev pub link_master : List LinkRow → String → Option String
link_master [] ifname = none
link_master (row ∷ rows) ifname =
    if opt_eq row.ifname ifname then row.master else link_master rows ifname

pub data WanRefusal : Type 0 where
  removes_wan_address : String → WanRefusal
  removes_default_route : WanRefusal
  enslaved : (interface master : String) → WanRefusal
  absent_from_netplan : String → WanRefusal
  drops_wan_address drops_default_route : WanRefusal

-- `argv[2]`, where there is one
abbrev pub third : List String → Option String
third (a ∷ b ∷ c ∷ rest) = some c
third _ = none

abbrev pub or_else : Option WanRefusal → Option WanRefusal → Option WanRefusal
or_else (some r) rest = some r
or_else none rest = rest

abbrev is_stale : StepAction → Bool
is_stale stale_address = true
is_stale _ = false

abbrev is_gateway : StepAction → Bool
is_gateway gateway = true
is_gateway _ = false

abbrev pub check_removed : GuardrailContext → PlannedStep → Option WanRefusal
check_removed ctx step =
    if is_stale step.action
    then elim (third step.argv) [
      | none ↦ none
      | some removed ↦
          if str_eq removed ctx.wan_ip || str_eq removed (before_slash ctx.wan_ip)
          then some (removes_wan_address removed)
          else none
    ]
    else none

abbrev pub check_default_route : PlannedStep → Option WanRefusal
check_default_route step =
    if is_gateway step.action && contains "remove default route" step.detail
    then some removes_default_route
    else none

unfoldable pub is_docker_bridge : String → Bool
is_docker_bridge master = str_eq master "docker0" || starts_with master "br-"

abbrev pub refuse_master : String → Option String → Option WanRefusal
refuse_master interface none = none
refuse_master interface (some master) =
    if is_docker_bridge master then some (enslaved interface master) else none

abbrev pub check_master : GuardrailContext → PlannedStep → Option WanRefusal
check_master ctx step =
    refuse_master step.interface (truthy (link_master ctx.link_rows step.interface))

unfoldable pub check_steps : GuardrailContext → List PlannedStep → Option WanRefusal
check_steps ctx [] = none
check_steps ctx (step ∷ steps) =
    or_else (check_removed ctx step)
      (or_else (check_default_route step) (or_else (check_master ctx step) (check_steps ctx steps)))

unfoldable pub check_names : List String → List InterfaceConfig → Option WanRefusal
check_names known [] = none
check_names known (cfg ∷ rest) =
    if mem_str cfg.name known then check_names known rest else some (absent_from_netplan cfg.name)

unfoldable pub check_known : List String → List InterfaceConfig → Option WanRefusal
check_known [] desired = none
check_known (k ∷ known) desired = check_names (k ∷ known) desired

abbrev pub has_default_route : String → Bool
has_default_route content =
    contains "to: default" content
    || contains "to: 0.0.0.0/0" content
    || contains "to: \"0.0.0.0/0\"" content

unfoldable pub check_render : (wan_bare old new : String) → Option WanRefusal
check_render wan_bare old new =
    if contains wan_bare old && not (contains wan_bare new)
    then some drops_wan_address
    else if has_default_route old && not (has_default_route new)
    then some drops_default_route
    else none

unfoldable pub check_content : GuardrailContext → Option WanRefusal
check_content ctx = elim (truthy ctx.old_content) [
  | none ↦ none
  | some old ↦ elim ctx.new_render [
    | none ↦ none
    | some new ↦ check_render (before_slash ctx.wan_ip) old new
  ]
]

-- `none` where it returns, otherwise what `WanGuardrailRefused` tells.
unfoldable pub check_wan_guardrails : GuardrailContext → Option WanRefusal
check_wan_guardrails ctx =
    or_else (check_steps ctx ctx.steps)
      (or_else (check_known ctx.known ctx.desired) (check_content ctx))
