-- ===== src/Node/Apply/Try.antt =====
-- services/node-agent/viswall_node_agent/netcfg.py: the health probes and `apply_try_mode`.
pub mod Confirm
use Prim.Native.String
use viswall.Prelude.{
  ℕ, zero, suc, Bool, true, false, not, ◌&&◌, ◌||◌, Option, none, some, List, [], ◌∷◌, ◌++◌, String,
  if◌then◌else◌, ◌==◌, str_eq, truthy, ◌⊎◌, inl, inr,
}
use viswall.Prelude.Json.{ℤ, pos, negsuc}
use viswall.Node.{concat, decimal, contains}
use viswall.Node.Apply.{
  AgentConfig, Argv, ProbeResult, ApplyChange, ApplyResult, ApplyError, Applied, NetplanOutcome,
  accepted, reverted, error, TryApplyContext, netplan, backed_up, try_exited, try_accepted,
  try_not_accepted, persistence_off, cannot_write, cannot_spawn,
}

-- How a probe's command ends: its output, or the text of an exception.
pub data Ran : Type 0 where
  ended : (code : ℕ) (out err : String) → Ran
  raised : (why : String) → Ran

pub record ProbeConfig : Type 0 where
  pub ss_binary : String
  pub curl_binary : String
  pub ping_binary : String
  pub probe_ssh_port : ℕ
  pub probe_gateway_url : String
  pub probe_ping_target : String

-- How `netplan try` ends: with its exit code and error output, or killed after the time limit.
pub data Finished : Type 0 where
  exited : (code : ℤ) (stderr : String) → Finished
  killed : (code : ℤ) → Finished

-- The host as the try mode meets it: commands of the probes, whether the netplan file exists, the
-- spawned process. `finish` depends on whether the newline was sent.
pub record TryHost : Type 0 where
  pub probe_config : ProbeConfig
  pub command : Argv → Ran
  pub file_exists : Bool
  pub spawn_error : Option String
  pub has_stdin : Bool
  pub newline_error : Bool
  pub finish : Bool → Finished

-- `text[:n]`
abbrev take_chars : ℕ → String → String
take_chars zero s = ""
take_chars (suc n) String.[] = ""
take_chars (suc n) (String.◌∷◌ c s) = String.◌∷◌ c (take_chars n s)

abbrev or_text : String → String → String
or_text s other = if str_eq s "" then other else s

-- What a raised exception leaves of a probe.
abbrev crashed : String → ProbeResult
crashed why = record { name = "probe"; ok = false; detail = why }

-- `re.search(rf":{port}[ \t\r\n]", out)`
abbrev pub is_listening : ℕ → String → Bool
is_listening port out =
    contains (concat (":" ∷ decimal port ∷ " " ∷ [])) out
    || contains (concat (":" ∷ decimal port ∷ "\t" ∷ [])) out
    || contains (concat (":" ∷ decimal port ∷ "\r" ∷ [])) out
    || contains (concat (":" ∷ decimal port ∷ "\n" ∷ [])) out

abbrev ssh_result : ProbeConfig → Ran → ProbeResult
ssh_result config (raised why) = crashed why
ssh_result config (ended code out err) =
    let name = concat ("ssh-listener:" ∷ decimal config.probe_ssh_port ∷ []) in
    if code == 0
    then record {
      name = name;
      ok = is_listening config.probe_ssh_port out;
      detail =
          if is_listening config.probe_ssh_port out
          then "listener found"
          else concat ("no listener on port " ∷ decimal config.probe_ssh_port ∷ []);
    }
    else record {
      name = name;
      ok = false;
      detail = concat ("ss exited " ∷ decimal code ∷ ": " ∷ take_chars 200 err ∷ []);
    }

-- The result of a probe that passes when its command exits with 0.
abbrev exit_result : (name binary : String) → Ran → ProbeResult
exit_result name binary (raised why) = crashed why
exit_result name binary (ended code out err) = record {
  name = name;
  ok = code == 0;
  detail =
      if code == 0
      then "ok"
      else or_text (take_chars 200 err) (concat (binary ∷ " exited " ∷ decimal code ∷ []));
}

unfoldable pub probe_ssh_listener : ProbeConfig → (Argv → Ran) → ProbeResult
probe_ssh_listener config command = ssh_result config (command (config.ss_binary ∷ "-ltn" ∷ []))

unfoldable pub probe_gateway_health : ProbeConfig → (Argv → Ran) → ProbeResult
probe_gateway_health config command =
    exit_result "gateway-health" "curl"
      (command (config.curl_binary ∷ "-fsS" ∷ "-m" ∷ "5" ∷ config.probe_gateway_url ∷ []))

unfoldable pub probe_ping_wan : ProbeConfig → (Argv → Ran) → ProbeResult
probe_ping_wan config command =
    exit_result (concat ("ping-wan:" ∷ config.probe_ping_target ∷ [])) "ping"
      (command (config.ping_binary ∷ "-c1" ∷ "-W2" ∷ config.probe_ping_target ∷ []))

unfoldable pub run_health_probes : ProbeConfig → (Argv → Ran) → List ProbeResult
run_health_probes config command =
    probe_ssh_listener config command
    ∷ probe_gateway_health config command
    ∷ probe_ping_wan config command
    ∷ []

abbrev pub all_ok : List ProbeResult → Bool
all_ok [] = true
all_ok (p ∷ ps) = p.ok && all_ok ps

abbrev first_failure : List ProbeResult → String
first_failure [] = "netplan try errored"
first_failure (p ∷ ps) = if p.ok then first_failure ps else p.detail

-- The answer on netplan's standard input: the outcome so far, and whether the newline was written.
abbrev pub answer : (has_stdin probes_ok newline_error : Bool) → NetplanOutcome × Bool
answer false probes_ok newline_error = (error, false)
answer true false newline_error = (reverted, false)
answer true true false = (accepted, true)
answer true true true = (error, true)

abbrev pub is_zero : ℤ → Bool
is_zero (pos zero) = true
is_zero _ = false

abbrev pub code_of : Finished → ℤ
code_of (exited code stderr) = code
code_of (killed code) = code

abbrev stderr_of : Finished → String
stderr_of (exited code stderr) = stderr
stderr_of (killed code) = "netplan try did not finish; killed"

abbrev pub outcome_after : NetplanOutcome → ℤ → NetplanOutcome
outcome_after accepted code = if is_zero code then accepted else error
outcome_after other code = other

abbrev pub is_accepted : NetplanOutcome → Bool
is_accepted accepted = true
is_accepted _ = false

abbrev change : NetplanOutcome → Finished → ApplyChange
change outcome finished = record {
  interface = "*";
  action = netplan;
  detail = try_exited (code_of finished) outcome (stderr_of finished);
  ok = is_accepted outcome;
}

abbrev backup : ApplyChange
backup = record { interface = "*"; action = netplan; detail = backed_up; ok = true }

-- From the spawned process on.
abbrev pub try_result :
    (path : String)
    → TryHost
    → TryApplyContext
    → List ProbeResult
    → NetplanOutcome
    → Finished
    → ApplyResult
try_result path host ctx probes outcome finished = record {
  success = is_accepted outcome;
  changes = (if host.file_exists then backup ∷ [] else []) ++ change outcome finished ∷ [];
  default_route_interface = ctx.default_iface;
  netplan_file = some path;
  netplan_written = true;
  message =
      if is_accepted outcome then try_accepted else try_not_accepted outcome (first_failure probes);
  try_mode = true;
  probes = probes;
  netplan_outcome = some outcome;
  snapshot_dir = ctx.snapshot_dir;
}

abbrev pub after_spawn : (path : String) → TryHost → TryApplyContext → Applied
after_spawn path host ctx =
    let probes = run_health_probes host.probe_config host.command in
    let (confirm, sent) = answer host.has_stdin (all_ok probes) host.newline_error in
    let finished = host.finish sent in
    record {
      result = try_result path host ctx probes (outcome_after confirm (code_of finished)) finished;
      ran = [];
      confirmed = sent;
    }

-- `write` is `write_netplan` at the configured path.
unfoldable pub apply_try_mode :
    (write : String → Bool) → TryHost → AgentConfig → TryApplyContext → ApplyError ⊎ Applied
apply_try_mode write host config ctx = elim (truthy config.netplan_path) [
  | none ↦ inl persistence_off
  | some path ↦
      if write ctx.rendered
      then elim host.spawn_error [
        | some why ↦ inl (cannot_spawn why)
        | none ↦ inr (after_spawn path host ctx)
      ]
      else inl cannot_write
]
