-- ===== src/Node/Apply/Scenarios.antt =====
-- Runs of the try mode, and its theorems at them.
use viswall.Prelude.{
  ℕ, true, false, ◌≡◌, ◌↔◌, refl, none, some, List, [], ◌∷◌, String, if◌then◌else◌, str_eq, inr,
}
use viswall.Prelude.Json.{pos}
use viswall.Node.Apply.{AgentConfig, Applied, TryApplyContext}
use viswall.Node.Apply.Try.{
  TryHost, Ran, ended, exited, apply_try_mode, run_health_probes, probe_ssh_listener,
  probe_gateway_health, probe_ping_wan, after_spawn,
}
use viswall.Node.Apply.Try.Confirm.{
  AllPass, IsAcceptable, confirmed-apply_try_mode, apply_try_mode-succeeds,
}

abbrev pub agent : AgentConfig
agent = record { netplan_path = some "/etc/netplan/90-viswall.yaml"; wan_ip = "46.4.63.216/32" }

abbrev probe_command : (ping : ℕ) → List String → Ran
probe_command ping argv = elim argv [
  | [] ↦ ended 1 "" "no command"
  | binary ∷ args ↦
      if str_eq binary "ss"
      then ended 0 "LISTEN 0 128 0.0.0.0:22 0.0.0.0:*" ""
      else if str_eq binary "ping"
      then ended ping "" ""
      else ended 0 "" ""
]

abbrev pub trying : (ping : ℕ) → TryHost
trying ping = record {
  probe_config = record {
    ss_binary = "ss";
    curl_binary = "curl";
    ping_binary = "ping";
    probe_ssh_port = 22;
    probe_gateway_url = "http://localhost/health";
    probe_ping_target = "1.1.1.1";
  };
  command = probe_command ping;
  file_exists = true;
  spawn_error = none;
  has_stdin = true;
  newline_error = false;
  finish = λ sent. exited (pos 0) "";
}

abbrev try_context : TryApplyContext
try_context = record { rendered = "network:"; snapshot_dir = none; default_iface = some "eth0" }

abbrev tried : (ping : ℕ) → Applied
tried ping = after_spawn "/etc/netplan/90-viswall.yaml" (trying ping) try_context

try_ok : apply_try_mode (λ content. true) (trying 0) agent try_context ≡ inr (tried 0)
unfolding apply_try_mode
try_ok = refl

try_ok_confirmed : (tried 0).confirmed ≡ true
unfolding run_health_probes probe_ssh_listener probe_gateway_health probe_ping_wan
try_ok_confirmed = refl

-- Without an answer to the ping the newline is not written.
try_without_ping : (tried 1).confirmed ≡ false
unfolding run_health_probes probe_ssh_listener probe_gateway_health probe_ping_wan
try_without_ping = refl

confirmed-apply_try_mode_example :
    AllPass (run_health_probes (trying 0).probe_config (trying 0).command)
confirmed-apply_try_mode_example =
    confirmed-apply_try_mode (λ content. true) (trying 0) agent try_context (tried 0) try_ok
      try_ok_confirmed

apply_try_mode-succeeds_example : ((tried 0).result.success ≡ true) ↔ IsAcceptable (trying 0)
apply_try_mode-succeeds_example =
    apply_try_mode-succeeds (λ content. true) (trying 0) agent try_context (tried 0) try_ok
