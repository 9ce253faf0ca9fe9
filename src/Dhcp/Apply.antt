-- ===== src/Dhcp/Apply.antt =====
-- services/dhcp-service/dhcp_agent.py: `DHCPAgent.apply_config`, on the two files of Kea and the commands that ran.
pub mod Ran
pub mod Applied
use viswall.Prelude.{
  ℕ, Bool, true, false, not, ◌==◌, ◌≡◌, refl, sym, ap, ◌∙◌, Option, none, some, List, [], ◌∷◌, ◌++◌,
  String, if◌then◌else◌, select, Bool-cases, Option-cases, inl, inr, arith,
}
use mathlib.Core.List.{append_assoc, append-nil}
use viswall.Prelude.Json.{Value}
use viswall.Prelude.Texts.{concat}
use viswall.Dhcp.Payloads.{ServerConfig, Network, is_empty}
use viswall.Dhcp.Render.{render_dhcp4_config, render_dhcp6_config}

abbrev pub Argv : Type 0
Argv = List String

-- `_run` of a command that is skipped, or that ran and left an exit code.
pub data CommandResult : Type 0 where
  skipped : Argv → CommandResult
  ran : Argv → (returncode : ℕ) → CommandResult

-- The host: the content of the two configuration files, and the commands that were started.
pub record Host : Type 0 where
  pub dhcp4 : Option String
  pub dhcp6 : Option String
  pub ran : List Argv

-- How an operation ends: it returns, or it raises.
pub data Exit {ℓ} (A : Type ℓ) : Type ℓ where
  value : A → Exit A
  value_error : Exit A
  os_error : Exit A
  http_error : (failed : List CommandResult) → Exit A

-- The paths and `ALLOW_COMMANDS`; `json.dumps` and `ipaddress`; and what a command exits with, after those that
-- ran before it, where `none` is a command that cannot be started, and a signal is some number other than 0. The
-- files can be written.
pub record Agent : Type 0 where
  pub dhcp4_conf : String
  pub dhcp6_conf : String
  pub leases4 : String
  pub leases6 : String
  pub allow_commands : Bool
  pub dumps : Value → String
  pub ip_network : String → Option Network
  pub exit_of : List Argv → Argv → Option ℕ

abbrev M : Type 0 → Type 0
M A = Host → Exit A × Host

abbrev after {ℓ κ} :
    {A : Type ℓ} {B : Type κ} → Exit A × Host → (A → Host → Exit B × Host) → Exit B × Host
after (value a, h) f = f a h
after (value_error, h) f = (value_error, h)
after (os_error, h) f = (os_error, h)
after (http_error failed, h) f = (http_error failed, h)

infixl 5 ◌>>=◌
abbrev ◌>>=◌ : {A B : Type 0} → M A → (A → M B) → M B
◌>>=◌ m f h = after (m h) f

abbrev pub has_failed : CommandResult → Bool
has_failed (skipped args) = false
has_failed (ran args code) = not (code == 0)

module _ (agent : Agent) where
  abbrev started : Argv → Option ℕ → M CommandResult
  started args none h = (os_error, h)
  started args (some code) h = (value (ran args code), record h { ran = h.ran ++ args ∷ [] })

  -- `_run`
  unfoldable pub run : Argv → M CommandResult
  run args h =
      if agent.allow_commands
      then started args (agent.exit_of h.ran args) h
      else (value (skipped args), h)

  unfoldable pub run_all : List Argv → M (List CommandResult)
  run_all [] h = (value [], h)
  run_all (args ∷ rest) h =
      after (run args h) λ r h1. after (run_all rest h1) λ rs h2. (value (r ∷ rs), h2)

  -- `_json_dump`
  abbrev json_text : Value → String
  json_text v = concat (agent.dumps v ∷ "\n" ∷ [])

  abbrev pub text4 : ServerConfig → String
  text4 c = json_text (render_dhcp4_config agent.leases4 c)

  abbrev pub test4 : Argv
  test4 = "kea-dhcp4" ∷ "-t" ∷ "-c" ∷ agent.dhcp4_conf ∷ []

  abbrev pub test6 : Argv
  test6 = "kea-dhcp6" ∷ "-t" ∷ "-c" ∷ agent.dhcp6_conf ∷ []

  abbrev pub restart : String → Argv
  restart unit = "service" ∷ unit ∷ "restart" ∷ []

  abbrev when : Bool → Argv → List Argv
  when true args = args ∷ []
  when false args = []

  abbrev test_dhcp4 : ServerConfig → Bool → M (List CommandResult)
  test_dhcp4 c true h = run_all (test4 ∷ []) (record h { dhcp4 = some (text4 c) })
  test_dhcp4 c false h = (value [], h)

  abbrev written6 : Option Value → M (List CommandResult)
  written6 none h = (value_error, h)
  written6 (some v) h = run_all (test6 ∷ []) (record h { dhcp6 = some (json_text v) })

  abbrev test_dhcp6 : ServerConfig → Bool → M (List CommandResult)
  test_dhcp6 c true h = written6 (render_dhcp6_config agent.ip_network agent.leases6 c) h
  test_dhcp6 c false h = (value [], h)

  abbrev pub restarts : ServerConfig → List Argv
  restarts c =
      when c.dhcpv4_enabled (restart "kea-dhcp4-server")
      ++ (when c.dhcpv6_enabled (restart "kea-dhcp6-server") ++ restart "kea-ctrl-agent" ∷ [])

  abbrev restart_all : ServerConfig → M (List CommandResult)
  restart_all c h = if agent.allow_commands then run_all (restarts c) h else (value [], h)

  abbrev raise_any : (failed results : List CommandResult) → M (List CommandResult)
  raise_any [] results h = (value results, h)
  raise_any (r ∷ failed) results h = (http_error (r ∷ failed), h)

  abbrev checked : List CommandResult → M (List CommandResult)
  checked results = raise_any (select has_failed results) results

  -- `apply_config`: the command results, or what it raises.
  unfoldable pub apply_config : ServerConfig → M (List CommandResult)
  apply_config c = test_dhcp4 c c.dhcpv4_enabled >>= λ r4.
      test_dhcp6 c c.dhcpv6_enabled >>= λ r6. restart_all c >>= λ rs. checked (r4 ++ r6 ++ rs)
