-- ===== src/Vpn/Scenarios.antt =====
-- Runs of the tunnel's manager, and its theorems at them.
use Prim.Native.Char.{code}
use viswall.Prelude.{
  true, false, ◌&&◌, ◌||◌, ◌≡◌, refl, none, some, [], ◌∷◌, if◌then◌else◌, str_eq, leb, All,
}
use viswall.Prelude.Lines.{IsLine, line}
use viswall.Vpn.Config.{
  Python, WgClientConfig, valid_config, valid_local_address, valid_endpoint, valid_wg_key,
  valid_allowed_ips, config_lines, with_newlines, render_config,
}
use viswall.Vpn.Config.Lines.{render_config-IsLine}
use viswall.Vpn.Service.{
  enable, start, restart, Manager, Answer, failed, unanswered, copied, apply_error, unit_error,
  timed_out, Host, start_unit, write_config, after_failure, apply,
}
use viswall.Vpn.Service.Applied.{Applied, apply-Applied}

-- A stand-in that knows one blank text: a newline before the next network.
abbrev python : Python
python = record {
  strip = λ s. if str_eq s "\n10.2.0.0/16" then "10.2.0.0/16" else s;
  is_decimal = λ c. leb b'0' (code c) && leb (code c) b'9';
  int_of = λ s. if str_eq s "51820" then some 51820 else none;
  ip_interface = λ s. str_eq s "10.80.0.2/32";
  ip_network = λ s. str_eq s "10.1.0.0/16" || str_eq s "10.2.0.0/16";
}

abbrev model : WgClientConfig
model = record {
  address = "10.80.0.2/32";
  endpoint = "vpn.example.org:51820";
  peer_public_key = "AAAAAAAAAAAAAAAAAAAAAAAAAAAAAAAAAAAAAAAAAAA=";
  allowed_ips = "10.1.0.0/16";
  private_key = none;
  dns = none;
  persistent_keepalive = 25;
}

rendered : render_config python model ≡ some (with_newlines (config_lines model))
unfolding render_config valid_config valid_local_address valid_endpoint valid_wg_key
    valid_allowed_ips
rendered = refl

render_config-IsLine_example :
    (with_newlines (config_lines model) ≡ with_newlines (config_lines model))
    × All IsLine (config_lines model)
render_config-IsLine_example =
    render_config-IsLine python model (with_newlines (config_lines model)) tt (line refl) rendered

-- The name servers are not checked.
abbrev injected : WgClientConfig
injected = record {
  address = "10.80.0.2/32";
  endpoint = "vpn.example.org:51820";
  peer_public_key = "AAAAAAAAAAAAAAAAAAAAAAAAAAAAAAAAAAAAAAAAAAA=";
  allowed_ips = "10.1.0.0/16";
  private_key = none;
  dns = some "1.1.1.1\nPostUp = reboot";
  persistent_keepalive = 25;
}

injected_valid : valid_config python injected ≡ true
unfolding valid_config valid_local_address valid_endpoint valid_wg_key valid_allowed_ips
injected_valid = refl

-- A newline between two networks passes.
two_lines : valid_allowed_ips python "10.1.0.0/16,\n10.2.0.0/16" ≡ true
unfolding valid_allowed_ips
two_lines = refl

-- A host whose unit does not come up, and one whose restart is not answered in time.
abbrev host : Answer → Host
host a = record {
  texts = python;
  answer = λ ran action. a;
  backup_copy = copied;
  restore_copy = copied;
  write_fails = false;
}

abbrev running : Manager
running = record { config = some "old"; backup = none; ran = [] }

back_again : apply (host failed) model running ≡ (
  apply_error,
  record { config = some "old"; backup = some "old"; ran = restart ∷ restart ∷ [] },
)
unfolding apply write_config after_failure render_config valid_config valid_local_address
    valid_endpoint valid_wg_key valid_allowed_ips
back_again = refl

not_back : apply (host unanswered) model running ≡ (
  timed_out,
  record {
    config = some (with_newlines (config_lines model));
    backup = some "old";
    ran = restart ∷ [];
  },
)
unfolding apply write_config after_failure render_config valid_config valid_local_address
    valid_endpoint valid_wg_key valid_allowed_ips
not_back = refl

apply-Applied_example :
    Applied (host unanswered) model "old" running (apply (host unanswered) model running)
apply-Applied_example = apply-Applied (host unanswered) model "old" running refl

-- The start of a unit that cannot be enabled goes on.
start_failed :
    start_unit (host failed) running
    ≡ (unit_error start, record { config = some "old"; backup = none; ran = enable ∷ start ∷ [] })
unfolding start_unit
start_failed = refl
