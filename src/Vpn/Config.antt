-- ===== src/Vpn/Config.antt =====
-- services/vpn-service/viswall_vpn_agent/wg_client.py: the validators of the tunnel's configuration and
-- `render_config`. What Python's library does to texts and addresses is the record `Python`.
pub mod Lines
use Prim.Native.Char.{Char, code}
use Prim.Native.String
use viswall.Prelude.{
  ℕ, Bool, true, false, not, ◌&&◌, ◌||◌, Option, none, some, List, [], ◌∷◌, ◌++◌, map, String,
  if◌then◌else◌, str_eq, ◌==◌, leb, truthy,
}
use viswall.Prelude.Texts.{concat, decimal, split}
use viswall.Prelude.Chars.{between, is_letter, is_digit}
use viswall.Prelude.Lines.{all_chars}

-- `strip`, the class \d of `re`, `int(text)` where it is a natural number, and whether `ip_interface(text)` and
-- `ip_network(text, strict=False)` take a text.
pub record Python : Type 0 where
  pub strip : String → String
  pub is_decimal : Char → Bool
  pub int_of : String → Option ℕ
  pub ip_interface : String → Bool
  pub ip_network : String → Bool

pub record WgClientConfig : Type 0 where
  pub address : String
  pub endpoint : String
  pub peer_public_key : String
  pub allowed_ips : String
  pub private_key : Option String
  pub dns : Option String
  pub persistent_keepalive : ℕ

-- _FORBIDDEN_CONFIG_CHARS
abbrev pub is_allowed : Char → Bool
is_allowed c = not (code c == 10) && not (code c == 13) && not (code c == b'=')

abbrev pub is_base64 : Char → Bool
is_base64 c = is_letter c || is_digit c || code c == b'+' || code c == b'/'

-- `_WG_KEY_RE`: `left` base64 characters, and an equals sign.
abbrev pub is_key : (left : ℕ) → String → Bool
is_key left String.[] = false
is_key ℕ.zero (String.◌∷◌ c s) = code c == b'=' && str_eq s ""
is_key (ℕ.suc left) (String.◌∷◌ c s) = is_base64 c && is_key left s

unfoldable pub valid_wg_key : Option String → Bool
valid_wg_key none = true
valid_wg_key (some s) = is_key 43 s

abbrev is_hex : Char → Bool
is_hex c =
    is_digit c || between b'a' b'f' c || between b'A' b'F' c || code c == b':' || code c == b'.'

abbrev is_host : Char → Bool
is_host c = is_letter c || is_digit c || code c == b'.' || code c == b'-'

-- What follows the characters of a class, and what precedes it.
abbrev rest_of : (Char → Bool) → String → String
rest_of is_in String.[] = ""
rest_of is_in (String.◌∷◌ c s) = if is_in c then rest_of is_in s else String.◌∷◌ c s

abbrev starts_in : (Char → Bool) → String → Bool
starts_in is_in String.[] = false
starts_in is_in (String.◌∷◌ c s) = is_in c

module _ (py : Python) where
  -- `validate_local_address`
  unfoldable pub valid_local_address : String → Bool
  valid_local_address s = all_chars is_allowed s && py.ip_interface s

  -- The tokens that are not empty, stripped.
  abbrev pub tokens : List String → List String
  tokens [] = []
  tokens (s ∷ parts) =
      let rest = tokens parts in if str_eq (py.strip s) "" then rest else py.strip s ∷ rest

  abbrev pub all_networks : List String → Bool
  all_networks [] = true
  all_networks (s ∷ parts) = all_chars is_allowed s && py.ip_network s && all_networks parts

  abbrev pub some_networks : List String → Bool
  some_networks [] = false
  some_networks (s ∷ parts) = all_networks (s ∷ parts)

  -- `validate_allowed_ips`
  unfoldable pub valid_allowed_ips : String → Bool
  valid_allowed_ips s = some_networks (tokens (split b',' s))

  abbrev in_range : Option ℕ → Bool
  in_range none = false
  in_range (some n) = leb 1 n && leb n 65535

  abbrev valid_port : String → Bool
  valid_port s = in_range (py.int_of s)

  -- After a bracket the port is \d+.
  abbrev decimal_port : String → Bool
  decimal_port s = not (str_eq s "") && all_chars py.is_decimal s && valid_port s

  -- After the bracket that closes an IPv6 address.
  abbrev after_bracket : String → Bool
  after_bracket String.[] = true
  after_bracket (String.◌∷◌ c s) = code c == b':' && decimal_port s

  abbrev closed : String → Bool
  closed String.[] = false
  closed (String.◌∷◌ c s) = code c == b']' && after_bracket s

  abbrev valid_host : String → Bool
  valid_host s = not (str_eq s "") && all_chars is_host s

  abbrev valid_parts : List String → Bool
  valid_parts [] = false
  valid_parts (host ∷ []) = valid_host host
  valid_parts (host ∷ port ∷ []) = valid_host host && valid_port port
  valid_parts (host ∷ port ∷ other ∷ parts) = false

  abbrev pub bracketed : String → Bool
  bracketed String.[] = valid_parts (split b':' "")
  bracketed (String.◌∷◌ c s) =
      if code c == b'['
      then starts_in is_hex s && closed (rest_of is_hex s)
      else valid_parts (split b':' (String.◌∷◌ c s))

  -- `validate_endpoint`
  unfoldable pub valid_endpoint : String → Bool
  valid_endpoint s = all_chars is_allowed s && bracketed s

  -- `validate_config`
  unfoldable pub valid_config : WgClientConfig → Bool
  valid_config model =
      valid_local_address model.address
      && valid_endpoint model.endpoint
      && valid_wg_key (some model.peer_public_key)
      && valid_wg_key model.private_key
      && valid_allowed_ips model.allowed_ips
      && leb model.persistent_keepalive 65535

abbrev private_key_line : Option String → String
private_key_line none = "#PrivateKey = (not provided - supply on next apply)"
private_key_line (some s) = concat ("PrivateKey = " ∷ s ∷ [])

abbrev dns_lines : Option String → List String
dns_lines none = []
dns_lines (some s) = concat ("DNS = " ∷ s ∷ "  # Optional: Set DNS servers" ∷ []) ∷ []

abbrev peer_lines : WgClientConfig → List String
peer_lines model =
    ""
    ∷ "[Peer]"
    ∷ concat ("PublicKey = " ∷ model.peer_public_key ∷ [])
    ∷ concat ("Endpoint = " ∷ model.endpoint ∷ [])
    ∷ concat (
        "AllowedIPs = " ∷ model.allowed_ips
        ∷ "  # Route all traffic through VPN (or use 10.0.0.0/24 for VPN-only)" ∷ [])
    ∷ concat ("PersistentKeepalive = " ∷ decimal model.persistent_keepalive ∷ [])
    ∷ []

abbrev pub config_lines : WgClientConfig → List String
config_lines model =
    "[Interface]"
    ∷ private_key_line (truthy model.private_key)
    ∷ concat ("Address = " ∷ model.address ∷ "  # Must match AllowedIPs on the server" ∷ [])
    ∷ (dns_lines (truthy model.dns) ++ peer_lines model)

-- `"\n".join(lines) + "\n"`
abbrev pub with_newlines : List String → String
with_newlines [] = ""
with_newlines (l ∷ lines) = concat (l ∷ "\n" ∷ with_newlines lines ∷ [])

-- `render_config`; `none` is a `WgConfigValidationError`.
unfoldable pub render_config : Python → WgClientConfig → Option String
render_config py model =
    if valid_config py model then some (with_newlines (config_lines model)) else none
