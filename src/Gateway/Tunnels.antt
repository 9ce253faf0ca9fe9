-- ===== src/Gateway/Tunnels.antt =====
-- shared/schemas.py: what VPNServerCreate and VPNServerUpdate let into the columns of a tunnel; and api.py of the
-- VPN agent: VpnApplyRequest and `vpn_apply`, up to the call of the manager.
pub mod Arrives
use viswall.Prelude.{
  ℕ, Bool, true, false, not, ◌&&◌, Option, none, some, List, [], ◌∷◌, String, if◌then◌else◌, str_eq,
  leb, ◌>>=◌,
}
use viswall.Prelude.Json.{ℤ, pos, negsuc}
use viswall.Prelude.Dict.{get}
use viswall.Prelude.Lines.{all_chars}
use viswall.Prelude.Texts.{split}
use viswall.Firewall.Routing.{Scalar, null, flag, int, word, Entry}
use viswall.Vpn.Config.{
  Python, WgClientConfig, is_allowed, is_key, tokens, some_networks, bracketed, valid_local_address,
  valid_endpoint, valid_allowed_ips, valid_wg_key,
}
use viswall.Gateway.Dispatch.{VpnServer}

-- Whether the validators of shared/schemas.py let a value pass, which may be left out. The patterns of a key and of
-- an endpoint are those of the agent, in the same words.
unfoldable pub validate_wg_key : Option String → Bool
validate_wg_key none = true
validate_wg_key (some s) = is_key 43 s

-- `Field(ge=0, le=65535)`
abbrev pub valid_keepalive : Option ℤ → Bool
valid_keepalive none = true
valid_keepalive (some (pos n)) = leb n 65535
valid_keepalive (some (negsuc n)) = false

-- The agent: a text that must be given, one that may be left out, and the keepalive with its default. Values of
-- other types, of which Pydantic converts some, are not sent.
abbrev pub required : Option Scalar → Option String
required (some (word s)) = some s
required _ = none

abbrev pub optional : Option Scalar → Option (Option String)
optional none = some none
optional (some null) = some none
optional (some (word s)) = some (some s)
optional _ = none

abbrev pub seconds : Option Scalar → Option ℕ
seconds none = some 25
seconds (some (int (pos n))) = if leb n 65535 then some n else none
seconds _ = none

-- The answers 422 and 400, or a model for the manager.
pub data Reply : Type 0 where
  refused unsupported : Reply
  applying : WgClientConfig → Reply

abbrev pub reply : Option (String × WgClientConfig) → Reply
reply none = refused
reply (some (protocol, m)) = if str_eq protocol "wireguard" then applying m else unsupported

module _ (py : Python) where
  unfoldable pub validate_wg_cidr_list : Option String → Bool
  validate_wg_cidr_list none = true
  validate_wg_cidr_list (some s) = some_networks py (tokens py (split b',' s))

  unfoldable pub validate_wg_local_address : Option String → Bool
  validate_wg_local_address none = true
  validate_wg_local_address (some s) = all_chars is_allowed s && py.ip_interface s

  -- The text is parsed without the white space at its ends, and let through with it.
  unfoldable pub validate_wg_endpoint : Option String → Bool
  validate_wg_endpoint none = true
  validate_wg_endpoint (some s) =
      all_chars is_allowed s && not (str_eq (py.strip s) "") && bracketed py (py.strip s)

  -- Whether VPNServerCreate takes the tunnel's columns.
  unfoldable pub accepts : VpnServer → Bool
  accepts s =
      validate_wg_cidr_list s.allowed_ips
      && validate_wg_local_address s.local_address
      && validate_wg_endpoint s.endpoint
      && validate_wg_key s.peer_public_key
      && validate_wg_key s.private_key
      && valid_keepalive s.persistent_keepalive

  abbrev pub validated : WgClientConfig → Option WgClientConfig
  validated m =
      if valid_local_address py m.address
        && valid_endpoint py m.endpoint
        && valid_allowed_ips py m.allowed_ips
        && valid_wg_key (some m.peer_public_key)
        && valid_wg_key m.private_key
      then some m
      else none

  -- `VpnApplyRequest`, as the protocol and the manager's model; `none` is the answer 422.
  unfoldable pub vpn_apply_request : Entry → Option (String × WgClientConfig)
  vpn_apply_request e = do
    protocol ← required (get e "protocol")
    name ← required (get e "name")
    address ← required (get e "address")
    endpoint ← required (get e "endpoint")
    peer_public_key ← required (get e "peer_public_key")
    allowed_ips ← required (get e "allowed_ips")
    private_key ← optional (get e "private_key")
    persistent_keepalive ← seconds (get e "persistent_keepalive")
    m ← validated (record {
      address = address;
      endpoint = endpoint;
      peer_public_key = peer_public_key;
      allowed_ips = allowed_ips;
      private_key = private_key;
      dns = none;
      persistent_keepalive = persistent_keepalive;
    })
    some (protocol, m)

  -- `vpn_apply`
  unfoldable pub vpn_apply : Entry → Reply
  vpn_apply e = reply (vpn_apply_request e)
