-- ===== src/Gateway/Tunnels/Arrives.antt =====
-- shared/schemas.py and utils/firewall_dispatch.py against api.py of the VPN agent: a tunnel that the gateway
-- accepts, as the agent takes it.
use viswall.Prelude.{
  ℕ, true, false, ◌≡◌, refl, sym, subst, ap, ◌∙◌, Option, none, some, List, [], ◌∷◌, String, eq_iff,
  leb, ◌>>=◌, arith,
}
use viswall.Prelude.Json.{ℤ, pos, negsuc}
use viswall.Prelude.Dict.{get}
use viswall.Prelude.Lines.{all_chars}
use viswall.Firewall.Routing.{Scalar, null, flag, int, word, Entry}
use viswall.Vpn.Config.{
  Python, WgClientConfig, is_allowed, valid_local_address, valid_endpoint, valid_allowed_ips,
  valid_wg_key, valid_config, bracketed, render_config, config_lines, with_newlines,
}
use viswall.Gateway.Dispatch.{
  VpnServer, text, number, drop_none, has_key, keys_differ, tunnel_fields, is_tunnel, vpn_payload,
}
use viswall.Gateway.Tunnels.{
  validate_wg_key, validate_wg_cidr_list, validate_wg_local_address, validate_wg_endpoint,
  valid_keepalive, accepts, required, optional, seconds, Reply, refused, applying, reply, validated,
  vpn_apply_request, vpn_apply,
}

-- A null is as a key that is missing.
abbrev present : Option Scalar → Option Scalar
present none = none
present (some null) = none
present (some v) = some v

get-absent :
    (fields : Entry) (key : String) → has_key key fields ≡ false → get (drop_none fields) key ≡ none
unfolding get drop_none
get-absent [] key h = refl
get-absent ((k, v) ∷ fields) key h = ground (arith, get-absent fields key)

get-drop_none :
    (fields : Entry) (key : String)
    → keys_differ fields ≡ true
    → get (drop_none fields) key ≡ present (get fields key)
unfolding get drop_none
get-drop_none [] key h = refl
get-drop_none ((k, null) ∷ fields) key h =
    ground (arith, get-drop_none fields key, get-absent fields key, eq_iff k key)
get-drop_none ((k, flag b) ∷ fields) key h = ground (arith, get-drop_none fields key)
get-drop_none ((k, int n) ∷ fields) key h = ground (arith, get-drop_none fields key)
get-drop_none ((k, word s) ∷ fields) key h = ground (arith, get-drop_none fields key)

required-text : (o : Option String) → required (present (some (text o))) ≡ o
required-text none = refl
required-text (some s) = refl

optional-text : (o : Option String) → optional (present (some (text o))) ≡ some o
optional-text none = refl
optional-text (some s) = refl

-- The keepalive that a column stands for.
abbrev pub keepalive : Option ℤ → ℕ
keepalive none = 25
keepalive (some (pos n)) = n
keepalive (some (negsuc n)) = 0

seconds-number :
    (o : Option ℤ)
    → valid_keepalive o ≡ true
    → (seconds (present (some (number o))) ≡ some (keepalive o)) × (leb (keepalive o) 65535 ≡ true)
seconds-number none h = (refl, refl)
seconds-number (some (pos n)) h = (rw h refl, h)
seconds-number (some (negsuc n)) h = cc

-- The manager's model of a tunnel's columns, if none of the four that are required is NULL.
abbrev pub model_of :
    (address endpoint peer allowed key : Option String) → ℕ → Option WgClientConfig
model_of (some address) (some endpoint) (some peer) (some allowed) key seconds = some (record {
  address = address;
  endpoint = endpoint;
  peer_public_key = peer;
  allowed_ips = allowed;
  private_key = key;
  dns = none;
  persistent_keepalive = seconds;
})
model_of _ _ _ _ key seconds = none

abbrev pub row_model : VpnServer → Option WgClientConfig
row_model s =
    model_of s.local_address s.endpoint s.peer_public_key s.allowed_ips s.private_key
      (keepalive s.persistent_keepalive)

abbrev pub IsUnpadded : Python → Option String → Type 0
IsUnpadded py none = Unit
IsUnpadded py (some s) = py.strip s ≡ s

-- What the agent answers for a tunnel with or without a model, and that the manager renders the model.
abbrev pub Arrives : Python → Option WgClientConfig → Reply → Type 0
Arrives py none r = r ≡ refused
Arrives py (some m) r =
    (r ≡ applying m) × (render_config py m ≡ some (with_newlines (config_lines m)))

module _ (py : Python) where
  endpoint_lem :
      (s : String)
      → py.strip s ≡ s
      → validate_wg_endpoint py (some s) ≡ true
      → valid_endpoint py s ≡ true
  unfolding validate_wg_endpoint valid_endpoint
  endpoint_lem s same h =
      let parsed : bracketed py (py.strip s) ≡ true = ground arith in
      let safe : all_chars is_allowed s ≡ true = ground arith in rw safe (rw same at parsed)

  local_lem :
      (s : String) → validate_wg_local_address py (some s) ≡ true → valid_local_address py s ≡ true
  unfolding validate_wg_local_address valid_local_address
  local_lem s h = h

  allowed_lem :
      (s : String) → validate_wg_cidr_list py (some s) ≡ true → valid_allowed_ips py s ≡ true
  unfolding validate_wg_cidr_list valid_allowed_ips
  allowed_lem s h = h

  key_lem : (o : Option String) → validate_wg_key o ≡ true → valid_wg_key o ≡ true
  unfolding validate_wg_key valid_wg_key
  key_lem none h = h
  key_lem (some s) h = h

  -- The request, from the values that it reads.
  abbrev from_columns :
      (protocol : String) (address endpoint peer allowed key : Option String)
      → ℕ
      → Option (String × WgClientConfig)
  from_columns protocol address endpoint peer allowed key sec = do
    address ← address
    endpoint ← endpoint
    peer ← peer
    allowed ← allowed
    m ← validated py (record {
      address = address;
      endpoint = endpoint;
      peer_public_key = peer;
      allowed_ips = allowed;
      private_key = key;
      dns = none;
      persistent_keepalive = sec;
    })
    some (protocol, m)

  from_columns-Arrives :
      (address endpoint peer allowed key : Option String) (sec : ℕ)
      → IsUnpadded py endpoint
      → validate_wg_cidr_list py allowed ≡ true
      → validate_wg_local_address py address ≡ true
      → validate_wg_endpoint py endpoint ≡ true
      → validate_wg_key peer ≡ true
      → validate_wg_key key ≡ true
      → leb sec 65535 ≡ true
      → Arrives py
          (model_of address endpoint peer allowed key sec)
          (reply (from_columns "wireguard" address endpoint peer allowed key sec))
  from_columns-Arrives none endpoint peer allowed key sec u al ad e p k n = refl
  from_columns-Arrives (some a) none peer allowed key sec u al ad e p k n = refl
  from_columns-Arrives (some a) (some b) none allowed key sec u al ad e p k n = refl
  from_columns-Arrives (some a) (some b) (some c) none key sec u al ad e p k n = refl
  from_columns-Arrives (some a) (some b) (some c) (some d) key sec u al ad e p k n =
      let address : valid_local_address py a ≡ true = local_lem a ad in
      let endpoint = endpoint_lem b u e in
      let allowed : valid_allowed_ips py d ≡ true = allowed_lem d al in
      let peer : valid_wg_key (some c) ≡ true = key_lem (some c) p in
      let own : valid_wg_key key ≡ true = key_lem key k in
      (
        rw (address, endpoint, allowed, peer, own) refl,
        unfold render_config valid_config in rw (address, endpoint, peer, own, allowed, n) refl,
      )

  vpn_apply_request-tunnel :
      (s : VpnServer)
      → valid_keepalive s.persistent_keepalive ≡ true
      → vpn_apply_request py (drop_none (tunnel_fields s))
        ≡ from_columns s.protocol s.local_address s.endpoint s.peer_public_key s.allowed_ips
            s.private_key
            (keepalive s.persistent_keepalive)
  unfolding vpn_apply_request get
  vpn_apply_request-tunnel s valid =
      let fields = tunnel_fields s in
      rw
        (
          get-drop_none fields "protocol" refl,
          get-drop_none fields "name" refl,
          get-drop_none fields "address" refl,
          get-drop_none fields "endpoint" refl,
          get-drop_none fields "peer_public_key" refl,
          get-drop_none fields "allowed_ips" refl,
          get-drop_none fields "private_key" refl,
          get-drop_none fields "persistent_keepalive" refl,
          required-text s.local_address,
          required-text s.endpoint,
          required-text s.peer_public_key,
          required-text s.allowed_ips,
          optional-text s.private_key,
          (seconds-number s.persistent_keepalive valid).0,
        )
        refl

accepts_parts :
    (py : Python) (s : VpnServer)
    → accepts py s ≡ true
    → (validate_wg_cidr_list py s.allowed_ips ≡ true)
      × (validate_wg_local_address py s.local_address ≡ true)
      × (validate_wg_endpoint py s.endpoint ≡ true)
      × (validate_wg_key s.peer_public_key ≡ true)
      × (validate_wg_key s.private_key ≡ true)
      × (valid_keepalive s.persistent_keepalive ≡ true)
unfolding accepts
accepts_parts py s h =
    (ground arith, ground arith, ground arith, ground arith, ground arith, ground arith)

sent_lem :
    (s : VpnServer) (servers : List VpnServer)
    → is_tunnel s.tunnel_type ≡ true
    → vpn_payload (s ∷ servers) ≡ drop_none (tunnel_fields s)
unfolding vpn_payload
sent_lem s servers h = rw h refl

-- A WireGuard tunnel that the gateway's schema accepts, and whose endpoint has no white space at its ends, is what
-- the gateway sends where it is the first server of the instance; the agent takes it as the model of its columns, with
-- a keepalive of 25 where that is NULL, and the manager renders the model. It is refused exactly if one of
-- the address, endpoint, peer key and allowed addresses is NULL.
pub vpn_payload-Arrives :
    (py : Python) (s : VpnServer) (servers : List VpnServer)
    → is_tunnel s.tunnel_type ≡ true
    → s.protocol ≡ "wireguard"
    → accepts py s ≡ true
    → IsUnpadded py s.endpoint
    → Arrives py (row_model s) (vpn_apply py (vpn_payload (s ∷ servers)))
unfolding vpn_apply
vpn_payload-Arrives py s servers tunnel protocol accepted unpadded =
    let (al, ad, e, p, k, n) = accepts_parts py s accepted in
    let sent : vpn_payload (s ∷ servers) ≡ drop_none (tunnel_fields s) =
      sent_lem s servers tunnel in
    let request : vpn_apply_request py (vpn_payload (s ∷ servers))
        ≡ from_columns py "wireguard" s.local_address s.endpoint s.peer_public_key s.allowed_ips
            s.private_key (keepalive s.persistent_keepalive) =
      ap (vpn_apply_request py) sent
      ∙ (vpn_apply_request-tunnel py s n
          ∙ ap
              (λ (name : String).
                from_columns py name s.local_address s.endpoint s.peer_public_key s.allowed_ips
                  s.private_key (keepalive s.persistent_keepalive))
              protocol) in
    subst (λ r. Arrives py (row_model s) (reply r)) (sym request)
      (from_columns-Arrives py s.local_address s.endpoint s.peer_public_key s.allowed_ips
        s.private_key (keepalive s.persistent_keepalive) unpadded al ad e p k
        (seconds-number s.persistent_keepalive n).1)
