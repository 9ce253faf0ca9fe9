-- ===== src/Vpn/Config/Lines.antt =====
-- services/vpn-service/viswall_vpn_agent/wg_client.py: the lines of a rendered configuration.
use viswall.Prelude.{
  ℕ, zero, suc, true, ◌≡◌, refl, Option, none, some, List, [], ◌∷◌, ◌++◌, String, str_eq, truthy,
  All, arith, Bool-cases, inl, inr, eq_iff,
}
use viswall.Prelude.Lines.{
  all_chars, all_chars-weaken, is_inline, IsLine, line, ◌⊕◌, decimal-IsLine,
}
use viswall.Vpn.Config.{
  Python, WgClientConfig, is_allowed, is_key, valid_wg_key, valid_local_address, valid_endpoint,
  valid_config, private_key_line, dns_lines, peer_lines, config_lines, with_newlines, render_config,
}

abbrev pub IsLineOrNone : Option String → Type 0
IsLineOrNone none = Unit
IsLineOrNone (some s) = IsLine s

allowed-IsLine : (s : String) → all_chars is_allowed s ≡ true → IsLine s
allowed-IsLine s h = line (all_chars-weaken is_allowed is_inline s (λ c a. ground arith) h)

key-IsLine : (left : ℕ) (s : String) → is_key left s ≡ true → IsLine s
key-IsLine left String.[] h = line refl
key-IsLine zero (String.◌∷◌ c s) h =
    let nothing : s ≡ "" = ground (arith, eq_iff s "") in
    let is_equals : is_inline c ≡ true = ground arith in line (rw (is_equals, nothing) refl)
key-IsLine (suc left) (String.◌∷◌ c s) h =
    let rest = key-IsLine left s (ground arith) in
    let here : is_inline c ≡ true = ground arith in line (rw here rest.chars)

private_key_line-IsLine :
    (o : Option String) → valid_wg_key o ≡ true → IsLine (private_key_line (truthy o))
unfolding valid_wg_key
private_key_line-IsLine none h = line refl
private_key_line-IsLine (some s) h = elim (Bool-cases (str_eq s "")) [
  | inl e ↦ rw e (line refl)
  | inr e ↦ rw e ((line refl) ⊕ key-IsLine 43 s h ⊕ line refl)
]

dns_lines-All : (o : Option String) → IsLineOrNone o → All IsLine (dns_lines (truthy o))
dns_lines-All none h = tt
dns_lines-All (some s) h = elim (Bool-cases (str_eq s "")) [
  | inl e ↦ rw e tt
  | inr e ↦ rw e ((line refl) ⊕ h ⊕ line refl, tt)
]

All-append : (xs ys : List String) → All IsLine xs → All IsLine ys → All IsLine (xs ++ ys)
All-append [] ys a b = b
All-append (x ∷ xs) ys a b = (a.0, All-append xs ys a.1 b)

config_lines-All :
    (py : Python) (model : WgClientConfig)
    → IsLineOrNone model.dns
    → IsLine model.allowed_ips
    → valid_config py model ≡ true
    → All IsLine (config_lines model)
unfolding valid_config valid_local_address valid_endpoint valid_wg_key
config_lines-All py model dns allowed h =
    let address = allowed-IsLine model.address (ground arith) in
    let endpoint = allowed-IsLine model.endpoint (ground arith) in
    let public = key-IsLine 43 model.peer_public_key (ground arith) in
    let private = private_key_line-IsLine model.private_key (ground arith) in
    let peer : All IsLine (peer_lines model) = (
      line refl,
      (
        line refl,
        (
          (line refl) ⊕ public ⊕ line refl,
          (
            (line refl) ⊕ endpoint ⊕ line refl,
            (
              (line refl) ⊕ allowed ⊕ line refl,
              ((line refl) ⊕ decimal-IsLine model.persistent_keepalive ⊕ line refl, tt),
            ),
          ),
        ),
      ),
    ) in
    (
      line refl,
      (
        private,
        (
          (line refl) ⊕ address ⊕ line refl,
          All-append (dns_lines (truthy model.dns)) (peer_lines model) (dns_lines-All model.dns dns)
              peer,
        ),
      ),
    )

-- A configuration that is rendered, and whose dns and allowed addresses have no newline, is the text of its
-- lines, one for each setting, whatever the other values are.
pub render_config-IsLine :
    (py : Python) (model : WgClientConfig) (text : String)
    → IsLineOrNone model.dns
    → IsLine model.allowed_ips
    → render_config py model ≡ some text
    → (text ≡ with_newlines (config_lines model)) × All IsLine (config_lines model)
unfolding render_config
render_config-IsLine py model text dns allowed h = elim (Bool-cases (valid_config py model)) [
  | inl e ↦ (ground arith, config_lines-All py model dns allowed e)
  | inr e ↦ ground arith
]
