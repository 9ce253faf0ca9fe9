-- ===== src/Firewall/Nft/Convert/Targets.antt =====
-- services/firewall-service/viswall_firewall_agent/nft.py: the NAT targets that `_normalize_to_addr` lets
-- through.
use viswall.Prelude.{
  true, ◌≡◌, refl, sym, subst, ◌∙◌, Option, none, some, [], ◌∷◌, String, str_eq, ◌≤◌, ◌>>=◌, arith,
  Bool-cases, inl, inr, bind_found,
}
use viswall.Prelude.Texts.{concat}
use viswall.Firewall.Nft.Rules.{
  Python, after, leading, has_char, before_last_colon, after_last_colon,
}
use viswall.Firewall.Nft.Convert.{
  port_text, is_hex, v6_target, bracketed, with_port, is_broken, opened, normalize_to_addr,
}

-- A port as text: decimal digits, with a number from 1 to 65535.
abbrev pub IsPort : Python → String → Type 0
IsPort py s =
    (str_eq (leading py.is_decimal s) s ≡ true) × (1 ≤ py.int_of s) × (py.int_of s ≤ 65535)

-- What a target can be: an address as the library writes it, in brackets for IPv6, and a port or none.
pub data IsTarget (py : Python) : String → Type 0 where
  v4 : (s address : String) → py.ipv4 s ≡ some address → IsTarget py address
  v4_port :
      (s address port : String)
      → py.ipv4 s ≡ some address
      → IsPort py port
      → IsTarget py (concat (address ∷ ":" ∷ port ∷ []))
  v6 :
      (s address : String)
      → py.ipv6 s ≡ some address
      → IsTarget py (concat ("[" ∷ address ∷ "]" ∷ []))
  v6_port :
      (s address port : String)
      → py.ipv6 s ≡ some address
      → IsPort py port
      → IsTarget py (concat ("[" ∷ address ∷ "]:" ∷ port ∷ []))

module _ (py : Python) where
  port_text-IsPort : (s port : String) → port_text py s ≡ some port → IsPort py port
  port_text-IsPort s port h = ground arith

  v6_target-IsTarget :
      (s address rest target : String)
      → py.ipv6 s ≡ some address
      → v6_target py address rest ≡ some target
      → IsTarget py target
  v6_target-IsTarget s address rest target a h = elim (Bool-cases (str_eq rest "")) [
    | inl e ↦
        let whole : concat ("[" ∷ address ∷ "]" ∷ []) ≡ target = ground arith in
        subst (IsTarget py) whole (v6 s address a)
    | inr e ↦
        let step : v6_target py address rest ≡ (
            after ":" rest >>= λ text.
            port_text py text >>= λ port. some (concat ("[" ∷ address ∷ "]:" ∷ port ∷ []))) =
          rw e refl in
        let (text, e1, h1) = bind_found (after ":" rest) _ (sym step ∙ h) in
        let (port, e2, h2) = bind_found (port_text py text) _ h1 in
        let whole : concat ("[" ∷ address ∷ "]:" ∷ port ∷ []) ≡ target = cc in
        subst (IsTarget py) whole (v6_port s address port a (port_text-IsPort text port e2))
  ]

  with_port-IsTarget : (s target : String) → with_port py s ≡ some target → IsTarget py target
  with_port-IsTarget s target h =
      let (port, e1, h1) = bind_found (port_text py (after_last_colon s)) _ h in
      let (address, e2, h2) = bind_found (py.ipv4 (before_last_colon s)) _ h1 in
      let whole : concat (address ∷ ":" ∷ port ∷ []) ≡ target = cc in
      subst (IsTarget py) whole (
        v4_port (before_last_colon s) address port e2
          (port_text-IsPort (after_last_colon s) port e1))

  bracketed-IsTarget : (s target : String) → bracketed py s ≡ some target → IsTarget py target
  bracketed-IsTarget s target h =
      let (rest, e1, h1) = bind_found (after (concat (leading (is_hex py) s ∷ "]" ∷ [])) s) _ h in
      let (address, e2, h2) = bind_found (py.ipv6 (leading (is_hex py) s)) _ h1 in
      v6_target-IsTarget (leading (is_hex py) s) address rest target e2 h2

  opened-IsTarget :
      (o : Option String) (s target : String) → opened py o s ≡ some target → IsTarget py target
  opened-IsTarget (some rest) s target h = bracketed-IsTarget rest target h
  opened-IsTarget none s target h = elim (Bool-cases (has_char b':' s)) [
    | inl e ↦ with_port-IsTarget s target (ground arith)
    | inr e ↦ v4 s target (ground arith)
  ]

-- A NAT target that is let through is an address as the library writes it, in brackets for IPv6, alone or
-- with a port that is written in decimal digits and lies from 1 to 65535.
pub normalize_to_addr-IsTarget :
    (py : Python) (s target : String) → normalize_to_addr py s ≡ some target → IsTarget py target
unfolding normalize_to_addr
normalize_to_addr-IsTarget py s target h = elim (Bool-cases (is_broken py s)) [
  | inl e ↦ cc
  | inr e ↦ opened-IsTarget py (after "[" s) s target (ground arith)
]
