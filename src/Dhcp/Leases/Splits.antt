-- ===== src/Dhcp/Leases/Splits.antt =====
-- services/dhcp-service/dhcp_agent.py: the lines that `release_lease` keeps, and the leases that are read of them.
use viswall.Prelude.{
  Bool, true, false, not, ◌||◌, ◌≡◌, refl, sym, ap, ◌∙◌, Option, some, List, [], ◌∷◌, String, map,
  str_eq, eq_iff, mem_str, select, Bool-cases, inl, inr, arith,
}
use viswall.Prelude.Dict.{Dict, get, put, get-put}
use viswall.Dhcp.Leases.{
  Python, LeaseEntry, put_each, dict_row, address_of, lease, leases_of, text_or, kept, removed,
  fate_of, row_of, add_line, release_lines,
}

get-put_each :
    (d : Dict String) (k : String) (names row : List String)
    → mem_str k names ≡ false
    → get (put_each d names row) k ≡ get d k
get-put_each d k [] [] h = refl
get-put_each d k [] (v ∷ row) h = refl
get-put_each d k (n ∷ names) [] h = refl
get-put_each d k (n ∷ names) (v ∷ row) h = elim (Bool-cases (str_eq n k)) [
  | inl e ↦ cc
  | inr e ↦
      let tail : mem_str k names ≡ false = ground arith in
      get-put_each (put d n v) k names row tail ∙ (get-put n v k d ∙ rw e refl)
]

-- The first column is the address.
get-dict_row :
    (names : List String) (c : String) (cols : List String)
    → mem_str "address" names ≡ false
    → get (dict_row ("address" ∷ names) (c ∷ cols)) "address" ≡ some c
unfolding dict_row
get-dict_row names c cols h =
    get-put_each (("address", c) ∷ []) "address" names cols h ∙ unfold get in refl

-- Whether a lease of the address is listed.
abbrev pub is_listed : String → List LeaseEntry → Bool
is_listed ip [] = false
is_listed ip (e ∷ es) = str_eq e.ip_address ip || is_listed ip es

abbrev pub others : String → List LeaseEntry → List LeaseEntry
others ip = select (λ e. not (str_eq e.ip_address ip))

others_first :
    (ip : String) (e : LeaseEntry) (es : List LeaseEntry)
    → str_eq e.ip_address ip ≡ false
    → others ip (e ∷ es) ≡ e ∷ others ip es
others_first ip e es h = rw h refl

is_listed_first :
    (ip : String) (e : LeaseEntry) (es : List LeaseEntry)
    → str_eq e.ip_address ip ≡ false
    → is_listed ip (e ∷ es) ≡ is_listed ip es
is_listed_first ip e es h = rw h refl

module _ (py : Python) where
  abbrev pub columns : String → List String
  columns line = row_of (py.reader (line ∷ []))

  -- The empty text has nothing to strip.
  pub record IsPlain : Type 0 where
    pub strip-nil : py.strip "" ≡ ""

  module _ (plain : IsPlain) (t ip : String) (names : List String) where
    abbrev pub leases : List String → List LeaseEntry
    leases lines = leases_of py t (map (dict_row ("address" ∷ names)) (map columns lines))

    address_none : py.strip "" ≡ "" → address_of py (dict_row ("address" ∷ names) []) ≡ ""
    unfolding dict_row get
    address_none e = e

    leases_skip :
        (row : Dict String) (rows : List (Dict String))
        → address_of py row ≡ ""
        → leases_of py t (row ∷ rows) ≡ leases_of py t rows
    unfolding leases_of
    leases_skip row rows e = ground (arith, eq_iff (address_of py row) "")

    leases_take :
        (row : Dict String) (rows : List (Dict String))
        → str_eq (address_of py row) "" ≡ false
        → leases_of py t (row ∷ rows) ≡ lease py t row ∷ leases_of py t rows
    unfolding leases_of
    leases_take row rows e = rw e refl

    -- What the loop keeps is read as the other leases, and it reports whether there was one of the address.
    abbrev pub Splits : List String → List String × Bool → Type 0
    Splits lines (rest, found) =
        (leases rest ≡ others ip (leases lines)) × (found ≡ is_listed ip (leases lines))

    address_first :
        (line c : String) (cols : List String)
        → mem_str "address" names ≡ false
        → columns line ≡ c ∷ cols
        → address_of py (dict_row ("address" ∷ names) (columns line)) ≡ py.strip c
    address_first line c cols h e =
        ap (λ (r : List String). address_of py (dict_row ("address" ∷ names) r)) e
        ∙ ap (λ (o : Option String). py.strip (text_or o "")) (get-dict_row names c cols h)

    leases_blank :
        (line : String) (lines : List String)
        → columns line ≡ []
        → leases (line ∷ lines) ≡ leases lines
    unfolding dict_row get
    leases_blank line lines e =
        leases_skip (dict_row ("address" ∷ names) (columns line))
          (map (dict_row ("address" ∷ names)) (map columns lines)) (rw e plain.strip-nil)

    Splits-blank :
        (line : String) (lines : List String) (p : List String × Bool)
        → columns line ≡ []
        → Splits lines p
        → Splits (line ∷ lines) p
    Splits-blank line lines (rest, found) e (same, seen) = (
      same ∙ ap (others ip) (sym (leases_blank line lines e)),
      seen ∙ ap (is_listed ip) (sym (leases_blank line lines e)),
    )

    module _ (fresh : mem_str "address" names ≡ false) (named : str_eq "" ip ≡ false) where
      removed_Splits :
          (line c : String) (cols lines : List String) (p : List String × Bool)
          → columns line ≡ c ∷ cols
          → str_eq (py.strip c) ip ≡ true
          → Splits lines p
          → Splits (line ∷ lines) (add_line removed line p)
      removed_Splits line c cols lines (rest, found) e own (same, seen) =
          let address = address_first line c cols fresh e in
          let shown : str_eq (address_of py (dict_row ("address" ∷ names) (columns line))) ""
              ≡ false =
            rw address
              (ground (arith, eq_iff (py.strip c) ip, eq_iff (py.strip c) "", eq_iff "" ip)) in
          let first =
            leases_take (dict_row ("address" ∷ names) (columns line))
              (map (dict_row ("address" ∷ names)) (map columns lines)) shown in
          (same ∙ rw (first, address, own) refl, rw (first, address, own) refl)

      kept_Splits :
          (line c : String) (cols lines : List String) (p : List String × Bool)
          → columns line ≡ c ∷ cols
          → str_eq (py.strip c) ip ≡ false
          → Splits lines p
          → Splits (line ∷ lines) (add_line kept line p)
      kept_Splits line c cols lines (rest, found) e other (same, seen) =
          let address = address_first line c cols fresh e in
          let read = dict_row ("address" ∷ names) (columns line) in
          let rows = λ (ls : List String). map (dict_row ("address" ∷ names)) (map columns ls) in
          elim (Bool-cases (str_eq (py.strip c) "")) [
            | inl e0 ↦
                let nothing : py.strip c ≡ "" = ground (arith, eq_iff (py.strip c) "") in
                let skip = λ (ls : List String). leases_skip read (rows ls) (address ∙ nothing) in
                (
                  skip rest ∙ (same ∙ ap (others ip) (sym (skip lines))),
                  seen ∙ ap (is_listed ip) (sym (skip lines)),
                )
            | inr e1 ↦
                let shown : str_eq (address_of py read) "" ≡ false = rw address e1 in
                let differs : str_eq (address_of py read) ip ≡ false = rw address other in
                let first = leases_take read (rows lines) shown in
                (
                  leases_take read (rows rest) shown
                      ∙ (ap (λ (es : List LeaseEntry). lease py t read ∷ es) same
                          ∙ (sym (others_first ip (lease py t read) (leases lines) differs)
                              ∙ ap (others ip) (sym first))),
                  seen
                      ∙ (sym (is_listed_first ip (lease py t read) (leases lines) differs)
                          ∙ ap (is_listed ip) (sym first)),
                )
          ]

      step_Splits :
          (row : List String) (line : String) (lines : List String) (p : List String × Bool)
          → columns line ≡ row
          → Splits lines p
          → Splits (line ∷ lines) (add_line (fate_of py ip row) line p)
      step_Splits [] line lines p e s = Splits-blank line lines p e s
      step_Splits (c ∷ cols) line lines p e s = elim (Bool-cases (str_eq (py.strip c) ip)) [
        | inl own ↦ rw own (removed_Splits line c cols lines p e own s)
        | inr other ↦ rw other (kept_Splits line c cols lines p e other s)
      ]

      pub release_lines-Splits : (lines : List String) → Splits lines (release_lines py ip lines)
      unfolding release_lines leases_of
      release_lines-Splits [] = (refl, refl)
      release_lines-Splits (line ∷ lines) =
          step_Splits (columns line) line lines (release_lines py ip lines) refl
            (release_lines-Splits lines)
