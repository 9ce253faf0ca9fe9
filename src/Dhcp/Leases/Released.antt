-- ===== src/Dhcp/Leases/Released.antt =====
-- services/dhcp-service/dhcp_agent.py: what `release_lease` leaves for `_parse_leases` to read.
use viswall.Prelude.{
  Bool, true, false, ◌≡◌, refl, sym, ap, ◌∙◌, subst, Option, none, some, List, [], ◌∷◌, String, map,
  if◌then◌else◌, str_eq, mem_str, All, Bool-cases, inl, inr,
}
use viswall.Prelude.Texts.{contains}
use viswall.Dhcp.Leases.{
  Python, LeaseEntry, v4_fields, v6_fields, fieldnames, dict_row, lease_rows, leases_of,
  parse_leases, Fate, kept, removed, blank, fate_of, add_line, release_lines, released_lines,
  file_text, written, release_lease,
}
use viswall.Dhcp.Leases.Splits.{is_listed, others, columns, IsPlain, leases, release_lines-Splits}

abbrev rest_of : List String → List String
rest_of [] = []
rest_of (n ∷ names) = names

module _ (py : Python) where
  -- A file of these lines is split into them, also without the white space at its ends; and the csv module reads
  -- a row of each of these lines, since no field of them has a line end in it.
  pub record IsTidy (lines : List String) : Type 0 where
    pub split : py.splitlines (file_text lines) ≡ lines
    pub split-strip : py.splitlines (py.strip (file_text lines)) ≡ lines
    pub by_line : py.reader lines ≡ map (columns py) lines
    pub empty : str_eq (py.strip (file_text lines)) "" ≡ true → lines ≡ []

  -- A file with a header line that starts with "address", or one without, in which no row has that word.
  pub data Format (first : String) (lines : List String) : Type 0 where
    header :
        (names : List String)
        → contains "address" first ≡ true
        → columns py first ≡ "address" ∷ names
        → mem_str "address" names ≡ false
        → Format first lines
    headerless :
        contains "address" first ≡ false
        → All (λ line. mem_str "address" (columns py line) ≡ false) (first ∷ lines)
        → Format first lines

  -- What the end of a release says of the leases that the file lists.
  abbrev pub Released : (t ip old : String) → Option String → Type 0
  Released t ip old none = is_listed ip (parse_leases py t (some old)) ≡ false
  Released t ip old (some new) =
      (is_listed ip (parse_leases py t (some old)) ≡ true)
      × (parse_leases py t (some new) ≡ others ip (parse_leases py t (some old)))

  parse_leases-file_text :
      (t : String) (lines : List String)
      → IsTidy lines
      → parse_leases py t (some (file_text lines))
        ≡ leases_of py t (lease_rows t (map (columns py) lines))
  unfolding parse_leases leases_of
  parse_leases-file_text t lines tidy = elim (Bool-cases (str_eq (py.strip (file_text lines)) "")) [
    | inl e ↦ rw e (
        sym (
          ap (λ (ls : List String). leases_of py t (lease_rows t (map (columns py) ls)))
            (tidy.empty e)))
    | inr e ↦ rw e (
        ap (λ (ls : List String). leases_of py t (lease_rows t (py.reader ls))) tidy.split-strip
        ∙ ap (λ (rows : List (List String)). leases_of py t (lease_rows t rows)) tidy.by_line)
  ]

  module _ (plain : IsPlain py) (t ip : String) (named : str_eq "" ip ≡ false) where
    -- From what is listed of the lines, to what is listed of the files.
    Splits-Released :
        (old : List String) (p : List String × Bool) (before : List LeaseEntry)
        → parse_leases py t (some (file_text old)) ≡ before
        → parse_leases py t (some (file_text p.0)) ≡ others ip before
        → p.1 ≡ is_listed ip before
        → Released t ip (file_text old) (written p)
    Splits-Released old (rest, false) before e new seen = ap (is_listed ip) e ∙ sym seen
    Splits-Released old (rest, true) before e new seen =
        (ap (is_listed ip) e ∙ sym seen, new ∙ ap (others ip) (sym e))

    header_rows :
        (names : List String) (first : String) (lines : List String)
        → columns py first ≡ "address" ∷ names
        → lease_rows t (map (columns py) (first ∷ lines))
          ≡ map (dict_row ("address" ∷ names)) (map (columns py) lines)
    header_rows names first lines e = rw e refl

    header-Released :
        (names : List String) (first : String) (lines : List String)
        → contains "address" first ≡ true
        → columns py first ≡ "address" ∷ names
        → mem_str "address" names ≡ false
        → IsTidy (first ∷ lines)
        → IsTidy (add_line kept first (release_lines py ip lines)).0
        → Released t ip (file_text (first ∷ lines)) (written (released_lines py ip (first ∷ lines)))
    header-Released names first lines has e fresh tidy tidy' =
        let s = release_lines-Splits py plain t ip names fresh named lines in
        let read = λ (ls : List String) (h : IsTidy (first ∷ ls)).
          parse_leases-file_text t (first ∷ ls) h
          ∙ ap (leases_of py t) (header_rows names first ls e) in
        rw has (
          Splits-Released (first ∷ lines) (add_line kept first (release_lines py ip lines))
            (leases py plain t ip names lines) (read lines tidy)
            (read (release_lines py ip lines).0 tidy' ∙ s.0) s.1)

    -- The columns of a file without a header line.
    abbrev rest_names : List String
    rest_names = if str_eq t "v4" then rest_of v4_fields else rest_of v6_fields

    fieldnames_lem :
        (fieldnames t ≡ "address" ∷ rest_names) × (mem_str "address" rest_names ≡ false)
    fieldnames_lem = elim (Bool-cases (str_eq t "v4")) [
      | inl e ↦ rw e (refl, refl)
      | inr e ↦ rw e (refl, refl)
    ]

    abbrev NoHeader : List String → Type 0
    NoHeader = All (λ line. mem_str "address" (columns py line) ≡ false)

    add_line-NoHeader :
        (fate : Fate) (line : String) (p : List String × Bool)
        → mem_str "address" (columns py line) ≡ false
        → NoHeader p.0
        → NoHeader (add_line fate line p).0
    add_line-NoHeader kept line p h all = (h, all)
    add_line-NoHeader removed line p h all = all
    add_line-NoHeader blank line p h all = all

    release_lines-NoHeader :
        (lines : List String) → NoHeader lines → NoHeader (release_lines py ip lines).0
    unfolding release_lines
    release_lines-NoHeader [] all = tt
    release_lines-NoHeader (line ∷ lines) all =
        add_line-NoHeader (fate_of py ip (columns py line)) line (release_lines py ip lines) all.0
          (release_lines-NoHeader lines all.1)

    headerless_rows :
        (lines : List String)
        → NoHeader lines
        → leases_of py t (lease_rows t (map (columns py) lines))
          ≡ leases py plain t ip rest_names lines
    unfolding leases_of
    headerless_rows [] all = refl
    headerless_rows (line ∷ lines) all =
        let names : lease_rows t (map (columns py) (line ∷ lines))
            ≡ map (dict_row ("address" ∷ rest_names)) (map (columns py) (line ∷ lines)) =
          rw all.0 (
            ap (λ (ns : List String). map (dict_row ns) (map (columns py) (line ∷ lines)))
              fieldnames_lem.0) in
        ap (leases_of py t) names

    headerless-Released :
        (lines : List String)
        → NoHeader lines
        → IsTidy lines
        → IsTidy (release_lines py ip lines).0
        → Released t ip (file_text lines) (written (release_lines py ip lines))
    headerless-Released lines all tidy tidy' =
        let s = release_lines-Splits py plain t ip rest_names fieldnames_lem.1 named lines in
        let read = λ (ls : List String) (h : IsTidy ls) (a : NoHeader ls).
          parse_leases-file_text t ls h ∙ headerless_rows ls a in
        Splits-Released lines (release_lines py ip lines) (leases py plain t ip rest_names lines)
          (read lines tidy all)
          (read (release_lines py ip lines).0 tidy' (release_lines-NoHeader lines all) ∙ s.0) s.1

    released_lines-Released :
        (first : String) (lines : List String)
        → Format first lines
        → IsTidy (first ∷ lines)
        → IsTidy (released_lines py ip (first ∷ lines)).0
        → Released t ip (file_text (first ∷ lines)) (written (released_lines py ip (first ∷ lines)))
    released_lines-Released first lines (header names has e fresh) tidy tidy' =
        header-Released names first lines has e fresh tidy (rw has at tidy')
    released_lines-Released first lines (headerless lacks all) tidy tidy' =
        rw lacks (headerless-Released (first ∷ lines) all tidy (rw lacks at tidy'))

-- In a lease file with a header line whose first column, and no other, is "address", or with no row that has this
-- word, the release of an address, which is not empty, answers 404 where no lease of it is listed; otherwise the file
-- that it writes lists all the other leases as before, in their order, and none of the address. Conditions: the file
-- before and after is its lines with line ends between them, nothing else is white space at its ends, and the csv
-- module reads the lines before, and those after, one row each, as where no field has a line end in it; and
-- nothing is stripped of the empty text.
pub release_lease-Released :
    (py : Python) (lease_type ip_address : String) (first : String) (lines : List String)
    → str_eq "" ip_address ≡ false
    → IsPlain py
    → Format py first lines
    → IsTidy py (first ∷ lines)
    → IsTidy py (released_lines py ip_address (first ∷ lines)).0
    → Released py lease_type ip_address
        (file_text (first ∷ lines))
        (release_lease py ip_address (some (file_text (first ∷ lines))))
unfolding release_lease
release_lease-Released py t ip first lines named plain format tidy tidy' =
    subst
      (λ (ls : List String).
        Released py t ip (file_text (first ∷ lines)) (written (released_lines py ip ls)))
      (sym tidy.split) (released_lines-Released py plain t ip named first lines format tidy tidy')
