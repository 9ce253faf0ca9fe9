-- ===== src/Dhcp/Leases.antt =====
-- services/dhcp-service/dhcp_agent.py: the lease files of Kea, `_parse_leases`, `list_leases` and `release_lease`.
pub mod Splits
pub mod Released
use viswall.Prelude.{
  ℕ, Bool, true, false, not, ◌&&◌, Option, none, some, List, [], ◌∷◌, ◌++◌, String, map,
  if◌then◌else◌, str_eq, truthy, mem_str,
}
use viswall.Prelude.Sort.{sort_by_name}
use viswall.Prelude.Dict.{Dict, get, put}
use viswall.Prelude.Texts.{concat, joined, contains, text_le}

-- `str.splitlines`, `str.strip` and the reading of rows by the csv module.
pub record Python : Type 0 where
  pub splitlines : String → List String
  pub strip : String → String
  pub reader : List String → List (List String)

pub record LeaseEntry : Type 0 where
  pub ip_address : String
  pub hw_address : Option String
  pub client_id : Option String
  pub hostname : Option String
  pub expires_at : Option String
  pub state : String
  pub subnet_id : Option String
  pub pool_id : Option String
  pub type : String

abbrev pub v4_fields : List String
v4_fields =
    "address" ∷ "hwaddr" ∷ "client_id" ∷ "valid_lifetime" ∷ "expire" ∷ "subnet_id" ∷ "fqdn_fwd"
    ∷ "fqdn_rev" ∷ "hostname" ∷ "state" ∷ "user_context" ∷ "pool_id" ∷ []

abbrev pub v6_fields : List String
v6_fields =
    "address" ∷ "duid" ∷ "valid_lifetime" ∷ "expire" ∷ "subnet_id" ∷ "pref_lifetime" ∷ "lease_type"
    ∷ "iaid" ∷ "prefix_len" ∷ "fqdn_fwd" ∷ "fqdn_rev" ∷ "hostname" ∷ "state" ∷ "user_context"
    ∷ "pool_id" ∷ []

abbrev pub fieldnames : (lease_type : String) → List String
fieldnames lease_type = if str_eq lease_type "v4" then v4_fields else v6_fields

abbrev put_each : Dict String → List String → List String → Dict String
put_each d (k ∷ ks) (v ∷ vs) = put_each (put d k v) ks vs
put_each d ks vs = d

-- `dict(zip(names, row))`, and a row of `csv.DictReader`, which has the same values under the names
unfoldable pub dict_row : List String → List String → Dict String
unfolding put
dict_row names row = put_each [] names row

abbrev pub first_truthy : Option String → Option String → Option String
first_truthy none other = other
first_truthy (some s) other = some s

-- `(row.get(key) or other or None)`
abbrev pub value_of : Dict String → String → Option String
value_of row key = truthy (get row key)

abbrev pub text_or : Option String → String → String
text_or none default = default
text_or (some s) default = s

-- Whether a line is kept, and whether it is the lease that is released; a blank one is neither.
pub data Fate : Type 0 where
  kept removed blank : Fate

abbrev pub add_line : Fate → String → List String × Bool → List String × Bool
add_line kept line (lines, found) = (line ∷ lines, found)
add_line removed line (lines, found) = (lines, true)
add_line blank line (lines, found) = (lines, found)

-- Rows with a header line are read under its names.
abbrev pub lease_rows : (lease_type : String) → List (List String) → List (Dict String)
lease_rows lease_type [] = []
lease_rows lease_type (header ∷ rows) =
    if mem_str "address" header
    then map (dict_row header) rows
    else map (dict_row (fieldnames lease_type)) (header ∷ rows)

abbrev pub row_of : List (List String) → List String
row_of [] = []
row_of (row ∷ rows) = row

-- `"\n".join(new_lines) + ("\n" if new_lines else "")`
abbrev pub file_text : List String → String
file_text [] = ""
file_text (l ∷ ls) = concat (joined "\n" (l ∷ ls) ∷ "\n" ∷ [])

abbrev pub written : List String × Bool → Option String
written (lines, false) = none
written (lines, true) = some (file_text lines)

module _ (py : Python) where
  abbrev pub address_of : Dict String → String
  address_of row = py.strip (text_or (get row "address") "")

  abbrev pub lease : (lease_type : String) → Dict String → LeaseEntry
  lease lease_type row = record {
    ip_address = address_of row;
    hw_address = first_truthy (value_of row "hwaddr") (value_of row "duid");
    client_id = first_truthy (value_of row "client_id") (value_of row "iaid");
    hostname = value_of row "hostname";
    expires_at = value_of row "expire";
    state = text_or (value_of row "state") "active";
    subnet_id = value_of row "subnet_id";
    pool_id = value_of row "pool_id";
    type = lease_type;
  }

  -- The loop over the rows: one without an address is left out.
  unfoldable pub leases_of : (lease_type : String) → List (Dict String) → List LeaseEntry
  leases_of lease_type [] = []
  leases_of lease_type (row ∷ rows) =
      let rest = leases_of lease_type rows in
      if str_eq (address_of row) "" then rest else lease lease_type row ∷ rest

  -- `_parse_leases`, where `none` is a file that does not exist
  unfoldable pub parse_leases : (lease_type : String) → Option String → List LeaseEntry
  parse_leases lease_type none = []
  parse_leases lease_type (some content) =
      let raw = py.strip content in
      if str_eq raw ""
      then []
      else leases_of lease_type (lease_rows lease_type (py.reader (py.splitlines raw)))

  -- The files of the two families.
  unfoldable pub list_leases : (leases4 leases6 : Option String) → List LeaseEntry
  list_leases leases4 leases6 =
      sort_by_name (λ e. e.ip_address) (parse_leases "v4" leases4 ++ parse_leases "v6" leases6)

  abbrev pub fate_of : (ip_address : String) → List String → Fate
  fate_of ip_address [] = blank
  fate_of ip_address (c ∷ cols) = if str_eq (py.strip c) ip_address then removed else kept

  -- The loop over the lines behind the header: `new_lines`, and `removed`.
  unfoldable pub release_lines : (ip_address : String) → List String → List String × Bool
  release_lines ip_address [] = ([], false)
  release_lines ip_address (line ∷ lines) =
      add_line (fate_of ip_address (row_of (py.reader (line ∷ [])))) line
        (release_lines ip_address lines)

  abbrev pub released_lines : (ip_address : String) → List String → List String × Bool
  released_lines ip_address [] = ([], false)
  released_lines ip_address (first ∷ lines) =
      if contains "address" first
      then add_line kept first (release_lines ip_address lines)
      else release_lines ip_address (first ∷ lines)

  -- `release_lease` on the file of the family: what is written to it, or `none` for the answer 404.
  unfoldable pub release_lease : (ip_address : String) → Option String → Option String
  release_lease ip_address none = none
  release_lease ip_address (some content) =
      written (released_lines ip_address (py.splitlines content))
