-- ===== src/Dns/Render.antt =====
-- services/dns-service/viswall_dns_agent/payloads.py and render.py: zones and the configuration of BIND as
-- texts. `upper` and the version of an address are parameters.
use Prim.Native.Char.{code}
use viswall.Prelude.{
  ℕ, Bool, true, false, ◌||◌, Option, none, some, List, [], ◌∷◌, ◌++◌, map, String, if◌then◌else◌,
  str_eq, ◌==◌, truthy, select,
}
use viswall.Prelude.Texts.{concat, joined, decimal}

pub record TsigKey : Type 0 where
  pub id : ℕ
  pub name : String
  pub algorithm : String
  pub secret : String
  pub is_active : Bool

pub record DnssecKey : Type 0 where
  pub public_dnskey : Option String
  pub ds_record : Option String
  pub is_active : Bool

pub record Record : Type 0 where
  pub name : String
  pub record_type : String
  pub content : String
  pub ttl : ℕ
  pub priority : ℕ
  pub weight : ℕ
  pub port : ℕ

pub record Zone : Type 0 where
  pub id : ℕ
  pub name : String
  pub zone_type : String
  pub enabled : Bool
  pub serial : ℕ
  pub refresh : ℕ
  pub retry : ℕ
  pub expire : ℕ
  pub minimum_ttl : ℕ
  pub master_server_address : Option String
  pub transfer_tsig_key_id : Option ℕ
  pub dnssec_enabled : Bool
  pub records : List Record
  pub dnssec_keys : List DnssecKey

pub record ServerConfig : Type 0 where
  pub server_id : ℕ
  pub listening_addresses : List String
  pub is_recursive : Bool
  pub forwarders : List String
  pub allow_query : List String
  pub allow_transfer : List String
  pub also_notify : List String
  pub tsig_keys : List TsigKey
  pub zones : List Zone

-- `upper`, and whether `ip_address(text)` has version 6, where `none` is a `ValueError`.
pub record Python : Type 0 where
  pub upper : String → String
  pub is_version_6 : String → Option Bool

-- `"\n".join(lines) + "\n"`
abbrev file_text : List String → String
file_text lines = concat (joined "\n" lines ∷ "\n" ∷ [])

abbrev when : Bool → List String → List String
when true lines = lines
when false lines = []

module _ (py : Python) where
  abbrev is_type : String → Record → Bool
  is_type t r = str_eq (py.upper r.record_type) t

  unfoldable pub record_line : Record → String
  record_line r =
      let base = concat (r.name ∷ " " ∷ decimal r.ttl ∷ " IN " ∷ r.record_type ∷ []) in
      if is_type "MX" r
      then concat (base ∷ " " ∷ decimal r.priority ∷ " " ∷ r.content ∷ [])
      else if is_type "SRV" r
      then concat (
          base
          ∷ " "
          ∷ decimal r.priority
          ∷ " "
          ∷ decimal r.weight
          ∷ " "
          ∷ decimal r.port
          ∷ " "
          ∷ r.content
          ∷ [])
      else concat (base ∷ " " ∷ r.content ∷ [])

  abbrev pub has_soa : List Record → Bool
  has_soa [] = false
  has_soa (r ∷ records) = if is_type "SOA" r then true else has_soa records

abbrev pub default_soa : Zone → String
default_soa z = concat (
    "@ IN SOA ns1."
    ∷ z.name
    ∷ ". admin."
    ∷ z.name
    ∷ ". (\n    "
    ∷ decimal z.serial
    ∷ " ; serial\n    "
    ∷ decimal z.refresh
    ∷ " ; refresh\n    "
    ∷ decimal z.retry
    ∷ " ; retry\n    "
    ∷ decimal z.expire
    ∷ " ; expire\n    "
    ∷ decimal z.minimum_ttl
    ∷ " ; minimum ttl\n)"
    ∷ [])

abbrev given : Option String → List String
given none = []
given (some s) = s ∷ []

abbrev pub key_lines : List DnssecKey → List String
key_lines [] = []
key_lines (k ∷ keys) =
    when k.is_active (given (truthy k.public_dnskey) ++ given (truthy k.ds_record))
    ++ key_lines keys

unfoldable pub render_zone_text : Python → Zone → (include_dnssec : Bool) → String
render_zone_text py z include_dnssec = file_text (
    concat ("$TTL " ∷ decimal z.minimum_ttl ∷ [])
    ∷ ((if has_soa py z.records then [] else default_soa z ∷ [])
        ++ (map (record_line py) z.records ++ when include_dnssec (key_lines z.dnssec_keys))))

-- `_acl`
abbrev pub acl : List String → String
acl [] = ""
acl (e ∷ entries) = concat ("{ " ∷ joined "; " (e ∷ entries) ∷ "; }" ∷ [])

abbrev is_any : String → Bool
is_any s = str_eq s "0.0.0.0" || str_eq s "::" || str_eq s "*"

abbrev has_any : List String → Bool
has_any [] = false
has_any (s ∷ addresses) = if is_any s then true else has_any addresses

-- `_listen_acl`
abbrev pub listen_acl : List String → String
listen_acl [] = "{ any; }"
listen_acl (a ∷ addresses) = if has_any (a ∷ addresses) then "{ any; }" else acl (a ∷ addresses)

-- `addr.split("%")[0]`
abbrev before_percent : String → String
before_percent String.[] = ""
before_percent (String.◌∷◌ c s) = if code c == b'%' then "" else String.◌∷◌ c (before_percent s)

abbrev is_version : Option Bool → Bool → Bool
is_version none six = false
is_version (some true) six = six
is_version (some false) true = false
is_version (some false) false = true

-- The addresses of one version, in their order.
abbrev pub of_version : Python → Bool → List String → List String
of_version py six addresses =
    select (λ a. is_version (py.is_version_6 (before_percent a)) six) addresses

abbrev setting : (keyword value : String) → String
setting keyword value = concat ("    " ∷ keyword ∷ " " ∷ value ∷ ";" ∷ [])

abbrev setting_if_any : (keyword : String) → List String → (List String → String) → List String
setting_if_any keyword [] f = []
setting_if_any keyword (e ∷ entries) f = setting keyword (f (e ∷ entries)) ∷ []

abbrev yes_no : Bool → String → String
yes_no true word = word
yes_no false word = "no"

unfoldable pub render_options_text : Python → ServerConfig → String
render_options_text py c = file_text (
    "// Generated by Viswall DNS agent — options + rndc controls"
    ∷ "include \"/etc/bind/rndc.key\";"
    ∷ "controls { inet 127.0.0.1 port 953 allow { 127.0.0.1; } keys { rndc-key; }; };"
    ∷ "options {"
    ∷ "    directory \"/var/cache/bind\";"
    ∷ (setting_if_any "listen-on" (of_version py false c.listening_addresses) listen_acl
        ++ (setting_if_any "listen-on-v6" (of_version py true c.listening_addresses) listen_acl
            ++ setting "recursion" (yes_no c.is_recursive "yes")
              ∷ setting "dnssec-validation" (yes_no c.is_recursive "auto")
              ∷ setting "allow-query" (acl c.allow_query)
              ∷ setting "allow-transfer" (acl c.allow_transfer)
              ∷ (setting_if_any "also-notify" c.also_notify acl
                  ++ (setting_if_any "forwarders" c.forwarders acl ++ "};" ∷ [])))))

abbrev key_settings : Option String → String
key_settings none = ""
key_settings (some name) = concat (
    "    allow-transfer { key \"" ∷ name ∷ "\"; };\n    also-notify { key \"" ∷ name ∷ "\"; };\n"
    ∷ [])

abbrev zone_statement : Zone → (settings : String) → (file after : String) → String
zone_statement z settings file after = concat (
    "zone \"" ∷ z.name ∷ "\" {\n" ∷ settings ∷ "    file \"" ∷ file ∷ "\";\n" ∷ after ∷ "};\n" ∷ [])

abbrev masters_clause : (address : String) → Option String → String
masters_clause address none = address
masters_clause address (some name) = concat (address ∷ " key " ∷ name ∷ [])

abbrev slave_block :
    Zone → (file : String) → Option String → (address : Option String) → Option String
slave_block z file key none = none
slave_block z file key (some address) = some (
    zone_statement z
      (concat ("    type slave;\n    masters { " ∷ masters_clause address key ∷ "; };\n" ∷ [])) file
      "")

-- `none` is a `ValueError`. An empty name of a key counts as none.
unfoldable pub render_zone_block :
    Zone → (file : String) → (key_name : Option String) → Option String
render_zone_block z file key =
    if str_eq z.zone_type "master"
    then some (zone_statement z "    type master;\n" file (key_settings (truthy key)))
    else if str_eq z.zone_type "slave"
    then slave_block z file (truthy key) (truthy z.master_server_address)
    else some (zone_statement z (concat ("    type " ∷ z.zone_type ∷ ";\n" ∷ [])) file "")

abbrev pub tsig_blocks : List TsigKey → List String
tsig_blocks [] = []
tsig_blocks (k ∷ keys) =
    let rest = tsig_blocks keys in
    if k.is_active
    then concat (
        "key \"" ∷ k.name ∷ "\" {\n    algorithm " ∷ k.algorithm ∷ ";\n    secret \"" ∷ k.secret
        ∷ "\";\n};\n" ∷ [])
      ∷ rest
    else rest

unfoldable pub render_local_text : ServerConfig → (zone_blocks : List String) → String
render_local_text c zone_blocks = file_text (
    "// Generated by Viswall DNS agent — zones + TSIG keys"
    ∷ concat ("// server_id=" ∷ decimal c.server_id ∷ [])
    ∷ ""
    ∷ (tsig_blocks c.tsig_keys ++ zone_blocks))
