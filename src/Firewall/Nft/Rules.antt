-- ===== src/Firewall/Nft/Rules.antt =====
-- services/firewall-service/viswall_firewall_agent/nft.py: FirewallRule and NATRule, and the validators of
-- their values. What Python's library does to texts and addresses is the record `Python`.
use Prim.Native.Char.{Char, code}
use viswall.Prelude.{
  ℕ, Bool, true, false, not, ◌&&◌, ◌||◌, Option, none, some, [], ◌∷◌, String, if◌then◌else◌, str_eq,
  ◌==◌, ◌>>=◌,
}
use viswall.Prelude.Texts.{concat}
use viswall.Prelude.Chars.{is_letter, is_digit}
use viswall.Prelude.Lines.{all_chars}

pub data FirewallAction : Type 0 where
  accept : FirewallAction
  drop : FirewallAction
  reject : FirewallAction
  log : FirewallAction
  queue : FirewallAction

abbrev pub action_value : FirewallAction → String
action_value accept = "accept"
action_value drop = "drop"
action_value reject = "reject"
action_value log = "log"
action_value queue = "queue"

pub record FirewallRule : Type 0 where
  pub id : ℕ
  pub name : String
  pub chain : String
  pub source : Option String
  pub destination : Option String
  pub protocol : Option String
  pub source_port : Option ℕ
  pub destination_port : Option ℕ
  pub interface_in : Option String
  pub interface_out : Option String
  pub action : FirewallAction
  pub log_matches : Bool
  pub state : Option String
  pub limit : Option String
  pub comment : Option String
  pub order : ℕ
  pub anti_spoof : Bool

pub record NatRule : Type 0 where
  pub id : ℕ
  pub name : String
  pub type : String
  pub chain : String
  pub source : Option String
  pub destination : Option String
  pub to_source : Option String
  pub to_destination : Option String
  pub protocol : Option String
  pub port : Option ℕ
  pub interface : Option String
  pub comment : Option String

-- "ip" or "ip6"
pub data Family : Type 0 where
  ip : Family
  ip6 : Family

abbrev pub family_text : Family → String
family_text ip = "ip"
family_text ip6 = "ip6"

-- `lower`, `upper` and `strip` of a text; the classes \s, \d and \w of `re`; `int` of a text of decimal digits;
-- the families of `ip_address(text)` and `ip_network(text, strict=False)` and the texts of
-- `IPv4Address(text)` and `IPv6Address(text)`, where `none` is a `ValueError`.
pub record Python : Type 0 where
  pub lower : String → String
  pub upper : String → String
  pub strip : String → String
  pub is_space : Char → Bool
  pub is_decimal : Char → Bool
  pub is_word : Char → Bool
  pub int_of : String → ℕ
  pub ip_address : String → Option Family
  pub ip_network : String → Option Family
  pub ipv4 : String → Option String
  pub ipv6 : String → Option String

abbrev pub is_some {ℓ} : {A : Type ℓ} → Option A → Bool
is_some none = false
is_some (some a) = true

-- `text or ""`
abbrev pub or_empty : Option String → String
or_empty none = ""
or_empty (some s) = s

abbrev is_one_of : String → Char → Bool
is_one_of String.[] c = false
is_one_of (String.◌∷◌ d s) c = code d == code c || is_one_of s c

-- `_IFNAME_RE`, [A-Za-z0-9_.:*+@-]
abbrev pub is_ifname_char : Char → Bool
is_ifname_char c = is_letter c || is_digit c || is_one_of "_.:*+@-" c

-- `_safe_ifname`
unfoldable pub safe_ifname : String → Bool
safe_ifname name = not (str_eq name "") && all_chars is_ifname_char name

-- What is left after the characters of a class, `[...]*`, and after one of them at least, `[...]+`.
module _ (is_in : Char → Bool) where
  abbrev pub after_all : String → String
  after_all String.[] = ""
  after_all (String.◌∷◌ c s) = if is_in c then after_all s else String.◌∷◌ c s

  abbrev pub after_some : String → Option String
  after_some String.[] = none
  after_some (String.◌∷◌ c s) = if is_in c then some (after_all s) else none

  -- The characters themselves.
  abbrev pub leading : String → String
  leading String.[] = ""
  leading (String.◌∷◌ c s) = let rest = leading s in if is_in c then String.◌∷◌ c rest else ""

-- What is left after a text.
abbrev pub after : (text whole : String) → Option String
after String.[] whole = some whole
after (String.◌∷◌ c text) String.[] = none
after (String.◌∷◌ c text) (String.◌∷◌ d whole) = if code c == code d then after text whole else none

-- `second|minute|hour|day`
abbrev or_after : Option String → Option String → Option String
or_after (some s) b = some s
or_after none b = b

abbrev after_unit : String → Option String
after_unit s =
    or_after (after "second" s)
      (or_after (after "minute" s) (or_after (after "hour" s) (after "day" s)))

module _ (py : Python) where
  abbrev is_burst : String → Option Bool
  is_burst s = do
    a ← after_some py.is_space s
    b ← after "burst" a
    c ← after_some py.is_space b
    d ← after_some is_digit c
    e ← after_some py.is_space d
    f ← after "packets" e
    some (str_eq f "")

  abbrev is_limit : String → Option Bool
  is_limit s = do
    a ← after_some is_digit s
    b ← after "/" (after_all py.is_space a)
    c ← after_unit (after_all py.is_space b)
    if str_eq c "" then some true else is_burst c

  abbrev pub or_false : Option Bool → Bool
  or_false none = false
  or_false (some b) = b

  -- `_LIMIT_RE` has one way to match at most: its classes exclude one another.
  unfoldable pub valid_limit : String → Bool
  valid_limit s = or_false (is_limit s)

  abbrev pub valid_net : String → Bool
  valid_net s = is_some (py.ip_network s)

-- `_quote`
abbrev quote_char : Char → String → String
quote_char c rest =
    if code c == b'\\'
    then concat ("\\\\" ∷ rest ∷ [])
    else if code c == b'"'
    then concat ("\\\"" ∷ rest ∷ [])
    else String.◌∷◌ c rest

abbrev pub escaped : String → String
escaped String.[] = ""
escaped (String.◌∷◌ c s) = quote_char c (escaped s)

unfoldable pub quote : String → String
quote s = concat ("\"" ∷ escaped s ∷ "\"" ∷ [])

abbrev pub has_char : ℕ → String → Bool
has_char n String.[] = false
has_char n (String.◌∷◌ c s) = code c == n || has_char n s

-- `value.rpartition(":")`, its two parts, for a value that has one
abbrev pub before_last_colon : String → String
before_last_colon String.[] = ""
before_last_colon (String.◌∷◌ c s) =
    let rest = before_last_colon s in
    if code c == b':' && not (has_char b':' s) then "" else String.◌∷◌ c rest

abbrev pub after_last_colon : String → String
after_last_colon String.[] = ""
after_last_colon (String.◌∷◌ c s) =
    let rest = after_last_colon s in if code c == b':' && not (has_char b':' s) then s else rest
