-- ===== src/Firewall/Nft/Sections/Meters.antt =====
-- services/firewall-service/viswall_firewall_agent/nft.py: the rates of the meters.
use viswall.Prelude.{
  Bool, true, false, ◌&&◌, ◌≡◌, refl, sym, subst, Option, none, some, List, [], ◌∷◌, ◌++◌, String,
  truthy, All, Bool-cases, inl, inr,
}
use viswall.Firewall.Nft.Rules.{FirewallRule, Family, Python, valid_limit}
use viswall.Firewall.Nft.Sections.{Meter, is_bucket, or_limit, meter_rate}

-- Whether a rule sets the rate of a bucket.
abbrev has_valid : Python → Option String → Bool
has_valid py none = false
has_valid py (some s) = valid_limit py s

abbrev pub sets_rate : Python → Meter → Family → FirewallRule → Bool
sets_rate py meter family r = is_bucket py meter family r && has_valid py (truthy r.limit)

abbrev pub SetsNoRate : Python → Meter → Family → List FirewallRule → Type 0
SetsNoRate py meter family rules = All (λ r. sets_rate py meter family r ≡ false) rules

-- What the rate of a bucket can be.
pub data RateOf (py : Python) (meter : Meter) (family : Family)
    : List FirewallRule → String → Type 0 where
  default :
      (rules : List FirewallRule)
      → SetsNoRate py meter family rules
      → RateOf py meter family rules meter.rate
  given :
      (before : List FirewallRule) (r : FirewallRule) (after : List FirewallRule) (limit : String)
      → SetsNoRate py meter family before
      → is_bucket py meter family r ≡ true
      → truthy r.limit ≡ some limit
      → valid_limit py limit ≡ true
      → RateOf py meter family (before ++ r ∷ after) limit

module _ (py : Python) (meter : Meter) (family : Family) where
  RateOf-skip :
      (r : FirewallRule) (rules : List FirewallRule) (rate : String)
      → sets_rate py meter family r ≡ false
      → RateOf py meter family rules rate
      → RateOf py meter family (r ∷ rules) rate
  RateOf-skip r rules rate h (default _ none_sets) = default (r ∷ rules) (h, none_sets)
  RateOf-skip r rules rate h (given before q after limit none_sets b l v) =
      given (r ∷ before) q after limit (h, none_sets) b l v

  or_limit-RateOf :
      (r : FirewallRule) (rules : List FirewallRule) (o : Option String)
      → truthy r.limit ≡ o
      → is_bucket py meter family r ≡ true
      → RateOf py meter family rules (meter_rate py rules meter family)
      → RateOf py meter family (r ∷ rules) (or_limit py o (meter_rate py rules meter family))
  or_limit-RateOf r rules none e b rest = RateOf-skip r rules _ (rw (b, e) refl) rest
  or_limit-RateOf r rules (some s) e b rest = elim (Bool-cases (valid_limit py s)) [
    | inl v ↦ rw v (given [] r rules s tt b e v)
    | inr v ↦
        let skips : sets_rate py meter family r ≡ false = rw (b, e, v) refl in
        rw v (RateOf-skip r rules _ skips rest)
  ]

-- The rate of a meter's bucket is the limit of the first rule of the bucket that has a valid one, and the
-- default rate where no rule has.
pub meter_rate-RateOf :
    (py : Python) (meter : Meter) (family : Family) (rules : List FirewallRule)
    → RateOf py meter family rules (meter_rate py rules meter family)
unfolding meter_rate
meter_rate-RateOf py meter family [] = default [] tt
meter_rate-RateOf py meter family (r ∷ rules) = elim (Bool-cases (is_bucket py meter family r)) [
  | inl b ↦
      let step : meter_rate py (r ∷ rules) meter family
          ≡ or_limit py (truthy r.limit) (meter_rate py rules meter family) =
        rw b refl in
      subst (RateOf py meter family (r ∷ rules)) (sym step) (
        or_limit-RateOf py meter family r rules (truthy r.limit) refl b
          (meter_rate-RateOf py meter family rules))
  | inr b ↦
      let step : meter_rate py (r ∷ rules) meter family ≡ meter_rate py rules meter family =
        rw b refl in
      let skips : sets_rate py meter family r ≡ false = rw b refl in
      subst (RateOf py meter family (r ∷ rules)) (sym step)
        (RateOf-skip py meter family r rules _ skips (meter_rate-RateOf py meter family rules))
]
