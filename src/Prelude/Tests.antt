-- ===== src/Prelude/Tests.antt =====
-- Boolean tests on numbers and texts, branching, and Python's truthiness of optional values.
use Prim.Native.Nat.{ℕ, compare, Ordering, ◌≤◌}
use Prim.Native.Char.{code}
use Prim.Native.String.{String}
use mathlib.Core.Path.{◌≡◌, refl}
use mathlib.Core.Logic.{◌⊎◌, ◌↔◌, inl, inr}
use mathlib.Core.Bool.{Bool, true, false}
use mathlib.Core.Option.{Option, none, some}
use native.Mathlib.Omega.{arith}
use text.Mathlib.Text.{◌==◌ as str_eq}
use text.Mathlib.TextEquality.{eq_iff}
use text.Mathlib.TextPositions.{eq_refl}

abbrev pub ltb : ℕ → ℕ → Bool
ltb a b = elim (compare a b) [ Ordering.lt ↦ true | _ ↦ false ]

abbrev pub leb : ℕ → ℕ → Bool
leb a b = elim (compare a b) [ Ordering.gt ↦ false | _ ↦ true ]

infix 50 ◌==◌
abbrev pub ◌==◌ : ℕ → ℕ → Bool
a == b = elim (compare a b) [ Ordering.eq ↦ true | _ ↦ false ]

infix 1 if◌then◌else◌
abbrev pub if◌then◌else◌ {ℓ} : {A : Type ℓ} → Bool → A → A → A
if true then x else y = x
if false then x else y = y

pub leb→le : (a b : ℕ) → leb a b ≡ true → a ≤ b
leb→le a b h = ground arith

pub Bool-cases : (b : Bool) → (b ≡ true) ⊎ (b ≡ false)
Bool-cases true = inl refl
Bool-cases false = inr refl

pub Option-cases {ℓ} : {A : Type ℓ} (o : Option A) → (o ≡ none) ⊎ ((a : A) × (o ≡ some a))
Option-cases none = inl refl
Option-cases (some a) = inr (a, refl)

pub Sum-cases {ℓ κ} :
    {A : Type ℓ} {B : Type κ} (r : A ⊎ B) → ((a : A) × (r ≡ inl a)) ⊎ ((b : B) × (r ≡ inr b))
Sum-cases (inl a) = inl (a, refl)
Sum-cases (inr b) = inr (b, refl)

-- `"/" in s`
abbrev pub has_slash : String → Bool
has_slash String.[] = false
has_slash (String.◌∷◌ c s) = if code c == b'/' then true else has_slash s

-- An optional text that is true in a Python condition: neither `None` nor empty.
abbrev pub truthy : Option String → Option String
truthy none = none
truthy (some s) = if str_eq s "" then none else some s

-- The same for an optional number, where 0 is false.
abbrev pub truthy_num : Option ℕ → Option ℕ
truthy_num none = none
truthy_num (some n) = if n == 0 then none else some n

-- `a != b` where the left side may be `None`
abbrev pub opt_eq : Option String → String → Bool
opt_eq none s = false
opt_eq (some r) s = str_eq r s

abbrev pub opt_num_eq : Option ℕ → ℕ → Bool
opt_num_eq none n = false
opt_num_eq (some m) n = m == n

pub str_eq_refl : (s : String) → str_eq s s ≡ true
str_eq_refl s = eq_refl s

pub opt_eq→eq : (o : Option String) (s : String) → opt_eq o s ≡ true → o ≡ some s
opt_eq→eq none s h = cc
opt_eq→eq (some r) s h = ground (arith, eq_iff r s)

pub opt_num_eq_iff : (o : Option ℕ) (n : ℕ) → (opt_num_eq o n ≡ true) ↔ (o ≡ some n)
opt_num_eq_iff none n = (λ h. cc, λ h. cc)
opt_num_eq_iff (some m) n = (λ h. ground arith, λ h. ground arith)

pub opt_eq_iff : (o : Option String) (s : String) → (opt_eq o s ≡ true) ↔ (o ≡ some s)
opt_eq_iff none s = (λ h. cc, λ h. cc)
opt_eq_iff (some r) s = (λ h. ground (arith, eq_iff r s), λ h. ground (arith, eq_iff r s))

-- A chain of steps of which each may have no result.
infixl 5 ◌>>=◌
abbrev pub ◌>>=◌ {ℓ κ} : {A : Type ℓ} {B : Type κ} → Option A → (A → Option B) → Option B
none >>= f = none
some a >>= f = f a

-- The step that a chain with a result took first.
pub bind_found {ℓ κ} :
    {A : Type ℓ} {B : Type κ} (step : Option A) (next : A → Option B) {result : B}
    → (step >>= next) ≡ some result
    → (value : A) × (step ≡ some value) × (next value ≡ some result)
bind_found none next found = cc
bind_found (some value) next found = (value, refl, found)
