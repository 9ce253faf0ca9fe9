-- ===== src/Prelude/Lines.antt =====
-- Texts without a newline.
use Prim.Native.Nat.{ℕ, zero, suc, ◌+◌, ◌/◌, ◌%◌}
use Prim.Native.Char.{Char, code}
use Prim.Native.String
use Prim.Native.String.{String}
use Prim.Native.String.append.{nil, cons}
use mathlib.Core.Path.{◌≡◌, refl, sym, subst}
use mathlib.Core.Logic.{inl, inr}
use mathlib.Core.Bool.{Bool, true, false, not, ◌&&◌}
use mathlib.Core.List.{List, [], ◌∷◌}
use native.Mathlib.Omega.{arith}
use text.Mathlib.Text.{◌==◌ as str_eq}
use text.Mathlib.TextEquality.{eq_iff}
use package.viswall.Prelude.Tests.{if◌then◌else◌, ltb, ◌==◌, Bool-cases}
use package.viswall.Prelude.Lists.{All, mem_str}
use package.viswall.Prelude.Texts.{concat, digit, digits, decimal}

-- `all(p(c) for c in text)`
abbrev pub all_chars : (Char → Bool) → String → Bool
all_chars p String.[] = true
all_chars p (String.◌∷◌ c s) = p c && all_chars p s

abbrev pub is_inline : Char → Bool
is_inline c = not (code c == 10)

pub record IsLine (s : String) : Type 0 where
  pub chars : all_chars is_inline s ≡ true

-- A text in which each character is seen, as a literal.
abbrev pub line : {s : String} → all_chars is_inline s ≡ true → IsLine s
line h = record { chars = h }

pub all_chars-weaken :
    (p q : Char → Bool) (s : String)
    → ((c : Char) → p c ≡ true → q c ≡ true)
    → all_chars p s ≡ true
    → all_chars q s ≡ true
all_chars-weaken p q String.[] h a = refl
all_chars-weaken p q (String.◌∷◌ c s) h a = ground (arith, h c, all_chars-weaken p q s h)

all_chars-append :
    (p : Char → Bool) (s t : String)
    → all_chars p s ≡ true
    → all_chars p t ≡ true
    → all_chars p (String.◌++◌ s t) ≡ true
all_chars-append p String.[] t a b = subst (λ u. all_chars p u ≡ true) (sym (nil t)) b
all_chars-append p (String.◌∷◌ c s) t a b =
    let rest = all_chars-append p s t in
    subst (λ u. all_chars p u ≡ true) (sym (cons c s t)) (ground (arith, rest))

pub IsLine-append : (s t : String) → IsLine s → IsLine t → IsLine (String.◌++◌ s t)
IsLine-append s t a b = line (all_chars-append is_inline s t a.chars b.chars)

-- The parts of a text, one by one.
infixr 20 ◌⊕◌
abbrev pub ◌⊕◌ : {s t : String} → IsLine s → IsLine t → IsLine (String.◌++◌ s t)
◌⊕◌ {s} {t} a b = IsLine-append s t a b

pub concat-IsLine : (parts : List String) → All IsLine parts → IsLine (concat parts)
concat-IsLine [] all = line refl
concat-IsLine (s ∷ parts) all = IsLine-append s (concat parts) all.0 (concat-IsLine parts all.1)

pub if-IsLine : (b : Bool) (s t : String) → IsLine s → IsLine t → IsLine (if b then s else t)
if-IsLine true s t a b = a
if-IsLine false s t a b = b

digit-IsLine : (n : ℕ) → IsLine (digit n)
digit-IsLine n = if-IsLine (n == 0) "0" _ (line refl) (
    if-IsLine (n == 1) "1" _ (line refl) (
      if-IsLine (n == 2) "2" _ (line refl) (
        if-IsLine (n == 3) "3" _ (line refl) (
          if-IsLine (n == 4) "4" _ (line refl) (
            if-IsLine (n == 5) "5" _ (line refl) (
              if-IsLine (n == 6) "6" _ (line refl) (
                if-IsLine (n == 7) "7" _ (line refl)
                  (if-IsLine (n == 8) "8" _ (line refl) (line refl)))))))))

digits-IsLine : (fuel n : ℕ) → IsLine (digits fuel n)
digits-IsLine zero n = line refl
digits-IsLine (suc fuel) n = elim (Bool-cases (ltb n 10)) [
  | inl e ↦ rw e (digit-IsLine n)
  | inr e ↦ rw e (
      IsLine-append (digits fuel (n / 10)) (digit (n % 10)) (digits-IsLine fuel (n / 10))
        (digit-IsLine (n % 10)))
]

pub decimal-IsLine : (n : ℕ) → IsLine (decimal n)
decimal-IsLine n = digits-IsLine (n + 1) n

-- A text that is in a list of lines is one.
pub mem_str-IsLine :
    (k : String) (xs : List String) → All IsLine xs → mem_str k xs ≡ true → IsLine k
mem_str-IsLine k (x ∷ xs) all h = elim (Bool-cases (str_eq x k)) [
  | inl e ↦ let same : x ≡ k = ground (arith, eq_iff x k) in subst IsLine same all.0
  | inr e ↦ mem_str-IsLine k xs all.1 (ground arith)
]
mem_str-IsLine k [] all h = line (ground arith)
