-- ===== src/Prelude/Sort.antt =====
-- `list.sort(key=...)`, a stable sort, on lists of records with a numeric key.
use Prim.Native.Nat.{ℕ, suc, ◌≤◌}
use Prim.Native.String.{String}
use mathlib.Core.Path.{◌≡◌, refl, sym, ap, ◌∙◌}
use mathlib.Core.List.{List, [], ◌∷◌, Perm}
use mathlib.Core.List.Perm
use mathlib.Core.Bool.{Bool, true, false}
use mathlib.Core.Logic.{inl, inr}
use native.Mathlib.Omega.{arith}
use package.viswall.Prelude.Tests.{leb, ◌==◌, if◌then◌else◌, Bool-cases}
use package.viswall.Prelude.Lists.{All, length, select}
use package.viswall.Prelude.Texts.{text_le}

module _ {ℓ} {A : Type ℓ} (key : A → ℕ) where
  -- In front of the first element with a key that is not smaller.
  unfoldable pub insert : A → List A → List A
  insert a [] = a ∷ []
  insert a (x ∷ xs) = if leb (key a) (key x) then a ∷ x ∷ xs else x ∷ insert a xs

  unfoldable pub sort : List A → List A
  unfolding insert
  sort [] = []
  sort (x ∷ xs) = insert x (sort xs)

  abbrev pub IsSorted : List A → Type 0
  IsSorted [] = Unit
  IsSorted (x ∷ xs) = All (λ y. key x ≤ key y) xs × IsSorted xs

  All-le_trans : (n m : ℕ) (xs : List A) → n ≤ m → All (λ y. m ≤ key y) xs → All (λ y. n ≤ key y) xs
  All-le_trans n m [] h a = tt
  All-le_trans n m (x ∷ xs) h a = (omega arith, All-le_trans n m xs h a.1)

  All-insert :
      (n : ℕ) (a : A) (xs : List A)
      → n ≤ key a
      → All (λ y. n ≤ key y) xs
      → All (λ y. n ≤ key y) (insert a xs)
  unfolding insert
  All-insert n a [] h k = (h, tt)
  All-insert n a (x ∷ xs) h k = elim (Bool-cases (leb (key a) (key x))) [
    | inl e ↦ rw e (h, k)
    | inr e ↦ rw e (k.0, All-insert n a xs h k.1)
  ]

  insert-IsSorted : (a : A) (xs : List A) → IsSorted xs → IsSorted (insert a xs)
  unfolding insert
  insert-IsSorted a [] s = (tt, tt)
  insert-IsSorted a (x ∷ xs) s = elim (Bool-cases (leb (key a) (key x))) [
    | inl e ↦
        let le : key a ≤ key x = ground arith in
        rw e ((le, All-le_trans (key a) (key x) xs le s.0), s)
    | inr e ↦ rw e (All-insert (key x) a xs (ground arith) s.0, insert-IsSorted a xs s.1)
  ]

  pub sort-IsSorted : (xs : List A) → IsSorted (sort xs)
  unfolding sort
  sort-IsSorted [] = tt
  sort-IsSorted (x ∷ xs) = insert-IsSorted x (sort xs) (sort-IsSorted xs)

  insert-perm : (a : A) (xs : List A) → Perm (insert a xs) (a ∷ xs)
  unfolding insert
  insert-perm a [] = Perm.refl (a ∷ [])
  insert-perm a (x ∷ xs) = elim (Bool-cases (leb (key a) (key x))) [
    | inl e ↦ rw e (Perm.refl (a ∷ x ∷ xs))
    | inr e ↦ rw e (Perm.trans (Perm.cons x (insert-perm a xs)) (Perm.swap _ _ xs))
  ]

  pub sort-perm : (xs : List A) → Perm (sort xs) xs
  unfolding sort
  sort-perm [] = Perm.refl []
  sort-perm (x ∷ xs) = Perm.trans (insert-perm x (sort xs)) (Perm.cons x (sort-perm xs))

  select-insert :
      (k : ℕ) (a : A) (xs : List A)
      → select (λ y. key y == k) (insert a xs) ≡ select (λ y. key y == k) (a ∷ xs)
  unfolding insert
  select-insert k a [] = refl
  select-insert k a (x ∷ xs) = ground (arith, select-insert k a xs)

  -- Elements with one key keep their order.
  pub select-sort :
      (k : ℕ) (xs : List A) → select (λ y. key y == k) (sort xs) ≡ select (λ y. key y == k) xs
  unfolding sort
  select-sort k [] = refl
  select-sort k (x ∷ xs) = select-insert k x (sort xs) ∙ ground (arith, select-sort k xs)

-- The sorted elements that pass a test.
module _ {A : Type 0} (key : A → ℕ) (p : A → Bool) where
  select-swap : (a x : A) (xs : List A) → Perm (select p (x ∷ a ∷ xs)) (select p (a ∷ x ∷ xs))
  select-swap a x xs = elim (Bool-cases (p a)) [
    | inl e ↦ elim (Bool-cases (p x)) [
      | inl d ↦ rw (e, d) (Perm.swap _ _ (select p xs))
      | inr d ↦ rw (e, d) (Perm.refl (a ∷ select p xs))
    ]
    | inr e ↦ elim (Bool-cases (p x)) [
      | inl d ↦ rw (e, d) (Perm.refl (x ∷ select p xs))
      | inr d ↦ rw (e, d) (Perm.refl (select p xs))
    ]
  ]

  select-cons_perm :
      (x : A) (xs ys : List A)
      → Perm (select p xs) (select p ys)
      → Perm (select p (x ∷ xs)) (select p (x ∷ ys))
  select-cons_perm x xs ys h = elim (Bool-cases (p x)) [
    | inl e ↦ rw e (Perm.cons x h)
    | inr e ↦ rw e h
  ]

  select-insert_perm : (a : A) (xs : List A) → Perm (select p (insert key a xs)) (select p (a ∷ xs))
  unfolding insert
  select-insert_perm a [] = Perm.refl _
  select-insert_perm a (x ∷ xs) = elim (Bool-cases (leb (key a) (key x))) [
    | inl e ↦ rw e (Perm.refl _)
    | inr e ↦ rw e (
        Perm.trans (select-cons_perm x (insert key a xs) (a ∷ xs) (select-insert_perm a xs))
          (select-swap a x xs))
  ]

  pub select-sort_perm : (xs : List A) → Perm (select p (sort key xs)) (select p xs)
  unfolding sort
  select-sort_perm [] = Perm.refl []
  select-sort_perm (x ∷ xs) =
      Perm.trans (select-insert_perm x (sort key xs))
        (select-cons_perm x (sort key xs) xs (select-sort_perm xs))

  All-select : (P : A → Type 0) (xs : List A) → All P xs → All P (select p xs)
  All-select P [] all = tt
  All-select P (x ∷ xs) all = elim (Bool-cases (p x)) [
    | inl e ↦ rw e (all.0, All-select P xs all.1)
    | inr e ↦ rw e (All-select P xs all.1)
  ]

  pub select-IsSorted : (xs : List A) → IsSorted key xs → IsSorted key (select p xs)
  select-IsSorted [] s = tt
  select-IsSorted (x ∷ xs) s = elim (Bool-cases (p x)) [
    | inl e ↦ rw e (All-select _ xs s.0, select-IsSorted xs s.1)
    | inr e ↦ rw e (select-IsSorted xs s.1)
  ]

  insert-before : (a : A) (xs : List A) → All (λ y. key a ≤ key y) xs → insert key a xs ≡ a ∷ xs
  unfolding insert
  insert-before a [] all = refl
  insert-before a (x ∷ xs) all =
      let le : leb (key a) (key x) ≡ true = ground (arith, all.0) in rw le refl

  select-insert_kept :
      (a : A) (xs : List A)
      → IsSorted key xs
      → p a ≡ true
      → select p (insert key a xs) ≡ insert key a (select p xs)
  unfolding insert
  select-insert_kept a [] s h = rw h refl
  select-insert_kept a (x ∷ xs) s h = elim (Bool-cases (leb (key a) (key x))) [
    | inl e ↦
        let le : key a ≤ key x = ground arith in
        let all =
          All-select (λ y. key a ≤ key y) (x ∷ xs)
            (le, All-le_trans key (key a) (key x) xs le s.0) in
        let step : insert key a (x ∷ xs) ≡ a ∷ x ∷ xs = rw e refl in
        ap (select p) step
        ∙ (ap (λ b. if b then a ∷ select p (x ∷ xs) else select p (x ∷ xs)) h
            ∙ sym (insert-before a (select p (x ∷ xs)) all))
    | inr e ↦ elim (Bool-cases (p x)) [
      | inl d ↦ rw (e, d, e) (ap (λ ys. x ∷ ys) (select-insert_kept a xs s.1 h))
      | inr d ↦ rw (e, d) (select-insert_kept a xs s.1 h)
    ]
  ]

  select-insert_skip :
      (a : A) (xs : List A) → p a ≡ false → select p (insert key a xs) ≡ select p xs
  unfolding insert
  select-insert_skip a [] h = rw h refl
  select-insert_skip a (x ∷ xs) h = ground (arith, select-insert_skip a xs)

  pub select-sort_all : (xs : List A) → select p (sort key xs) ≡ sort key (select p xs)
  unfolding sort
  select-sort_all [] = refl
  select-sort_all (x ∷ xs) = elim (Bool-cases (p x)) [
    | inl e ↦
        select-insert_kept x (sort key xs) (sort-IsSorted key xs) e
        ∙ (ap (insert key x) (select-sort_all xs)
            ∙ ap (λ b. sort key (if b then x ∷ select p xs else select p xs)) (sym e))
    | inr e ↦
        select-insert_skip x (sort key xs) e
        ∙ (select-sort_all xs
            ∙ ap (λ b. sort key (if b then x ∷ select p xs else select p xs)) (sym e))
  ]

-- The same with a key that is a text.
module _ {ℓ} {A : Type ℓ} (name : A → String) where
  unfoldable pub insert_by_name : A → List A → List A
  insert_by_name a [] = a ∷ []
  insert_by_name a (x ∷ xs) =
      if text_le (name a) (name x) then a ∷ x ∷ xs else x ∷ insert_by_name a xs

  unfoldable pub sort_by_name : List A → List A
  sort_by_name [] = []
  sort_by_name (x ∷ xs) = insert_by_name x (sort_by_name xs)

  length-insert_by_name : (a : A) (xs : List A) → length (insert_by_name a xs) ≡ suc (length xs)
  unfolding insert_by_name
  length-insert_by_name a [] = refl
  length-insert_by_name a (x ∷ xs) = ground (arith, length-insert_by_name a xs)

  pub length-sort_by_name : (xs : List A) → length (sort_by_name xs) ≡ length xs
  unfolding sort_by_name
  length-sort_by_name [] = refl
  length-sort_by_name (x ∷ xs) =
      length-insert_by_name x (sort_by_name xs) ∙ ap suc (length-sort_by_name xs)
