-- ===== src/Firewall/Routing/Reconcile.antt =====
-- services/firewall-service/viswall_firewall_agent/routing.py: which objects `apply_routing` deletes and
-- which it adds. Once they are deleted and added, there is nothing left to do.
use viswall.Prelude.{
  Bool, true, not, ◌&&◌, ◌≡◌, refl, sym, subst, ap, ◌∙◌, List, [], ◌∷◌, ◌++◌, if◌then◌else◌, arith,
  All, Bool-cases, inl, inr,
}
use viswall.Firewall.Routing.Desired.{holds}
use viswall.Firewall.Routing.Live.{Live}

module _ {A : Type 0} (same : A → A → Bool) where
  abbrev pub keys : List (Live A) → List A
  keys [] = []
  keys (l ∷ live) = l.key ∷ keys live

  -- The owned live objects that are not wanted.
  unfoldable pub stale : (wanted : List A) → List (Live A) → List A
  stale wanted [] = []
  stale wanted (l ∷ live) =
      let rest = stale wanted live in
      if l.is_owned && not (holds same l.key wanted) then l.key ∷ rest else rest

  -- The wanted objects that are not live.
  unfoldable pub missing : (present wanted : List A) → List A
  missing present [] = []
  missing present (w ∷ wanted) =
      let rest = missing present wanted in if holds same w present then rest else w ∷ rest

  abbrev keep : (wanted : List A) → List (Live A) → List (Live A)
  keep wanted [] = []
  keep wanted (l ∷ live) =
      let rest = keep wanted live in
      if l.is_owned && not (holds same l.key wanted) then rest else l ∷ rest

  abbrev added : List A → List (Live A)
  added [] = []
  added (w ∷ wanted) = record { is_owned = true; key = w } ∷ added wanted

  -- The live objects once the stale ones are deleted and the missing ones are added.
  unfoldable pub reconciled : (wanted : List A) → List (Live A) → List (Live A)
  reconciled wanted live = keep wanted live ++ added (missing (keys live) wanted)

  stale-append :
      (wanted : List A) (xs ys : List (Live A))
      → stale wanted (xs ++ ys) ≡ stale wanted xs ++ stale wanted ys
  unfolding stale
  stale-append wanted [] ys = refl
  stale-append wanted (x ∷ xs) ys = ground (arith, stale-append wanted xs ys)

  stale-keep : (wanted : List A) (live : List (Live A)) → stale wanted (keep wanted live) ≡ []
  unfolding stale
  stale-keep wanted [] = refl
  stale-keep wanted (l ∷ live) = ground (arith, stale-keep wanted live)

  -- Each object that is the same as `w` is wanted.
  abbrev IsWanted : (wanted : List A) → A → Type 0
  IsWanted wanted w = (k : A) → same w k ≡ true → holds same k wanted ≡ true

  All-map : {P Q : A → Type 0} (xs : List A) → ((a : A) → P a → Q a) → All P xs → All Q xs
  All-map [] f all = tt
  All-map (x ∷ xs) f all = (f x all.0, All-map xs f all.1)

  holds-cons : (a x : A) (xs : List A) → holds same a xs ≡ true → holds same a (x ∷ xs) ≡ true
  holds-cons a x xs h = ground arith

  holds-append_left :
      (a : A) (xs ys : List A) → holds same a xs ≡ true → holds same a (xs ++ ys) ≡ true
  holds-append_left a [] ys h = cc
  holds-append_left a (x ∷ xs) ys h = elim (Bool-cases (same a x)) [
    | inl e ↦ rw e refl
    | inr e ↦ rw e (holds-append_left a xs ys (ground arith))
  ]

  holds-append_right :
      (a : A) (xs ys : List A) → holds same a ys ≡ true → holds same a (xs ++ ys) ≡ true
  holds-append_right a [] ys h = h
  holds-append_right a (x ∷ xs) ys h = ground (arith, holds-append_right a xs ys h)

  keys-reconciled : (xs : List (Live A)) (ms : List A) → keys (xs ++ added ms) ≡ keys xs ++ ms
  keys-reconciled [] [] = refl
  keys-reconciled [] (m ∷ ms) = ap (λ ks. m ∷ ks) (keys-reconciled [] ms)
  keys-reconciled (x ∷ xs) ms = ap (λ ks. x.key ∷ ks) (keys-reconciled xs ms)

  holds-keep :
      (wanted : List A) (w : A) (live : List (Live A))
      → IsWanted wanted w
      → holds same w (keys live) ≡ true
      → holds same w (keys (keep wanted live)) ≡ true
  holds-keep wanted w [] is h = cc
  holds-keep wanted w (l ∷ live) is h = elim (Bool-cases (same w l.key)) [
    | inl e ↦ ground (arith, is l.key e)
    | inr e ↦ ground (arith, holds-keep wanted w live is)
  ]

  stale-added :
      (wanted ms : List A) → All (λ m. holds same m wanted ≡ true) ms → stale wanted (added ms) ≡ []
  unfolding stale
  stale-added wanted [] all = refl
  stale-added wanted (m ∷ ms) all = ground (arith, all.0, stale-added wanted ms all.1)

  All-missing :
      (P : A → Type 0) (present wanted : List A) → All P wanted → All P (missing present wanted)
  unfolding missing
  All-missing P present [] all = tt
  All-missing P present (w ∷ wanted) all = elim (Bool-cases (holds same w present)) [
    | inl e ↦ rw e (All-missing P present wanted all.1)
    | inr e ↦ rw e (all.0, All-missing P present wanted all.1)
  ]

  missing-nil :
      (present wanted : List A)
      → All (λ w. holds same w present ≡ true) wanted
      → missing present wanted ≡ []
  unfolding missing
  missing-nil present [] all = refl
  missing-nil present (w ∷ wanted) all = rw all.0 (missing-nil present wanted all.1)

module _ {A : Type 0} (same : A → A → Bool) (same_refl : (a : A) → same a a ≡ true)
    (same_comm : (a b : A) → same a b ≡ same b a) where
  IsWanted-IsWanted : (wanted : List A) → All (IsWanted same wanted) wanted
  IsWanted-IsWanted [] = tt
  IsWanted-IsWanted (w ∷ wanted) = (
    λ k h. ground (arith, same_comm w k),
    All-map same wanted (λ a is k h. holds-cons same k w wanted (is k h))
        (IsWanted-IsWanted wanted),
  )

  holds-insert :
      (a w : A) (xs ys : List A)
      → holds same a (xs ++ ys) ≡ true
      → holds same a (xs ++ w ∷ ys) ≡ true
  holds-insert a w [] ys h = ground arith
  holds-insert a w (x ∷ xs) ys h = ground (arith, holds-insert a w xs ys)

  -- What was live stays, and what was missing is added.
  holds-kept_and_missing :
      (present kept wanted : List A)
      → All (λ w. holds same w present ≡ true → holds same w kept ≡ true) wanted
      → All (λ w. holds same w (kept ++ missing same present wanted) ≡ true) wanted
  unfolding missing
  holds-kept_and_missing present kept [] stays = tt
  holds-kept_and_missing present kept (w ∷ wanted) stays =
      let rest = holds-kept_and_missing present kept wanted stays.1 in
      let ms = missing same present wanted in
      elim (Bool-cases (holds same w present)) [
        | inl e ↦
            let step : missing same present (w ∷ wanted) ≡ ms = rw e refl in
            subst (λ xs. All (λ v. holds same v (kept ++ xs) ≡ true) (w ∷ wanted)) (sym step)
              (holds-append_left same w kept ms (stays.0 e), rest)
        | inr e ↦
            let step : missing same present (w ∷ wanted) ≡ w ∷ ms = rw e refl in
            let own : holds same w (w ∷ ms) ≡ true = rw (same_refl w) refl in
            subst (λ xs. All (λ v. holds same v (kept ++ xs) ≡ true) (w ∷ wanted)) (sym step)
              (
                holds-append_right same w kept (w ∷ ms) own,
                All-map same wanted (λ v h. holds-insert v w kept ms h) rest,
              )
      ]

  -- Once the stale objects are deleted and the missing ones are added, no object is stale.
  pub stale-reconciled :
      (wanted : List A) (live : List (Live A))
      → stale same wanted (reconciled same wanted live) ≡ []
  unfolding reconciled
  stale-reconciled wanted live =
      let ms = missing same (keys same live) wanted in
      let found : All (λ m. holds same m wanted ≡ true) ms =
        All-missing same (λ m. holds same m wanted ≡ true) (keys same live) wanted
          (All-map same wanted (λ w is. is w (same_refl w)) (IsWanted-IsWanted wanted)) in
      stale-append same wanted (keep same wanted live) (added same ms)
      ∙ (ap (λ xs. xs ++ stale same wanted (added same ms)) (stale-keep same wanted live)
          ∙ stale-added same wanted ms found)

  -- And none is missing.
  pub missing-reconciled :
      (wanted : List A) (live : List (Live A))
      → missing same (keys same (reconciled same wanted live)) wanted ≡ []
  unfolding reconciled
  missing-reconciled wanted live =
      let ms = missing same (keys same live) wanted in
      let kept = keys same (keep same wanted live) in
      let stays =
        All-map same wanted (λ w is h. holds-keep same wanted w live is h)
          (IsWanted-IsWanted wanted) in
      missing-nil same _ wanted (
        subst (λ ks. All (λ w. holds same w ks ≡ true) wanted)
          (sym (keys-reconciled same (keep same wanted live) ms))
          (holds-kept_and_missing (keys same live) kept wanted stays))
