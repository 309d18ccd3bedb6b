-- ===== src/Prelude/Sorted.antt =====
-- Python's stable `sorted` with a text as the key.
use Prim.Native.String.{String, compare}
use Prim.Native.Nat.{Ordering}
use mathlib.Core.Path.{◌≡◌, refl, ap, sym, ◌∙◌}
use mathlib.Core.Bool.{Bool, true, false, ◌||◌}
use mathlib.Core.Logic.{inl, inr}
use mathlib.Core.List.{List, [], ◌∷◌}
use mathlib.Core.Option.{Option, none, some}
use text.Mathlib.Text.{is_eq}
use code_assist_analyzer.Prelude.Equality.{string_eq, ◌==◌, ==-cases}
use native.Mathlib.Omega.{arith}
use code_assist_analyzer.Prelude.Tests.{if◌then◌else◌, Bool-cases}
use code_assist_analyzer.Prelude.Lists.{any}

abbrev pub not_after : String → String → Bool
not_after s t = elim (compare s t) [ Ordering.lt ↦ true | Ordering.eq ↦ true | Ordering.gt ↦ false ]

module _ {ℓ} {A : Type ℓ} (key : A → String) where
  unfoldable pub insert_by : A → List A → List A
  insert_by x [] = x ∷ []
  insert_by x (y ∷ ys) = if not_after (key x) (key y) then x ∷ y ∷ ys else y ∷ insert_by x ys

  -- `sorted(xs, key=key)`
  unfoldable pub sort_by : List A → List A
  sort_by [] = []
  sort_by (x ∷ xs) = insert_by x (sort_by xs)

  any-insert_by : (p : A → Bool) (x : A) (xs : List A) → any p (insert_by x xs) ≡ (p x || any p xs)
  unfolding any insert_by
  any-insert_by p x [] = refl
  any-insert_by p x (y ∷ ys) = elim (Bool-cases (not_after (key x) (key y))) [
    | inl first ↦ rw (insert_by, first) refl
    | inr later ↦ rw (insert_by, later) (ground (arith, any-insert_by p x ys))
  ]

  pub any-sort_by : (p : A → Bool) (xs : List A) → any p (sort_by xs) ≡ any p xs
  unfolding any sort_by
  any-sort_by p [] = refl
  any-sort_by p (x ∷ xs) = any-insert_by p x (sort_by xs) ∙ ap (λ b. p x || b) (any-sort_by p xs)

-- a text is not after itself
not_after-same : (s t : String) → (s == t) ≡ true → not_after s t ≡ true
not_after-same s t h = by_order (compare s t) h
  where
    by_order :
        (o : Ordering)
        → is_eq o ≡ true
        → (elim o [ Ordering.lt ↦ true | Ordering.eq ↦ true | Ordering.gt ↦ false ]) ≡ true
    by_order Ordering.lt h = refl
    by_order Ordering.eq h = refl
    by_order Ordering.gt h = cc

module _ {ℓ} {A : Type ℓ} (key : A → String) where
  -- the element that was found, or this one if it has the key
  abbrev pub or_this : String → A → Option A → Option A
  or_this n x (some y) = some y
  or_this n x none = if key x == n then some x else none

  -- the last element with this key
  unfoldable pub last_with : String → List A → Option A
  last_with n [] = none
  last_with n (x ∷ xs) = or_this n x (last_with n xs)

  or_this-other : (n : String) (x : A) (o : Option A) → (key x == n) ≡ false → or_this n x o ≡ o
  or_this-other n x (some z) h = refl
  or_this-other n x none h = rw h refl

  or_this-swap :
      (n : String) (x y : A) (o : Option A)
      → not_after (key x) (key y) ≡ false
      → or_this n y (or_this n x o) ≡ or_this n x (or_this n y o)
  or_this-swap n x y (some z) later = refl
  or_this-swap n x y none later = elim (==-cases (key x) n) [
    | inr (_, h) ↦
        ap (or_this n y) (or_this-other n x none h) ∙ sym (or_this-other n x (or_this n y none) h)
    | inl (same, _) ↦ elim (==-cases (key y) n) [
      | inr (_, h) ↦
          or_this-other n y (or_this n x none) h ∙ ap (or_this n x) (sym (or_this-other n y none h))
      | inl (same', _) ↦
          let equal = (string_eq.same_iff (key x) (key y)).1 (same ∙ sym same') in
          absurd (false_true (sym later ∙ not_after-same (key x) (key y) equal))
    ]
  ]
    where
      false_true : false ≡ true → ⊥
      false_true e = cc

  -- The sort is stable: the last element with a key stays the last.
  last_with-insert_by :
      (n : String) (x : A) (xs : List A) → last_with n (insert_by key x xs) ≡ last_with n (x ∷ xs)
  unfolding last_with insert_by
  last_with-insert_by n x [] = refl
  last_with-insert_by n x (y ∷ xs) = elim (Bool-cases (not_after (key x) (key y))) [
    | inl first ↦ rw (insert_by, first) refl
    | inr later ↦
        rw (insert_by, later)
          (ap (or_this n y) (last_with-insert_by n x xs)
            ∙ or_this-swap n x y (last_with n xs) later)
  ]

  pub last_with-sort_by : (n : String) (xs : List A) → last_with n (sort_by key xs) ≡ last_with n xs
  unfolding last_with sort_by
  last_with-sort_by n [] = refl
  last_with-sort_by n (x ∷ xs) =
      last_with-insert_by n x (sort_by key xs) ∙ ap (or_this n x) (last_with-sort_by n xs)
