-- ===== src/Prelude/PySet.antt =====
-- Python's `set` as a list without repeats, over elements with `==`.
use mathlib.Core.Path.{◌≡◌, ap, subst}
use mathlib.Core.Bool.{Bool, true, false, ◌||◌, ◌&&◌}
use mathlib.Core.Logic.{inl, inr}
use mathlib.Core.List.{List, [], ◌∷◌}
use native.Mathlib.Omega.{arith}
use code_assist_analyzer.Prelude.Tests.{if◌then◌else◌, Bool-cases}
use code_assist_analyzer.Prelude.Lists.{filter}
use code_assist_analyzer.Prelude.Equality.{Eq, ◌==◌}

module _ {ℓ} {A : Type ℓ} ⦃e : Eq A⦄ where
  -- `a in s`
  unfoldable pub contains : A → List A → Bool
  contains a [] = false
  contains a (x ∷ xs) = (x == a) || contains a xs

  -- `s.add(a)`
  unfoldable pub add : A → List A → List A
  unfolding contains
  add a xs = if contains a xs then xs else a ∷ xs

  -- `s | t`, `s.update(t)`
  unfoldable pub union : List A → List A → List A
  unfolding add
  union xs [] = xs
  union xs (y ∷ ys) = union (add y xs) ys

  -- `s - t`
  unfoldable pub difference : List A → List A → List A
  difference xs ys = filter (λ x. if contains x ys then false else true) xs

  pub contains-add : (a b : A) (xs : List A) → contains b (add a xs) ≡ ((a == b) || contains b xs)
  unfolding contains add
  contains-add a b xs = ground (arith, contains_of_eq a b xs)
    where
      contains_of_eq :
          (x y : A) (zs : List A) → contains x zs ≡ true → (x == y) ≡ true → contains y zs ≡ true
      contains_of_eq x y zs h p = subst (λ z. contains z zs ≡ true) ((e.same_iff x y).0 p) h

  pub contains-union :
      (a : A) (xs ys : List A) → contains a (union xs ys) ≡ (contains a xs || contains a ys)
  unfolding union contains
  contains-union a xs [] = ground arith
  contains-union a xs (y ∷ ys) = ground (arith, contains-union a (add y xs) ys, contains-add y a xs)

  pub contains-filter :
      (p : A → Bool) (a : A) (xs : List A) → contains a (filter p xs) ≡ (p a && contains a xs)
  unfolding contains filter
  contains-filter p a [] = ground arith
  contains-filter p a (x ∷ xs) = elim (Bool-cases (x == a)) [
    | inl same ↦ ground (arith, contains-filter p a xs, ap p ((e.same_iff x a).0 same))
    | inr other ↦ ground (arith, contains-filter p a xs)
  ]

  pub contains-difference :
      (a : A) (xs ys : List A)
      → contains a (difference xs ys) ≡ ((if contains a ys then false else true) && contains a xs)
  unfolding difference
  contains-difference a xs ys = contains-filter (λ x. if contains x ys then false else true) a xs
