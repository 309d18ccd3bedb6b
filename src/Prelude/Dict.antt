-- ===== src/Prelude/Dict.antt =====
-- Python's `dict` as an association list in insertion order, over keys with `==`.
use mathlib.Core.Path.{◌≡◌, refl, ◌∙◌}
use mathlib.Core.Logic.{inl, inr}
use mathlib.Core.Bool.{Bool, true, false, ◌||◌}
use mathlib.Core.Option.{Option, none, some}
use mathlib.Core.List.{List, [], ◌∷◌, map}
use native.Mathlib.Omega.{arith}
use code_assist_analyzer.Prelude.Tests.{if◌then◌else◌, Bool-cases}
use code_assist_analyzer.Prelude.Equality.{Eq, ◌==◌}

abbrev pub Dict {ℓ} : Type ℓ → Type ℓ → Type ℓ
Dict K V = List (K × V)

module _ {ℓ} {K V : Type ℓ} where
  abbrev pub keys : Dict K V → List K
  keys = map (λ e. e.0)

  abbrev pub values : Dict K V → List V
  values = map (λ e. e.1)

module _ {ℓ} {K V : Type ℓ} ⦃e : Eq K⦄ where
  -- `d.get(k)`
  unfoldable pub get : K → Dict K V → Option V
  get k [] = none
  get k ((j, v) ∷ d) = if j == k then some v else get k d

  -- `k in d`
  unfoldable pub has_key : K → Dict K V → Bool
  has_key k [] = false
  has_key k ((j, v) ∷ d) = (j == k) || has_key k d

  -- `d[k] = v`
  unfoldable pub put : K → V → Dict K V → Dict K V
  put k v [] = (k, v) ∷ []
  put k v ((j, w) ∷ d) = if j == k then (j, v) ∷ d else (j, w) ∷ put k v d

  -- `d.update(other)`
  unfoldable pub update : Dict K V → Dict K V → Dict K V
  update d [] = d
  update d ((k, v) ∷ other) = update (put k v d) other

  pub get-put :
      (k j : K) (v : V) (d : Dict K V) → get j (put k v d) ≡ (if k == j then some v else get j d)
  unfolding get put
  get-put k j v [] = refl
  get-put k j v ((i, w) ∷ d) =
      ground (arith, e.same_iff i k, e.same_iff i j, e.same_iff k j, get-put k j v d)

  pub has_key-put :
      (k j : K) (v : V) (d : Dict K V) → has_key j (put k v d) ≡ ((k == j) || has_key j d)
  unfolding has_key put
  has_key-put k j v [] = refl
  has_key-put k j v ((i, w) ∷ d) =
      ground (arith, e.same_iff i k, e.same_iff i j, e.same_iff k j, has_key-put k j v d)

  pub get_of_has_key : (k : K) (d : Dict K V) → has_key k d ≡ true → (v : V) × (get k d ≡ some v)
  unfolding has_key get
  get_of_has_key k [] h = cc
  get_of_has_key k ((j, v) ∷ d) h = elim (Bool-cases (j == k)) [
    | inl same ↦ (v, rw same)
    | inr other ↦ rw other (get_of_has_key k d (ground arith))
  ]

  pub get_of_not_has_key : (k : K) (d : Dict K V) → has_key k d ≡ false → get k d ≡ none
  unfolding has_key get
  get_of_not_has_key k [] h = refl
  get_of_not_has_key k ((j, v) ∷ d) h = ground (arith, get_of_not_has_key k d)

  pub has_key_of_get : (k : K) (d : Dict K V) {v : V} → get k d ≡ some v → has_key k d ≡ true
  unfolding has_key get
  has_key_of_get k [] h = cc
  has_key_of_get k ((j, w) ∷ d) {v} h = ground (arith, has_key_of_get k d {v = v})

  -- no key stands twice
  abbrev pub Distinct : Dict K V → Type 0
  Distinct [] = Unit
  Distinct ((k, v) ∷ d) = (has_key k d ≡ false) × Distinct d

  pub put-Distinct : (k : K) (v : V) (d : Dict K V) → Distinct d → Distinct (put k v d)
  unfolding has_key put
  put-Distinct k v [] h = (refl, tt)
  put-Distinct k v ((j, w) ∷ d) h = elim (Bool-cases (j == k)) [
    | inl same ↦ rw same h
    | inr other ↦ rw other (
      has_key-put k j v d ∙ ground (arith, e.same_iff j k, e.same_iff k j, h.0),
      put-Distinct k v d h.1,
    )
  ]
