-- ===== src/Predicates/Split.antt =====
-- in_pseudorandom_split of dataset_toolkit/predicates.py divides a dataset.
use code_assist_analyzer.Prelude.{
  ℕ, zero, suc, ◌+◌, ◌<◌, Bool, true, false, not, ◌&&◌, List, [], ◌∷◌, All, length, take, get_elem?,
  some, String, string_eq, leb, if◌then◌else◌, ◌≡◌, refl, Result, ok, raise, ◌>>=◌, arith,
  Bool-cases, inl, inr, ◌∙◌, ap,
}
use code_assist_analyzer.Prelude.Dict.{Dict, get, has_key_of_get}
use code_assist_analyzer.Predicates.{
  Floats, sum_floats, high_borders_from, split_borders, string_to_bucket, in_pseudorandom_split,
  value_at,
}
use native.Mathlib.Nat.{zero-add}
use mathlib.Core.List.{foldl}

-- What the split relies on: the comparisons are opposite (no NaN), scaled zero is below every
-- bucket, and adding a fraction that is not negative does not lower a scaled sum.
pub record FloatLaws (floats : Floats) : Type 1 where
  pub IsFraction : floats.F → Type 0
  pub opposite :
      (x : floats.F) (bucket : ℕ) → floats.lt_bucket bucket x ≡ not (floats.le_bucket x bucket)
  pub zero_low : (bucket : ℕ) → floats.le_bucket (floats.scale floats.zero_f) bucket ≡ true
  pub grows :
      (x f : floats.F) (bucket : ℕ)
      → IsFraction f
      → floats.le_bucket (floats.scale (floats.add x f)) bucket ≡ true
      → floats.le_bucket (floats.scale x) bucket ≡ true

-- how many of `p 0`, ..., `p (n - 1)` are true
abbrev pub tally : (ℕ → Bool) → ℕ → ℕ
tally p zero = 0
tally p (suc n) = (if p 0 then 1 else 0) + tally (λ i. p (suc i)) n

tally-congr : (p q : ℕ → Bool) (n : ℕ) → ((i : ℕ) → i < n → p i ≡ q i) → tally p n ≡ tally q n
tally-congr p q zero h = refl
tally-congr p q (suc n) h =
    rw
      (
        h 0 (omega arith),
        tally-congr (λ i. p (suc i)) (λ i. q (suc i)) n (λ i k. h (suc i) (omega arith)),
      )
      refl

abbrev pub is_true : Result Bool → Bool
is_true (ok b) = b
is_true (raise e) = false

module _ (floats : Floats) where
  open floats use {F, zero_f, add, scale, le_bucket, lt_bucket}

  get_elem?-high_borders :
      (fs : List F) (i start n : ℕ)
      → i < n
      → get_elem? (high_borders_from floats fs start n) i
        ≡ some (sum_floats floats (take (suc (start + i)) fs))
  unfolding high_borders_from
  get_elem?-high_borders fs i start zero h = absurd (omega arith)
  get_elem?-high_borders fs zero start (suc n) h =
      ap (λ k. some (sum_floats floats (take k fs))) {x = suc start} {y = suc (start + 0)}
        (omega arith)
  get_elem?-high_borders fs (suc i) start (suc n) h =
      get_elem?-high_borders fs i (suc start) n (omega arith)
      ∙ ap (λ k. some (sum_floats floats (take k fs))) {x = suc (suc start + i)}
          {y = suc (start + suc i)} (omega arith)

  split_borders-sums :
      (fs : List F) (i : ℕ)
      → i < length fs
      → split_borders floats fs i
        ≡ ok (scale (sum_floats floats (take i fs)), scale (sum_floats floats (take (suc i) fs)))
  unfolding split_borders
  split_borders-sums fs zero h =
      let small : leb (length fs) 0 ≡ false = ground arith in
      rw (small, get_elem?-high_borders fs 0 0 (length fs) h) refl
  split_borders-sums fs (suc i) h =
      let small : leb (length fs) (suc i) ≡ false = ground arith in
      rw
        (
          small,
          get_elem?-high_borders fs i 0 (length fs) (omega arith),
          get_elem?-high_borders fs (suc i) 0 (length fs) h,
          zero-add,
          zero-add,
        )
        refl

  -- whether a bucket falls between the two borders of the subset `i`, the sums starting at `x`
  abbrev between : F → List F → ℕ → ℕ → Bool
  between x fs bucket i =
      le_bucket (scale (foldl add x (take i fs))) bucket
      && lt_bucket bucket (scale (foldl add x (take (suc i) fs)))

  module _ (laws : FloatLaws floats) where
    open laws use {IsFraction, opposite, grows, zero_low}

    below_every_sum :
        (x : F) (fs : List F) (bucket : ℕ)
        → All IsFraction fs
        → le_bucket (scale x) bucket ≡ false
        → le_bucket (scale (foldl add x fs)) bucket ≡ false
    below_every_sum x [] bucket h no_low = no_low
    below_every_sum x (f ∷ fs) bucket h no_low =
        below_every_sum (add x f) fs bucket h.1 (ground (arith, grows x f bucket h.0))

    tally-between_none :
        (x : F) (fs : List F) (bucket : ℕ)
        → All IsFraction fs
        → le_bucket (scale x) bucket ≡ false
        → tally (between x fs bucket) (length fs) ≡ 0
    tally-between_none x [] bucket h no_low = refl
    tally-between_none x (f ∷ fs) bucket h no_low =
        ground (arith, grows x f bucket h.0, tally-between_none (add x f) fs bucket h.1)

    tally-between :
        (x : F) (fs : List F) (bucket : ℕ)
        → All IsFraction fs
        → le_bucket (scale x) bucket ≡ true
        → tally (between x fs bucket) (length fs)
          ≡ (if lt_bucket bucket (scale (foldl add x fs)) then 1 else 0)
    tally-between x [] bucket h low = ground (arith, opposite (scale x) bucket)
    tally-between x (f ∷ fs) bucket h low = elim (Bool-cases (le_bucket (scale (add x f)) bucket)) [
      | inl above ↦
          rw (low, opposite (scale (add x f)) bucket, above, zero-add)
            (tally-between (add x f) fs bucket h.1 above)
      | inr below ↦
          rw
            (
              low,
              opposite (scale (add x f)) bucket,
              below,
              tally-between_none (add x f) fs bucket h.1 below,
              opposite (scale (foldl add (add x f) fs)) bucket,
              below_every_sum (add x f) fs bucket h.1 below,
            )
            refl
    ]

    module _ {V : Type 0} (md5 : V → ℕ) (maxsize : ℕ) where
      -- whether the predicate of the subset `i` includes a row
      abbrev pub selects : List F → String → Dict String V → ℕ → Bool
      selects fs field values i =
          is_true
            (in_pseudorandom_split floats md5 maxsize fs i field >>= (λ p. p.do_include values))

      selects-between :
          (fs : List F) (field : String) (values : Dict String V) (v : V) (i : ℕ)
          → get field values ≡ some v
          → i < length fs
          → selects fs field values i ≡ between zero_f fs (string_to_bucket floats md5 maxsize v) i
      unfolding in_pseudorandom_split sum_floats value_at
      selects-between fs field values v i found h =
          rw
            (
              in_pseudorandom_split,
              split_borders-sums fs i h,
              has_key_of_get field values found,
              value_at,
              found,
            )
            refl

      -- Every row that has the field belongs to at most one of the subsets of a split into fractions
      -- that are not negative, and to exactly one if its bucket lies below the sum of all the
      -- fractions, scaled: the number of subsets that include it is then 1, and 0 otherwise.
      pub split_selects_once :
          (fs : List F) (field : String) (values : Dict String V) (v : V)
          → All IsFraction fs
          → get field values ≡ some v
          → tally (selects fs field values) (length fs) ≡ (
              if lt_bucket (string_to_bucket floats md5 maxsize v) (scale (sum_floats floats fs))
              then 1
              else 0)
      unfolding sum_floats
      split_selects_once fs field values v h found =
          tally-congr _ _ (length fs) (λ i. selects-between fs field values v i found)
          ∙ tally-between zero_f fs (string_to_bucket floats md5 maxsize v) h
              (zero_low (string_to_bucket floats md5 maxsize v))
