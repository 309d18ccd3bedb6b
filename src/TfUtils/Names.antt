-- ===== src/TfUtils/Names.antt =====
-- The names of the flattened fields are all different, so that `_flatten` keeps every value
-- (dataset_toolkit/tf_utils.py).
use code_assist_analyzer.Prelude.{
  ℕ, suc, ◌≤◌, true, false, ◌||◌, List, [], ◌∷◌, ◌++◌, All, string_eq, ==-cases, ==-refl, ◌≡◌, ◌≢◌,
  refl, sym, ap, ◌∙◌, inl, inr, arith, String, append-assoc_lem, append-nil_lem,
}
use code_assist_analyzer.Prelude.Dict.{Dict, keys, values, has_key, put}
use code_assist_analyzer.Prelude.Numerals.{str, join-str-injective}
use code_assist_analyzer.Prelude.PySet.{contains}
use code_assist_analyzer.Prelude.Text.{join}
use code_assist_analyzer.Sequence.{enumerate_from}
use code_assist_analyzer.TfUtils.{flatten_fields, flatten_from, flatten}

abbrev encoded_key : String → ℕ → String
encoded_key subkey key = join (subkey ∷ "_" ∷ str key ∷ [])

encoded_key-injective :
    (s s' : String) (k k' : ℕ) → encoded_key s k ≡ encoded_key s' k' → (s ≡ s') × (k ≡ k')
encoded_key-injective = join-str-injective

-- no name stands twice
abbrev pub Apart : List String → Type 0
Apart [] = Unit
Apart (name ∷ names) = (contains name names ≡ false) × Apart names

module _ {V : Type 0} where
  abbrev suffixed : ℕ → Dict String V → Dict String V
  suffixed key [] = []
  suffixed key ((subkey, v) ∷ row) = (encoded_key subkey key, v) ∷ suffixed key row

  abbrev suffixed_rows : ℕ → List (Dict String V) → Dict String V
  suffixed_rows key [] = []
  suffixed_rows key (row ∷ rows) = suffixed key row ++ suffixed_rows (suc key) rows

  put_fresh :
      (k : String) (v : V) (d : Dict String V) → has_key k d ≡ false → put k v d ≡ d ++ (k, v) ∷ []
  unfolding put has_key
  put_fresh k v [] h = refl
  put_fresh k v ((j, w) ∷ d) h = elim (==-cases j k) [
    | inl (same, e) ↦ ground arith
    | inr (different, e) ↦ rw e (ap (◌∷◌ (j, w)) (put_fresh k v d (ground arith)))
  ]

  has_key-append :
      (k : String) (d d' : Dict String V) → has_key k (d ++ d') ≡ (has_key k d || has_key k d')
  unfolding has_key
  has_key-append k [] d' = refl
  has_key-append k ((j, w) ∷ d) d' = ground (arith, has_key-append k d d')

  suffixed-fresh :
      (row : Dict String V) (key : ℕ) (s : String) (j : ℕ)
      → key ≢ j
      → has_key (encoded_key s j) (suffixed key row) ≡ false
  unfolding has_key
  suffixed-fresh [] key s j h = refl
  suffixed-fresh ((subkey, v) ∷ row) key s j h =
      elim (==-cases (encoded_key subkey key) (encoded_key s j)) [
        | inl (same, e) ↦ absurd (h (encoded_key-injective subkey s key j same).1)
        | inr (different, e) ↦ rw e (suffixed-fresh row key s j h)
      ]

  still_fresh :
      (key : ℕ) (subkey s : String) (v : V) (d : Dict String V) (names : List String)
      → contains subkey names ≡ false
      → contains s names ≡ true
      → has_key (encoded_key s key) d ≡ false
      → has_key (encoded_key s key) (d ++ (encoded_key subkey key, v) ∷ []) ≡ false
  unfolding has_key
  still_fresh key subkey s v d names outside inside fresh =
      elim (==-cases (encoded_key subkey key) (encoded_key s key)) [
        | inl (same, e) ↦
            let (name, number) = encoded_key-injective subkey s key key same in
            absurd (cc (sym outside ∙ ap (λ n. contains n names) name ∙ inside))
        | inr (different, e) ↦
            rw (has_key-append (encoded_key s key) d ((encoded_key subkey key, v) ∷ []), e, fresh)
              refl
      ]

  flatten_fields-append :
      (key : ℕ) (row d : Dict String V)
      → Apart (keys row)
      → ((s : String) → contains s (keys row) ≡ true → has_key (encoded_key s key) d ≡ false)
      → flatten_fields key row d ≡ d ++ suffixed key row
  unfolding flatten_fields contains
  flatten_fields-append key [] d apart fresh = sym (append-nil_lem d)
  flatten_fields-append key ((subkey, v) ∷ row) d apart fresh =
      ap (flatten_fields key row)
        (put_fresh (encoded_key subkey key) v d (fresh subkey (rw (==-refl subkey) refl)))
      ∙ flatten_fields-append key row _ apart.1 (λ s inside.
        still_fresh key subkey s v d (keys row) apart.0 inside (fresh s (ground arith)))
      ∙ append-assoc_lem d _ (suffixed key row)

  flatten_from-append :
      (key : ℕ) (rows : List (Dict String V)) (d : Dict String V)
      → All (λ row. Apart (keys row)) rows
      → ((s : String) (j : ℕ) → key ≤ j → has_key (encoded_key s j) d ≡ false)
      → flatten_from (enumerate_from key rows) d ≡ d ++ suffixed_rows key rows
  unfolding flatten_from enumerate_from
  flatten_from-append key [] d apart fresh = sym (append-nil_lem d)
  flatten_from-append key (row ∷ rows) d apart fresh =
      ap (flatten_from (enumerate_from (suc key) rows))
        (flatten_fields-append key row d apart.0 (λ s inside. fresh s key (ground arith)))
      ∙ flatten_from-append (suc key) rows (d ++ suffixed key row) apart.1 (λ s j later.
        rw
          (
            has_key-append (encoded_key s j) d (suffixed key row),
            fresh s j (omega arith),
            suffixed-fresh row key s j (omega arith),
          )
          refl)
      ∙ append-assoc_lem d (suffixed key row) (suffixed_rows (suc key) rows)

  -- the values of the rows, one row after the other
  abbrev pub all_values : List (Dict String V) → List V
  all_values [] = []
  all_values (row ∷ rows) = values row ++ all_values rows

  values-append : (d d' : Dict String V) → values (d ++ d') ≡ values d ++ values d'
  values-append [] d' = refl
  values-append ((k, v) ∷ d) d' = ap (◌∷◌ v) (values-append d d')

  values-suffixed : (key : ℕ) (row : Dict String V) → values (suffixed key row) ≡ values row
  values-suffixed key [] = refl
  values-suffixed key ((k, v) ∷ row) = ap (◌∷◌ v) (values-suffixed key row)

  values-suffixed_rows :
      (key : ℕ) (rows : List (Dict String V)) → values (suffixed_rows key rows) ≡ all_values rows
  values-suffixed_rows key [] = refl
  values-suffixed_rows key (row ∷ rows) =
      values-append (suffixed key row) (suffixed_rows (suc key) rows)
      ∙ ap (λ vs. vs ++ values (suffixed_rows (suc key) rows)) (values-suffixed key row)
      ∙ ap (◌++◌ (values row)) (values-suffixed_rows (suc key) rows)

  -- The flattened tuple has the values of all rows.
  pub values-flatten :
      (rows : List (Dict String V))
      → All (λ row. Apart (keys row)) rows
      → values (flatten (enumerate_from 0 rows)) ≡ all_values rows
  unfolding flatten has_key
  values-flatten rows apart =
      ap values (flatten_from-append 0 rows [] apart (λ s j h. refl)) ∙ values-suffixed_rows 0 rows
