-- ===== src/Predicates.antt =====
-- The row predicates of dataset_toolkit/predicates.py, over the base class PredicateBase of
-- dataset_toolkit/__init__.py. Hashing, numpy and floating-point numbers are parameters.
pub mod Logic
pub mod Split
pub mod LogSets
mod Tests
use code_assist_analyzer.Prelude.{
  ℕ, zero, suc, ◌+◌, ◌%◌, ◌≡◌, Bool, true, false, not, ◌&&◌, Option, none, some, List, [], ◌∷◌,
  ◌++◌, length, take, get_elem?, map, any, leb, if◌then◌else◌, String, Eq, ◌==◌, string_eq, Result,
  ok, raise, value_error, key_error, index_error, ◌>>=◌,
}
use code_assist_analyzer.Prelude.Dict.{Dict, get, has_key}
use code_assist_analyzer.Prelude.PySet.{contains, union}
use code_assist_analyzer.Prelude.Text.{split}
use mathlib.Core.List.{foldl}

-- An instance of a subclass of PredicateBase, by its two methods, over a row of values `V`.
pub record Predicate (V : Type 0) : Type 0 where
  pub get_fields : List String
  pub do_include : Dict String V → Result Bool

-- an argument that should be a predicate; `none` is an object of another class
abbrev pub PredicateArg : Type 0 → Type 0
PredicateArg V = Option (Predicate V)

module _ {V : Type 0} where
  -- `values[field]`
  unfoldable pub value_at : String → Dict String V → Result V
  value_at field values = elim (get field values) [ none ↦ raise key_error | some v ↦ ok v ]

  -- `[values[field] for field in fields]`
  pub values_at : List String → Dict String V → Result (List V)
  unfolding value_at
  values_at [] values = ok []
  values_at (field ∷ fields) values = do
    v ← value_at field values
    rest ← values_at fields values
    ok (v ∷ rest)

  -- `iterate` is what a value yields, if it is iterable; `in1d` is numpy's.
  pub in_intersection :
      (V → Option (List V)) → (List V → List V → List Bool) → List V → String → Predicate V
  unfolding value_at any
  in_intersection iterate in1d inclusion_values predicate_field = record {
    get_fields = predicate_field ∷ [];
    do_include = λ values. do
      v ← value_at predicate_field values
      elim (iterate v) [
        | none ↦ raise value_error
        | some vs ↦ ok (any (λ b. b) (in1d vs inclusion_values))
      ];
  }

  abbrev state_args : Option V → List V
  state_args none = []
  state_args (some state) = state ∷ []

  -- `predicate_fields` is `none` where the argument is no list.
  pub in_lambda : Option (List String) → (List V → Bool) → Option V → Result (Predicate V)
  unfolding values_at
  in_lambda none predicate_func state_arg = raise value_error
  in_lambda (some predicate_fields) predicate_func state_arg = ok (record {
    get_fields = predicate_fields;
    do_include = λ values. do
      args ← values_at predicate_fields values
      ok (predicate_func (args ++ state_args state_arg));
  })

  negated : Predicate V → Predicate V
  negated predicate = record {
    get_fields = predicate.get_fields;
    do_include = λ values. predicate.do_include values >>= (λ included. ok (not included));
  }

  pub in_negate : PredicateArg V → Result (Predicate V)
  unfolding negated
  in_negate none = raise value_error
  in_negate (some predicate) = ok (negated predicate)

  -- `[p.do_include(values) for p in predicate_list]`
  include_list : List (Predicate V) → Dict String V → Result (List Bool)
  include_list [] values = ok []
  include_list (p ∷ ps) values = do
    included ← p.do_include values
    rest ← include_list ps values
    ok (included ∷ rest)

  fields_of : List (Predicate V) → List String
  fields_of = foldl (λ fields p. union fields p.get_fields) []

  reduced : List (Predicate V) → (List Bool → Bool) → Predicate V
  unfolding include_list fields_of
  reduced predicate_list reduce_func = record {
    get_fields = fields_of predicate_list;
    do_include = λ values. do
      included ← include_list predicate_list values
      ok (reduce_func included);
  }

  -- the predicates of a list, if each of its members is one
  all_predicates : List (PredicateArg V) → Option (List (Predicate V))
  all_predicates [] = some []
  all_predicates (none ∷ ps) = none
  all_predicates (some p ∷ ps) = elim (all_predicates ps) [
    | none ↦ none
    | some rest ↦ some (p ∷ rest)
  ]

  pub in_reduce : List (PredicateArg V) → (List Bool → Bool) → Result (Predicate V)
  unfolding all_predicates reduced
  in_reduce predicate_list reduce_func = elim (all_predicates predicate_list) [
    | none ↦ raise value_error
    | some ps ↦ ok (reduced ps reduce_func)
  ]

module _ {V : Type 0} ⦃e : Eq V⦄ where
  pub in_set : List V → String → Predicate V
  unfolding value_at contains
  in_set inclusion_values predicate_field = record {
    get_fields = predicate_field ∷ [];
    do_include = λ values. do
      v ← value_at predicate_field values
      ok (contains v inclusion_values);
  }

-- Floating-point numbers, with what the split computes: sums, the product with
-- `sys.maxsize - 1`, and the two comparisons with an integer bucket.
pub record Floats : Type 1 where
  pub F : Type 0
  pub zero_f : F
  pub add : F → F → F
  pub scale : F → F
  pub le_bucket : F → ℕ → Bool  -- `low <= bucket`
  pub lt_bucket : ℕ → F → Bool  -- `bucket < high`

module _ (floats : Floats) where
  open floats use {F, zero_f, add, scale, le_bucket, lt_bucket}

  -- `sum(l)`
  pub sum_floats : List F → F
  sum_floats = foldl add zero_f

  -- `[sum(fraction_list[:i + 1]) for i in xrange(len(fraction_list))]`, from index `i`
  pub high_borders_from : List F → ℕ → ℕ → List F
  unfolding sum_floats
  high_borders_from fraction_list i zero = []
  high_borders_from fraction_list i (suc n) =
      sum_floats (take (suc i) fraction_list) ∷ high_borders_from fraction_list (suc i) n

  abbrev border_below : List F → ℕ → Option F
  border_below borders zero = some zero_f
  border_below borders (suc i) = get_elem? borders i

  -- the constructor: the two borders of the subset
  pub split_borders : List F → ℕ → Result (F × F)
  unfolding high_borders_from
  split_borders fraction_list subset_index =
      if leb (length fraction_list) subset_index
      then raise value_error
      else (let borders = high_borders_from fraction_list 0 (length fraction_list) in
          elim (border_below borders subset_index) [
            | none ↦ raise index_error
            | some low ↦ elim (get_elem? borders subset_index) [
              | none ↦ raise index_error
              | some high ↦ ok (scale low, scale high)
            ]
          ])

  module _ {V : Type 0} (md5 : V → ℕ) (maxsize : ℕ) where
    -- `_string_to_bucket(string, sys.maxsize)`
    pub string_to_bucket : V → ℕ
    string_to_bucket string = md5 string % maxsize

    pub in_pseudorandom_split : List F → ℕ → String → Result (Predicate V)
    unfolding split_borders string_to_bucket value_at
    in_pseudorandom_split fraction_list subset_index predicate_field = do
      (low, high) ← split_borders fraction_list subset_index
      ok (record {
        get_fields = predicate_field ∷ [];
        do_include = λ values.
            if has_key predicate_field values
            then (do
              v ← value_at predicate_field values
              ok (le_bucket low (string_to_bucket v) && lt_bucket (string_to_bucket v) high))
            else raise value_error;
      })
