-- ===== src/TfUtils/Sequences.antt =====
-- What `_flatten` makes of a sequence, `make_namedtuple_tf_sequence` makes the sequence of again
-- (dataset_toolkit/tf_utils.py).
use code_assist_analyzer.Prelude.{
  ℕ, suc, ◌+◌, ◌*◌, false, ◌||◌, List, [], ◌∷◌, ◌++◌, all, All, length, length-map, length-append,
  take, drop, take-append, drop-append, String, string_eq, ◌==◌, ==-sym, ◌≡◌, refl, sym, ap, subst,
  ◌∙◌, inl, inr, arith, append-assoc_lem, ok, ◌>>=◌, >>=-of_ok, Bool-cases,
}
use code_assist_analyzer.Prelude.Dict.{Dict, keys, values, get, has_key, Distinct}
use code_assist_analyzer.Prelude.PySet.{contains}
use code_assist_analyzer.Prelude.Sorted.{insert_by, sort_by, not_after}
use code_assist_analyzer.Sequence.{Sequence, enumerate_from}
use code_assist_analyzer.TfUtils.{
  flatten, tuple_names, named, make_namedtuple, make_timesteps, make_namedtuple_tf_sequence,
}
use code_assist_analyzer.TfUtils.Names.{Apart, all_values, values-flatten}
use code_assist_analyzer.Unischema.{Unischema}

abbrev sorted : List String → List String
sorted = sort_by (λ name. name)

abbrev inserted : String → List String → List String
inserted = insert_by (λ name. name)

contains-inserted :
    (z x : String) (xs : List String) → contains z (inserted x xs) ≡ ((x == z) || contains z xs)
unfolding contains insert_by
contains-inserted z x [] = refl
contains-inserted z x (y ∷ xs) = elim (Bool-cases (not_after x y)) [
  | inl first ↦ rw first refl
  | inr later ↦ rw later (ground (arith, contains-inserted z x xs))
]

contains-sorted : (z : String) (xs : List String) → contains z (sorted xs) ≡ contains z xs
unfolding contains sort_by
contains-sorted z [] = refl
contains-sorted z (x ∷ xs) =
    contains-inserted z x (sorted xs) ∙ ap (λ b. (x == z) || b) (contains-sorted z xs)

inserted-Apart :
    (x : String) (xs : List String) → contains x xs ≡ false → Apart xs → Apart (inserted x xs)
unfolding contains insert_by
inserted-Apart x [] new apart = (refl, tt)
inserted-Apart x (y ∷ xs) new apart = elim (Bool-cases (not_after x y)) [
  | inl first ↦ rw first (new, apart)
  | inr later ↦ rw later (
    contains-inserted y x xs ∙ ground (arith, ==-sym x y),
    inserted-Apart x xs (ground arith) apart.1,
  )
]

sorted-Apart : (xs : List String) → Apart xs → Apart (sorted xs)
unfolding sort_by
sorted-Apart [] apart = tt
sorted-Apart (x ∷ xs) apart =
    inserted-Apart x (sorted xs) (contains-sorted x xs ∙ apart.0) (sorted-Apart xs apart.1)

length-inserted : (x : String) (xs : List String) → length (inserted x xs) ≡ suc (length xs)
unfolding insert_by
length-inserted x [] = refl
length-inserted x (y ∷ xs) = elim (Bool-cases (not_after x y)) [
  | inl first ↦ rw first refl
  | inr later ↦ rw later (ap suc (length-inserted x xs))
]

length-sorted : (xs : List String) → length (sorted xs) ≡ length xs
unfolding sort_by
length-sorted [] = refl
length-sorted (x ∷ xs) = length-inserted x (sorted xs) ∙ ap suc (length-sorted xs)

contains-keys : {V : Type 0} (k : String) (d : Dict String V) → contains k (keys d) ≡ has_key k d
unfolding contains has_key
contains-keys k [] = refl
contains-keys k ((j, v) ∷ d) = ap (λ b. (j == k) || b) (contains-keys k d)

pub keys-Apart : {V : Type 0} (d : Dict String V) → Distinct d → Apart (keys d)
keys-Apart [] h = tt
keys-Apart ((k, v) ∷ d) h = (contains-keys k d ∙ h.0, keys-Apart d h.1)

named-values : {V : Type 0} (row : Dict String V) → named (keys row) (values row) [] ≡ ok row
unfolding named has_key
named-values [] = refl
named-values ((k, v) ∷ row) = ap (λ r. r >>= (λ others. ok ((k, v) ∷ others))) (named-values row)

pub tuple_names-Apart :
    {Codec : Type 0} (schema : Unischema Codec)
    → Distinct schema.fields
    → Apart (tuple_names schema)
unfolding tuple_names
tuple_names-Apart schema distinct =
    sorted-Apart (keys schema.fields) (keys-Apart schema.fields distinct)

module _ {Codec V : Type 0} (schema : Unischema Codec) where
  pub make_namedtuple-values :
      (row : Dict String V)
      → keys row ≡ tuple_names schema
      → make_namedtuple (tuple_names schema) (values row) [] ≡ ok row
  unfolding make_namedtuple all
  make_namedtuple-values row e =
      ap (λ names. named names (values row) []) (sym e) ∙ named-values row

  length-values :
      (row : Dict String V)
      → keys row ≡ tuple_names schema
      → length (values row) ≡ length schema.fields
  unfolding tuple_names
  length-values row e = omega (
    arith,
    length-map (λ e'. e'.1) row,
    length-map (λ e'. e'.0) row,
    ap length e,
    length-sorted (keys schema.fields),
    length-map (λ e'. e'.0) schema.fields,
  )

  slice :
      (row : Dict String V) (before after : List V) (n : ℕ)
      → keys row ≡ tuple_names schema
      → length before ≡ n
      → take (length schema.fields) (drop n (before ++ (values row ++ after))) ≡ values row
  slice row before after n e h =
      ap (λ k. take (length schema.fields) (drop k (before ++ (values row ++ after)))) (sym h)
      ∙ ap (take (length schema.fields)) (drop-append before (values row ++ after))
      ∙ ap (λ k. take k (values row ++ after)) (sym (length-values row e))
      ∙ take-append (values row) after

  next_timestep :
      (row : Dict String V) (before : List V) (timestep : ℕ)
      → keys row ≡ tuple_names schema
      → length before ≡ timestep * length schema.fields
      → length (before ++ values row) ≡ (timestep + 1) * length schema.fields
  next_timestep row before timestep e h =
      grind (arith, length-append before (values row), length-values row e)

  pub make_timesteps-all_values :
      (rows : List (Dict String V)) (timestep : ℕ) (before : List V)
      → length before ≡ timestep * length schema.fields
      → All (λ row. keys row ≡ tuple_names schema) rows
      → make_timesteps schema timestep (length rows) (before ++ all_values rows) []
        ≡ ok (enumerate_from timestep rows)
  unfolding make_timesteps enumerate_from get
  make_timesteps-all_values [] timestep before h rows_named = refl
  make_timesteps-all_values (row ∷ rows) timestep before h rows_named =
      let after = all_values rows in
      let args = before ++ (values row ++ after) in
      >>=-of_ok
        (make_namedtuple (tuple_names schema)
          (take (length schema.fields) (drop (timestep * length schema.fields) args)) [])
        _
        (ap (λ vs. make_namedtuple (tuple_names schema) vs [])
            (slice row before after (timestep * length schema.fields) rows_named.0 h)
          ∙ make_namedtuple-values row rows_named.0)
        (>>=-of_ok (make_timesteps schema (timestep + 1) (length rows) args []) _
          (ap (λ vs. make_timesteps schema (timestep + 1) (length rows) vs [])
              (sym (append-assoc_lem before (values row) after))
            ∙ make_timesteps-all_values rows (timestep + 1) (before ++ values row)
                (next_timestep row before timestep rows_named.0 h) rows_named.1)
          (ap (λ k. ok ((timestep, row) ∷ enumerate_from k rows)) {x = timestep + 1} (omega arith)))

  rows-Apart :
      Distinct schema.fields
      → (rows : List (Dict String V)) → All (λ row. keys row ≡ tuple_names schema) rows
      → All (λ row. Apart (keys row)) rows
  unfolding tuple_names
  rows-Apart distinct [] rows_named = tt
  rows-Apart distinct (row ∷ rows) rows_named = (
    subst Apart (sym rows_named.0) (tuple_names-Apart schema distinct),
    rows-Apart distinct rows rows_named.1,
  )

  -- A sequence of rows, which are named tuples of the schema, is flattened to one tuple and taken as
  -- positional arguments. The result is the sequence again, each row under its timestep. No field of the
  -- schema has the name of another.
  pub make_namedtuple_tf_sequence-flatten :
      (sequence : Sequence) (rows : List (Dict String V))
      → Distinct schema.fields
      → length rows ≡ sequence.length
      → All (λ row. keys row ≡ tuple_names schema) rows
      → make_namedtuple_tf_sequence schema sequence (values (flatten (enumerate_from 0 rows))) []
        ≡ ok (enumerate_from 0 rows)
  unfolding make_namedtuple_tf_sequence tuple_names
  make_namedtuple_tf_sequence-flatten sequence rows distinct complete rows_named =
      let apart = rows-Apart distinct rows rows_named in
      ap (λ vs. make_timesteps schema 0 sequence.length vs []) (values-flatten rows apart)
      ∙ ap (λ n. make_timesteps schema 0 n (all_values rows) []) (sym complete)
      ∙ make_timesteps-all_values rows 0 [] (omega arith) rows_named
