-- ===== src/TfUtils/Dequeued.antt =====
-- The values that a sequence brings to tensorflow have the declared types, timestep after timestep
-- (dataset_toolkit/tf_utils.py).
use code_assist_analyzer.Prelude.{
  ℕ, suc, Option, some, List, [], ◌∷◌, ◌++◌, map, All, length, String, string_eq, ◌≡◌, refl, sym,
  ap, ◌∙◌, subst, ok, >>=-of_ok, >>=-eq-ok, ok-injective, Result,
}
use code_assist_analyzer.Prelude.Dict.{Dict, keys, values, Distinct}
use code_assist_analyzer.Sequence.{Sequence, enumerate_from}
use code_assist_analyzer.TfUtils.{
  TfDtype, numpy_to_tf_dtypes, Value, Casts, dtypes_of, dtypes_of_timesteps,
  schema_to_tf_dtypes_sequence, sanitize_field_tf_types, sanitize_timesteps, dequeue_sample_impl,
  flatten,
}
use code_assist_analyzer.TfUtils.Names.{Apart, all_values, values-flatten}
use code_assist_analyzer.TfUtils.Sequences.{keys-Apart}
use code_assist_analyzer.TfUtils.Types.{common_types, tensor_dtype, Matches, sanitized}
use code_assist_analyzer.Unischema.{Unischema, UnischemaField}

map-append : {A B : Type 0} (f : A → B) (xs ys : List A) → map f (xs ++ ys) ≡ map f xs ++ map f ys
map-append f [] ys = refl
map-append f (x ∷ xs) ys = ap (◌∷◌ (f x)) (map-append f xs ys)

-- the types of the fields stand before the others
dtypes_of-append :
    {Codec : Type 0} (fields : Dict String (UnischemaField Codec)) (rest : Result (List TfDtype))
    {dtypes : List TfDtype}
    → dtypes_of fields rest ≡ ok dtypes
    → (own : List TfDtype) × (tail : List TfDtype) × (dtypes_of fields (ok []) ≡ ok own)
      × (rest ≡ ok tail)
      × (dtypes ≡ own ++ tail)
unfolding dtypes_of
dtypes_of-append [] rest {dtypes} h = ([], dtypes, refl, h, refl)
dtypes_of-append ((name, field) ∷ fields) rest h =
    let (dtype, known, h') = >>=-eq-ok (numpy_to_tf_dtypes field.numpy_dtype) _ h in
    let (dtypes, done, end) = >>=-eq-ok (dtypes_of fields rest) _ h' in
    let (own, tail, of_own, of_rest, e) = dtypes_of-append fields rest done in
    (
      dtype ∷ own,
      tail,
      >>=-of_ok (numpy_to_tf_dtypes field.numpy_dtype) _ known
          (>>=-of_ok (dtypes_of fields (ok [])) _ of_own refl),
      of_rest,
      sym (ok-injective end) ∙ ap (◌∷◌ dtype) e,
    )

module _ {Codec Decimal Array Other : Type 0} (casts : Casts Decimal Array)
    (as_dtype : String → Option TfDtype) (common : All (λ e. as_dtype e.0 ≡ some e.1) common_types)
    (schema : Unischema Codec) where
  sanitize_timesteps-dtypes :
      (timestep : ℕ) (rows : List (Dict String (Option (Value Decimal Array Other))))
      {dtypes : List TfDtype}
      → All (Matches schema.fields) rows
      → dtypes_of_timesteps schema (length rows) ≡ ok dtypes
      → (samples : List (Dict String (Value Decimal Array Other))) × (sanitize_timesteps casts
            (enumerate_from timestep rows)
          ≡ ok (enumerate_from timestep samples))
        × All (λ sample. keys sample ≡ keys schema.fields) samples
        × (map (tensor_dtype as_dtype) (all_values samples) ≡ map some dtypes)
  unfolding dtypes_of_timesteps sanitize_timesteps enumerate_from
  sanitize_timesteps-dtypes timestep [] m h = ([], refl, tt, ap (map some) (ok-injective h))
  sanitize_timesteps-dtypes timestep (row ∷ rows) m h =
      let (own, tail, of_own, of_rest, e) =
        dtypes_of-append schema.fields (dtypes_of_timesteps schema (length rows)) h in
      let (sample, returned, names, types) =
        sanitized casts as_dtype common schema.fields row m.0 of_own in
      let (samples, others, all_names, all_types) =
        sanitize_timesteps-dtypes (suc timestep) rows m.1 of_rest in
      (
        sample ∷ samples,
        >>=-of_ok (sanitize_field_tf_types casts row) _ returned (
            >>=-of_ok (sanitize_timesteps casts (enumerate_from (suc timestep) rows)) _ others
              refl),
        (names, all_names),
        map-append (tensor_dtype as_dtype) (values sample) (all_values samples)
            ∙ ap (λ ts. ts ++ map (tensor_dtype as_dtype) (all_values samples)) types
            ∙ ap (◌++◌ (map some own)) all_types
            ∙ sym (map-append some own tail)
            ∙ ap (map some) (sym e),
      )

  names-Apart :
      (samples : List (Dict String (Value Decimal Array Other)))
      → Distinct schema.fields
      → All (λ sample. keys sample ≡ keys schema.fields) samples
      → All (λ sample. Apart (keys sample)) samples
  names-Apart [] distinct h = tt
  names-Apart (sample ∷ samples) distinct h =
      (subst Apart (sym h.0) (keys-Apart schema.fields distinct), names-Apart samples distinct h.1)

  -- The rows of a sequence have the schema's fields in their order, each with a value of the field's type,
  -- none of them None or a uint16 outside an array, and no two fields have one name. Then the function that
  -- feeds the graph returns a flat tuple, whose values have the tensorflow types that the graph declares
  -- for them, where tensorflow has the types of these names.
  pub dequeue_sample_impl-dtypes :
      (sequence : Sequence) (rows : List (Dict String (Option (Value Decimal Array Other))))
      {dtypes : List TfDtype}
      → Distinct schema.fields
      → length rows ≡ sequence.length
      → All (Matches schema.fields) rows
      → schema_to_tf_dtypes_sequence schema sequence ≡ ok dtypes
      → (flattened : Dict String (Value Decimal Array Other)) × (dequeue_sample_impl casts
            (enumerate_from 0 rows)
          ≡ ok flattened)
        × (map (tensor_dtype as_dtype) (values flattened) ≡ map some dtypes)
  unfolding schema_to_tf_dtypes_sequence dequeue_sample_impl
  dequeue_sample_impl-dtypes sequence rows distinct complete m h =
      let (samples, returned, names, types) =
        sanitize_timesteps-dtypes 0 rows m (ap (dtypes_of_timesteps schema) complete ∙ h) in
      (
        flatten (enumerate_from 0 samples),
        >>=-of_ok (sanitize_timesteps casts (enumerate_from 0 rows)) _ returned refl,
        ap (map (tensor_dtype as_dtype))
              (values-flatten samples (names-Apart samples distinct names))
            ∙ types,
      )
