-- ===== src/TfUtils/Types.antt =====
-- The values of a sanitized row have the tensorflow types that the schema declares
-- (dataset_toolkit/tf_utils.py).
use code_assist_analyzer.Prelude.{
  Option, none, some, List, [], ◌∷◌, map, All, String, string_eq, ==-cases, ◌==◌, ◌≡◌, ◌≢◌, refl,
  sym, ap, ◌∙◌, subst, inl, inr, arith, ok, raise, value_error, >>=-of_ok, >>=-eq-ok, ok-injective,
  true,
}
use code_assist_analyzer.Prelude.Dict.{Dict, keys, values, get}
use code_assist_analyzer.TfUtils.{
  TfDtype, tf_bool, tf_int8, tf_int16, tf_int32, tf_int64, tf_uint8, tf_float32, tf_float64,
  tf_string, numpy_to_tf_dtypes_mapping, numpy_to_tf_dtypes, Value, decimal, ndarray, text, other,
  Casts, dtypes_of, sanitize_value, sanitize_field_tf_types,
}
use code_assist_analyzer.Unischema.{UnischemaField}

-- the types of numpy that tensorflow has under the same name
abbrev pub common_types : Dict String TfDtype
common_types =
    ("bool", tf_bool)
    ∷ ("int8", tf_int8)
    ∷ ("int16", tf_int16)
    ∷ ("int32", tf_int32)
    ∷ ("int64", tf_int64)
    ∷ ("uint8", tf_uint8)
    ∷ ("float32", tf_float32)
    ∷ ("float64", tf_float64)
    ∷ ("string_", tf_string)
    ∷ ("bool_", tf_bool)
    ∷ []

some_or : {V : Type 0} → V → Option V → V
some_or v none = v
some_or v (some w) = w

get-All :
    {Entry : Type 0} (P : String × Entry → Type 0) (k : String) (d : Dict String Entry) {v : Entry}
    → get k d ≡ some v
    → All P d
    → P (k, v)
unfolding get some_or
get-All P k [] h all_hold = cc
get-All {Entry} P k ((j, w) ∷ d) {v} h all_hold = elim (==-cases j k) [
  | inl (same, e) ↦ subst P (pair same e) all_hold.0
  | inr (different, e) ↦ get-All P k d (ground arith) all_hold.1
]
  where
    pair : j ≡ k → (j == k) ≡ true → ◌≡◌ {A = String × Entry} (j, w) (k, v)
    pair same e = λ i. (same i, ap (some_or w) {x = some w} {y = some v} (rw e at h) i)

found-of_ok :
    (o : Option TfDtype) {dtype : TfDtype}
    → (elim o [ none ↦ raise value_error | some found ↦ ok found ]) ≡ ok dtype
    → o ≡ some dtype
found-of_ok none h = cc
found-of_ok (some found) h = ap some (ok-injective h)

module _ (as_dtype : String → Option TfDtype)
    (common : All (λ e. as_dtype e.0 ≡ some e.1) common_types) where
  plain_dtype :
      (numpy_dtype : String) {dtype : TfDtype}
      → numpy_to_tf_dtypes numpy_dtype ≡ ok dtype
      → numpy_dtype ≢ "Decimal"
      → numpy_dtype ≢ "uint16"
      → as_dtype numpy_dtype ≡ some dtype
  unfolding numpy_to_tf_dtypes
  plain_dtype numpy_dtype {dtype} h no_decimal no_uint16 =
      let (a, (b, (c, (d, (e, (f, (g, (i, (j, (k, end)))))))))) = common in
      get-All (λ e. e.0 ≢ "Decimal" → e.0 ≢ "uint16" → as_dtype e.0 ≡ some e.1) numpy_dtype
        numpy_to_tf_dtypes_mapping (found-of_ok (get numpy_dtype numpy_to_tf_dtypes_mapping) h)
        (
          λ _ _. a,
          (
            λ _ _. b,
            (
              λ _ _. c,
              (
                λ _ _. d,
                (
                  λ _ _. e,
                  (
                    λ _ _. f,
                    (
                      λ _ n. absurd (n refl),
                      (λ _ _. g, (λ _ _. i, (λ _ _. j, (λ _ _. k, (λ n _. absurd (n refl), tt))))),
                    ),
                  ),
                ),
              ),
            ),
          ),
        )
        no_decimal no_uint16

module _ {Decimal Array Other : Type 0} where
  -- the tensorflow type of what numpy makes of a value
  abbrev pub tensor_dtype : (String → Option TfDtype) → Value Decimal Array Other → Option TfDtype
  tensor_dtype as_dtype (decimal d) = none
  tensor_dtype as_dtype (ndarray dtype array) = as_dtype dtype
  tensor_dtype as_dtype (text s) = some tf_string
  tensor_dtype as_dtype (other dtype v) = as_dtype dtype

  -- the value is of the type of its field, and no uint16 that is not in an array
  abbrev pub IsOf : String → Value Decimal Array Other → Type 0
  IsOf numpy_dtype (decimal d) = numpy_dtype ≡ "Decimal"
  IsOf numpy_dtype (ndarray dtype array) = (dtype ≡ numpy_dtype) × (dtype ≢ "Decimal")
  IsOf numpy_dtype (text s) = numpy_dtype ≡ "string_"
  IsOf numpy_dtype (other dtype v) =
      (dtype ≡ numpy_dtype) × (dtype ≢ "Decimal") × (dtype ≢ "uint16")

module _ {Codec Decimal Array Other : Type 0} where
  -- the row has the fields in their order, each with a value of its type
  abbrev pub Matches :
      Dict String (UnischemaField Codec) → Dict String (Option (Value Decimal Array Other)) → Type 0
  Matches [] [] = Unit
  Matches ((name, field) ∷ fields) ((k, some v) ∷ row) =
      (k ≡ name) × IsOf field.numpy_dtype v × Matches fields row
  Matches _ _ = ⊥

module _ {Decimal Array : Type 0} (casts : Casts Decimal Array) (as_dtype : String → Option TfDtype)
    (common : All (λ e. as_dtype e.0 ≡ some e.1) common_types) where
  ndarray-dtype :
      (Rest : Type 0) (numpy_dtype dtype : String) (array : Array) {declared : TfDtype}
      → numpy_to_tf_dtypes numpy_dtype ≡ ok declared
      → dtype ≡ numpy_dtype
      → dtype ≢ "Decimal"
      → tensor_dtype as_dtype (sanitize_value {Other = Rest} casts (ndarray dtype array))
        ≡ some declared
  unfolding numpy_to_tf_dtypes get
  ndarray-dtype Rest numpy_dtype dtype array {declared} h same no_decimal =
      elim (==-cases dtype "uint16") [
        | inl (is_uint16, e) ↦ rw e (
            common.1.1.1.0
            ∙ ap some (
                ok-injective
                  (subst (λ n. numpy_to_tf_dtypes n ≡ ok declared) (sym same ∙ is_uint16) h)))
        | inr (different, e) ↦ rw e (
            plain_dtype as_dtype common dtype
              (subst (λ n. numpy_to_tf_dtypes n ≡ ok declared) (sym same) h) no_decimal different)
      ]

  sanitize_value-dtype :
      {Other : Type 0} (numpy_dtype : String) (v : Value Decimal Array Other) {declared : TfDtype}
      → numpy_to_tf_dtypes numpy_dtype ≡ ok declared
      → IsOf numpy_dtype v
      → tensor_dtype as_dtype (sanitize_value casts v) ≡ some declared
  unfolding numpy_to_tf_dtypes get
  sanitize_value-dtype numpy_dtype (decimal d) {declared} h is_of =
      ap some (ok-injective (subst (λ n. numpy_to_tf_dtypes n ≡ ok declared) is_of h))
  sanitize_value-dtype numpy_dtype (text s) {declared} h is_of =
      ap some (ok-injective (subst (λ n. numpy_to_tf_dtypes n ≡ ok declared) is_of h))
  sanitize_value-dtype numpy_dtype (other dtype v) {declared} h (same, no_decimal, no_uint16) =
      plain_dtype as_dtype common dtype
        (subst (λ n. numpy_to_tf_dtypes n ≡ ok declared) (sym same) h) no_decimal no_uint16
  sanitize_value-dtype {Other} numpy_dtype (ndarray dtype array) h (same, no_decimal) =
      ndarray-dtype Other numpy_dtype dtype array h same no_decimal

module _ {Codec Decimal Array Other : Type 0} (casts : Casts Decimal Array)
    (as_dtype : String → Option TfDtype)
    (common : All (λ e. as_dtype e.0 ≡ some e.1) common_types) where
  -- A row of the fields is sanitized to a sample of the declared types.
  pub sanitized :
      (fields : Dict String (UnischemaField Codec))
      (row : Dict String (Option (Value Decimal Array Other))) {dtypes : List TfDtype}
      → Matches fields row
      → dtypes_of fields (ok []) ≡ ok dtypes
      → (sample : Dict String (Value Decimal Array Other)) × (sanitize_field_tf_types casts row
          ≡ ok sample)
        × (keys sample ≡ keys fields)
        × (map (tensor_dtype as_dtype) (values sample) ≡ map some dtypes)
  unfolding dtypes_of sanitize_field_tf_types
  sanitized [] [] {dtypes} m h = ([], refl, refl, ap (map some) (ok-injective h))
  sanitized [] (e ∷ row) m h = absurd m
  sanitized (f ∷ fields) [] m h = absurd m
  sanitized (f ∷ fields) ((k, none) ∷ row) m h = absurd m
  sanitized ((name, field) ∷ fields) ((k, some v) ∷ row) {dtypes} (same, is_of, m) h =
      let (declared, known, h') = >>=-eq-ok (numpy_to_tf_dtypes field.numpy_dtype) _ h in
      let (others, done, end) = >>=-eq-ok (dtypes_of fields (ok [])) _ h' in
      let (sample, returned, names, types) = sanitized fields row m done in
      (
        (k, sanitize_value casts v) ∷ sample,
        >>=-of_ok (sanitize_field_tf_types casts row) _ returned refl,
        ap (λ n. n ∷ keys sample) same ∙ ap (◌∷◌ name) names,
        ap (λ t. t ∷ map (tensor_dtype as_dtype) (values sample))
              (sanitize_value-dtype casts as_dtype common field.numpy_dtype v known is_of)
            ∙ ap (◌∷◌ (some declared)) types
            ∙ ap (map some) (ok-injective end),
      )
