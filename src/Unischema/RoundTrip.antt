-- ===== src/Unischema/RoundTrip.antt =====
-- Encoding a row for Spark and decoding it (dataset_toolkit/unischema.py, utils.py).
use code_assist_analyzer.Prelude.{
  Bool, true, false, not, all, Option, none, some, [], ◌∷◌, String, string_eq, ==-cases,
  if◌then◌else◌, ok, raise, raise_if, value_error, >>=-eq-ok, ok-injective, ◌≡◌, refl, sym, ap, ◌∙◌,
  subst, inl, inr, Bool-cases, arith,
}
use code_assist_analyzer.Prelude.Dict.{
  Dict, keys, get, has_key, Distinct, has_key_of_get, get_of_has_key, get_of_not_has_key,
}
use code_assist_analyzer.Unischema.{
  UnischemaField, Unischema, Coding, encode_value, decode_value, insert_explicit_nulls, same_keys,
  encode_items, decode_items, dict_to_spark_row, decode_row,
}
use code_assist_analyzer.Unischema.Encoded.{
  with_null, insert_nulls-get, insert_nulls-Distinct, EncodedAt, encode_items-absent,
  encode_items-present, encode_items-Distinct,
}
use code_assist_analyzer.Unischema.Decoded.{Decodes, decode_items-Decoded}

-- a key that a dict has satisfies what all its keys do
all_keys :
    {V : Type 0} (p : String → Bool) (d : Dict String V) (k : String)
    → all p (keys d) ≡ true
    → has_key k d ≡ true
    → p k ≡ true
unfolding all has_key
all_keys p [] k h here = cc
all_keys p ((j, v) ∷ d) k h here = elim (==-cases j k) [
  | inl (same, _) ↦ ap p (sym same) ∙ ground arith
  | inr (_, other) ↦ all_keys p d k (ground arith) (ground arith)
]

pub same_keys-get :
    {V W : Type 0} (d : Dict String V) (e : Dict String W) (k : String)
    → same_keys d e ≡ true
    → has_key k d ≡ has_key k e
unfolding same_keys
same_keys-get d e k h = elim (Bool-cases (has_key k d)) [
  | inl here ↦ here ∙ sym (all_keys (λ j. has_key j e) d k (ground arith) here)
  | inr away ↦ elim (Bool-cases (has_key k e)) [
    | inr away' ↦ away ∙ sym away'
    | inl here ↦ absurd (ground (arith, all_keys (λ j. has_key j d) e k (ground arith) here))
  ]
]

not_ok : {A : Type 0} {a : A} → raise value_error ≡ ok a → ⊥
not_ok h = cc

-- a value of a row: None, or absent, is none
abbrev pub value_or_null : {V : Type 0} → Option (Option V) → Option V
value_or_null none = none
value_or_null (some v) = v

module _ {Codec Value Encoded : Type 0} (coding : Coding Codec Value Encoded) where
  -- what the codecs promise of the values of a row: a value that is encoded for its field decodes to itself
  abbrev pub ValuesInvert : Dict String (UnischemaField Codec) → Dict String (Option Value) → Type 0
  ValuesInvert fields row =
      (f : String) (field : UnischemaField Codec) (value : Value) (encoded : Encoded)
      → get f fields ≡ some field
      → get f row ≡ some (some value)
      → coding.encode field value ≡ ok encoded
      → coding.decode field encoded ≡ ok value

  given-value_or_null :
      (o : Option (Option Value)) (value : Value)
      → value_or_null o ≡ some value
      → o ≡ some (some value)
  given-value_or_null none value h = cc
  given-value_or_null (some v) value h = ap some h

  decode-encode_value :
      (field : UnischemaField Codec) (v : Option Value) (e : Option Encoded)
      → ((value : Value) (encoded : Encoded)
          → v ≡ some value
          → coding.encode field value ≡ ok encoded
          → coding.decode field encoded ≡ ok value)
      → encode_value coding field v ≡ ok e
      → decode_value coding field e ≡ ok v
  unfolding encode_value decode_value
  decode-encode_value field none e invert done = elim (Bool-cases field.nullable) [
    | inl nullable ↦
        let encoded_null : ok none ≡ encode_value coding field none =
          rw (encode_value, nullable) refl in
        subst (λ x. decode_value coding field x ≡ ok none) (ok-injective (encoded_null ∙ done)) refl
    | inr required ↦ absurd (not_ok (sym (rw (encode_value, required) refl) ∙ done))
  ]
  decode-encode_value field (some value) e invert done =
      let (encoded, encodes, is) = >>=-eq-ok (coding.encode field value) _ {returned = e} done in
      subst (λ x. decode_value coding field x ≡ ok (some value)) (ok-injective is)
        (rw (decode_value, invert value encoded refl encodes) refl)

  -- the dict of `dict_to_spark_row` with the nulls, and what it has of a field
  spark_row_parts :
      (schema : Unischema Codec) (row : Dict String (Option Value))
      {spark : Dict String (Option Encoded)}
      → dict_to_spark_row coding schema row ≡ ok spark
      → (copy : Dict String (Option Value)) × (insert_explicit_nulls schema row ≡ ok copy)
        × (same_keys copy schema.fields ≡ true)
        × (encode_items coding schema.fields copy [] ≡ ok spark)
  unfolding dict_to_spark_row
  spark_row_parts schema row {spark} done =
      let (copy, inserted, rest) =
        >>=-eq-ok (insert_explicit_nulls schema row) _ {returned = spark} done in
      let (_, checked, encodes) =
        >>=-eq-ok (raise_if (not (same_keys copy schema.fields)) value_error) _ {returned = spark}
          rest in
      (
        copy,
        inserted,
        elim (Bool-cases (same_keys copy schema.fields)) [
          | inl same ↦ same
          | inr other ↦ absurd (not_ok (sym (rw other refl) ∙ checked))
        ],
        encodes,
      )

  with_null-value :
      (fields : Dict String (UnischemaField Codec)) (row : Dict String (Option Value)) (f : String)
      → has_key f fields ≡ true
      → with_null fields row f ≡ some (value_or_null (get f row))
  with_null-value fields row f here = elim (Bool-cases (has_key f row)) [
    | inl given ↦ let (v, at) = get_of_has_key f row given in rw (given, at) refl
    | inr away ↦ rw (away, here, get_of_not_has_key f row away) refl
  ]

  module _ (fields : Dict String (UnischemaField Codec)) (row copy : Dict String (Option Value))
      (spark : Dict String (Option Encoded)) (invert : ValuesInvert fields row)
      (nulls : (f : String) → get f copy ≡ with_null fields row f) (distinct : Distinct copy)
      (same : same_keys copy fields ≡ true)
      (encodes : encode_items coding fields copy [] ≡ ok spark) where
    field_at :
        (f : String)
        → has_key f fields ≡ true
        → EncodedAt coding fields f (value_or_null (get f row)) spark
    field_at f here =
        encode_items-present coding fields copy [] f (value_or_null (get f row)) encodes distinct
          (nulls f ∙ with_null-value fields row f here)

    field-inverts :
        (f : String) (field : UnischemaField Codec) (e : Option Encoded)
        → get f fields ≡ some field
        → encode_value coding field (value_or_null (get f row)) ≡ ok e
        → decode_value coding field e ≡ ok (value_or_null (get f row))
    field-inverts f field e there encodes' =
        decode-encode_value field (value_or_null (get f row)) e
          (λ value encoded given.
            invert f field value encoded there (given-value_or_null (get f row) value given))
          encodes'

    spark-Decodes : Decodes coding fields spark
    spark-Decodes f e field at there =
        let (field', e', there', encodes', at') =
          field_at f (has_key_of_get f fields {v = field} there) in
        let e_same : e' ≡ e = ground (arith, at, at') in
        let field_same : field' ≡ field = ground (arith, there, there') in
        (
          value_or_null (get f row),
          ap (λ g. decode_value coding g e) (sym field_same)
              ∙ ap (decode_value coding field') (sym e_same)
              ∙ field-inverts f field' e' there' encodes',
        )

    spark-lacks : (f : String) → has_key f fields ≡ false → has_key f spark ≡ false
    unfolding get
    spark-lacks f away =
        let lacks =
          encode_items-absent coding fields copy [] f encodes
            (same_keys-get copy fields f same ∙ away) in
        elim (Bool-cases (has_key f spark)) [
          | inr out ↦ out
          | inl present ↦
              let (e, at) = get_of_has_key f spark present in absurd (ground (arith, at, lacks))
        ]

    encoded_row-decodes :
        (decoded : Dict String (Option Value)) × (decode_items coding fields spark [] ≡ ok decoded)
        × ((f : String)
            → get f decoded ≡ (if has_key f fields then some (value_or_null (get f row)) else none))
    unfolding get
    encoded_row-decodes =
        let (decoded, decodes, (absent, present)) =
          decode_items-Decoded coding fields spark []
            (encode_items-Distinct coding fields copy [] encodes tt) spark-Decodes in
        (
          decoded,
          decodes,
          λ f. elim (Bool-cases (has_key f fields)) [
            | inr away ↦ rw away (absent f (spark-lacks f away))
            | inl here ↦
                let (field, e, there, encodes', at) = field_at f here in
                rw here (
                  present f e field (value_or_null (get f row)) at there
                    (field-inverts f field e there encodes'))
          ],
        )

  -- A row that `dict_to_spark_row` encodes decodes, when the codecs of its fields decode what they encode of
  -- its values to these values again, to a row that has the fields of the schema and no others, with the
  -- values of the first row, and None for each field that it lacked.
  pub decode_row-dict_to_spark_row :
      (schema : Unischema Codec) (row : Dict String (Option Value))
      {spark : Dict String (Option Encoded)}
      → ValuesInvert schema.fields row
      → Distinct row
      → dict_to_spark_row coding schema row ≡ ok spark
      → (decoded : Dict String (Option Value)) × (decode_row coding spark schema ≡ ok decoded)
        × ((f : String)
            → get f decoded
              ≡ (if has_key f schema.fields then some (value_or_null (get f row)) else none))
  unfolding decode_row insert_explicit_nulls
  decode_row-dict_to_spark_row schema row {spark} invert distinct done =
      let (copy, inserted, same, encodes) = spark_row_parts schema row {spark = spark} done in
      encoded_row-decodes schema.fields row copy spark invert
        (λ f. insert_nulls-get schema.fields row f inserted)
        (insert_nulls-Distinct schema.fields row inserted distinct) same encodes
