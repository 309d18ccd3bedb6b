-- ===== src/Unischema/Tests.antt =====
-- A schema of two fields, one of them nullable. A value is encoded as itself.
use code_assist_analyzer.Prelude.{
  ℕ, ◌/◌, ◌*◌, subst, List, raise, type_error, inl, inr, ==-cases, arith, ◌≡◌, refl, Bool, true,
  false, Option, none, some, [], ◌∷◌, String, string_eq, if◌then◌else◌, ok, ok-injective, all,
}
use code_assist_analyzer.Codecs.{
  Ndarray, Value, ndarray, object, encode_ndarray, encode_scalar, is_compliant_shape,
  compliant_dimensions, compliant_dimension, integer_type, string_type,
}
use code_assist_analyzer.Codecs.Coding.{
  Codec, ndarray_codec, scalar_codec, Encoded, bytes, plain, Numpy, codecs,
}
use code_assist_analyzer.Prelude.Dict.{Dict, get, put, has_key}
use code_assist_analyzer.Prelude.Sorted.{insert_by, sort_by, last_with}
use code_assist_analyzer.Prelude.Text.{join}
use code_assist_analyzer.Unischema.{
  UnischemaField, Unischema, init, put_fields, check_fields, create_schema_view, insert_nulls,
  insert_explicit_nulls, same_keys, encode_value, encode_items, dict_to_spark_row, decode_row,
}
use code_assist_analyzer.Unischema.Views.{create_schema_view-fields}
use code_assist_analyzer.Unischema.RoundTrip.{
  ValuesInvert, value_or_null, decode_row-dict_to_spark_row,
}

abbrev field : String → Bool → UnischemaField (Unit {0})
field name nullable = record {
  name = name;
  numpy_dtype = "uint8";
  shape = [];
  codec = tt;
  nullable = nullable;
}

abbrev schema : Unischema (Unit {0})
schema = record { name = "s"; fields = ("id", field "id" false) ∷ ("tag", field "tag" true) ∷ [] }

-- A number is counted in tenths: int() cuts off what is less than one. An array is saved as it is.
abbrev numpy : Numpy ℕ Ndarray
numpy = record {
  save = λ array. array;
  load = λ contents. ok contents;
  to_int = λ value. elim value [
    | ndarray array ↦ raise type_error
    | object n ↦ ok (object (n / 10 * 10))
  ];
  is_basestring = λ value. false;
  as_type = λ numpy_dtype value. ok value;
}

abbrev coded_field : String → String → List (Option ℕ) → Codec → Bool → UnischemaField Codec
coded_field name numpy_dtype shape codec nullable = record {
  name = name;
  numpy_dtype = numpy_dtype;
  shape = shape;
  codec = codec;
  nullable = nullable;
}

abbrev id_field : UnischemaField Codec
id_field = coded_field "id" "int32" [] (scalar_codec integer_type) false

abbrev pixels_field : UnischemaField Codec
pixels_field = coded_field "pixels" "uint8" (none ∷ []) ndarray_codec false

abbrev tag_field : UnischemaField Codec
tag_field = coded_field "tag" "string_" [] (scalar_codec string_type) true

abbrev images : Unischema Codec
images = record {
  name = "images";
  fields = ("id", id_field) ∷ ("pixels", pixels_field) ∷ ("tag", tag_field) ∷ [];
}

abbrev pixels : Ndarray
pixels = record { dtype = "uint8"; shape = 2 ∷ []; contents = 7 ∷ 9 ∷ [] }

abbrev row : Dict String (Option (Value ℕ))
row = ("id", some (object 50)) ∷ ("pixels", some (ndarray pixels)) ∷ []

abbrev spark_row : Dict String (Option (Encoded ℕ Ndarray))
spark_row = ("id", some (plain (object 50))) ∷ ("pixels", some (bytes pixels)) ∷ ("tag", none) ∷ []

abbrev InvertsAt : UnischemaField Codec → Value ℕ → Type 0
InvertsAt field value =
    (encoded : Encoded ℕ Ndarray)
    → (codecs numpy).encode field value ≡ ok encoded
    → (codecs numpy).decode field encoded ≡ ok value

same-InvertsAt :
    (field field' : UnischemaField Codec) (value value' : Value ℕ)
    → InvertsAt field value
    → some field ≡ some field'
    → some (some value) ≡ some (some value')
    → InvertsAt field' value'
same-InvertsAt field field' value value' good same same' =
    let there : field ≡ field' = cc in
    let given : value ≡ value' = cc in
    subst (λ v. InvertsAt field' v) given (subst (λ f. InvertsAt f value) there good)

id-InvertsAt : InvertsAt id_field (object 50)
unfolding encode_scalar
id-InvertsAt encoded done =
    subst (λ e. (codecs numpy).decode id_field e ≡ ok (object 50)) (ok-injective done) refl

pixels-InvertsAt : InvertsAt pixels_field (ndarray pixels)
unfolding encode_ndarray is_compliant_shape compliant_dimensions compliant_dimension
pixels-InvertsAt encoded done =
    subst (λ e. (codecs numpy).decode pixels_field e ≡ ok (ndarray pixels)) (ok-injective done) refl

row-ValuesInvert : ValuesInvert (codecs numpy) images.fields row
unfolding get
row-ValuesInvert f field value encoded there given = elim (==-cases "id" f) [
  | inl (_, h) ↦
      same-InvertsAt id_field field (object 50) value id-InvertsAt (rw h at there) (rw h at given)
        encoded
  | inr (_, h) ↦ elim (==-cases "pixels" f) [
    | inl (_, h') ↦
        same-InvertsAt pixels_field field (ndarray pixels) value pixels-InvertsAt
          (rw (h, h') at there) (rw (h, h') at given) encoded
    | inr (_, h') ↦ absurd (ground (arith, h, h', given))
  ]
]

decode_row-dict_to_spark_row_example :
    (decoded : Dict String (Option (Value ℕ))) × (decode_row (codecs numpy) spark_row images
      ≡ ok decoded)
    × ((f : String)
        → get f decoded
          ≡ (if has_key f images.fields then some (value_or_null (get f row)) else none))
unfolding insert_nulls insert_explicit_nulls same_keys encode_value encode_items dict_to_spark_row
    get put has_key all encode_scalar encode_ndarray is_compliant_shape compliant_dimensions
    compliant_dimension
decode_row-dict_to_spark_row_example =
    decode_row-dict_to_spark_row (codecs numpy) images row row-ValuesInvert (refl, (refl, tt)) refl

-- of two fields of one name the second is kept
abbrev requested : List (UnischemaField (Unit {0}))
requested = field "tag" true ∷ field "id" false ∷ field "tag" false ∷ []

abbrev view : Unischema (Unit {0})
view = record {
  name = "s_view";
  fields = ("id", field "id" false) ∷ ("tag", field "tag" false) ∷ [];
}

create_schema_view-fields_example :
    (get "tag" view.fields ≡ some (field "tag" false))
    × ((f : UnischemaField (Unit {0}))
        → get "tag" view.fields ≡ some f
        → has_key "tag" schema.fields ≡ true)
unfolding create_schema_view check_fields init put_fields insert_by sort_by join put has_key
    last_with
create_schema_view-fields_example =
    create_schema_view-fields schema requested {view = view} "tag" refl
