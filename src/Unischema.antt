-- ===== src/Unischema.antt =====
-- dataset_toolkit/unischema.py, and `decode_row` of dataset_toolkit/utils.py. A row is a dict whose
-- absent values are None, here `none`. The codecs are those of the interface `Coding`.
pub mod Views
pub mod Encoded
pub mod Decoded
pub mod RoundTrip
mod Tests
use code_assist_analyzer.Prelude.{
  ℕ, Bool, true, false, not, ◌&&◌, Option, none, some, List, [], ◌∷◌, all, map, String, string_eq,
  Eq, ◌==◌, if◌then◌else◌, Result, ok, raise, value_error, key_error, ◌>>=◌, ◌>>◌, raise_if, ◌≡◌,
}
use code_assist_analyzer.Prelude.Dict.{Dict, keys, get, has_key, put}
use code_assist_analyzer.Prelude.Sorted.{sort_by}
use code_assist_analyzer.Prelude.Text.{join}

pub record UnischemaField (Codec : Type 0) : Type 0 where
  pub name : String
  pub numpy_dtype : String
  pub shape : List (Option ℕ)
  pub codec : Codec
  pub nullable : Bool

-- what a codec does to the values of its field
pub record Coding (Codec Value Encoded : Type 0) : Type 0 where
  pub encode : UnischemaField Codec → Value → Result Encoded
  pub decode : UnischemaField Codec → Encoded → Result Value

pub record Unischema (Codec : Type 0) : Type 0 where
  pub name : String
  pub fields : Dict String (UnischemaField Codec)

-- equal sets of keys
pub same_keys : {V W : Type 0} → Dict String V → Dict String W → Bool
same_keys d e = all (λ k. has_key k e) (keys d) && all (λ k. has_key k d) (keys e)

module _ {Codec : Type 0} where
  -- the ordered dict of (name, field)
  pub put_fields :
      List (UnischemaField Codec)
      → Dict String (UnischemaField Codec)
      → Dict String (UnischemaField Codec)
  put_fields [] d = d
  put_fields (f ∷ fields) d = put_fields fields (put f.name f d)

  unfoldable pub init : String → List (UnischemaField Codec) → Unischema Codec
  init name fields = record { name = name; fields = put_fields (sort_by (λ f. f.name) fields) [] }

  -- the check of `create_schema_view`, in the order of the fields
  pub check_fields : Unischema Codec → List (UnischemaField Codec) → Result (Unit {0})
  check_fields schema [] = ok tt
  check_fields schema (f ∷ fields) =
      raise_if (not (has_key f.name schema.fields)) value_error >> check_fields schema fields

  pub create_schema_view : Unischema Codec → List (UnischemaField Codec) → Result (Unischema Codec)
  create_schema_view schema fields =
      check_fields schema fields >> ok (init (join (schema.name ∷ "_view" ∷ [])) fields)

  -- The loop of `insert_explicit_nulls` over the fields of the schema.
  pub insert_nulls :
      {Value : Type 0}
      → Dict String (UnischemaField Codec)
      → Dict String (Option Value)
      → Result (Dict String (Option Value))
  insert_nulls [] row_dict = ok row_dict
  insert_nulls ((field_name, field) ∷ fields) row_dict =
      if has_key field_name row_dict
      then insert_nulls fields row_dict
      else if field.nullable
      then insert_nulls fields (put field_name none row_dict)
      else raise value_error

  -- `insert_explicit_nulls`
  pub insert_explicit_nulls :
      {Value : Type 0}
      → Unischema Codec
      → Dict String (Option Value)
      → Result (Dict String (Option Value))
  insert_explicit_nulls schema row_dict = insert_nulls schema.fields row_dict

module _ {Codec Value Encoded : Type 0} (coding : Coding Codec Value Encoded) where
  open coding use {encode, decode}

  -- the encoded value of a field in `dict_to_spark_row`
  pub encode_value : UnischemaField Codec → Option Value → Result (Option Encoded)
  encode_value field none = if field.nullable then ok none else raise value_error
  encode_value field (some value) = encode field value >>= (λ encoded. ok (some encoded))

  -- the loop over the items of the row
  pub encode_items :
      Dict String (UnischemaField Codec)
      → Dict String (Option Value)
      → Dict String (Option Encoded)
      → Result (Dict String (Option Encoded))
  encode_items fields [] encoded_dict = ok encoded_dict
  encode_items fields ((field_name, value) ∷ items) encoded_dict = elim (get field_name fields) [
    | none ↦ raise key_error
    | some field ↦
        encode_value field value
        >>= (λ encoded. encode_items fields items (put field_name encoded encoded_dict))
  ]

  pub dict_to_spark_row :
      Unischema Codec → Dict String (Option Value) → Result (Dict String (Option Encoded))
  dict_to_spark_row schema row_dict = do
    copy_row_dict ← insert_explicit_nulls schema row_dict
    _ ← raise_if (not (same_keys copy_row_dict schema.fields)) value_error
    encode_items schema.fields copy_row_dict []

  -- a value of `decode_row`
  unfoldable pub decode_value : UnischemaField Codec → Option Encoded → Result (Option Value)
  decode_value field none = ok none
  decode_value field (some encoded) = decode field encoded >>= (λ value. ok (some value))

  -- the loop of `decode_row` over the items of the row
  unfoldable pub decode_items :
      Dict String (UnischemaField Codec)
      → Dict String (Option Encoded)
      → Dict String (Option Value)
      → Result (Dict String (Option Value))
  decode_items fields [] decoded_row = ok decoded_row
  decode_items fields ((field_name, encoded) ∷ items) decoded_row =
      let skipped = decode_items fields items decoded_row in
      elim (get field_name fields) [
        | none ↦ skipped
        | some field ↦
            decode_value field encoded
            >>= (λ value. decode_items fields items (put field_name value decoded_row))
      ]

  unfoldable pub decode_row :
      Dict String (Option Encoded) → Unischema Codec → Result (Dict String (Option Value))
  decode_row row schema = decode_items schema.fields row []
