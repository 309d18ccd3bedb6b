-- ===== src/TfUtils.antt =====
-- dataset_toolkit/tf_utils.py: rows as the values and tensors of a tensorflow graph. A named tuple is the
-- dict of its fields, in the order of `_get_namedtuple`. The names that `namedtuple` refuses are out of
-- the model: a flattened name is refused where the name of its field is.
pub mod Graph
pub mod Names
pub mod Sequences
pub mod Types
pub mod ByName
pub mod Shapes
pub mod Tensors
pub mod Dequeued
mod Tests
use code_assist_analyzer.Prelude.{
  ℕ, zero, suc, ◌+◌, ◌*◌, Bool, true, false, not, ◌&&◌, Option, none, some, List, [], ◌∷◌, ◌++◌,
  map, all, length, take, drop, nat_beq, ltb, String, string_eq, ◌==◌, if◌then◌else◌, ◌⊎◌, inl, inr,
  Result, ok, raise, value_error, runtime_error, type_error, key_error, ◌>>=◌, ◌>>◌, raise_if,
}
use code_assist_analyzer.Prelude.Dict.{Dict, keys, values, get, has_key, put}
use code_assist_analyzer.Prelude.Numerals.{str}
use code_assist_analyzer.Prelude.PySet.{contains}
use code_assist_analyzer.Prelude.Sorted.{sort_by}
use code_assist_analyzer.Prelude.Text.{join}
use code_assist_analyzer.Sequence.{Sequence}
use code_assist_analyzer.Unischema.{UnischemaField, Unischema}

-- the tensorflow types that the mapping names
pub data TfDtype : Type 0 where
  tf_bool tf_int8 tf_int16 tf_int32 tf_int64 tf_uint8 tf_float32 tf_float64 tf_string : TfDtype

-- `_NUMPY_TO_TF_DTYPES_MAPPING`
abbrev pub numpy_to_tf_dtypes_mapping : Dict String TfDtype
numpy_to_tf_dtypes_mapping =
    ("bool", tf_bool)
    ∷ ("int8", tf_int8)
    ∷ ("int16", tf_int16)
    ∷ ("int32", tf_int32)
    ∷ ("int64", tf_int64)
    ∷ ("uint8", tf_uint8)
    ∷ ("uint16", tf_int32)
    ∷ ("float32", tf_float32)
    ∷ ("float64", tf_float64)
    ∷ ("string_", tf_string)
    ∷ ("bool_", tf_bool)
    ∷ ("Decimal", tf_string)
    ∷ []

-- `_numpy_to_tf_dtypes`
pub numpy_to_tf_dtypes : String → Result TfDtype
unfolding get
numpy_to_tf_dtypes numpy_dtype = elim (get numpy_dtype numpy_to_tf_dtypes_mapping) [
  | none ↦ raise value_error
  | some dtype ↦ ok dtype
]

-- A value of a row: a Decimal, an array of a dtype, or another value, of the dtype that numpy gives it.
pub data Value (Decimal Array Other : Type 0) : Type 0 where
  decimal : Decimal → Value Decimal Array Other
  ndarray : String → Array → Value Decimal Array Other
  text : String → Value Decimal Array Other
  other : String → Other → Value Decimal Array Other

-- `str(d.normalize())` of decimal, and `astype` of numpy
pub record Casts (Decimal Array : Type 0) : Type 0 where
  pub normalized_str : Decimal → String
  pub astype : String → Array → Array

module _ {Codec : Type 0} where
  -- the loop over the fields, for one timestep
  pub dtypes_of : Dict String (UnischemaField Codec) → Result (List TfDtype) → Result (List TfDtype)
  unfolding numpy_to_tf_dtypes
  dtypes_of [] rest = rest
  dtypes_of ((name, field) ∷ fields) rest = do
    dtype ← numpy_to_tf_dtypes field.numpy_dtype
    dtypes ← dtypes_of fields rest
    ok (dtype ∷ dtypes)

  -- `_schema_to_tf_dtypes`
  pub schema_to_tf_dtypes : Unischema Codec → Result (List TfDtype)
  schema_to_tf_dtypes schema = dtypes_of schema.fields (ok [])

  pub dtypes_of_timesteps : Unischema Codec → ℕ → Result (List TfDtype)
  dtypes_of_timesteps schema zero = ok []
  dtypes_of_timesteps schema (suc n) = dtypes_of schema.fields (dtypes_of_timesteps schema n)

  -- `_schema_to_tf_dtypes_sequence`
  pub schema_to_tf_dtypes_sequence : Unischema Codec → Sequence → Result (List TfDtype)
  unfolding dtypes_of_timesteps
  schema_to_tf_dtypes_sequence schema sequence = dtypes_of_timesteps schema sequence.length

  -- the fields of `_get_namedtuple`
  pub tuple_names : Unischema Codec → List String
  tuple_names schema = sort_by (λ name. name) (keys schema.fields)

module _ {Decimal Array Other : Type 0} (casts : Casts Decimal Array) where
  open casts use {normalized_str, astype}

  -- the body of the loop of `_sanitize_field_tf_types`
  abbrev pub sanitize_value : Value Decimal Array Other → Value Decimal Array Other
  sanitize_value (decimal d) = text (normalized_str d)
  sanitize_value (ndarray dtype array) =
      if dtype == "uint16" then ndarray "int32" (astype "int32" array) else ndarray dtype array
  sanitize_value (text s) = text s
  sanitize_value (other dtype v) = other dtype v

  -- `_sanitize_field_tf_types`
  pub sanitize_field_tf_types :
      Dict String (Option (Value Decimal Array Other))
      → Result (Dict String (Value Decimal Array Other))
  sanitize_field_tf_types [] = ok []
  sanitize_field_tf_types ((k, none) ∷ sample) = raise runtime_error
  sanitize_field_tf_types ((k, some v) ∷ sample) = do
    next_sample_dict ← sanitize_field_tf_types sample
    ok ((k, sanitize_value v) ∷ next_sample_dict)

module _ {V : Type 0} where
  -- the inner loop of `_flatten`: the fields of one timestep
  pub flatten_fields : ℕ → Dict String V → Dict String V → Dict String V
  flatten_fields key [] flattened = flattened
  flatten_fields key ((subkey, v) ∷ data_dict) flattened =
      flatten_fields key data_dict (put (join (subkey ∷ "_" ∷ str key ∷ [])) v flattened)

  pub flatten_from : List (ℕ × Dict String V) → Dict String V → Dict String V
  unfolding flatten_fields
  flatten_from [] flattened = flattened
  flatten_from ((key, row) ∷ sequence) flattened =
      flatten_from sequence (flatten_fields key row flattened)

  -- `_flatten`
  pub flatten : List (ℕ × Dict String V) → Dict String V
  unfolding flatten_from
  flatten sequence = flatten_from sequence []

  -- A named tuple of the names, from values in their order and values by name: each name has one value.
  pub named : List String → List V → Dict String V → Result (Dict String V)
  named [] [] kargs = ok []
  named [] (v ∷ args) kargs = raise type_error
  named (name ∷ names) [] kargs = elim (get name kargs) [
    | none ↦ raise type_error
    | some v ↦ named names [] kargs >>= (λ row. ok ((name, v) ∷ row))
  ]
  named (name ∷ names) (v ∷ args) kargs =
      if has_key name kargs
      then raise type_error
      else named names args kargs >>= (λ row. ok ((name, v) ∷ row))

  -- the constructor of the named tuple, which takes no other names
  pub make_namedtuple : List String → List V → Dict String V → Result (Dict String V)
  make_namedtuple names args kargs =
      raise_if (not (all (λ name. contains name names) (keys kargs))) type_error
      >> named names args kargs

  -- `kargs[str(timestep)] if str(timestep) in kargs else {}`
  abbrev pub kargs_of : Dict String (Dict String V) → ℕ → Dict String V
  kargs_of kargs timestep = elim (get (str timestep) kargs) [ none ↦ [] | some row ↦ row ]

module _ {Codec V : Type 0} (schema : Unischema Codec) where
  -- the loop over the timesteps from `timestep`, of which `count` are left
  pub make_timesteps :
      ℕ → ℕ → List V → Dict String (Dict String V) → Result (Dict ℕ (Dict String V))
  make_timesteps timestep zero args kargs = ok []
  make_timesteps timestep (suc count) args kargs = do
    let fields_length = length schema.fields
    row ←
        make_namedtuple (tuple_names schema)
          (take fields_length (drop (timestep * fields_length) args)) (kargs_of kargs timestep)
    sequence_result ← make_timesteps (timestep + 1) count args kargs
    ok ((timestep, row) ∷ sequence_result)

  -- `make_namedtuple_tf_sequence`
  pub make_namedtuple_tf_sequence :
      Sequence → List V → Dict String (Dict String V) → Result (Dict ℕ (Dict String V))
  make_namedtuple_tf_sequence sequence args kargs = make_timesteps 0 sequence.length args kargs

module _ {Decimal Array Other : Type 0} (casts : Casts Decimal Array) where
  pub sanitize_timesteps :
      List (ℕ × Dict String (Option (Value Decimal Array Other)))
      → Result (List (ℕ × Dict String (Value Decimal Array Other)))
  unfolding sanitize_field_tf_types
  sanitize_timesteps [] = ok []
  sanitize_timesteps ((timestep, row) ∷ next_sample) = do
    row ← sanitize_field_tf_types casts row
    sequence ← sanitize_timesteps next_sample
    ok ((timestep, row) ∷ sequence)

  -- `dequeue_sample_impl` of `_tf_tensors_sequence`; that of the other function is the call of
  -- `_sanitize_field_tf_types`
  pub dequeue_sample_impl :
      List (ℕ × Dict String (Option (Value Decimal Array Other)))
      → Result (Dict String (Value Decimal Array Other))
  unfolding flatten
  dequeue_sample_impl next_sample =
      sanitize_timesteps next_sample >>= (λ sequence. ok (flatten sequence))
