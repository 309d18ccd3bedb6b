-- ===== src/Codecs.antt =====
-- The shape check and the checks before encoding of dataset_toolkit/codecs.py. numpy's serialization
-- and the types of values are parameters.
pub mod Shapes
pub mod Coding
mod Tests
use code_assist_analyzer.Prelude.{
  ℕ, zero, suc, Bool, true, false, not, Option, none, some, List, [], ◌∷◌, length, nat_beq, leb,
  String, string_eq, Eq, ◌==◌, if◌then◌else◌, Result, ok, raise, value_error, ◌>>=◌, ◌>>◌, raise_if,
}

-- the test of a dimension: if both are true, they are equal
unfoldable pub compliant_dimension : ℕ → Option ℕ → Bool
compliant_dimension n none = true
compliant_dimension n (some m) =
    if nat_beq n 0 then true else if nat_beq m 0 then true else nat_beq n m

-- the loop over the dimensions of two shapes of one length
unfoldable pub compliant_dimensions : List ℕ → List (Option ℕ) → Bool
compliant_dimensions [] b = true
compliant_dimensions (n ∷ a) [] = true
compliant_dimensions (n ∷ a) (m ∷ b) =
    let rest = compliant_dimensions a b in if compliant_dimension n m then rest else false

-- `_is_compliant_shape` of the shape of an array and of a field
unfoldable pub is_compliant_shape : List ℕ → List (Option ℕ) → Bool
is_compliant_shape a b = if nat_beq (length a) (length b) then compliant_dimensions a b else false

-- a value that is given to a codec: an array, or another object
pub record Ndarray : Type 0 where
  pub dtype : String
  pub shape : List ℕ
  pub contents : List ℕ

pub data Value (Object : Type 0) : Type 0 where
  ndarray : Ndarray → Value Object
  object : Object → Value Object

-- `NdarrayCodec.encode` for a field of the type and shape; `save` is numpy's.
unfoldable pub encode_ndarray :
    {Object Bytes : Type 0}
    → (Ndarray → Bytes)
    → String
    → List (Option ℕ)
    → Value Object
    → Result Bytes
encode_ndarray save expected_dtype expected_shape (object o) = raise value_error
encode_ndarray save expected_dtype expected_shape (ndarray array) =
    raise_if (not (expected_dtype == array.dtype)) value_error
    >> raise_if (not (is_compliant_shape array.shape expected_shape)) value_error
    >> ok (save array)

-- the Spark types that `ScalarCodec.encode` tells apart
pub data SparkType : Type 0 where
  byte_type short_type integer_type long_type string_type other_type : SparkType

abbrev pub is_integral : SparkType → Bool
is_integral byte_type = true
is_integral short_type = true
is_integral integer_type = true
is_integral long_type = true
is_integral _ = false

-- `ScalarCodec.encode`; `to_int` is Python's int(), and `is_basestring` an isinstance test.
unfoldable pub encode_scalar :
    {Object : Type 0}
    → (Object → Result Object)
    → (Object → Bool)
    → SparkType
    → Object
    → Result Object
encode_scalar to_int is_basestring string_type value =
    if is_basestring value then ok value else raise value_error
encode_scalar to_int is_basestring spark_type value =
    if is_integral spark_type then to_int value else ok value
