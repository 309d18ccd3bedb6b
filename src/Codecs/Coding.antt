-- ===== src/Codecs/Coding.antt =====
-- The codecs of dataset_toolkit/codecs.py as the interface of a schema's fields, but for
-- CompressedImageCodec, which is PIL's. numpy's serialization and its scalar types are parameters.
use code_assist_analyzer.Prelude.{Bool, String, Result, ok, raise, type_error, ◌>>=◌}
use code_assist_analyzer.Codecs.{Ndarray, Value, ndarray, encode_ndarray, SparkType, encode_scalar}
use code_assist_analyzer.Unischema.{UnischemaField, Coding}

pub data Codec : Type 0 where
  ndarray_codec : Codec
  scalar_codec : SparkType → Codec

-- what a column of a dataframe holds
pub data Encoded (Object Bytes : Type 0) : Type 0 where
  bytes : Bytes → Encoded Object Bytes
  plain : Value Object → Encoded Object Bytes

-- `np.save` and `np.load`, int(), the test for a text, and the call of a numpy type
pub record Numpy (Object Bytes : Type 0) : Type 0 where
  pub save : Ndarray → Bytes
  pub load : Bytes → Result Ndarray
  pub to_int : Value Object → Result (Value Object)
  pub is_basestring : Value Object → Bool
  pub as_type : String → Value Object → Result (Value Object)

module _ {Object Bytes : Type 0} (numpy : Numpy Object Bytes) where
  open numpy use {save, load, to_int, is_basestring, as_type}

  -- `encode` of the codec of a field
  abbrev encode_by : Codec → UnischemaField Codec → Value Object → Result (Encoded Object Bytes)
  encode_by ndarray_codec field value =
      encode_ndarray save field.numpy_dtype field.shape value >>= (λ contents. ok (bytes contents))
  encode_by (scalar_codec spark_type) field value =
      encode_scalar to_int is_basestring spark_type value >>= (λ scalar. ok (plain scalar))

  -- `decode` of the codec of a field, of what its `encode` returns; other contents are out of the model
  abbrev decode_by : Codec → UnischemaField Codec → Encoded Object Bytes → Result (Value Object)
  decode_by ndarray_codec field (bytes contents) = load contents >>= (λ array. ok (ndarray array))
  decode_by ndarray_codec field (plain value) = raise type_error
  decode_by (scalar_codec spark_type) field (plain value) = as_type field.numpy_dtype value
  decode_by (scalar_codec spark_type) field (bytes contents) = raise type_error

  abbrev pub codecs : Coding Codec (Value Object) (Encoded Object Bytes)
  codecs = record {
    encode = λ field value. encode_by field.codec field value;
    decode = λ field encoded. decode_by field.codec field encoded;
  }
