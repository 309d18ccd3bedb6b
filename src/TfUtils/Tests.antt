-- ===== src/TfUtils/Tests.antt =====
-- A schema of two fields, read as sequences of two rows.
use code_assist_analyzer.Prelude.{
  Bool, true, ap, ◌==◌, ℕ, ◌+◌, false, Option, none, some, length, if◌then◌else◌, ltb, ◌*◌, List,
  [], ◌∷◌, map, String, string_eq, nat_eq, ◌≡◌, ◌≢◌, refl, ok,
}
use code_assist_analyzer.Prelude.Dict.{Dict, values, get, has_key}
use code_assist_analyzer.Prelude.Int.{pos}
use code_assist_analyzer.Prelude.Numerals.{str}
use code_assist_analyzer.Prelude.Sorted.{sort_by, insert_by}
use code_assist_analyzer.Sequence.{Sequence, enumerate_from}
use code_assist_analyzer.TfUtils.{
  TfDtype, tf_int32, tf_string, Value, decimal, ndarray, Casts, flatten, numpy_to_tf_dtypes,
  tuple_names, make_namedtuple_tf_sequence, dtypes_of, dtypes_of_timesteps, schema_to_tf_dtypes,
  schema_to_tf_dtypes_sequence, dequeue_sample_impl,
}
use code_assist_analyzer.TfUtils.Graph.{Graph, tf_tensors_nonsequence, tf_tensors_sequence}
use code_assist_analyzer.TfUtils.Dequeued.{dequeue_sample_impl-dtypes}
use code_assist_analyzer.TfUtils.Sequences.{make_namedtuple_tf_sequence-flatten}
use code_assist_analyzer.TfUtils.Shapes.{HasShape, is_numeric, is_vector_of_strings, RowHasShapes}
use code_assist_analyzer.TfUtils.Tensors.{
  tf_tensors_nonsequence-RowHasShapes, tf_tensors_sequence-RowsHaveShapes,
}
use code_assist_analyzer.TfUtils.Types.{common_types, tensor_dtype}
use code_assist_analyzer.Unischema.{Unischema, UnischemaField}

abbrev field : String → String → UnischemaField (Unit {0})
field name numpy_dtype = record {
  name = name;
  numpy_dtype = numpy_dtype;
  shape = [];
  codec = tt;
  nullable = false;
}

other_dtype : ◌≢◌ {A = String} "uint16" "string_"
other_dtype e = cc

decimal_dtype : ◌≢◌ {A = String} "Decimal" "string_"
decimal_dtype e = false_is_not_true (ap (λ name. name == "string_") e)
  where
    false_is_not_true : ◌≢◌ {A = Bool} false true
    false_is_not_true h = cc

abbrev schema : Unischema (Unit {0})
schema = record {
  name = "s";
  fields = ("id", field "id" "uint16") ∷ ("price", field "price" "Decimal") ∷ [];
}

abbrev pairs : Sequence
pairs = record { length = 2; delta_threshold = pos 1; timestamp_field = "id" }

abbrev row : ℕ → ℕ → Dict String ℕ
row id price = ("id", id) ∷ ("price", price) ∷ []

make_namedtuple_tf_sequence-flatten_example :
    make_namedtuple_tf_sequence schema pairs
      (values (flatten (enumerate_from 0 (row 1 10 ∷ row 2 20 ∷ []))))
      []
    ≡ ok (enumerate_from 0 (row 1 10 ∷ row 2 20 ∷ []))
unfolding tuple_names sort_by insert_by has_key
make_namedtuple_tf_sequence-flatten_example =
    make_namedtuple_tf_sequence-flatten schema pairs (row 1 10 ∷ row 2 20 ∷ []) (refl, (refl, tt))
      refl (refl, (refl, tt))

-- A row of a number and of a vector of strings. Tensors are numbers, a shape of n dimensions that is set
-- adds 100 * (n + 1), from which the rank is read, and 1000 is added where a tensor is split.
abbrev tagged : Unischema (Unit {0})
tagged = record {
  name = "t";
  fields =
      ("id", field "id" "uint16")
      ∷ (
        "tags",
        record {
          name = "tags";
          numpy_dtype = "string_";
          shape = none ∷ [];
          codec = tt;
          nullable = false;
        },
      )
      ∷ [];
}

abbrev tagged_row : ℕ → ℕ → Dict String ℕ
tagged_row id tags = ("id", id) ∷ ("tags", tags) ∷ []

abbrev graph : Graph ℕ
graph = record {
  py_func = numbered 1;
  shuffled = λ capacity min_after_dequeue dtypes tensors. tensors;
  set_shape = λ shape tensor. ok (tensor + 100 * (length shape + 1));
  rank = λ tensor. ok (rank_of tensor);
  string_split = λ tensor. tensor + 1000;
}
  where
    numbered : ℕ → List TfDtype → List ℕ
    numbered n [] = []
    numbered n (dtype ∷ dtypes) = n ∷ numbered (n + 1) dtypes

    rank_of : ℕ → ℕ
    rank_of n = if ltb n 200 then 0 else 1

id-HasShape : (n : ℕ) → HasShape graph (field "id" "uint16") n (n + 100)
id-HasShape n = is_numeric refl other_dtype

tags-HasShape :
    HasShape graph
      (record {
        name = "tags";
        numpy_dtype = "string_";
        shape = none ∷ [];
        codec = tt;
        nullable = false;
      })
      2
      1202
tags-HasShape = is_vector_of_strings refl refl refl

tf_tensors_nonsequence-RowHasShapes_example :
    tf_tensors_nonsequence graph tagged 5 1 ≡ ok (tagged_row 101 1202)
unfolding tuple_names sort_by insert_by has_key schema_to_tf_dtypes dtypes_of numpy_to_tf_dtypes get
tf_tensors_nonsequence-RowHasShapes_example =
    tf_tensors_nonsequence-RowHasShapes graph tagged 5 1 (tagged_row 1 2) (tagged_row 101 1202)
      (refl, (refl, tt)) refl refl refl
      ((refl, (_, refl, id-HasShape 1), (refl, (_, refl, tags-HasShape), tt)))

tf_tensors_sequence-RowsHaveShapes_example :
    tf_tensors_sequence graph schema pairs 0 0
    ≡ ok (enumerate_from 0 (row 101 102 ∷ row 103 104 ∷ []))
unfolding tuple_names sort_by insert_by has_key schema_to_tf_dtypes_sequence dtypes_of_timesteps
    dtypes_of numpy_to_tf_dtypes get
tf_tensors_sequence-RowsHaveShapes_example =
    tf_tensors_sequence-RowsHaveShapes graph schema pairs 0 0 (row 1 2 ∷ row 3 4 ∷ [])
      (row 101 102 ∷ row 103 104 ∷ []) (refl, (refl, tt)) refl refl refl (refl, (refl, tt))
      (row_shapes 1 2, (row_shapes 3 4, tt))
  where
    row_shapes :
        (id price : ℕ) → RowHasShapes graph schema (row id price) (row (id + 100) (price + 100))
    row_shapes id price = (
      refl,
      (_, refl, is_numeric refl other_dtype),
      (refl, (_, refl, is_numeric refl decimal_dtype), tt),
    )

abbrev casts : Casts ℕ ℕ
casts = record { normalized_str = str; astype = λ dtype array. array }

abbrev as_dtype : String → Option TfDtype
as_dtype name = get name common_types

abbrev sample : ℕ → ℕ → Dict String (Option (Value ℕ ℕ (Unit {0})))
sample id price = ("id", some (ndarray "uint16" id)) ∷ ("price", some (decimal price)) ∷ []

other_name : ◌≢◌ {A = String} "uint16" "Decimal"
other_name e = cc

dequeue_sample_impl-dtypes_example :
    (flattened : Dict String (Value ℕ ℕ (Unit {0}))) × (dequeue_sample_impl casts
        (enumerate_from 0 (sample 1 10 ∷ sample 2 20 ∷ []))
      ≡ ok flattened)
    × (map (tensor_dtype as_dtype) (values flattened)
        ≡ map some (tf_int32 ∷ tf_string ∷ tf_int32 ∷ tf_string ∷ []))
unfolding get has_key schema_to_tf_dtypes_sequence dtypes_of_timesteps dtypes_of numpy_to_tf_dtypes
dequeue_sample_impl-dtypes_example =
    dequeue_sample_impl-dtypes casts as_dtype
      (refl, (refl, (refl, (refl, (refl, (refl, (refl, (refl, (refl, (refl, tt)))))))))) schema
      pairs (sample 1 10 ∷ sample 2 20 ∷ []) (refl, (refl, tt)) refl
      (
        (refl, (refl, other_name), (refl, refl, tt)),
        ((refl, (refl, other_name), (refl, refl, tt)), tt),
      )
      refl
