-- ===== src/TfUtils/Graph.antt =====
-- The graph that `tf_tensors` builds: the tensors of a reader (dataset_toolkit/tf_utils.py).
use code_assist_analyzer.Prelude.{
  ℕ, Option, none, some, List, [], ◌∷◌, nat_beq, ltb, String, string_eq, ◌==◌, if◌then◌else◌, ◌⊎◌,
  inl, inr, Result, ok, raise, key_error, ◌>>=◌,
}
use code_assist_analyzer.Prelude.Dict.{Dict, get}
use code_assist_analyzer.Prelude.Numerals.{str}
use code_assist_analyzer.Sequence.{Sequence}
use code_assist_analyzer.Unischema.{UnischemaField, Unischema}
use code_assist_analyzer.TfUtils.{
  TfDtype, schema_to_tf_dtypes, schema_to_tf_dtypes_sequence, tuple_names, make_namedtuple,
  make_namedtuple_tf_sequence,
}

-- what the code asks of tensorflow: the tensors of `tf.py_func` and of the queue's `dequeue`, one for each
-- type, and the methods of a tensor
pub record Graph (Tensor : Type 0) : Type 0 where
  pub py_func : List TfDtype → List Tensor
  pub shuffled : ℕ → ℕ → List TfDtype → List Tensor → List Tensor
  pub set_shape : List (Option ℕ) → Tensor → Result Tensor
  pub rank : Tensor → Result ℕ  -- `len(tensor.get_shape())`
  pub string_split : Tensor → Tensor  -- the values of `tf.string_split` at null characters

module _ {Tensor : Type 0} (graph : Graph Tensor) where
  open graph use {py_func, shuffled, set_shape, rank, string_split}

  -- the tensors, through a shuffling queue if its capacity is positive
  abbrev pub queued : ℕ → ℕ → List TfDtype → List Tensor
  queued shuffling_queue_capacity min_after_dequeue dtypes =
      if ltb 0 shuffling_queue_capacity
      then shuffled shuffling_queue_capacity min_after_dequeue dtypes (py_func dtypes)
      else py_func dtypes

  -- the body of the loop of `_set_shape`
  unfoldable pub shaped : {Codec : Type 0} → UnischemaField Codec → Tensor → Result Tensor
  shaped field tensor = do
    tensor ← set_shape field.shape tensor
    dimensions ← if field.numpy_dtype == "string_" then rank tensor else ok 0
    ok (if nat_beq dimensions 1 then string_split tensor else tensor)

module _ {Codec Tensor : Type 0} (graph : Graph Tensor) (schema : Unischema Codec) where
  -- `_set_shape`, and the dict that it leaves
  unfoldable pub set_shapes : Dict String Tensor → Result (Dict String Tensor)
  set_shapes [] = ok []
  set_shapes ((k, tensor) ∷ fields_as_dict) = elim (get k schema.fields) [
    | none ↦ raise key_error
    | some unischema_field ↦ do
      tensor ← shaped graph unischema_field tensor
      others ← set_shapes fields_as_dict
      ok ((k, tensor) ∷ others)
  ]

  -- `_tf_tensors_nonsequence`
  unfoldable pub tf_tensors_nonsequence : ℕ → ℕ → Result (Dict String Tensor)
  unfolding schema_to_tf_dtypes
  tf_tensors_nonsequence shuffling_queue_capacity min_after_dequeue = do
    dtypes ← schema_to_tf_dtypes schema
    fields_as_dict ←
        make_namedtuple (tuple_names schema)
          (queued graph shuffling_queue_capacity min_after_dequeue dtypes) []
    fields_as_dict ← set_shapes fields_as_dict
    make_namedtuple (tuple_names schema) [] fields_as_dict

  -- the loop of `_tf_tensors_sequence` over the timesteps, under the texts of their numbers
  unfoldable pub set_timesteps :
      Dict ℕ (Dict String Tensor) → Result (Dict String (Dict String Tensor))
  set_timesteps [] = ok []
  set_timesteps ((timestep, row) ∷ fields_as_namedtuple) = do
    row ← set_shapes row
    fields_as_dict ← set_timesteps fields_as_namedtuple
    ok ((str timestep, row) ∷ fields_as_dict)

  -- `_tf_tensors_sequence`
  unfoldable pub tf_tensors_sequence : Sequence → ℕ → ℕ → Result (Dict ℕ (Dict String Tensor))
  unfolding schema_to_tf_dtypes_sequence
  tf_tensors_sequence sequence shuffling_queue_capacity min_after_dequeue = do
    dtypes ← schema_to_tf_dtypes_sequence schema sequence
    fields_as_namedtuple ←
        make_namedtuple_tf_sequence schema sequence
          (queued graph shuffling_queue_capacity min_after_dequeue dtypes) []
    fields_as_dict ← set_timesteps fields_as_namedtuple
    make_namedtuple_tf_sequence schema sequence [] fields_as_dict

  -- `tf_tensors`
  pub tf_tensors :
      Option Sequence → ℕ → ℕ → Result (Dict String Tensor ⊎ Dict ℕ (Dict String Tensor))
  unfolding tf_tensors_nonsequence tf_tensors_sequence
  tf_tensors none capacity min_after_dequeue =
      tf_tensors_nonsequence capacity min_after_dequeue >>= (λ tensors. ok (inl tensors))
  tf_tensors (some sequence) capacity min_after_dequeue =
      tf_tensors_sequence sequence capacity min_after_dequeue >>= (λ tensors. ok (inr tensors))
