-- ===== src/TfUtils/Tensors.antt =====
-- The tensors of a sequence go through named tuples twice: by position from the queue, and by name once
-- their shapes are set (dataset_toolkit/tf_utils.py).
use code_assist_analyzer.Prelude.{
  ℕ, suc, List, [], ◌∷◌, All, length, String, string_eq, ◌≡◌, refl, sym, ap, ◌∙◌, arith, ok,
  >>=-of_ok,
}
use code_assist_analyzer.Prelude.Dict.{Dict, keys, values, Distinct}
use code_assist_analyzer.Sequence.{Sequence, enumerate_from}
use code_assist_analyzer.TfUtils.{
  TfDtype, tuple_names, make_namedtuple, make_timesteps, make_namedtuple_tf_sequence,
  schema_to_tf_dtypes, schema_to_tf_dtypes_sequence,
}
use code_assist_analyzer.TfUtils.Graph.{
  Graph, set_shapes, set_timesteps, queued, tf_tensors_nonsequence, tf_tensors_sequence,
}
use code_assist_analyzer.TfUtils.Shapes.{
  RowHasShapes, RowsHaveShapes, keys-RowHasShapes, set_shapes-RowHasShapes,
}
use code_assist_analyzer.TfUtils.Names.{all_values}
use code_assist_analyzer.TfUtils.Sequences.{
  tuple_names-Apart, make_namedtuple-values, make_timesteps-all_values,
}
use code_assist_analyzer.Unischema.{Unischema}
use code_assist_analyzer.TfUtils.ByName.{
  texts, Stored-texts, make_namedtuple_by_name, make_timesteps-Stored,
}

module _ {Codec Tensor : Type 0} (graph : Graph Tensor) (schema : Unischema Codec) where
  set_timesteps-RowsHaveShapes :
      (timestep : ℕ) (rows results : List (Dict String Tensor))
      → RowsHaveShapes graph schema rows results
      → set_timesteps graph schema (enumerate_from timestep rows) ≡ ok (texts timestep results)
  unfolding set_timesteps enumerate_from
  set_timesteps-RowsHaveShapes timestep [] [] h = refl
  set_timesteps-RowsHaveShapes timestep [] (result ∷ results) h = absurd h
  set_timesteps-RowsHaveShapes timestep (row ∷ rows) [] h = absurd h
  set_timesteps-RowsHaveShapes timestep (row ∷ rows) (result ∷ results) h =
      >>=-of_ok (set_shapes graph schema row) _
        (set_shapes-RowHasShapes graph schema row result h.0)
        (>>=-of_ok (set_timesteps graph schema (enumerate_from (suc timestep) rows)) _
          (set_timesteps-RowsHaveShapes (suc timestep) rows results h.1) refl)

  RowsHaveShapes-names :
      (rows results : List (Dict String Tensor))
      → RowsHaveShapes graph schema rows results
      → All (λ row. keys row ≡ tuple_names schema) rows
      → All (λ row. keys row ≡ tuple_names schema) results × (length rows ≡ length results)
  RowsHaveShapes-names [] [] h rows_named = (tt, refl)
  RowsHaveShapes-names [] (result ∷ results) h rows_named = absurd h
  RowsHaveShapes-names (row ∷ rows) [] h rows_named = absurd h
  RowsHaveShapes-names (row ∷ rows) (result ∷ results) h rows_named =
      let (results_named, same) = RowsHaveShapes-names rows results h.1 rows_named.1 in
      ((keys-RowHasShapes graph schema row result h.0 ∙ rows_named.0, results_named), ap suc same)

  -- Where the tensors that come from `py_func`, or from the queue behind it, are those of the schema's
  -- fields, which have different names, the reader's tensors are one named tuple, in which each has become
  -- one with the shape of its field, split at its null characters if it is a vector of strings. The graph
  -- gives each tensor this shape, and then answers for its rank where its field is a string.
  pub tf_tensors_nonsequence-RowHasShapes :
      (shuffling_queue_capacity min_after_dequeue : ℕ) {dtypes : List TfDtype}
      (row result : Dict String Tensor)
      → Distinct schema.fields
      → schema_to_tf_dtypes schema ≡ ok dtypes
      → queued graph shuffling_queue_capacity min_after_dequeue dtypes ≡ values row
      → keys row ≡ tuple_names schema
      → RowHasShapes graph schema row result
      → tf_tensors_nonsequence graph schema shuffling_queue_capacity min_after_dequeue ≡ ok result
  unfolding tf_tensors_nonsequence
  tf_tensors_nonsequence-RowHasShapes capacity min {dtypes} row result distinct typed tensors
        row_named shapes =
      let names = tuple_names schema in
      >>=-of_ok (schema_to_tf_dtypes schema) _ typed (
        >>=-of_ok (make_namedtuple names (queued graph capacity min dtypes) []) _
          (ap (λ vs. make_namedtuple names vs []) tensors
            ∙ make_namedtuple-values schema row row_named)
          (>>=-of_ok (set_shapes graph schema row) _
            (set_shapes-RowHasShapes graph schema row result shapes)
            (make_namedtuple_by_name names result (tuple_names-Apart schema distinct)
              (keys-RowHasShapes graph schema row result shapes ∙ row_named))))

  -- Where the tensors that come from `py_func`, or from the queue behind it, are those of the fields of one
  -- timestep after the other, the reader's tensors are one named tuple for each timestep, in which each
  -- tensor has become one with the shape of its field, split at its null characters if it is a vector of
  -- strings. The fields of the schema have different names; the graph gives each tensor this shape, and
  -- then answers for its rank where its field is a string.
  pub tf_tensors_sequence-RowsHaveShapes :
      (sequence : Sequence) (shuffling_queue_capacity min_after_dequeue : ℕ) {dtypes : List TfDtype}
      (rows results : List (Dict String Tensor))
      → Distinct schema.fields
      → schema_to_tf_dtypes_sequence schema sequence ≡ ok dtypes
      → queued graph shuffling_queue_capacity min_after_dequeue dtypes ≡ all_values rows
      → length rows ≡ sequence.length
      → All (λ row. keys row ≡ tuple_names schema) rows
      → RowsHaveShapes graph schema rows results
      → tf_tensors_sequence graph schema sequence shuffling_queue_capacity min_after_dequeue
        ≡ ok (enumerate_from 0 results)
  unfolding tf_tensors_sequence make_namedtuple_tf_sequence
  tf_tensors_sequence-RowsHaveShapes sequence capacity min {dtypes} rows results distinct typed
        tensors complete rows_named shapes =
      let (results_named, same) = RowsHaveShapes-names rows results shapes rows_named in
      >>=-of_ok (schema_to_tf_dtypes_sequence schema sequence) _ typed (
        >>=-of_ok (make_timesteps schema 0 sequence.length (queued graph capacity min dtypes) []) _
          (first_pass tensors)
          (>>=-of_ok (set_timesteps graph schema (enumerate_from 0 rows)) _
            (set_timesteps-RowsHaveShapes 0 rows results shapes)
            (ap (λ n. make_timesteps schema 0 n [] (texts 0 results)) (sym complete ∙ same)
              ∙ make_timesteps-Stored schema results 0 (texts 0 results)
                  (tuple_names-Apart schema distinct) (Stored-texts 0 results) results_named)))
    where
      first_pass :
          queued graph capacity min dtypes ≡ all_values rows
          → make_timesteps schema 0 sequence.length (queued graph capacity min dtypes) []
            ≡ ok (enumerate_from 0 rows)
      first_pass e =
          ap (λ vs. make_timesteps schema 0 sequence.length vs []) e
          ∙ ap (λ n. make_timesteps schema 0 n (all_values rows) []) (sym complete)
          ∙ make_timesteps-all_values schema rows 0 [] (omega arith) rows_named
