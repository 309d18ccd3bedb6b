-- ===== src/TfUtils/Shapes.antt =====
-- What `_set_shape` leaves of the tensors of a row, said of the tensors themselves
-- (dataset_toolkit/tf_utils.py).
use code_assist_analyzer.Prelude.{
  ℕ, some, List, [], ◌∷◌, nat_eq, String, string_eq, ==-cases, ◌≡◌, ◌≢◌, refl, sym, ap, inl, inr,
  ok, >>=-of_ok,
}
use code_assist_analyzer.Prelude.Dict.{Dict, keys, get}
use code_assist_analyzer.TfUtils.Graph.{Graph, shaped, set_shapes}
use code_assist_analyzer.Unischema.{Unischema, UnischemaField}

module _ {Codec Tensor : Type 0} (graph : Graph Tensor) where
  -- A tensor of a field and what becomes of it: the tensor has the shape of the field; a vector of
  -- strings is then split at its null characters.
  pub data HasShape (field : UnischemaField Codec) (tensor : Tensor) : Tensor → Type 0 where
    is_numeric :
        {with_shape : Tensor}
        → graph.set_shape field.shape tensor ≡ ok with_shape
        → field.numpy_dtype ≢ "string_"
        → HasShape field tensor with_shape
    is_string :
        {with_shape : Tensor} {dimensions : ℕ}
        → graph.set_shape field.shape tensor ≡ ok with_shape
        → field.numpy_dtype ≡ "string_"
        → graph.rank with_shape ≡ ok dimensions
        → dimensions ≢ 1
        → HasShape field tensor with_shape
    is_vector_of_strings :
        {with_shape : Tensor}
        → graph.set_shape field.shape tensor ≡ ok with_shape
        → field.numpy_dtype ≡ "string_"
        → graph.rank with_shape ≡ ok 1
        → HasShape field tensor (graph.string_split with_shape)

  shaped-HasShape :
      (field : UnischemaField Codec) (tensor : Tensor) {result : Tensor}
      → HasShape field tensor result
      → shaped graph field tensor ≡ ok result
  unfolding shaped
  shaped-HasShape field tensor (is_numeric sets other) =
      >>=-of_ok (graph.set_shape field.shape tensor) _ sets
        (elim (==-cases field.numpy_dtype "string_") [
          | inl (same, _) ↦ absurd (other same)
          | inr (_, h) ↦ rw h refl
        ])
  shaped-HasShape field tensor (is_string {with_shape} {dimensions} sets same ranked other) =
      >>=-of_ok (graph.set_shape field.shape tensor) _ sets
        (elim (==-cases field.numpy_dtype "string_") [
          | inr (differs, _) ↦ absurd (differs same)
          | inl (_, h) ↦ rw h (
              >>=-of_ok (graph.rank with_shape) _ ranked (elim (==-cases dimensions 1) [
                | inl (one, _) ↦ absurd (other one)
                | inr (_, g) ↦ rw g refl
              ]))
        ])
  shaped-HasShape field tensor (is_vector_of_strings {with_shape} sets same ranked) =
      >>=-of_ok (graph.set_shape field.shape tensor) _ sets
        (elim (==-cases field.numpy_dtype "string_") [
          | inr (differs, _) ↦ absurd (differs same)
          | inl (_, h) ↦ rw h (>>=-of_ok (graph.rank with_shape) _ ranked refl)
        ])

module _ {Codec Tensor : Type 0} (graph : Graph Tensor) (schema : Unischema Codec) where
  -- each tensor of a row under the name of a field of the schema, and what becomes of it under this name
  abbrev pub RowHasShapes : Dict String Tensor → Dict String Tensor → Type 0
  RowHasShapes [] [] = Unit
  RowHasShapes ((k, tensor) ∷ row) ((name, result) ∷ results) =
      (name ≡ k)
      × ((field : UnischemaField Codec) × (get k schema.fields ≡ some field)
          × HasShape graph field tensor result)
      × RowHasShapes row results
  RowHasShapes _ _ = ⊥

  -- the same for the rows of a sequence
  abbrev pub RowsHaveShapes : List (Dict String Tensor) → List (Dict String Tensor) → Type 0
  RowsHaveShapes [] [] = Unit
  RowsHaveShapes (row ∷ rows) (result ∷ results) =
      RowHasShapes row result × RowsHaveShapes rows results
  RowsHaveShapes _ _ = ⊥

  pub keys-RowHasShapes :
      (row result : Dict String Tensor) → RowHasShapes row result → keys result ≡ keys row
  keys-RowHasShapes [] [] h = refl
  keys-RowHasShapes [] (entry ∷ results) h = absurd h
  keys-RowHasShapes (entry ∷ row) [] h = absurd h
  keys-RowHasShapes ((k, tensor) ∷ row) ((name, t) ∷ results) (same, _, rest) =
      rw same (ap (◌∷◌ k) (keys-RowHasShapes row results rest))

  pub set_shapes-RowHasShapes :
      (row result : Dict String Tensor)
      → RowHasShapes row result
      → set_shapes graph schema row ≡ ok result
  unfolding set_shapes
  set_shapes-RowHasShapes [] [] h = refl
  set_shapes-RowHasShapes [] (entry ∷ results) h = absurd h
  set_shapes-RowHasShapes (entry ∷ row) [] h = absurd h
  set_shapes-RowHasShapes ((k, tensor) ∷ row) ((name, t) ∷ results)
        (same, (field, found, shape), rest) =
      rw (set_shapes, found)
        (>>=-of_ok (shaped graph field tensor) _ (shaped-HasShape graph field tensor shape) (
          >>=-of_ok (set_shapes graph schema row) _ (set_shapes-RowHasShapes row results rest)
            (ap (λ j. ok ((j, t) ∷ results)) (sym same))))
