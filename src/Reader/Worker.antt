-- ===== src/Reader/Worker.antt =====
-- The Worker of dataset_toolkit/reader.py. Reading the columns of a row group is the parameter
-- `read`, which may raise, as pyarrow does on a partition column; opening files, and the digest in the key of the cache, are outside.
pub mod Rows
pub mod Masks
pub mod Filtering
pub mod Missing
mod Tests
use code_assist_analyzer.Prelude.{
  Bool, true, false, not, ◌||◌, Option, none, some, List, [], ◌∷◌, map, any, String, string_eq, Eq,
  if◌then◌else◌, Result, ok, raise, raise_if, value_error, key_error, index_error, runtime_error,
  type_error, ◌>>=◌,
}
use code_assist_analyzer.Prelude.Dict.{Dict, get, values, put, update}
use code_assist_analyzer.Prelude.PySet.{union, difference}
use code_assist_analyzer.Predicates.{Predicate}
use code_assist_analyzer.Unischema.{UnischemaField, Unischema, Coding, decode_row, same_keys}
use code_assist_analyzer.Caches
use code_assist_analyzer.Caches.{Store, Cache, null_cache, local_disk_cache}

abbrev pub Row : Type 0 → Type 0
Row Value = Dict String (Option Value)

-- `_merge_two_dicts`: the entries of the second dominate
pub merge_two_dicts : {V : Type 0} → Dict String V → Dict String V → Dict String V
merge_two_dicts a b = update a b

-- `_select_cols`: the entries of the keys, in their order. The keys are a set, which never equals the
-- list of the keys of a dict, so that the test for that is always false.
pub select_cols : {V : Type 0} → Dict String V → List String → Result (Dict String V)
select_cols a_dict [] = ok []
select_cols a_dict (field_name ∷ keys) = elim (get field_name a_dict) [
  | none ↦ raise key_error
  | some value ↦ select_cols a_dict keys >>= (λ rest. ok (put field_name value rest))
]

-- `[row for i, row in enumerate(rows) if mask[i]]`
pub masked : {A : Type 0} → List A → List Bool → Result (List A)
masked [] mask = ok []
masked (row ∷ rows) [] = raise index_error
masked (row ∷ rows) (kept ∷ mask) =
    masked rows mask >>= (λ rest. ok (if kept then row ∷ rest else rest))

-- `[f(a, b) for a, b in zip(xs, ys)]`
pub zip_with : {A B C : Type 0} → (A → B → C) → List A → List B → List C
zip_with f [] ys = []
zip_with f (x ∷ xs) [] = []
zip_with f (x ∷ xs) (y ∷ ys) = f x y ∷ zip_with f xs ys

-- a list comprehension whose calls may raise
pub each : {A B : Type 0} → (A → Result B) → List A → Result (List B)
each f [] = ok []
each f (x ∷ xs) = f x >>= (λ y. each f xs >>= (λ ys. ok (y ∷ ys)))

abbrev pub is_empty : {A : Type 0} → List A → Bool
is_empty [] = true
is_empty (x ∷ xs) = false

-- `set(field.name for field in schema.fields.values())`
abbrev pub schema_names : {Codec : Type 0} → Unischema Codec → List String
schema_names schema = union [] (map (λ field. field.name) (values schema.fields))

module _ {Codec Value Encoded : Type 0} (coding : Coding Codec Value Encoded)
    (schema : Unischema Codec) (partition_names : List String)
    (read : List String → Result (List (Row Encoded))) where
  pub load_rows : Result (List (Row Value))
  load_rows = do
    all_rows ← read (difference (schema_names schema) partition_names)
    each (λ row. decode_row coding row schema) all_rows

  -- the columns that a predicate needs, decoded
  pub predicate_rows : List String → Result (List (Row Value))
  predicate_rows predicate_column_names = do
    predicate_rows ← read predicate_column_names
    each (λ row. select_cols row predicate_column_names >>= (λ cols. decode_row coding cols schema))
        predicate_rows

  -- what is left to do with the rows that match: the remaining columns, where there are any
  pub add_other_columns : List String → List Bool → List (Row Value) → Result (List (Row Value))
  add_other_columns other_column_names mask filtered =
      if is_empty other_column_names then ok filtered else (do
        other_rows ← read other_column_names
        other_rows ← masked other_rows mask
        decoded_other_rows ← each (λ row. decode_row coding row schema) other_rows
        ok (zip_with merge_two_dicts decoded_other_rows filtered))

  -- `_load_rows_with_predicate` once the column names are checked
  pub load_matching_rows :
      Predicate (Option Value) → List String → List String → Result (List (Row Value))
  load_matching_rows predicate predicate_column_names other_column_names = do
    rows ← predicate_rows predicate_column_names
    mask ← each predicate.do_include rows
    (if any (λ kept. kept) mask
        then (masked rows mask >>= add_other_columns other_column_names mask)
        else ok [])

  pub load_rows_with_predicate : Predicate (Option Value) → Result (List (Row Value))
  load_rows_with_predicate predicate =
      let predicate_column_names = union [] predicate.get_fields in
      let other_column_names =
        difference (difference (schema_names schema) predicate_column_names) partition_names in
      (do
        _ ← raise_if (is_empty predicate_column_names) value_error
        _ ←
            raise_if (not (is_empty (difference predicate_column_names (schema_names schema))))
              value_error
        load_matching_rows predicate predicate_column_names other_column_names)

  -- `make_namedtuple` takes the fields of the schema and no others.
  pub make_namedtuple : Row Value → Result (Row Value)
  make_namedtuple row = if same_keys row schema.fields then ok row else raise type_error

  -- the rows of a piece, through the cache when there is no predicate, and the cache after
  pub loaded :
      {State : Type 0}
      → Store (List (Row Value)) State
      → String
      → Option (Predicate (Option Value))
      → Cache State
      → Result (List (Row Value)) × Cache State
  loaded store cache_key none cache = Caches.get store cache_key load_rows cache
  loaded store cache_key (some predicate) null_cache =
      (load_rows_with_predicate predicate, null_cache)
  loaded store cache_key (some predicate) (local_disk_cache state) =
      (raise runtime_error, local_disk_cache state)

  -- `Worker.process`: what it publishes, and the cache after. `form` makes the items of the rows:
  -- the sequences of a Sequence, or the rows themselves.
  pub process :
      {State Item : Type 0}
      → Store (List (Row Value)) State
      → (List (Row Value) → List Item)
      → String
      → Option (Predicate (Option Value))
      → Cache State
      → Result (List Item) × Cache State
  process store form cache_key worker_predicate cache =
      let (all_cols, cache') = loaded store cache_key worker_predicate cache in
      (all_cols >>= (λ rows. each make_namedtuple rows >>= (λ tuples. ok (form tuples))), cache')
