-- ===== src/RowGroups.antt =====
-- Row-group indexes: dataset_toolkit/etl/rowgroup_indexers.py, the combination of
-- dataset_toolkit/etl/rowgroup_indexing.py and the selector of dataset_toolkit/selectors.py.
-- A column's values, once decoded, are keys `K` with `==`, or numpy arrays of them.
pub mod Entries
pub mod Lookup
pub mod Selection
mod Tests
use code_assist_analyzer.Prelude.{
  ℕ, zero, suc, Bool, true, false, Option, none, some, List, [], ◌∷◌, String, string_eq, nat_eq, Eq,
  ◌==◌, if◌then◌else◌, nat_beq, length, Result, ok, raise, value_error, type_error, key_error,
  index_error, ◌>>=◌,
}
use code_assist_analyzer.Prelude.Dict.{Dict, get, put, has_key}
use code_assist_analyzer.Prelude.PySet.{contains, add, union}

-- a decoded value of a row
pub data Cell (K : Type 0) : Type 0 where
  null : Cell K
  text : K → Cell K  -- numpy.string_
  integer : K → Cell K  -- numpy.integer
  texts : List K → Cell K  -- an ndarray that is empty or starts with a numpy.string_
  array : K → List K → Cell K  -- any other ndarray
  other : K → Cell K  -- another hashable scalar

pub record SingleFieldIndexer (K : Type 0) : Type 0 where
  pub index_name : String
  pub column_name : String
  pub index_data : Dict K (List ℕ)

pub record FieldNotNullIndexer : Type 0 where
  pub index_name : String
  pub column_name : String
  pub index_data : List ℕ

-- the two subclasses of RowGroupIndexerBase
pub data Indexer (K : Type 0) : Type 0 where
  single : SingleFieldIndexer K → Indexer K
  not_null : FieldNotNullIndexer → Indexer K

-- `[row[column_name] for row in decoded_rows]`
pub field_column : {K : Type 0} → String → List (Dict String (Cell K)) → Result (List (Cell K))
field_column column_name [] = ok []
field_column column_name (row ∷ rows) = elim (get column_name row) [
  | none ↦ raise key_error
  | some cell ↦ field_column column_name rows >>= (λ cells. ok (cell ∷ cells))
]

abbrev pub is_single_val : {K : Type 0} → Cell K → Bool
is_single_val (text k) = true
is_single_val (integer k) = true
is_single_val _ = false

abbrev pub is_list_of_vals : {K : Type 0} → Cell K → Bool
is_list_of_vals (texts ks) = true
is_list_of_vals _ = false

abbrev pub or_empty : Option (List ℕ) → List ℕ
or_empty none = []
or_empty (some pieces) = pieces

module _ {K : Type 0} ⦃e : Eq K⦄ where
  -- `self._index_data[value_key]` of a defaultdict: the set, and the dict with the key in it
  pub get_row_group_indexes : K → SingleFieldIndexer K → List ℕ × SingleFieldIndexer K
  get_row_group_indexes value_key indexer = elim (get value_key indexer.index_data) [
    | none ↦ ([], record indexer { index_data = put value_key [] indexer.index_data })
    | some pieces ↦ (pieces, indexer)
  ]

  -- `self._index_data[value_key].update(pieces)`
  pub update_at : K → List ℕ → Dict K (List ℕ) → Dict K (List ℕ)
  update_at value_key pieces d = put value_key (union (or_empty (get value_key d)) pieces) d

  -- `self._index_data[value_key].add(piece_index)`
  pub add_at : ℕ → K → Dict K (List ℕ) → Dict K (List ℕ)
  add_at piece value_key d = put value_key (add piece (or_empty (get value_key d))) d

  pub add_all : ℕ → List K → Dict K (List ℕ) → Dict K (List ℕ)
  unfolding add_at
  add_all piece [] d = d
  add_all piece (k ∷ ks) d = add_all piece ks (add_at piece k d)

  -- the loop of `__add__` over the other indexer's data
  pub merge : Dict K (List ℕ) → Dict K (List ℕ) → Dict K (List ℕ)
  unfolding update_at
  merge d [] = d
  merge d ((k, pieces) ∷ others) = merge (update_at k pieces d) others

  pub add_indexers : Indexer K → Indexer K → Result (Indexer K)
  unfolding merge
  add_indexers (single a) (single b) =
      if a.column_name == b.column_name
      then ok (single (record a { index_data = merge a.index_data b.index_data }))
      else raise value_error
  add_indexers (not_null a) (not_null b) =
      if a.column_name == b.column_name
      then ok (not_null (record a { index_data = union a.index_data b.index_data }))
      else raise value_error
  add_indexers _ _ = raise type_error

  -- `characters` is what a numpy.string_ yields when it is iterated.
  module _ (characters : K → List K) where
    -- The keys under which a value is entered, with `index_single_val`: an array is not hashable.
    pub single_keys : Cell K → Result (List K)
    single_keys null = ok []
    single_keys (text k) = ok (k ∷ [])
    single_keys (integer k) = ok (k ∷ [])
    single_keys (other k) = ok (k ∷ [])
    single_keys _ = raise type_error

    -- The same with `index_list_of_vals`: a number is not iterable.
    pub list_keys : Cell K → Result (List K)
    list_keys null = ok []
    list_keys (text k) = ok (characters k)
    list_keys (texts ks) = ok ks
    list_keys (array k ks) = ok (k ∷ ks)
    list_keys _ = raise type_error

    pub cell_keys : Bool → Cell K → Result (List K)
    unfolding single_keys list_keys
    cell_keys true cell = single_keys cell
    cell_keys false cell = list_keys cell

    -- the loop over `field_column`
    pub index_cells : Bool → ℕ → List (Cell K) → Dict K (List ℕ) → Result (Dict K (List ℕ))
    unfolding cell_keys add_all
    index_cells index_single_val piece [] d = ok d
    index_cells index_single_val piece (cell ∷ cells) d =
        cell_keys index_single_val cell
        >>= (λ ks. index_cells index_single_val piece cells (add_all piece ks d))

    -- SingleFieldIndexer.build_index: the first value of the column decides how it is read.
    pub build_column : List (Cell K) → ℕ → SingleFieldIndexer K → Result (SingleFieldIndexer K)
    unfolding index_cells
    build_column [] piece indexer = raise value_error
    build_column (first ∷ cells) piece indexer =
        if is_single_val first
        then (index_cells true piece (first ∷ cells) indexer.index_data
            >>= (λ d. ok (record indexer { index_data = d })))
        else if is_list_of_vals first
        then (index_cells false piece (first ∷ cells) indexer.index_data
            >>= (λ d. ok (record indexer { index_data = d })))
        else raise value_error

    pub has_value : List (Cell K) → Bool
    has_value [] = false
    has_value (null ∷ cells) = has_value cells
    has_value (_ ∷ cells) = true

    -- FieldNotNullIndexer.build_index
    pub build_not_null : List (Cell K) → ℕ → FieldNotNullIndexer → Result FieldNotNullIndexer
    unfolding has_value
    build_not_null [] piece indexer = raise value_error
    build_not_null (cell ∷ cells) piece indexer = ok (
        if has_value (cell ∷ cells)
        then record indexer { index_data = add piece indexer.index_data }
        else indexer)

    pub build_index : List (Dict String (Cell K)) → ℕ → Indexer K → Result (Indexer K)
    unfolding field_column build_column build_not_null
    build_index decoded_rows piece (single indexer) = do
      cells ← field_column indexer.column_name decoded_rows
      built ← build_column cells piece indexer
      ok (single built)
    build_index decoded_rows piece (not_null indexer) = do
      cells ← field_column indexer.column_name decoded_rows
      built ← build_not_null cells piece indexer
      ok (not_null built)

    -- `for indexer in indexers: indexer.build_index(decoded_rows, piece_index)`
    pub build_all : List (Dict String (Cell K)) → ℕ → List (Indexer K) → Result (List (Indexer K))
    unfolding build_index
    build_all decoded_rows piece [] = ok []
    build_all decoded_rows piece (indexer ∷ indexers) = do
      built ← build_index decoded_rows piece indexer
      rest ← build_all decoded_rows piece indexers
      ok (built ∷ rest)

    -- `_index_columns`, from the decoded rows of the piece
    pub index_columns :
        List (Indexer K) → ℕ × List (Dict String (Cell K)) → Result (List (Indexer K))
    unfolding build_all
    index_columns indexers (piece, []) = raise value_error
    index_columns indexers (piece, row ∷ rows) = build_all (row ∷ rows) piece indexers

  add_pairs : List (Indexer K) → List (Indexer K) → Result (List (Indexer K))
  unfolding add_indexers
  add_pairs (a ∷ as') (b ∷ bs) = do sum ← add_indexers a b; rest ← add_pairs as' bs; ok (sum ∷ rest)
  add_pairs _ _ = ok []

  pub combine_indexers : List (Indexer K) → List (Indexer K) → Result (List (Indexer K))
  unfolding add_pairs
  combine_indexers indexers1 indexers2 =
      if nat_beq (length indexers1) (length indexers2)
      then add_pairs indexers1 indexers2
      else raise value_error

  -- SingleIndexSelector.select_row_groups: the loop over the values to select
  pub select_values : List K → SingleFieldIndexer K → List ℕ → List ℕ × SingleFieldIndexer K
  unfolding get_row_group_indexes
  select_values [] indexer row_groups = (row_groups, indexer)
  select_values (value ∷ values) indexer row_groups =
      let (found, indexer') = get_row_group_indexes value indexer in
      select_values values indexer' (union row_groups found)

  -- `get_row_group_indexes(value)` of an indexer of either class
  pub select_from : List K → Indexer K → List ℕ
  unfolding select_values
  select_from values (single indexer) = (select_values values indexer []).0
  select_from [] (not_null indexer) = []
  select_from (value ∷ values) (not_null indexer) = union [] indexer.index_data

  pub select_row_groups : String → List K → Dict String (Indexer K) → Result (List ℕ)
  unfolding select_from
  select_row_groups index_name values index_dict = elim (get index_name index_dict) [
    | none ↦ raise key_error
    | some indexer ↦ ok (select_from values indexer)
  ]

  -- `piece_info_rdd.map`: each piece is indexed by its own copies of the fresh indexers.
  pub map_pieces :
      (K → List K)
      → List (Indexer K)
      → List (ℕ × List (Dict String (Cell K)))
      → Result (List (List (Indexer K)))
  unfolding index_columns
  map_pieces characters indexers [] = ok []
  map_pieces characters indexers (piece ∷ pieces) = do
    indexed ← index_columns characters indexers piece
    rest ← map_pieces characters indexers pieces
    ok (indexed ∷ rest)

  -- `indexer_rdd.reduce`, from the left
  pub reduce_from : List (Indexer K) → List (List (Indexer K)) → Result (List (Indexer K))
  unfolding combine_indexers
  reduce_from acc [] = ok acc
  reduce_from acc (indexers ∷ rest) =
      combine_indexers acc indexers >>= (λ combined. reduce_from combined rest)

  pub reduce_indexers : List (List (Indexer K)) → Result (List (Indexer K))
  unfolding reduce_from
  reduce_indexers [] = raise value_error
  reduce_indexers (indexers ∷ rest) = reduce_from indexers rest

  pub name_of : Indexer K → String
  name_of (single indexer) = indexer.index_name
  name_of (not_null indexer) = indexer.index_name

  -- `{indexer.index_name: indexer for indexer in indexer_list}`
  pub by_name : List (Indexer K) → Dict String (Indexer K) → Dict String (Indexer K)
  unfolding name_of
  by_name [] d = d
  by_name (indexer ∷ indexers) d = by_name indexers (put (name_of indexer) indexer d)

  -- the index that build_rowgroup_index stores with the dataset
  pub build_rowgroup_index :
      (K → List K)
      → List (Indexer K)
      → List (ℕ × List (Dict String (Cell K)))
      → Result (Dict String (Indexer K))
  unfolding map_pieces reduce_indexers by_name
  build_rowgroup_index characters indexers pieces = do
    indexed ← map_pieces characters indexers pieces
    indexer_list ← reduce_indexers indexed
    ok (by_name indexer_list [])
