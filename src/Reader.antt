-- ===== src/Reader.antt =====
-- The choice of row groups in `Reader.__init__` of dataset_toolkit/reader.py; the worker that loads
-- them is in the child Worker. The hash of a path, a signed integer, is a parameter; the number of a
-- training partition and their count are not negative.
pub mod Worker
pub mod Partitions
mod Tests
use code_assist_analyzer.Prelude.{
  ℕ, zero, suc, ◌+◌, ◌%◌, Bool, true, false, not, ◌&&◌, Option, none, some, List, [], ◌∷◌, length,
  get_elem?, filter, all, nat_beq, nat_eq, String, string_eq, Eq, ◌==◌, if◌then◌else◌, Result, ok,
  raise, raise_if, value_error, index_error, assertion_error, ◌>>=◌, ◌>>◌,
}
use code_assist_analyzer.Prelude.Int.{ℤ, floor_mod}
use code_assist_analyzer.Prelude.Dict.{Dict, keys, put, has_key}
use code_assist_analyzer.Prelude.PySet.{contains}
use code_assist_analyzer.Predicates.{Predicate}
use code_assist_analyzer.Metadata.{Piece}

-- a row group selector, by its two methods, over indexers of a type
pub record Selector (Indexer : Type 0) : Type 0 where
  pub get_index_names : List String
  pub select_row_groups : Dict String Indexer → Result (List ℕ)

-- the names of the columns a dataset is partitioned by, and the keys of the first of them
pub record PartitionSet (Value : Type 0) : Type 0 where
  pub partition_names : List String
  pub keys : List Value

-- equal as sets
pub same_set : List String → List String → Bool
same_set xs ys = all (λ x. contains x ys) xs && all (λ y. contains y xs) ys

abbrev pub index_or_raise : {A : Type 0} → List A → ℕ → Result A
index_or_raise xs i = elim (get_elem? xs i) [ none ↦ raise index_error | some x ↦ ok x ]

-- `range(len(split_pieces))`, from `i`
pub range_from : ℕ → ℕ → List ℕ
range_from i zero = []
range_from i (suc n) = i ∷ range_from (suc i) n

module _ {Value : Type 0} where
  -- whether a predicate on the partition column includes a piece
  pub includes_piece : Predicate Value → PartitionSet Value → Piece → Result Bool
  includes_piece predicate partitions piece = do
    (partition_name, partition_index) ← index_or_raise piece.partition_keys 0
    partition_value ← index_or_raise partitions.keys partition_index
    predicate.do_include (put partition_name partition_value [])

  -- the loop over the pieces from index `i`
  pub partition_indexes : Predicate Value → PartitionSet Value → List Piece → ℕ → Result (List ℕ)
  partition_indexes predicate partitions [] i = ok []
  partition_indexes predicate partitions (piece ∷ pieces) i = do
    included ← includes_piece predicate partitions piece
    rest ← partition_indexes predicate partitions pieces (suc i)
    ok (if included then i ∷ rest else rest)

  -- the pieces to read, and the predicate that is left to the workers
  pub predicate_indexes :
      Option (Predicate Value)
      → PartitionSet Value
      → List Piece
      → Result (List ℕ × Option (Predicate Value))
  predicate_indexes none partitions pieces = ok (range_from 0 (length pieces), none)
  predicate_indexes (some predicate) partitions pieces =
      if same_set predicate.get_fields partitions.partition_names
      then (do
        _ ← raise_if (not (nat_beq (length partitions.partition_names) 1)) assertion_error
        indexes ← partition_indexes predicate partitions pieces 0
        ok (indexes, none))
      else ok (range_from 0 (length pieces), some predicate)

-- the pieces that a row group selector keeps
pub selected_indexes :
    {Indexer : Type 0} → Option (Selector Indexer) → Dict String Indexer → List ℕ → Result (List ℕ)
selected_indexes none available indexes = ok indexes
selected_indexes (some selector) available indexes = do
  _ ← raise_if (not (all (λ name. has_key name available) selector.get_index_names)) value_error
  selected ← selector.select_row_groups available
  ok (filter (λ i. contains i selected) indexes)

-- the filter by the hash of the relative path of a piece
pub hashed_indexes : (Piece → ℤ) → List Piece → ℕ → ℕ → List ℕ → Result (List ℕ)
hashed_indexes hash pieces training_partition num_training_partitions [] = ok []
hashed_indexes hash pieces training_partition num_training_partitions (i ∷ indexes) = do
  piece ← index_or_raise pieces i
  rest ← hashed_indexes hash pieces training_partition num_training_partitions indexes
  ok (
      if nat_beq (floor_mod (hash piece) num_training_partitions) training_partition
      then i ∷ rest
      else rest)

-- `not num_training_partitions` holds of None and of 0.
pub training_indexes : (Piece → ℤ) → List Piece → Option ℕ → Option ℕ → List ℕ → Result (List ℕ)
training_indexes hash pieces none none indexes = ok indexes
training_indexes hash pieces none (some n) indexes = raise value_error
training_indexes hash pieces (some k) none indexes = raise value_error
training_indexes hash pieces (some k) (some zero) indexes = raise value_error
training_indexes hash pieces (some k) (some (suc n)) indexes =
    hashed_indexes hash pieces k (suc n) indexes

-- the items that the reader ventilates: the indexes of pieces, each with the workers' predicate
pub items_to_ventilate :
    {Value Indexer : Type 0}
    → (Piece → ℤ)
    → Option (Predicate Value)
    → PartitionSet Value
    → Option (Selector Indexer)
    → Dict String Indexer
    → List Piece
    → Option ℕ
    → Option ℕ
    → Result (List ℕ × Option (Predicate Value))
items_to_ventilate hash predicate partitions selector available pieces training_partition
      num_training_partitions =
    do
      (indexes, worker_predicate) ← predicate_indexes predicate partitions pieces
      selected ← selected_indexes selector available indexes
      chosen ← training_indexes hash pieces training_partition num_training_partitions selected
      ok (chosen, worker_predicate)
