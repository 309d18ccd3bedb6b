-- ===== src/Reader/Tests.antt =====
-- Three pieces, divided among two training partitions.
use code_assist_analyzer.Prelude.{
  ℕ, ◌≤◌, ◌≡◌, refl, true, nat_beq, Option, none, some, List, [], ◌∷◌, ok, filter, all, nat_eq,
}
use code_assist_analyzer.Prelude.{if◌then◌else◌}
use code_assist_analyzer.Prelude.Int.{ℤ, pos, negsuc}
use code_assist_analyzer.Prelude.PySet.{contains}
use code_assist_analyzer.Predicates.{Predicate}
use code_assist_analyzer.Metadata.{Piece}
use code_assist_analyzer.Reader.{
  Selector, PartitionSet, items_to_ventilate, predicate_indexes, selected_indexes, training_indexes,
  range_from,
}
use code_assist_analyzer.Reader.Partitions.{items_to_ventilate-divided}

abbrev piece : ℕ → Piece
piece n = record { path = "p"; row_group = n; partition_keys = [] }

-- the hash of the last piece is negative
abbrev hash : Piece → ℤ
hash p = if nat_beq p.row_group 6 then negsuc 6 else pos p.row_group

abbrev pieces : List Piece
pieces = piece 4 ∷ piece 5 ∷ piece 6 ∷ []

abbrev no_partitions : PartitionSet ℕ
no_partitions = record { partition_names = []; keys = [] }

abbrev all_rows : Option (Predicate ℕ)
all_rows = none

abbrev last_two : Selector ℕ
last_two = record { get_index_names = []; select_row_groups = λ available. ok (2 ∷ 1 ∷ []) }

items_to_ventilate-divided_example :
    (chosen : ℕ → List ℕ) × ((k : ℕ)
      → items_to_ventilate hash all_rows no_partitions (some last_two) [] pieces (some k) (some 2)
        ≡ ok (chosen k, none))
    × ((k i : ℕ) → contains i (chosen k) ≡ true → contains i (1 ∷ 2 ∷ []) ≡ true)
    × ((i : ℕ)
        → contains i (1 ∷ 2 ∷ []) ≡ true
        → (k : ℕ) × (k ≤ 1) × ((j : ℕ) → contains i (chosen j) ≡ nat_beq k j))
unfolding items_to_ventilate predicate_indexes selected_indexes training_indexes range_from contains
    filter all
items_to_ventilate-divided_example =
    items_to_ventilate-divided hash pieces all_rows no_partitions (some last_two) [] 1 refl
