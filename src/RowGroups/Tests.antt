-- ===== src/RowGroups/Tests.antt =====
-- An index of two pieces.
use code_assist_analyzer.Prelude.{ℕ, ◌≡◌, refl, any, List, [], ◌∷◌, ok, String, string_eq, nat_eq}
use code_assist_analyzer.Prelude.Dict.{Dict, get, put, has_key}
use code_assist_analyzer.Prelude.PySet.{contains, add, union}
use code_assist_analyzer.RowGroups.{
  Cell, text, Indexer, single, build_rowgroup_index, select_row_groups, map_pieces, reduce_indexers,
  by_name,
}
use code_assist_analyzer.RowGroups.Selection.{some_piece_has, build-select}

abbrev row : String → Dict String (Cell String)
row city = ("city", text city) ∷ []

abbrev pieces : List (ℕ × List (Dict String (Cell String)))
pieces = (0, row "rome" ∷ row "oslo" ∷ []) ∷ (1, row "oslo" ∷ []) ∷ []

abbrev built : Dict String (Indexer String)
built =
    (
      "by_city",
      single (record {
        index_name = "by_city";
        column_name = "city";
        index_data = ("rome", 0 ∷ []) ∷ ("oslo", 1 ∷ 0 ∷ []) ∷ [];
      }),
    )
    ∷ []

build-select_example :
    (groups : List ℕ) × (select_row_groups "by_city" ("rome" ∷ []) built ≡ ok groups)
    × ((p : ℕ)
        → contains p groups
          ≡ any (λ v. some_piece_has (λ s. s ∷ []) "city" v p pieces) ("rome" ∷ []))
unfolding build_rowgroup_index map_pieces reduce_indexers by_name get put has_key union add contains
build-select_example = build-select (λ s. s ∷ []) "by_city" "city" pieces ("rome" ∷ []) refl
