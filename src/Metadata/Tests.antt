-- ===== src/Metadata/Tests.antt =====
-- A dataset of two files, with three row groups and two. A metadata value is the text of what it says.
use code_assist_analyzer.Prelude.{
  ℕ, Bool, true, false, ◌≡◌, refl, any, ◌&&◌, ltb, none, some, List, [], ◌∷◌, String, string_eq,
  ◌==◌, if◌then◌else◌, Result, ok, raise, value_error,
}
use code_assist_analyzer.Prelude.Dict.{Dict, put}
use code_assist_analyzer.Metadata.{
  FilePiece, Piece, Dataset, add_dataset_metadata, add_to_dataset_metadata, base_metadata,
  count_row_groups, generate_num_row_groups_per_file_metadata, generate_unischema_metadata,
  get_schema, load_rowgroup_split, reopen,
}
use code_assist_analyzer.Metadata.Pieces.{is_row_group, KeysApart}
use code_assist_analyzer.Metadata.Written.{load-add_dataset_metadata}

abbrev files : List FilePiece
files =
    record { path = "/data/part0"; partition_keys = [] }
    ∷ record { path = "/data/part1"; partition_keys = [] }
    ∷ []

-- a path that is written in two ways has one relative path
abbrev relpath : String → String
relpath path =
    if path == "/data/part0"
    then "part0"
    else if path == "/data//part0"
    then "part0"
    else if path == "/data/part1"
    then "part1"
    else path

abbrev num_row_groups : String → ℕ
num_row_groups path = if path == "/data/part0" then 3 else 2

abbrev dataset : Dataset
dataset = record {
  paths = some "/data";
  pieces = files;
  common_metadata = none;
  metadata_file = none;
}

abbrev footer : FilePiece → Dict String String
footer piece = ("schema", "arrow") ∷ []

abbrev written : Dataset
written = record {
  paths = some "/data";
  pieces = files;
  common_metadata = none;
  metadata_file = some (
      ("schema", "arrow")
      ∷ ("dataset-toolkit.num_row_groups_per_file.v1", "part0: 3, part1: 2")
      ∷ ("dataset-toolkit.unischema.v1", "the schema")
      ∷ []);
}

-- the json text of this dataset
abbrev json_loads : String → Result (Dict String ℕ)
json_loads text =
    if text == "part0: 3, part1: 2"
    then ok (("part0", 3) ∷ ("part1", 2) ∷ [])
    else raise value_error

apart : ◌≡◌ {A = Bool} false true → ⊥
apart h = cc

files-KeysApart : KeysApart relpath files
files-KeysApart = (
  (λ h. refl, (λ h. absurd (apart ((string_eq.same_iff "part1" "part0").1 h)), tt)),
  ((λ h. absurd (apart ((string_eq.same_iff "part0" "part1").1 h)), (λ h. refl, tt)), tt),
)

load-add_dataset_metadata_example :
    (get_schema (λ text. ok text) (reopen written) ≡ ok "the schema")
    × (pieces : List Piece) × (load_rowgroup_split json_loads relpath (reopen written) ≡ ok pieces)
    × ((path : String) (g : ℕ)
        → any (is_row_group path g) pieces
          ≡ (any (λ f. f.path == path) dataset.pieces && ltb g (num_row_groups path)))
unfolding add_dataset_metadata add_to_dataset_metadata base_metadata count_row_groups
    generate_num_row_groups_per_file_metadata generate_unischema_metadata put
load-add_dataset_metadata_example =
    load-add_dataset_metadata footer (λ d. "part0: 3, part1: 2") (λ text. text) relpath
      num_row_groups json_loads (λ text. ok text) "the schema" dataset {d' = written} refl refl
      files-KeysApart refl
