-- ===== src/Metadata.antt =====
-- The metadata of a dataset: dataset_toolkit/etl/dataset_metadata.py, and add_to_dataset_metadata of
-- dataset_toolkit/utils.py. Serialization (json, pickle), os.path.relpath, and the footers of parquet
-- files are parameters; a metadata file is its dict of keys and values.
pub mod Pieces
pub mod Written
mod Tests
use code_assist_analyzer.Prelude.{
  ℕ, zero, suc, Bool, Option, none, some, List, [], ◌∷◌, ◌++◌, map, String, string_eq, Eq,
  if◌then◌else◌, Result, ok, raise, value_error, key_error, index_error, ◌>>=◌,
}
use code_assist_analyzer.Prelude.Dict.{Dict, get, has_key, put}
use code_assist_analyzer.Prelude.Sorted.{sort_by}

abbrev pub row_groups_per_file_key : String
row_groups_per_file_key = "dataset-toolkit.num_row_groups_per_file.v1"

abbrev pub row_groups_per_file_key_absolute_paths : String
row_groups_per_file_key_absolute_paths = "dataset-toolkit.num_row_groups_per_file"

abbrev pub unischema_key : String
unischema_key = "dataset-toolkit.unischema.v1"

-- a file of a dataset, and one of its row groups
pub record FilePiece : Type 0 where
  pub path : String
  pub partition_keys : List (String × ℕ)

pub record Piece : Type 0 where
  pub path : String
  pub row_group : ℕ
  pub partition_keys : List (String × ℕ)

-- `paths` is none where the dataset has several paths; `common_metadata` is the dict of the
-- `_metadata` file when the dataset was opened, and `metadata_file` is that file now.
pub record Dataset : Type 0 where
  pub paths : Option String
  pub pieces : List FilePiece
  pub common_metadata : Option (Dict String String)
  pub metadata_file : Option (Dict String String)

-- the pieces `row_group` and on of a file, of which there are `count`
pub row_group_pieces : FilePiece → ℕ → ℕ → List Piece
row_group_pieces file row_group zero = []
row_group_pieces file row_group (suc count) =
    record { path = file.path; row_group = row_group; partition_keys = file.partition_keys }
    ∷ row_group_pieces file (suc row_group) count

-- the loop over the sorted pieces
pub split_files : (String → String) → Dict String ℕ → List FilePiece → Result (List Piece)
split_files row_groups_key row_groups_per_file [] = ok []
split_files row_groups_key row_groups_per_file (file ∷ files) =
    elim (get (row_groups_key file.path) row_groups_per_file) [
      | none ↦ raise key_error
      | some count ↦
          split_files row_groups_key row_groups_per_file files
          >>= (λ rest. ok (row_group_pieces file 0 count ++ rest))
    ]

-- `relpath` is relative to the dataset's path.
pub load_rowgroup_split :
    (String → Result (Dict String ℕ)) → (String → String) → Dataset → Result (List Piece)
load_rowgroup_split json_loads relpath dataset =
    let files = sort_by (λ p. p.path) dataset.pieces in
    elim dataset.common_metadata [
      | none ↦ raise value_error
      | some metadata ↦ elim (get row_groups_per_file_key metadata) [
        | some text ↦
            json_loads text
            >>= (λ row_groups_per_file. split_files relpath row_groups_per_file files)
        | none ↦ elim (get row_groups_per_file_key_absolute_paths metadata) [
          | none ↦ raise value_error
          | some text ↦
              json_loads text
              >>= (λ row_groups_per_file. split_files (λ path. path) row_groups_per_file files)
        ]
      ]
    ]

-- `loads` is pickle.loads, with the second attempt under the old name of the package.
pub get_schema : {Schema : Type 0} → (String → Result Schema) → Dataset → Result Schema
get_schema loads dataset = elim dataset.common_metadata [
  | none ↦ raise value_error
  | some metadata ↦ elim (get unischema_key metadata) [
    | none ↦ raise value_error
    | some ser_schema ↦ loads ser_schema
  ]
]

-- the metadata that the new entry is added to: the file's, or that of the first piece
pub base_metadata : (FilePiece → Dict String String) → Dataset → Result (Dict String String)
base_metadata footer dataset = elim dataset.metadata_file [
  | some metadata ↦ ok metadata
  | none ↦ elim dataset.pieces [ [] ↦ raise index_error | piece ∷ pieces ↦ ok (footer piece) ]
]

-- the dataset once the metadata file is written
abbrev pub with_metadata_file : Dict String String → Dataset → Dataset
with_metadata_file metadata dataset = record {
  paths = dataset.paths;
  pieces = dataset.pieces;
  common_metadata = dataset.common_metadata;
  metadata_file = some metadata;
}

pub add_to_dataset_metadata :
    (FilePiece → Dict String String) → String → String → Dataset → Result Dataset
add_to_dataset_metadata footer key value dataset = elim dataset.paths [
  | none ↦ raise value_error
  | some path ↦
      base_metadata footer dataset
      >>= (λ metadata. ok (with_metadata_file (put key value metadata) dataset))
]

-- `dict` of the counted row groups, by the relative path of the file
pub count_row_groups :
    (String → String) → (String → ℕ) → List FilePiece → Dict String ℕ → Dict String ℕ
count_row_groups relpath num_row_groups [] d = d
count_row_groups relpath num_row_groups (file ∷ files) d =
    count_row_groups relpath num_row_groups files
      (put (relpath file.path) (num_row_groups file.path) d)

pub generate_num_row_groups_per_file_metadata :
    (FilePiece → Dict String String)
    → (Dict String ℕ → String)
    → (String → String)
    → (String → ℕ)
    → Dataset
    → Result Dataset
generate_num_row_groups_per_file_metadata footer json_dumps relpath num_row_groups dataset =
    elim dataset.paths [
      | none ↦ raise value_error
      | some base_path ↦
          add_to_dataset_metadata footer row_groups_per_file_key
            (json_dumps (count_row_groups relpath num_row_groups dataset.pieces [])) dataset
    ]

-- `_generate_unischema_metadata`
pub generate_unischema_metadata :
    {Schema : Type 0}
    → (FilePiece → Dict String String)
    → (Schema → String)
    → Schema
    → Dataset
    → Result Dataset
generate_unischema_metadata footer dumps schema dataset =
    add_to_dataset_metadata footer unischema_key (dumps schema) dataset

-- `add_dataset_metadata`, from the dataset that it opens
pub add_dataset_metadata :
    {Schema : Type 0}
    → (FilePiece → Dict String String)
    → (Dict String ℕ → String)
    → (Schema → String)
    → (String → String)
    → (String → ℕ)
    → Schema
    → Dataset
    → Result Dataset
add_dataset_metadata footer json_dumps dumps relpath num_row_groups schema dataset =
    generate_num_row_groups_per_file_metadata footer json_dumps relpath num_row_groups dataset
    >>= generate_unischema_metadata footer dumps schema

-- opening the dataset again reads its metadata file
abbrev pub reopen : Dataset → Dataset
reopen dataset = record {
  paths = dataset.paths;
  pieces = dataset.pieces;
  common_metadata = dataset.metadata_file;
  metadata_file = dataset.metadata_file;
}
