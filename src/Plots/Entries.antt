-- ===== src/Plots/Entries.antt =====
-- Loading the JSON files of the commits, and their rows: load_json_files and
-- process_data_to_dataframe of plot_daily.py, plot_weekly.py and py_plot_monthly.py.
pub mod Saved
use code_assist_analyzer.Prelude.{
  Bool, true, false, Option, none, some, List, [], ◌∷◌, ◌++◌, map, String, if◌then◌else◌, Result,
  ok, raise, successes, io_error, key_error, ◌>>=◌,
}
use code_assist_analyzer.Prelude.Text.{ends_with}
use code_assist_analyzer.Plots.{Json, text, number, item, get_or, Row, Pandas}

-- a file of a directory: its name, and the value that `json.load` returns, none where opening or
-- loading it raises
abbrev pub JsonFile : Type 0
JsonFile = String × Option Json

-- the loop over the names, in the order of `os.listdir`
unfoldable pub load_files : List JsonFile → List Json
load_files [] = []
load_files ((filename, loaded) ∷ files) =
    let rest = load_files files in
    if ends_with ".json" filename
    then elim loaded [ none ↦ rest | some json_data ↦ json_data ∷ rest ]
    else rest

-- `load_json_files` of plot_daily.py, which logs that the directory cannot be listed
unfoldable pub load_json_files : Option (List JsonFile) → List Json
unfolding load_files
load_json_files none = []
load_json_files (some files) = load_files files

-- that of the other scripts, which raises it
unfoldable pub load_listed_files : Option (List JsonFile) → Result (List Json)
unfolding load_files
load_listed_files none = raise io_error
load_listed_files (some files) = ok (load_files files)

module _ (pandas : Pandas) where
  open pandas use {
    Timestamp, Float, int, float, to_datetime, tz_convert, tz_localize, strftime, sort_values,
  }

  -- the fields after the date
  unfoldable pub process_fields : Json → Timestamp → Result (Row Timestamp Float)
  unfolding item get_or
  process_fields entry date = do
    author ← item "author" entry
    metrics ← item "overall_comment_metrics" entry
    lines ← get_or "comment_lines" metrics (number "0")
    comment_lines ← int lines
    density ← get_or "comment_lines_density" metrics (number "0")
    comment_density ← float density
    total ← get_or "total_changed_files_comments" entry (number "0")
    ok (record {
      date = date;
      author = author;
      comment_lines = comment_lines;
      comment_lines_density = comment_density;
      total_changed_files_comments = total;
    })

  -- an iteration of the loop of plot_daily.py
  unfoldable pub process_entry : Json → Result (Row Timestamp Float)
  unfolding item process_fields
  process_entry entry = do
    text_date ← item "date" entry
    parsed ← to_datetime text_date
    date ← tz_convert parsed
    process_fields entry date

  -- an iteration of the loop of the other scripts, with the name of the period
  unfoldable pub process_period_entry : String → Json → Result (Row Timestamp Float × String)
  unfolding item process_fields
  process_period_entry period_format entry = do
    text_date ← item "date" entry
    date ← to_datetime text_date
    row ← process_fields entry date
    ok (row, strftime period_format date)

  -- `.dt.tz_localize(None)`
  abbrev pub localize : Row Timestamp Float → Row Timestamp Float
  localize row = record row { date = tz_localize row.date }

  -- `process_data_to_dataframe` of plot_daily.py; a frame without rows has no columns
  unfoldable pub process_data_to_dataframe : List Json → Result (List (Row Timestamp Float))
  unfolding process_entry
  process_data_to_dataframe entries = elim (successes process_entry entries) [
    | [] ↦ raise key_error
    | row ∷ rows ↦ ok (sort_values (Row Timestamp Float) (λ r. r.date) (map localize (row ∷ rows)))
  ]
