-- ===== src/Plots.antt =====
-- The scripts that plot the metrics of the commits: plot_daily.py, plot_weekly.py, py_plot.py,
-- py_plot_monthly.py (the same program as py_plot.py) and py_plot_quarterly.py. Their parts in common:
-- JSON values, paths and the disk, metrics, rows, and what they use of pandas and numpy.
pub mod Entries
pub mod Daily
pub mod Periods
pub mod Disk
pub mod Quarterly
mod Tests
use code_assist_analyzer.Prelude.{
  ℕ, Bool, true, false, Option, none, some, List, [], ◌∷◌, ◌++◌, String, string_eq, Eq, ◌==◌,
  if◌then◌else◌, Result, ok, raise, key_error, type_error, attribute_error,
}
use code_assist_analyzer.Prelude.Int.{ℤ}

-- what `json.load` returns; a number by its literal
mutual
  pub data Json : Type 0 where
    null : Json
    boolean : Bool → Json
    number : String → Json
    text : String → Json
    array : Items → Json
    object : Fields → Json

  pub data Items : Type 0 where
    nil : Items
    cons : Json → Items → Items

  pub data Fields : Type 0 where
    end : Fields
    field : String → Json → Fields → Fields

abbrev pub lookup : String → Fields → Option Json
lookup key end = none
lookup key (field name value rest) = if name == key then some value else lookup key rest

-- `value[key]`
unfoldable pub item : String → Json → Result Json
item key (object fields) = elim (lookup key fields) [
  | none ↦ raise key_error
  | some value ↦ ok value
]
item key _ = raise type_error

-- `value.get(key, default)`
unfoldable pub get_or : String → Json → Json → Result Json
get_or key (object fields) default = elim (lookup key fields) [
  | none ↦ ok default
  | some value ↦ ok value
]
get_or key _ default = raise attribute_error

pub data Metric : Type 0 where
  comment_lines comment_lines_density total_changed_files_comments : Metric

unfoldable pub metric_name : Metric → String
metric_name comment_lines = "comment_lines"
metric_name comment_lines_density = "comment_lines_density"
metric_name total_changed_files_comments = "total_changed_files_comments"

abbrev pub metrics : List Metric
metrics = comment_lines ∷ comment_lines_density ∷ total_changed_files_comments ∷ []

pub record Row (Timestamp Float : Type 0) : Type 0 where
  pub date : Timestamp
  pub author : Json
  pub comment_lines : ℤ
  pub comment_lines_density : Float
  pub total_changed_files_comments : Json

-- a value of a column of metrics
pub data Cell (Float : Type 0) : Type 0 where
  int_cell : ℤ → Cell Float
  float_cell : Float → Cell Float
  json_cell : Json → Cell Float

-- `df[metric]`, for a row
unfoldable pub cell : {Timestamp Float : Type 0} → Metric → Row Timestamp Float → Cell Float
cell comment_lines row = int_cell row.comment_lines
cell comment_lines_density row = float_cell row.comment_lines_density
cell total_changed_files_comments row = json_cell row.total_changed_files_comments

-- what the scripts use of pandas and numpy, and Python's numbers
pub record Pandas : Type 1 where
  pub Timestamp : Type 0
  pub Day : Type 0
  pub Float : Type 0
  pub Trend : Type 0
  pub int : Json → Result ℤ
  pub float : Json → Result Float
  pub to_datetime : Json → Result Timestamp
  pub tz_convert : Timestamp → Result Timestamp
  pub tz_localize : Timestamp → Timestamp
  pub day : Timestamp → Day
  pub strftime : String → Timestamp → String
  pub sort_values : (Entry : Type 0) → (Entry → Timestamp) → List Entry → List Entry
  -- `df.groupby(key)[metric].mean().reset_index()`
  pub group_mean : (Key : Type 0) → List (Key × Cell Float) → Result (List (Key × Float))
  pub unique : List Json → List Json
  pub same_author : Json → Json → Bool
  pub polyfit : List Float → Result Trend
