-- ===== src/Plots/Periods.antt =====
-- The plots by month (py_plot_monthly.py and py_plot.py, which are the same program), by week
-- (plot_weekly.py) and by quarter (py_plot_quarterly.py).
pub mod Outcome
use code_assist_analyzer.Prelude.{
  Bool, true, false, Option, none, some, List, [], ◌∷◌, ◌++◌, map, filter, String, if◌then◌else◌,
  Result, ok, raise, successes, Error, key_error, attribute_error, ◌>>=◌,
}
use code_assist_analyzer.Prelude.Text.{join, replace_char}
use code_assist_analyzer.Plots.{Json, text, Metric, metrics, metric_name, Row, Cell, cell, Pandas}
use code_assist_analyzer.Plots.Disk.{FilePath, Figure, Disk, join_path, makedirs, savefig}
use code_assist_analyzer.Plots.Entries.{JsonFile, load_listed_files, process_period_entry}

-- in what the two scripts differ: the format of `strftime`, the word in the names of the files, and
-- whether `main` sorts the rows by date
pub record Period : Type 0 where
  pub period_format : String
  pub adverb : String
  pub sorts : Bool

abbrev pub monthly : Period
monthly = record { period_format = "%Y-%m"; adverb = "monthly"; sorts = false }

abbrev pub weekly : Period
weekly = record { period_format = "%Y-W%U"; adverb = "weekly"; sorts = true }

-- `author.replace(" ", "_")`
unfoldable pub underscored : Json → Result String
unfolding replace_char
underscored (text author) = ok (replace_char b' ' "_" author)
underscored _ = raise attribute_error

module _ (pandas : Pandas) where
  open pandas use {Timestamp, Float, Trend, sort_values, group_mean, unique, same_author}

  abbrev pub PeriodFrame : Type 0
  PeriodFrame = List (Row Timestamp Float × String)

  abbrev pub PeriodPlots : Type 0
  PeriodPlots = Disk String Float Trend

  -- the averages of an author, from those by period and author
  abbrev pub author_data : Json → List ((String × Json) × Float) → List ((String × Json) × Float)
  author_data author = filter (λ average. same_author average.0.1 author)

  abbrev pub points : List ((String × Json) × Float) → List (String × Float)
  points = map (λ average. (average.0.0, average.1))

  -- `process_data_to_dataframe`
  unfoldable pub period_frame : Period → List Json → PeriodFrame
  unfolding process_period_entry
  period_frame period = successes (process_period_entry pandas period.period_format)

  -- A column of a frame without rows is missing: `groupby` raises on it.
  unfoldable pub calculate_averages : PeriodFrame → Metric → Result (List (String × Float))
  unfolding cell
  calculate_averages [] metric = raise key_error
  calculate_averages (row ∷ rows) metric =
      group_mean String (map (λ r. (r.1, cell metric r.0)) (row ∷ rows))

  unfoldable pub calculate_averages_by_author :
      PeriodFrame → Metric → Result (List ((String × Json) × Float))
  unfolding cell
  calculate_averages_by_author [] metric = raise key_error
  calculate_averages_by_author (row ∷ rows) metric =
      group_mean (String × Json) (map (λ r. ((r.1, r.0.author), cell metric r.0)) (row ∷ rows))

  -- after a statement that raised, the disk as it was before
  abbrev pub saved_or : PeriodPlots → Result PeriodPlots → PeriodPlots × Option Error
  saved_or disk (raise error) = (disk, some error)
  saved_or disk (ok saved) = (saved, none)

  unfoldable pub plot_averages :
      Period → List (String × Float) → Metric → FilePath → PeriodPlots → PeriodPlots × Option Error
  unfolding makedirs savefig join_path join metric_name
  plot_averages period averages metric output_dir disk =
      let made = makedirs output_dir disk in
      saved_or made (
        savefig
          (join_path output_dir (join (period.adverb ∷ "_" ∷ metric_name metric ∷ ".png" ∷ [])))
          (record { metric = metric; author = none; points = averages; trend = none }) made)

  -- an iteration of the loop over the authors
  unfoldable pub plot_author :
      Period
      → Metric
      → List ((String × Json) × Float)
      → FilePath
      → Json
      → PeriodPlots
      → Result PeriodPlots
  unfolding savefig join_path join metric_name underscored
  plot_author period metric averages author_dir author disk = underscored author >>= (λ name.
      savefig
        (join_path author_dir
          (join (name ∷ "_" ∷ period.adverb ∷ "_" ∷ metric_name metric ∷ ".png" ∷ [])))
        (record {
          metric = metric;
          author = some author;
          points = points (author_data author averages);
          trend = none;
        })
        disk)

  unfoldable pub plot_authors :
      Period
      → Metric
      → List ((String × Json) × Float)
      → FilePath
      → List Json
      → PeriodPlots
      → PeriodPlots × Option Error
  unfolding plot_author
  plot_authors period metric averages author_dir [] disk = (disk, none)
  plot_authors period metric averages author_dir (author ∷ authors) disk =
      elim (plot_author period metric averages author_dir author disk) [
        | raise error ↦ (disk, some error)
        | ok saved ↦ plot_authors period metric averages author_dir authors saved
      ]

  -- the loop over the metrics of plot_author_monthly_averages; an error ends the script
  unfoldable pub plot_author_averages :
      Period → PeriodFrame → FilePath → List Metric → PeriodPlots → PeriodPlots × Option Error
  unfolding plot_authors calculate_averages_by_author makedirs join_path metric_name
  plot_author_averages period df output_dir [] disk = (disk, none)
  plot_author_averages period df output_dir (metric ∷ rest) disk =
      let author_dir = join_path output_dir (metric_name metric) in
      let made = makedirs author_dir disk in
      elim (calculate_averages_by_author df metric) [
        | raise error ↦ (made, some error)
        | ok averages ↦
            let authors = unique (map (λ average. average.0.1) averages) in
            let (plotted, error) = plot_authors period metric averages author_dir authors made in
            elim error [
              | some e ↦ (plotted, some e)
              | none ↦ plot_author_averages period df output_dir rest plotted
            ]
      ]

  -- the loop over the metrics in `main`
  unfoldable pub plot_metrics :
      Period → PeriodFrame → FilePath → List Metric → PeriodPlots → PeriodPlots × Option Error
  unfolding calculate_averages plot_averages
  plot_metrics period df output_dir [] disk = (disk, none)
  plot_metrics period df output_dir (metric ∷ rest) disk = elim (calculate_averages df metric) [
    | raise error ↦ (disk, some error)
    | ok averages ↦
        let (plotted, error) = plot_averages period averages metric output_dir disk in
        elim error [
          | some e ↦ (plotted, some e)
          | none ↦ plot_metrics period df output_dir rest plotted
        ]
  ]

  -- `df.sort_values('date')`, where `main` has it
  unfoldable pub sorted_frame : Period → PeriodFrame → Result PeriodFrame
  sorted_frame period df =
      if period.sorts
      then elim df [
        | [] ↦ raise key_error
        | row ∷ rows ↦ ok (sort_values (Row Timestamp Float × String) (λ r. r.0.date) (row ∷ rows))
      ]
      else ok df

  unfoldable pub plot_all : Period → PeriodFrame → PeriodPlots → PeriodPlots × Option Error
  unfolding plot_metrics plot_author_averages makedirs
  plot_all period df disk =
      let (plotted, error) = plot_metrics period df ("plot" ∷ []) metrics disk in
      elim error [
        | some e ↦ (plotted, some e)
        | none ↦
            plot_author_averages period df ("plot" ∷ []) metrics (makedirs ("plot" ∷ []) plotted)
      ]

  unfoldable pub main : Period → Option (List JsonFile) → PeriodPlots → PeriodPlots × Option Error
  unfolding load_listed_files period_frame sorted_frame plot_all
  main period files disk =
      elim (load_listed_files files
        >>= (λ entries. sorted_frame period (period_frame period entries))) [
          | raise error ↦ (disk, some error)
          | ok df ↦ plot_all period df disk
        ]
