-- ===== src/Plots/Quarterly.antt =====
-- The plots by quarter: py_plot_quarterly.py. Its rows are those of the plots by month.
pub mod Contained
use code_assist_analyzer.Prelude.{
  Option, none, some, List, [], ◌∷◌, map, String, Result, ok, raise, Error,
}
use code_assist_analyzer.Prelude.Text.{join}
use code_assist_analyzer.Plots.{Metric, metrics, metric_name, Cell, cell, Pandas}
use code_assist_analyzer.Plots.Disk.{FilePath, Disk, join_path, makedirs, savefig}
use code_assist_analyzer.Plots.Entries.{JsonFile, load_listed_files}
use code_assist_analyzer.Plots.Periods.{monthly, PeriodFrame, period_frame}

-- `resample` stands for `df_copy.resample('QE-DEC')[metric].mean().reset_index()` by the month of each
-- row, with the conversion of the months before it.
module _ (pandas : Pandas) {Quarter : Type 0}
    (resample : List (String × Cell pandas.Float) → Result (List (Quarter × pandas.Float))) where
  open pandas use {Float, Trend}

  abbrev pub QuarterPlots : Type 0
  QuarterPlots = Disk Quarter Float Trend

  -- an empty frame where the column is missing or pandas raises
  unfoldable pub calculate_quarterly_averages : PeriodFrame pandas → Metric → List (Quarter × Float)
  unfolding cell
  calculate_quarterly_averages [] metric = []
  calculate_quarterly_averages (row ∷ rows) metric =
      elim (resample (map (λ r. (r.1, cell metric r.0)) (row ∷ rows))) [
        | raise error ↦ []
        | ok quarterly_avg ↦ quarterly_avg
      ]

  unfoldable pub plot_quarterly_averages :
      List (Quarter × Float) → Metric → FilePath → QuarterPlots → QuarterPlots × Option Error
  unfolding makedirs savefig join_path join metric_name
  plot_quarterly_averages [] metric output_dir disk = (disk, none)
  plot_quarterly_averages (average ∷ averages) metric output_dir disk =
      let made = makedirs output_dir disk in
      elim (savefig (join_path output_dir (join ("quarterly_" ∷ metric_name metric ∷ ".png" ∷ [])))
        (record { metric = metric; author = none; points = average ∷ averages; trend = none })
        made) [ raise error ↦ (made, some error) | ok saved ↦ (saved, none) ]

  -- the loop of `main`
  unfoldable pub plot_quarters :
      PeriodFrame pandas → List Metric → QuarterPlots → QuarterPlots × Option Error
  unfolding calculate_quarterly_averages plot_quarterly_averages
  plot_quarters df [] disk = (disk, none)
  plot_quarters df (metric ∷ rest) disk =
      let averages = calculate_quarterly_averages df metric in
      let (plotted, error) = plot_quarterly_averages averages metric ("plot" ∷ []) disk in
      elim error [ some e ↦ (plotted, some e) | none ↦ plot_quarters df rest plotted ]

  -- `main` after the processing of the entries
  unfoldable pub plot_quarterly_frame :
      PeriodFrame pandas → QuarterPlots → QuarterPlots × Option Error
  unfolding plot_quarters
  plot_quarterly_frame [] disk = (disk, none)
  plot_quarterly_frame (row ∷ rows) disk = plot_quarters (row ∷ rows) metrics disk

  -- `main`
  unfoldable pub main : Option (List JsonFile) → QuarterPlots → QuarterPlots × Option Error
  unfolding load_listed_files period_frame plot_quarterly_frame
  main files disk = elim (load_listed_files files) [
    | raise error ↦ (disk, some error)
    | ok entries ↦ plot_quarterly_frame (period_frame pandas monthly entries) disk
  ]
