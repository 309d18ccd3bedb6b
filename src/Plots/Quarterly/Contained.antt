-- ===== src/Plots/Quarterly/Contained.antt =====
-- py_plot_quarterly.py ends without an error once the files are listed.
use code_assist_analyzer.Prelude.{
  Option, none, some, List, [], ◌∷◌, String, string_eq, Result, io_error, ◌≡◌, refl,
}
use code_assist_analyzer.Prelude.Text.{join, split}
use code_assist_analyzer.Plots.{
  Metric, comment_lines, comment_lines_density, total_changed_files_comments, metrics, metric_name,
  Cell, Pandas,
}
use code_assist_analyzer.Plots.Disk.{path_eq, join_path, makedirs}
use code_assist_analyzer.Plots.Disk.Saves.{makedirs-is_directory, savefig_in_directory}
use code_assist_analyzer.Plots.Entries.{JsonFile, load_files, load_listed_files}
use code_assist_analyzer.Plots.Periods.{monthly, PeriodFrame, period_frame}
use code_assist_analyzer.Plots.Quarterly.{
  QuarterPlots, calculate_quarterly_averages, plot_quarterly_averages, plot_quarters,
  plot_quarterly_frame, main,
}

module _ (pandas : Pandas) {Quarter : Type 0}
    (resample : List (String × Cell pandas.Float) → Result (List (Quarter × pandas.Float))) where
  open pandas use {Float, Trend}

  quarterly_name : Metric → String
  quarterly_name comment_lines = "quarterly_comment_lines.png"
  quarterly_name comment_lines_density = "quarterly_comment_lines_density.png"
  quarterly_name total_changed_files_comments = "quarterly_total_changed_files_comments.png"

  joined :
      (metric : Metric)
      → join_path ("plot" ∷ []) (join ("quarterly_" ∷ metric_name metric ∷ ".png" ∷ []))
        ≡ "plot" ∷ quarterly_name metric ∷ []
  unfolding join_path join split metric_name quarterly_name
  joined comment_lines = refl
  joined comment_lines_density = refl
  joined total_changed_files_comments = refl

  plot_quarterly_averages-none :
      (averages : List (Quarter × Float)) (metric : Metric) (disk : QuarterPlots pandas resample)
      → (plot_quarterly_averages pandas resample averages metric ("plot" ∷ []) disk).1 ≡ none
  unfolding plot_quarterly_averages
  plot_quarterly_averages-none [] metric disk = refl
  plot_quarterly_averages-none (average ∷ averages) metric disk =
      rw
        (
          plot_quarterly_averages,
          joined metric,
          savefig_in_directory ("plot" ∷ []) (quarterly_name metric) _ (makedirs ("plot" ∷ []) disk)
              (makedirs-is_directory ("plot" ∷ []) disk),
        )
        refl

  plot_quarters-none :
      (df : PeriodFrame pandas) (ms : List Metric) (disk : QuarterPlots pandas resample)
      → (plot_quarters pandas resample df ms disk).1 ≡ none
  unfolding plot_quarters
  plot_quarters-none df [] disk = refl
  plot_quarters-none df (metric ∷ ms) disk =
      let averages = calculate_quarterly_averages pandas resample df metric in
      rw (plot_quarters, plot_quarterly_averages-none averages metric disk)
        (plot_quarters-none df ms
          (plot_quarterly_averages pandas resample averages metric ("plot" ∷ []) disk).0)

  pub quarterly_main-raised :
      (files : Option (List JsonFile)) (disk : QuarterPlots pandas resample)
      → (main pandas resample files disk).1
        ≡ (elim files [ none ↦ some io_error | some listed ↦ none ])
  unfolding main plot_quarterly_frame load_listed_files
  quarterly_main-raised none disk = refl
  quarterly_main-raised (some files) disk =
      by_frame (period_frame pandas monthly (load_files files))
    where
      by_frame : (df : PeriodFrame pandas) → (plot_quarterly_frame pandas resample df disk).1 ≡ none
      by_frame [] = refl
      by_frame (row ∷ rows) = plot_quarters-none (row ∷ rows) metrics disk
