-- ===== src/Plots/Daily.antt =====
-- The plots of plot_daily.py: the averages by day, of all commits and of each author's.
pub mod FileNames
pub mod Authors
use code_assist_analyzer.Prelude.{
  Bool, true, false, Option, none, some, List, [], ◌∷◌, ◌++◌, map, filter, length, ltb, String,
  if◌then◌else◌, Result, ok, raise, Error, attribute_error, ◌>>=◌,
}
use code_assist_analyzer.Prelude.Text.{join, replace_char}
use code_assist_analyzer.Plots.{Json, text, Metric, metrics, metric_name, Row, Cell, cell, Pandas}
use code_assist_analyzer.Plots.Disk.{FilePath, Figure, Disk, join_path, makedirs, savefig}
use code_assist_analyzer.Plots.Entries.{JsonFile, load_json_files, process_data_to_dataframe}

-- `author.replace(" ", "_").replace("/", "_").replace("\\", "_")`
unfoldable pub safe_author : Json → Result String
unfolding replace_char
safe_author (text author) =
    ok (replace_char b'\\' "_" (replace_char b'/' "_" (replace_char b' ' "_" author)))
safe_author _ = raise attribute_error

module _ (pandas : Pandas) where
  open pandas use {Timestamp, Day, Float, Trend, day, group_mean, unique, same_author, polyfit}

  abbrev pub Frame : Type 0
  Frame = List (Row Timestamp Float)

  abbrev pub Plots : Type 0
  Plots = Disk Day Float Trend

  -- `df.groupby(df['date'].dt.date)[metric].mean().reset_index()`
  unfoldable pub daily_average : Metric → Frame → Result (List (Day × Float))
  unfolding cell
  daily_average metric df = group_mean Day (map (λ row. (day row.date, cell metric row)) df)

  -- the figure of an average and its trend line
  unfoldable pub daily_figure :
      Metric → Option Json → List (Day × Float) → Result (Figure Day Float Trend)
  daily_figure metric author daily_avg = do
    trend ← polyfit (map (λ point. point.1) daily_avg)
    ok (record { metric = metric; author = author; points = daily_avg; trend = some trend })

  unfoldable pub plot_daily_averages : Frame → FilePath → Metric → Plots → Plots × Option Error
  unfolding daily_average daily_figure metric_name makedirs savefig join_path join
  plot_daily_averages df output_dir metric disk =
      let made = makedirs output_dir disk in
      elim (do
        daily_avg ← daily_average metric df
        figure ← daily_figure metric none daily_avg
        savefig (join_path output_dir (join ("daily_" ∷ metric_name metric ∷ ".png" ∷ []))) figure
            made) [ raise error ↦ (made, some error) | ok saved ↦ (saved, none) ]

  -- the rows of an author
  abbrev pub author_rows : Json → Frame → Frame
  author_rows author df = filter (λ row. same_author row.author author) df

  -- the body of the `try` for an author: none where it goes on to the next
  unfoldable pub author_figure :
      Metric → Frame → Json → Result (Option (String × Figure Day Float Trend))
  unfolding daily_average daily_figure metric_name join safe_author
  author_figure metric df author =
      let author_df = author_rows author df in
      if ltb (length author_df) 2
      then ok none
      else daily_average metric author_df >>= (λ daily_avg.
        if ltb (length daily_avg) 2
        then ok none
        else daily_figure metric (some author) daily_avg >>= (λ figure.
          safe_author author
          >>= (λ safe. ok (some (join (safe ∷ "_" ∷ metric_name metric ∷ ".png" ∷ []), figure)))))

  -- an iteration of the loop over the authors, which logs what is raised
  unfoldable pub plot_author : Metric → Frame → FilePath → Json → Plots → Plots
  unfolding author_figure savefig join_path
  plot_author metric df author_dir author disk = elim (author_figure metric df author) [
    | raise error ↦ disk
    | ok none ↦ disk
    | ok (some (name, figure)) ↦ elim (savefig (join_path author_dir name) figure disk) [
      | raise error ↦ disk
      | ok saved ↦ saved
    ]
  ]

  unfoldable pub plot_authors : Metric → Frame → FilePath → List Json → Plots → Plots
  unfolding plot_author
  plot_authors metric df author_dir [] disk = disk
  plot_authors metric df author_dir (author ∷ authors) disk =
      plot_authors metric df author_dir authors (plot_author metric df author_dir author disk)

  unfoldable pub plot_author_daily_averages : Frame → FilePath → List Metric → Plots → Plots
  unfolding plot_authors makedirs join_path metric_name
  plot_author_daily_averages df output_dir [] disk = disk
  plot_author_daily_averages df output_dir (metric ∷ rest) disk =
      let author_dir = join_path output_dir (metric_name metric) in
      let authors = unique (map (λ row. row.author) df) in
      plot_author_daily_averages df output_dir rest
        (plot_authors metric df author_dir authors (makedirs author_dir disk))

  -- the loop over the metrics in `main`, which an error ends
  unfoldable pub plot_metrics : Frame → FilePath → List Metric → Plots → Plots × Option Error
  unfolding plot_daily_averages
  plot_metrics df output_dir [] disk = (disk, none)
  plot_metrics df output_dir (metric ∷ rest) disk =
      let (plotted, error) = plot_daily_averages df output_dir metric disk in
      elim error [ some e ↦ (plotted, some e) | none ↦ plot_metrics df output_dir rest plotted ]

  -- the plots of `main`, with the errors that it logs
  unfoldable pub plot_frame : Frame → Plots → Plots
  unfolding plot_metrics plot_author_daily_averages
  plot_frame [] disk = disk
  plot_frame (row ∷ rows) disk =
      let (plotted, error) = plot_metrics (row ∷ rows) ("plot" ∷ []) metrics disk in
      elim error [
        | some e ↦ plotted
        | none ↦ plot_author_daily_averages (row ∷ rows) ("plot" ∷ []) metrics plotted
      ]

  -- `main` after the loading
  unfoldable pub plot_entries : List Json → Plots → Plots × Option Error
  unfolding process_data_to_dataframe plot_frame
  plot_entries [] disk = (disk, none)
  plot_entries (entry ∷ entries) disk = elim (process_data_to_dataframe pandas (entry ∷ entries)) [
    | raise error ↦ (disk, some error)
    | ok df ↦ (plot_frame df disk, none)
  ]

  -- `main`, with the files of the directory json, none if there is no such directory, and the disk
  unfoldable pub main : Option (List JsonFile) → Plots → Plots × Option Error
  unfolding load_json_files plot_entries
  main none disk = (disk, none)
  main (some files) disk = plot_entries (load_json_files (some files)) disk
