-- ===== src/Plots/Periods/Outcome.antt =====
-- The scripts of the plots by month and by week run to their end.
use code_assist_analyzer.Prelude.{
  true, none, some, List, [], ◌∷◌, map, All, String, string_eq, ok, ◌≡◌, ◌≢◌, refl, ap, ◌∙◌, arith,
}
use package.text.Mathlib.TextLemmas.{append-ne-nil_of_right_ne-nil}
use code_assist_analyzer.Prelude.Text.{join, replace_char}
use code_assist_analyzer.Prelude.Characters.{Without, append-Without, replace_other-Without}
use code_assist_analyzer.Plots.{
  Json, null, boolean, number, text, array, object, Metric, comment_lines, comment_lines_density,
  total_changed_files_comments, metrics, metric_name, Pandas,
}
use code_assist_analyzer.Plots.Disk.{FilePath, Figure, is_directory, makedirs, savefig, join_path}
use code_assist_analyzer.Plots.Disk.Saves.{
  join_path_single, makedirs-is_directory, savefig_in_directory,
}
use code_assist_analyzer.Plots.Periods.{
  Period, underscored, PeriodFrame, PeriodPlots, points, author_data, calculate_averages,
  calculate_averages_by_author, plot_averages, plot_author, plot_authors, plot_author_averages,
  plot_metrics, plot_all,
}

-- an author's name, without slashes
abbrev pub PlainName : Json → Type 0
PlainName (text author) = Without b'/' author
PlainName _ = ⊥

metric_ending-Without :
    (metric : Metric) → Without b'/' (join ("_" ∷ metric_name metric ∷ ".png" ∷ []))
unfolding metric_name join
metric_ending-Without comment_lines = ground arith
metric_ending-Without comment_lines_density = ground arith
metric_ending-Without total_changed_files_comments = ground arith

metric_ending_ne : (metric : Metric) → join ("_" ∷ metric_name metric ∷ ".png" ∷ []) ≢ ""
unfolding metric_name join
metric_ending_ne comment_lines = λ h. cc h
metric_ending_ne comment_lines_density = λ h. cc h
metric_ending_ne total_changed_files_comments = λ h. cc h

module _ (pandas : Pandas) (period : Period) (plain : Without b'/' period.adverb) where
  open pandas use {Timestamp, Float, Trend, group_mean, unique}

  plot_averages-none :
      (averages : List (String × Float)) (metric : Metric) (disk : PeriodPlots pandas)
      → (plot_averages pandas period averages metric ("plot" ∷ []) disk).1 ≡ none
  unfolding plot_averages join
  plot_averages-none averages metric disk =
      let ending = join ("_" ∷ metric_name metric ∷ ".png" ∷ []) in
      rw
        (
          join_path_single ("plot" ∷ [])
              (join (period.adverb ∷ "_" ∷ metric_name metric ∷ ".png" ∷ []))
              (append-Without b'/' period.adverb ending plain (metric_ending-Without metric))
              (append-ne-nil_of_right_ne-nil period.adverb (metric_ending_ne metric)),
          savefig_in_directory ("plot" ∷ [])
              (join (period.adverb ∷ "_" ∷ metric_name metric ∷ ".png" ∷ [])) _
              (makedirs ("plot" ∷ []) disk) (makedirs-is_directory ("plot" ∷ []) disk),
        )
        refl

  author_file : String → Metric → String
  author_file name metric =
      join (name ∷ "_" ∷ period.adverb ∷ "_" ∷ metric_name metric ∷ ".png" ∷ [])

  abbrev averages_figure :
      Metric → List ((String × Json) × Float) → Json → Figure String Float Trend
  averages_figure metric averages author = record {
    metric = metric;
    author = some author;
    points = points pandas (author_data pandas author averages);
    trend = none;
  }

  plot_author-saves :
      (metric : Metric) (averages : List ((String × Json) × Float)) (directory : FilePath)
      (author : Json)
      → PlainName author
      → (disk : PeriodPlots pandas) → is_directory directory disk ≡ true
      → (saved : PeriodPlots pandas) × (plot_author pandas period metric averages directory author
            disk
          ≡ ok saved)
        × (is_directory directory saved ≡ true)
  unfolding plot_author underscored author_file join is_directory
  plot_author-saves metric averages directory (text author) named disk there =
      let name = replace_char b' ' "_" author in
      let ending = join ("_" ∷ metric_name metric ∷ ".png" ∷ []) in
      let file : Without b'/' (author_file name metric) =
        append-Without b'/' name _ (replace_other-Without b' ' b'/' "_" author (refl, tt) named) (
          append-Without b'/' "_" _ (refl, tt)
            (append-Without b'/' period.adverb ending plain (metric_ending-Without metric))) in
      let nonempty : author_file name metric ≢ "" = append-ne-nil_of_right_ne-nil name (
        append-ne-nil_of_right_ne-nil "_"
          (append-ne-nil_of_right_ne-nil period.adverb (metric_ending_ne metric))) in
      (
        _,
        ap (λ path. savefig path (averages_figure metric averages (text author)) disk)
              (join_path_single directory (author_file name metric) file nonempty)
            ∙ savefig_in_directory directory (author_file name metric)
                (averages_figure metric averages (text author)) disk there,
        there,
      )
  plot_author-saves metric averages directory null named disk there = absurd named
  plot_author-saves metric averages directory (boolean b) named disk there = absurd named
  plot_author-saves metric averages directory (number n) named disk there = absurd named
  plot_author-saves metric averages directory (array items) named disk there = absurd named
  plot_author-saves metric averages directory (object fields) named disk there = absurd named

  plot_authors-none :
      (metric : Metric) (averages : List ((String × Json) × Float)) (directory : FilePath)
      (authors : List Json)
      → All PlainName authors
      → (disk : PeriodPlots pandas) → is_directory directory disk ≡ true
      → (plot_authors pandas period metric averages directory authors disk).1 ≡ none
  unfolding plot_authors
  plot_authors-none metric averages directory [] named disk there = refl
  plot_authors-none metric averages directory (author ∷ authors) named disk there =
      let (saved, is, still) =
        plot_author-saves metric averages directory author named.0 disk there in
      rw (plot_authors, is)
        (plot_authors-none metric averages directory authors named.1 saved still)

  -- the averages of a metric by period and author are computed, and the authors of them have plain names
  abbrev pub PlainAuthors : PeriodFrame pandas → Metric → Type 0
  PlainAuthors df metric =
      (averages : List ((String × Json) × Float)) × (calculate_averages_by_author pandas df metric
        ≡ ok averages)
      × All PlainName (unique (map (λ average. average.0.1) averages))

  abbrev pub Averaged : PeriodFrame pandas → Metric → Type 0
  Averaged df metric =
      (averages : List (String × Float)) × (calculate_averages pandas df metric ≡ ok averages)

  plot_author_averages-none :
      (df : PeriodFrame pandas) (ms : List Metric)
      → All (PlainAuthors df) ms
      → (disk : PeriodPlots pandas)
      → (plot_author_averages pandas period df ("plot" ∷ []) ms disk).1 ≡ none
  unfolding plot_author_averages
  plot_author_averages-none df [] known disk = refl
  plot_author_averages-none df (metric ∷ ms) ((averages, computed, named), rest) disk =
      let directory = join_path ("plot" ∷ []) (metric_name metric) in
      let authors = unique (map (λ average. average.0.1) averages) in
      rw
        (
          plot_author_averages,
          computed,
          plot_authors-none metric averages directory authors named (makedirs directory disk)
              (makedirs-is_directory directory disk),
        )
        (plot_author_averages-none df ms rest
          (plot_authors pandas period metric averages directory authors
            (makedirs directory disk)).0)

  plot_metrics-none :
      (df : PeriodFrame pandas) (ms : List Metric)
      → All (Averaged df) ms
      → (disk : PeriodPlots pandas) → (plot_metrics pandas period df ("plot" ∷ []) ms disk).1 ≡ none
  unfolding plot_metrics
  plot_metrics-none df [] known disk = refl
  plot_metrics-none df (metric ∷ ms) ((averages, computed), rest) disk =
      rw (plot_metrics, computed, plot_averages-none averages metric disk)
        (plot_metrics-none df ms rest
          (plot_averages pandas period averages metric ("plot" ∷ []) disk).0)

  pub plot_all-none :
      (df : PeriodFrame pandas)
      → All (Averaged df) metrics
      → All (PlainAuthors df) metrics
      → (disk : PeriodPlots pandas) → (plot_all pandas period df disk).1 ≡ none
  unfolding plot_all
  plot_all-none df averaged named disk =
      rw (plot_all, plot_metrics-none df metrics averaged disk)
        (plot_author_averages-none df metrics named _)
