-- ===== src/Plots/Daily/Authors.antt =====
-- Which figures `plot_author_daily_averages` of plot_daily.py leaves on the disk.
use code_assist_analyzer.Prelude.{
  Bool, true, false, Option, none, some, List, [], ◌∷◌, ◌++◌, map, String, string_eq, ◌==◌, ==-refl,
  if◌then◌else◌, ok, raise, Result-cases, ◌≡◌, ◌≢◌, refl, ap, ◌∙◌, ◌⊎◌, inl, inr, arith,
}
use code_assist_analyzer.Prelude.Dict.{get, put, get-put}
use code_assist_analyzer.Prelude.Text.{split}
use code_assist_analyzer.Plots.{
  Json, Metric, comment_lines, comment_lines_density, total_changed_files_comments, metrics,
  metric_name, Pandas,
}
use code_assist_analyzer.Plots.Disk.{FilePath, path_eq, Figure, is_directory, makedirs, join_path}
use code_assist_analyzer.Plots.Disk.Saves.{
  join_path_single, makedirs-is_directory, savefig_in_directory,
}
use code_assist_analyzer.Plots.Daily.{
  Frame, Plots, author_figure, plot_author, plot_authors, plot_author_daily_averages,
}
use code_assist_analyzer.Plots.Daily.FileNames.{author_figure-IsFileName}

same_place :
    (directory : FilePath) (n m : String)
    → ((directory ++ n ∷ []) == (directory ++ m ∷ [])) ≡ (n == m)
same_place [] n m = ground arith
same_place (x ∷ directory) n m = ground (arith, ==-refl x, same_place directory n m)

module _ (pandas : Pandas) where
  open pandas use {Day, Float, Trend, unique}

  -- the figure that an author's iteration saves under this name
  pub figure_named : Metric → Frame pandas → Json → String → Option (Figure Day Float Trend)
  figure_named metric df author name = elim (author_figure pandas metric df author) [
    | raise error ↦ none
    | ok none ↦ none
    | ok (some (n, figure)) ↦ if n == name then some figure else none
  ]

  -- the figure under this name that the last author with one has
  pub last_figure : Metric → Frame pandas → List Json → String → Option (Figure Day Float Trend)
  unfolding figure_named
  last_figure metric df [] name = none
  last_figure metric df (author ∷ authors) name = elim (last_figure metric df authors name) [
    | some figure ↦ some figure
    | none ↦ figure_named metric df author name
  ]

  -- what is found where this may have been saved
  pub saved_over :
      Option (Figure Day Float Trend)
      → Option (Figure Day Float Trend)
      → Option (Figure Day Float Trend)
  saved_over (some figure) old = some figure
  saved_over none old = old

  module _ (metric : Metric) (df : Frame pandas) (directory : FilePath) where
    abbrev place : String → FilePath
    place name = directory ++ name ∷ []

    figure_saved : String → Figure Day Float Trend → Plots pandas → Plots pandas
    figure_saved name figure disk = record disk { files = put (place name) figure disk.files }

    -- an iteration saves one figure, or none
    plot_author-cases :
        (author : Json) (disk : Plots pandas)
        → is_directory directory disk ≡ true
        → (((name : String) → figure_named metric df author name ≡ none)
            × (plot_author pandas metric df directory author disk ≡ disk))
          ⊎ ((n : String) × (figure : Figure Day Float Trend) × ((name : String)
                → figure_named metric df author name ≡ (if n == name then some figure else none))
              × (plot_author pandas metric df directory author disk ≡ figure_saved n figure disk))
    unfolding plot_author figure_named figure_saved
    plot_author-cases author disk there =
        elim (Result-cases (author_figure pandas metric df author)) [
          | inr (error, is) ↦ inl (λ name. rw (figure_named, is) refl, rw (plot_author, is) refl)
          | inl (outcome, is) ↦ by_outcome outcome is
        ]
      where
        by_outcome :
            (outcome : Option (String × Figure Day Float Trend))
            → author_figure pandas metric df author ≡ ok outcome
            → (((name : String) → figure_named metric df author name ≡ none)
                × (plot_author pandas metric df directory author disk ≡ disk))
              ⊎ ((n : String) × (figure : Figure Day Float Trend) × ((name : String)
                    → figure_named metric df author name
                      ≡ (if n == name then some figure else none))
                  × (plot_author pandas metric df directory author disk
                      ≡ figure_saved n figure disk))
        by_outcome none is = inl (λ name. rw (figure_named, is) refl, rw (plot_author, is) refl)
        by_outcome (some (n, figure)) is =
            let (no_slash, nonempty) = author_figure-IsFileName pandas metric df author is in
            inr (
              n,
              figure,
              λ name. rw (figure_named, is) refl,
              rw
                  (
                    plot_author,
                    is,
                    join_path_single directory n no_slash nonempty,
                    savefig_in_directory directory n figure disk there,
                  )
                  refl,
            )

    plot_author-get :
        (author : Json) (disk : Plots pandas)
        → is_directory directory disk ≡ true
        → (name : String)
        → get (place name) (plot_author pandas metric df directory author disk).files
          ≡ saved_over (figure_named metric df author name) (get (place name) disk.files)
    unfolding saved_over figure_saved
    plot_author-get author disk there name = elim (plot_author-cases author disk there) [
      | inl (unsaved, same) ↦ rw (same, unsaved name) refl
      | inr (n, figure, named, saved) ↦
          rw (saved, named name)
            (get-put (place n) (place name) figure disk.files
              ∙ rw (same_place directory n name) (by_test (n == name) figure))
    ]
      where
        by_test :
            (b : Bool) (figure : Figure Day Float Trend)
            → (if b then some figure else get (place name) disk.files)
              ≡ saved_over (if b then some figure else none) (get (place name) disk.files)
        by_test true figure = refl
        by_test false figure = refl

    plot_author-directories :
        (author : Json) (disk : Plots pandas)
        → is_directory directory disk ≡ true
        → (plot_author pandas metric df directory author disk).directories ≡ disk.directories
    unfolding figure_saved
    plot_author-directories author disk there = elim (plot_author-cases author disk there) [
      | inl (unsaved, same) ↦ rw same refl
      | inr (n, figure, named, saved) ↦ rw saved refl
    ]

    plot_author-elsewhere :
        (author : Json) (disk : Plots pandas)
        → is_directory directory disk ≡ true
        → (path : FilePath) → ((name : String) → (place name == path) ≡ false)
        → get path (plot_author pandas metric df directory author disk).files ≡ get path disk.files
    unfolding figure_saved
    plot_author-elsewhere author disk there path elsewhere =
        elim (plot_author-cases author disk there) [
          | inl (unsaved, same) ↦ rw same refl
          | inr (n, figure, named, saved) ↦
              rw saved (get-put (place n) path figure disk.files ∙ rw (elsewhere n) refl)
        ]

    still_there :
        (author : Json) (disk : Plots pandas)
        → is_directory directory disk ≡ true
        → is_directory directory (plot_author pandas metric df directory author disk) ≡ true
    unfolding is_directory
    still_there author disk there = rw (plot_author-directories author disk there) there

    -- the loop over the authors: under each name, the figure of the last author who has one
    plot_authors-get :
        (authors : List Json) (disk : Plots pandas)
        → is_directory directory disk ≡ true
        → (name : String)
        → get (place name) (plot_authors pandas metric df directory authors disk).files
          ≡ saved_over (last_figure metric df authors name) (get (place name) disk.files)
    unfolding plot_authors last_figure saved_over
    plot_authors-get [] disk there name = refl
    plot_authors-get (author ∷ authors) disk there name =
        plot_authors-get authors (plot_author pandas metric df directory author disk)
          (still_there author disk there) name
        ∙ by_later (last_figure metric df authors name)
      where
        by_later :
            (later : Option (Figure Day Float Trend))
            → saved_over later
                (get (place name) (plot_author pandas metric df directory author disk).files)
              ≡ saved_over
                  (elim later as (λ _. Option (Figure Day Float Trend)) [
                    | some figure ↦ some figure
                    | none ↦ figure_named metric df author name
                  ])
                  (get (place name) disk.files)
        by_later (some figure) = refl
        by_later none = plot_author-get author disk there name

    plot_authors-elsewhere :
        (authors : List Json) (disk : Plots pandas)
        → is_directory directory disk ≡ true
        → (path : FilePath) → ((name : String) → (place name == path) ≡ false)
        → get path (plot_authors pandas metric df directory authors disk).files
          ≡ get path disk.files
    unfolding plot_authors
    plot_authors-elsewhere [] disk there path elsewhere = refl
    plot_authors-elsewhere (author ∷ authors) disk there path elsewhere =
        plot_authors-elsewhere authors (plot_author pandas metric df directory author disk)
          (still_there author disk there) path elsewhere
        ∙ plot_author-elsewhere author disk there path elsewhere

  abbrev pub authors_of : Frame pandas → List Json
  authors_of df = unique (map (λ row. row.author) df)

  abbrev metric_directory : Metric → FilePath
  metric_directory metric = "plot" ∷ metric_name metric ∷ []

  -- the disk after the loop over the authors, for a metric
  abbrev metric_plotted : Metric → Frame pandas → Plots pandas → Plots pandas
  metric_plotted metric df disk =
      plot_authors pandas metric df (metric_directory metric) (authors_of df)
        (makedirs (metric_directory metric) disk)

  other_metric :
      (metric other : Metric)
      → metric ≢ other
      → (n name : String)
      → ((metric_directory metric ++ n ∷ []) == (metric_directory other ++ name ∷ [])) ≡ false
  unfolding metric_name
  other_metric comment_lines comment_lines differ n name = absurd (differ refl)
  other_metric comment_lines comment_lines_density differ n name = refl
  other_metric comment_lines total_changed_files_comments differ n name = refl
  other_metric comment_lines_density comment_lines differ n name = refl
  other_metric comment_lines_density comment_lines_density differ n name = absurd (differ refl)
  other_metric comment_lines_density total_changed_files_comments differ n name = refl
  other_metric total_changed_files_comments comment_lines differ n name = refl
  other_metric total_changed_files_comments comment_lines_density differ n name = refl
  other_metric total_changed_files_comments total_changed_files_comments differ n name =
      absurd (differ refl)

  metric_plotted-get :
      (metric : Metric) (df : Frame pandas) (disk : Plots pandas) (name : String)
      → get (metric_directory metric ++ name ∷ []) (metric_plotted metric df disk).files
        ≡ saved_over
            (last_figure metric df (authors_of df) name)
            (get (metric_directory metric ++ name ∷ []) disk.files)
  unfolding makedirs
  metric_plotted-get metric df disk name =
      plot_authors-get metric df (metric_directory metric) (authors_of df)
        (makedirs (metric_directory metric) disk)
        (makedirs-is_directory (metric_directory metric) disk) name

  metric_plotted-other :
      (metric other : Metric)
      → metric ≢ other
      → (df : Frame pandas) (disk : Plots pandas) (name : String)
      → get (metric_directory other ++ name ∷ []) (metric_plotted metric df disk).files
        ≡ get (metric_directory other ++ name ∷ []) disk.files
  unfolding makedirs
  metric_plotted-other metric other differ df disk name =
      plot_authors-elsewhere metric df (metric_directory metric) (authors_of df)
        (makedirs (metric_directory metric) disk)
        (makedirs-is_directory (metric_directory metric) disk) (metric_directory other ++ name ∷ [])
        (λ n. other_metric metric other differ n name)

  -- After the plots by author of plot_daily.py, in the directory that `main` gives, a file in the
  -- directory of a metric holds the figure of the last of the authors, in the order of `unique`, whose
  -- figure goes under this name; where no author's does, what the file held before. An author has a
  -- figure when two rows and two daily averages are there and nothing is raised for it.
  pub plot_author_daily_averages-get :
      (df : Frame pandas) (disk : Plots pandas) (metric : Metric) (name : String)
      → get
          ("plot" ∷ metric_name metric ∷ name ∷ [])
          (plot_author_daily_averages pandas df ("plot" ∷ []) metrics disk).files
        ≡ saved_over
            (last_figure metric df (authors_of df) name)
            (get ("plot" ∷ metric_name metric ∷ name ∷ []) disk.files)
  unfolding plot_author_daily_averages metric_name join_path split
  plot_author_daily_averages-get df disk comment_lines name =
      let first = metric_plotted comment_lines df disk in
      metric_plotted-other total_changed_files_comments comment_lines (λ h. cc h) df
        (metric_plotted comment_lines_density df first) name
      ∙ metric_plotted-other comment_lines_density comment_lines (λ h. cc h) df first name
      ∙ metric_plotted-get comment_lines df disk name
  plot_author_daily_averages-get df disk comment_lines_density name =
      let first = metric_plotted comment_lines df disk in
      metric_plotted-other total_changed_files_comments comment_lines_density (λ h. cc h) df
        (metric_plotted comment_lines_density df first) name
      ∙ metric_plotted-get comment_lines_density df first name
      ∙ ap (saved_over (last_figure comment_lines_density df (authors_of df) name))
          (metric_plotted-other comment_lines comment_lines_density (λ h. cc h) df disk name)
  plot_author_daily_averages-get df disk total_changed_files_comments name =
      let first = metric_plotted comment_lines df disk in
      metric_plotted-get total_changed_files_comments df
        (metric_plotted comment_lines_density df first) name
      ∙ ap (saved_over (last_figure total_changed_files_comments df (authors_of df) name)) (
          metric_plotted-other comment_lines_density total_changed_files_comments (λ h. cc h) df
            first name
          ∙ metric_plotted-other comment_lines total_changed_files_comments (λ h. cc h) df disk
              name)
