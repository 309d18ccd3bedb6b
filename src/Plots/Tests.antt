-- ===== src/Plots/Tests.antt =====
-- The scripts of the plots on small directories, with a pandas that stands for the real one.
use code_assist_analyzer.Prelude.{
  ℕ, true, false, Option, none, some, List, [], ◌∷◌, map, String, string_eq, ◌==◌, Result, ok,
  raise, successes, value_error, key_error, ◌≡◌, refl, ap, if◌then◌else◌, arith, any, filter,
  nat_beq,
}
use code_assist_analyzer.Prelude.Int.{ℤ, pos}
use code_assist_analyzer.Prelude.Dict.{get, put}
use code_assist_analyzer.Prelude.Text.{split, join, replace_char, ends_with}
use code_assist_analyzer.Commits.{
  Tools, CommitData, measures, changed_files_loop, get_comment_metrics, get_file_comment_metrics,
  first_comment_lines, commit_data, project_comments,
}
use code_assist_analyzer.Plots.{
  Json, null, number, text, comment_lines, metrics, metric_name, Row, Cell, cell, Pandas, item,
}
use code_assist_analyzer.Plots.Disk.{
  path_eq, Disk, Figure, makedirs, savefig, is_directory, join_path,
}
use code_assist_analyzer.Plots.Entries.{
  JsonFile, load_files, process_entry, process_data_to_dataframe,
}
use code_assist_analyzer.Plots.Entries.Saved.{json_of, process_entry-json_of}
use code_assist_analyzer.Plots.Daily.{
  Frame, plot_author_daily_averages, plot_authors, plot_author, author_figure, safe_author,
  daily_average, daily_figure, main,
}
use code_assist_analyzer.Plots.Daily.Authors.{
  plot_author_daily_averages-get, last_figure, saved_over, authors_of,
}
use code_assist_analyzer.Plots.Periods.{
  monthly, PeriodFrame, plot_all, calculate_averages, calculate_averages_by_author,
}
use code_assist_analyzer.Plots.Periods.Outcome.{plot_all-none}
use code_assist_analyzer.Plots.Quarterly
use code_assist_analyzer.Plots.Quarterly.Contained.{quarterly_main-raised}

abbrev text_int : String → Option ℕ
text_int value = if value == "12" then some 12 else none

abbrev read_int : Json → Result ℤ
read_int (number literal) = ok (pos 0)
read_int (text value) = elim (text_int value) [ none ↦ raise value_error | some n ↦ ok (pos n) ]
read_int _ = raise value_error

abbrev read_date : Json → Result ℕ
read_date (text date) = ok (if date == "2019-05-02" then 2 else 1)
read_date _ = raise value_error

abbrev small_pandas : Pandas
small_pandas = record {
  Timestamp = ℕ;
  Day = ℕ;
  Float = ℕ;
  Trend = ℕ;
  int = read_int;
  float = λ value. ok 3;
  to_datetime = read_date;
  tz_convert = λ stamp. ok stamp;
  tz_localize = λ stamp. stamp;
  day = λ stamp. stamp;
  strftime = λ pattern stamp. if nat_beq stamp 2 then "2019-05" else "2019-04";
  sort_values = λ Entry key rows. rows;
  group_mean = λ Key rows. ok (map (λ (row : Key × Cell ℕ). (row.0, 3)) rows);
  unique = λ values. values;
  same_author = λ a b. elim a [ text x ↦ elim b [ text y ↦ x == y | _ ↦ false ] | _ ↦ false ];
  polyfit = λ values. ok 0;
}

abbrev row_by : String → ℕ → Row ℕ ℕ
row_by author date = record {
  date = date;
  author = text author;
  comment_lines = pos 12;
  comment_lines_density = 3;
  total_changed_files_comments = number "0";
}

-- two authors whose names differ in what the file names do not keep
abbrev two_authors : Frame small_pandas
two_authors = row_by "a b" 1 ∷ row_by "a b" 2 ∷ row_by "a/b" 1 ∷ row_by "a/b" 2 ∷ []

abbrev blank : Disk ℕ ℕ ℕ
blank = record { directories = []; files = [] }

abbrev figure_author : Option (Figure ℕ ℕ ℕ) → Option Json
figure_author none = none
figure_author (some figure) = figure.author

-- the second author's figure replaces the first's
second_author_overwrites :
    figure_author (
      get
        ("plot" ∷ "comment_lines" ∷ "a_b_comment_lines.png" ∷ [])
        (plot_author_daily_averages small_pandas two_authors ("plot" ∷ []) metrics blank).files)
    ≡ some (text "a/b")
unfolding plot_author_daily_averages plot_authors plot_author author_figure daily_average
    daily_figure safe_author join_path split join replace_char metric_name makedirs savefig
    is_directory any filter get put cell
second_author_overwrites = refl

plot_author_daily_averages-get_example :
    get
      ("plot" ∷ metric_name comment_lines ∷ "a_b_comment_lines.png" ∷ [])
      (plot_author_daily_averages small_pandas two_authors ("plot" ∷ []) metrics blank).files
    ≡ saved_over small_pandas
        (last_figure small_pandas comment_lines two_authors
          (authors_of small_pandas two_authors)
          "a_b_comment_lines.png")
        (get ("plot" ∷ metric_name comment_lines ∷ "a_b_comment_lines.png" ∷ []) blank.files)
plot_author_daily_averages-get_example =
    plot_author_daily_averages-get small_pandas two_authors blank comment_lines
      "a_b_comment_lines.png"

abbrev bad_files : List JsonFile
bad_files = ("a.json", some null) ∷ ("b.json", none) ∷ ("c.txt", some null) ∷ []

bad_files_raise : (main small_pandas (some bad_files) blank).1 ≡ some key_error
unfolding main load_files ends_with process_data_to_dataframe successes process_entry item
bad_files_raise = refl

abbrev small_tools : Tools (Unit {0})
small_tools = record {
  git_show = λ commit_hash. none;
  diff_tree = λ commit_hash. none;
  checkout = λ commit_hash head. commit_hash;
  scan = λ head server. (true, server);
  project_measures =
      λ server. measures (("comment_lines", "12") ∷ ("comment_lines_density", "3.0") ∷ []);
  file_measures = λ server path. measures (("comment_lines", "12") ∷ []);
  parse_int = text_int;
  iso_date = λ date. some date;
  strip = λ line. line;
}

abbrev literal : ℕ → String
literal n = if nat_beq n 24 then "24" else "0"

read_alike :
    (value : String) (m : ℕ) → text_int value ≡ some m → small_pandas.int (text value) ≡ ok (pos m)
read_alike value m h =
    ap
      (λ (o : Option ℕ). elim o as (λ _. Result ℤ) [
        | none ↦ raise value_error
        | some n ↦ ok (pos n)
      ])
      h

abbrev written_commit : CommitData
written_commit = record {
  commit_hash = "abc";
  author = "Ivan";
  date = "2019-05-02";
  overall_comment_metrics = ("comment_lines", "12") ∷ ("comment_lines_density", "3.0") ∷ [];
  changed_files_metrics = ("f.py", 12) ∷ ("g.py", 12) ∷ [];
  total_changed_files_comments = 24;
}

process_entry-json_of_example :
    (n : ℕ) × (project_comments text_int written_commit.overall_comment_metrics ≡ ok n)
    × (process_entry small_pandas (json_of literal written_commit)
        ≡ ok (record {
          date = 2;
          author = text "Ivan";
          comment_lines = pos n;
          comment_lines_density = 3;
          total_changed_files_comments = number "24";
        }))
unfolding commit_data project_comments get_comment_metrics changed_files_loop
    get_file_comment_metrics first_comment_lines put get
process_entry-json_of_example =
    process_entry-json_of small_tools small_pandas literal tt "abc" "Ivan" "2019-05-02"
      ("f.py" ∷ "g.py" ∷ []) {written = written_commit} refl refl read_alike {stamp = 2} {utc = 2}
      refl refl {density = 3} refl

abbrev two_months : PeriodFrame small_pandas
two_months = (row_by "Ivan" 1, "2019-04") ∷ (row_by "Yevgeni" 2, "2019-05") ∷ []

abbrev blank_months : Disk String ℕ ℕ
blank_months = record { directories = []; files = [] }

plot_all-none_example : (plot_all small_pandas monthly two_months blank_months).1 ≡ none
unfolding calculate_averages calculate_averages_by_author
plot_all-none_example =
    plot_all-none small_pandas monthly (ground arith) two_months
      ((_, refl), ((_, refl), ((_, refl), tt)))
      ((_, refl, ground arith), ((_, refl, ground arith), ((_, refl, ground arith), tt)))
      blank_months

abbrev resampled : List (String × Cell ℕ) → Result (List (ℕ × ℕ))
resampled rows = ok ((1, 3) ∷ [])

abbrev blank_quarters : Disk ℕ ℕ ℕ
blank_quarters = record { directories = []; files = [] }

quarterly_main-raised_example :
    (Quarterly.main small_pandas resampled (some bad_files) blank_quarters).1 ≡ none
quarterly_main-raised_example =
    quarterly_main-raised small_pandas resampled (some bad_files) blank_quarters
