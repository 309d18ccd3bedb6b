-- ===== src/Plots/Entries/Saved.antt =====
-- The files that the commit analysis (py_analyze.py) saves, as the scripts of the plots read them.
use code_assist_analyzer.Prelude.{
  ℕ, Option, none, some, List, [], ◌∷◌, String, string_eq, ◌==◌, Result, ok, raise, >>=-eq-ok,
  >>=-of_ok, ok-injective, value_error, Option-cases, ◌≡◌, refl, ap, ◌∙◌, inl, inr, Bool-cases,
}
use code_assist_analyzer.Prelude.Int.{pos}
use code_assist_analyzer.Prelude.Dict.{Dict, get}
use code_assist_analyzer.Commits.{
  Tools, CommitData, commit_data, project_comments, changed_files_loop, get_comment_metrics,
}
use code_assist_analyzer.Plots.{
  Json, text, number, object, Fields, end, field, lookup, get_or, Row, Pandas,
}
use code_assist_analyzer.Plots.Entries.{process_fields, process_entry}

-- `json.dump` of a dict of texts
unfoldable pub text_fields : Dict String String → Fields
text_fields [] = end
text_fields ((key, value) ∷ rest) = field key (text value) (text_fields rest)

unfoldable pub number_fields : (ℕ → String) → Dict String ℕ → Fields
number_fields literal [] = end
number_fields literal ((key, value) ∷ rest) =
    field key (number (literal value)) (number_fields literal rest)

-- what `json.dump` writes for a commit, and `json.load` reads again
unfoldable pub json_of : (ℕ → String) → CommitData → Json
unfolding text_fields number_fields
json_of literal commit = object (
    field "commit_hash" (text commit.commit_hash) (
      field "author" (text commit.author) (
        field "date" (text commit.date) (
          field "overall_comment_metrics" (object (text_fields commit.overall_comment_metrics)) (
            field "changed_files_metrics"
              (object (number_fields literal commit.changed_files_metrics))
              (field "total_changed_files_comments"
                (number (literal commit.total_changed_files_comments)) end))))))

lookup-text_fields :
    (key : String) (d : Dict String String)
    → lookup key (text_fields d)
      ≡ (elim (get key d) [ none ↦ none | some value ↦ some (text value) ])
unfolding text_fields get
lookup-text_fields key [] = refl
lookup-text_fields key ((name, value) ∷ rest) = elim (Bool-cases (name == key)) [
  | inl same ↦ rw (same, get) refl
  | inr other ↦ rw (other, get) (lookup-text_fields key rest)
]

-- A metric of the saved file, or the default 0: what the scripts of the plots read.
unfoldable pub metric_value : String → Dict String String → Json
metric_value name d = elim (get name d) [ none ↦ number "0" | some value ↦ text value ]

get_or-text_fields :
    (key : String) (d : Dict String String)
    → get_or key (object (text_fields d)) (number "0") ≡ ok (metric_value key d)
unfolding get_or metric_value
get_or-text_fields key d = rw (get_or, lookup-text_fields key d) (by_value (get key d))
  where
    by_value :
        (value : Option String)
        → (elim (elim value as (λ _. Option Json) [ none ↦ none | some v ↦ some (text v) ])
            as (λ _. Result Json) [ none ↦ ok (number "0") | some v ↦ ok v ])
          ≡ ok (elim value as (λ _. Json) [ none ↦ number "0" | some v ↦ text v ])
    by_value none = refl
    by_value (some value) = refl

module _ {Server : Type 0} (tools : Tools Server) (pandas : Pandas) (literal : ℕ → String) where
  open pandas use {Timestamp, Float, int, float, to_datetime, tz_convert}

  -- the comment lines that the analysis parses are what the scripts parse
  int-metric_value :
      (d : Dict String String) {n : ℕ}
      → int (number "0") ≡ ok (pos 0)
      → ((value : String) (m : ℕ) → tools.parse_int value ≡ some m → int (text value) ≡ ok (pos m))
      → project_comments tools.parse_int d ≡ ok n
      → int (metric_value "comment_lines" d) ≡ ok (pos n)
  unfolding metric_value project_comments
  int-metric_value d {n} zero_read read parsed = by_value (get "comment_lines" d) parsed
    where
      by_value :
          (value : Option String)
          → (elim value as (λ _. Result ℕ) [
            | none ↦ ok 0
            | some v ↦ elim (tools.parse_int v) [ none ↦ raise value_error | some m ↦ ok m ]
          ])
            ≡ ok n
          → int (elim value as (λ _. Json) [ none ↦ number "0" | some v ↦ text v ]) ≡ ok (pos n)
      by_value none zero_is = rw (← ok-injective zero_is) zero_read
      by_value (some v) h = elim (Option-cases (tools.parse_int v)) [
        | inl unread ↦ cc (rw unread at h)
        | inr (m, is) ↦ rw (← ok-injective (rw is at h)) (read v m is)
      ]

  abbrev row_of : String → CommitData → Timestamp → ℕ → Float → Row Timestamp Float
  row_of author commit date lines density = record {
    date = date;
    author = text author;
    comment_lines = pos lines;
    comment_lines_density = density;
    total_changed_files_comments = number (literal commit.total_changed_files_comments);
  }

  process_fields-json_of :
      (commit : CommitData) (date : Timestamp) {lines : ℕ} {density : Float}
      → int (metric_value "comment_lines" commit.overall_comment_metrics) ≡ ok (pos lines)
      → float (metric_value "comment_lines_density" commit.overall_comment_metrics) ≡ ok density
      → process_fields pandas (json_of literal commit) date
        ≡ ok (row_of commit.author commit date lines density)
  unfolding process_fields json_of
  process_fields-json_of commit date {lines} {density} counted dense =
      >>=-of_ok _ _ (get_or-text_fields "comment_lines" commit.overall_comment_metrics) (
        >>=-of_ok _ _ counted (
          >>=-of_ok _ _ (get_or-text_fields "comment_lines_density" commit.overall_comment_metrics)
            (>>=-of_ok _ _ dense refl)))

  pub process_entry-json_of :
      (server : Server) (h author date : String) (files : List String) {written : CommitData}
      → commit_data tools server (h, author, date) files ≡ ok written
      → int (number "0") ≡ ok (pos 0)
      → ((value : String) (m : ℕ) → tools.parse_int value ≡ some m → int (text value) ≡ ok (pos m))
      → {stamp utc : Timestamp} → to_datetime (text date) ≡ ok stamp
      → tz_convert stamp ≡ ok utc
      → {density : Float}
      → float (metric_value "comment_lines_density" written.overall_comment_metrics) ≡ ok density
      → (n : ℕ) × (project_comments tools.parse_int written.overall_comment_metrics ≡ ok n)
        × (process_entry pandas (json_of literal written)
            ≡ ok (record {
              date = utc;
              author = text author;
              comment_lines = pos n;
              comment_lines_density = density;
              total_changed_files_comments = number (literal written.total_changed_files_comments);
            }))
  unfolding commit_data process_entry json_of
  process_entry-json_of server h author date files {written} saved zero_read read {stamp} {utc}
        dated converted {density} dense =
      let overall = get_comment_metrics tools server in
      let (n, parsed, h1) = >>=-eq-ok (project_comments tools.parse_int overall) _ saved in
      let ((metrics, total), counted, h2) =
        >>=-eq-ok (changed_files_loop tools server files [] 0) _ h1 in
      let named : written.date ≡ date = cc (ok-injective h2) in
      let authored : written.author ≡ author = cc (ok-injective h2) in
      let measured : written.overall_comment_metrics ≡ overall = cc (ok-injective h2) in
      let parsed' = ap (project_comments tools.parse_int) measured ∙ parsed in
      let dated' : to_datetime (text written.date) ≡ ok stamp =
        ap (λ d. to_datetime (text d)) named ∙ dated in
      (
        n,
        parsed',
        (>>=-of_ok _ _ dated' (
              >>=-of_ok _ _ converted (
                process_fields-json_of written utc
                  (int-metric_value written.overall_comment_metrics zero_read read parsed') dense)))
            ∙ ap (λ a. ok (row_of a written utc n density)) authored,
      )
