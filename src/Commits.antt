-- ===== src/Commits.antt =====
-- The commit analysis of py_analyze.py, and of get_comments.py, which has the same functions without
-- those on changed files. git, the scanner, the SonarQube server and the parsing of numbers and dates
-- are parameters: the fields of `Tools`.
pub mod Keeps
pub mod Repeat
pub mod Totals
pub mod CommentsOnly
mod Tests
use code_assist_analyzer.Prelude.{
  ℕ, zero, suc, ◌+◌, Bool, true, false, Option, none, some, List, [], ◌∷◌, map, String, string_eq,
  Eq, ◌==◌, if◌then◌else◌, Result, ok, raise, value_error, runtime_error, Error, ◌>>=◌,
}
use code_assist_analyzer.Prelude.Dict.{Dict, get, has_key, put}
use code_assist_analyzer.Prelude.Text.{split}

-- What a request for the measures of a component gives: the metrics with their values, a response
-- without them, or a RequestException.
pub data Response : Type 0 where
  measures : List (String × String) → Response
  no_measures : Response
  request_exception : Response

pub record Tools (Server : Type 0) : Type 0 where
  pub git_show : String → Option String  -- the commit's hash, author and date; none: it fails
  pub diff_tree : String → Option (List String)  -- the lines of its output
  pub checkout : String → String → String  -- the commit checked out after, and before
  pub scan : String → Server → Bool × Server  -- of the commit checked out: success
  pub project_measures : Server → Response
  pub file_measures : Server → String → Response
  pub parse_int : String → Option ℕ
  pub iso_date : String → Option String  -- strptime, then isoformat
  pub strip : String → String

pub record CommitData : Type 0 where
  pub commit_hash : String
  pub author : String
  pub date : String
  pub overall_comment_metrics : Dict String String
  pub changed_files_metrics : Dict String ℕ
  pub total_changed_files_comments : ℕ

-- what the scripts change: the commit checked out, the server, and the files under json/, by the
-- hash in their name
pub record Machine (Server : Type 0) : Type 0 where
  pub head : String
  pub server : Server
  pub json : Dict String CommitData

-- the dict comprehension over the measures: of a metric that occurs twice, the last
abbrev pub metrics_from : List (String × String) → Dict String String → Dict String String
metrics_from [] metrics = metrics
metrics_from ((metric, value) ∷ rest) metrics = metrics_from rest (put metric value metrics)

-- the first measure of the comment lines, or 0
unfoldable pub first_comment_lines : (String → Option ℕ) → List (String × String) → Result ℕ
first_comment_lines parse_int [] = ok 0
first_comment_lines parse_int ((metric, value) ∷ rest) =
    let others = first_comment_lines parse_int rest in
    if metric == "comment_lines"
    then elim (parse_int value) [ none ↦ raise value_error | some n ↦ ok n ]
    else others

-- `int(metrics.get('comment_lines', 0))`
unfoldable pub project_comments : (String → Option ℕ) → Dict String String → Result ℕ
project_comments parse_int metrics = elim (get "comment_lines" metrics) [
  | none ↦ ok 0
  | some value ↦ elim (parse_int value) [ none ↦ raise value_error | some n ↦ ok n ]
]

-- `commit_hash, author, commit_date = commit_info.strip().split('|')`
pub three_fields : List String → Result (String × String × String)
three_fields (h ∷ author ∷ date ∷ []) = ok (h, author, date)
three_fields _ = raise value_error

-- The hashes of a file that has these lines; none: there is no such file.
pub read_commit_hashes : (String → String) → Option (List String) → List String
read_commit_hashes strip none = []
read_commit_hashes strip (some lines) = map strip lines

module _ {Server : Type 0} (tools : Tools Server) where
  open tools use {
    git_show, diff_tree, checkout, scan, project_measures, file_measures, parse_int, iso_date,
    strip,
  }

  unfoldable pub get_comment_metrics : Server → Dict String String
  get_comment_metrics server = elim (project_measures server) [
    | measures ms ↦ metrics_from ms []
    | no_measures ↦ []
    | request_exception ↦ []
  ]

  unfoldable pub get_file_comment_metrics : Server → String → Result ℕ
  get_file_comment_metrics server file_path = elim (file_measures server file_path) [
    | measures ms ↦ first_comment_lines parse_int ms
    | no_measures ↦ ok 0
    | request_exception ↦ ok 0
  ]

  pub is_commit_analyzed : String → Machine Server → Bool
  is_commit_analyzed commit_hash machine = has_key commit_hash machine.json

  pub get_commit_details : String → Result (String × String × String)
  get_commit_details commit_hash = elim (git_show commit_hash) [
    | none ↦ raise runtime_error
    | some commit_info ↦ do
      (h, author, date) ← three_fields (split b'|' (strip commit_info))
      elim (iso_date date) [
        | none ↦ raise value_error
        | some commit_time ↦ ok (h, author, commit_time)
      ]
  ]

  pub get_changed_files : String → Result (List String)
  get_changed_files commit_hash = elim (diff_tree commit_hash) [
    | none ↦ raise runtime_error
    | some files ↦ ok files
  ]

  -- the loop over the changed files, with the metrics and the total so far
  unfoldable pub changed_files_loop :
      Server → List String → Dict String ℕ → ℕ → Result (Dict String ℕ × ℕ)
  changed_files_loop server [] metrics total = ok (metrics, total)
  changed_files_loop server (file_path ∷ files) metrics total =
      get_file_comment_metrics server file_path
      >>= (λ n. changed_files_loop server files (put file_path n metrics) (total + n))

  -- what is written to the file of a commit, from the server after the scan
  unfoldable pub commit_data : Server → String × String × String → List String → Result CommitData
  commit_data server (h, author, commit_time) files =
      let overall = get_comment_metrics server in
      (do
        comments ← project_comments parse_int overall
        (metrics, total) ← changed_files_loop server files [] 0
        ok (record {
          commit_hash = h;
          author = author;
          date = commit_time;
          overall_comment_metrics = overall;
          changed_files_metrics = metrics;
          total_changed_files_comments = total;
        }))

  abbrev pub save : CommitData → Machine Server → Machine Server
  save written machine = record {
    head = machine.head;
    server = machine.server;
    json = put written.commit_hash written machine.json;
  }

  abbrev pub checked_out : String → Machine Server → Machine Server
  checked_out commit_hash machine = record {
    head = checkout commit_hash machine.head;
    server = machine.server;
    json = machine.json;
  }

  abbrev pub scanned : Machine Server → Bool × Machine Server
  scanned machine =
      let (success, server) = scan machine.head machine.server in
      (success, record { head = machine.head; server = server; json = machine.json })

  -- the rest of an iteration, after the checkout and the queries of git
  pub scan_and_save :
      String × String × String → List String → Machine Server → Machine Server × Option Error
  scan_and_save details files machine =
      let (success, machine') = scanned machine in
      if success
      then elim (commit_data machine'.server details files) [
        | raise error ↦ (machine', some error)
        | ok written ↦ (save written machine', none)
      ]
      else (machine', none)

  -- An iteration of the loop of `analyze_commits`; with an error, the script ends.
  pub analyze_commit : String → Machine Server → Machine Server × Option Error
  analyze_commit commit_hash machine =
      let start = checked_out commit_hash machine in
      if is_commit_analyzed commit_hash machine
      then (machine, none)
      else elim (get_commit_details commit_hash) [
        | raise error ↦ (start, some error)
        | ok (h, author, date) ↦ elim (get_changed_files h) [
          | raise error ↦ (start, some error)
          | ok files ↦ scan_and_save (h, author, date) files start
        ]
      ]

  pub analyze_commits : List String → Machine Server → Machine Server × Option Error
  analyze_commits [] machine = (machine, none)
  analyze_commits (commit_hash ∷ commits) machine =
      let (machine', error) = analyze_commit commit_hash machine in
      elim error [ some e ↦ (machine', some e) | none ↦ analyze_commits commits machine' ]
