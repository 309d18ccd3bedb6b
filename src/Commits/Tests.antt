-- ===== src/Commits/Tests.antt =====
-- An analysis of two commits.
use code_assist_analyzer.Prelude.{
  ◌≡◌, refl, true, none, some, List, [], ◌∷◌, String, string_eq, ◌==◌, if◌then◌else◌, All, ok, ap,
  sym, ok-injective, subst,
}
use code_assist_analyzer.Prelude.Dict.{get, put, has_key, values}
use code_assist_analyzer.Prelude.Text.{split}
use code_assist_analyzer.Commits.{
  Tools, Machine, CommitData, measures, analyze_commits, analyze_commit, scan_and_save, commit_data,
  changed_files_loop, three_fields, get_commit_details, get_changed_files, get_comment_metrics,
  get_file_comment_metrics, first_comment_lines, project_comments, is_commit_analyzed,
}
use code_assist_analyzer.Commits.CommentsOnly.{analyze_all_comments}
use code_assist_analyzer.Commits.CommentsOnly.Refines.{
  comments_machine, analyze_all_comments_refines,
}
use code_assist_analyzer.Commits.Keeps.{FullHash, analyze_commits-get}
use code_assist_analyzer.Commits.Repeat.{analyze_commits-twice}
use code_assist_analyzer.Commits.Totals.{NoDuplicates, TotalOk, analyze_commits-TotalOk}

-- Every commit is one that git knows under its full name, and changes two files of one comment line.
abbrev tools : Tools (Unit {0})
tools = record {
  git_show = λ commit.
      if commit == "a1"
      then some "a1|ann|today"
      else if commit == "b2"
      then some "b2|bob|now"
      else none;
  diff_tree = λ commit. some ("x.py" ∷ "y.py" ∷ []);
  checkout = λ commit head. commit;
  scan = λ head server. (true, server);
  project_measures = λ server. measures (("comment_lines", "1") ∷ []);
  file_measures = λ server path. measures (("comment_lines", "1") ∷ []);
  parse_int = λ text. some 1;
  iso_date = λ date. some date;
  strip = λ text. text;
}

abbrev start : Machine (Unit {0})
start = record { head = "main"; server = tt; json = [] }

-- the data of the first commit, before the run
abbrev old : CommitData
old = record {
  commit_hash = "a1";
  author = "ann";
  date = "today";
  overall_comment_metrics = [];
  changed_files_metrics = [];
  total_changed_files_comments = 0;
}

abbrev resumed : Machine (Unit {0})
resumed = record { head = "main"; server = tt; json = ("a1", old) ∷ [] }

abbrev commits : List String
commits = "a1" ∷ "b2" ∷ []

commits-FullHash : All (FullHash tools) commits
unfolding get_commit_details split three_fields
commits-FullHash = (
  (λ h a d e. sym (ap (λ r. r.0) (ok-injective e))),
  ((λ h a d e. sym (ap (λ r. r.0) (ok-injective e))), tt),
)

analyze_commits-get_example : get "a1" (analyze_commits tools commits resumed).0.json ≡ some old
unfolding get
analyze_commits-get_example = analyze_commits-get tools commits "a1" resumed commits-FullHash refl

analyze_commits-twice_example :
    analyze_commits tools commits (analyze_commits tools commits start).0
    ≡ ((analyze_commits tools commits start).0, none)
unfolding analyze_commits analyze_commit scan_and_save commit_data changed_files_loop three_fields
    get_commit_details get_changed_files get_comment_metrics get_file_comment_metrics
    first_comment_lines project_comments is_commit_analyzed has_key put get split
analyze_commits-twice_example =
    analyze_commits-twice tools commits start (λ head server. refl) commits-FullHash refl

listed_once :
    (h : String) (files : List String) → get_changed_files tools h ≡ ok files → NoDuplicates files
unfolding get_changed_files
listed_once h files e = subst NoDuplicates (ok-injective e) ((refl, tt), (tt, tt))

analyze_commits-TotalOk_example :
    All (TotalOk tools) (values (analyze_commits tools commits start).0.json)
analyze_commits-TotalOk_example = analyze_commits-TotalOk tools commits start listed_once tt

analyze_all_comments_refines_example :
    analyze_all_comments tools commits (comments_machine tools start)
    ≡ (comments_machine tools (analyze_commits tools commits start).0, none)
unfolding analyze_commits analyze_commit scan_and_save commit_data changed_files_loop three_fields
    get_commit_details get_changed_files get_comment_metrics get_file_comment_metrics
    first_comment_lines project_comments is_commit_analyzed has_key put get split
analyze_all_comments_refines_example = analyze_all_comments_refines tools commits start refl
