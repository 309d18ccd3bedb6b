-- ===== src/Commits/CommentsOnly/Refines.antt =====
-- get_comments.py does what py_analyze.py does, up to the metrics of the changed files.
use code_assist_analyzer.Prelude.{
  Option, none, some, List, [], ◌∷◌, String, string_eq, ◌==◌, ok, Error, Result-cases, >>=-eq-ok,
  ok-injective, ◌≡◌, refl, sym, ap, ◌∙◌, inl, inr, Bool-cases, Option-cases, arith,
}
use code_assist_analyzer.Prelude.Dict.{Dict, has_key, put}
use code_assist_analyzer.Commits.{
  Tools, Machine, CommitData, get_comment_metrics, project_comments, changed_files_loop,
  get_commit_details, get_changed_files, commit_data, scanned, checked_out, is_commit_analyzed,
  scan_and_save, analyze_commit, analyze_commits,
}
use code_assist_analyzer.Commits.CommentsOnly.{
  CommentData, CommentMachine, scan_and_save_comments, analyze_comments, analyze_all_comments,
}

-- a file of py_analyze.py without what get_comments.py does not write
abbrev pub comments_of : CommitData → CommentData
comments_of commit = record {
  commit_hash = commit.commit_hash;
  author = commit.author;
  date = commit.date;
  overall_comment_metrics = commit.overall_comment_metrics;
}

abbrev pub comment_files : Dict String CommitData → Dict String CommentData
comment_files [] = []
comment_files ((h, commit) ∷ files) = (h, comments_of commit) ∷ comment_files files

has_key-comment_files :
    (h : String) (files : Dict String CommitData)
    → has_key h (comment_files files) ≡ has_key h files
unfolding has_key
has_key-comment_files h [] = refl
has_key-comment_files h ((k, commit) ∷ files) = ground (arith, has_key-comment_files h files)

put-comment_files :
    (h : String) (commit : CommitData) (files : Dict String CommitData)
    → put h (comments_of commit) (comment_files files) ≡ comment_files (put h commit files)
unfolding put
put-comment_files h commit [] = refl
put-comment_files h commit ((k, old) ∷ files) = elim (Bool-cases (k == h)) [
  | inl same ↦ rw (put, same) refl
  | inr other ↦ rw (put, other) (ap (◌∷◌ (k, comments_of old)) (put-comment_files h commit files))
]

module _ {Server : Type 0} (tools : Tools Server) where
  abbrev pub comments_machine : Machine Server → CommentMachine Server
  comments_machine machine = record {
    head = machine.head;
    server = machine.server;
    json = comment_files machine.json;
  }

  commit_data-comments :
      (server : Server) (h author date : String) (files : List String) {written : CommitData}
      → commit_data tools server (h, author, date) files ≡ ok written
      → (written.commit_hash ≡ h)
        × (comments_of written ≡ record {
          commit_hash = h;
          author = author;
          date = date;
          overall_comment_metrics = get_comment_metrics tools server;
        })
  unfolding commit_data
  commit_data-comments server h author date files {written} eqn =
      let (n, parsed, h1) =
        >>=-eq-ok (project_comments tools.parse_int (get_comment_metrics tools server)) _ eqn in
      let (counted, is, h2) = >>=-eq-ok (changed_files_loop tools server files [] 0) _ h1 in
      (
        ap (λ (c : CommitData). c.commit_hash) (sym (ok-injective h2)),
        ap comments_of (sym (ok-injective h2)),
      )

  abbrev with_files : String → Server → Dict String CommentData → CommentMachine Server
  with_files head server files = record { head = head; server = server; json = files }

  files_same :
      (h : String) (written : CommitData) (files : Dict String CommitData) {comments : CommentData}
      → written.commit_hash ≡ h
      → comments_of written ≡ comments
      → put h comments (comment_files files) ≡ comment_files (put written.commit_hash written files)
  files_same h written files {comments} name same =
      ap (λ (c : CommentData). put h c (comment_files files)) (sym same)
      ∙ ap (λ (k : String). put k (comments_of written) (comment_files files)) (sym name)
      ∙ put-comment_files written.commit_hash written files

  scan_and_save-comments :
      (h author date : String) (files : List String) (machine : Machine Server)
      → (scan_and_save tools (h, author, date) files machine).1 ≡ none
      → scan_and_save_comments tools (h, author, date) (comments_machine machine)
        ≡ comments_machine (scan_and_save tools (h, author, date) files machine).0
  unfolding scan_and_save scan_and_save_comments
  scan_and_save-comments h author date files machine no_error =
      let server = (scanned tools machine).1.server in
      elim (Bool-cases (scanned tools machine).0) [
        | inr failed ↦ rw (scan_and_save, scan_and_save_comments, failed) refl
        | inl success ↦ elim (Result-cases (commit_data tools server (h, author, date) files)) [
          | inr (error, is) ↦ cc (rw (success, is) at no_error)
          | inl (written, is) ↦
              let (name, same) = commit_data-comments server h author date files is in
              rw (scan_and_save, scan_and_save_comments, success, is)
                (ap (with_files machine.head server) (files_same h written machine.json name same))
        ]
      ]

  analyze_commit-comments :
      (commit_hash : String) (machine : Machine Server)
      → (analyze_commit tools commit_hash machine).1 ≡ none
      → analyze_comments tools commit_hash (comments_machine machine)
        ≡ (comments_machine (analyze_commit tools commit_hash machine).0, none)
  unfolding analyze_commit analyze_comments is_commit_analyzed
  analyze_commit-comments commit_hash machine no_error =
      elim (Bool-cases (has_key commit_hash machine.json)) [
        | inl there ↦
            rw
              (
                analyze_commit,
                analyze_comments,
                has_key-comment_files commit_hash machine.json,
                there,
              )
              refl
        | inr new ↦ elim (Result-cases (get_commit_details tools commit_hash)) [
          | inr (error, is) ↦ cc (rw (new, is) at no_error)
          | inl ((h, author, date), is) ↦ elim (Result-cases (get_changed_files tools h)) [
            | inr (error, failed) ↦ cc (rw (new, is, failed) at no_error)
            | inl (files, listed) ↦
                rw
                  (
                    analyze_commit,
                    analyze_comments,
                    has_key-comment_files commit_hash machine.json,
                    new,
                    is,
                    listed,
                  )
                  (ap (λ (m : CommentMachine Server). (m, none))
                    (scan_and_save-comments h author date files
                      (checked_out tools commit_hash machine) (rw (new, is, listed) at no_error)))
          ]
        ]
      ]

  comments_next :
      (commit_hash : String) (commits : List String) (machine next : CommentMachine Server)
      → analyze_comments tools commit_hash machine ≡ (next, none)
      → analyze_all_comments tools (commit_hash ∷ commits) machine
        ≡ analyze_all_comments tools commits next
  unfolding analyze_all_comments
  comments_next commit_hash commits machine next is =
      ap
        (λ (out : CommentMachine Server × Option Error).
          elim out.1 as (λ _. CommentMachine Server × Option Error) [
            | some e ↦ (out.0, some e)
            | none ↦ analyze_all_comments tools commits out.0
          ])
        is

  commits_next :
      (commit_hash : String) (commits : List String) (machine : Machine Server)
      {outcome : Option Error}
      → (analyze_commit tools commit_hash machine).1 ≡ outcome
      → analyze_commits tools (commit_hash ∷ commits) machine ≡ (elim outcome [
        | some e ↦ ((analyze_commit tools commit_hash machine).0, some e)
        | none ↦ analyze_commits tools commits (analyze_commit tools commit_hash machine).0
      ])
  unfolding analyze_commits
  commits_next commit_hash commits machine is =
      ap
        (λ (o : Option Error). elim o as (λ _. Machine Server × Option Error) [
          | some e ↦ ((analyze_commit tools commit_hash machine).0, some e)
          | none ↦ analyze_commits tools commits (analyze_commit tools commit_hash machine).0
        ])
        is

  -- Where a run of py_analyze.py ends without an error, get_comments.py on the same repository, server
  -- and commits ends without one, and leaves the same commit checked out, the same server, and the same
  -- files, but for the metrics of the changed files and their total.
  pub analyze_all_comments_refines :
      (commits : List String) (machine : Machine Server)
      → (analyze_commits tools commits machine).1 ≡ none
      → analyze_all_comments tools commits (comments_machine machine)
        ≡ (comments_machine (analyze_commits tools commits machine).0, none)
  unfolding analyze_commits analyze_all_comments
  analyze_all_comments_refines [] machine no_error = refl
  analyze_all_comments_refines (commit_hash ∷ commits) machine no_error =
      elim (Option-cases (analyze_commit tools commit_hash machine).1) [
        | inr (error, is) ↦ cc (
            sym (
              ap (λ (out : Machine Server × Option Error). out.1)
                (commits_next commit_hash commits machine is))
            ∙ no_error)
        | inl is ↦
            let next = (analyze_commit tools commit_hash machine).0 in
            let same = commits_next commit_hash commits machine is in
            comments_next commit_hash commits (comments_machine machine) (comments_machine next)
              (analyze_commit-comments commit_hash machine is)
            ∙ analyze_all_comments_refines commits next
                (sym (ap (λ (out : Machine Server × Option Error). out.1) same) ∙ no_error)
            ∙ ap (λ (out : Machine Server × Option Error). (comments_machine out.0, none))
                (sym same)
      ]
