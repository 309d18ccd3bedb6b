-- ===== src/Commits/Repeat.antt =====
-- A second run of `analyze_commits` (py_analyze.py).
use code_assist_analyzer.Prelude.{
  subst, true, ◌==◌, ==-refl, Option, none, some, Error, List, [], ◌∷◌, String, string_eq,
  Result-cases, Option-cases, Bool-cases, All, ◌≡◌, refl, sym, ap, ◌∙◌, inl, inr, arith,
}
use code_assist_analyzer.Prelude.Dict.{has_key, has_key-put}
use code_assist_analyzer.Commits.{
  Tools, Machine, analyze_commit, analyze_commits, scan_and_save, commit_data, get_commit_details,
  get_changed_files, is_commit_analyzed, checked_out,
}
use code_assist_analyzer.Commits.Keeps.{FullHash, commit_data-hash, analyze_commit-json}

none_of_some : {o : Option Error} {e : Error} → o ≡ none → o ≡ some e → ⊥
none_of_some h h' = cc

module _ {Server : Type 0} (tools : Tools Server) where
  abbrev pub Analyzed : Machine Server → String → Type 0
  Analyzed m commit = has_key commit m.json ≡ true

  skips_one :
      (commit : String) (m : Machine Server)
      → Analyzed m commit
      → analyze_commit tools commit m ≡ (m, none)
  unfolding analyze_commit is_commit_analyzed
  skips_one commit m done = rw done refl

  -- once every commit of the list has its file, the loop leaves everything as it is
  skip-Analyzed :
      (commits : List String) (m : Machine Server)
      → All (Analyzed m) commits
      → analyze_commits tools commits m ≡ (m, none)
  unfolding analyze_commits
  skip-Analyzed [] m done = refl
  skip-Analyzed (commit ∷ commits) m done =
      rw
        (
          analyze_commits,
          ap (λ r. r.1) (skips_one commit m done.0),
          ap (λ r. r.0) (skips_one commit m done.0),
        )
        (skip-Analyzed commits m done.1)

  -- files are never removed
  analyze_commit-keeps :
      (commit j : String) (m : Machine Server)
      → Analyzed m j
      → Analyzed (analyze_commit tools commit m).0 j
  analyze_commit-keeps commit j m here = elim (analyze_commit-json tools commit m) [
    | inl same ↦ ap (has_key j) same ∙ here
    | inr (written, _, _, _, _, _, _, _, saved) ↦
        ap (has_key j) saved
        ∙ has_key-put written.commit_hash j written m.json
        ∙ ground (arith, here)
  ]

  ScansSucceed : Type 0
  ScansSucceed = (head : String) (server : Server) → (tools.scan head server).0 ≡ true

  scan_and_save-done :
      (h author date : String) (files : List String) (m : Machine Server)
      → ScansSucceed
      → (scan_and_save tools (h, author, date) files m).1 ≡ none
      → Analyzed (scan_and_save tools (h, author, date) files m).0 h
  unfolding scan_and_save ScansSucceed
  scan_and_save-done h author date files m succeeds fine =
      let server = (tools.scan m.head m.server).1 in
      elim (Result-cases (commit_data tools server (h, author, date) files)) [
        | inr (e, failed) ↦
            absurd (
              none_of_some {e = e} fine (rw (scan_and_save, succeeds m.head m.server, failed) refl))
        | inl (written, built) ↦
            rw (succeeds m.head m.server, built)
              (has_key-put written.commit_hash h written m.json
                ∙ ground (
                  arith,
                  ==-refl h,
                  ap (λ k. k == h) (commit_data-hash tools server h author date files built),
                ))
      ]

  analyze_commit-done :
      (commit : String) (m : Machine Server)
      → ScansSucceed
      → FullHash tools commit
      → (analyze_commit tools commit m).1 ≡ none
      → Analyzed (analyze_commit tools commit m).0 commit
  unfolding analyze_commit is_commit_analyzed
  analyze_commit-done commit m succeeds full fine = elim (Bool-cases (has_key commit m.json)) [
    | inl analyzed ↦ rw (analyze_commit, is_commit_analyzed, analyzed) analyzed
    | inr fresh ↦ elim (Result-cases (get_commit_details tools commit)) [
      | inr (e, h) ↦
          absurd
            (none_of_some {e = e} fine (rw (analyze_commit, is_commit_analyzed, fresh, h) refl))
      | inl ((h, author, date), asked) ↦ elim (Result-cases (get_changed_files tools h)) [
        | inr (e, h') ↦ absurd (
            none_of_some {e = e} fine
              (rw (analyze_commit, is_commit_analyzed, fresh, asked, h') refl))
        | inl (files, h') ↦
            let rest : analyze_commit tools commit m
                ≡ scan_and_save tools (h, author, date) files (checked_out tools commit m) =
              rw (analyze_commit, is_commit_analyzed, fresh, asked, h') refl in
            let name = full h author date asked in
            ap (λ r. has_key commit r.0.json) rest
            ∙ ap
                (λ k.
                  has_key k
                    (scan_and_save tools (h, author, date) files
                      (checked_out tools commit m)).0.json)
                (sym name)
            ∙ scan_and_save-done h author date files (checked_out tools commit m) succeeds
                (sym (ap (λ r. r.1) rest) ∙ fine)
      ]
    ]
  ]

  analyze_commits-keeps :
      (commits : List String) (j : String) (m : Machine Server)
      → Analyzed m j
      → Analyzed (analyze_commits tools commits m).0 j
  unfolding analyze_commits
  analyze_commits-keeps [] j m here = here
  analyze_commits-keeps (commit ∷ commits) j m here =
      elim (Option-cases (analyze_commit tools commit m).1) [
        | inl fine ↦
            rw (analyze_commits, fine)
              (analyze_commits-keeps commits j (analyze_commit tools commit m).0
                (analyze_commit-keeps commit j m here))
        | inr (e, failed) ↦ rw (analyze_commits, failed) (analyze_commit-keeps commit j m here)
      ]

  analyze_commits-done :
      (commits : List String) (m : Machine Server)
      → ScansSucceed
      → All (FullHash tools) commits
      → (analyze_commits tools commits m).1 ≡ none
      → All (Analyzed (analyze_commits tools commits m).0) commits
  unfolding analyze_commits
  analyze_commits-done [] m succeeds full fine = tt
  analyze_commits-done (commit ∷ commits) m succeeds full fine =
      elim (Option-cases (analyze_commit tools commit m).1) [
        | inr (e, failed) ↦ absurd (none_of_some {e = e} fine (rw (analyze_commits, failed) refl))
        | inl done ↦
            let next : analyze_commits tools (commit ∷ commits) m
                ≡ analyze_commits tools commits (analyze_commit tools commit m).0 =
              rw (analyze_commits, done) refl in
            subst (λ r. All (Analyzed r.0) (commit ∷ commits)) (sym next)
              (
                analyze_commits-keeps commits commit (analyze_commit tools commit m).0
                    (analyze_commit-done commit m succeeds full.0 done),
                analyze_commits-done commits (analyze_commit tools commit m).0 succeeds full.1
                    (sym (ap (λ r. r.1) next) ∙ fine),
              )
      ]

  -- When every scan succeeds and the commits are named by their full hashes, a run that no error ends
  -- is idempotent: running the script again leaves the files, the commit checked out and the server.
  pub analyze_commits-twice :
      (commits : List String) (m : Machine Server)
      → ((head : String) (server : Server) → (tools.scan head server).0 ≡ true)
      → All (FullHash tools) commits
      → (analyze_commits tools commits m).1 ≡ none
      → analyze_commits tools commits (analyze_commits tools commits m).0
        ≡ ((analyze_commits tools commits m).0, none)
  unfolding ScansSucceed
  analyze_commits-twice commits m succeeds full fine =
      skip-Analyzed commits (analyze_commits tools commits m).0
        (analyze_commits-done commits m succeeds full fine)
