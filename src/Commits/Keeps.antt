-- ===== src/Commits/Keeps.antt =====
-- What the loop of `analyze_commits` does to the files that are there (py_analyze.py).
use code_assist_analyzer.Prelude.{
  false, some, List, [], ◌∷◌, String, string_eq, ◌==◌, ==-cases, Option-cases, if◌then◌else◌, ok,
  All, ◌≡◌, refl, sym, ap, ◌∙◌, ◌⊎◌, inl, inr, Bool-cases, Result-cases, arith, >>=-eq-ok,
  ok-injective,
}
use code_assist_analyzer.Prelude.Dict.{Dict, get, has_key, put, get-put, has_key_of_get}
use code_assist_analyzer.Commits.{
  Tools, Machine, CommitData, analyze_commit, analyze_commits, scan_and_save, commit_data,
  get_commit_details, get_changed_files, is_commit_analyzed, changed_files_loop, checked_out,
  project_comments, get_comment_metrics,
}

other_file :
    (c j : String) (d : Dict String CommitData) (new : CommitData) {old : CommitData}
    → has_key c d ≡ false
    → get j d ≡ some old
    → (if c == j then some new else get j d) ≡ some old
other_file c j d new {old} fresh here = elim (==-cases c j) [
  | inl (same, _) ↦
      absurd (ground (arith, has_key_of_get j d {v = old} here, ap (λ k. has_key k d) same))
  | inr (_, differs) ↦ rw differs here
]

module _ {Server : Type 0} (tools : Tools Server) where
  -- git gives a commit the name that it was asked for: it was asked for a full hash
  abbrev pub FullHash : String → Type 0
  FullHash commit =
      (h author date : String) → get_commit_details tools commit ≡ ok (h, author, date) → h ≡ commit

  -- the data of a commit has the hash that git gave
  pub commit_data-hash :
      (server : Server) (h author date : String) (files : List String) {written : CommitData}
      → commit_data tools server (h, author, date) files ≡ ok written
      → written.commit_hash ≡ h
  unfolding commit_data
  commit_data-hash server h author date files {written} eqn =
      let (comments, _, rest) =
        >>=-eq-ok (project_comments tools.parse_int (get_comment_metrics tools server)) _
          {returned = written} eqn in
      let (totals, _, built) =
        >>=-eq-ok (changed_files_loop tools server files [] 0) _ {returned = written} rest in
      ap (λ d. d.commit_hash) (sym (ok-injective built))

  -- how an iteration leaves the files: as they were, or with the data of the commit, which was not
  -- analyzed
  abbrev pub Saved : String → Machine Server → Machine Server → Type 0
  Saved commit m m' =
      (written : CommitData) × (server : Server) × (details : String × String × String)
      × (files : List String) × (has_key commit m.json ≡ false)
      × (get_commit_details tools commit ≡ ok details)
      × (get_changed_files tools details.0 ≡ ok files)
      × (commit_data tools server details files ≡ ok written)
      × (m'.json ≡ put written.commit_hash written m.json)

  pub scan_and_save-json :
      (details : String × String × String) (files : List String) (m : Machine Server)
      → ((scan_and_save tools details files m).0.json ≡ m.json)
        ⊎ ((written : CommitData) × (server : Server) × (commit_data tools server details files
              ≡ ok written)
            × ((scan_and_save tools details files m).0.json
                ≡ put written.commit_hash written m.json))
  unfolding scan_and_save
  scan_and_save-json details files m =
      let server = (tools.scan m.head m.server).1 in
      elim (Bool-cases (tools.scan m.head m.server).0) [
        | inr failed ↦ inl (rw failed refl)
        | inl scanned ↦ elim (Result-cases (commit_data tools server details files)) [
          | inr (e, h) ↦ inl (rw (scanned, h) refl)
          | inl (written, h) ↦ inr (written, server, h, rw (scanned, h) refl)
        ]
      ]

  pub analyze_commit-json :
      (commit : String) (m : Machine Server)
      → ((analyze_commit tools commit m).0.json ≡ m.json)
        ⊎ Saved commit m (analyze_commit tools commit m).0
  unfolding analyze_commit is_commit_analyzed
  analyze_commit-json commit m = elim (Bool-cases (has_key commit m.json)) [
    | inl analyzed ↦ inl (rw analyzed refl)
    | inr fresh ↦ elim (Result-cases (get_commit_details tools commit)) [
      | inr (e, h) ↦ inl (rw (fresh, h) refl)
      | inl (details, h) ↦ elim (Result-cases (get_changed_files tools details.0)) [
        | inr (e, h') ↦ inl (rw (fresh, h, h') refl)
        | inl (files, h') ↦ elim (scan_and_save-json details files (checked_out tools commit m)) [
          | inl same ↦ inl (rw (fresh, h, h') same)
          | inr (written, server, done, saved) ↦
              inr (written, server, details, files, fresh, h, h', done, rw (fresh, h, h') saved)
        ]
      ]
    ]
  ]

  -- An iteration leaves the file of another commit, and the file of this one if it was there.
  analyze_commit-get :
      (commit j : String) (m : Machine Server) {before : CommitData}
      → FullHash commit
      → get j m.json ≡ some before
      → get j (analyze_commit tools commit m).0.json ≡ some before
  analyze_commit-get commit j m {before} full here = elim (analyze_commit-json commit m) [
    | inl same ↦ ap (get j) same ∙ here
    | inr (written, server, (h, author, date), files, fresh, asked, _, done, saved) ↦
        let name = commit_data-hash server h author date files done ∙ full h author date asked in
        ap (get j) (saved ∙ ap (λ k. put k written m.json) name)
        ∙ get-put commit j written m.json
        ∙ other_file commit j m.json written fresh here
  ]

  -- A run of the analysis, whether it reaches the end of the list or an error ends it, leaves every
  -- file of an earlier run as it was, when the commits are named by their full hashes.
  pub analyze_commits-get :
      (commits : List String) (j : String) (m : Machine Server) {before : CommitData}
      → All FullHash commits
      → get j m.json ≡ some before
      → get j (analyze_commits tools commits m).0.json ≡ some before
  unfolding analyze_commits
  analyze_commits-get [] j m full here = here
  analyze_commits-get (commit ∷ commits) j m {before} full here =
      elim (Option-cases (analyze_commit tools commit m).1) [
        | inl fine ↦
            rw (analyze_commits, fine)
              (analyze_commits-get commits j (analyze_commit tools commit m).0 full.1
                (analyze_commit-get commit j m full.0 here))
        | inr (e, failed) ↦ rw (analyze_commits, failed) (analyze_commit-get commit j m full.0 here)
      ]
