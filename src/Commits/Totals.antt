-- ===== src/Commits/Totals.antt =====
-- The total of the comment lines of the changed files (py_analyze.py).
use code_assist_analyzer.Prelude.{
  ℕ, ◌+◌, false, ◌==◌, Option-cases, Bool-cases, subst, inl, inr, List, [], ◌∷◌, String, string_eq,
  ok, >>=-eq-ok, ok-injective, All, ◌≡◌, refl, sym, ap, ◌∙◌, arith,
}
use code_assist_analyzer.Prelude.Dict.{Dict, has_key, put, values, has_key-put}
use code_assist_analyzer.Commits.{
  Tools, Machine, CommitData, analyze_commit, analyze_commits, commit_data, get_changed_files,
  changed_files_loop, get_file_comment_metrics, get_comment_metrics, project_comments,
}
use code_assist_analyzer.Commits.Keeps.{analyze_commit-json}

abbrev pub sum : List ℕ → ℕ
sum [] = 0
sum (n ∷ ns) = n + sum ns

abbrev pub NoDuplicates : List String → Type 0
NoDuplicates [] = Unit
NoDuplicates (f ∷ files) = All (λ g. (f == g) ≡ false) files × NoDuplicates files

-- a new key adds its value
sum-put_fresh :
    (k : String) (n : ℕ) (d : Dict String ℕ)
    → has_key k d ≡ false
    → sum (values (put k n d)) ≡ sum (values d) + n
unfolding put has_key
sum-put_fresh k n [] fresh = omega arith
sum-put_fresh k n ((j, v) ∷ d) fresh = ground (arith, sum-put_fresh k n d)

Fresh : Dict String ℕ → List String → Type 0
Fresh metrics files = All (λ f. has_key f metrics ≡ false) files

put-Fresh :
    (k : String) (n : ℕ) (metrics : Dict String ℕ) (files : List String)
    → All (λ g. (k == g) ≡ false) files
    → Fresh metrics files
    → Fresh (put k n metrics) files
unfolding Fresh
put-Fresh k n metrics [] differ fresh = tt
put-Fresh k n metrics (f ∷ files) differ fresh = (
  has_key-put k f n metrics ∙ ground (arith, differ.0, fresh.0),
  put-Fresh k n metrics files differ.1 fresh.1,
)

module _ {Server : Type 0} (tools : Tools Server) where
  changed_files_loop-sum :
      (server : Server) (files : List String) (metrics : Dict String ℕ) (total : ℕ)
      {metrics' : Dict String ℕ} {total' : ℕ}
      → NoDuplicates files
      → Fresh metrics files
      → changed_files_loop tools server files metrics total ≡ ok (metrics', total')
      → total ≡ sum (values metrics)
      → total' ≡ sum (values metrics')
  unfolding changed_files_loop Fresh
  changed_files_loop-sum server [] metrics total {metrics'} {total'} distinct fresh done start =
      let same = ok-injective done in
      sym (ap (λ r. r.1) same) ∙ start ∙ ap (λ r. sum (values r.0)) same
  changed_files_loop-sum server (f ∷ files) metrics total {metrics'} {total'} distinct fresh done
        start =
      let (n, _, rest) =
        >>=-eq-ok (get_file_comment_metrics tools server f) _ {returned = (metrics', total')}
          done in
      changed_files_loop-sum server files (put f n metrics) (total + n) distinct.1
        (put-Fresh f n metrics files distinct.0 fresh.1) rest
        (ap (λ t. t + n) start ∙ sym (sum-put_fresh f n metrics fresh.0))

  abbrev pub TotalOk : CommitData → Type 0
  TotalOk written =
      written.total_changed_files_comments ≡ sum (values written.changed_files_metrics)

  nil-Fresh : (files : List String) → Fresh [] files
  unfolding Fresh has_key
  nil-Fresh [] = tt
  nil-Fresh (f ∷ files) = (refl, nil-Fresh files)

  commit_data-TotalOk :
      (server : Server) (h author date : String) (files : List String) {written : CommitData}
      → NoDuplicates files
      → commit_data tools server (h, author, date) files ≡ ok written
      → TotalOk written
  unfolding commit_data
  commit_data-TotalOk server h author date files {written} distinct eqn =
      let (comments, _, rest) =
        >>=-eq-ok (project_comments tools.parse_int (get_comment_metrics tools server)) _
          {returned = written} eqn in
      let ((metrics, total), looped, built) =
        >>=-eq-ok (changed_files_loop tools server files [] 0) _ {returned = written} rest in
      let same = sym (ok-injective built) in
      ap (λ d. d.total_changed_files_comments) same
      ∙ changed_files_loop-sum server files [] 0 distinct (nil-Fresh files) looped refl
      ∙ sym (ap (λ d. sum (values d.changed_files_metrics)) same)

  put-All :
      (k : String) (written : CommitData) (json : Dict String CommitData)
      → TotalOk written
      → All TotalOk (values json)
      → All TotalOk (values (put k written json))
  unfolding put
  put-All k written [] good rest = (good, tt)
  put-All k written ((j, v) ∷ json) good rest = elim (Bool-cases (j == k)) [
    | inl same ↦ rw (put, same) (good, rest.1)
    | inr other ↦ rw (put, other) (rest.0, put-All k written json good rest.1)
  ]

  -- `git diff-tree` lists a file once
  abbrev pub ListsOnce : Type 0
  ListsOnce =
      (h : String) (files : List String) → get_changed_files tools h ≡ ok files → NoDuplicates files

  analyze_commit-TotalOk :
      (commit : String) (m : Machine Server)
      → ListsOnce
      → All TotalOk (values m.json)
      → All TotalOk (values (analyze_commit tools commit m).0.json)
  analyze_commit-TotalOk commit m once good = elim (analyze_commit-json tools commit m) [
    | inl same ↦ subst (λ d. All TotalOk (values d)) (sym same) good
    | inr (written, server, (h, author, date), files, _, _, listed, done, saved) ↦
        subst (λ d. All TotalOk (values d)) (sym saved)
          (put-All written.commit_hash written m.json
            (commit_data-TotalOk server h author date files (once h files listed) done) good)
  ]

  -- When git lists a changed file once, every saved file says as its total the sum of the comment
  -- lines it has of the changed files, after any run of the analysis from files that do.
  pub analyze_commits-TotalOk :
      (commits : List String) (m : Machine Server)
      → ((h : String) (files : List String)
          → get_changed_files tools h ≡ ok files
          → NoDuplicates files)
      → All TotalOk (values m.json)
      → All TotalOk (values (analyze_commits tools commits m).0.json)
  unfolding analyze_commits
  analyze_commits-TotalOk [] m once good = good
  analyze_commits-TotalOk (commit ∷ commits) m once good =
      elim (Option-cases (analyze_commit tools commit m).1) [
        | inl fine ↦
            rw (analyze_commits, fine)
              (analyze_commits-TotalOk commits (analyze_commit tools commit m).0 once
                (analyze_commit-TotalOk commit m once good))
        | inr (e, failed) ↦ rw (analyze_commits, failed) (analyze_commit-TotalOk commit m once good)
      ]
