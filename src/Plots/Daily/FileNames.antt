-- ===== src/Plots/Daily/FileNames.antt =====
-- The names under which the figures of the authors are saved are names of files (plot_daily.py).
use code_assist_analyzer.Prelude.{
  some, [], ◌∷◌, length, ltb, String, string_eq, ok, >>=-eq-ok, ok-injective, ◌≡◌, ◌≢◌, refl, inl,
  inr, Bool-cases, arith,
}
use code_assist_analyzer.Prelude.Text.{join, replace_char}
use code_assist_analyzer.Prelude.Characters.{
  Without, append-Without, replace_char-Without, replace_other-Without,
}
use package.text.Mathlib.TextLemmas.{append-ne-nil_of_right_ne-nil}
use code_assist_analyzer.Plots.{
  Json, null, boolean, number, text, array, object, Metric, comment_lines, comment_lines_density,
  total_changed_files_comments, metric_name, Pandas,
}
use code_assist_analyzer.Plots.Disk.{path_eq, Figure}
use code_assist_analyzer.Plots.Daily.{
  Frame, safe_author, author_figure, author_rows, daily_average, daily_figure,
}

-- the name of a file of an author, which is one component of a path
abbrev pub IsFileName : String → Type 0
IsFileName name = Without b'/' name × (name ≢ "")

safe_author-Without :
    (author : Json) {safe : String} → safe_author author ≡ ok safe → Without b'/' safe
unfolding safe_author
safe_author-Without (text author) {safe} h = rw (← ok-injective h) (
    replace_other-Without b'\\' b'/' "_" (replace_char b'/' "_" (replace_char b' ' "_" author))
      (refl, tt) (replace_char-Without b'/' "_" (replace_char b' ' "_" author) (refl, tt)))
safe_author-Without null h = cc
safe_author-Without (boolean b) h = cc
safe_author-Without (number n) h = cc
safe_author-Without (array items) h = cc
safe_author-Without (object fields) h = cc

metric_name-Without :
    (metric : Metric) → Without b'/' (join ("_" ∷ metric_name metric ∷ ".png" ∷ []))
unfolding metric_name join
metric_name-Without comment_lines = ground arith
metric_name-Without comment_lines_density = ground arith
metric_name-Without total_changed_files_comments = ground arith

metric_name_ne : (metric : Metric) → join ("_" ∷ metric_name metric ∷ ".png" ∷ []) ≢ ""
unfolding metric_name join
metric_name_ne comment_lines = λ h. cc h
metric_name_ne comment_lines_density = λ h. cc h
metric_name_ne total_changed_files_comments = λ h. cc h

saved_name-IsFileName :
    (safe : String) (metric : Metric)
    → Without b'/' safe
    → IsFileName (join (safe ∷ "_" ∷ metric_name metric ∷ ".png" ∷ []))
unfolding join
saved_name-IsFileName safe metric h = (
  append-Without b'/' safe (join ("_" ∷ metric_name metric ∷ ".png" ∷ [])) h
      (metric_name-Without metric),
  append-ne-nil_of_right_ne-nil safe (metric_name_ne metric),
)

module _ (pandas : Pandas) where
  open pandas use {Day, Float, Trend, unique}

  pub author_figure-IsFileName :
      (metric : Metric) (df : Frame pandas) (author : Json) {name : String}
      {figure : Figure Day Float Trend}
      → author_figure pandas metric df author ≡ ok (some (name, figure))
      → IsFileName name
  unfolding author_figure
  author_figure-IsFileName metric df author {name} {figure} h =
      elim (Bool-cases (ltb (length (author_rows pandas author df)) 2)) [
        | inl few ↦ cc (rw few at h)
        | inr many ↦
            let (daily_avg, averaged, h1) =
              >>=-eq-ok (daily_average pandas metric (author_rows pandas author df)) _
                (rw many at h) in
            elim (Bool-cases (ltb (length daily_avg) 2)) [
              | inl few_days ↦ cc (rw few_days at h1)
              | inr days ↦
                  let (drawn, figured, h2) =
                    >>=-eq-ok (daily_figure pandas metric (some author) daily_avg) _
                      (rw days at h1) in
                  let (safe, made_safe, h3) = >>=-eq-ok (safe_author author) _ h2 in
                  let named : join (safe ∷ "_" ∷ metric_name metric ∷ ".png" ∷ []) ≡ name =
                    cc (ok-injective h3) in
                  rw (← named)
                    (saved_name-IsFileName safe metric (safe_author-Without author made_safe))
            ]
      ]
