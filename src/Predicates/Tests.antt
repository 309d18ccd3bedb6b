-- ===== src/Predicates/Tests.antt =====
-- Predicates on a concrete row. Whole numbers stand for the floating-point numbers.
use code_assist_analyzer.Prelude.{
  ℕ, ◌+◌, ◌≡◌, refl, any, all, some, List, [], ◌∷◌, map, leb, ltb, true, ok, String, string_eq,
  nat_eq, ◌>>=◌, if◌then◌else◌, arith,
}
use code_assist_analyzer.Prelude.Dict.{Dict, get, has_key}
use code_assist_analyzer.Predicates.{
  Predicate, Floats, in_set, in_negate, in_reduce, sum_floats, string_to_bucket,
}
use code_assist_analyzer.Predicates.LogSets.{in_perception_splits}
use code_assist_analyzer.Predicates.LogSets.Assigned.{is_of_split, in_perception_splits_iff}
use code_assist_analyzer.Predicates.Logic.{ask, fields, negation, negate-any}
use code_assist_analyzer.Predicates.Split.{FloatLaws, tally, selects, split_selects_once}

abbrev numbers : Floats
numbers = record { F = ℕ; zero_f = 0; add = ◌+◌; scale = λ n. n; le_bucket = leb; lt_bucket = ltb }

abbrev numbers-laws : FloatLaws numbers
numbers-laws = record {
  IsFraction = λ n. Unit;
  opposite = λ x bucket. ground arith;
  zero_low = λ bucket. ground arith;
  grows = λ x f bucket h k. ground arith;
}

abbrev row : Dict String ℕ
row = ("id", 25) ∷ []

split_selects_once_example :
    tally (selects numbers numbers-laws (λ v. v) 100 (10 ∷ 20 ∷ 30 ∷ []) "id" row) 3 ≡ (
      if ltb (string_to_bucket numbers (λ v. v) 100 25) (sum_floats numbers (10 ∷ 20 ∷ 30 ∷ []))
      then 1
      else 0)
unfolding get
split_selects_once_example =
    split_selects_once numbers numbers-laws (λ v. v) 100 (10 ∷ 20 ∷ 30 ∷ []) "id" row 25
      (tt, (tt, (tt, tt))) refl

abbrev two_sets : List (Predicate ℕ)
two_sets = in_set (1 ∷ 2 ∷ []) "id" ∷ in_set (25 ∷ []) "id" ∷ []

negate-any_example :
    (ask (in_reduce (map (λ p. some p) two_sets) (any (λ b. b)) >>= (λ p. in_negate (some p))) row
      ≡ ask (in_reduce (map (λ p. some (negation p)) two_sets) (all (λ b. b))) row)
    × (fields (in_reduce (map (λ p. some p) two_sets) (any (λ b. b)) >>= (λ p. in_negate (some p)))
        ≡ fields (in_reduce (map (λ p. some (negation p)) two_sets) (all (λ b. b))))
negate-any_example = negate-any two_sets row

-- splits as numbers; every log that the table does not have is of split 2
abbrev split_table : Dict String ℕ
split_table = ("a1", 1) ∷ ("b2", 2) ∷ []

abbrev frame_of : String → Dict String String
frame_of guid = ("volume_guid", guid) ∷ []

in_perception_splits_iff_example :
    (in_perception_splits some (λ (guid : String). ◌+◌ 1 1) (some 2) true split_table
      >>= (λ predicate. predicate.do_include (frame_of "c3")))
    ≡ ok (is_of_split some (λ (guid : String). ◌+◌ 1 1) 2 true split_table "c3" "c3")
unfolding in_perception_splits get has_key
in_perception_splits_iff_example =
    in_perception_splits_iff some (λ (guid : String). ◌+◌ 1 1) 2 true split_table (frame_of "c3")
      {value = "c3"} {guid = "c3"} refl ((refl, (refl, tt))) refl refl
