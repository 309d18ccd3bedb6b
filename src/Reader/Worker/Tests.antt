-- ===== src/Reader/Worker/Tests.antt =====
-- Two rows, of which a predicate on one of two columns includes the first.
use code_assist_analyzer.Prelude.{
  ℕ, ◌≡◌, refl, sym, ap, ◌∙◌, Bool, true, false, ◌||◌, nat_beq, filter, Option, none, some, List,
  [], ◌∷◌, map, String, string_eq, ◌==◌, ==-cases, if◌then◌else◌, inl, inr, ok, arith,
}
use code_assist_analyzer.Prelude.Dict.{get, put, has_key, get-put, Distinct, put-Distinct}
use code_assist_analyzer.Prelude.PySet.{contains, add, union, difference}
use code_assist_analyzer.Predicates.{Predicate}
use code_assist_analyzer.Unischema.{
  UnischemaField, Unischema, Coding, decode_row, decode_items, decode_value,
}
use code_assist_analyzer.Reader.Worker.{Row, each, load_rows, load_rows_with_predicate}
use code_assist_analyzer.Reader.Worker.{
  load_matching_rows, predicate_rows, add_other_columns, select_cols, masked, make_namedtuple,
}
use code_assist_analyzer.Reader.Worker.Missing.{load_rows_with_predicate-missing}
use code_assist_analyzer.Prelude.{All, any, raise, type_error, value_error, Result, Bool-cases}
use code_assist_analyzer.Reader.Worker.Rows.{Projects, WellNamed}
use code_assist_analyzer.Reader.Worker.Masks.{SameRows}
use code_assist_analyzer.Reader.Worker.Filtering.{Reads, DependsOn, load_rows_with_predicate-filter}

abbrev field : String → UnischemaField (Unit {0})
field name = record { name = name; numpy_dtype = "uint8"; shape = []; codec = tt; nullable = true }

abbrev schema : Unischema (Unit {0})
schema = record { name = "s"; fields = ("id", field "id") ∷ ("tag", field "tag") ∷ [] }

abbrev same : Coding (Unit {0}) ℕ ℕ
same = record { encode = λ f v. ok v; decode = λ f v. ok v }

-- a dataset without partitions
abbrev columns : List String → (String → Option ℕ) → Row ℕ
columns [] t = []
columns (c ∷ cols) t = put c (t c) (columns cols t)

columns-Distinct : (cols : List String) (t : String → Option ℕ) → Distinct (columns cols t)
columns-Distinct [] t = tt
columns-Distinct (c ∷ cols) t = put-Distinct c (t c) (columns cols t) (columns-Distinct cols t)

get-columns :
    (cols : List String) (t : String → Option ℕ) (c : String)
    → get c (columns cols t) ≡ (if contains c cols || false then some (t c) else none)
unfolding get contains
get-columns [] t c = refl
get-columns (k ∷ cols) t c = get-put k c (t k) (columns cols t) ∙ elim (==-cases k c) [
  | inl (is, h) ↦ rw h (ap (λ j. some (t j)) is)
  | inr (_, h) ↦ rw h (get-columns cols t c)
]

-- the same schema with the day of a row, by which a dataset is partitioned: the day is part of what is
-- read, but a request for it is refused
abbrev dated : Unischema (Unit {0})
dated = record {
  name = "s";
  fields = ("id", field "id") ∷ ("tag", field "tag") ∷ ("day", field "day") ∷ [];
}

abbrev with_day : List String → (String → Option ℕ) → Row ℕ
with_day cols t = put "day" (t "day") (columns cols t)

abbrev table : List (String → Option ℕ)
table = row 1 (some 7) ∷ row 2 none ∷ []
  where
    row : ℕ → Option ℕ → String → Option ℕ
    row id tag c = if c == "id" then some id else (if c == "tag" then tag else some 5)

abbrev refusing : List String → Result (List (Row ℕ))
refusing cols = if contains "day" cols then raise value_error else ok (map (with_day cols) table)

or_true : (b : Bool) → true ≡ (b || true)
or_true true = refl
or_true false = refl

with_day-Projects : Projects ("day" ∷ []) with_day
unfolding contains
with_day-Projects cols t = (
  put-Distinct "day" (t "day") (columns cols t) (columns-Distinct cols t),
  λ c. get-put "day" c (t "day") (columns cols t) ∙ elim (==-cases "day" c) [
    | inl (is, h) ↦ rw h (
        ap (λ j. some (t j)) is
        ∙ ap (λ b. if b then some (t c) else none) (or_true (contains c cols)))
    | inr (_, h) ↦ rw h (get-columns cols t c)
  ],
)

refusing-Reads : Reads ("day" ∷ []) with_day table refusing
unfolding contains
refusing-Reads cols apart = elim (Bool-cases (contains "day" cols)) [
  | inl asked ↦ absurd (cc (apart "day" asked))
  | inr other ↦ rw other refl
]

dated-WellNamed : WellNamed dated
unfolding contains union add has_key
dated-WellNamed c = ground arith

abbrev is_first : Row ℕ → Bool
is_first row = elim (get "id" row) [
  | none ↦ false
  | some v ↦ elim v [ none ↦ false | some n ↦ nat_beq n 1 ]
]

abbrev first_only : Predicate (Option ℕ)
first_only = record { get_fields = "id" ∷ []; do_include = λ row. ok (is_first row) }

first_only-DependsOn : DependsOn ("id" ∷ []) first_only
unfolding contains
first_only-DependsOn a b agree =
    ap
      (λ o. ok (elim o as (λ _. Bool) [
        | none ↦ false
        | some v ↦ elim v [ none ↦ false | some n ↦ nat_beq n 1 ]
      ]))
      (agree "id" refl)

abbrev full : List (Row ℕ)
full =
    (("id", some 1) ∷ ("tag", some 7) ∷ ("day", some 5) ∷ [])
    ∷ (("id", some 2) ∷ ("tag", none) ∷ ("day", some 5) ∷ [])
    ∷ []

id_is_no_partition : (c : String) → contains c ("id" ∷ []) ≡ true → contains c ("day" ∷ []) ≡ false
unfolding contains
id_is_no_partition c here = elim (==-cases "id" c) [
  | inl (is, _) ↦ ap (λ j. contains j ("day" ∷ [])) (sym is)
  | inr (_, h) ↦ absurd (ground (arith, here, h))
]

load_rows_with_predicate-filter_example :
    (rows : List (Row ℕ)) × (load_rows_with_predicate same dated ("day" ∷ []) refusing first_only
      ≡ ok rows)
    × SameRows rows (filter is_first full)
unfolding load_rows each decode_row decode_items decode_value get put has_key contains union add
    difference filter
load_rows_with_predicate-filter_example =
    load_rows_with_predicate-filter same dated ("day" ∷ []) with_day first_only is_first refusing
      table {full = full} with_day-Projects refusing-Reads dated-WellNamed first_only-DependsOn refl
      refl id_is_no_partition (inl refl) refl (ground arith)

-- a dataset that is partitioned by one of the columns, which is part of what is read
abbrev partitioned_read : List String → Result (List (Row ℕ))
partitioned_read cols = ok ((("id", some 1) ∷ ("tag", some 7) ∷ []) ∷ [])

load_rows_with_predicate-missing_example :
    All
      (λ row.
        (get "tag" row ≡ none)
        × (make_namedtuple same schema ("tag" ∷ []) partitioned_read row ≡ raise type_error))
      ((("id", some 1) ∷ []) ∷ [])
unfolding load_rows_with_predicate load_matching_rows predicate_rows add_other_columns select_cols
    masked each decode_row decode_items decode_value get put has_key contains union add difference
    filter any
load_rows_with_predicate-missing_example =
    load_rows_with_predicate-missing same schema ("tag" ∷ []) partitioned_read first_only "tag" refl
      refl refl refl
