-- ===== src/Reader/Worker/Filtering.antt =====
-- Filtering before decoding, as the worker does (dataset_toolkit/reader.py).
use code_assist_analyzer.Prelude.{
  Bool, true, false, Option, List, [], ◌∷◌, map, any, filter, All, String, string_eq, if◌then◌else◌,
  Result, ok, ◌>>=◌, >>=-eq-ok, >>=-of_ok, ok-injective, ◌≡◌, refl, sym, ◌∙◌, subst, ◌⊎◌, inl, inr,
  Bool-cases, arith,
}
use code_assist_analyzer.Prelude.Dict.{get, has_key}
use code_assist_analyzer.Prelude.PySet.{contains, union, difference, contains-difference}
use code_assist_analyzer.Predicates.{Predicate}
use code_assist_analyzer.Unischema.{Unischema, Coding, decode_row}
use code_assist_analyzer.Reader.Worker.{
  Row, select_cols, merge_two_dicts, masked, zip_with, each, is_empty, schema_names, load_rows,
  predicate_rows, add_other_columns, load_matching_rows, load_rows_with_predicate,
}
use code_assist_analyzer.Reader.Worker.Masks.{
  SameRows, is_empty-contains, each-cons, masked-kept, masked-dropped, filter-none,
}
use code_assist_analyzer.Reader.Worker.Rows.{
  Projects, WellNamed, predicate_row, other_row, merged_row, only_row,
}

-- Reading any columns but partition columns gives these columns of the rows of the table. Nothing is
-- said of reading a partition column, which pyarrow refuses.
abbrev pub Reads :
    {Encoded : Type 0}
    → List String
    → (List String → (String → Option Encoded) → Row Encoded)
    → List (String → Option Encoded)
    → (List String → Result (List (Row Encoded)))
    → Type 0
Reads partition_names project table read =
    (cols : List String)
    → ((c : String) → contains c cols ≡ true → contains c partition_names ≡ false)
    → read cols ≡ ok (map (project cols) table)

-- the answer of a predicate hangs on the fields that it names
abbrev pub DependsOn : {V : Type 0} → List String → Predicate (Option V) → Type 0
DependsOn {V} fields predicate =
    (a b : Row V)
    → ((c : String) → contains c fields ≡ true → get c a ≡ get c b)
    → predicate.do_include a ≡ predicate.do_include b

module _ {Codec Value Encoded : Type 0} (coding : Coding Codec Value Encoded)
    (schema : Unischema Codec) (partition_names : List String)
    (project : List String → (String → Option Encoded) → Row Encoded)
    (projects : Projects partition_names project) (named : WellNamed schema)
    (predicate : Predicate (Option Value)) (include : Row Value → Bool) (pc : List String)
    (known : (c : String) → contains c pc ≡ true → contains c (schema_names schema) ≡ true)
    (depends : DependsOn pc predicate) where
  abbrev others : List String
  others = difference (difference (schema_names schema) pc) partition_names

  abbrev decode : Row Encoded → Result (Row Value)
  decode row = decode_row coding row schema

  abbrev Covered : Type 0
  Covered =
      (c : String)
      → has_key c schema.fields ≡ true
      → contains c partition_names ≡ true
      → contains c pc ≡ true

  -- the steps of the worker for the rows of a table, and what they come to
  record Halves (table : List (String → Option Encoded)) (full : List (Row Value)) : Type 0 where
    rows : List (Row Value)
    kept : List (Row Value)
    other_rows : List (Row Encoded)
    decoded_other_rows : List (Row Value)
    first_read : each (λ row. select_cols row pc >>= decode) (map (project pc) table) ≡ ok rows
    mask : each predicate.do_include rows ≡ ok (map include full)
    filtered : masked rows (map include full) ≡ ok kept
    second_read : masked (map (project others) table) (map include full) ≡ ok other_rows
    decoded_others : each decode other_rows ≡ ok decoded_other_rows
    merged : SameRows (zip_with merge_two_dicts decoded_other_rows kept) (filter include full)
    alone :
        ((c : String) → contains c others ≡ false) → Covered → SameRows kept (filter include full)

  no_rows : Halves [] []
  unfolding each masked zip_with filter
  no_rows = record {
    rows = [];
    kept = [];
    other_rows = [];
    decoded_other_rows = [];
    first_read = refl;
    mask = refl;
    filtered = refl;
    second_read = refl;
    decoded_others = refl;
    merged = tt;
    alone = λ _ _. tt;
  }

  add_row :
      (t : String → Option Encoded) (table : List (String → Option Encoded)) (f : Row Value)
      (full : List (Row Value))
      → decode (project (difference (schema_names schema) partition_names) t) ≡ ok f
      → predicate.do_include f ≡ ok (include f)
      → Halves table full
      → Halves (t ∷ table) (f ∷ full)
  unfolding filter zip_with
  add_row t table f full whole answer halves =
      let (p, p_read, p_distinct, p_gets) =
        predicate_row coding schema partition_names project projects named pc t whole known in
      let (o, o_read, o_gets) =
        other_row coding schema partition_names project projects named pc t whole in
      let p_answer = depends p f (λ c h. p_gets c ∙ rw h refl) ∙ answer in
      let both =
        merged_row coding schema partition_names project projects named pc t whole p o p_distinct
          p_gets o_gets in
      let first =
        each-cons (λ row. select_cols row pc >>= decode) (project pc t) (map (project pc) table)
          p_read halves.first_read in
      let answers = each-cons predicate.do_include p halves.rows p_answer halves.mask in
      elim (Bool-cases (include f)) [
        | inl included ↦ record {
          rows = p ∷ halves.rows;
          kept = p ∷ halves.kept;
          other_rows = project others t ∷ halves.other_rows;
          decoded_other_rows = o ∷ halves.decoded_other_rows;
          first_read = first;
          mask = answers;
          filtered =
              masked-kept p halves.rows (include f) (map include full) included halves.filtered;
          second_read =
              masked-kept (project others t) (map (project others) table) (include f)
                (map include full) included halves.second_read;
          decoded_others =
              each-cons decode (project others t) halves.other_rows o_read halves.decoded_others;
          merged = rw (filter, included) (both, halves.merged);
          alone = λ none_left covered.
              rw (filter, included)
                (
                  only_row coding schema partition_names project projects named pc t whole p p_gets
                      none_left covered,
                  halves.alone none_left covered,
                );
        }
        | inr excluded ↦ record {
          rows = p ∷ halves.rows;
          kept = halves.kept;
          other_rows = halves.other_rows;
          decoded_other_rows = halves.decoded_other_rows;
          first_read = first;
          mask = answers;
          filtered =
              masked-dropped p halves.rows (include f) (map include full) excluded halves.filtered;
          second_read =
              masked-dropped (project others t) (map (project others) table) (include f)
                (map include full) excluded halves.second_read;
          decoded_others = halves.decoded_others;
          merged = rw (filter, excluded) halves.merged;
          alone = λ none_left covered. rw (filter, excluded) (halves.alone none_left covered);
        }
      ]

  halves :
      (table : List (String → Option Encoded)) (full : List (Row Value))
      → each decode (map (project (difference (schema_names schema) partition_names)) table)
        ≡ ok full
      → All (λ f. predicate.do_include f ≡ ok (include f)) full
      → Halves table full
  unfolding each
  halves [] full done answers = subst (Halves []) (ok-injective done) no_rows
  halves (t ∷ table) full done answers =
      let (f, whole, rest) =
        >>=-eq-ok (decode (project (difference (schema_names schema) partition_names) t)) _
          {returned = full} done in
      let (fs, wholes, built) =
        >>=-eq-ok
          (each decode (map (project (difference (schema_names schema) partition_names)) table)) _
          {returned = full} rest in
      let same = ok-injective built in
      let answers' =
        subst (All (λ r. predicate.do_include r ≡ ok (include r))) (sym same) answers in
      subst (Halves (t ∷ table)) same
        (add_row t table f fs whole answers'.0 (halves table fs wholes answers'.1))

  others-rows :
      (read : List String → Result (List (Row Encoded))) (table : List (String → Option Encoded))
      (full : List (Row Value)) (h : Halves table full)
      → read others ≡ ok (map (project others) table)
      → (is_empty others ≡ false) ⊎ Covered
      → (rows : List (Row Value)) × (add_other_columns coding schema partition_names read others
            (map include full)
            h.kept
          ≡ ok rows)
        × SameRows rows (filter include full)
  unfolding add_other_columns
  others-rows read table full h second remaining = elim (Bool-cases (is_empty others)) [
    | inr some_left ↦ (
      zip_with merge_two_dicts h.decoded_other_rows h.kept,
      rw (add_other_columns, some_left)
          (>>=-of_ok (read others) _ second (
            >>=-of_ok (masked (map (project others) table) (map include full)) _ h.second_read
              (>>=-of_ok (each decode h.other_rows) _ h.decoded_others refl))),
      h.merged,
    )
    | inl none_left ↦ (
      h.kept,
      rw (add_other_columns, none_left) refl,
      elim remaining [
        | inl left ↦ absurd (ground arith)
        | inr covered ↦ h.alone (λ c. is_empty-contains c others none_left) covered
      ],
    )
  ]

  first-steps :
      (read : List String → Result (List (Row Encoded))) (table : List (String → Option Encoded))
      (full : List (Row Value)) (h : Halves table full) {r : Result (List (Row Value))}
      → read pc ≡ ok (map (project pc) table)
      → (if any (λ kept. kept) (map include full)
          then (masked h.rows (map include full)
              >>= add_other_columns coding schema partition_names read others (map include full))
          else ok [])
        ≡ r
      → load_matching_rows coding schema partition_names read predicate pc others ≡ r
  unfolding load_matching_rows predicate_rows
  first-steps read table full h first last =
      >>=-of_ok (predicate_rows coding schema partition_names read pc) _
        (>>=-of_ok (read pc) _ first h.first_read)
        (>>=-of_ok (each predicate.do_include h.rows) _ h.mask last)

  matching-rows :
      (read : List String → Result (List (Row Encoded))) (table : List (String → Option Encoded))
      (full : List (Row Value)) (h : Halves table full)
      → read pc ≡ ok (map (project pc) table)
      → read others ≡ ok (map (project others) table)
      → (is_empty others ≡ false) ⊎ Covered
      → (rows : List (Row Value)) × (load_matching_rows coding schema partition_names read predicate
            pc others
          ≡ ok rows)
        × SameRows rows (filter include full)
  unfolding load_matching_rows predicate_rows
  matching-rows read table full h first second remaining =
      elim (Bool-cases (any (λ b. b) (map include full))) [
        | inr nothing ↦ (
          [],
          first-steps read table full h first (rw nothing refl),
          filter-none include full nothing,
        )
        | inl matches ↦
            let (rows, adds, same) = others-rows read table full h second remaining in
            (
              rows,
              first-steps read table full h first
                  (rw matches (>>=-of_ok (masked h.rows (map include full)) _ h.filtered adds)),
              same,
            )
      ]

module _ {Codec Value Encoded : Type 0} (coding : Coding Codec Value Encoded)
    (schema : Unischema Codec) (partition_names : List String)
    (project : List String → (String → Option Encoded) → Row Encoded)
    (predicate : Predicate (Option Value)) (include : Row Value → Bool) where
  -- the columns that the predicate needs, and those left
  abbrev pub needed : List String
  needed = union [] predicate.get_fields

  abbrev pub remaining : List String
  remaining = difference (difference (schema_names schema) needed) partition_names

  -- When the rows of a piece decode, the worker with a predicate, which decodes the predicate's columns
  -- first and the others of the matching rows only, loads what filtering the decoded rows gives. A read
  -- succeeds if it asks for no partition column, and gives the columns asked for and the partition columns.
  -- The predicate answers on each decoded row without an exception. It names at least one field, only
  -- fields of the schema, none of them a partition column, and hangs on no other; and columns remain to be
  -- read, or no field of the schema is a partition column.
  pub load_rows_with_predicate-filter :
      (read : List String → Result (List (Row Encoded))) (table : List (String → Option Encoded))
      {full : List (Row Value)}
      → Projects partition_names project
      → Reads partition_names project table read
      → WellNamed schema
      → DependsOn needed predicate
      → is_empty needed ≡ false
      → is_empty (difference needed (schema_names schema)) ≡ true
      → ((c : String) → contains c needed ≡ true → contains c partition_names ≡ false)
      → (is_empty remaining ≡ false)
        ⊎ ((c : String) → has_key c schema.fields ≡ true → contains c partition_names ≡ false)
      → load_rows coding schema partition_names read ≡ ok full
      → All (λ f. predicate.do_include f ≡ ok (include f)) full
      → (rows : List (Row Value)) × (load_rows_with_predicate coding schema partition_names read
            predicate
          ≡ ok rows)
        × SameRows rows (filter include full)
  unfolding load_rows load_rows_with_predicate
  load_rows_with_predicate-filter read table {full} projects reads named depends some_fields valid
        unpartitioned left loads answers =
      let known = (λ (c : String) (here : contains c needed ≡ true). in_schema c here valid) in
      let all = difference (schema_names schema) partition_names in
      let read_all = reads all (λ c here. outside c (schema_names schema) here) in
      let decodes =
        sym (>>=-of_ok (read all) (each (λ row. decode_row coding row schema)) read_all refl)
        ∙ loads in
      let h =
        halves coding schema partition_names project projects named predicate include needed known
          depends table full decodes answers in
      let (rows, matching, same) =
        matching-rows coding schema partition_names project projects named predicate include needed
          known depends read table full h (reads needed unpartitioned)
          (reads remaining (λ c here. outside c (difference (schema_names schema) needed) here))
          (elim left [
            | inl some_left ↦ inl some_left
            | inr no_partitions ↦
                inr (λ c field here. absurd (ground (arith, no_partitions c field, here)))
          ]) in
      (rows, rw (some_fields, valid) matching, same)
    where
      outside :
          (c : String) (names : List String)
          → contains c (difference names partition_names) ≡ true
          → contains c partition_names ≡ false
      outside c names here = ground (arith, here, contains-difference c names partition_names)

      in_schema :
          (c : String)
          → contains c needed ≡ true
          → is_empty (difference needed (schema_names schema)) ≡ true
          → contains c (schema_names schema) ≡ true
      in_schema c here valid = ground (
        arith,
        here,
        is_empty-contains c (difference needed (schema_names schema)) valid,
        contains-difference c needed (schema_names schema),
      )
