-- ===== src/Reader/Worker/Missing.antt =====
-- The columns that the worker with a predicate leaves out when there is no second read
-- (dataset_toolkit/reader.py).
use code_assist_analyzer.Prelude.{
  Bool, true, false, not, any, Option, Option-cases, none, List, [], ◌∷◌, All, String, string_eq,
  if◌then◌else◌, Result, ok, raise, raise_if, value_error, type_error, ◌>>=◌, >>=-eq-ok,
  ok-injective, ◌≡◌, refl, sym, ap, ◌∙◌, subst, inl, inr, Bool-cases, arith,
}
use code_assist_analyzer.Prelude.Dict.{Dict, get, has_key, put, get_of_has_key}
use code_assist_analyzer.Prelude.PySet.{contains, union, difference}
use code_assist_analyzer.Predicates.{Predicate}
use code_assist_analyzer.Unischema.{Unischema, Coding, decode_row, same_keys}
use code_assist_analyzer.Unischema.RoundTrip.{same_keys-get}
use code_assist_analyzer.Unischema.Encoded.{get-put_other}
use code_assist_analyzer.Unischema.Decoded.{decode_items-absent}
use code_assist_analyzer.Reader.Worker.{
  Row, select_cols, masked, each, is_empty, schema_names, predicate_rows, add_other_columns,
  load_matching_rows, load_rows_with_predicate, make_namedtuple,
}

select_cols-other :
    {V : Type 0} (row : Dict String V) (cols : List String) (c : String) {out : Dict String V}
    → select_cols row cols ≡ ok out
    → contains c cols ≡ false
    → get c out ≡ none
unfolding select_cols contains get
select_cols-other row [] c done other = ap (get c) (sym (ok-injective done))
select_cols-other row (k ∷ cols) c {out} done other = elim (Option-cases (get k row)) [
  | inl missing ↦ absurd (ground arith)
  | inr (v, there) ↦
      let whole : (select_cols row cols >>= (λ rest. ok (put k v rest))) ≡ ok out =
        sym (rw (select_cols, there) refl) ∙ done in
      let (rest, selects, built) = >>=-eq-ok (select_cols row cols) _ {returned = out} whole in
      ap (get c) (sym (ok-injective built))
      ∙ get-put_other k c v rest (ground arith)
      ∙ select_cols-other row cols c selects (ground arith)
]

each-All :
    {A B : Type 0} (P : B → Type 0) (f : A → Result B) (xs : List A) {ys : List B}
    → ((x : A) (y : B) → f x ≡ ok y → P y)
    → each f xs ≡ ok ys
    → All P ys
unfolding each
each-All P f [] holds done = subst (All P) (ok-injective done) tt
each-All P f (x ∷ xs) {ys} holds done =
    let (y, first, next) = >>=-eq-ok (f x) _ {returned = ys} done in
    let (rest, others, built) = >>=-eq-ok (each f xs) _ {returned = ys} next in
    subst (All P) (ok-injective built) (holds x y first, each-All P f xs holds others)

masked-All :
    {A : Type 0} (P : A → Type 0) (xs : List A) (mask : List Bool) {ys : List A}
    → All P xs
    → masked xs mask ≡ ok ys
    → All P ys
unfolding masked
masked-All P [] mask all_hold done = subst (All P) (ok-injective done) tt
masked-All P (x ∷ xs) [] all_hold done = cc
masked-All P (x ∷ xs) (kept ∷ mask) {ys} all_hold done =
    let (rest, others, built) = >>=-eq-ok (masked xs mask) _ {returned = ys} done in
    subst (All P) (ok-injective built) (elim (Bool-cases kept) [
      | inl h ↦ rw h (all_hold.0, masked-All P xs mask all_hold.1 others)
      | inr h ↦ rw h (masked-All P xs mask all_hold.1 others)
    ])

none-has_key : {V : Type 0} (c : String) (d : Dict String V) → get c d ≡ none → has_key c d ≡ false
none-has_key c d missing = elim (Bool-cases (has_key c d)) [
  | inr away ↦ away
  | inl here ↦ let (v, at) = get_of_has_key c d here in absurd (ground (arith, at, missing))
]

All-map :
    {A : Type 0} (P Q : A → Type 0) → ((x : A) → P x → Q x) → (xs : List A) → All P xs → All Q xs
All-map P Q f [] h = tt
All-map P Q f (x ∷ xs) h = (f x h.0, All-map P Q f xs h.1)

module _ {Codec Value Encoded : Type 0} (coding : Coding Codec Value Encoded)
    (schema : Unischema Codec) (partition_names : List String)
    (read : List String → Result (List (Row Encoded))) where
  -- the first read decodes the columns of the predicate alone
  predicate_rows-missing :
      (pc : List String) (c : String) {rows : List (Row Value)}
      → contains c pc ≡ false
      → predicate_rows coding schema partition_names read pc ≡ ok rows
      → All (λ row. get c row ≡ none) rows
  unfolding predicate_rows decode_row get
  predicate_rows-missing pc c {rows} other done =
      let (part, reads, next) = >>=-eq-ok (read pc) _ {returned = rows} done in
      each-All (λ row. get c row ≡ none) _ part
        (λ row decoded h.
          let (s, selects, decodes) = >>=-eq-ok (select_cols row pc) _ {returned = decoded} h in
          decode_items-absent coding schema.fields s [] c
            (none-has_key c s (select_cols-other row pc c selects other)) decodes)
        next

  add_none :
      (others : List String) (mask : List Bool) (filtered : List (Row Value))
      → is_empty others ≡ true
      → add_other_columns coding schema partition_names read others mask filtered ≡ ok filtered
  unfolding add_other_columns
  add_none others mask filtered none_left = rw none_left refl

  kept-missing :
      (others : List String) (c : String) (first : List (Row Value)) (mask : List Bool)
      {rows : List (Row Value)}
      → All (λ row. get c row ≡ none) first
      → is_empty others ≡ true
      → (if any (λ kept. kept) mask
          then (masked first mask
              >>= add_other_columns coding schema partition_names read others mask)
          else ok [])
        ≡ ok rows
      → All (λ row. get c row ≡ none) rows
  kept-missing others c first mask {rows} missing none_left done =
      elim (Bool-cases (any (λ kept. kept) mask)) [
        | inr nothing ↦
            let empty : ok [] ≡ ok rows = sym (rw nothing refl) ∙ done in
            subst (All (λ row. get c row ≡ none)) (ok-injective empty) tt
        | inl matches ↦
            let whole : (masked first mask
                  >>= add_other_columns coding schema partition_names read others mask)
                ≡ ok rows =
              sym (rw matches refl) ∙ done in
            let (filtered, keeps, added) =
              >>=-eq-ok (masked first mask) _ {returned = rows} whole in
            subst (All (λ row. get c row ≡ none))
              (ok-injective (sym (add_none others mask filtered none_left) ∙ added))
              (masked-All (λ row. get c row ≡ none) first mask missing keeps)
      ]

  matching-missing :
      (predicate : Predicate (Option Value)) (pc others : List String) (c : String)
      {rows : List (Row Value)}
      → contains c pc ≡ false
      → is_empty others ≡ true
      → load_matching_rows coding schema partition_names read predicate pc others ≡ ok rows
      → All (λ row. get c row ≡ none) rows
  unfolding load_matching_rows
  matching-missing predicate pc others c {rows} other none_left done =
      let (first, reads, next) =
        >>=-eq-ok (predicate_rows coding schema partition_names read pc) _ {returned = rows} done in
      let (mask, answers, last) =
        >>=-eq-ok (each predicate.do_include first) _ {returned = rows} next in
      let missing = predicate_rows-missing pc c other reads in
      kept-missing others c first mask missing none_left last

  -- A row that lacks a field of the schema makes no named tuple.
  make_namedtuple-missing :
      (row : Row Value) (c : String)
      → has_key c schema.fields ≡ true
      → get c row ≡ none
      → make_namedtuple coding schema partition_names read row ≡ raise type_error
  unfolding make_namedtuple
  make_namedtuple-missing row c field missing = elim (Bool-cases (same_keys row schema.fields)) [
    | inr differ ↦ rw differ refl
    | inl same ↦
        absurd (ground (arith, same_keys-get row schema.fields c same, none-has_key c row missing))
  ]

  -- When the predicate's columns leave no other column to read but partition columns, each row that the
  -- worker loads lacks every field of the schema that the predicate does not name, such as a partition
  -- column, and `make_namedtuple` raises a TypeError on it.
  pub load_rows_with_predicate-missing :
      (predicate : Predicate (Option Value)) (c : String) {rows : List (Row Value)}
      → is_empty (
          difference
            (difference (schema_names schema) (union [] predicate.get_fields))
            partition_names)
        ≡ true
      → has_key c schema.fields ≡ true
      → contains c (union [] predicate.get_fields) ≡ false
      → load_rows_with_predicate coding schema partition_names read predicate ≡ ok rows
      → All
          (λ row.
            (get c row ≡ none)
            × (make_namedtuple coding schema partition_names read row ≡ raise type_error))
          rows
  unfolding load_rows_with_predicate
  load_rows_with_predicate-missing predicate c {rows} none_left field other done =
      let pc = union [] predicate.get_fields in
      let (_, _, next) = >>=-eq-ok (raise_if (is_empty pc) value_error) _ {returned = rows} done in
      let (_, _, last) =
        >>=-eq-ok (raise_if (not (is_empty (difference pc (schema_names schema)))) value_error) _
          {returned = rows} next in
      All-map _ _ (λ row missing. (missing, make_namedtuple-missing row c field missing)) rows
        (matching-missing predicate pc
          (difference (difference (schema_names schema) pc) partition_names) c other none_left last)
