-- ===== src/Reader/Worker/Rows.antt =====
-- A row of a piece as the worker reads it, in one go or in two (dataset_toolkit/reader.py).
use code_assist_analyzer.Prelude.{
  Bool, true, false, ◌||◌, Option, none, some, List, [], ◌∷◌, String, string_eq, ==-cases, ==-refl,
  if◌then◌else◌, ok, ◌>>=◌, ◌≡◌, refl, sym, ap, ◌∙◌, inl, inr, Bool-cases, arith,
}
use code_assist_analyzer.Prelude.Dict.{
  Dict, get, has_key, put, update, get-put, Distinct, put-Distinct, has_key_of_get, get_of_has_key,
  get_of_not_has_key,
}
use code_assist_analyzer.Prelude.PySet.{contains, difference, contains-difference}
use code_assist_analyzer.Unischema.{Unischema, Coding, decode_row}
use code_assist_analyzer.Unischema.Encoded.{get-put_other, get-put_same}
use code_assist_analyzer.Unischema.Decoded.{
  decode_items-part, decode_items-Distinct, decode_items-no_field,
}
use code_assist_analyzer.Reader.Worker.{Row, select_cols, merge_two_dicts, schema_names}

-- updating, at a key
get-update_absent :
    {V : Type 0} (c : String) (a b : Dict String V)
    → has_key c b ≡ false
    → get c (update a b) ≡ get c a
unfolding update has_key
get-update_absent c a [] away = refl
get-update_absent c a ((k, v) ∷ b) away =
    get-update_absent c (put k v a) b (ground arith) ∙ get-put_other k c v a (ground arith)

get-update_present :
    {V : Type 0} (c : String) (a b : Dict String V)
    → Distinct b
    → has_key c b ≡ true
    → get c (update a b) ≡ get c b
unfolding update has_key get
get-update_present c a [] distinct here = cc
get-update_present c a ((k, v) ∷ b) distinct here = elim (==-cases k c) [
  | inl (same, h) ↦ rw h (
      ap (λ j. get j (update (put k v a) b)) (sym same)
      ∙ get-update_absent k (put k v a) b distinct.0
      ∙ get-put_same k v a)
  | inr (_, other) ↦ rw other (get-update_present c (put k v a) b distinct.1 (ground arith))
]

-- selecting columns that are there
pub select_cols-get :
    {V : Type 0} (row : Dict String V) (cols : List String)
    → ((c : String) → contains c cols ≡ true → (v : V) × (get c row ≡ some v))
    → (out : Dict String V) × (select_cols row cols ≡ ok out)
      × Distinct out
      × ((c : String) → get c out ≡ (if contains c cols then get c row else none))
unfolding select_cols contains get
select_cols-get row [] present = ([], refl, tt, λ c. refl)
select_cols-get row (k ∷ cols) present =
    let (v, at) = present k (rw (==-refl k) refl) in
    let (rest, selects, distinct, gets) =
      select_cols-get row cols (λ c here. present c (ground arith)) in
    (
      put k v rest,
      rw (select_cols, at, selects) refl,
      put-Distinct k v rest distinct,
      λ c. get-put k c v rest ∙ elim (==-cases k c) [
        | inl (same, h) ↦ rw h (sym at ∙ ap (λ j. get j row) same)
        | inr (_, other) ↦ rw other (gets c)
      ],
    )

has_key_if :
    {V : Type 0} (c : String) (d : Dict String V) (b : Bool) (v : V)
    → get c d ≡ (if b then some v else none)
    → has_key c d ≡ b
has_key_if c d true v h = has_key_of_get c d {v = v} h
has_key_if c d false v h = elim (Bool-cases (has_key c d)) [
  | inr away ↦ away
  | inl here ↦ let (w, at) = get_of_has_key c d here in absurd (ground (arith, at, h))
]

-- What reading columns gives of a row of the table: the columns asked for and those that the dataset
-- is partitioned by, once each.
abbrev pub Projects :
    {Encoded : Type 0}
    → List String
    → (List String → (String → Option Encoded) → Row Encoded)
    → Type 0
Projects {Encoded} partition_names project =
    (cols : List String) (t : String → Option Encoded)
    → Distinct (project cols t)
      × ((c : String)
          → get c (project cols t)
            ≡ (if contains c cols || contains c partition_names then some (t c) else none))

-- each field of the schema stands under its name
abbrev pub WellNamed : {Codec : Type 0} → Unischema Codec → Type 0
WellNamed schema = (c : String) → contains c (schema_names schema) ≡ has_key c schema.fields

-- two rows with the same values
abbrev pub SameRow : {V : Type 0} → Dict String V → Dict String V → Type 0
SameRow a b = (c : String) → get c a ≡ get c b

module _ {Codec Value Encoded : Type 0} (coding : Coding Codec Value Encoded)
    (schema : Unischema Codec) (partition_names : List String)
    (project : List String → (String → Option Encoded) → Row Encoded)
    (projects : Projects partition_names project) (named : WellNamed schema) (pc : List String)
    (t : String → Option Encoded) {f : Row Value}
    (whole : decode_row coding (project (difference (schema_names schema) partition_names) t) schema
      ≡ ok f) where
  -- the columns of the second read
  abbrev others : List String
  others = difference (difference (schema_names schema) pc) partition_names

  full : Row Encoded
  full = project (difference (schema_names schema) partition_names) t

  -- every column of the schema is in the full row
  full-get :
      (c : String)
      → (contains c (schema_names schema) || contains c partition_names) ≡ true
      → get c full ≡ some (t c)
  unfolding full
  full-get c known =
      (projects (difference (schema_names schema) partition_names) t).1 c
      ∙ rw (contains-difference c (schema_names schema) partition_names)
          (elim (Bool-cases (contains c partition_names)) [
            | inl h ↦ rw h (ground arith)
            | inr h ↦ ground (arith, known, h)
          ])

  -- what is read of some columns of the schema is part of the full row
  project-part :
      (cols : List String)
      → ((c : String) → contains c cols ≡ true → contains c (schema_names schema) ≡ true)
      → (c : String) (e : Option Encoded) → get c (project cols t) ≡ some e
      → get c full ≡ some e
  project-part cols known c e here =
      let gets = (projects cols t).1 c in
      elim (Bool-cases (contains c cols || contains c partition_names)) [
        | inr away ↦ absurd (ground (arith, gets, here, away))
        | inl asked ↦
            let value : some (t c) ≡ some e = sym (gets ∙ rw asked refl) ∙ here in
            full-get c (elim (Bool-cases (contains c cols)) [
              | inl h ↦ rw (known c h) (ground arith)
              | inr h ↦ ground (arith, asked, h)
            ])
            ∙ value
      ]

  -- the columns of the first read
  asked_value :
      (c : String)
      → (if contains c pc then get c (project pc t) else none)
        ≡ (if contains c pc then some (t c) else none)
  asked_value c = elim (Bool-cases (contains c pc)) [
    | inl h ↦ rw h ((projects pc t).1 c ∙ rw h refl)
    | inr h ↦ rw h refl
  ]

  selected_part :
      (c : String) (e : Option Encoded) {v : Option (Option Encoded)}
      → v ≡ (if contains c pc then get c (project pc t) else none)
      → v ≡ some e
      → get c (project pc t) ≡ some e
  selected_part c e gets at = elim (Bool-cases (contains c pc)) [
    | inl h ↦ sym (gets ∙ rw h refl) ∙ at
    | inr h ↦ absurd (ground (arith, gets, at, h))
  ]

  -- a column that neither read has is no field of the schema
  unknown-get :
      (c : String)
      → contains c pc ≡ false
      → (contains c others || contains c partition_names) ≡ false
      → get c schema.fields ≡ none
  unknown-get c h b = get_of_not_has_key c schema.fields (
      ground (
        arith,
        h,
        b,
        named c,
        contains-difference c (difference (schema_names schema) pc) partition_names,
        contains-difference c (schema_names schema) pc,
      ))

  pub predicate_row :
      ((c : String) → contains c pc ≡ true → contains c (schema_names schema) ≡ true)
      → (p : Row Value) × ((select_cols (project pc t) pc
            >>= (λ cols. decode_row coding cols schema))
          ≡ ok p)
        × Distinct p
        × ((c : String) → get c p ≡ (if contains c pc then get c f else none))
  unfolding decode_row full
  predicate_row known =
      let (s, selects, distinct, gets) =
        select_cols-get (project pc t) pc (λ c here. (t c, (projects pc t).1 c ∙ rw here refl)) in
      let (p, decodes, p_gets) =
        decode_items-part coding schema.fields full s
          (projects (difference (schema_names schema) partition_names) t).0 distinct
          (λ c e at. project-part pc known c e (selected_part c e (gets c) at)) whole in
      (
        p,
        ap (λ r. r >>= (λ cols. decode_row coding cols schema)) selects ∙ decodes,
        decode_items-Distinct coding schema.fields s [] decodes tt,
        λ c.
            p_gets c
            ∙ ap (λ b. if b then get c f else none)
                (has_key_if c s (contains c pc) (t c) (gets c ∙ asked_value c)),
      )

  pub other_row :
      (o : Row Value) × (decode_row coding (project others t) schema ≡ ok o)
      × ((c : String)
          → get c o ≡ (if contains c others || contains c partition_names then get c f else none))
  unfolding decode_row full
  other_row =
      let (o, decodes, gets) =
        decode_items-part coding schema.fields full (project others t)
          (projects (difference (schema_names schema) partition_names) t).0 (projects others t).0
          (project-part others (λ c here. ground (
            arith,
            here,
            contains-difference c (difference (schema_names schema) pc) partition_names,
            contains-difference c (schema_names schema) pc,
          )))
          whole in
      (
        o,
        decodes,
        λ c.
            gets c
            ∙ ap (λ b. if b then get c f else none)
                (has_key_if c (project others t) (contains c others || contains c partition_names)
                  (t c) ((projects others t).1 c)),
      )

  not_a_field :
      (c : String)
      → contains c pc ≡ false
      → contains c others ≡ false
      → (has_key c schema.fields ≡ true → contains c partition_names ≡ true → contains c pc ≡ true)
      → has_key c schema.fields ≡ false
  not_a_field c h b covered = ground (
    arith,
    h,
    b,
    named c,
    contains-difference c (difference (schema_names schema) pc) partition_names,
    contains-difference c (schema_names schema) pc,
  )

  -- the two parts of the row, merged, are the full row
  pub merged_row :
      (p o : Row Value)
      → Distinct p
      → ((c : String) → get c p ≡ (if contains c pc then get c f else none))
      → ((c : String)
          → get c o ≡ (if contains c others || contains c partition_names then get c f else none))
      → SameRow (merge_two_dicts o p) f
  unfolding merge_two_dicts decode_row full get
  merged_row p o distinct p_gets o_gets c = elim (Bool-cases (has_key c p)) [
    | inl here ↦ get-update_present c o p distinct here ∙ elim (Bool-cases (contains c pc)) [
      | inl h ↦ p_gets c ∙ rw h refl
      | inr h ↦ let (v, at) = get_of_has_key c p here in absurd (ground (arith, at, p_gets c, h))
    ]
    | inr away ↦ get-update_absent c o p away ∙ elim (Bool-cases (contains c pc)) [
      | inl h ↦
          let f_none : get c f ≡ none = sym (p_gets c ∙ rw h refl) ∙ get_of_not_has_key c p away in
          ground (arith, o_gets c, f_none)
      | inr h ↦ elim (Bool-cases (contains c others || contains c partition_names)) [
        | inl b ↦ o_gets c ∙ rw b refl
        | inr b ↦
            o_gets c
            ∙ rw b (
                sym
                  (decode_items-no_field coding schema.fields full [] c (unknown-get c h b) whole))
      ]
    ]
  ]

  -- when there is no second read, and no partition column outside the first, the first read has it all
  pub only_row :
      (p : Row Value)
      → ((c : String) → get c p ≡ (if contains c pc then get c f else none))
      → ((c : String) → contains c others ≡ false)
      → ((c : String)
          → has_key c schema.fields ≡ true
          → contains c partition_names ≡ true
          → contains c pc ≡ true)
      → SameRow p f
  unfolding decode_row full get
  only_row p p_gets none_left covered c = elim (Bool-cases (contains c pc)) [
    | inl h ↦ p_gets c ∙ rw h refl
    | inr h ↦
        p_gets c
        ∙ rw h (
            sym (
              decode_items-no_field coding schema.fields full [] c
                (get_of_not_has_key c schema.fields (not_a_field c h (none_left c) (covered c)))
                whole))
  ]
