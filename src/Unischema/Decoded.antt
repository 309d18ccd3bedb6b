-- ===== src/Unischema/Decoded.antt =====
-- The loop of `decode_row` of dataset_toolkit/utils.py, field by field.
use code_assist_analyzer.Prelude.{
  false, ==-cases, ==-refl, Option, none, some, [], ◌∷◌, String, string_eq, if◌then◌else◌, ok,
  ◌>>=◌, >>=-eq-ok, ok-injective, ◌≡◌, refl, sym, ap, ◌∙◌, subst, inl, inr, Bool-cases,
  Option-cases, arith,
}
use code_assist_analyzer.Prelude.Dict.{
  Dict, get, has_key, put, Distinct, put-Distinct, get_of_has_key,
}
use code_assist_analyzer.Unischema.{UnischemaField, Coding, decode_value, decode_items}
use code_assist_analyzer.Unischema.Encoded.{get-put_other, get-put_same, get_tail}

module _ {Codec Value Encoded : Type 0} (coding : Coding Codec Value Encoded)
    (fields : Dict String (UnischemaField Codec)) where
  -- every value of the row that has a field decodes
  abbrev pub Decodes : Dict String (Option Encoded) → Type 0
  Decodes items =
      (f : String) (e : Option Encoded) (field : UnischemaField Codec)
      → get f items ≡ some e
      → get f fields ≡ some field
      → (v : Option Value) × (decode_value coding field e ≡ ok v)

  -- what the loop makes of the fields that the row lacks, and of those it has
  abbrev pub Decoded :
      Dict String (Option Encoded)
      → Dict String (Option Value)
      → Dict String (Option Value)
      → Type 0
  Decoded items acc out =
      ((f : String) → has_key f items ≡ false → get f out ≡ get f acc)
      × ((f : String) (e : Option Encoded) (field : UnischemaField Codec) (v : Option Value)
          → get f items ≡ some e
          → get f fields ≡ some field
          → decode_value coding field e ≡ ok v
          → get f out ≡ some v)

  skip_field :
      (k : String) (e : Option Encoded) (items : Dict String (Option Encoded))
      (acc out : Dict String (Option Value))
      → get k fields ≡ none
      → Decoded items acc out
      → Decoded ((k, e) ∷ items) acc out
  unfolding get has_key
  skip_field k e items acc out missing (absent, present) = (
    λ f away. absent f (ground arith),
    λ f e' field v here there decodes. elim (==-cases k f) [
      | inl (same, _) ↦ absurd (ground (arith, ap (λ j. get j fields) same))
      | inr (_, other) ↦ present f e' field v (ground arith) there decodes
    ],
  )

  add_field :
      (k : String) (e : Option Encoded) (items : Dict String (Option Encoded))
      (acc out : Dict String (Option Value)) (field : UnischemaField Codec) (v : Option Value)
      → has_key k items ≡ false
      → get k fields ≡ some field
      → decode_value coding field e ≡ ok v
      → Decoded items (put k v acc) out
      → Decoded ((k, e) ∷ items) acc out
  unfolding get has_key
  add_field k e items acc out field v fresh there decodes (absent, present) = (
    λ f away. absent f (ground arith) ∙ get-put_other k f v acc (ground arith),
    λ f e' field' v' here there' decodes'. elim (==-cases k f) [
      | inr (_, other) ↦ present f e' field' v' (ground arith) there' decodes'
      | inl (same, h) ↦
          let e_same : e ≡ e' = ground arith in
          let field_same : field ≡ field' = ground (arith, ap (λ j. get j fields) same) in
          let v_same = ok-injective (
            sym decodes
            ∙ ap (decode_value coding field) e_same
            ∙ ap (λ g. decode_value coding g e') field_same
            ∙ decodes') in
          ap (λ j. get j out) (sym same) ∙ absent k fresh ∙ get-put_same k v acc ∙ ap some v_same
    ],
  )

  pub decode_items-Decoded :
      (items : Dict String (Option Encoded)) (acc : Dict String (Option Value))
      → Distinct items
      → Decodes items
      → (out : Dict String (Option Value)) × (decode_items coding fields items acc ≡ ok out)
        × Decoded items acc out
  unfolding decode_items get has_key
  decode_items-Decoded [] acc distinct decodes =
      (acc, refl, ((λ f away. refl), (λ f e field v here. cc)))
  decode_items-Decoded ((k, e) ∷ items) acc distinct decodes = elim (Option-cases (get k fields)) [
    | inl missing ↦
        let (out, done, decoded) =
          decode_items-Decoded items acc distinct.1
            (λ f e' field here. decodes f e' field (get_tail k f e items distinct.0 here)) in
        (out, rw (decode_items, missing) done, skip_field k e items acc out missing decoded)
    | inr (field, there) ↦
        let (v, decodes_e) = decodes k e field (rw (==-refl k) refl) there in
        let (out, done, decoded) =
          decode_items-Decoded items (put k v acc) distinct.1
            (λ f e' field' here. decodes f e' field' (get_tail k f e items distinct.0 here)) in
        (
          out,
          rw (decode_items, there, decodes_e) done,
          add_field k e items acc out field v distinct.0 there decodes_e decoded,
        )
  ]

  -- a row that decodes has values that decode
  pub decode_items-Decodes :
      (items : Dict String (Option Encoded)) (acc : Dict String (Option Value))
      {out : Dict String (Option Value)}
      → decode_items coding fields items acc ≡ ok out
      → Decodes items
  unfolding decode_items get
  decode_items-Decodes [] acc done f e field here there = cc
  decode_items-Decodes ((k, e) ∷ items) acc {out} done f e' field' here there' =
      elim (Option-cases (get k fields)) [
        | inl missing ↦
            let rest : decode_items coding fields items acc ≡ ok out =
              sym (rw (decode_items, missing) refl) ∙ done in
            elim (==-cases k f) [
              | inl (same, _) ↦ absurd (ground (arith, ap (λ j. get j fields) same))
              | inr (_, other) ↦
                  decode_items-Decodes items acc rest f e' field' (ground arith) there'
            ]
        | inr (field, there) ↦
            let whole : (decode_value coding field e
                  >>= (λ v. decode_items coding fields items (put k v acc)))
                ≡ ok out =
              sym (rw (decode_items, there) refl) ∙ done in
            let (v, decodes, rest) =
              >>=-eq-ok (decode_value coding field e) _ {returned = out} whole in
            elim (==-cases k f) [
              | inr (_, other) ↦
                  decode_items-Decodes items (put k v acc) rest f e' field' (ground arith) there'
              | inl (same, h) ↦
                  let e_same : e ≡ e' = ground arith in
                  let field_same : field ≡ field' = ground (arith, ap (λ j. get j fields) same) in
                  (
                    v,
                    ap (decode_value coding field') (sym e_same)
                        ∙ ap (λ g. decode_value coding g e) (sym field_same)
                        ∙ decodes,
                  )
            ]
      ]

  pub decode_items-Distinct :
      (items : Dict String (Option Encoded)) (acc : Dict String (Option Value))
      {out : Dict String (Option Value)}
      → decode_items coding fields items acc ≡ ok out
      → Distinct acc
      → Distinct out
  unfolding decode_items
  decode_items-Distinct [] acc done distinct = subst Distinct (ok-injective done) distinct
  decode_items-Distinct ((k, e) ∷ items) acc {out} done distinct =
      elim (Option-cases (get k fields)) [
        | inl missing ↦
            let rest : decode_items coding fields items acc ≡ ok out =
              sym (rw (decode_items, missing) refl) ∙ done in
            decode_items-Distinct items acc rest distinct
        | inr (field, there) ↦
            let whole : (decode_value coding field e
                  >>= (λ v. decode_items coding fields items (put k v acc)))
                ≡ ok out =
              sym (rw (decode_items, there) refl) ∙ done in
            let (v, _, rest) = >>=-eq-ok (decode_value coding field e) _ {returned = out} whole in
            decode_items-Distinct items (put k v acc) rest (put-Distinct k v acc distinct)
      ]

  -- what is no field of the schema is not decoded
  pub decode_items-no_field :
      (items : Dict String (Option Encoded)) (acc : Dict String (Option Value))
      {out : Dict String (Option Value)} (c : String)
      → get c fields ≡ none
      → decode_items coding fields items acc ≡ ok out
      → get c out ≡ get c acc
  unfolding decode_items
  decode_items-no_field [] acc c none_there done = ap (get c) (sym (ok-injective done))
  decode_items-no_field ((k, e) ∷ items) acc {out} c none_there done =
      elim (Option-cases (get k fields)) [
        | inl missing ↦
            let rest : decode_items coding fields items acc ≡ ok out =
              sym (rw (decode_items, missing) refl) ∙ done in
            decode_items-no_field items acc c none_there rest
        | inr (field, there) ↦
            let whole : (decode_value coding field e
                  >>= (λ v. decode_items coding fields items (put k v acc)))
                ≡ ok out =
              sym (rw (decode_items, there) refl) ∙ done in
            let (v, _, rest) = >>=-eq-ok (decode_value coding field e) _ {returned = out} whole in
            elim (==-cases k c) [
              | inl (same, _) ↦ absurd (ground (arith, ap (λ j. get j fields) same))
              | inr (_, other) ↦
                  decode_items-no_field items (put k v acc) c none_there rest
                  ∙ get-put_other k c v acc other
            ]
      ]

  -- what the row lacks is not decoded
  pub decode_items-absent :
      (items : Dict String (Option Encoded)) (acc : Dict String (Option Value))
      {out : Dict String (Option Value)} (c : String)
      → has_key c items ≡ false
      → decode_items coding fields items acc ≡ ok out
      → get c out ≡ get c acc
  unfolding decode_items has_key
  decode_items-absent [] acc c away done = ap (get c) (sym (ok-injective done))
  decode_items-absent ((k, e) ∷ items) acc {out} c away done = elim (Option-cases (get k fields)) [
    | inl missing ↦
        let rest : decode_items coding fields items acc ≡ ok out =
          sym (rw (decode_items, missing) refl) ∙ done in
        decode_items-absent items acc c (ground arith) rest
    | inr (field, there) ↦
        let whole : (decode_value coding field e
              >>= (λ v. decode_items coding fields items (put k v acc)))
            ≡ ok out =
          sym (rw (decode_items, there) refl) ∙ done in
        let (v, _, rest) = >>=-eq-ok (decode_value coding field e) _ {returned = out} whole in
        decode_items-absent items (put k v acc) c (ground arith) rest
        ∙ get-put_other k c v acc (ground arith)
  ]

  -- A part of a row that decodes decodes, to the same values.
  pub decode_items-part :
      (row part : Dict String (Option Encoded)) {whole : Dict String (Option Value)}
      → Distinct row
      → Distinct part
      → ((c : String) (e : Option Encoded) → get c part ≡ some e → get c row ≡ some e)
      → decode_items coding fields row [] ≡ ok whole
      → (out : Dict String (Option Value)) × (decode_items coding fields part [] ≡ ok out)
        × ((c : String) → get c out ≡ (if has_key c part then get c whole else none))
  unfolding get
  decode_items-part row part {whole} distinct part_distinct sub done =
      let decodes = decode_items-Decodes row [] done in
      let (whole', done', (whole_absent, whole_present)) =
        decode_items-Decoded row [] distinct decodes in
      let (out, part_done, (absent, present)) =
        decode_items-Decoded part [] part_distinct
          (λ f e field here there. decodes f e field (sub f e here) there) in
      let same : whole' ≡ whole = ok-injective (sym done' ∙ done) in
      (
        out,
        part_done,
        λ c. elim (Bool-cases (has_key c part)) [
          | inr away ↦ rw away (absent c away)
          | inl here ↦
              let (e, at) = get_of_has_key c part here in
              rw here (elim (Option-cases (get c fields)) [
                | inr (field, there) ↦
                    let (v, decodes_c) = decodes c e field (sub c e at) there in
                    present c e field v at there decodes_c
                    ∙ sym (whole_present c e field v (sub c e at) there decodes_c)
                    ∙ ap (get c) same
                | inl missing ↦
                    decode_items-no_field part [] c missing part_done
                    ∙ sym (decode_items-no_field row [] c missing done)
              ])
        ],
      )
