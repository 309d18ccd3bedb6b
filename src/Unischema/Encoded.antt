-- ===== src/Unischema/Encoded.antt =====
-- The three loops over a row of dataset_toolkit/unischema.py and utils.py, field by field.
use code_assist_analyzer.Prelude.{
  true, false, ◌==◌, ==-cases, ==-refl, Option, none, some, [], ◌∷◌, String, string_eq,
  if◌then◌else◌, ok, ◌>>=◌, >>=-eq-ok, ok-injective, ◌≡◌, refl, sym, ap, ◌∙◌, subst, inl, inr,
  Bool-cases, Option-cases, arith,
}
use code_assist_analyzer.Prelude.Dict.{
  Dict, get, has_key, put, get-put, has_key-put, Distinct, put-Distinct, get_of_not_has_key,
  has_key_of_get,
}
use code_assist_analyzer.Unischema.{
  UnischemaField, Coding, insert_nulls, encode_value, encode_items,
}

-- a put at another key
pub get-put_other :
    {V : Type 0} (k j : String) (v : V) (d : Dict String V)
    → (k == j) ≡ false
    → get j (put k v d) ≡ get j d
get-put_other k j v d other = get-put k j v d ∙ rw other refl

pub get-put_same :
    {V : Type 0} (k : String) (v : V) (d : Dict String V) → get k (put k v d) ≡ some v
get-put_same k v d = get-put k k v d ∙ rw (==-refl k) refl

module _ {Codec : Type 0} {Value : Type 0} where
  -- what a field of a row is after the nulls are inserted
  abbrev pub with_null :
      Dict String (UnischemaField Codec)
      → Dict String (Option Value)
      → String
      → Option (Option Value)
  with_null fields row f =
      if has_key f row then get f row else if has_key f fields then some none else none

  with_null-present :
      (k : String) (field : UnischemaField Codec) (fields : Dict String (UnischemaField Codec))
      (row : Dict String (Option Value)) (f : String)
      → has_key k row ≡ true
      → with_null fields row f ≡ with_null ((k, field) ∷ fields) row f
  unfolding has_key
  with_null-present k field fields row f here = elim (==-cases k f) [
    | inl (same, h) ↦ rw (subst (λ j. has_key j row ≡ true) same here) refl
    | inr (_, h) ↦ rw h refl
  ]

  with_null-put :
      (k : String) (field : UnischemaField Codec) (fields : Dict String (UnischemaField Codec))
      (row : Dict String (Option Value)) (f : String)
      → has_key k row ≡ false
      → with_null fields (put k none row) f ≡ with_null ((k, field) ∷ fields) row f
  unfolding has_key
  with_null-put k field fields row f away =
      rw (has_key-put k f none row, get-put k f none row)
        (elim (==-cases k f) [
          | inl (same, h) ↦ rw (h, subst (λ j. has_key j row ≡ false) same away) refl
          | inr (_, h) ↦ rw h refl
        ])

  pub insert_nulls-get :
      (fields : Dict String (UnischemaField Codec)) (row : Dict String (Option Value))
      {row' : Dict String (Option Value)} (f : String)
      → insert_nulls fields row ≡ ok row'
      → get f row' ≡ with_null fields row f
  unfolding insert_nulls has_key
  insert_nulls-get [] row {row'} f done = elim (Bool-cases (has_key f row)) [
    | inl here ↦ rw here (ap (get f) (sym (ok-injective done)))
    | inr away ↦ rw away (ap (get f) (sym (ok-injective done)) ∙ get_of_not_has_key f row away)
  ]
  insert_nulls-get ((k, field) ∷ fields) row {row'} f done = elim (Bool-cases (has_key k row)) [
    | inl here ↦
        insert_nulls-get fields row {row' = row'} f (ground arith)
        ∙ with_null-present k field fields row f here
    | inr away ↦ elim (Bool-cases field.nullable) [
      | inl nullable ↦
          insert_nulls-get fields (put k none row) {row' = row'} f (ground arith)
          ∙ with_null-put k field fields row f away
      | inr required ↦ absurd (ground arith)
    ]
  ]

  pub insert_nulls-Distinct :
      (fields : Dict String (UnischemaField Codec)) (row : Dict String (Option Value))
      {row' : Dict String (Option Value)}
      → insert_nulls fields row ≡ ok row'
      → Distinct row
      → Distinct row'
  unfolding insert_nulls
  insert_nulls-Distinct [] row done distinct = subst Distinct (ok-injective done) distinct
  insert_nulls-Distinct ((k, field) ∷ fields) row {row'} done distinct =
      elim (Bool-cases (has_key k row)) [
        | inl here ↦ insert_nulls-Distinct fields row {row' = row'} (ground arith) distinct
        | inr away ↦ elim (Bool-cases field.nullable) [
          | inl nullable ↦
              insert_nulls-Distinct fields (put k none row) {row' = row'} (ground arith)
                (put-Distinct k none row distinct)
          | inr required ↦ absurd (ground arith)
        ]
      ]

-- an entry of the rest of a dict without repeats
pub get_tail :
    {V : Type 0} (k f : String) (w : V) (d : Dict String V) {v : V}
    → has_key k d ≡ false
    → get f d ≡ some v
    → get f ((k, w) ∷ d) ≡ some v
unfolding get
get_tail k f w d {v} fresh here = elim (==-cases k f) [
  | inl (same, h) ↦
      absurd (ground (arith, has_key_of_get f d {v = v} here, ap (λ j. has_key j d) same))
  | inr (_, h) ↦ rw h here
]

module _ {Codec Value Encoded : Type 0} (coding : Coding Codec Value Encoded)
    (fields : Dict String (UnischemaField Codec)) where
  -- a field that the row does not have keeps its value
  pub encode_items-absent :
      (items : Dict String (Option Value)) (acc : Dict String (Option Encoded))
      {out : Dict String (Option Encoded)} (f : String)
      → encode_items coding fields items acc ≡ ok out
      → has_key f items ≡ false
      → get f out ≡ get f acc
  unfolding encode_items has_key
  encode_items-absent [] acc f done away = ap (get f) (sym (ok-injective done))
  encode_items-absent ((k, v) ∷ items) acc {out} f done away = elim (Option-cases (get k fields)) [
    | inl missing ↦ absurd (ground arith)
    | inr (field, there) ↦
        let done' : (encode_value coding field v
              >>= (λ e. encode_items coding fields items (put k e acc)))
            ≡ ok out =
          sym (rw (encode_items, there) refl) ∙ done in
        let (e, _, rest) = >>=-eq-ok (encode_value coding field v) _ {returned = out} done' in
        encode_items-absent items (put k e acc) {out = out} f rest (ground arith)
        ∙ get-put_other k f e acc (ground arith)
  ]

  pub encode_items-Distinct :
      (items : Dict String (Option Value)) (acc : Dict String (Option Encoded))
      {out : Dict String (Option Encoded)}
      → encode_items coding fields items acc ≡ ok out
      → Distinct acc
      → Distinct out
  unfolding encode_items
  encode_items-Distinct [] acc done distinct = subst Distinct (ok-injective done) distinct
  encode_items-Distinct ((k, v) ∷ items) acc {out} done distinct =
      elim (Option-cases (get k fields)) [
        | inl missing ↦ absurd (ground arith)
        | inr (field, there) ↦
            let done' : (encode_value coding field v
                  >>= (λ e. encode_items coding fields items (put k e acc)))
                ≡ ok out =
              sym (rw (encode_items, there) refl) ∙ done in
            let (e, _, rest) = >>=-eq-ok (encode_value coding field v) _ {returned = out} done' in
            encode_items-Distinct items (put k e acc) {out = out} rest
              (put-Distinct k e acc distinct)
      ]

  -- the encoded value of a field, after the loop
  abbrev pub EncodedAt : String → Option Value → Dict String (Option Encoded) → Type 0
  EncodedAt f v out =
      (field : UnischemaField Codec) × (e : Option Encoded) × (get f fields ≡ some field)
      × (encode_value coding field v ≡ ok e)
      × (get f out ≡ some e)

  pub encode_items-present :
      (items : Dict String (Option Value)) (acc : Dict String (Option Encoded))
      {out : Dict String (Option Encoded)} (f : String) (v : Option Value)
      → encode_items coding fields items acc ≡ ok out
      → Distinct items
      → get f items ≡ some v
      → EncodedAt f v out
  unfolding encode_items get
  encode_items-present [] acc f v done distinct here = cc
  encode_items-present ((k, w) ∷ items) acc {out} f v done distinct here =
      elim (Option-cases (get k fields)) [
        | inl missing ↦ absurd (ground arith)
        | inr (field, there) ↦
            let done' : (encode_value coding field w
                  >>= (λ e. encode_items coding fields items (put k e acc)))
                ≡ ok out =
              sym (rw (encode_items, there) refl) ∙ done in
            let (e, encodes, rest) =
              >>=-eq-ok (encode_value coding field w) _ {returned = out} done' in
            elim (==-cases k f) [
              | inr (_, other) ↦
                  encode_items-present items (put k e acc) {out = out} f v rest distinct.1
                    (ground arith)
              | inl (same, h) ↦
                  let value : w ≡ v = ground arith in
                  (
                    field,
                    e,
                    ap (λ j. get j fields) (sym same) ∙ there,
                    ap (encode_value coding field) (sym value) ∙ encodes,
                    ap (λ j. get j out) (sym same)
                        ∙ encode_items-absent items (put k e acc) {out = out} k rest distinct.0
                        ∙ get-put_same k e acc,
                  )
            ]
      ]
