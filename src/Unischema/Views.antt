-- ===== src/Unischema/Views.antt =====
-- `create_schema_view` of dataset_toolkit/unischema.py.
use code_assist_analyzer.Prelude.{
  Bool, true, false, Option, none, some, Option-cases, if◌then◌else◌, any, List, [], ◌∷◌, String,
  string_eq, ◌==◌, ==-cases, ok, >>=-eq-ok, ok-injective, ◌≡◌, refl, sym, ap, ◌∙◌, inl, inr,
  Bool-cases, arith,
}
use code_assist_analyzer.Prelude.Dict.{get, has_key, put, get-put, Dict}
use code_assist_analyzer.Prelude.Sorted.{sort_by, or_this, last_with, last_with-sort_by}
use code_assist_analyzer.Unischema.{
  UnischemaField, Unischema, put_fields, init, check_fields, create_schema_view,
}

module _ {Codec : Type 0} where
  -- the last of the fields with a name, or what the dict has under it
  get-put_fields :
      (n : String) (fields : List (UnischemaField Codec)) (d : Dict String (UnischemaField Codec))
      → get n (put_fields fields d)
        ≡ (elim (last_with (λ f. f.name) n fields) [ some f ↦ some f | none ↦ get n d ])
  unfolding put_fields last_with
  get-put_fields n [] d = refl
  get-put_fields n (f ∷ fields) d =
      get-put_fields n fields (put f.name f d) ∙ found (last_with (λ g. g.name) n fields)
    where
      if_found :
          (b : Bool)
          → (if b then some f else get n d)
            ≡ (elim (if b then some f else none) as (λ _. Option (UnischemaField Codec)) [
              | some g ↦ some g
              | none ↦ get n d
            ])
      if_found true = refl
      if_found false = refl

      found :
          (o : Option (UnischemaField Codec))
          → (elim o [ some g ↦ some g | none ↦ get n (put f.name f d) ])
            ≡ (elim (or_this (λ g. g.name) n f o) [ some g ↦ some g | none ↦ get n d ])
      found (some g) = refl
      found none = get-put f.name n f d ∙ if_found (f.name == n)

  last_with-any :
      (n : String) (fields : List (UnischemaField Codec)) {f : UnischemaField Codec}
      → last_with (λ g. g.name) n fields ≡ some f
      → any (λ g. g.name == n) fields ≡ true
  unfolding last_with any
  last_with-any n [] h = cc
  last_with-any n (g ∷ fields) {f} h = elim (Option-cases (last_with (λ k. k.name) n fields)) [
    | inr (k, there) ↦ ground (arith, last_with-any n fields {f = k} there)
    | inl missing ↦ ground (arith, missing)
  ]

  -- every field that the check passes is one of the schema's, by its name
  check_fields-known :
      (schema : Unischema Codec) (fields : List (UnischemaField Codec)) (n : String)
      → check_fields schema fields ≡ ok tt
      → any (λ f. f.name == n) fields ≡ true
      → has_key n schema.fields ≡ true
  unfolding check_fields any
  check_fields-known schema [] n checked named = cc
  check_fields-known schema (f ∷ fields) n checked named =
      elim (Bool-cases (has_key f.name schema.fields)) [
        | inr unknown ↦ absurd (ground arith)
        | inl known ↦ elim (==-cases f.name n) [
          | inl (same, _) ↦ ap (λ k. has_key k schema.fields) (sym same) ∙ known
          | inr (_, other) ↦ check_fields-known schema fields n (ground arith) (ground arith)
        ]
      ]

  -- A view of a schema has, under a name, the last of the requested fields of this name as it was given,
  -- and nothing under any other name; the schema has a field of the same name.
  pub create_schema_view-fields :
      (schema : Unischema Codec) (fields : List (UnischemaField Codec)) {view : Unischema Codec}
      (n : String)
      → create_schema_view schema fields ≡ ok view
      → (get n view.fields ≡ last_with (λ f. f.name) n fields)
        × ((f : UnischemaField Codec) → get n view.fields ≡ some f → has_key n schema.fields ≡ true)
  unfolding create_schema_view init get
  create_schema_view-fields schema fields {view} n done =
      let (_, checked, built) = >>=-eq-ok (check_fields schema fields) _ {returned = view} done in
      let listed =
        ap (λ v. get n v.fields) (sym (ok-injective built))
        ∙ get-put_fields n (sort_by (λ f. f.name) fields) []
        ∙ itself (last_with (λ f. f.name) n (sort_by (λ f. f.name) fields))
        ∙ last_with-sort_by (λ f. f.name) n fields in
      (
        listed,
        λ f here.
            check_fields-known schema fields n checked
              (last_with-any n fields {f = f} (sym listed ∙ here)),
      )
    where
      itself : (o : Option (UnischemaField Codec)) → (elim o [ some f ↦ some f | none ↦ none ]) ≡ o
      itself (some f) = refl
      itself none = refl
