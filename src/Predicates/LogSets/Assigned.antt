-- ===== src/Predicates/LogSets/Assigned.antt =====
-- Which frames the predicate of the perception splits includes.
use code_assist_analyzer.Prelude.{
  Bool, true, false, not, ◌&&◌, Option, none, some, List, [], ◌∷◌, map, filter, String, Eq, ◌==◌,
  string_eq, ==-cases, if◌then◌else◌, ok, ◌≡◌, ◌≢◌, ◌⊎◌, refl, sym, ap, subst, ok-injective, ◌∙◌,
  inl, inr,
}
use code_assist_analyzer.Prelude.Dict.{
  Dict, get, has_key, Distinct, has_key_of_get, get_of_not_has_key,
}
use code_assist_analyzer.Prelude.PySet.{contains}
use code_assist_analyzer.Predicates.{Predicate, value_at}
use code_assist_analyzer.Predicates.LogSets.{is_among, tested_value, in_perception_splits}

module _ {V : Type 0} (text : V → Option String) {Split : Type 0} ⦃e : Eq Split⦄
    (assign_log_split : V → Split) where
  -- whether the table, or for a guid not in it the assignment, gives this split
  pub is_of_split : Split → Bool → Dict String Split → V → String → Bool
  is_of_split split_type predict_split split_dict value guid = elim (get guid split_dict) [
    | some split ↦ split == split_type
    | none ↦ predict_split && (assign_log_split value == split_type)
  ]

  selected : (Split → Bool) → Option Split → Bool
  selected test none = false
  selected test (some split) = test split

  -- the keys of the entries that pass a test
  contains-selected :
      (test : Split → Bool) (guid : String) (d : Dict String Split)
      → Distinct d
      → contains guid (map (λ (entry : String × Split). entry.0) (filter (λ entry. test entry.1) d))
        ≡ selected test (get guid d)
  unfolding contains filter get selected
  contains-selected test guid [] distinct = refl
  contains-selected test guid ((key, split) ∷ d) distinct =
      by_key (==-cases key guid) (test split) refl (contains-selected test guid d distinct.1)
    where
      keys_of : List (String × Split) → List String
      keys_of = map (λ entry. entry.0)

      by_key :
          ((key ≡ guid) × ((key == guid) ≡ true)) ⊎ ((key ≢ guid) × ((key == guid) ≡ false))
          → (b : Bool) → test split ≡ b
          → contains guid (keys_of (filter (λ entry. test entry.1) d)) ≡ selected test (get guid d)
          → contains guid (
              keys_of (
                if b
                then (key, split) ∷ filter (λ entry. test entry.1) d
                else filter (λ entry. test entry.1) d))
            ≡ selected test (if key == guid then some split else get guid d)
      by_key (inl (same, is)) true chosen ih = rw is (sym chosen)
      by_key (inl (same, is)) false left ih = rw is (
          ih
          ∙ ap (selected test)
              (get_of_not_has_key guid d (subst (λ k. has_key k d ≡ false) same distinct.0))
          ∙ sym left)
      by_key (inr (other, is)) true chosen ih = rw is ih
      by_key (inr (other, is)) false left ih = rw is ih

  is_among-selected :
      (test : Split → Bool) (value : V) (guid : String) (d : Dict String Split)
      → Distinct d
      → text value ≡ some guid
      → is_among text value
          (map (λ (entry : String × Split). entry.0) (filter (λ entry. test entry.1) d))
        ≡ selected test (get guid d)
  unfolding is_among
  is_among-selected test value guid d distinct is_text =
      rw (is_among, is_text) (contains-selected test guid d distinct)

  tested_value-get :
      (field : String) (values : Dict String V) {value : V}
      → get field values ≡ some value
      → tested_value text field values ≡ ok value
  unfolding tested_value value_at
  tested_value-get field values {value} there =
      rw (has_key_of_get field values {v = value} there) (rw (value_at, there) refl)

  decided :
      (split_type : Split) (predict_split : Bool) (value : V) (found : Option Split)
      → (if predict_split
            && (not (selected (λ s. s == split_type) found)
                && not (selected (λ s. not (s == split_type)) found))
          then assign_log_split value == split_type
          else selected (λ s. s == split_type) found)
        ≡ (elim found [
          | some split ↦ split == split_type
          | none ↦ predict_split && (assign_log_split value == split_type)
        ])
  unfolding selected
  decided split_type true value none = refl
  decided split_type false value none = refl
  decided split_type predict_split value (some split) = by_test (split == split_type) predict_split
    where
      by_test :
          (b p : Bool)
          → (if p && (not b && not (not b)) then assign_log_split value == split_type else b) ≡ b
      by_test true true = refl
      by_test true false = refl
      by_test false true = refl
      by_test false false = refl

  -- With a table whose guids differ, and on a frame with a guid that is a text, the predicate of a split
  -- answers whether the table gives the guid this split; where the table does not have the guid, whether
  -- the split is to be predicted and the assignment gives this one.
  pub in_perception_splits_iff :
      (split_type : Split) (predict_split : Bool) (split_dict : Dict String Split)
      (values : Dict String V) {predicate : Predicate V} {value : V} {guid : String}
      → in_perception_splits text assign_log_split (some split_type) predict_split split_dict
        ≡ ok predicate
      → Distinct split_dict
      → get "volume_guid" values ≡ some value
      → text value ≡ some guid
      → predicate.do_include values
        ≡ ok (is_of_split split_type predict_split split_dict value guid)
  unfolding in_perception_splits is_of_split
  in_perception_splits_iff split_type predict_split split_dict values {predicate} {value} {guid}
        made distinct there is_text =
      ap (λ (p : Predicate V). p.do_include values) (sym (ok-injective made))
      ∙ rw
          (
            tested_value-get "volume_guid" values there,
            is_among-selected (λ s. s == split_type) value guid split_dict distinct is_text,
            is_among-selected (λ s. not (s == split_type)) value guid split_dict distinct is_text,
          )
          (ap ok (decided split_type predict_split value (get guid split_dict)))
