-- ===== src/Predicates/LogSets.antt =====
-- The predicates of dataset_toolkit/logset_predicates.py. The table of splits, the assignment of a split
-- to an unknown log and the client of the log sets are parameters. `text` is the text that a value of a
-- row is, if it is one.
pub mod Assigned
use code_assist_analyzer.Prelude.{
  Bool, true, false, not, ◌&&◌, Option, none, some, List, [], ◌∷◌, map, filter, String, Eq, ◌==◌,
  string_eq, if◌then◌else◌, Result, ok, raise, raise_if, value_error, ◌>>=◌,
}
use code_assist_analyzer.Prelude.Dict.{Dict, get, has_key}
use code_assist_analyzer.Prelude.PySet.{contains}
use code_assist_analyzer.Prelude.Text.{split}
use code_assist_analyzer.Predicates.{Predicate, value_at}

module _ {V : Type 0} (text : V → Option String) where
  -- `value in guids`
  unfoldable pub is_among : V → List String → Bool
  is_among value guids = elim (text value) [ none ↦ false | some guid ↦ contains guid guids ]

  -- `values[field]`, after the test that the field is there
  unfoldable pub tested_value : String → Dict String V → Result V
  unfolding value_at
  tested_value field values = do
    _ ← raise_if (not (has_key field values)) value_error
    value_at field values

  module _ {Split : Type 0} ⦃e : Eq Split⦄ (assign_log_split : V → Split) where
    -- `{str(volume_guid) for volume_guid, split in split_dict.iteritems() if split == split_type}`
    abbrev pub included_volume_guids : Split → Dict String Split → List String
    included_volume_guids split_type split_dict =
        map (λ (entry : String × Split). entry.0)
          (filter (λ entry. entry.1 == split_type) split_dict)

    abbrev pub excluded_volume_guids : Split → Dict String Split → List String
    excluded_volume_guids split_type split_dict =
        map (λ (entry : String × Split). entry.0)
          (filter (λ entry. not (entry.1 == split_type)) split_dict)

    -- `split_type` is none where it is no Split.
    unfoldable pub in_perception_splits :
        Option Split → Bool → Dict String Split → Result (Predicate V)
    unfolding is_among tested_value
    in_perception_splits none predict_split split_dict = raise value_error
    in_perception_splits (some split_type) predict_split split_dict = ok (record {
      get_fields = "volume_guid" ∷ [];
      do_include = λ values. do
        volume_guid ← tested_value "volume_guid" values
        let included = is_among volume_guid (included_volume_guids split_type split_dict)
        let excluded = is_among volume_guid (excluded_volume_guids split_type split_dict)
        ok (
            if predict_split && (not included && not excluded)
            then assign_log_split volume_guid == split_type
            else included);
    })

  -- The client gives the guids of the logs of a revision, or raises.
  unfoldable pub in_logset :
      (String → String → Result (List String)) → String → Result (Predicate V)
  unfolding is_among tested_value
  in_logset get_revision logset_name = elim (split b':' logset_name) [
    | name ∷ rev_id ∷ [] ↦ get_revision name rev_id >>= (λ included_index_guids. ok (record {
      get_fields = "index_guid" ∷ [];
      do_include = λ values.
          tested_value "index_guid" values
          >>= (λ index_guid. ok (is_among index_guid included_index_guids));
    }))
    | _ ↦ raise value_error
  ]
