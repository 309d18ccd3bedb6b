-- ===== src/Sequence.antt =====
-- Sequence of dataset_toolkit/sequence.py: runs of consecutive items whose timestamps are close.
-- Timestamps and the threshold are integers, and the length of a sequence is at least 0.
pub mod Windows
mod Tests
use code_assist_analyzer.Prelude.{
  ℕ, zero, suc, ◌+◌, ◌-◌, Bool, true, false, List, [], ◌∷◌, ◌≡◌, length, take, drop, if◌then◌else◌,
  String, Result, ok, raise, value_error, raise_if, ◌>>=◌, ◌>>◌,
}
use code_assist_analyzer.Prelude.Int.{ℤ, pos, negsuc, ◌-ℤ◌, ltb_ℤ}

-- a value that a caller passes to the constructor
pub data Arg : Type 0 where
  absent : Arg
  integral : ℤ → Arg
  number : Arg  -- a number that is not integral
  text : String → Arg
  other : Arg

pub record Sequence : Type 0 where
  pub length : ℕ
  pub delta_threshold : ℤ
  pub timestamp_field : String

abbrev pub is_integral : Arg → Bool
is_integral (integral z) = true
is_integral _ = false

abbrev pub is_number : Arg → Bool
is_number (integral z) = true
is_number number = true
is_number _ = false

abbrev pub is_str : Arg → Bool
is_str (text s) = true
is_str _ = false

abbrev pub is_none : Arg → Bool
is_none absent = true
is_none _ = false

-- the tests of `_validate_sequence`, in order
pub validate_sequence : Arg → Arg → Arg → Result (Unit {0})
validate_sequence length delta_threshold timestamp_field =
    if is_none length
    then raise value_error
    else if is_integral length
    then (if is_number delta_threshold
        then (if is_str timestamp_field then ok tt else raise value_error)
        else raise value_error)
    else raise value_error

-- `{key: value for (key, value) in enumerate(l)}`
unfoldable pub enumerate_from {ℓ} : {Item : Type ℓ} → ℕ → List Item → List (ℕ × Item)
enumerate_from key [] = []
enumerate_from key (value ∷ l) = (key, value) ∷ enumerate_from (suc key) l

module _ {Item : Type 0} (timestamp : Item → ℤ) where
  -- the loop over `zip(sequence[:-1], sequence[1:])`
  pub sequence_pass_threshold : ℤ → List Item → Bool
  sequence_pass_threshold delta [] = true
  sequence_pass_threshold delta (previous ∷ []) = true
  sequence_pass_threshold delta (previous ∷ current ∷ rest) =
      let others = sequence_pass_threshold delta (current ∷ rest) in
      if ltb_ℤ delta (timestamp current -ℤ timestamp previous) then false else others

  -- the loop over the indices from `index`, of which `count` are left
  pub form_from : Sequence → List Item → ℕ → ℕ → List (List (ℕ × Item))
  unfolding sequence_pass_threshold enumerate_from
  form_from s items index zero = []
  form_from s items index (suc count) =
      let potential_sequence = take s.length (drop index items) in
      let rest = form_from s items (suc index) count in
      if sequence_pass_threshold s.delta_threshold potential_sequence
      then enumerate_from 0 potential_sequence ∷ rest
      else rest

  -- `range(len(data) - self.length + 1)` is empty where the bound is not positive.
  pub form_sequence : Sequence → List Item → List (List (ℕ × Item))
  unfolding form_from
  form_sequence s items = form_from s items 0 (length items + 1 - s.length)
