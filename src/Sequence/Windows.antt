-- ===== src/Sequence/Windows.antt =====
-- What form_sequence of dataset_toolkit/sequence.py returns, against the list of all windows.
use code_assist_analyzer.Prelude.{
  ℕ, zero, suc, ◌+◌, ◌-◌, ◌<◌, true, List, [], ◌∷◌, ◌≡◌, refl, length, take, drop, if◌then◌else◌,
  All, filter, map, arith, ltb, Bool-cases, ap, ◌∙◌, length-take_of_le, inl, inr,
}
use code_assist_analyzer.Prelude.Int.{ℤ, ◌-ℤ◌, ◌≤ℤ◌}
use code_assist_analyzer.Sequence.{
  Sequence, sequence_pass_threshold, enumerate_from, form_from, form_sequence,
}

abbrev pub range_from : ℕ → ℕ → List ℕ
range_from zero k = []
range_from (suc n) k = k ∷ range_from n (suc k)

module _ {Item : Type 0} where
  drop-suc :
      (index : ℕ) (items : List Item) {x : Item} {xs : List Item}
      → drop index items ≡ x ∷ xs
      → drop (suc index) items ≡ xs
  drop-suc zero [] e = cc
  drop-suc zero (y ∷ ys) e = cc
  drop-suc (suc index) [] e = cc
  drop-suc (suc index) (y ∷ ys) e = drop-suc index ys e

  -- every run of `n` consecutive items, from left to right
  pub windows : ℕ → List Item → List (List Item)
  windows n [] = if ltb 0 n then [] else [] ∷ []
  windows n (x ∷ xs) =
      let rest = windows n xs in if ltb (length (x ∷ xs)) n then [] else take n (x ∷ xs) ∷ rest

module _ {Item : Type 0} (timestamp : Item → ℤ) where
  -- each item is at most `delta` later than the one before
  abbrev pub Close : ℤ → List Item → Type 0
  Close delta [] = Unit
  Close delta (x ∷ []) = Unit
  Close delta (x ∷ y ∷ l) = ((timestamp y -ℤ timestamp x) ≤ℤ delta) × Close delta (y ∷ l)

  pass-Close :
      (delta : ℤ) (l : List Item) → sequence_pass_threshold timestamp delta l ≡ true → Close delta l
  unfolding sequence_pass_threshold
  pass-Close delta [] h = tt
  pass-Close delta (x ∷ []) h = tt
  pass-Close delta (x ∷ y ∷ l) h = (ground arith, pass-Close delta (y ∷ l) (ground arith))

  windows_short : (n : ℕ) (xs : List Item) → length xs < n → windows n xs ≡ []
  unfolding windows
  windows_short n [] h = ground arith
  windows_short n (x ∷ xs) h = ground arith

  -- one more index that has a whole window
  form_from-some :
      (s : Sequence) (items : List Item) (index : ℕ) (xs : List Item) (count : ℕ)
      → drop index items ≡ xs
      → form_from timestamp s items index (suc count) ≡ (
          if sequence_pass_threshold timestamp s.delta_threshold (take s.length xs)
          then enumerate_from 0 (take s.length xs) ∷ form_from timestamp s items (suc index) count
          else form_from timestamp s items (suc index) count)
  unfolding form_from
  form_from-some s items index xs count e = rw e refl

  form_from-none :
      (s : Sequence) (items : List Item) (index : ℕ) (count : ℕ)
      → count ≡ 0
      → form_from timestamp s items index count ≡ []
  unfolding form_from
  form_from-none s items index count e = rw e refl

  form_from-last :
      (s : Sequence) (items : List Item) (index : ℕ)
      → s.length ≡ 0
      → form_from timestamp s items index (0 + 1 - s.length)
        ≡ map
            (enumerate_from 0)
            (filter (sequence_pass_threshold timestamp s.delta_threshold) ([] ∷ []))
  unfolding form_from filter sequence_pass_threshold enumerate_from
  form_from-last s items index z = rw z refl

  form_from-windows :
      (s : Sequence) (items : List Item) (index : ℕ) (xs : List Item)
      → drop index items ≡ xs
      → form_from timestamp s items index (length xs + 1 - s.length)
        ≡ map
            (enumerate_from 0)
            (filter (sequence_pass_threshold timestamp s.delta_threshold) (windows s.length xs))
  unfolding filter windows
  form_from-windows s items index [] e = elim (Bool-cases (ltb 0 s.length)) [
    | inl short ↦ rw (short, form_from-none s items index (0 + 1 - s.length) (ground arith)) refl
    | inr whole ↦ rw whole (form_from-last s items index (ground arith))
  ]
  form_from-windows s items index (x ∷ xs) e = elim (Bool-cases (ltb (length (x ∷ xs)) s.length)) [
    | inl short ↦
        rw (short, form_from-none s items index (length (x ∷ xs) + 1 - s.length) (ground arith))
          refl
    | inr whole ↦
        let step : length (x ∷ xs) + 1 - s.length ≡ suc (length xs + 1 - s.length) = ground arith in
        rw
          (
            whole,
            step,
            form_from-some s items index (x ∷ xs) (length xs + 1 - s.length) e,
            form_from-windows s items (suc index) xs (drop-suc index items e),
          )
          (ground arith)
  ]

  -- The result holds exactly the windows of `length` consecutive items that pass the threshold
  -- test, from left to right, each as a dictionary from its positions.
  pub form_sequence-windows :
      (s : Sequence) (items : List Item)
      → form_sequence timestamp s items
        ≡ map
            (enumerate_from 0)
            (filter (sequence_pass_threshold timestamp s.delta_threshold) (windows s.length items))
  unfolding form_sequence
  form_sequence-windows s items = form_from-windows s items 0 items refl

  enumerate_from-values : (k : ℕ) (l : List Item) → map (λ e. e.1) (enumerate_from k l) ≡ l
  unfolding enumerate_from
  enumerate_from-values k [] = refl
  enumerate_from-values k (x ∷ l) = ap (◌∷◌ x) (enumerate_from-values (suc k) l)

  enumerate_from-keys :
      (k : ℕ) (l : List Item) → map (λ e. e.0) (enumerate_from k l) ≡ range_from (length l) k
  unfolding enumerate_from
  enumerate_from-keys k [] = refl
  enumerate_from-keys k (x ∷ l) = ap (◌∷◌ k) (enumerate_from-keys (suc k) l)

  -- A dictionary of the result: its keys are 0 to n - 1, and its values are close.
  abbrev pub IsRun : ℕ → ℤ → List (ℕ × Item) → Type 0
  IsRun n delta d = (map (λ e. e.0) d ≡ range_from n 0) × Close delta (map (λ e. e.1) d)

  windows-length : (n : ℕ) (xs : List Item) → All (λ w. length w ≡ n) (windows n xs)
  unfolding windows
  windows-length n [] = elim (Bool-cases (ltb 0 n)) [
    | inl short ↦ rw short tt
    | inr whole ↦ rw whole (ground arith, tt)
  ]
  windows-length n (x ∷ xs) = elim (Bool-cases (ltb (length (x ∷ xs)) n)) [
    | inl short ↦ rw short tt
    | inr whole ↦ rw whole (length-take_of_le n (x ∷ xs) (ground arith), windows-length n xs)
  ]

  IsRun-filter :
      (n : ℕ) (delta : ℤ) (ws : List (List Item))
      → All (λ w. length w ≡ n) ws
      → All
          (IsRun n delta)
          (map (enumerate_from 0) (filter (sequence_pass_threshold timestamp delta) ws))
  unfolding filter
  IsRun-filter n delta [] h = tt
  IsRun-filter n delta (w ∷ ws) h = elim (Bool-cases (sequence_pass_threshold timestamp delta w)) [
    | inl close ↦ rw close (
      (
        enumerate_from-keys 0 w ∙ ap (λ k. range_from k 0) h.0,
        rw (enumerate_from-values 0 w) (pass-Close delta w close),
      ),
      IsRun-filter n delta ws h.1,
    )
    | inr far ↦ rw far (IsRun-filter n delta ws h.1)
  ]

  -- Every dictionary of the result has the keys 0 to length - 1, and each of its values has a
  -- timestamp at most `delta_threshold` later than the value before it.
  pub form_sequence-IsRun :
      (s : Sequence) (items : List Item)
      → All (IsRun s.length s.delta_threshold) (form_sequence timestamp s items)
  form_sequence-IsRun s items = rw (form_sequence-windows s items) (
      IsRun-filter s.length s.delta_threshold (windows s.length items)
        (windows-length s.length items))
