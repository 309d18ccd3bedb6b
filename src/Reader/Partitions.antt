-- ===== src/Reader/Partitions.antt =====
-- How training partitions divide the row groups (dataset_toolkit/reader.py).
use code_assist_analyzer.Prelude.{
  ℕ, zero, suc, ◌+◌, ◌<◌, ◌≤◌, Bool, true, false, not, ◌&&◌, Option, none, some, List, [], ◌∷◌,
  length, get_elem?, get_elem?-total, filter, all, All, nat_beq, nat_eq, String, string_eq,
  if◌then◌else◌, Result, ok, raise, index_error, raise_if, assertion_error, value_error, ◌>>=◌,
  >>=-eq-ok, ok-injective, ◌≡◌, refl, sym, ap, ◌∙◌, subst, inl, inr, Bool-cases, arith,
}
use code_assist_analyzer.Prelude.Int.{ℤ, floor_mod, floor_mod_bound}
use code_assist_analyzer.Prelude.Dict.{Dict, has_key}
use code_assist_analyzer.Prelude.PySet.{contains, contains-filter}
use code_assist_analyzer.Predicates.{Predicate}
use code_assist_analyzer.Metadata.{Piece}
use code_assist_analyzer.Reader.{
  Selector, PartitionSet, same_set, range_from, includes_piece, partition_indexes,
  predicate_indexes, selected_indexes, hashed_indexes, training_indexes, items_to_ventilate,
}

-- the indexes are those of pieces
Below : ℕ → List ℕ → Type 0
Below n indexes = All (λ i. i < n) indexes

range_from-Below : (i n top : ℕ) → i + n ≤ top → Below top (range_from i n)
unfolding range_from Below
range_from-Below i zero top h = tt
range_from-Below i (suc n) top h = (omega arith, range_from-Below (suc i) n top (omega arith))

filter-Below :
    (n : ℕ) (p : ℕ → Bool) (indexes : List ℕ) → Below n indexes → Below n (filter p indexes)
unfolding filter Below
filter-Below n p [] below = tt
filter-Below n p (i ∷ indexes) below = elim (Bool-cases (p i)) [
  | inl kept ↦ rw (filter, kept) (below.0, filter-Below n p indexes below.1)
  | inr dropped ↦ rw (filter, dropped) (filter-Below n p indexes below.1)
]

if-Below :
    (n i : ℕ) (rest : List ℕ) (b : Bool)
    → i < n
    → Below n rest
    → Below n (if b then i ∷ rest else rest)
unfolding Below
if-Below n i rest true h below = (h, below)
if-Below n i rest false h below = below

module _ {Value : Type 0} where
  partition_indexes-Below :
      (predicate : Predicate Value) (partitions : PartitionSet Value) (pieces : List Piece)
      (i top : ℕ) {indexes : List ℕ}
      → i + length pieces ≤ top
      → partition_indexes predicate partitions pieces i ≡ ok indexes
      → Below top indexes
  unfolding partition_indexes Below
  partition_indexes-Below predicate partitions [] i top h done =
      subst (Below top) (ok-injective done) tt
  partition_indexes-Below predicate partitions (piece ∷ pieces) i top {indexes} h done =
      let (included, _, next) =
        >>=-eq-ok (includes_piece predicate partitions piece) _ {returned = indexes} done in
      let (rest, goes, built) =
        >>=-eq-ok (partition_indexes predicate partitions pieces (suc i)) _ {returned = indexes}
          next in
      subst (Below top) (ok-injective built) (
        if-Below top i rest included (omega arith)
          (partition_indexes-Below predicate partitions pieces (suc i) top (omega arith) goes))

  predicate_indexes-Below :
      (predicate : Option (Predicate Value)) (partitions : PartitionSet Value) (pieces : List Piece)
      {indexes : List ℕ} {left : Option (Predicate Value)}
      → predicate_indexes predicate partitions pieces ≡ ok (indexes, left)
      → Below (length pieces) indexes
  unfolding predicate_indexes
  predicate_indexes-Below none partitions pieces done =
      subst (Below (length pieces)) (ap (λ r. r.0) (ok-injective done))
        (range_from-Below 0 (length pieces) (length pieces) (omega arith))
  predicate_indexes-Below (some predicate) partitions pieces {indexes} {left} done =
      elim (Bool-cases (same_set predicate.get_fields partitions.partition_names)) [
        | inr other ↦
            let whole : ok (range_from 0 (length pieces), some predicate) ≡ ok (indexes, left) =
              sym (rw (predicate_indexes, other) refl) ∙ done in
            subst (Below (length pieces)) (ap (λ r. r.0) (ok-injective whole))
              (range_from-Below 0 (length pieces) (length pieces) (omega arith))
        | inl same ↦
            let whole : (raise_if (not (nat_beq (length partitions.partition_names) 1))
                    assertion_error
                  >>= (λ _.
                      partition_indexes predicate partitions pieces 0 >>= (λ is. ok (is, none))))
                ≡ ok (indexes, left) =
              sym (rw (predicate_indexes, same) refl) ∙ done in
            let (_, _, rest) =
              >>=-eq-ok
                (raise_if (not (nat_beq (length partitions.partition_names) 1)) assertion_error) _
                {returned = (indexes, left)} whole in
            let (found, goes, built) =
              >>=-eq-ok (partition_indexes predicate partitions pieces 0) _
                {returned = (indexes, left)} rest in
            subst (Below (length pieces)) (ap (λ r. r.0) (ok-injective built)) (
              partition_indexes-Below predicate partitions pieces 0 (length pieces) (omega arith)
                goes)
      ]

selected_indexes-Below :
    {Indexer : Type 0} (selector : Option (Selector Indexer)) (available : Dict String Indexer)
    (n : ℕ) (indexes : List ℕ) {chosen : List ℕ}
    → selected_indexes selector available indexes ≡ ok chosen
    → Below n indexes
    → Below n chosen
unfolding selected_indexes
selected_indexes-Below none available n indexes done below =
    subst (Below n) (ok-injective done) below
selected_indexes-Below (some selector) available n indexes {chosen} done below =
    let (_, _, rest) =
      >>=-eq-ok
        (raise_if (not (all (λ name. has_key name available) selector.get_index_names)) value_error)
        _ {returned = chosen} done in
    let (selected, _, built) =
      >>=-eq-ok (selector.select_row_groups available) _ {returned = chosen} rest in
    subst (Below n) (ok-injective built) (filter-Below n (λ i. contains i selected) indexes below)

Below-contains :
    (n : ℕ) (indexes : List ℕ) (i : ℕ) → Below n indexes → contains i indexes ≡ true → i < n
unfolding Below contains
Below-contains n [] i below here = cc
Below-contains n (j ∷ indexes) i below here = elim (Bool-cases (nat_beq j i)) [
  | inl same ↦ ground (arith, below.0)
  | inr other ↦ Below-contains n indexes i below.1 (ground arith)
]

and_true : (b : Bool) → (b && true) ≡ b
and_true b = ground arith

module _ (hash : Piece → ℤ) (pieces : List Piece) where
  goes_to : ℕ → ℕ → ℕ → Bool
  goes_to n k i = elim (get_elem? pieces i) [
    | none ↦ false
    | some piece ↦ nat_beq (floor_mod (hash piece) (suc n)) k
  ]

  goes_to-piece :
      (n k i : ℕ) {piece : Piece}
      → get_elem? pieces i ≡ some piece
      → (goes_to n k i && true) ≡ nat_beq (floor_mod (hash piece) (suc n)) k
  unfolding goes_to
  goes_to-piece n k i there =
      and_true (goes_to n k i)
      ∙ ap
          (λ o. elim o as (λ _. Bool) [
            | none ↦ false
            | some x ↦ nat_beq (floor_mod (hash x) (suc n)) k
          ])
          there

  hashed_indexes-filter :
      (n k : ℕ) (indexes : List ℕ)
      → Below (length pieces) indexes
      → hashed_indexes hash pieces k (suc n) indexes ≡ ok (filter (goes_to n k) indexes)
  unfolding hashed_indexes Below filter goes_to
  hashed_indexes-filter n k [] below = refl
  hashed_indexes-filter n k (i ∷ indexes) below =
      let (piece, there) = get_elem?-total pieces i below.0 in
      ap
        (λ o.
          elim o as (λ _. Result Piece) [ none ↦ raise index_error | some x ↦ ok x ]
          >>= chosen (hashed_indexes hash pieces k (suc n) indexes))
        there
      ∙ ap (λ r. chosen r piece) (hashed_indexes-filter n k indexes below.1)
      ∙ ap (λ b. ok (if b then i ∷ filter (goes_to n k) indexes else filter (goes_to n k) indexes))
          (sym (
            ap
              (λ o. elim o as (λ _. Bool) [
                | none ↦ false
                | some x ↦ nat_beq (floor_mod (hash x) (suc n)) k
              ])
              there))
    where
      chosen : Result (List ℕ) → Piece → Result (List ℕ)
      chosen rest piece =
          rest >>= (λ is. ok (if nat_beq (floor_mod (hash piece) (suc n)) k then i ∷ is else is))

  module _ {Value Indexer : Type 0} (predicate : Option (Predicate Value))
      (partitions : PartitionSet Value) (selector : Option (Selector Indexer))
      (available : Dict String Indexer) where
    items_of_parts :
        (k n : Option ℕ) {found selected chosen : List ℕ} {left : Option (Predicate Value)}
        → predicate_indexes predicate partitions pieces ≡ ok (found, left)
        → selected_indexes selector available found ≡ ok selected
        → training_indexes hash pieces k n selected ≡ ok chosen
        → items_to_ventilate hash predicate partitions selector available pieces k n
          ≡ ok (chosen, left)
    unfolding items_to_ventilate
    items_of_parts k n {found} {selected} {chosen} {left} first second third =
        ap (λ r. r >>= after) first
        ∙ ap (λ r. r >>= last left) second
        ∙ ap (λ r. r >>= (λ c. ok (c, left))) third
      where
        last : Option (Predicate Value) → List ℕ → Result (List ℕ × Option (Predicate Value))
        last w is = training_indexes hash pieces k n is >>= (λ c. ok (c, w))

        after : List ℕ × Option (Predicate Value) → Result (List ℕ × Option (Predicate Value))
        after (is, w) = selected_indexes selector available is >>= last w

    -- with no training partition, the items are those that the selector leaves
    parts_of_items :
        {indexes : List ℕ} {left : Option (Predicate Value)}
        → items_to_ventilate hash predicate partitions selector available pieces none none
          ≡ ok (indexes, left)
        → (found : List ℕ) × (predicate_indexes predicate partitions pieces ≡ ok (found, left))
          × (selected_indexes selector available found ≡ ok indexes)
    unfolding items_to_ventilate training_indexes
    parts_of_items {indexes} {left} done =
        let ((found, worker_predicate), first, rest) =
          >>=-eq-ok (predicate_indexes predicate partitions pieces) _ {returned = (indexes, left)}
            done in
        let (selected, second, built) =
          >>=-eq-ok (selected_indexes selector available found) _ {returned = (indexes, left)}
            rest in
        let same = ok-injective built in
        (
          found,
          first ∙ ap (λ w. ok (found, w)) (ap (λ r. r.1) same),
          second ∙ ap ok (ap (λ r. r.0) same),
        )

    -- The items that the reader ventilates with no training partition are divided among the
    -- partitions 0 to n of `suc n`: each partition has some of them, for the same predicate, and each
    -- item is in exactly one.
    pub items_to_ventilate-divided :
        (n : ℕ) {indexes : List ℕ} {left : Option (Predicate Value)}
        → items_to_ventilate hash predicate partitions selector available pieces none none
          ≡ ok (indexes, left)
        → (chosen : ℕ → List ℕ) × ((k : ℕ)
            → items_to_ventilate hash predicate partitions selector available pieces
                (some k)
                (some (suc n))
              ≡ ok (chosen k, left))
          × ((k i : ℕ) → contains i (chosen k) ≡ true → contains i indexes ≡ true)
          × ((i : ℕ)
              → contains i indexes ≡ true
              → (k : ℕ) × (k ≤ n) × ((j : ℕ) → contains i (chosen j) ≡ nat_beq k j))
    unfolding training_indexes goes_to
    items_to_ventilate-divided n {indexes} {left} done =
        let (found, first, second) = parts_of_items done in
        let below =
          selected_indexes-Below selector available (length pieces) found second
            (predicate_indexes-Below predicate partitions pieces first) in
        (
          (λ k. filter (goes_to n k) indexes),
          (λ k.
              items_of_parts (some k) (some (suc n)) first second
                (hashed_indexes-filter n k indexes below)),
          (λ k i here. ground (arith, contains-filter (goes_to n k) i indexes)),
          (λ i here.
              let (piece, there) =
                get_elem?-total pieces i (Below-contains (length pieces) indexes i below here) in
              (
                floor_mod (hash piece) (suc n),
                omega (arith, floor_mod_bound (hash piece) n),
                λ j.
                    contains-filter (goes_to n j) i indexes
                    ∙ ap (λ b. goes_to n j i && b) here
                    ∙ goes_to-piece n j i there,
              )),
        )
