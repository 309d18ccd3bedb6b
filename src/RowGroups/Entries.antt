-- ===== src/RowGroups/Entries.antt =====
-- What the entries of a row-group index hold after each update
-- (dataset_toolkit/etl/rowgroup_indexers.py).
use code_assist_analyzer.Prelude.{
  ℕ, Bool, true, false, ◌&&◌, ◌||◌, none, List, [], ◌∷◌, string_eq, nat_eq, Eq, ◌==◌, if◌then◌else◌,
  ok, any, ◌≡◌, refl, arith, subst, ok-injective, ◌∙◌, ap, inl, inr, Bool-cases, >>=-eq-ok,
}
use code_assist_analyzer.Prelude.Dict.{
  Dict, get, put, get-put, Distinct, put-Distinct, get_of_not_has_key,
}
use code_assist_analyzer.Prelude.PySet.{contains, add, union, contains-add, contains-union}
use code_assist_analyzer.RowGroups.{
  Cell, null, text, integer, texts, array, other, or_empty, update_at, add_at, add_all, merge,
  cell_keys, index_cells,
}

module _ {K : Type 0} ⦃e : Eq K⦄ where
  -- whether the entry of `v` has the piece `p`
  abbrev pub holds : K → ℕ → Dict K (List ℕ) → Bool
  holds v p d = contains p (or_empty (get v d))

  holds-put :
      (v k : K) (p : ℕ) (pieces : List ℕ) (d : Dict K (List ℕ))
      → holds v p (put k pieces d) ≡ (if k == v then contains p pieces else holds v p d)
  holds-put v k p pieces d = ground (arith, get-put k v pieces d)

  holds-same : (v k : K) (p : ℕ) (d : Dict K (List ℕ)) → (k == v) ≡ true → holds k p d ≡ holds v p d
  holds-same v k p d h = ap (λ x. holds x p d) ((e.same_iff k v).0 h)

  pub holds-put_empty :
      (v w : K) (p : ℕ) (d : Dict K (List ℕ))
      → get v d ≡ none
      → holds w p (put v [] d) ≡ holds w p d
  unfolding contains
  holds-put_empty v w p d absent = elim (Bool-cases (v == w)) [
    | inl same ↦ holds-put w v p [] d ∙ rw same (rw (← (e.same_iff v w).0 same, absent) refl)
    | inr differs ↦ holds-put w v p [] d ∙ rw differs refl
  ]

  holds-update_at :
      (v k : K) (p : ℕ) (pieces : List ℕ) (d : Dict K (List ℕ))
      → holds v p (update_at k pieces d) ≡ (holds v p d || (k == v && contains p pieces))
  unfolding update_at
  holds-update_at v k p pieces d = ground (
    arith,
    holds-put v k p (union (or_empty (get k d)) pieces) d,
    contains-union p (or_empty (get k d)) pieces,
    holds-same v k p d,
  )

  holds-add_at :
      (v k : K) (p piece : ℕ) (d : Dict K (List ℕ))
      → holds v p (add_at piece k d) ≡ (holds v p d || (k == v && piece == p))
  unfolding add_at
  holds-add_at v k p piece d = ground (
    arith,
    holds-put v k p (add piece (or_empty (get k d))) d,
    contains-add piece p (or_empty (get k d)),
    holds-same v k p d,
  )

  holds-add_all :
      (v : K) (p piece : ℕ) (ks : List K) (d : Dict K (List ℕ))
      → holds v p (add_all piece ks d) ≡ (holds v p d || (piece == p && contains v ks))
  unfolding add_all contains
  holds-add_all v p piece [] d = ground arith
  holds-add_all v p piece (k ∷ ks) d =
      ground (arith, holds-add_all v p piece ks (add_at piece k d), holds-add_at v k p piece d)

  add_at-Distinct :
      (piece : ℕ) (k : K) (d : Dict K (List ℕ)) → Distinct d → Distinct (add_at piece k d)
  unfolding add_at
  add_at-Distinct piece k d h = put-Distinct k (add piece (or_empty (get k d))) d h

  add_all-Distinct :
      (piece : ℕ) (ks : List K) (d : Dict K (List ℕ)) → Distinct d → Distinct (add_all piece ks d)
  unfolding add_all
  add_all-Distinct piece [] d h = h
  add_all-Distinct piece (k ∷ ks) d h =
      add_all-Distinct piece ks (add_at piece k d) (add_at-Distinct piece k d h)

  pub merge-Distinct : (d others : Dict K (List ℕ)) → Distinct d → Distinct (merge d others)
  unfolding merge update_at
  merge-Distinct d [] h = h
  merge-Distinct d ((k, pieces) ∷ others) h =
      merge-Distinct (update_at k pieces d) others
        (put-Distinct k (union (or_empty (get k d)) pieces) d h)

  -- `a + b` of two indexers has, at each value, the union of the two sets of pieces.
  pub holds-merge :
      (v : K) (p : ℕ) (d others : Dict K (List ℕ))
      → Distinct others
      → holds v p (merge d others) ≡ (holds v p d || holds v p others)
  unfolding merge get contains
  holds-merge v p d [] h = ground arith
  holds-merge v p d ((k, pieces) ∷ others) h = elim (Bool-cases (k == v)) [
    | inl same ↦ ground (
      arith,
      holds-merge v p (update_at k pieces d) others h.1,
      holds-update_at v k p pieces d,
      get_of_not_has_key k others h.0,
      holds-same v k p others same,
    )
    | inr differs ↦
        ground
          (arith, holds-merge v p (update_at k pieces d) others h.1, holds-update_at v k p pieces d)
  ]

  module _ (characters : K → List K) where
    -- whether a value is entered under `v`: it is `v`, or an array that has it. A string in a column of
    -- arrays counts as its characters.
    pub occurs : Bool → K → Cell K → Bool
    occurs index_single_val v null = false
    occurs true v (text k) = k == v
    occurs false v (text k) = contains v (characters k)
    occurs index_single_val v (integer k) = k == v
    occurs index_single_val v (other k) = k == v
    occurs index_single_val v (texts ks) = contains v ks
    occurs index_single_val v (array k ks) = contains v (k ∷ ks)

    occurs-cell_keys :
        (s : Bool) (v : K) (cell : Cell K) {ks : List K}
        → cell_keys characters s cell ≡ ok ks
        → occurs s v cell ≡ contains v ks
    unfolding occurs cell_keys contains
    occurs-cell_keys true v cell h = ground arith
    occurs-cell_keys false v cell h = ground arith

    pub index_cells-Distinct :
        (s : Bool) (piece : ℕ) (cells : List (Cell K)) (d : Dict K (List ℕ)) {d' : Dict K (List ℕ)}
        → index_cells characters s piece cells d ≡ ok d'
        → Distinct d
        → Distinct d'
    unfolding index_cells
    index_cells-Distinct s piece [] d h u = subst Distinct (ok-injective h) u
    index_cells-Distinct s piece (cell ∷ cells) d h u =
        let (ks, entered, rest) = >>=-eq-ok (cell_keys characters s cell) _ h in
        index_cells-Distinct s piece cells (add_all piece ks d) rest (add_all-Distinct piece ks d u)

    -- Where indexing a column succeeds, the piece is added to the entries of exactly the values that
    -- occur in it.
    pub holds-index_cells :
        (s : Bool) (v : K) (p piece : ℕ) (cells : List (Cell K)) (d : Dict K (List ℕ))
        {d' : Dict K (List ℕ)}
        → index_cells characters s piece cells d ≡ ok d'
        → holds v p d' ≡ (holds v p d || (piece == p && any (occurs s v) cells))
    unfolding index_cells any
    holds-index_cells s v p piece [] d h = ground arith
    holds-index_cells s v p piece (cell ∷ cells) d h =
        let (ks, entered, rest) = >>=-eq-ok (cell_keys characters s cell) _ h in
        ground (
          arith,
          holds-index_cells s v p piece cells (add_all piece ks d) rest,
          holds-add_all v p piece ks d,
          occurs-cell_keys s v cell entered,
        )
