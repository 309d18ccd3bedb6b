-- ===== src/RowGroups/Lookup.antt =====
-- A row-group selection against the columns that were indexed
-- (dataset_toolkit/etl/rowgroup_indexing.py, dataset_toolkit/selectors.py).
use code_assist_analyzer.Prelude.{
  ℕ, Bool, true, false, ◌&&◌, ◌||◌, List, [], ◌∷◌, String, string_eq, nat_eq, Eq, ◌==◌, Result, ok,
  raise, ◌>>=◌, any, ◌≡◌, refl, subst, ok-injective, arith, inl, inr, Bool-cases, Option-cases,
  >>=-eq-ok,
}
use code_assist_analyzer.Prelude.Dict.{Dict, get, Distinct}
use code_assist_analyzer.Prelude.PySet.{contains, union, contains-union}
use code_assist_analyzer.RowGroups.{
  Cell, SingleFieldIndexer, is_single_val, is_list_of_vals, index_cells, field_column,
  get_row_group_indexes, build_column, select_values,
}
use code_assist_analyzer.RowGroups.Entries.{
  holds, holds-put_empty, occurs, holds-index_cells, index_cells-Distinct,
}

pub any-congr {ℓ} :
    {A : Type ℓ} (p q : A → Bool) (xs : List A) → ((a : A) → p a ≡ q a) → any p xs ≡ any q xs
unfolding any
any-congr p q [] h = refl
any-congr p q (x ∷ xs) h = rw (h x, any-congr p q xs h) refl

pub any-or {ℓ} :
    {A : Type ℓ} (p q : A → Bool) (xs : List A) → any (λ a. p a || q a) xs ≡ (any p xs || any q xs)
unfolding any
any-or p q [] = refl
any-or p q (x ∷ xs) = ground (arith, any-or p q xs)

module _ {K : Type 0} ⦃e : Eq K⦄ where
  -- Reading an entry changes none, although it may create an empty one.
  get_row_group_indexes-holds :
      (v w : K) (p : ℕ) (indexer : SingleFieldIndexer K)
      → (contains p (get_row_group_indexes v indexer).0 ≡ holds v p indexer.index_data)
        × (holds w p (get_row_group_indexes v indexer).1.index_data ≡ holds w p indexer.index_data)
  unfolding get_row_group_indexes contains
  get_row_group_indexes-holds v w p indexer = elim (Option-cases (get v indexer.index_data)) [
    | inl absent ↦
        rw (get_row_group_indexes, absent) (refl, holds-put_empty v w p indexer.index_data absent)
    | inr (pieces, found) ↦ rw (get_row_group_indexes, found) (refl, refl)
  ]

  pub contains-select_values :
      (values : List K) (p : ℕ) (indexer : SingleFieldIndexer K) (row_groups : List ℕ)
      → contains p (select_values values indexer row_groups).0
        ≡ (contains p row_groups || any (λ v. holds v p indexer.index_data) values)
  unfolding select_values any
  contains-select_values [] p indexer row_groups = ground arith
  contains-select_values (v ∷ values) p indexer row_groups =
      let (found, indexer') = get_row_group_indexes v indexer in
      ground (
        arith,
        contains-select_values values p indexer' (union row_groups found),
        contains-union p row_groups found,
        get_row_group_indexes-holds v v p indexer,
        any-congr (λ w. holds w p indexer'.index_data) (λ w. holds w p indexer.index_data) values
            (λ w. (get_row_group_indexes-holds v w p indexer).1),
      )

  module _ (characters : K → List K) where
    -- whether `v` occurs in a column, read as its first value says
    abbrev pub column_has : K → List (Cell K) → Bool
    column_has v [] = false
    column_has v (first ∷ cells) = any (occurs characters (is_single_val first) v) (first ∷ cells)

    abbrev cells_have : K → Result (List (Cell K)) → Bool
    cells_have v (ok cells) = column_has v cells
    cells_have v (raise error) = false

    -- whether `v` occurs in the column of the rows of a piece
    abbrev pub piece_has : String → K → List (Dict String (Cell K)) → Bool
    piece_has column v rows = cells_have v (field_column column rows)

    -- What an indexer has become: the same column, and more entries.
    pub record Grown (before after : SingleFieldIndexer K) (more : K → ℕ → Bool) : Type 0 where
      pub same_name : after.index_name ≡ before.index_name
      pub same_column : after.column_name ≡ before.column_name
      pub distinct : Distinct after.index_data
      pub entries :
          (v : K) (p : ℕ) → holds v p after.index_data ≡ (holds v p before.index_data || more v p)

    index_cells-Grown :
        (s : Bool) (cells : List (Cell K)) (piece : ℕ) (indexer : SingleFieldIndexer K)
        {built : SingleFieldIndexer K}
        → (index_cells characters s piece cells indexer.index_data
            >>= (λ d. ok (record indexer { index_data = d })))
          ≡ ok built
        → Distinct indexer.index_data
        → Grown indexer built (λ v p. piece == p && any (occurs characters s v) cells)
    index_cells-Grown s cells piece indexer {built} h u =
        let (d, indexed, e') =
          >>=-eq-ok (index_cells characters s piece cells indexer.index_data) _ h in
        subst (λ b. Grown indexer b (λ v p. piece == p && any (occurs characters s v) cells))
          (ok-injective e')
          (record {
            same_name = refl;
            same_column = refl;
            distinct = index_cells-Distinct characters s piece cells indexer.index_data indexed u;
            entries =
                λ v p. holds-index_cells characters s v p piece cells indexer.index_data indexed;
          })

    pub build_column-Grown :
        (cells : List (Cell K)) (piece : ℕ) (indexer : SingleFieldIndexer K)
        {built : SingleFieldIndexer K}
        → build_column characters cells piece indexer ≡ ok built
        → Distinct indexer.index_data
        → Grown indexer built (λ v p. piece == p && column_has v cells)
    unfolding build_column
    build_column-Grown [] piece indexer h u = cc
    build_column-Grown (first ∷ cells) piece indexer h u = elim (Bool-cases (is_single_val first)) [
      | inl scalar ↦
          rw scalar (index_cells-Grown true (first ∷ cells) piece indexer (rw scalar at h) u)
      | inr scalar ↦ elim (Bool-cases (is_list_of_vals first)) [
        | inl list ↦
            rw scalar
              (index_cells-Grown false (first ∷ cells) piece indexer (rw (scalar, list) at h) u)
        | inr list ↦ absurd (ground arith)
      ]
    ]
