-- ===== src/RowGroups/Selection.antt =====
-- From the indexed columns to the selected row groups
-- (dataset_toolkit/etl/rowgroup_indexing.py, dataset_toolkit/selectors.py).
use code_assist_analyzer.Prelude.{
  ℕ, Bool, ◌&&◌, ◌||◌, List, [], ◌∷◌, String, string_eq, nat_eq, Eq, ◌==◌, ok, any, ◌≡◌, refl,
  subst, ok-injective, arith, ◌∙◌, sym, ap, inl, inr, Bool-cases, >>=-eq-ok, ==-refl,
}
use code_assist_analyzer.Prelude.Dict.{Dict, get, put, Distinct}
use code_assist_analyzer.Prelude.PySet.{contains}
use code_assist_analyzer.RowGroups.{
  Cell, Indexer, single, SingleFieldIndexer, field_column, merge, add_indexers, add_pairs,
  combine_indexers, build_column, build_index, build_all, index_columns, select_values, select_from,
  select_row_groups, map_pieces, reduce_from, reduce_indexers, build_rowgroup_index, by_name,
  name_of,
}
use code_assist_analyzer.RowGroups.Entries.{holds, holds-merge, merge-Distinct}
use code_assist_analyzer.RowGroups.Lookup.{
  Grown, build_column-Grown, contains-select_values, piece_has, any-congr,
}

module _ {K : Type 0} ⦃e : Eq K⦄ (characters : K → List K) where
  -- What a list of indexers is: one indexer of a column, grown from an empty or older one.
  record One (before : SingleFieldIndexer K) (indexers : List (Indexer K)) (more : K → ℕ → Bool)
      : Type 0 where
    built : SingleFieldIndexer K
    shape : indexers ≡ single built ∷ []
    grown : Grown characters before built more

  index_columns-One :
      (indexer : SingleFieldIndexer K) (piece : ℕ) (rows : List (Dict String (Cell K)))
      {out : List (Indexer K)}
      → index_columns characters (single indexer ∷ []) (piece, rows) ≡ ok out
      → Distinct indexer.index_data
      → One indexer out (λ v p. piece == p && piece_has characters indexer.column_name v rows)
  unfolding index_columns build_all build_index
  index_columns-One indexer piece [] h u = cc
  index_columns-One indexer piece (row ∷ rows) {out} h u =
      let (one, made, rest) =
        >>=-eq-ok (build_index characters (row ∷ rows) piece (single indexer)) _ h in
      let (cells, column, more) =
        >>=-eq-ok (field_column indexer.column_name (row ∷ rows)) _ made in
      let (built, grew, wrapped) = >>=-eq-ok (build_column characters cells piece indexer) _ more in
      record {
        built = built;
        shape = sym (ok-injective rest) ∙ ap (λ i. i ∷ []) (sym (ok-injective wrapped));
        grown = rw column (build_column-Grown characters cells piece indexer grew u);
      }

  combine-One :
      (a b : SingleFieldIndexer K) {out : List (Indexer K)}
      → combine_indexers (single a ∷ []) (single b ∷ []) ≡ ok out
      → Distinct a.index_data
      → Distinct b.index_data
      → One a out (λ v p. holds v p b.index_data)
  unfolding combine_indexers add_pairs add_indexers
  combine-One a b {out} h u w = elim (Bool-cases (a.column_name == b.column_name)) [
    | inl same ↦ record {
      built = record a { index_data = merge a.index_data b.index_data };
      shape = sym (ok-injective (rw same at h));
      grown = record {
        same_name = refl;
        same_column = refl;
        distinct = merge-Distinct a.index_data b.index_data u;
        entries = λ v p. holds-merge v p a.index_data b.index_data w;
      };
    }
    | inr differs ↦ absurd (ground arith)
  ]

  -- whether one of the pieces has the number `p` and the value `v` in the column
  abbrev pub some_piece_has : String → K → ℕ → List (ℕ × List (Dict String (Cell K))) → Bool
  some_piece_has column v p = any (λ q. q.0 == p && piece_has characters column v q.1)

  -- one more piece, indexed by a fresh indexer and combined
  piece-One :
      (fresh a : SingleFieldIndexer K) (piece : ℕ) (rows : List (Dict String (Cell K)))
      {o c : List (Indexer K)}
      → index_columns characters (single fresh ∷ []) (piece, rows) ≡ ok o
      → combine_indexers (single a ∷ []) o ≡ ok c
      → fresh.index_data ≡ []
      → Distinct a.index_data
      → One a c (λ v p. piece == p && piece_has characters fresh.column_name v rows)
  unfolding get contains
  piece-One fresh a piece rows {o} {c} indexed combined z u =
      let one = index_columns-One fresh piece rows indexed (rw z tt) in
      let two =
        combine-One a one.built
          (subst (λ l. combine_indexers (single a ∷ []) l ≡ ok c) one.shape combined) u
          one.grown.distinct in
      record {
        built = two.built;
        shape = two.shape;
        grown = record {
          same_name = two.grown.same_name;
          same_column = two.grown.same_column;
          distinct = two.grown.distinct;
          entries = λ v p.
              two.grown.entries v p
              ∙ ap (λ b. holds v p a.index_data || b)
                  (one.grown.entries v p
                    ∙ ap
                        (λ d.
                          holds v p d
                          || (piece == p && piece_has characters fresh.column_name v rows))
                        z);
        };
      }

  One-trans :
      (a : SingleFieldIndexer K) (o l : List (Indexer K)) (m₁ m₂ m : K → ℕ → Bool) (x : One a o m₁)
      → One x.built l m₂
      → ((v : K) (p : ℕ) → m v p ≡ (m₁ v p || m₂ v p))
      → One a l m
  One-trans a o l m₁ m₂ m x y h = record {
    built = y.built;
    shape = y.shape;
    grown = record {
      same_name = y.grown.same_name ∙ x.grown.same_name;
      same_column = y.grown.same_column ∙ x.grown.same_column;
      distinct = y.grown.distinct;
      entries = λ v p. ground (arith, y.grown.entries v p, x.grown.entries v p, h v p);
    };
  }

  reduce_map-One :
      (fresh a : SingleFieldIndexer K) (pieces : List (ℕ × List (Dict String (Cell K))))
      {outs : List (List (Indexer K))} {result : List (Indexer K)}
      → map_pieces characters (single fresh ∷ []) pieces ≡ ok outs
      → reduce_from (single a ∷ []) outs ≡ ok result
      → fresh.index_data ≡ []
      → Distinct a.index_data
      → One a result (λ v p. some_piece_has fresh.column_name v p pieces)
  unfolding map_pieces reduce_from any
  reduce_map-One fresh a [] {outs} {result} m h z u =
      let done : reduce_from (single a ∷ []) [] ≡ ok result =
        subst (λ o. reduce_from (single a ∷ []) o ≡ ok result) (sym (ok-injective m)) h in
      record {
        built = a;
        shape = sym (ok-injective done);
        grown = record {
          same_name = refl;
          same_column = refl;
          distinct = u;
          entries = λ v p. ground arith;
        };
      }
  reduce_map-One fresh a ((piece, rows) ∷ pieces) {outs} {result} m h z u =
      let (o, indexed, m') =
        >>=-eq-ok (index_columns characters (single fresh ∷ []) (piece, rows)) _ m in
      let (os, mapped, m'') = >>=-eq-ok (map_pieces characters (single fresh ∷ []) pieces) _ m' in
      let h' : reduce_from (single a ∷ []) (o ∷ os) ≡ ok result =
        subst (λ l. reduce_from (single a ∷ []) l ≡ ok result) (sym (ok-injective m'')) h in
      let (c, combined, reduced) = >>=-eq-ok (combine_indexers (single a ∷ []) o) _ h' in
      let step = piece-One fresh a piece rows indexed combined z u in
      One-trans a c result (λ v p. piece == p && piece_has characters fresh.column_name v rows)
        (λ v p. some_piece_has fresh.column_name v p pieces)
        (λ v p. some_piece_has fresh.column_name v p ((piece, rows) ∷ pieces)) step
        (reduce_map-One fresh step.built pieces mapped
          (subst (λ l. reduce_from l os ≡ ok result) step.shape reduced) z step.grown.distinct)
        (λ v p. refl)

  -- a new indexer, before any piece
  abbrev pub fresh_indexer : String → String → SingleFieldIndexer K
  fresh_indexer name column = record { index_name = name; column_name = column; index_data = [] }

  build-One :
      (name column : String) (pieces : List (ℕ × List (Dict String (Cell K))))
      {index : Dict String (Indexer K)}
      → build_rowgroup_index characters (single (fresh_indexer name column) ∷ []) pieces ≡ ok index
      → (result : List (Indexer K)) × One
          (fresh_indexer name column)
          result
          (λ v p. some_piece_has column v p pieces)
        × (by_name result [] ≡ index)
  unfolding build_rowgroup_index map_pieces reduce_indexers any
  build-One name column [] h = cc
  build-One name column ((piece, rows) ∷ pieces) h =
      let fresh = fresh_indexer name column in
      let (outs, m, h') =
        >>=-eq-ok (map_pieces characters (single fresh ∷ []) ((piece, rows) ∷ pieces)) _ h in
      let (o, indexed, m') =
        >>=-eq-ok (index_columns characters (single fresh ∷ []) (piece, rows)) _ m in
      let (os, mapped, m'') = >>=-eq-ok (map_pieces characters (single fresh ∷ []) pieces) _ m' in
      let (result, reduced, named) = >>=-eq-ok (reduce_indexers outs) _ h' in
      let one = index_columns-One fresh piece rows indexed tt in
      let reduced' : reduce_from o os ≡ ok result =
        subst (λ l. reduce_indexers l ≡ ok result) (sym (ok-injective m'')) reduced in
      (
        result,
        One-trans fresh o result (λ v p. piece == p && piece_has characters column v rows)
            (λ v p. some_piece_has column v p pieces)
            (λ v p. some_piece_has column v p ((piece, rows) ∷ pieces)) one
            (reduce_map-One fresh one.built pieces mapped
              (subst (λ l. reduce_from l os ≡ ok result) one.shape reduced') refl
              one.grown.distinct)
            (λ v p. refl),
        ok-injective named,
      )

  select-One :
      (name : String) (values : List K) (before : SingleFieldIndexer K) (more : K → ℕ → Bool)
      (result : List (Indexer K))
      → before.index_name ≡ name
      → before.index_data ≡ []
      → One before result more
      → (groups : List ℕ) × (select_row_groups name values (by_name result []) ≡ ok groups)
        × ((p : ℕ) → contains p groups ≡ any (λ v. more v p) values)
  unfolding select_row_groups select_from by_name name_of get put contains
  select-One name values before more result n z one = (
    (select_values values one.built []).0,
    rw (one.shape, select_row_groups, one.grown.same_name, n, ==-refl name) refl,
    λ p.
        contains-select_values values p one.built []
        ∙ any-congr (λ v. holds v p one.built.index_data) (λ v. more v p) values
            (λ v. one.grown.entries v p ∙ ap (λ d. holds v p d || more v p) z),
  )

  -- Where an index of one column has been built over the pieces of a dataset, the selector by that
  -- index succeeds, and it selects exactly the pieces in whose column one of the values occurs.
  pub build-select :
      (name column : String) (pieces : List (ℕ × List (Dict String (Cell K)))) (values : List K)
      {index : Dict String (Indexer K)}
      → build_rowgroup_index characters (single (fresh_indexer name column) ∷ []) pieces ≡ ok index
      → (groups : List ℕ) × (select_row_groups name values index ≡ ok groups)
        × ((p : ℕ) → contains p groups ≡ any (λ v. some_piece_has column v p pieces) values)
  build-select name column pieces values {index} h =
      let (result, one, named) = build-One name column pieces h in
      subst
        (λ d.
          (groups : List ℕ) × (select_row_groups name values d ≡ ok groups)
          × ((p : ℕ) → contains p groups ≡ any (λ v. some_piece_has column v p pieces) values))
        named
        (select-One name values (fresh_indexer name column)
          (λ v p. some_piece_has column v p pieces) result refl refl one)
