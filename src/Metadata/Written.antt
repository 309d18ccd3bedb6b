-- ===== src/Metadata/Written.antt =====
-- A dataset to which `add_dataset_metadata` added its metadata, when it is opened again
-- (dataset_toolkit/etl/dataset_metadata.py).
use code_assist_analyzer.Prelude.{
  ℕ, Bool, true, false, ◌&&◌, any, ltb, Option, none, some, List, [], String, string_eq, ◌==◌,
  Result, ok, raise, value_error, ◌>>=◌, >>=-eq-ok, ok-injective, ◌≡◌, refl, sym, ap, ◌∙◌,
}
use code_assist_analyzer.Prelude.Dict.{Dict, get, put, get-put}
use code_assist_analyzer.Prelude.Sorted.{sort_by, any-sort_by}
use code_assist_analyzer.Metadata.{
  FilePiece, Piece, Dataset, row_groups_per_file_key, unischema_key, load_rowgroup_split,
  get_schema, with_metadata_file, split_files, count_row_groups, base_metadata,
  add_to_dataset_metadata, generate_num_row_groups_per_file_metadata, generate_unischema_metadata,
  add_dataset_metadata, reopen,
}
use code_assist_analyzer.Metadata.Pieces.{
  is_row_group, count_of, KeysApart, listed-apart, any-split_files, get-count_row_groups,
  split_files-total,
}

-- the check that a dataset has one path
when_one_path :
    {A : Type 0} (paths : Option String) (rest : Result A) {a : A}
    → elim paths as (λ _. Result A) [ none ↦ raise value_error | some path ↦ rest ] ≡ ok a
    → rest ≡ ok a
when_one_path none rest h = cc
when_one_path (some path) rest h = h

listed_count :
    (listed : Bool) (n g : ℕ) (o : Option ℕ)
    → (listed ≡ true → o ≡ some n)
    → (listed && ltb g (count_of o)) ≡ (listed && ltb g n)
listed_count false n g o h = refl
listed_count true n g o h = rw (h refl) refl

module _ {Schema : Type 0} (footer : FilePiece → Dict String String)
    (json_dumps : Dict String ℕ → String) (dumps : Schema → String) (relpath : String → String)
    (num_row_groups : String → ℕ) where
  -- adding to the metadata writes the file, with what it had before
  add-written :
      (key value : String) (d : Dataset) {d' : Dataset}
      → add_to_dataset_metadata footer key value d ≡ ok d'
      → (metadata : Dict String String) × (base_metadata footer d ≡ ok metadata)
        × (d' ≡ with_metadata_file (put key value metadata) d)
  unfolding add_to_dataset_metadata
  add-written key value d {d'} done =
      let one_path =
        when_one_path d.paths
          (base_metadata footer d
            >>= (λ metadata. ok (with_metadata_file (put key value metadata) d)))
          done in
      let (metadata, base, written) =
        >>=-eq-ok (base_metadata footer d) _ {returned = d'} one_path in
      (metadata, base, sym (ok-injective written))

  counts : Dataset → Dict String ℕ
  counts d = count_row_groups relpath num_row_groups d.pieces []

  generate-written :
      (d : Dataset) {d' : Dataset}
      → generate_num_row_groups_per_file_metadata footer json_dumps relpath num_row_groups d ≡ ok d'
      → add_to_dataset_metadata footer row_groups_per_file_key (json_dumps (counts d)) d ≡ ok d'
  unfolding generate_num_row_groups_per_file_metadata counts
  generate-written d done =
      when_one_path d.paths
        (add_to_dataset_metadata footer row_groups_per_file_key (json_dumps (counts d)) d) done

  -- both entries are in the file at the end
  all-written :
      (schema : Schema) (d : Dataset) {d' : Dataset}
      → add_dataset_metadata footer json_dumps dumps relpath num_row_groups schema d ≡ ok d'
      → (metadata : Dict String String) × (d'
          ≡ with_metadata_file
              (put unischema_key
                (dumps schema)
                (put row_groups_per_file_key (json_dumps (counts d)) metadata))
              d)
  unfolding add_dataset_metadata generate_unischema_metadata base_metadata
  all-written schema d {d'} done =
      let (d1, first, second) =
        >>=-eq-ok
          (generate_num_row_groups_per_file_metadata footer json_dumps relpath num_row_groups d) _
          {returned = d'} done in
      let (metadata, _, written1) =
        add-written row_groups_per_file_key (json_dumps (counts d)) d (generate-written d first) in
      let (metadata2, base2, written2) = add-written unischema_key (dumps schema) d1 second in
      let base_is = ok-injective (sym base2 ∙ ap (base_metadata footer) written1) in
      (
        metadata,
        written2
            ∙ ap (λ m. with_metadata_file (put unischema_key (dumps schema) m) d1) base_is
            ∙ ap
                (λ x.
                  with_metadata_file
                    (put unischema_key (dumps schema)
                      (put row_groups_per_file_key (json_dumps (counts d)) metadata))
                    x)
                written1,
      )

  load-written :
      (json_loads : String → Result (Dict String ℕ)) (schema : Schema) (d : Dataset)
      (metadata : Dict String String)
      → json_loads (json_dumps (counts d)) ≡ ok (counts d)
      → load_rowgroup_split json_loads relpath (
          reopen (
            with_metadata_file
              (put unischema_key
                (dumps schema)
                (put row_groups_per_file_key (json_dumps (counts d)) metadata))
              d))
        ≡ split_files relpath (counts d) (sort_by (λ p. p.path) d.pieces)
  unfolding load_rowgroup_split
  load-written json_loads schema d metadata inverse =
      rw
        (
          load_rowgroup_split,
          get-put unischema_key row_groups_per_file_key (dumps schema)
              (put row_groups_per_file_key (json_dumps (counts d)) metadata),
          get-put row_groups_per_file_key row_groups_per_file_key (json_dumps (counts d)) metadata,
        )
        (rw inverse refl)

  schema-written :
      (loads : String → Result Schema) (schema : Schema) (d : Dataset)
      (metadata : Dict String String)
      → loads (dumps schema) ≡ ok schema
      → get_schema loads (
          reopen (
            with_metadata_file
              (put unischema_key
                (dumps schema)
                (put row_groups_per_file_key (json_dumps (counts d)) metadata))
              d))
        ≡ ok schema
  unfolding get_schema
  schema-written loads schema d metadata inverse =
      rw
        (
          get_schema,
          get-put unischema_key unischema_key (dumps schema)
              (put row_groups_per_file_key (json_dumps (counts d)) metadata),
        )
        inverse

  pub load-add_dataset_metadata :
      (json_loads : String → Result (Dict String ℕ)) (loads : String → Result Schema)
      (schema : Schema) (d : Dataset) {d' : Dataset}
      → json_loads (json_dumps (count_row_groups relpath num_row_groups d.pieces []))
        ≡ ok (count_row_groups relpath num_row_groups d.pieces [])
      → loads (dumps schema) ≡ ok schema
      → KeysApart relpath d.pieces
      → add_dataset_metadata footer json_dumps dumps relpath num_row_groups schema d ≡ ok d'
      → (get_schema loads (reopen d') ≡ ok schema)
        × (pieces : List Piece) × (load_rowgroup_split json_loads relpath (reopen d') ≡ ok pieces)
        × ((path : String) (g : ℕ)
            → any (is_row_group path g) pieces
              ≡ (any (λ f. f.path == path) d.pieces && ltb g (num_row_groups path)))
  unfolding counts get
  load-add_dataset_metadata json_loads loads schema d json_inverse inverse apart done =
      let (metadata, written) = all-written schema d done in
      let counted = (λ (path : String) (listed : any (λ f. f.path == path) d.pieces ≡ true).
        get-count_row_groups relpath num_row_groups d.pieces [] path
          (listed-apart relpath d.pieces d.pieces path listed apart)
        ∙ rw listed refl) in
      let files = sort_by (λ p. p.path) d.pieces in
      let (pieces, splits) = split_files-total relpath (counts d) files (λ path listed. (
        num_row_groups path,
        counted path (sym (any-sort_by (λ p. p.path) (λ f. f.path == path) d.pieces) ∙ listed),
      )) in
      (
        ap (λ x. get_schema loads (reopen x)) written
            ∙ schema-written loads schema d metadata inverse,
        pieces,
        ap (λ x. load_rowgroup_split json_loads relpath (reopen x)) written
            ∙ load-written json_loads schema d metadata json_inverse
            ∙ splits,
        λ path g.
            any-split_files relpath (counts d) files path g splits
            ∙ ap (λ b. b && ltb g (count_of (get (relpath path) (counts d))))
                (any-sort_by (λ p. p.path) (λ f. f.path == path) d.pieces)
            ∙ listed_count (any (λ f. f.path == path) d.pieces) (num_row_groups path) g
                (get (relpath path) (counts d)) (counted path),
      )
