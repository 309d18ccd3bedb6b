-- ===== src/Metadata/Pieces.antt =====
-- The row groups that the loops of `load_rowgroup_split` list (dataset_toolkit/etl/dataset_metadata.py).
use code_assist_analyzer.Prelude.{
  All, ℕ, zero, suc, ◌+◌, Bool, true, false, ◌&&◌, ◌||◌, any, ltb, nat_eq, leb, nat_beq, Option,
  none, some, List, [], ◌∷◌, ◌++◌, String, string_eq, ◌==◌, ==-cases, ==-refl, if◌then◌else◌, ok,
  ◌>>=◌, >>=-eq-ok, ok-injective, ◌≡◌, refl, sym, ap, subst, ◌∙◌, inl, inr, Option-cases, arith,
}
use code_assist_analyzer.Prelude.Dict.{Dict, get, put, get-put}
use code_assist_analyzer.Metadata.{
  FilePiece, Piece, row_group_pieces, split_files, count_row_groups,
}

any-append :
    {A : Type 0} (p : A → Bool) (xs ys : List A) → any p (xs ++ ys) ≡ (any p xs || any p ys)
unfolding any
any-append p [] ys = refl
any-append p (x ∷ xs) ys = ground (arith, any-append p xs ys)

-- the test for a row group of a file
abbrev pub is_row_group : String → ℕ → Piece → Bool
is_row_group path g p = (p.path == path) && nat_beq p.row_group g

any-row_group_pieces :
    (file : FilePiece) (start count : ℕ) (path : String) (g : ℕ)
    → any (is_row_group path g) (row_group_pieces file start count)
      ≡ ((file.path == path) && (leb start g && ltb g (start + count)))
unfolding any row_group_pieces
any-row_group_pieces file start zero path g = ground arith
any-row_group_pieces file start (suc count) path g =
    ground (arith, any-row_group_pieces file (suc start) count path g)

-- the count of a file, 0 where it has none
abbrev pub count_of : Option ℕ → ℕ
count_of none = 0
count_of (some n) = n

count_here :
    (key : String → String) (d : Dict String ℕ) (file_path path : String) (count g : ℕ) {a b : Bool}
    (rest : Bool)
    → get (key file_path) d ≡ some count
    → a ≡ ((file_path == path) && (leb 0 g && ltb g (0 + count)))
    → b ≡ (rest && ltb g (count_of (get (key path) d)))
    → (a || b) ≡ (((file_path == path) || rest) && ltb g (count_of (get (key path) d)))
count_here key d file_path path count g {a} {b} rest there first others =
    elim (==-cases file_path path) [
      | inr (_, other) ↦ ground (arith, first, others, other)
      | inl (same, h) ↦
          let counted : count_of (get (key path) d) ≡ count =
            ap (λ p. count_of (get (key p) d)) (sym same) ∙ ap count_of there in
          ground (arith, first, others, h, counted)
    ]

pub any-split_files :
    (row_groups_key : String → String) (d : Dict String ℕ) (files : List FilePiece)
    {pieces : List Piece} (path : String) (g : ℕ)
    → split_files row_groups_key d files ≡ ok pieces
    → any (is_row_group path g) pieces
      ≡ (any (λ f. f.path == path) files && ltb g (count_of (get (row_groups_key path) d)))
unfolding any split_files
any-split_files key d [] path g done = ap (any (is_row_group path g)) (sym (ok-injective done))
any-split_files key d (file ∷ files) {pieces} path g done =
    elim (Option-cases (get (key file.path) d)) [
      | inl missing ↦ absurd (ground arith)
      | inr (count, there) ↦
          let done' : (split_files key d files
                >>= (λ rest. ok (row_group_pieces file 0 count ++ rest)))
              ≡ ok pieces =
            sym (rw (split_files, there) refl) ∙ done in
          let (rest, splits, joined) =
            >>=-eq-ok (split_files key d files) _ {returned = pieces} done' in
          ap (any (is_row_group path g)) (sym (ok-injective joined))
          ∙ any-append (is_row_group path g) (row_group_pieces file 0 count) rest
          ∙ count_here key d file.path path count g (any (λ f. f.path == path) files) there
              (any-row_group_pieces file 0 count path g) (any-split_files key d files path g splits)
    ]

if_same : {A : Type 0} {a : A} (b : Bool) → (if b then a else a) ≡ a
if_same true = refl
if_same false = refl

-- the loop of the counts, for a path whose key no file under another path has
pub get-count_row_groups :
    (relpath : String → String) (num_row_groups : String → ℕ) (files : List FilePiece)
    (d : Dict String ℕ) (path : String)
    → All (λ f. relpath f.path ≡ relpath path → f.path ≡ path) files
    → get (relpath path) (count_row_groups relpath num_row_groups files d) ≡ (
        if any (λ f. f.path == path) files
        then some (num_row_groups path)
        else get (relpath path) d)
unfolding any count_row_groups
get-count_row_groups relpath num [] d path apart = refl
get-count_row_groups relpath num (file ∷ files) d path apart =
    get-count_row_groups relpath num files (put (relpath file.path) (num file.path) d) path apart.1
    ∙ elim (==-cases file.path path) [
      | inl (same, h) ↦
          rw
            (
              h,
              get-put (relpath file.path) (relpath path) (num file.path) d,
              same,
              ==-refl (relpath path),
            )
            (if_same (any (λ f. f.path == path) files))
      | inr (differs, h) ↦ elim (==-cases (relpath file.path) (relpath path)) [
        | inl (clash, _) ↦ absurd (differs (apart.0 clash))
        | inr (_, h') ↦
            rw (h, get-put (relpath file.path) (relpath path) (num file.path) d, h') refl
      ]
    ]

-- the loop of `load_rowgroup_split` ends when every file has its count
pub split_files-total :
    (key : String → String) (d : Dict String ℕ) (files : List FilePiece)
    → ((path : String)
        → any (λ f. f.path == path) files ≡ true
        → (n : ℕ) × (get (key path) d ≡ some n))
    → (pieces : List Piece) × (split_files key d files ≡ ok pieces)
unfolding any split_files
split_files-total key d [] counted = ([], refl)
split_files-total key d (file ∷ files) counted =
    let (n, there) = counted file.path (ground (arith, ==-refl file.path)) in
    let (rest, splits) =
      split_files-total key d files (λ path listed. counted path (ground arith)) in
    (row_group_pieces file 0 n ++ rest, rw (split_files, there, splits) refl)

-- the files have their keys apart, each from the others
abbrev pub KeysApart : (String → String) → List FilePiece → Type 0
KeysApart relpath files =
    All (λ f. All (λ g. relpath g.path ≡ relpath f.path → g.path ≡ f.path) files) files

pub listed-apart :
    (relpath : String → String) (files others : List FilePiece) (path : String)
    → any (λ f. f.path == path) others ≡ true
    → All (λ f. All (λ g. relpath g.path ≡ relpath f.path → g.path ≡ f.path) files) others
    → All (λ g. relpath g.path ≡ relpath path → g.path ≡ path) files
unfolding any
listed-apart relpath files [] path listed apart = cc
listed-apart relpath files (file ∷ others) path listed apart = elim (==-cases file.path path) [
  | inl (same, h) ↦
      subst (λ p. All (λ g. relpath g.path ≡ relpath p → g.path ≡ p) files) same apart.0
  | inr (_, h) ↦ listed-apart relpath files others path (ground arith) apart.1
]
