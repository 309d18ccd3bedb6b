-- ===== src/Reader/Worker/Masks.antt =====
-- What a mask keeps of a list of rows (dataset_toolkit/reader.py).
use code_assist_analyzer.Prelude.{
  Bool, true, false, List, [], ◌∷◌, map, any, filter, String, string_eq, Result, ok, ◌>>=◌, ◌≡◌,
  refl, ap, ◌∙◌, inl, inr, Bool-cases, arith,
}
use code_assist_analyzer.Prelude.Dict.{Dict}
use code_assist_analyzer.Prelude.PySet.{contains}
use code_assist_analyzer.Reader.Worker.{Row, masked, each, is_empty}
use code_assist_analyzer.Reader.Worker.Rows.{SameRow}

-- two lists of rows with the same values
abbrev pub SameRows : {V : Type 0} → List (Dict String V) → List (Dict String V) → Type 0
SameRows [] [] = Unit
SameRows [] (b ∷ bs) = ⊥
SameRows (a ∷ rest) [] = ⊥
SameRows (a ∷ rest) (b ∷ bs) = SameRow a b × SameRows rest bs

pub is_empty-contains : (c : String) (xs : List String) → is_empty xs ≡ true → contains c xs ≡ false
unfolding contains
is_empty-contains c [] h = refl
is_empty-contains c (x ∷ xs) h = cc

pub each-cons :
    {A B : Type 0} (g : A → Result B) (x : A) (xs : List A) {y : B} {ys : List B}
    → g x ≡ ok y
    → each g xs ≡ ok ys
    → each g (x ∷ xs) ≡ ok (y ∷ ys)
unfolding each
each-cons g x xs {y} {ys} h hs =
    ap (λ r. r >>= (λ b. each g xs >>= (λ bs. ok (b ∷ bs)))) h
    ∙ ap (λ r. r >>= (λ bs. ok (y ∷ bs))) hs

pub masked-kept :
    {A : Type 0} (x : A) (xs : List A) (b : Bool) (mask : List Bool) {ys : List A}
    → b ≡ true
    → masked xs mask ≡ ok ys
    → masked (x ∷ xs) (b ∷ mask) ≡ ok (x ∷ ys)
unfolding masked
masked-kept x xs b mask kept h = rw (masked, kept, h) refl

pub masked-dropped :
    {A : Type 0} (x : A) (xs : List A) (b : Bool) (mask : List Bool) {ys : List A}
    → b ≡ false
    → masked xs mask ≡ ok ys
    → masked (x ∷ xs) (b ∷ mask) ≡ ok ys
unfolding masked
masked-dropped x xs b mask dropped h = rw (masked, dropped, h) refl

-- what a mask without a row keeps
pub filter-none :
    {V : Type 0} (include : Row V → Bool) (full : List (Row V))
    → any (λ b. b) (map include full) ≡ false
    → SameRows [] (filter include full)
unfolding any filter
filter-none include [] h = tt
filter-none include (f ∷ full) h = elim (Bool-cases (include f)) [
  | inl included ↦ absurd (ground arith)
  | inr excluded ↦ rw (filter, excluded) (filter-none include full (ground arith))
]
