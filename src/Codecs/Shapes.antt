-- ===== src/Codecs/Shapes.antt =====
-- What the shape check of dataset_toolkit/codecs.py accepts.
use code_assist_analyzer.Prelude.{
  ℕ, zero, suc, true, Option, none, some, List, [], ◌∷◌, length, get_elem?, ◌≡◌, refl, ap, subst,
  All, ◌≢◌, ◌↔◌, arith,
}
use code_assist_analyzer.Codecs.{is_compliant_shape, compliant_dimensions, compliant_dimension}

-- wherever both shapes have a dimension that is neither None nor 0, they agree
abbrev pub AgreeWhereKnown : List ℕ → List (Option ℕ) → Type 0
AgreeWhereKnown a b =
    (i n m : ℕ) → get_elem? a i ≡ some n → get_elem? b i ≡ some (some m) → n ≢ 0 → m ≢ 0 → n ≡ m

dimension-agrees : (n m : ℕ) → compliant_dimension n (some m) ≡ true → n ≢ 0 → m ≢ 0 → n ≡ m
unfolding compliant_dimension
dimension-agrees n m h n0 m0 = ground arith

agrees-dimension : (n m : ℕ) → (n ≢ 0 → m ≢ 0 → n ≡ m) → compliant_dimension n (some m) ≡ true
unfolding compliant_dimension
agrees-dimension n m h = ground arith

dimensions-agree :
    (a : List ℕ) (b : List (Option ℕ)) → compliant_dimensions a b ≡ true → AgreeWhereKnown a b
unfolding compliant_dimensions
dimensions-agree [] b h i n m at_a at_b n0 m0 = cc
dimensions-agree (x ∷ a) [] h i n m at_a at_b n0 m0 = cc
dimensions-agree (x ∷ a) (none ∷ b) h zero n m at_a at_b n0 m0 = cc
dimensions-agree (x ∷ a) (some y ∷ b) h zero n m at_a at_b n0 m0 =
    ground (arith, dimension-agrees x y)
dimensions-agree (x ∷ a) (y ∷ b) h (suc i) n m at_a at_b n0 m0 =
    dimensions-agree a b (ground arith) i n m at_a at_b n0 m0

agree-dimensions :
    (a : List ℕ) (b : List (Option ℕ)) → AgreeWhereKnown a b → compliant_dimensions a b ≡ true
unfolding compliant_dimensions compliant_dimension
agree-dimensions [] b h = refl
agree-dimensions (n ∷ a) [] h = refl
agree-dimensions (n ∷ a) (none ∷ b) h =
    agree-dimensions a b (λ i k m at_a at_b. h (suc i) k m at_a at_b)
agree-dimensions (n ∷ a) (some m ∷ b) h =
    rw (agrees-dimension n m (h 0 n m refl refl))
      (agree-dimensions a b (λ i k l at_a at_b. h (suc i) k l at_a at_b))

-- the shape check on every shape: a dimension that is 0 in either is ignored, too
compliant_iff :
    (a : List ℕ) (b : List (Option ℕ))
    → (is_compliant_shape a b ≡ true) ↔ ((length a ≡ length b) × AgreeWhereKnown a b)
unfolding is_compliant_shape
compliant_iff a b = (
  λ h. (ground arith, dimensions-agree a b (ground arith)),
  λ h. ground (arith, agree-dimensions a b h.1, h.0),
)

-- a dimension of an array, and of a field where it is known, that is not 0
abbrev pub NoneEmpty : List ℕ → List (Option ℕ) → Type 0
NoneEmpty a b = All (λ n. n ≢ 0) a × All (λ m. m ≢ some 0) b

-- wherever the size of the field's dimension is not None, the array has this size
abbrev pub Agree : List ℕ → List (Option ℕ) → Type 0
Agree a b = (i n m : ℕ) → get_elem? a i ≡ some n → get_elem? b i ≡ some (some m) → n ≡ m

All-at :
    {A : Type 0} (P : A → Type 0) (xs : List A) (i : ℕ) {x : A}
    → All P xs
    → get_elem? xs i ≡ some x
    → P x
All-at P [] i all_hold h = cc
All-at P (y ∷ xs) zero all_hold h = subst P (ground arith) all_hold.0
All-at P (y ∷ xs) (suc i) all_hold h = All-at P xs i all_hold.1 h

-- Where no dimension of the array, and none that is known of the field, has the size 0, the shape check
-- accepts the shape of the array exactly when it has as many dimensions as the field's, and the same size
-- in each dimension of the field that is not None.
pub is_compliant_shape_iff :
    (a : List ℕ) (b : List (Option ℕ))
    → NoneEmpty a b
    → (is_compliant_shape a b ≡ true) ↔ ((length a ≡ length b) × Agree a b)
is_compliant_shape_iff a b (array, field) = (
  λ h.
      let (same, agree) = (compliant_iff a b).0 h in
      (
        same,
        λ i n m at_a at_b.
            agree i n m at_a at_b (All-at (λ k. k ≢ 0) a i {x = n} array at_a) (λ zero_size.
              All-at (λ k. k ≢ some 0) b i {x = some m} field at_b (ap some zero_size)),
      ),
  λ (same, agree). (compliant_iff a b).1 (same, λ i n m at_a at_b n0 m0. agree i n m at_a at_b),
)
