-- ===== src/TfUtils/ByName.antt =====
-- Named tuples whose fields are given by their names (dataset_toolkit/tf_utils.py).
use code_assist_analyzer.Prelude.{
  ℕ, zero, suc, ◌+◌, ◌*◌, ◌<◌, true, false, some, List, [], ◌∷◌, all, All, length, take, drop,
  String, string_eq, ==-cases, ==-refl, ==-sym, ◌≡◌, refl, sym, ap, subst, ◌∙◌, inl, inr, arith, ok,
  >>=-of_ok,
}
use code_assist_analyzer.Prelude.Dict.{Dict, keys, get}
use code_assist_analyzer.Prelude.Numerals.{str, str-injective}
use code_assist_analyzer.Prelude.PySet.{contains}
use code_assist_analyzer.Sequence.{enumerate_from}
use code_assist_analyzer.TfUtils.{tuple_names, named, make_namedtuple, make_timesteps, kargs_of}
use code_assist_analyzer.TfUtils.Names.{Apart}
use code_assist_analyzer.Unischema.{Unischema}

drop-nil : {A : Type 0} (n : ℕ) → drop {A = A} n [] ≡ []
drop-nil zero = refl
drop-nil (suc n) = refl

take-nil : {A : Type 0} (n : ℕ) → take {A = A} n [] ≡ []
take-nil zero = refl
take-nil (suc n) = refl

no_slice : {A : Type 0} (n m : ℕ) → take {A = A} n (drop m []) ≡ []
no_slice n m = ap (take n) (drop-nil m) ∙ take-nil n

all-contains-cons :
    (x : String) (names ns : List String)
    → all (λ n. contains n names) ns ≡ true
    → all (λ n. contains n (x ∷ names)) ns ≡ true
unfolding all contains
all-contains-cons x names [] h = refl
all-contains-cons x names (n ∷ ns) h = ground (arith, all-contains-cons x names ns)

all-contains : (names : List String) → all (λ n. contains n names) names ≡ true
unfolding all contains
all-contains [] = refl
all-contains (x ∷ names) = rw (==-refl x) (all-contains-cons x names names (all-contains names))

module _ {V : Type 0} where
  -- each name of the row is bound to its value
  abbrev Found : Dict String V → Dict String V → Type 0
  Found [] d = Unit
  Found ((k, v) ∷ row) d = (get k d ≡ some v) × Found row d

  Found-cons :
      (k : String) (v : V) (row d : Dict String V)
      → contains k (keys row) ≡ false
      → Found row d
      → Found row ((k, v) ∷ d)
  unfolding get contains
  Found-cons k v [] d new found = tt
  Found-cons k v ((j, w) ∷ row) d new found = elim (==-cases k j) [
    | inl (same, e) ↦ ground (arith, ==-sym k j)
    | inr (different, e) ↦ (rw e found.0, Found-cons k v row d (ground arith) found.1)
  ]

  Found-self : (row : Dict String V) → Apart (keys row) → Found row row
  unfolding get
  Found-self [] apart = tt
  Found-self ((k, v) ∷ row) apart =
      (rw (==-refl k) refl, Found-cons k v row row apart.0 (Found-self row apart.1))

  named-Found : (row d : Dict String V) → Found row d → named (keys row) [] d ≡ ok row
  unfolding named
  named-Found [] d found = refl
  named-Found ((k, v) ∷ row) d found =
      rw (named, found.0) (>>=-of_ok (named (keys row) [] d) _ (named-Found row d found.1) refl)

  pub make_namedtuple_by_name :
      (names : List String) (row : Dict String V)
      → Apart names
      → keys row ≡ names
      → make_namedtuple names [] row ≡ ok row
  unfolding make_namedtuple
  make_namedtuple_by_name names row apart e =
      subst (λ ns. make_namedtuple ns [] row ≡ ok row) e
        (rw (all-contains (keys row))
          (named-Found row row (Found-self row (subst Apart (sym e) apart))))

  -- the rows under the texts of their timesteps
  abbrev pub texts : ℕ → List (Dict String V) → Dict String (Dict String V)
  texts timestep [] = []
  texts timestep (row ∷ rows) = (str timestep, row) ∷ texts (suc timestep) rows

  abbrev pub Stored : ℕ → List (Dict String V) → Dict String (Dict String V) → Type 0
  Stored timestep [] d = Unit
  Stored timestep (row ∷ rows) d = (get (str timestep) d ≡ some row) × Stored (suc timestep) rows d

  Stored-cons :
      (n timestep : ℕ) (row : Dict String V) (rows : List (Dict String V))
      (d : Dict String (Dict String V))
      → n < timestep
      → Stored timestep rows d
      → Stored timestep rows ((str n, row) ∷ d)
  unfolding get
  Stored-cons n timestep row [] d h stored = tt
  Stored-cons n timestep row (r ∷ rows) d h stored = elim (==-cases (str n) (str timestep)) [
    | inl (same, e) ↦ absurd (omega (arith, str-injective n timestep same))
    | inr (different, e) ↦
        (rw e stored.0, Stored-cons n (suc timestep) row rows d (omega arith) stored.1)
  ]

  pub Stored-texts :
      (timestep : ℕ) (rows : List (Dict String V)) → Stored timestep rows (texts timestep rows)
  unfolding get
  Stored-texts timestep [] = tt
  Stored-texts timestep (row ∷ rows) = (
    rw (==-refl (str timestep)) refl,
    Stored-cons timestep (suc timestep) row rows (texts (suc timestep) rows) (omega arith)
        (Stored-texts (suc timestep) rows),
  )

module _ {Codec V : Type 0} (schema : Unischema Codec) where
  pub make_timesteps-Stored :
      (rows : List (Dict String V)) (timestep : ℕ) (d : Dict String (Dict String V))
      → Apart (tuple_names schema)
      → Stored timestep rows d
      → All (λ row. keys row ≡ tuple_names schema) rows
      → make_timesteps schema timestep (length rows) [] d ≡ ok (enumerate_from timestep rows)
  unfolding make_timesteps enumerate_from
  make_timesteps-Stored [] timestep d apart stored rows_named = refl
  make_timesteps-Stored (row ∷ rows) timestep d apart stored rows_named =
      let fields_length = length schema.fields in
      >>=-of_ok
        (make_namedtuple (tuple_names schema)
          (take fields_length (drop (timestep * fields_length) [])) (kargs_of d timestep))
        _
        (rw (kargs_of, stored.0)
          (ap (λ vs. make_namedtuple (tuple_names schema) vs row)
              (no_slice fields_length (timestep * fields_length))
            ∙ make_namedtuple_by_name (tuple_names schema) row apart rows_named.0))
        (>>=-of_ok (make_timesteps schema (timestep + 1) (length rows) [] d) _
          (make_timesteps-Stored rows (timestep + 1) d apart
            (subst (λ k. Stored k rows d) {x = suc timestep} (omega arith) stored.1) rows_named.1)
          (ap (λ k. ok ((timestep, row) ∷ enumerate_from k rows)) {x = timestep + 1} (omega arith)))
