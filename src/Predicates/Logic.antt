-- ===== src/Predicates/Logic.antt =====
-- in_negate and in_reduce of dataset_toolkit/predicates.py as logic.
use code_assist_analyzer.Prelude.{
  Bool, not, List, [], ◌∷◌, map, any, all, some, String, string_eq, ◌≡◌, refl, Result, ok, raise,
  ◌>>=◌, arith, ◌∙◌, ap, sym,
}
use code_assist_analyzer.Prelude.Dict.{Dict}
use code_assist_analyzer.Prelude.PySet.{union}
use code_assist_analyzer.Predicates.{
  Predicate, in_negate, in_reduce, negated, reduced, include_list, all_predicates, fields_of,
}
use mathlib.Core.List.{foldl}

bind_not :
    (r : Result (List Bool))
    → (r >>= (λ l. ok (any (λ b. b) l)) >>= (λ b. ok (not b)))
      ≡ (r >>= (λ l. ok (not (any (λ b. b) l))))
bind_not (ok l) = refl
bind_not (raise e) = refl

module _ {V : Type 0} where
  -- what a predicate whose constructor may raise answers for a row
  abbrev pub ask : Result (Predicate V) → Dict String V → Result Bool
  ask predicate values = predicate >>= (λ p. p.do_include values)

  abbrev pub fields : Result (Predicate V) → Result (List String)
  fields predicate = predicate >>= (λ p. ok p.get_fields)

  abbrev pub negation : Predicate V → Predicate V
  unfolding negated
  negation p = negated p

  all_predicates-some :
      (f : Predicate V → Predicate V) (ps : List (Predicate V))
      → all_predicates (map (λ p. some (f p)) ps) ≡ some (map f ps)
  unfolding all_predicates
  all_predicates-some f [] = refl
  all_predicates-some f (p ∷ ps) = rw (all_predicates-some f ps)

  all_predicates-some_self :
      (ps : List (Predicate V)) → all_predicates (map (λ p. some p) ps) ≡ some ps
  unfolding all_predicates
  all_predicates-some_self [] = refl
  all_predicates-some_self (p ∷ ps) = rw (all_predicates-some_self ps)

  in_reduce-some :
      (f : Predicate V → Predicate V) (ps : List (Predicate V)) (reduce_func : List Bool → Bool)
      → in_reduce (map (λ p. some (f p)) ps) reduce_func ≡ ok (reduced (map f ps) reduce_func)
  unfolding in_reduce
  in_reduce-some f ps reduce_func = rw (in_reduce, all_predicates-some f ps) refl

  in_reduce-some_self :
      (ps : List (Predicate V)) (reduce_func : List Bool → Bool)
      → in_reduce (map (λ p. some p) ps) reduce_func ≡ ok (reduced ps reduce_func)
  unfolding in_reduce
  in_reduce-some_self ps reduce_func = rw (in_reduce, all_predicates-some_self ps) refl

  fields_of-negated :
      (ps : List (Predicate V)) (acc : List String)
      → foldl (λ fields (p : Predicate V). union fields p.get_fields) acc (map negated ps)
        ≡ foldl (λ fields (p : Predicate V). union fields p.get_fields) acc ps
  unfolding negated
  fields_of-negated [] acc = refl
  fields_of-negated (p ∷ ps) acc = fields_of-negated ps (union acc p.get_fields)

  include_list-negated :
      (ps : List (Predicate V)) (values : Dict String V)
      → (include_list (map negated ps) values >>= (λ l. ok (all (λ b. b) l)))
        ≡ (include_list ps values >>= (λ l. ok (not (any (λ b. b) l))))
  unfolding include_list negated all any
  include_list-negated [] values = refl
  include_list-negated (p ∷ ps) values = ground (arith, include_list-negated ps values)

  -- The negation of "any of the predicates" is "all of their negations": the same answer for every
  -- row, the exception included where a predicate raises one, and the same fields are read.
  pub negate-any :
      (ps : List (Predicate V)) (values : Dict String V)
      → let left = in_reduce (map (λ p. some p) ps) (any (λ b. b)) >>= (λ p. in_negate (some p)) in
        let right = in_reduce (map (λ p. some (negation p)) ps) (all (λ b. b)) in
        (ask left values ≡ ask right values) × (fields left ≡ fields right)
  unfolding in_negate reduced negated fields_of
  negate-any ps values =
      rw (in_reduce-some_self ps (any (λ b. b)), in_reduce-some negated ps (all (λ b. b)))
        (
          bind_not (include_list ps values) ∙ sym (include_list-negated ps values),
          ap ok (sym (fields_of-negated ps [])),
        )
