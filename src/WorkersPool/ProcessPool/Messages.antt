-- ===== src/WorkersPool/ProcessPool/Messages.antt =====
-- The messages of the workers of a process pool (dataset_toolkit/workers_pool/process_pool.py), counted
-- and weighed, and sums over the workers.
use code_assist_analyzer.Prelude.{
  ℕ, zero, suc, ◌+◌, some, List, [], ◌∷◌, ◌++◌, get_elem?, All, ◌≡◌, refl, ap, subst, arith,
}
use code_assist_analyzer.WorkersPool.ThreadPool.{
  Message, result, item_processed, exception, replace,
}

-- the sum of a measure over a list
abbrev pub sum_by : {A : Type 0} → (A → ℕ) → List A → ℕ
sum_by f [] = 0
sum_by f (x ∷ xs) = f x + sum_by f xs

pub sum_by-append :
    {A : Type 0} (f : A → ℕ) (xs ys : List A) → sum_by f (xs ++ ys) ≡ sum_by f xs + sum_by f ys
sum_by-append f [] ys = omega arith
sum_by-append f (x ∷ xs) ys = omega (arith, sum_by-append f xs ys)

pub sum_by-replace :
    {A : Type 0} (f : A → ℕ) (xs : List A) (i : ℕ) (new : A) {old : A}
    → get_elem? xs i ≡ some old
    → sum_by f (replace xs i new) + f old ≡ sum_by f xs + f new
unfolding replace
sum_by-replace f [] i new h = cc
sum_by-replace f (x ∷ xs) zero new {old} h =
    let same : x ≡ old = ground arith in omega (arith, ap f same)
sum_by-replace f (x ∷ xs) (suc i) new {old} h =
    omega (arith, sum_by-replace f xs i new {old = old} h)

pub All-replaced :
    {A : Type 0} (P : A → Type 0) (xs : List A) (i : ℕ) (x : A)
    → P x
    → All P xs
    → All P (replace xs i x)
unfolding replace
All-replaced P [] i x h all_hold = tt
All-replaced P (y ∷ xs) zero x h all_hold = (h, all_hold.1)
All-replaced P (y ∷ xs) (suc i) x h all_hold = (all_hold.0, All-replaced P xs i x h all_hold.1)

pub All-at :
    {A : Type 0} (P : A → Type 0) (xs : List A) (i : ℕ) {x : A}
    → All P xs
    → get_elem? xs i ≡ some x
    → P x
All-at P [] i all_hold h = cc
All-at P (y ∷ xs) zero all_hold h = subst P (ground arith) all_hold.0
All-at P (y ∷ xs) (suc i) all_hold h = All-at P xs i all_hold.1 h

-- the results among messages, by a weight
abbrev pub weigh : {R : Type 0} → (R → ℕ) → List (Message R) → ℕ
weigh f [] = 0
weigh f (result r ∷ ms) = f r + weigh f ms
weigh f (_ ∷ ms) = weigh f ms

abbrev pub reports : {R : Type 0} → List (Message R) → ℕ
reports [] = 0
reports (item_processed ∷ ms) = suc (reports ms)
reports (_ ∷ ms) = reports ms

-- The last message, if there is one, is the report of an item.
abbrev pub Closed : {R : Type 0} → List (Message R) → Type 0
Closed [] = Unit
Closed (item_processed ∷ []) = Unit
Closed (_ ∷ []) = ⊥
Closed (_ ∷ m ∷ ms) = Closed (m ∷ ms)

-- the messages of an item to the last: results, then one report or exception
abbrev pub Ending : {R : Type 0} → List (Message R) → Type 0
Ending [] = ⊥
Ending (result r ∷ ms) = Ending ms
Ending (item_processed ∷ []) = Unit
Ending (exception ∷ []) = Unit
Ending (item_processed ∷ m ∷ ms) = ⊥
Ending (exception ∷ m ∷ ms) = ⊥

pub weigh-append :
    {R : Type 0} (f : R → ℕ) (xs ys : List (Message R))
    → weigh f (xs ++ ys) ≡ weigh f xs + weigh f ys
weigh-append f [] ys = omega arith
weigh-append f (result r ∷ xs) ys = omega (arith, weigh-append f xs ys)
weigh-append f (item_processed ∷ xs) ys = weigh-append f xs ys
weigh-append f (exception ∷ xs) ys = weigh-append f xs ys

pub reports-append :
    {R : Type 0} (xs ys : List (Message R)) → reports (xs ++ ys) ≡ reports xs + reports ys
reports-append [] ys = omega arith
reports-append (item_processed ∷ xs) ys = omega (arith, reports-append xs ys)
reports-append (result r ∷ xs) ys = reports-append xs ys
reports-append (exception ∷ xs) ys = reports-append xs ys

pub append-Closed : {R : Type 0} (xs : List (Message R)) → Closed (xs ++ item_processed ∷ [])
append-Closed [] = tt
append-Closed (x ∷ []) = ground arith
append-Closed (x ∷ y ∷ xs) = append-Closed (y ∷ xs)

pub Closed-rest : {R : Type 0} (m : Message R) (ms : List (Message R)) → Closed (m ∷ ms) → Closed ms
Closed-rest m [] h = tt
Closed-rest m (m' ∷ ms) h = h

-- with no report, there is nothing
pub Closed-nil : {R : Type 0} (ms : List (Message R)) → Closed ms → reports ms ≡ 0 → ms ≡ []
Closed-nil [] h none_reported = refl
Closed-nil (item_processed ∷ ms) h none_reported = absurd (omega (arith, none_reported))
Closed-nil (result r ∷ []) h none_reported = absurd h
Closed-nil (exception ∷ []) h none_reported = absurd h
Closed-nil (result r ∷ m ∷ ms) h none_reported = cc (Closed-nil (m ∷ ms) h none_reported)
Closed-nil (exception ∷ m ∷ ms) h none_reported = cc (Closed-nil (m ∷ ms) h none_reported)
