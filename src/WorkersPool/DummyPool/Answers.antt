-- ===== src/WorkersPool/DummyPool/Answers.antt =====
-- What `get_results` of a DummyPool answers, call after call
-- (dataset_toolkit/workers_pool/dummy_pool.py).
use code_assist_analyzer.Prelude.{
  ℕ, zero, suc, Bool, true, false, List, [], ◌∷◌, ◌++◌, map, length, ◌≡◌, refl, sym, ap, subst,
  append-nil_lem, append-assoc_lem, ◌∙◌,
}
use code_assist_analyzer.WorkersPool.ThreadPool.{GetResults, returned, raised, empty_result_error}
use code_assist_analyzer.WorkersPool.DummyPool.{
  DummyPool, init, ventilate, process_items, get_results,
}

module _ {Item R : Type 0} where
  unfoldable pub ventilate_all : List Item → DummyPool Item R → DummyPool Item R
  unfolding ventilate
  ventilate_all [] pool = pool
  ventilate_all (item ∷ items) pool = ventilate_all items (ventilate item pool)

  ventilate_all-queues :
      (items : List Item) (pool : DummyPool Item R)
      → ((ventilate_all items pool).results_queue ≡ pool.results_queue)
        × ((ventilate_all items pool).ventilator_queue ≡ pool.ventilator_queue ++ items)
  unfolding ventilate_all ventilate
  ventilate_all-queues [] pool = (refl, sym (append-nil_lem pool.ventilator_queue))
  ventilate_all-queues (item ∷ items) pool =
      let (results, queue) = ventilate_all-queues items (ventilate item pool) in
      (results, queue ∙ append-assoc_lem pool.ventilator_queue (item ∷ []) items)

  module _ (process : Item → List R × Bool) where
    -- the answers of this many calls
    unfoldable pub read : ℕ → DummyPool Item R → List (GetResults R)
    unfolding get_results
    read zero pool = []
    read (suc n) pool = let (next, answer) = get_results process pool in answer ∷ read n next

    -- the answers for an item: the exception comes before the results published ahead of it
    pub item_answers : List R → Bool → List (GetResults R)
    item_answers published true = raised ∷ map returned published
    item_answers published false = map returned published

    pub answers : List Item → List (GetResults R)
    unfolding item_answers
    answers [] = []
    answers (item ∷ items) = item_answers (process item).0 (process item).1 ++ answers items

    all_answers : DummyPool Item R → List (GetResults R)
    all_answers pool = map returned pool.results_queue ++ answers pool.ventilator_queue

    -- one call: the first of the answers is given, or there is none
    Reads : DummyPool Item R × GetResults R → List (GetResults R) → Type 0
    Reads outcome [] = outcome.1 ≡ empty_result_error
    Reads outcome (a ∷ later) = (outcome.1 ≡ a) × (all_answers outcome.0 ≡ later)

    process_items-Reads : (items : List Item) → Reads (process_items process items) (answers items)
    unfolding process_items answers item_answers Reads all_answers
    process_items-Reads [] = refl
    process_items-Reads (item ∷ items) =
        by_outcome (process item).0 (process item).1 (process_items-Reads items)
      where
        by_outcome :
            (published : List R) (raises : Bool)
            → Reads (process_items process items) (answers items)
            → Reads
                (elim raises as (λ _. DummyPool Item R × GetResults R) [
                  | true ↦ (record { ventilator_queue = items; results_queue = published }, raised)
                  | false ↦ elim published as (λ _. DummyPool Item R × GetResults R) [
                    | [] ↦ process_items process items
                    | result ∷ rest ↦
                        (record { ventilator_queue = items; results_queue = rest }, returned result)
                  ]
                ])
                (item_answers published raises ++ answers items)
        by_outcome published true later = (refl, refl)
        by_outcome [] false later = later
        by_outcome (result ∷ rest) false later = (refl, refl)

    get_results-Reads :
        (pool : DummyPool Item R) → Reads (get_results process pool) (all_answers pool)
    unfolding get_results Reads all_answers
    get_results-Reads pool = by_queue pool.results_queue
      where
        by_queue :
            (queue : List R)
            → Reads
                (elim queue as (λ _. DummyPool Item R × GetResults R) [
                  | [] ↦ process_items process pool.ventilator_queue
                  | result ∷ rest ↦ (record pool { results_queue = rest }, returned result)
                ])
                (map returned queue ++ answers pool.ventilator_queue)
        by_queue [] = process_items-Reads pool.ventilator_queue
        by_queue (result ∷ rest) = (refl, refl)

    read-all_answers :
        (expected : List (GetResults R)) (pool : DummyPool Item R)
        → all_answers pool ≡ expected
        → read (suc (length expected)) pool ≡ expected ++ empty_result_error ∷ []
    unfolding read Reads
    read-all_answers [] pool is =
        let reads = subst (Reads (get_results process pool)) is (get_results-Reads pool) in
        ap (λ answer. answer ∷ []) reads
    read-all_answers (a ∷ later) pool is =
        let reads = subst (Reads (get_results process pool)) is (get_results-Reads pool) in
        ap (λ answer. answer ∷ read (suc (length later)) (get_results process pool).0) reads.0
        ∙ ap (◌∷◌ a) (read-all_answers later (get_results process pool).0 reads.1)

    -- Items ventilated to a new pool and then read: `get_results` answers, call after call, with the
    -- results of the items in the order of the items; an item whose `process` raises gives the exception,
    -- and then the results it published. The next call finds the pool empty.
    pub read-ventilate_all :
        (items : List Item)
        → read (suc (length (answers items))) (ventilate_all items init)
          ≡ answers items ++ empty_result_error ∷ []
    unfolding all_answers init
    read-ventilate_all items =
        let (results, queue) = ventilate_all-queues items init in
        read-all_answers (answers items) (ventilate_all items init) (
          ap (λ rs. map returned rs ++ answers (ventilate_all items init).ventilator_queue) results
          ∙ ap answers queue)
