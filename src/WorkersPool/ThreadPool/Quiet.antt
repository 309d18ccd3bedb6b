-- ===== src/WorkersPool/ThreadPool/Quiet.antt =====
-- When `get_results` of the thread pool says that nothing is left
-- (dataset_toolkit/workers_pool/thread_pool.py).
use code_assist_analyzer.Prelude.{
  ℕ, zero, suc, Bool, true, false, Option, some, List, [], ◌∷◌, length, length-append, get_elem?,
  if◌then◌else◌, All, ◌≡◌, refl, ap, inl, inr, Option-cases, arith,
}
use code_assist_analyzer.WorkersPool.ThreadPool.{
  Message, result, item_processed, exception, ThreadPool, Event, ventilates, works, gets, stops,
  GetResults, empty_result_error, is_empty, idle_workers, receive, start, ventilate, stop,
  no_more_work, get_round, step, run,
}
use code_assist_analyzer.WorkersPool.ThreadPool.Accounted.{
  pending_all, reports, WorkerOk, Accounted, worker_step-Accounted,
}

module _ {Item R : Type 0} where
  -- Nothing waits: no item in the ventilator queue or in a worker's hand, no message in the results queue.
  abbrev pub Quiet : ThreadPool Item R → Type 0
  Quiet pool =
      (pool.ventilator_queue ≡ []) × (pending_all pool.workers ≡ 0) × (pool.results_queue ≡ [])

  pub ventilate-Accounted :
      (item : Item) (pool : ThreadPool Item R) → Accounted pool → Accounted (ventilate item pool)
  unfolding ventilate
  ventilate-Accounted item pool h = record {
    items = omega (arith, h.items, length-append pool.ventilator_queue (item ∷ []));
    last = h.last;
  }

  pub receive-Accounted :
      (pool : ThreadPool Item R) (queue : List (Message R))
      → pool.results_queue ≡ queue
      → Accounted pool
      → Accounted (receive queue pool).0
  unfolding stop
  receive-Accounted pool [] is h = h
  receive-Accounted pool (item_processed ∷ rest) is h = record {
    items = omega (arith, h.items, ap reports is);
    last = h.last;
  }
  receive-Accounted pool (exception ∷ rest) is h = record {
    items = omega (arith, h.items, ap reports is);
    last = h.last;
  }
  receive-Accounted pool (result r ∷ rest) is h = record {
    items = omega (arith, h.items, ap reports is);
    last = h.last;
  }

  get_round-Accounted : (pool : ThreadPool Item R) → Accounted pool → Accounted (get_round pool).0
  unfolding get_round
  get_round-Accounted pool h =
      round (no_more_work pool) (receive pool.results_queue pool)
        (receive-Accounted pool pool.results_queue refl h)
    where
      round :
          (b : Bool) (next : ThreadPool Item R × Option (GetResults R))
          → Accounted next.0
          → Accounted (if b then (pool, some empty_result_error) else next).0
      round true next received = h
      round false next received = received

  pub start-Accounted : (n size : ℕ) → Accounted {Item = Item} {R = R} (start n size)
  unfolding start idle_workers
  start-Accounted n size = record { items = omega (arith, none_pending n); last = all_ok n }
    where
      none_pending : (n : ℕ) → pending_all (idle_workers R n) ≡ 0
      none_pending zero = refl
      none_pending (suc n) = omega (arith, none_pending n)

      all_ok : (n : ℕ) → All (WorkerOk {R = R}) (idle_workers R n)
      all_ok zero = tt
      all_ok (suc n) = (tt, all_ok n)

  -- what an empty results queue and equal counters leave of the account
  no_more_work-Quiet :
      (pool : ThreadPool Item R) → Accounted pool → no_more_work pool ≡ true → Quiet pool
  no_more_work-Quiet pool h done =
      let even : pool.ventilated_items ≡ pool.ventilated_items_processed = ground arith in
      (
        length-zero pool.ventilator_queue (omega (arith, h.items, even)),
        omega (arith, h.items, even),
        empty-nil pool.results_queue (ground arith),
      )
    where
      length-zero : (xs : List Item) → length xs ≡ 0 → xs ≡ []
      length-zero [] is = refl
      length-zero (x ∷ xs) is = absurd (omega (arith, is))

      empty-nil : (xs : List (Message R)) → is_empty xs ≡ true → xs ≡ []
      empty-nil [] is = refl
      empty-nil (x ∷ xs) is = cc

  module _ (process : Item → List R × Bool) where
    step-Accounted :
        (pool : ThreadPool Item R) (event : Event Item)
        → Accounted pool
        → Accounted (step process pool event)
    unfolding step stop
    step-Accounted pool (ventilates item) h = ventilate-Accounted item pool h
    step-Accounted pool (works i) h = elim (Option-cases (get_elem? pool.workers i)) [
      | inl nobody ↦ rw (step, nobody) h
      | inr (w, here) ↦ rw (step, here) (worker_step-Accounted process i w pool here h)
    ]
    step-Accounted pool gets h = get_round-Accounted pool h
    step-Accounted pool stops h = record { items = h.items; last = h.last }

    run-Accounted :
        (events : List (Event Item)) (pool : ThreadPool Item R)
        → Accounted pool
        → Accounted (run process events pool)
    unfolding run
    run-Accounted [] pool h = h
    run-Accounted (event ∷ events) pool h =
        run-Accounted events (step process pool event) (step-Accounted pool event h)

    -- Of a pool with any number of workers and any size of results queue, run by any events in any
    -- order from its start: where `get_results` would say now that there is no more work, no item waits
    -- in the ventilator queue, no worker has an item in hand, and the results queue is empty.
    pub run-Quiet :
        (n size : ℕ) (events : List (Event Item))
        → no_more_work (run process events (start n size)) ≡ true
        → Quiet (run process events (start n size))
    run-Quiet n size events done =
        no_more_work-Quiet (run process events (start n size))
          (run-Accounted events (start n size) (start-Accounted n size)) done
