-- ===== src/WorkersPool/ProcessPool/Delivery.antt =====
-- What has been delivered when `get_results` of a process pool finds no more work
-- (dataset_toolkit/workers_pool/process_pool.py).
use code_assist_analyzer.Prelude.{
  ℕ, zero, suc, ◌+◌, Bool, some, List, [], ◌∷◌, length, get_elem?, nat_beq, All, ◌≡◌, ◌≢◌, refl, ap,
  inl, inr, Bool-cases, Option-cases, arith,
}
use code_assist_analyzer.WorkersPool.ThreadPool.{
  Message, result, item_processed, exception, empty_result_error,
}
use code_assist_analyzer.WorkersPool.ProcessPool.{
  Stage, polling, processing, failed, shut_down, WorkerProcess, ProcessPool, Event, started_worker,
  started_workers, start, stop, receive, get_round, step, run,
}
use code_assist_analyzer.WorkersPool.ProcessPool.Messages.{
  sum_by, sum_by-append, weigh, reports, Closed-nil,
}
use code_assist_analyzer.WorkersPool.ProcessPool.Account.{
  sent_by, received_by, sent, received, item_weight, stage_weight, worker_weight, open_items,
  outstanding, StageOk, WorkerOk,
}
use code_assist_analyzer.WorkersPool.ProcessPool.Steps.{
  PoolAccount, Account-sums, unmoved-Account, step-Account,
}

module _ {Item R : Type 0} (process : Item → List R × Bool) (weight : R → ℕ) where
  run-Account :
      (events : List (Event Item)) (pool : ProcessPool Item R) (s r : ℕ)
      → (PoolAccount process weight) pool s r
      → (PoolAccount process weight)
          (run process events pool)
          (s + sum_by (item_weight process weight) (sent process events pool))
          (r + sum_by weight (received process events pool))
  unfolding run sent received
  run-Account [] pool s r account = (unmoved-Account process weight) pool s r account
  run-Account (event ∷ events) pool s r account =
      let next = step process pool event in
      let last = run process events next in
      (Account-sums process weight) last.workers last.ventilated_items
        last.ventilated_items_processed
        (s
          + sum_by (item_weight process weight) (sent_by pool event)
          + sum_by (item_weight process weight) (sent process events next))
        (r + sum_by weight (received_by pool event) + sum_by weight (received process events next))
        _ _
        (omega (
          arith,
          sum_by-append (item_weight process weight) (sent_by pool event)
              (sent process events next),
        ))
        (omega
          (arith, sum_by-append weight (received_by pool event) (received process events next)))
        (run-Account events next (s + sum_by (item_weight process weight) (sent_by pool event))
          (r + sum_by weight (received_by pool event))
          ((step-Account process weight) pool event s r account))

  start-Account : (n : ℕ) → (PoolAccount process weight) (start n) 0 0
  unfolding start started_workers started_worker
  start-Account n = record {
    items = omega (arith, nothing n);
    results = weightless n;
    all_ok = fine n;
  }
    where
      nothing : (n : ℕ) → sum_by (outstanding process weight) (started_workers n) ≡ 0
      nothing zero = refl
      nothing (suc n) = omega (arith, nothing n)

      weightless : (n : ℕ) → 0 + sum_by (worker_weight process weight) (started_workers n) ≡ 0
      weightless zero = refl
      weightless (suc n) = omega (arith, weightless n)

      fine : (n : ℕ) → All (WorkerOk process weight) (started_workers n)
      fine zero = tt
      fine (suc n) = (tt, fine n)

  -- a worker that owes no item owes no result
  settled :
      (items : List Item) (stage : Stage R) (ms : List (Message R))
      → (StageOk process weight) stage ms
      → length items + (open_items process weight) stage + reports ms ≡ 0
      → weigh weight ms
          + (stage_weight process weight) stage
          + sum_by (item_weight process weight) items
        ≡ 0
  settled (item ∷ items) stage ms fine none_left = absurd (omega (arith, none_left))
  settled [] (processing control left) ms fine none_left = absurd (omega (arith, none_left))
  settled [] failed ms fine none_left = absurd (omega (arith, none_left))
  settled [] polling ms fine none_left =
      omega (arith, ap (weigh weight) (Closed-nil ms fine (omega (arith, none_left))))
  settled [] shut_down ms fine none_left =
      omega (arith, ap (weigh weight) (Closed-nil ms fine (omega (arith, none_left))))

  workers_settled :
      (workers : List (WorkerProcess Item R))
      → All (WorkerOk process weight) workers
      → sum_by (outstanding process weight) workers ≡ 0
      → sum_by (worker_weight process weight) workers ≡ 0
  workers_settled [] fine none_left = refl
  workers_settled (w ∷ workers) fine none_left = omega (
    arith,
    settled w.work_receiver w.stage w.results_sender fine.0 (omega (arith, none_left)),
    workers_settled workers fine.1 (omega (arith, none_left)),
  )

  -- only equal counters make an EmptyResultError
  empty-even :
      (i : ℕ) (pool : ProcessPool Item R)
      → (get_round i pool).1 ≡ some empty_result_error
      → pool.ventilated_items ≡ pool.ventilated_items_processed
  unfolding get_round receive stop
  empty-even i pool h =
      elim (Bool-cases (nat_beq pool.ventilated_items pool.ventilated_items_processed)) [
        | inl even ↦ ground arith
        | inr more ↦ elim (Option-cases (get_elem? pool.workers i)) [
          | inl nobody ↦ cc (rw (more, nobody) at h)
          | inr (w, here) ↦ absurd (never w.results_sender w (rw (more, here) at h))
        ]
      ]
    where
      never :
          (ms : List (Message R)) (w : WorkerProcess Item R)
          → (receive ms i w pool).1 ≢ some empty_result_error
      never [] w = λ e. cc e
      never (item_processed ∷ ms) w = λ e. cc e
      never (exception ∷ ms) w = λ e. cc e
      never (result r ∷ ms) w = λ e. cc e

  -- Of a pool of any number of processes, run by any events in any order from its start: where a call of
  -- `get_results` raises EmptyResultError, the calls before it have returned the results of all the
  -- items that were sent to a worker, all of them and each once: with every weight of the results, the
  -- two sums agree. This holds after a stop, too.
  pub received-sent :
      (n : ℕ) (events : List (Event Item)) (i : ℕ)
      → (get_round i (run process events (start n))).1 ≡ some empty_result_error
      → sum_by weight (received process events (start n))
        ≡ sum_by (item_weight process weight) (sent process events (start n))
  received-sent n events i h =
      let pool = run process events (start n) in
      let account = run-Account events (start n) 0 0 (start-Account n) in
      let even = empty-even i pool h in
      omega (
        arith,
        account.results,
        workers_settled pool.workers account.all_ok (omega (arith, account.items, even)),
      )
