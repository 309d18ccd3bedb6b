-- ===== src/WorkersPool/ProcessPool/Steps.antt =====
-- Every event keeps the account of a process pool
-- (dataset_toolkit/workers_pool/process_pool.py).
use code_assist_analyzer.Prelude.{
  ℕ, ◌+◌, Bool, true, false, some, List, [], ◌∷◌, ◌++◌, length-append, get_elem?, nat_beq,
  if◌then◌else◌, ◌≡◌, refl, ap, subst, inl, inr, Bool-cases, Option-cases, arith,
}
use code_assist_analyzer.WorkersPool.ThreadPool.{Message, result, item_processed, exception}
use code_assist_analyzer.WorkersPool.ProcessPool.{
  Stage, polling, processing, failed, shut_down, WorkerProcess, ProcessPool, Event, ventilates,
  works, notifies, gets, stops, with_worker, ventilate, stop, receive, get_round, notified,
  worker_step, step,
}
use code_assist_analyzer.WorkersPool.ProcessPool.Messages.{
  sum_by, sum_by-append, All-at, weigh, reports, Closed-rest,
}
use code_assist_analyzer.WorkersPool.ProcessPool.Account.{
  answers, sent_by, received_by, item_weight, StageOk, WorkerOk, Account, Account-replace,
}
use code_assist_analyzer.WorkersPool.ProcessPool.Kept.{Kept, worker_step-Kept}

module _ {Item R : Type 0} (process : Item → List R × Bool) (weight : R → ℕ) where
  abbrev pub PoolAccount : ProcessPool Item R → ℕ → ℕ → Type 0
  PoolAccount pool s r =
      (Account process weight) pool.workers pool.ventilated_items pool.ventilated_items_processed s
        r

  pub ventilate-Account :
      (item : Item) (i : ℕ) (pool : ProcessPool Item R) (s r : ℕ)
      → PoolAccount pool s r
      → PoolAccount
          (ventilate item i pool).0
          (s + sum_by (item_weight process weight) (sent_by pool (ventilates item i)))
          r
  unfolding ventilate
  ventilate-Account item i pool s r account = elim (Option-cases (get_elem? pool.workers i)) [
    | inl nobody ↦
        rw (ventilate, nobody)
          (record {
            items = omega (arith, account.items);
            results = omega (arith, account.results);
            all_ok = account.all_ok;
          })
    | inr (w, here) ↦
        let w' = record w { work_receiver = w.work_receiver ++ item ∷ [] } in
        rw (ventilate, here)
          ((Account-replace process weight) pool.workers pool.ventilated_items
            pool.ventilated_items_processed s r i w w' (pool.ventilated_items + 1)
            pool.ventilated_items_processed (s + ((item_weight process weight) item + 0)) r account
            here (omega (arith, length-append w.work_receiver (item ∷ [])))
            (omega (arith, sum_by-append (item_weight process weight) w.work_receiver (item ∷ [])))
            (All-at (WorkerOk process weight) pool.workers i account.all_ok here))
  ]

  -- a step of one worker that keeps what it owes
  pub Kept-Account :
      (pool : ProcessPool Item R) (i : ℕ) (w w' : WorkerProcess Item R) (s r : ℕ)
      → PoolAccount pool s r
      → get_elem? pool.workers i ≡ some w
      → (Kept process weight) w w'
      → PoolAccount (with_worker pool i w') s r
  Kept-Account pool i w w' s r account here (fewer, same, fine) =
      (Account-replace process weight) pool.workers pool.ventilated_items
        pool.ventilated_items_processed s r i w w' pool.ventilated_items
        pool.ventilated_items_processed s r account here (omega (arith, fewer))
        (omega (arith, same)) fine

  pub StageOk-rest :
      (stage : Stage R) (m : Message R) (ms : List (Message R))
      → (StageOk process weight) stage (m ∷ ms)
      → (StageOk process weight) stage ms
  StageOk-rest polling m ms h = Closed-rest m ms h
  StageOk-rest (processing control left) m ms h = h
  StageOk-rest failed m ms h = h
  StageOk-rest shut_down m ms h = Closed-rest m ms h

  -- what is received leaves the connection
  pub receive-Account :
      (ms : List (Message R)) (i : ℕ) (w : WorkerProcess Item R) (pool : ProcessPool Item R)
      (s r : ℕ)
      → PoolAccount pool s r
      → get_elem? pool.workers i ≡ some w
      → w.results_sender ≡ ms
      → PoolAccount (receive ms i w pool).0 s (r + sum_by weight (answers (receive ms i w pool).1))
  unfolding receive stop
  receive-Account [] i w pool s r account here is = record {
    items = account.items;
    results = omega (arith, account.results);
    all_ok = account.all_ok;
  }
  receive-Account (item_processed ∷ ms) i w pool s r account here is =
      (Account-replace process weight) pool.workers pool.ventilated_items
        pool.ventilated_items_processed s r i w (record w { results_sender = ms })
        pool.ventilated_items (pool.ventilated_items_processed + 1) s (r + 0) account here
        (omega (arith, ap reports is)) (omega (arith, ap (weigh weight) is))
        (StageOk-rest w.stage item_processed ms (
          subst ((StageOk process weight) w.stage) is
            (All-at (WorkerOk process weight) pool.workers i account.all_ok here)))
  receive-Account (exception ∷ ms) i w pool s r account here is =
      (Account-replace process weight) pool.workers pool.ventilated_items
        pool.ventilated_items_processed s r i w (record w { results_sender = ms })
        pool.ventilated_items pool.ventilated_items_processed s (r + 0) account here
        (omega (arith, ap reports is)) (omega (arith, ap (weigh weight) is))
        (StageOk-rest w.stage exception ms (
          subst ((StageOk process weight) w.stage) is
            (All-at (WorkerOk process weight) pool.workers i account.all_ok here)))
  receive-Account (result x ∷ ms) i w pool s r account here is =
      (Account-replace process weight) pool.workers pool.ventilated_items
        pool.ventilated_items_processed s r i w (record w { results_sender = ms })
        pool.ventilated_items pool.ventilated_items_processed s (r + (weight x + 0)) account here
        (omega (arith, ap reports is)) (omega (arith, ap (weigh weight) is))
        (StageOk-rest w.stage (result x) ms (
          subst ((StageOk process weight) w.stage) is
            (All-at (WorkerOk process weight) pool.workers i account.all_ok here)))

  pub get_round-Account :
      (i : ℕ) (pool : ProcessPool Item R) (s r : ℕ)
      → PoolAccount pool s r
      → PoolAccount (get_round i pool).0 s (r + sum_by weight (answers (get_round i pool).1))
  unfolding get_round
  get_round-Account i pool s r account =
      elim (Bool-cases (nat_beq pool.ventilated_items pool.ventilated_items_processed)) [
        | inl even ↦ rw (get_round, even) unmoved
        | inr more ↦ elim (Option-cases (get_elem? pool.workers i)) [
          | inl nobody ↦ rw (get_round, more, nobody) unmoved
          | inr (w, here) ↦
              rw (get_round, more, here)
                (receive-Account w.results_sender i w pool s r account here refl)
        ]
      ]
    where
      unmoved : PoolAccount pool s (r + 0)
      unmoved = record {
        items = account.items;
        results = omega (arith, account.results);
        all_ok = account.all_ok;
      }

  pub Account-sums :
      (workers : List (WorkerProcess Item R)) (v p s r s' r' : ℕ)
      → s ≡ s'
      → r ≡ r'
      → (Account process weight) workers v p s r
      → (Account process weight) workers v p s' r'
  Account-sums workers v p s r s' r' same_sent same_received account = record {
    items = account.items;
    results = omega (arith, account.results, same_sent, same_received);
    all_ok = account.all_ok;
  }

  pub unmoved-Account :
      (pool : ProcessPool Item R) (s r : ℕ)
      → PoolAccount pool s r
      → PoolAccount pool (s + 0) (r + 0)
  unmoved-Account pool s r account =
      Account-sums pool.workers pool.ventilated_items pool.ventilated_items_processed s r (s + 0)
        (r + 0) (omega arith) (omega arith) account

  pub step-Account :
      (pool : ProcessPool Item R) (event : Event Item) (s r : ℕ)
      → PoolAccount pool s r
      → PoolAccount
          (step process pool event)
          (s + sum_by (item_weight process weight) (sent_by pool event))
          (r + sum_by weight (received_by pool event))
  unfolding step stop
  step-Account pool (ventilates item i) s r account =
      let next = (ventilate item i pool).0 in
      let total = s + sum_by (item_weight process weight) (sent_by pool (ventilates item i)) in
      Account-sums next.workers next.ventilated_items next.ventilated_items_processed total r total
        (r + 0) refl (omega arith) (ventilate-Account item i pool s r account)
  step-Account pool (gets i) s r account =
      let (next, answer) = get_round i pool in
      let total = r + sum_by weight (answers answer) in
      Account-sums next.workers next.ventilated_items next.ventilated_items_processed s total
        (s + 0) total (omega arith) refl (get_round-Account i pool s r account)
  step-Account pool (works i) s r account = elim (Option-cases (get_elem? pool.workers i)) [
    | inl nobody ↦ rw (step, nobody) (unmoved-Account pool s r account)
    | inr (w, here) ↦
        let w' = worker_step process w.stage w in
        rw (step, here)
          (unmoved-Account (with_worker pool i w') s r (
            Kept-Account pool i w w' s r account here (
              (worker_step-Kept process weight) w.stage w refl
                (All-at (WorkerOk process weight) pool.workers i account.all_ok here))))
  ]
  step-Account pool (notifies i) s r account = elim (Option-cases (get_elem? pool.workers i)) [
    | inl nobody ↦ rw (step, nobody) (unmoved-Account pool s r account)
    | inr (w, here) ↦
        rw (step, here)
          (unmoved-Account (with_worker pool i (notified pool w)) s r (
            Kept-Account pool i w (notified pool w) s r account here (
              notified-Kept w pool.control_sent
                (All-at (WorkerOk process weight) pool.workers i account.all_ok here))))
  ]
    where
      notified-Kept :
          (w : WorkerProcess Item R) (b : Bool)
          → (WorkerOk process weight) w
          → (Kept process weight) w (if b then record w { control_receiver = true } else w)
      notified-Kept w true fine = (omega arith, refl, fine)
      notified-Kept w false fine = (omega arith, refl, fine)
  step-Account pool stops s r account = unmoved-Account pool s r account
