-- ===== src/WorkersPool/ProcessPool/Account.antt =====
-- The account of the items and results of a process pool: what each worker owes
-- (dataset_toolkit/workers_pool/process_pool.py).
use code_assist_analyzer.Prelude.{
  ℕ, ◌+◌, ◌≤◌, Bool, Option, none, some, List, [], ◌∷◌, ◌++◌, length, get_elem?, All, ◌≡◌, arith,
}
use code_assist_analyzer.WorkersPool.ThreadPool.{Message, GetResults, returned, replace}
use code_assist_analyzer.WorkersPool.ProcessPool.{
  Stage, processing, failed, WorkerProcess, ProcessPool, Event, ventilates, gets, get_round, step,
}
use code_assist_analyzer.WorkersPool.ProcessPool.Messages.{
  sum_by, sum_by-replace, All-replaced, weigh, reports, Closed, Ending,
}

-- the result that an answer returns
abbrev pub answers : {R : Type 0} → Option (GetResults R) → List R
answers (some (returned r)) = r ∷ []
answers _ = []

module _ {Item R : Type 0} where
  abbrev pub sending : Item → Option (WorkerProcess Item R) → List Item
  sending item none = []
  sending item (some w) = item ∷ []

  -- what a run sends to the workers, and what its calls of `get_results` return
  abbrev pub sent_by : ProcessPool Item R → Event Item → List Item
  sent_by pool (ventilates item i) = sending item (get_elem? pool.workers i)
  sent_by pool _ = []

  abbrev pub received_by : ProcessPool Item R → Event Item → List R
  received_by pool (gets i) = answers (get_round i pool).1
  received_by pool _ = []

  module _ (process : Item → List R × Bool) where
    unfoldable pub sent : List (Event Item) → ProcessPool Item R → List Item
    sent [] pool = []
    sent (event ∷ events) pool = sent_by pool event ++ sent events (step process pool event)

    unfoldable pub received : List (Event Item) → ProcessPool Item R → List R
    received [] pool = []
    received (event ∷ events) pool =
        received_by pool event ++ received events (step process pool event)

module _ {Item R : Type 0} (process : Item → List R × Bool) (weight : R → ℕ) where
  abbrev pub item_weight : Item → ℕ
  item_weight item = sum_by weight (process item).0

  abbrev pub stage_weight : Stage R → ℕ
  stage_weight (processing control ms) = weigh weight ms
  stage_weight _ = 0

  -- the results that the worker has or will make of its items, and the caller has not
  abbrev pub worker_weight : WorkerProcess Item R → ℕ
  worker_weight w =
      weigh weight w.results_sender + stage_weight w.stage + sum_by item_weight w.work_receiver

  abbrev pub open_items : Stage R → ℕ
  open_items (processing control ms) = 1
  open_items failed = 1
  open_items _ = 0

  -- the items that the worker has, and the caller has no report of
  abbrev pub outstanding : WorkerProcess Item R → ℕ
  outstanding w = length w.work_receiver + open_items w.stage + reports w.results_sender

  abbrev pub StageOk : Stage R → List (Message R) → Type 0
  StageOk (processing control ms) sent = Ending ms
  StageOk failed sent = Unit
  StageOk _ sent = Closed sent

  abbrev pub WorkerOk : WorkerProcess Item R → Type 0
  WorkerOk w = StageOk w.stage w.results_sender

  -- the account of the items and of the results, given the weights of what was sent and received
  pub record Account (workers : List (WorkerProcess Item R))
      (ventilated processed sent received : ℕ) : Type 0 where
    pub items : processed + sum_by outstanding workers ≤ ventilated
    pub results : received + sum_by worker_weight workers ≡ sent
    pub all_ok : All WorkerOk workers

  -- a step of one worker
  pub Account-replace :
      (workers : List (WorkerProcess Item R)) (v p s r : ℕ) (i : ℕ) (w w' : WorkerProcess Item R)
      (v' p' s' r' : ℕ)
      → Account workers v p s r
      → get_elem? workers i ≡ some w
      → p' + outstanding w' + v ≤ p + outstanding w + v'
      → r' + worker_weight w' + s ≡ r + worker_weight w + s'
      → WorkerOk w'
      → Account (replace workers i w') v' p' s' r'
  Account-replace workers v p s r i w w' v' p' s' r' account here fewer same fine = record {
    items =
        omega (arith, account.items, sum_by-replace outstanding workers i w' {old = w} here, fewer);
    results =
        omega
          (arith, account.results, sum_by-replace worker_weight workers i w' {old = w} here, same);
    all_ok = All-replaced WorkerOk workers i w' fine account.all_ok;
  }
