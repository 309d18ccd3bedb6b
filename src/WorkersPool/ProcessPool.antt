-- ===== src/WorkersPool/ProcessPool.antt =====
-- ProcessPool of dataset_toolkit/workers_pool/process_pool.py, used without a ventilator of its own. The
-- worker processes and the caller of `get_results` take turns: a step for each action on a socket. zmq
-- keeps the messages of a connection in order, gives an item to one worker, and hands a FINISHED to
-- each worker at its own time or not at all: the events say which.
pub mod Messages
pub mod Account
pub mod Kept
pub mod Steps
pub mod Delivery
mod Tests
use code_assist_analyzer.Prelude.{
  ℕ, zero, suc, ◌+◌, Bool, true, false, Option, none, some, List, [], ◌∷◌, ◌++◌, get_elem?, nat_beq,
  if◌then◌else◌, Error, runtime_error,
}
use code_assist_analyzer.WorkersPool.ThreadPool.{
  Message, result, item_processed, exception, GetResults, returned, raised, empty_result_error,
  replace, messages,
}

-- where a worker's process stands: at the poll; with messages to send of the item that it has, and
-- whether the poll found a control message too; returned after an exception; or shut down
pub data Stage (R : Type 0) : Type 0 where
  polling : Stage R
  processing : Bool → List (Message R) → Stage R
  failed : Stage R
  shut_down : Stage R

-- the stage after the last message of an item, by whether a control message was there at the poll
abbrev pub after_item : {R : Type 0} → Bool → Stage R
after_item true = shut_down
after_item false = polling

-- the stage after a message is sent
abbrev pub after_send : {R : Type 0} → Bool → Message R → List (Message R) → Stage R
after_send control exception rest = failed
after_send control _ [] = after_item control
after_send control _ (message ∷ rest) = processing control (message ∷ rest)

pub record WorkerProcess (Item R : Type 0) : Type 0 where
  pub work_receiver : List Item
  pub control_receiver : Bool  -- a FINISHED is there to be received
  pub results_sender : List (Message R)
  pub stage : Stage R

pub record ProcessPool (Item R : Type 0) : Type 0 where
  pub workers : List (WorkerProcess Item R)
  pub control_sent : Bool
  pub ventilated_items : ℕ
  pub ventilated_items_processed : ℕ

pub data Event (Item : Type 0) : Type 0 where
  ventilates : Item → ℕ → Event Item  -- the item goes to the worker of this number
  works : ℕ → Event Item
  notifies : ℕ → Event Item  -- a FINISHED reaches this worker
  gets : ℕ → Event Item  -- a round of `get_results`, which receives from this worker
  stops : Event Item

module _ {Item R : Type 0} where
  pub started_worker : WorkerProcess Item R
  started_worker = record {
    work_receiver = [];
    control_receiver = false;
    results_sender = [];
    stage = polling;
  }

  pub started_workers : ℕ → List (WorkerProcess Item R)
  unfolding started_worker
  started_workers zero = []
  started_workers (suc n) = started_worker ∷ started_workers n

  -- `start`, once all the workers are up
  pub start : ℕ → ProcessPool Item R
  unfolding started_workers
  start workers_count = record {
    workers = started_workers workers_count;
    control_sent = false;
    ventilated_items = 0;
    ventilated_items_processed = 0;
  }

  abbrev pub with_worker : ProcessPool Item R → ℕ → WorkerProcess Item R → ProcessPool Item R
  with_worker pool i worker = record pool { workers = replace pool.workers i worker }

  -- The item is counted before it is sent. Where no worker takes it, the retries end in a RuntimeError.
  pub ventilate : Item → ℕ → ProcessPool Item R → ProcessPool Item R × Option Error
  unfolding replace
  ventilate item i pool =
      let counted = record pool { ventilated_items = pool.ventilated_items + 1 } in
      elim (get_elem? pool.workers i) [
        | none ↦ (counted, some runtime_error)
        | some worker ↦ (
          with_worker counted i
              (record worker { work_receiver = worker.work_receiver ++ item ∷ [] }),
          none,
        )
      ]

  pub stop : ProcessPool Item R → ProcessPool Item R
  stop pool = record pool { control_sent = true }

  -- what a round of `get_results` does with the messages of a worker
  abbrev pub receive :
      List (Message R)
      → ℕ
      → WorkerProcess Item R
      → ProcessPool Item R
      → ProcessPool Item R × Option (GetResults R)
  unfolding stop replace
  receive [] i worker pool = (pool, none)
  receive (item_processed ∷ rest) i worker pool = (
    record (with_worker pool i (record worker { results_sender = rest })) {
      ventilated_items_processed = pool.ventilated_items_processed + 1;
    },
    none,
  )
  receive (exception ∷ rest) i worker pool =
      (stop (with_worker pool i (record worker { results_sender = rest })), some raised)
  receive (result r ∷ rest) i worker pool =
      (with_worker pool i (record worker { results_sender = rest }), some (returned r))

  -- A round of the loop of `get_results`; none: it goes on, or waits.
  pub get_round : ℕ → ProcessPool Item R → ProcessPool Item R × Option (GetResults R)
  get_round i pool =
      if nat_beq pool.ventilated_items pool.ventilated_items_processed
      then (pool, some empty_result_error)
      else elim (get_elem? pool.workers i) [
        | none ↦ (pool, none)
        | some worker ↦ receive worker.results_sender i worker pool
      ]

  -- a FINISHED that was sent reaches the worker
  abbrev pub notified : ProcessPool Item R → WorkerProcess Item R → WorkerProcess Item R
  notified pool worker =
      if pool.control_sent then record worker { control_receiver = true } else worker

  module _ (process : Item → List R × Bool) where
    -- the next action of `_worker_bootstrap`
    abbrev pub poll : List Item → WorkerProcess Item R → WorkerProcess Item R
    unfolding messages
    poll [] worker = if worker.control_receiver then record worker { stage = shut_down } else worker
    poll (item ∷ items) worker = record worker {
      work_receiver = items;
      stage = processing worker.control_receiver (messages process item);
    }

    pub worker_step : Stage R → WorkerProcess Item R → WorkerProcess Item R
    unfolding messages
    worker_step polling worker = poll worker.work_receiver worker
    worker_step (processing control []) worker = record worker { stage = after_item control }
    worker_step (processing control (message ∷ rest)) worker = record worker {
      results_sender = worker.results_sender ++ message ∷ [];
      stage = after_send control message rest;
    }
    worker_step failed worker = worker
    worker_step shut_down worker = worker

    pub step : ProcessPool Item R → Event Item → ProcessPool Item R
    unfolding ventilate worker_step get_round stop replace
    step pool (ventilates item i) = (ventilate item i pool).0
    step pool (works i) = elim (get_elem? pool.workers i) [
      | none ↦ pool
      | some worker ↦ with_worker pool i (worker_step worker.stage worker)
    ]
    step pool (notifies i) = elim (get_elem? pool.workers i) [
      | none ↦ pool
      | some worker ↦ with_worker pool i (notified pool worker)
    ]
    step pool (gets i) = (get_round i pool).0
    step pool stops = stop pool

    pub run : List (Event Item) → ProcessPool Item R → ProcessPool Item R
    unfolding step
    run [] pool = pool
    run (event ∷ events) pool = run events (step pool event)
