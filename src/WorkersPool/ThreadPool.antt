-- ===== src/WorkersPool/ThreadPool.antt =====
-- ThreadPool of dataset_toolkit/workers_pool/thread_pool.py, used without a ventilator of its own. The
-- threads of the workers and the caller of `get_results` take turns: a step for each action on the
-- queues. What the workers' `process` publishes of an item, and whether it then raises, is a parameter.
pub mod Accounted
pub mod Quiet
mod Tests
use code_assist_analyzer.Prelude.{
  ℕ, zero, suc, ◌+◌, Bool, true, false, not, ◌&&◌, Option, none, some, List, [], ◌∷◌, ◌++◌, map,
  length, get_elem?, nat_beq, ltb, if◌then◌else◌,
}

-- what the results queue carries
pub data Message (R : Type 0) : Type 0 where
  result : R → Message R
  item_processed : Message R
  exception : Message R

-- where a worker's thread stands: at the head of its loop, with messages to put of the item that it
-- has, or at its end
pub data Worker (R : Type 0) : Type 0 where
  idle : Worker R
  publishing : List (Message R) → Worker R
  ended : Worker R

pub record ThreadPool (Item R : Type 0) : Type 0 where
  pub ventilator_queue : List Item
  pub results_queue : List (Message R)
  pub results_queue_size : ℕ
  pub workers : List (Worker R)
  pub stop_event : Bool
  pub ventilated_items : ℕ
  pub ventilated_items_processed : ℕ

-- the answer of `get_results`, once it gives one
pub data GetResults (R : Type 0) : Type 0 where
  returned : R → GetResults R
  raised : GetResults R  -- the exception of a worker
  empty_result_error : GetResults R

pub data Event (Item : Type 0) : Type 0 where
  ventilates : Item → Event Item
  works : ℕ → Event Item  -- the worker of this number goes on
  gets : Event Item  -- a round of the loop of `get_results`
  stops : Event Item

abbrev pub is_empty : {A : Type 0} → List A → Bool
is_empty [] = true
is_empty (x ∷ xs) = false

unfoldable pub replace : {A : Type 0} → List A → ℕ → A → List A
replace [] i x = []
replace (y ∷ ys) zero x = x ∷ ys
replace (y ∷ ys) (suc i) x = y ∷ replace ys i x

pub idle_workers : (R : Type 0) → ℕ → List (Worker R)
idle_workers R zero = []
idle_workers R (suc n) = idle ∷ idle_workers R n

module _ {Item R : Type 0} where
  unfoldable pub start : ℕ → ℕ → ThreadPool Item R
  unfolding idle_workers
  start workers_count results_queue_size = record {
    ventilator_queue = [];
    results_queue = [];
    results_queue_size = results_queue_size;
    workers = idle_workers R workers_count;
    stop_event = false;
    ventilated_items = 0;
    ventilated_items_processed = 0;
  }

  unfoldable pub ventilate : Item → ThreadPool Item R → ThreadPool Item R
  ventilate item pool = record pool {
    ventilated_items = pool.ventilated_items + 1;
    ventilator_queue = pool.ventilator_queue ++ item ∷ [];
  }

  unfoldable pub stop : ThreadPool Item R → ThreadPool Item R
  stop pool = record pool { stop_event = true }

  -- whether there is room in the results queue; its size 0 means that there always is
  abbrev pub has_room : ThreadPool Item R → Bool
  has_room pool =
      if nat_beq pool.results_queue_size 0
      then true
      else ltb (length pool.results_queue) pool.results_queue_size

  -- `if self._results_queue.empty() and ventilated == processed`
  abbrev pub no_more_work : ThreadPool Item R → Bool
  no_more_work pool =
      is_empty pool.results_queue && nat_beq pool.ventilated_items pool.ventilated_items_processed

  -- what a round does with the messages that wait in the results queue
  abbrev pub receive :
      List (Message R) → ThreadPool Item R → ThreadPool Item R × Option (GetResults R)
  unfolding stop
  receive [] pool = (pool, none)
  receive (item_processed ∷ rest) pool = (
    record pool {
      results_queue = rest;
      ventilated_items_processed = pool.ventilated_items_processed + 1;
    },
    none,
  )
  receive (exception ∷ rest) pool = (stop (record pool { results_queue = rest }), some raised)
  receive (result r ∷ rest) pool = (record pool { results_queue = rest }, some (returned r))

  -- A round of the loop of `get_results`; none: it goes on, or waits at an empty queue.
  pub get_round : ThreadPool Item R → ThreadPool Item R × Option (GetResults R)
  get_round pool =
      if no_more_work pool then (pool, some empty_result_error) else receive pool.results_queue pool

  module _ (process : Item → List R × Bool) where
    -- the messages of an item: its results, then that it is processed, or the exception
    unfoldable pub messages : Item → List (Message R)
    messages item =
        let (results, raises) = process item in
        map result results ++ (if raises then exception else item_processed) ∷ []

    -- after a message is put: the end of the loop's body, or, after an exception, of the thread
    abbrev pub after_put : Message R → List (Message R) → Worker R
    after_put exception rest = ended
    after_put _ [] = idle
    after_put _ (message ∷ rest) = publishing (message ∷ rest)

    -- An exception is put by a plain `put`, all else by `_stop_aware_put`.
    abbrev pub stop_aware : Message R → Bool
    stop_aware exception = false
    stop_aware _ = true

    -- A worker's thread takes an item, puts a message, or waits. A stop ends it at the head of the
    -- loop, and takes it there from a full results queue.
    unfoldable pub worker_step : ℕ → Worker R → ThreadPool Item R → ThreadPool Item R
    unfolding replace messages
    worker_step i idle pool =
        if pool.stop_event
        then record pool { workers = replace pool.workers i ended }
        else elim pool.ventilator_queue [
          | [] ↦ pool
          | item ∷ items ↦ record pool {
            ventilator_queue = items;
            workers = replace pool.workers i (publishing (messages item));
          }
        ]
    worker_step i (publishing []) pool = record pool { workers = replace pool.workers i idle }
    worker_step i (publishing (message ∷ rest)) pool =
        if has_room pool
        then record pool {
          results_queue = pool.results_queue ++ message ∷ [];
          workers = replace pool.workers i (after_put message rest);
        }
        else if pool.stop_event && stop_aware message
        then record pool { workers = replace pool.workers i idle }
        else pool
    worker_step i ended pool = pool

    pub step : ThreadPool Item R → Event Item → ThreadPool Item R
    unfolding ventilate worker_step get_round stop
    step pool (ventilates item) = ventilate item pool
    step pool (works i) = elim (get_elem? pool.workers i) [
      | none ↦ pool
      | some worker ↦ worker_step i worker pool
    ]
    step pool gets = (get_round pool).0
    step pool stops = stop pool

    pub run : List (Event Item) → ThreadPool Item R → ThreadPool Item R
    unfolding step
    run [] pool = pool
    run (event ∷ events) pool = run events (step pool event)
