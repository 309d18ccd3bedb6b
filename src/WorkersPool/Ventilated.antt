-- ===== src/WorkersPool/Ventilated.antt =====
-- A ThreadPool with the ventilator that its `start` is given (dataset_toolkit/workers_pool/thread_pool.py and
-- ventilator.py): `_ventilate_fn` is the pool's `ventilate`, and `get_results` reports to the ventilator.
-- The statements of the ventilation thread, of the workers and of the caller come in any order. The caller
-- tests the counters and then asks the ventilator; other threads may run in between.
pub mod Bound
pub mod Race
mod Tests
use code_assist_analyzer.Prelude.{
  ℕ, Bool, true, false, Option, none, some, List, [], ◌∷◌, get_elem?, if◌then◌else◌,
}
use code_assist_analyzer.WorkersPool.ThreadPool
use code_assist_analyzer.WorkersPool.ThreadPool.{
  ThreadPool, Message, item_processed, exception, GetResults, empty_result_error, no_more_work,
  receive, worker_step,
}
use code_assist_analyzer.WorkersPool.Ventilator
use code_assist_analyzer.WorkersPool.Ventilator.{
  Ventilator, Pc, at_send, completed, processed_item, thread_step,
}

pub record System (Item R : Type 0) : Type 0 where
  pub pool : ThreadPool Item R
  pub ventilator : Ventilator Item
  pub asking : Bool  -- the caller of `get_results` is about to ask `completed`

pub data Event (Item : Type 0) : Type 0 where
  ventilates : List Item → Event Item  -- a statement of `_ventilate`
  works : ℕ → Event Item
  gets : Event Item  -- the next step of `get_results`
  stops : Event Item

module _ {Item R : Type 0} where
  pub start : ℕ → ℕ → Ventilator Item → System Item R
  start workers_count results_queue_size ventilator = record {
    pool = ThreadPool.start workers_count results_queue_size;
    ventilator = ventilator;
    asking = false;
  }

  -- what a statement of the ventilation thread does to the pool
  abbrev pub fed : Pc → Option Item → ThreadPool Item R → ThreadPool Item R
  fed at_send (some item) pool = ThreadPool.ventilate item pool
  fed _ _ pool = pool

  pub ventilation_step : List Item → System Item R → System Item R
  ventilation_step shuffled s = record s {
    ventilator = thread_step shuffled s.ventilator;
    pool =
        fed s.ventilator.pc
          (get_elem? s.ventilator.items_to_ventilate s.ventilator.current_item_to_ventilate) s.pool;
  }

  -- `stop`
  pub stop : System Item R → System Item R
  stop s = record s { pool = ThreadPool.stop s.pool; ventilator = Ventilator.stop s.ventilator }

  -- what the caller tells the ventilator of the message that it receives
  abbrev pub noted : List (Message R) → Ventilator Item → Ventilator Item
  noted (item_processed ∷ rest) ventilator = processed_item ventilator
  noted (exception ∷ rest) ventilator = Ventilator.stop ventilator
  noted _ ventilator = ventilator

  abbrev pub receive_message : System Item R → System Item R × Option (GetResults R)
  receive_message s =
      let (pool, answer) = receive s.pool.results_queue s.pool in
      (
        record {
          pool = pool;
          ventilator = noted s.pool.results_queue s.ventilator;
          asking = false;
        },
        answer,
      )

  -- A step of `get_results`: the test of the counters, or the question to the ventilator that follows
  -- it and what comes after. Its answer is none while it goes on.
  pub get_step : System Item R → System Item R × Option (GetResults R)
  get_step s =
      if s.asking
      then (if completed s.ventilator
          then (record s { asking = false }, some empty_result_error)
          else receive_message s)
      else if no_more_work s.pool
      then (record s { asking = true }, none)
      else receive_message s

  module _ (process : Item → List R × Bool) where
    abbrev pub work_step : ℕ → System Item R → System Item R
    work_step i s = elim (get_elem? s.pool.workers i) [
      | none ↦ s
      | some worker ↦ record s { pool = worker_step process i worker s.pool }
    ]

    pub step : System Item R → Event Item → System Item R
    unfolding ventilation_step get_step stop
    step s (ventilates shuffled) = ventilation_step shuffled s
    step s (works i) = work_step i s
    step s gets = (get_step s).0
    step s stops = stop s

    pub run : List (Event Item) → System Item R → System Item R
    unfolding step
    run [] s = s
    run (event ∷ events) s = run events (step s event)
