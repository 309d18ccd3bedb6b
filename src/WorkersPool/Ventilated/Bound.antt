-- ===== src/WorkersPool/Ventilated/Bound.antt =====
-- The ventilator bounds the work in the pool (dataset_toolkit/workers_pool/thread_pool.py and ventilator.py).
use code_assist_analyzer.Prelude.{
  ℕ, ◌+◌, ◌≤◌, Bool, true, false, Option, none, some, List, [], ◌∷◌, length, length-append,
  get_elem?, Option-cases, ◌≡◌, refl, sym, ◌∙◌, inl, inr, arith, ok, if◌then◌else◌,
}
use code_assist_analyzer.WorkersPool.ThreadPool
use code_assist_analyzer.WorkersPool.ThreadPool.{
  ThreadPool, Message, result, item_processed, exception, Worker, idle, publishing, ended,
  GetResults, empty_result_error, no_more_work, receive, worker_step, has_room,
}
use code_assist_analyzer.WorkersPool.ThreadPool.Accounted.{
  Accounted, pending_all, reports, worker_step-Accounted,
}
use code_assist_analyzer.WorkersPool.ThreadPool.Quiet.{
  ventilate-Accounted, receive-Accounted, start-Accounted,
}
use code_assist_analyzer.WorkersPool.Ventilated.{
  System, Event, ventilates, works, gets, stops, start, fed, ventilation_step, stop, noted,
  get_step, work_step, step, run,
}
use code_assist_analyzer.WorkersPool.Ventilator
use code_assist_analyzer.WorkersPool.Ventilator.{
  Ventilator, Items, Iterations, Pc, at_shuffle, at_wrap, at_send, completed, processed_item,
  statement, thread_step, send_item, init,
}
use code_assist_analyzer.WorkersPool.Ventilator.Backpressure.{
  Bounded, statement-Bounded, init-Bounded,
}

module _ {Item R : Type 0} where
  -- the two counters that the pool and its ventilator keep of one thing agree
  pub record Agreed (size : ℕ) (pool : ThreadPool Item R) (v : Ventilator Item) : Type 0 where
    pub ventilated : pool.ventilated_items ≡ length v.sent
    pub processed : pool.ventilated_items_processed ≡ v.processed_items_count
    pub sized : v.max_ventilation_queue_size ≡ size
    pub bounded : Bounded v
    pub accounted : Accounted pool

  -- what a statement of the ventilation thread keeps
  abbrev Kept : ThreadPool Item R → Ventilator Item → ThreadPool Item R → Ventilator Item → Type 0
  Kept pool v pool' v' =
      (pool'.ventilated_items ≡ length v'.sent)
      × (pool'.ventilated_items_processed ≡ pool.ventilated_items_processed)
      × (v'.processed_items_count ≡ v.processed_items_count)
      × (v'.max_ventilation_queue_size ≡ v.max_ventilation_queue_size)
      × (Accounted pool → Accounted pool')

  Kept-if :
      (b : Bool) (pool : ThreadPool Item R) (v v1 v2 : Ventilator Item)
      → Kept pool v pool v1
      → Kept pool v pool v2
      → Kept pool v pool (if b then v1 else v2)
  Kept-if true pool v v1 v2 h1 h2 = h1
  Kept-if false pool v v1 v2 h1 h2 = h2

  sent-Kept :
      (o : Option Item) (pool : ThreadPool Item R) (v : Ventilator Item)
      → pool.ventilated_items ≡ length v.sent
      → Kept pool v (fed at_send o pool) (send_item o v)
  unfolding ThreadPool.ventilate
  sent-Kept none pool v h = (h, refl, refl, refl, λ a. a)
  sent-Kept (some item) pool v h = (
    omega (arith, length-append v.sent (item ∷ [])),
    refl,
    refl,
    refl,
    λ a. ventilate-Accounted item pool a,
  )

  statement-Kept :
      (pc : Pc) (shuffled : List Item) (pool : ThreadPool Item R) (v : Ventilator Item)
      → pool.ventilated_items ≡ length v.sent
      → Kept pool v
          (fed pc (get_elem? v.items_to_ventilate v.current_item_to_ventilate) pool)
          (statement pc shuffled v)
  unfolding statement
  statement-Kept at_send shuffled pool v h =
      sent-Kept (get_elem? v.items_to_ventilate v.current_item_to_ventilate) pool v h
  statement-Kept at_shuffle shuffled pool v h =
      Kept-if _ pool v _ _ (h, refl, refl, refl, λ a. a) (h, refl, refl, refl, λ a. a)
  statement-Kept at_wrap shuffled pool v h =
      Kept-if _ pool v _ _ (h, refl, refl, refl, λ a. a) (h, refl, refl, refl, λ a. a)
  statement-Kept _ shuffled pool v h = (h, refl, refl, refl, λ a. a)

  pub ventilation_step-Agreed :
      {size : ℕ} (shuffled : List Item) (s : System Item R)
      → Agreed size s.pool s.ventilator
      → Agreed size (ventilation_step shuffled s).pool (ventilation_step shuffled s).ventilator
  unfolding ventilation_step thread_step
  ventilation_step-Agreed shuffled s h =
      let (counted, processed, same, size, accounted) =
        statement-Kept s.ventilator.pc shuffled s.pool s.ventilator h.ventilated in
      record {
        ventilated = counted;
        processed = processed ∙ h.processed ∙ sym same;
        sized = size ∙ h.sized;
        bounded = statement-Bounded s.ventilator.pc shuffled s.ventilator refl h.bounded;
        accounted = accounted h.accounted;
      }

  noted-Agreed :
      {size : ℕ} (queue : List (Message R)) (pool : ThreadPool Item R) (v : Ventilator Item)
      → pool.results_queue ≡ queue
      → Agreed size pool v
      → Agreed size (receive queue pool).0 (noted queue v)
  unfolding processed_item Ventilator.stop ThreadPool.stop
  noted-Agreed [] pool v is h = h
  noted-Agreed (item_processed ∷ rest) pool v is h = record {
    ventilated = h.ventilated;
    processed = omega (arith, h.processed);
    sized = h.sized;
    bounded = record { counted = h.bounded.counted; room = omega (arith, h.bounded.room) };
    accounted = receive-Accounted pool (item_processed ∷ rest) is h.accounted;
  }
  noted-Agreed (result r ∷ rest) pool v is h = record {
    ventilated = h.ventilated;
    processed = h.processed;
    sized = h.sized;
    bounded = h.bounded;
    accounted = receive-Accounted pool (result r ∷ rest) is h.accounted;
  }
  noted-Agreed (exception ∷ rest) pool v is h = record {
    ventilated = h.ventilated;
    processed = h.processed;
    sized = h.sized;
    bounded = record { counted = h.bounded.counted; room = h.bounded.room };
    accounted = receive-Accounted pool (exception ∷ rest) is h.accounted;
  }

  worker_step-counters :
      (process : Item → List R × Bool) (i : ℕ) (w : Worker R) (pool : ThreadPool Item R)
      → ((worker_step process i w pool).ventilated_items ≡ pool.ventilated_items)
        × ((worker_step process i w pool).ventilated_items_processed
            ≡ pool.ventilated_items_processed)
  unfolding worker_step
  worker_step-counters process i idle pool = ground arith
  worker_step-counters process i (publishing []) pool = (refl, refl)
  worker_step-counters process i (publishing (m ∷ rest)) pool = ground arith
  worker_step-counters process i ended pool = (refl, refl)

  Agreed-if :
      {size : ℕ} (b : Bool) (x y : System Item R × Option (GetResults R))
      → Agreed size x.0.pool x.0.ventilator
      → Agreed size y.0.pool y.0.ventilator
      → Agreed size (if b then x else y).0.pool (if b then x else y).0.ventilator
  Agreed-if true x y h1 h2 = h1
  Agreed-if false x y h1 h2 = h2

  pub get_step-Agreed :
      {size : ℕ} (s : System Item R)
      → Agreed size s.pool s.ventilator
      → Agreed size (get_step s).0.pool (get_step s).0.ventilator
  unfolding get_step
  get_step-Agreed s h =
      let received = noted-Agreed s.pool.results_queue s.pool s.ventilator refl h in
      Agreed-if s.asking _ _ (Agreed-if (completed s.ventilator) _ _ h received)
        (Agreed-if (no_more_work s.pool) _ _ h received)

  module _ (process : Item → List R × Bool) where
    step-Agreed :
        {size : ℕ} (s : System Item R) (event : Event Item)
        → Agreed size s.pool s.ventilator
        → Agreed size (step process s event).pool (step process s event).ventilator
    unfolding step stop ThreadPool.stop Ventilator.stop
    step-Agreed s (ventilates shuffled) h = ventilation_step-Agreed shuffled s h
    step-Agreed s gets h = get_step-Agreed s h
    step-Agreed s stops h = record {
      ventilated = h.ventilated;
      processed = h.processed;
      sized = h.sized;
      bounded = record { counted = h.bounded.counted; room = h.bounded.room };
      accounted = record { items = h.accounted.items; last = h.accounted.last };
    }
    step-Agreed s (works i) h = elim (Option-cases (get_elem? s.pool.workers i)) [
      | inl nobody ↦ rw (step, work_step, nobody) h
      | inr (w, here) ↦
          let (same, same') = worker_step-counters process i w s.pool in
          rw (step, work_step, here)
            (record {
              ventilated = same ∙ h.ventilated;
              processed = same' ∙ h.processed;
              sized = h.sized;
              bounded = h.bounded;
              accounted = worker_step-Accounted process i w s.pool here h.accounted;
            })
    ]

    run-Agreed :
        {size : ℕ} (events : List (Event Item)) (s : System Item R)
        → Agreed size s.pool s.ventilator
        → Agreed size (run process events s).pool (run process events s).ventilator
    unfolding run
    run-Agreed [] s h = h
    run-Agreed (event ∷ events) s h =
        run-Agreed events (step process s event) (step-Agreed s event h)

    pub start-Agreed :
        (n queue_size : ℕ) (items : Items Item) (iterations : Iterations) (randomize : Bool)
        (size : Option ℕ) {v : Ventilator Item}
        → init items iterations randomize size ≡ ok v
        → Agreed v.max_ventilation_queue_size (ThreadPool.start {R = R} n queue_size) v
    unfolding init ThreadPool.start
    start-Agreed n queue_size items iterations randomize size {v} h = record {
      ventilated = ground arith;
      processed = ground arith;
      sized = refl;
      bounded = init-Bounded items iterations randomize size h;
      accounted = start-Accounted n queue_size;
    }

    -- Of a pool that is started with a constructed ventilator, in every interleaving of the ventilation
    -- thread, the workers, the caller of `get_results` and `stop`: the items that wait for a worker or are
    -- in the hand of one, and the reports that wait for the caller, are together at most
    -- `_max_ventilation_queue_size` of the ventilator.
    pub run-pending_bounded :
        (n queue_size : ℕ) (items : Items Item) (iterations : Iterations) (randomize : Bool)
        (size : Option ℕ) {v : Ventilator Item} (events : List (Event Item))
        → init items iterations randomize size ≡ ok v
        → let pool = (run process events (start n queue_size v)).pool in
          length pool.ventilator_queue + pending_all pool.workers + reports pool.results_queue
          ≤ v.max_ventilation_queue_size
    unfolding start
    run-pending_bounded n queue_size items iterations randomize size {v} events h =
        let agreed =
          run-Agreed events (start n queue_size v)
            (start-Agreed n queue_size items iterations randomize size h) in
        ground (
          arith, agreed.accounted.items, agreed.ventilated, agreed.processed, agreed.sized,
          agreed.bounded.counted, agreed.bounded.room,
        )
