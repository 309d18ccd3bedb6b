-- ===== src/WorkersPool/Ventilator/Backpressure.antt =====
-- The bound on the ventilation queue (dataset_toolkit/workers_pool/ventilator.py).
use code_assist_analyzer.Prelude.{
  ℕ, ◌+◌, ◌≤◌, Bool, Option, none, some, List, [], ◌∷◌, length, get_elem?, ◌≡◌, refl, arith,
  length-append, ok,
}
use code_assist_analyzer.WorkersPool.Ventilator.{
  Ventilator, Items, Iterations, Pc, at_send, at_count, Event, runs, item_processed, stop_called,
  init, step, run, statement, send_item,
}

-- one more call of `_ventilate_fn` than the counter says, between the call and the count
abbrev pub uncounted : Pc → ℕ
uncounted at_count = 1
uncounted _ = 0

-- past the room test there is room for one more item
abbrev room_taken : Pc → ℕ
room_taken at_send = 1
room_taken at_count = 1
room_taken _ = 0

pub record Bounded {Item : Type 0} (v : Ventilator Item) : Type 0 where
  pub counted : length v.sent ≡ v.ventilated_items_count + uncounted v.pc
  pub room :
      v.ventilated_items_count + room_taken v.pc
      ≤ v.max_ventilation_queue_size + v.processed_items_count

module _ {Item : Type 0} where
  send_item-Bounded :
      (o : Option Item) (v : Ventilator Item) → v.pc ≡ at_send → Bounded v → Bounded (send_item o v)
  send_item-Bounded none v e b = ground arith
  send_item-Bounded (some x) v e b = ground (arith, length-append v.sent (x ∷ []))

  pub statement-Bounded :
      (pc : Pc) (shuffled : List Item) (v : Ventilator Item)
      → v.pc ≡ pc
      → Bounded v
      → Bounded (statement pc shuffled v)
  unfolding statement
  statement-Bounded at_send shuffled v e b =
      send_item-Bounded (get_elem? v.items_to_ventilate v.current_item_to_ventilate) v e b
  statement-Bounded _ shuffled v e b = ground arith

  step-Bounded : (v : Ventilator Item) (event : Event Item) → Bounded v → Bounded (step v event)
  unfolding step
  step-Bounded v (runs shuffled) b = statement-Bounded v.pc shuffled v refl b
  step-Bounded v item_processed b = ground arith
  step-Bounded v stop_called b = ground arith

  run-Bounded :
      (events : List (Event Item)) (v : Ventilator Item) → Bounded v → Bounded (run events v)
  unfolding run
  run-Bounded [] v b = b
  run-Bounded (event ∷ events) v b = run-Bounded events (step v event) (step-Bounded v event b)

  pub init-Bounded :
      (items : Items Item) (iterations : Iterations) (randomize : Bool) (size : Option ℕ)
      {v : Ventilator Item}
      → init items iterations randomize size ≡ ok v
      → Bounded v
  unfolding init
  init-Bounded items iterations randomize size h = ground arith

  -- From a constructed ventilator, whatever the interleaving of the ventilation thread with the
  -- pool's `processed_item` and with `stop`, and whatever the shuffles: the calls of `_ventilate_fn`
  -- made so far exceed the items reported as processed by at most `_max_ventilation_queue_size`.
  pub run_backpressure :
      (items : Items Item) (iterations : Iterations) (randomize : Bool) (size : Option ℕ)
      {v : Ventilator Item} (events : List (Event Item))
      → init items iterations randomize size ≡ ok v
      → length (run events v).sent
        ≤ (run events v).max_ventilation_queue_size + (run events v).processed_items_count
  run_backpressure items iterations randomize size {v} events h =
      let b = run-Bounded events v (init-Bounded items iterations randomize size h) in ground arith
