-- ===== src/WorkersPool/Ventilator/Tests.antt =====
-- Runs of the ventilator on concrete items.
use code_assist_analyzer.Prelude.{
  ℕ, ◌+◌, ◌*◌, ◌≤◌, ◌≡◌, ◌≢◌, refl, List, [], ◌∷◌, length, cycles, map, some, false, arith,
}
use code_assist_analyzer.Prelude.Int.{pos, ◌-ℤ◌}
use code_assist_analyzer.WorkersPool.Ventilator.{
  Ventilator, Event, runs, item_processed, dicts, count, at_completed, at_count, finished, init,
  run, step, statement, thread_step, stop, completed, processed_item, decrement,
}
use code_assist_analyzer.WorkersPool.Ventilator.Backpressure.{run_backpressure}
use code_assist_analyzer.WorkersPool.Ventilator.Order.{finished_sends_every_pass}
use code_assist_analyzer.WorkersPool.Ventilator.Termination.{prompt, prompt_finishes}
use code_assist_analyzer.WorkersPool.Ventilator.Stopping.{
  stop_in_last_item_never_finishes, stop_elsewhere_finishes,
}

abbrev two_items : List ℕ
two_items = 7 ∷ 9 ∷ []

abbrev started : Ventilator ℕ
started = record {
  items_to_ventilate = two_items;
  iterations_remaining = some (pos 1);
  randomize_item_order = false;
  max_ventilation_queue_size = 1;
  current_item_to_ventilate = 0;
  ventilated_items_count = 0;
  processed_items_count = 0;
  pc = at_completed;
  sent = [];
}

-- the first item, its processing, the second item, and the end of the pass
abbrev whole_run : List (Event ℕ)
whole_run =
    runs two_items
    ∷ runs two_items
    ∷ runs two_items
    ∷ runs two_items
    ∷ runs two_items
    ∷ runs two_items
    ∷ item_processed
    ∷ runs two_items
    ∷ runs two_items
    ∷ runs two_items
    ∷ runs two_items
    ∷ runs two_items
    ∷ runs two_items
    ∷ runs two_items
    ∷ runs two_items
    ∷ []

run_backpressure_example :
    length (run whole_run started).sent
    ≤ (run whole_run started).max_ventilation_queue_size
      + (run whole_run started).processed_items_count
unfolding init
run_backpressure_example =
    run_backpressure (dicts two_items) (count (pos 1)) false (some 1) whole_run refl

finished_sends_every_pass_example : (run whole_run started).sent ≡ cycles 1 two_items
unfolding init run step statement thread_step completed processed_item decrement ◌-ℤ◌
finished_sends_every_pass_example =
    finished_sends_every_pass two_items 1 (some 1) whole_run refl (ground arith) refl

prompt_finishes_example :
    ((prompt (1 * (6 * length two_items + 1) + 1) started).pc ≡ finished)
    × ((prompt (1 * (6 * length two_items + 1) + 1) started).sent ≡ cycles 1 two_items)
unfolding init
prompt_finishes_example = prompt_finishes two_items 1 (some 1) refl

-- in the call for the second of two items
abbrev in_last_item : Ventilator ℕ
in_last_item = record started {
  current_item_to_ventilate = 1;
  ventilated_items_count = 1;
  processed_items_count = 1;
  pc = at_count;
}

stop_in_last_item_never_finishes_example :
    (run
      (runs two_items ∷ item_processed ∷ runs two_items ∷ runs two_items ∷ runs two_items ∷ [])
      (stop in_last_item)).pc
    ≢ finished
stop_in_last_item_never_finishes_example =
    stop_in_last_item_never_finishes in_last_item
      (runs two_items ∷ item_processed ∷ runs two_items ∷ runs two_items ∷ runs two_items ∷ []) refl
      (omega arith) (omega arith) (ground arith)

stop_elsewhere_finishes_example :
    (run
      (map runs (two_items ∷ two_items ∷ two_items ∷ two_items ∷ two_items ∷ two_items ∷ []))
      (stop started)).pc
    ≡ finished
stop_elsewhere_finishes_example =
    stop_elsewhere_finishes started
      (two_items ∷ two_items ∷ two_items ∷ two_items ∷ two_items ∷ two_items ∷ []) (λ h. cc)
      (λ h. cc) (omega arith) (ground arith) refl
