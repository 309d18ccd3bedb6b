-- ===== src/WorkersPool/Ventilated/Tests.antt =====
-- A pool of one worker, and a ventilator of two items.
use code_assist_analyzer.Prelude.{
  ℕ, ◌+◌, ◌*◌, ◌≤◌, Bool, false, some, List, [], ◌∷◌, length, ◌≡◌, refl, arith,
}
use code_assist_analyzer.Prelude.Int.{pos}
use code_assist_analyzer.WorkersPool.ThreadPool.{empty_result_error}
use code_assist_analyzer.WorkersPool.ThreadPool.Accounted.{pending_all, reports}
use code_assist_analyzer.WorkersPool.Ventilated.{
  Event, ventilates, works, gets, start, get_step, run,
}
use code_assist_analyzer.WorkersPool.Ventilated.Bound.{run-pending_bounded}
use code_assist_analyzer.WorkersPool.Ventilated.Race.{alone, get_results_loses_items}
use code_assist_analyzer.WorkersPool.Ventilator.{Ventilator, init, dicts, count, at_completed}

abbrev two_items : List ℕ
two_items = 7 ∷ 9 ∷ []

-- the ventilator of one pass over the items
abbrev one_pass : ℕ → Ventilator ℕ
one_pass size = record {
  items_to_ventilate = two_items;
  iterations_remaining = some (pos 1);
  randomize_item_order = false;
  max_ventilation_queue_size = size;
  current_item_to_ventilate = 0;
  ventilated_items_count = 0;
  processed_items_count = 0;
  pc = at_completed;
  sent = [];
}

-- an item has one result, twice its value
abbrev doubled : ℕ → List ℕ × Bool
doubled item = ((2 * item) ∷ [], false)

-- the thread ventilates the first item, and the worker publishes its result
abbrev first_item : List (Event ℕ)
first_item =
    ventilates []
    ∷ ventilates []
    ∷ ventilates []
    ∷ ventilates []
    ∷ gets
    ∷ works 0
    ∷ works 0
    ∷ gets
    ∷ []

run-pending_bounded_example :
    let pool = (run doubled first_item (start 1 0 (one_pass 1))).pool in
    length pool.ventilator_queue + pending_all pool.workers + reports pool.results_queue ≤ 1
unfolding init
run-pending_bounded_example =
    run-pending_bounded doubled 1 0 (dicts two_items) (count (pos 1)) false (some 1) first_item refl

get_results_loses_items_example :
    let s = run doubled (gets ∷ alone (6 * length two_items + 2)) (start 1 0 (one_pass 2)) in
    ((get_step s).1 ≡ some empty_result_error) × (s.pool.ventilator_queue ≡ two_items)
unfolding init
get_results_loses_items_example = get_results_loses_items two_items doubled 1 0 (omega arith) refl
