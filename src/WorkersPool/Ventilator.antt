-- ===== src/WorkersPool/Ventilator.antt =====
-- ConcurrentVentilator of dataset_toolkit/workers_pool/ventilator.py.
-- The ventilation thread runs one statement of `_ventilate` at a time; the pool calls
-- `processed_item` and the owner calls `stop` between any two statements.
pub mod Backpressure
pub mod Stopping
pub mod Order
pub mod Termination
mod Tests
use code_assist_analyzer.Prelude.{
  ℕ, ◌+◌, Bool, true, false, ◌&&◌, ◌||◌, Option, none, some, List, [], ◌∷◌, ◌++◌, length, get_elem?,
  leb, nat_beq, if◌then◌else◌, Result, ok, raise, value_error, ◌>>=◌,
}
use code_assist_analyzer.Prelude.Int.{ℤ, pos, ltb_ℤ, is_zero, pred_ℤ, ◌-ℤ◌}

-- the argument `iterations`: None, an int, or a value of another type
pub data Iterations : Type 0 where
  forever : Iterations
  count : ℤ → Iterations
  not_int : Iterations

-- the argument `items_to_ventilate`
pub data Items (Item : Type 0) : Type 0 where
  dicts : List Item → Items Item
  not_list_of_dicts : Items Item

-- where the ventilation thread stands in the body of `_ventilate`
pub data Pc : Type 0 where
  at_completed at_shuffle at_room at_send at_count at_wrap at_decrement : Pc
  finished index_error : Pc

pub record Ventilator (Item : Type 0) : Type 0 where
  pub items_to_ventilate : List Item
  pub iterations_remaining : Option ℤ
  pub randomize_item_order : Bool
  pub max_ventilation_queue_size : ℕ
  pub current_item_to_ventilate : ℕ
  pub ventilated_items_count : ℕ
  pub processed_items_count : ℕ
  pub pc : Pc
  pub sent : List Item  -- the arguments of the calls of `_ventilate_fn`, in order

-- the two tests of the constructor on `iterations`
abbrev pub check_iterations : Iterations → Result (Option ℤ)
check_iterations forever = ok none
check_iterations (count z) = if ltb_ℤ z (pos 1) then raise value_error else ok (some z)
check_iterations not_int = raise value_error

abbrev pub no_iterations : Option ℤ → Bool
no_iterations none = false
no_iterations (some z) = is_zero z

-- `if iterations_remaining is not None: iterations_remaining -= 1`
abbrev pub decrement : Option ℤ → Option ℤ
unfolding ◌-ℤ◌
decrement none = none
decrement (some z) = some (pred_ℤ z)

module _ {Item : Type 0} where
  abbrev pub check_items : Items Item → Result (List Item)
  check_items (dicts items) = ok items
  check_items not_list_of_dicts = raise value_error

  -- `max_ventilation_queue_size or len(items_to_ventilate)`
  abbrev pub queue_size : Option ℕ → List Item → ℕ
  queue_size none items = length items
  queue_size (some n) items = if nat_beq n 0 then length items else n

  -- `__init__`; the thread that `start` creates begins at the head of the loop
  unfoldable pub init : Items Item → Iterations → Bool → Option ℕ → Result (Ventilator Item)
  init items iterations randomize max_size = do
    remaining ← check_iterations iterations
    list ← check_items items
    ok (record {
      items_to_ventilate = list;
      iterations_remaining = remaining;
      randomize_item_order = randomize;
      max_ventilation_queue_size = queue_size max_size list;
      current_item_to_ventilate = 0;
      ventilated_items_count = 0;
      processed_items_count = 0;
      pc = at_completed;
      sent = [];
    })

  abbrev pub is_empty : List Item → Bool
  is_empty [] = true
  is_empty (x ∷ xs) = false

  unfoldable pub completed : Ventilator Item → Bool
  completed v = no_iterations v.iterations_remaining || is_empty v.items_to_ventilate

  unfoldable pub processed_item : Ventilator Item → Ventilator Item
  processed_item v = record v { processed_items_count = v.processed_items_count + 1 }

  -- the assignment of `stop`; the join that follows waits until `pc` is `finished`
  unfoldable pub stop : Ventilator Item → Ventilator Item
  stop v = record v { iterations_remaining = some (pos 0) }

  -- `ventilated - processed >= max`, over the integers
  abbrev pub queue_full : Ventilator Item → Bool
  queue_full v =
      leb (v.max_ventilation_queue_size + v.processed_items_count) v.ventilated_items_count

  abbrev pub send_item : Option Item → Ventilator Item → Ventilator Item
  send_item none v = record v { pc = index_error }
  send_item (some item) v = record v { sent = v.sent ++ item ∷ []; pc = at_count }

  -- One statement of `_ventilate`. `shuffled` is what `random.shuffle` makes of the items, should
  -- this statement be that call.
  unfoldable pub statement : Pc → List Item → Ventilator Item → Ventilator Item
  unfolding completed
  statement at_completed shuffled v = record v { pc = if completed v then finished else at_shuffle }
  statement at_shuffle shuffled v =
      if nat_beq v.current_item_to_ventilate 0 && v.randomize_item_order
      then record v { items_to_ventilate = shuffled; pc = at_room }
      else record v { pc = at_room }
  statement at_room shuffled v = record v { pc = if queue_full v then at_completed else at_send }
  statement at_send shuffled v =
      send_item (get_elem? v.items_to_ventilate v.current_item_to_ventilate) v
  statement at_count shuffled v = record v {
    current_item_to_ventilate = v.current_item_to_ventilate + 1;
    ventilated_items_count = v.ventilated_items_count + 1;
    pc = at_wrap;
  }
  statement at_wrap shuffled v =
      if leb (length v.items_to_ventilate) v.current_item_to_ventilate
      then record v { current_item_to_ventilate = 0; pc = at_decrement }
      else record v { pc = at_completed }
  statement at_decrement shuffled v = record v {
    iterations_remaining = decrement v.iterations_remaining;
    pc = at_completed;
  }
  statement finished shuffled v = v
  statement index_error shuffled v = v

  unfoldable pub thread_step : List Item → Ventilator Item → Ventilator Item
  unfolding statement
  thread_step shuffled v = statement v.pc shuffled v

-- What happens between two statements of the program.
pub data Event (Item : Type 0) : Type 0 where
  runs : List Item → Event Item
  item_processed : Event Item
  stop_called : Event Item

module _ {Item : Type 0} where
  pub step : Ventilator Item → Event Item → Ventilator Item
  unfolding thread_step processed_item stop
  step v (runs shuffled) = thread_step shuffled v
  step v item_processed = processed_item v
  step v stop_called = stop v

  pub run : List (Event Item) → Ventilator Item → Ventilator Item
  run [] v = v
  run (event ∷ events) v = run events (step v event)
