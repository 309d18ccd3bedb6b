-- ===== src/WorkersPool/Ventilator/Stopping.antt =====
-- What `stop` does to the ventilation thread (dataset_toolkit/workers_pool/ventilator.py).
use code_assist_analyzer.Prelude.{
  ℕ, ◌+◌, ◌≤◌, ◌<◌, Bool, true, false, Option, none, some, List, [], ◌∷◌, length, get_elem?, All,
  ◌≡◌, ◌≢◌, ◌-◌, map, get_elem?-total, refl, arith,
}
use code_assist_analyzer.Prelude.Int.{pos, negsuc, ℤ, ◌-ℤ◌}
use code_assist_analyzer.WorkersPool.Ventilator.{
  Ventilator, Pc, at_completed, at_shuffle, at_room, at_send, at_count, at_wrap, at_decrement,
  finished, index_error, Event, runs, item_processed, stop_called, step, run, statement, send_item,
  stop, processed_item,
}

abbrev is_stop : {Item : Type 0} → Event Item → Bool
is_stop stop_called = true
is_stop _ = false

-- The counter has gone below zero, or is about to: the last item of a pass has been handed over, and
-- the decrement is still to come.
abbrev IsLost : ℕ → Pc → ℕ → Option ℤ → Type 0
IsLost len pc current (some (negsuc n)) = pc ≢ finished
IsLost len at_count current (some (pos n)) = (n ≡ 0) × (len ≤ current + 1)
IsLost len at_wrap current (some (pos n)) = (n ≡ 0) × (len ≤ current)
IsLost len at_decrement current (some (pos n)) = n ≡ 0
IsLost _ _ _ _ = ⊥

-- statements until the thread ends, once `stop` has been called
abbrev pub distance : Pc → ℕ
distance finished = 0
distance at_completed = 1
distance at_wrap = 2
distance at_count = 3
distance at_send = 4
distance at_room = 5
distance at_shuffle = 6
distance _ = 7

abbrev NotLast : Pc → ℕ → ℕ → Type 0
NotLast finished current len = Unit
NotLast at_completed current len = Unit
NotLast at_wrap current len = current < len
NotLast at_decrement current len = ⊥
NotLast index_error current len = ⊥
NotLast _ current len = current + 1 < len

module _ {Item : Type 0} where
  abbrev pub Lost : Ventilator Item → Type 0
  Lost v =
      IsLost (length v.items_to_ventilate) v.pc v.current_item_to_ventilate v.iterations_remaining

  send_item-Lost :
      (o : Option Item) (v : Ventilator Item) {n : ℕ}
      → v.iterations_remaining ≡ some (negsuc n)
      → Lost (send_item o v)
  send_item-Lost none v h = ground arith
  send_item-Lost (some x) v h = ground arith

  statement-Lost :
      (pc : Pc) (shuffled : List Item) (v : Ventilator Item)
      → v.pc ≡ pc
      → 0 < length v.items_to_ventilate
      → length shuffled ≡ length v.items_to_ventilate
      → Lost v
      → Lost (statement pc shuffled v)
  unfolding statement ◌-ℤ◌
  statement-Lost at_send shuffled v e ne sh b = ground arith
  statement-Lost at_decrement shuffled v e ne sh b = ground arith
  statement-Lost _ shuffled v e ne sh b = ground arith

  -- an event other than a second `stop`, whose shuffle has the items' number
  abbrev pub Quiet : ℕ → Event Item → Type 0
  Quiet len (runs shuffled) = length shuffled ≡ len
  Quiet len item_processed = Unit
  Quiet len stop_called = ⊥

  length-statement :
      (pc : Pc) (shuffled : List Item) (v : Ventilator Item)
      → length shuffled ≡ length v.items_to_ventilate
      → length (statement pc shuffled v).items_to_ventilate ≡ length v.items_to_ventilate
  unfolding statement
  length-statement at_send shuffled v e =
      send_keeps (get_elem? v.items_to_ventilate v.current_item_to_ventilate)
    where
      send_keeps :
          (o : Option Item)
          → length (send_item o v).items_to_ventilate ≡ length v.items_to_ventilate
      send_keeps none = refl
      send_keeps (some x) = refl
  length-statement _ shuffled v e = ground arith

  run-Lost :
      (events : List (Event Item)) (v : Ventilator Item)
      → 0 < length v.items_to_ventilate
      → All (Quiet (length v.items_to_ventilate)) events
      → Lost v
      → Lost (run events v)
  unfolding run step
  run-Lost [] v ne quiet h = h
  run-Lost (runs shuffled ∷ events) v ne quiet h =
      let same = length-statement v.pc shuffled v quiet.0 in
      run-Lost events (statement v.pc shuffled v) (omega arith) (rw same quiet.1)
        (statement-Lost v.pc shuffled v refl ne quiet.0 h)
  run-Lost (item_processed ∷ events) v ne quiet h = run-Lost events (processed_item v) ne quiet.1 h
  run-Lost (stop_called ∷ events) v ne quiet h = absurd quiet.0

  Lost-unfinished : (v : Ventilator Item) → Lost v → v.pc ≢ finished
  Lost-unfinished v h = ground arith

  -- A `stop` that comes while the ventilation thread is inside the call of `_ventilate_fn` for the
  -- last item of a pass, the number of iterations being finite, is lost: the decrement that
  -- follows takes the counter below zero, and the thread never leaves its loop, whatever is
  -- processed later, so that the join of `stop` waits for ever (a second `stop` aside).
  pub stop_in_last_item_never_finishes :
      (v : Ventilator Item) (events : List (Event Item))
      → v.pc ≡ at_count
      → 0 < length v.items_to_ventilate
      → length v.items_to_ventilate ≤ v.current_item_to_ventilate + 1
      → All (Quiet (length v.items_to_ventilate)) events
      → (run events (stop v)).pc ≢ finished
  unfolding stop
  stop_in_last_item_never_finishes v events at ne last quiet =
      Lost-unfinished (run events (stop v)) (run-Lost events (stop v) ne quiet (ground arith))

  record Ending (v : Ventilator Item) : Type 0 where
    zeroed : v.iterations_remaining ≡ some (pos 0)
    inside : NotLast v.pc v.current_item_to_ventilate (length v.items_to_ventilate)

  send_item-Ending :
      (o : Option Item) (v : Ventilator Item) {x : Item}
      → o ≡ some x
      → v.pc ≡ at_send
      → Ending v
      → Ending (send_item o v) × (distance (send_item o v).pc ≡ 3)
  send_item-Ending none v e h b = cc
  send_item-Ending (some x) v e h b = ground arith

  statement-Ending :
      (pc : Pc) (shuffled : List Item) (v : Ventilator Item)
      → v.pc ≡ pc
      → length shuffled ≡ length v.items_to_ventilate
      → Ending v
      → Ending (statement pc shuffled v)
        × (distance (statement pc shuffled v).pc ≤ distance v.pc - 1)
  unfolding statement
  statement-Ending at_send shuffled v e sh b =
      let (x, found) =
        get_elem?-total v.items_to_ventilate v.current_item_to_ventilate (ground arith) in
      let (keeps, three) = send_item-Ending _ v found e b in (keeps, ground arith)
  statement-Ending _ shuffled v e sh b = ground arith

  run-Ending :
      (shuffles : List (List Item)) (v : Ventilator Item)
      → All (λ s. length s ≡ length v.items_to_ventilate) shuffles
      → Ending v
      → distance v.pc ≤ length shuffles
      → (run (map runs shuffles) v).pc ≡ finished
  unfolding run step
  run-Ending [] v sh b d = ground arith
  run-Ending (s ∷ shuffles) v sh b d =
      let (b', closer) = statement-Ending v.pc s v refl sh.0 b in
      let same = length-statement v.pc s v sh.0 in
      run-Ending shuffles (statement v.pc s v) (rw same sh.1) b' (omega arith)

  -- A `stop` that comes anywhere else in the loop, with an item left in the pass after the current
  -- one, is obeyed: the thread ends within six more statements.
  pub stop_elsewhere_finishes :
      (v : Ventilator Item) (shuffles : List (List Item))
      → v.pc ≢ at_decrement
      → v.pc ≢ index_error
      → v.current_item_to_ventilate + 1 < length v.items_to_ventilate
      → All (λ s. length s ≡ length v.items_to_ventilate) shuffles
      → length shuffles ≡ 6
      → (run (map runs shuffles) (stop v)).pc ≡ finished
  unfolding stop
  stop_elsewhere_finishes v shuffles d i inside sh six =
      run-Ending shuffles (stop v) sh (record { zeroed = refl; inside = ground arith })
        (ground arith)
