-- ===== src/WorkersPool/Ventilator/Order.antt =====
-- Which items are ventilated, in which order, and that the thread ends
-- (dataset_toolkit/workers_pool/ventilator.py).
use code_assist_analyzer.Prelude.{
  ℕ, zero, suc, ◌+◌, ◌-◌, ◌≤◌, ◌<◌, false, Option, none, some, List, [], ◌∷◌, ◌++◌, length,
  get_elem?, All, cycles, take, take-length, take-suc, cycles-suc, append-assoc_lem, append-nil_lem,
  ◌≡◌, ◌-◌, get_elem?-total, refl, arith, ap, sym, ◌∙◌, ok,
}
use code_assist_analyzer.Prelude.Int.{pos, ◌-ℤ◌}
use code_assist_analyzer.WorkersPool.Ventilator.Backpressure.{uncounted}
use code_assist_analyzer.WorkersPool.Ventilator.{
  Ventilator, Pc, at_completed, at_shuffle, at_room, at_send, at_count, at_wrap, at_decrement,
  finished, index_error, Event, runs, item_processed, stop_called, step, run, statement, send_item,
  processed_item, init, dicts, count,
}

-- a pass over the items that is over and not yet subtracted
abbrev pub lap_done : Pc → ℕ
lap_done at_decrement = 1
lap_done _ = 0

-- where the thread is inside a pass
abbrev pub InLap : Pc → ℕ → ℕ → ℕ → Type 0
InLap at_completed n current len = (n ≡ 0 → current ≡ 0) × (current ≤ len - 1)
InLap at_shuffle n current len = (0 < n) × (current < len)
InLap at_room n current len = (0 < n) × (current < len)
InLap at_send n current len = (0 < n) × (current < len)
InLap at_count n current len = (0 < n) × (current < len)
InLap at_wrap n current len = (0 < n) × (current ≤ len)
InLap at_decrement n current len = (0 < n) × (current ≡ 0)
InLap finished n current len = (current ≡ 0) × (0 < len → n ≡ 0)
InLap index_error n current len = ⊥

module _ {Item : Type 0} where
  -- an event of an undisturbed run: a statement of the thread, or a `processed_item`
  abbrev pub Undisturbed : Event Item → Type 0
  Undisturbed stop_called = ⊥
  Undisturbed _ = Unit

  cycles-nil : (n : ℕ) → ◌≡◌ {A = List Item} (cycles n []) []
  cycles-nil zero = refl
  cycles-nil (suc n) = cycles-nil n

  append-next :
      (before items : List Item) (n : ℕ) {x : Item}
      → get_elem? items n ≡ some x
      → (before ++ take n items) ++ x ∷ [] ≡ before ++ take (n + 1) items
  append-next before items n {x} h =
      append-assoc_lem before (take n items) (x ∷ [])
      ∙ ap (◌++◌ before)
          (sym (take-suc n items h) ∙ ap (λ k. take k items) {x = suc n} (omega arith))

  append-lap :
      (laps : ℕ) (items : List Item) (n : ℕ)
      → n ≡ length items
      → cycles laps items ++ take n items ≡ cycles (laps + 1) items ++ take 0 items
  append-lap laps items n h = rw h (
      rw take-length (
        cycles-suc laps items
        ∙ sym (append-nil_lem _)
        ∙ ap (λ k. cycles k items ++ []) {x = suc laps} (omega arith)))

module _ {Item : Type 0} (items : List Item) (iterations : ℕ) where
  pub record Cycled (v : Ventilator Item) : Type 0 where
    pub laps : ℕ
    pub left : ℕ
    pub same : v.items_to_ventilate ≡ items
    pub plain : v.randomize_item_order ≡ false
    pub remaining : v.iterations_remaining ≡ some (pos left)
    pub total : laps + left ≡ iterations
    pub place : InLap v.pc left v.current_item_to_ventilate (length items)
    pub order :
        v.sent
        ≡ cycles (laps + lap_done v.pc) items
          ++ take (v.current_item_to_ventilate + uncounted v.pc) items

  send_item-Cycled :
      (o : Option Item) (v : Ventilator Item) {x : Item}
      → o ≡ some x
      → get_elem? items v.current_item_to_ventilate ≡ some x
      → v.pc ≡ at_send
      → Cycled v
      → Cycled (send_item o v)
  send_item-Cycled none v h k e c = cc
  send_item-Cycled (some y) v {x} h k e c = record {
    laps = c.laps;
    left = c.left;
    same = c.same;
    plain = c.plain;
    remaining = c.remaining;
    total = c.total;
    place = ground arith;
    order = ground (arith, append-next (cycles c.laps items) items v.current_item_to_ventilate k);
  }

  pub statement-Cycled :
      (pc : Pc) (shuffled : List Item) (v : Ventilator Item)
      → v.pc ≡ pc
      → Cycled v
      → Cycled (statement pc shuffled v)
  unfolding statement ◌-ℤ◌
  statement-Cycled at_send shuffled v e c =
      let (x, found) = get_elem?-total items v.current_item_to_ventilate (ground arith) in
      send_item-Cycled _ v (rw c.same found) found e c
  statement-Cycled at_decrement shuffled v e c = record {
    laps = c.laps + 1;
    left = c.left - 1;
    same = c.same;
    plain = c.plain;
    remaining = ground arith;
    total = ground arith;
    place = ground arith;
    order = ground arith;
  }
  statement-Cycled at_wrap shuffled v e c = record {
    laps = c.laps;
    left = c.left;
    same = ground arith;
    plain = ground arith;
    remaining = ground arith;
    total = c.total;
    place = ground arith;
    order = ground (arith, append-lap c.laps items v.current_item_to_ventilate);
  }
  statement-Cycled _ shuffled v e c = record {
    laps = c.laps;
    left = c.left;
    same = ground arith;
    plain = ground arith;
    remaining = ground arith;
    total = c.total;
    place = ground arith;
    order = ground arith;
  }

  pub run-Cycled :
      (events : List (Event Item)) (v : Ventilator Item)
      → All Undisturbed events
      → Cycled v
      → Cycled (run events v)
  unfolding run step
  run-Cycled [] v quiet c = c
  run-Cycled (runs shuffled ∷ events) v quiet c =
      run-Cycled events (statement v.pc shuffled v) quiet.1
        (statement-Cycled v.pc shuffled v refl c)
  run-Cycled (item_processed ∷ events) v quiet c =
      run-Cycled events (processed_item v) quiet.1 (record {
        laps = c.laps;
        left = c.left;
        same = c.same;
        plain = c.plain;
        remaining = c.remaining;
        total = c.total;
        place = c.place;
        order = c.order;
      })
  run-Cycled (stop_called ∷ events) v quiet c = absurd quiet.0

  all_laps :
      (xs : List Item) (laps left : ℕ)
      → (0 < length xs → left ≡ 0)
      → cycles (laps + 0) xs ++ take 0 xs ≡ cycles (laps + left) xs
  all_laps [] laps left h =
      append-nil_lem _ ∙ cycles-nil (laps + 0) ∙ sym (cycles-nil (laps + left))
  all_laps (x ∷ xs) laps left h = rw (h (omega arith)) (append-nil_lem _)

  pub Cycled-finished :
      (v : Ventilator Item) → Cycled v → v.pc ≡ finished → v.sent ≡ cycles iterations items
  Cycled-finished v c e = ground (arith, all_laps items c.laps c.left)

  pub init-Cycled :
      (size : Option ℕ) {v : Ventilator Item}
      → init (dicts items) (count (pos iterations)) false size ≡ ok v
      → Cycled v
  unfolding init
  init-Cycled size h = record {
    laps = 0;
    left = iterations;
    same = ground arith;
    plain = ground arith;
    remaining = ground arith;
    total = omega arith;
    place = ground arith;
    order = ground arith;
  }

  -- An unshuffled ventilator that is not stopped, under every interleaving of its thread with the
  -- pool: when the thread has ended, it has ventilated the items in their order, `iterations`
  -- times over, and nothing else.
  pub finished_sends_every_pass :
      (size : Option ℕ) {v : Ventilator Item} (events : List (Event Item))
      → init (dicts items) (count (pos iterations)) false size ≡ ok v
      → All Undisturbed events
      → (run events v).pc ≡ finished
      → (run events v).sent ≡ cycles iterations items
  finished_sends_every_pass size {v} events h quiet done =
      Cycled-finished (run events v) (run-Cycled events v quiet (init-Cycled size h)) done
