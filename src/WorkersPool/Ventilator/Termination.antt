-- ===== src/WorkersPool/Ventilator/Termination.antt =====
-- With a pool that keeps up, the ventilation thread ends
-- (dataset_toolkit/workers_pool/ventilator.py).
use code_assist_analyzer.Prelude.{
  ℕ, zero, suc, ◌+◌, ◌-◌, ◌*◌, ◌≤◌, ◌<◌, false, Option, none, some, List, [], ◌∷◌, length,
  get_elem?, All, cycles, ◌≡◌, ◌≢◌, ◌-◌, get_elem?-total, refl, arith, ap, subst, sym, ◌∙◌, ok, ◌⊎◌,
  inl, inr,
}
use code_assist_analyzer.Prelude.Int.{pos, ℤ, ◌-ℤ◌}
use code_assist_analyzer.WorkersPool.Ventilator.Order.{
  Cycled, Undisturbed, run-Cycled, init-Cycled, Cycled-finished,
}
use code_assist_analyzer.WorkersPool.Ventilator.{
  Ventilator, Pc, at_completed, at_shuffle, at_room, at_send, at_count, at_wrap, at_decrement,
  finished, index_error, Event, runs, item_processed, step, run, statement, send_item, init, dicts,
  count,
}

-- The rounds of a pool that reports each item before the thread's next statement.
abbrev pub prompt_round : {Item : Type 0} → Pc → List (Event Item)
prompt_round at_count = runs [] ∷ item_processed ∷ []
prompt_round _ = runs [] ∷ []

pub prompt : {Item : Type 0} → ℕ → Ventilator Item → Ventilator Item
prompt zero v = v
prompt (suc n) v = prompt n (run (prompt_round v.pc) v)

-- statements done since the head of the loop
abbrev pub passed : Pc → ℕ
passed at_shuffle = 1
passed at_room = 2
passed at_send = 3
passed at_count = 4
passed _ = 0

abbrev pub weight : Pc → ℕ → ℕ → ℕ → ℕ
weight finished left current len = 0
weight index_error left current len = 0
weight at_wrap left current len = left * (6 * len + 1) + 2 - 6 * current
weight at_decrement left current len = (left - 1) * (6 * len + 1) + 2
weight pc left current len = left * (6 * len + 1) + 1 - 6 * current - passed pc

one_less : (n m : ℕ) → 0 < n → n * m ≡ (n - 1) * m + m
one_less zero m h = elim h [ ]
one_less (suc n) m h = grind arith

abbrev pub left_of : Option ℤ → ℕ
left_of (some (pos n)) = n
left_of _ = 0

module _ {Item : Type 0} (items : List Item) (iterations : ℕ) where
  abbrev pub measure : Ventilator Item → ℕ
  measure v =
      weight v.pc (left_of v.iterations_remaining) v.current_item_to_ventilate (length items)

  send_item-measure :
      (o : Option Item) (v : Ventilator Item) {x : Item}
      → o ≡ some x
      → v.pc ≡ at_send
      → Cycled items iterations v
      → measure (send_item o v) < measure v
  send_item-measure none v h e c = cc
  send_item-measure (some x) v h e c = ground (arith, one_less c.left (6 * length items + 1))

  pub statement-measure :
      (pc : Pc) (v : Ventilator Item)
      → v.pc ≡ pc
      → v.pc ≢ finished
      → (pc ≡ at_room
          → v.ventilated_items_count < v.max_ventilation_queue_size + v.processed_items_count)
      → Cycled items iterations v
      → measure (statement pc [] v) < measure v
  unfolding statement ◌-ℤ◌
  statement-measure at_send v e nf room c =
      let (x, found) = get_elem?-total items v.current_item_to_ventilate (ground arith) in
      send_item-measure _ v {x = x} (rw c.same found) e c
  statement-measure at_completed v e nf room c =
      ground (arith, one_less c.left (6 * length items + 1))
  statement-measure at_room v e nf room c =
      ground (arith, room refl, one_less c.left (6 * length items + 1))
  statement-measure _ v e nf room c = ground (arith, one_less c.left (6 * length items + 1))

  -- the pool has reported all that was counted, and there is room for an item
  pub record Prompt (v : Ventilator Item) : Type 0 where
    cycled : Cycled items iterations v
    settled : v.processed_items_count ≡ v.ventilated_items_count
    sized : 0 < length items → 0 < v.max_ventilation_queue_size

  send_item-counts :
      (o : Option Item) (v : Ventilator Item)
      → ((send_item o v).ventilated_items_count ≡ v.ventilated_items_count)
        × ((send_item o v).processed_items_count ≡ v.processed_items_count)
        × ((send_item o v).max_ventilation_queue_size ≡ v.max_ventilation_queue_size)
  send_item-counts none v = (refl, refl, refl)
  send_item-counts (some x) v = (refl, refl, refl)

  prompt_round-Undisturbed : (pc : Pc) → All Undisturbed (prompt_round {Item = Item} pc)
  prompt_round-Undisturbed at_count = omega arith
  prompt_round-Undisturbed _ = omega arith

  round-counts :
      (pc : Pc) (v : Ventilator Item)
      → v.pc ≡ pc
      → let w = run (prompt_round pc) v in
        (v.processed_items_count ≡ v.ventilated_items_count
          → w.processed_items_count ≡ w.ventilated_items_count)
        × (w.max_ventilation_queue_size ≡ v.max_ventilation_queue_size)
  unfolding run step statement
  round-counts at_count v e = rw e (λ h. ground arith, refl)
  round-counts at_send v e =
      let counts =
        send_item-counts (get_elem? v.items_to_ventilate v.current_item_to_ventilate) v in
      subst
        (λ q.
          let w = statement q [] v in
          (v.processed_items_count ≡ v.ventilated_items_count
            → w.processed_items_count ≡ w.ventilated_items_count)
          × (w.max_ventilation_queue_size ≡ v.max_ventilation_queue_size))
        (sym e) (λ h. counts.1 ∙ h ∙ sym counts.0, counts.2)
  round-counts _ v e = rw e (λ h. ground arith, ground arith)

  round-measure :
      (pc : Pc) (v : Ventilator Item)
      → v.pc ≡ pc
      → measure (run (prompt_round pc) v) ≡ measure (statement pc [] v)
  unfolding run step statement
  round-measure at_count v e = rw e refl
  round-measure _ v e = rw e refl

  round-Prompt : (v : Ventilator Item) → Prompt v → Prompt (run (prompt_round v.pc) v)
  round-Prompt v p =
      let counts = round-counts v.pc v refl in
      record {
        cycled =
            run-Cycled items iterations (prompt_round v.pc) v (prompt_round-Undisturbed v.pc)
              p.cycled;
        settled = counts.0 p.settled;
        sized = λ ne. rw counts.1 (p.sized ne);
      }

  round_closer :
      (v : Ventilator Item)
      → Prompt v
      → v.pc ≢ finished
      → measure (run (prompt_round v.pc) v) < measure v
  round_closer v p nf = rw (round-measure v.pc v refl) (
      statement-measure v.pc v refl nf (λ e. let inside = p.cycled.place in ground (arith, p.sized))
        p.cycled)

  pub Pc-cases : (pc : Pc) → (pc ≡ finished) ⊎ (pc ≢ finished)
  Pc-cases finished = inl refl
  Pc-cases _ = inr (λ e. cc)

  prompt-finished : (n : ℕ) (v : Ventilator Item) → v.pc ≡ finished → prompt n v ≡ v
  unfolding prompt run step statement
  prompt-finished zero v e = refl
  prompt-finished (suc n) v e =
      let still : statement v.pc [] v ≡ v = subst (λ q. statement q [] v ≡ v) (sym e) refl in
      ap (prompt n) (subst (λ q. run (prompt_round q) v ≡ v) (sym e) still) ∙ prompt-finished n v e

  prompt-Prompt :
      (n : ℕ) (v : Ventilator Item)
      → Prompt v
      → measure v ≤ n
      → Prompt (prompt n v) × ((prompt n v).pc ≡ finished)
  unfolding prompt
  prompt-Prompt zero v p m = elim (Pc-cases v.pc) [
    | inl e ↦ (p, e)
    | inr nf ↦ absurd (omega (arith, round_closer v p nf))
  ]
  prompt-Prompt (suc n) v p m = elim (Pc-cases v.pc) [
    | inl e ↦ rw (prompt-finished (suc n) v e) (p, e)
    | inr nf ↦
        prompt-Prompt n (run (prompt_round v.pc) v) (round-Prompt v p)
          (omega (arith, round_closer v p nf))
  ]

  pub init-Prompt :
      (size : Option ℕ) {v : Ventilator Item}
      → init (dicts items) (count (pos iterations)) false size ≡ ok v
      → Prompt v × (measure v ≤ iterations * (6 * length items + 1) + 1)
  unfolding init
  init-Prompt size h = (
    record {
      cycled = init-Cycled items iterations size h;
      settled = ground arith;
      sized = λ ne. ground arith;
    },
    ground arith,
  )

  -- Where the pool reports every item before the thread goes on, an unshuffled ventilator over
  -- `iterations` passes of a list of n items ends within iterations * (6 n + 1) + 1 rounds, having
  -- ventilated the items in order, `iterations` times over.
  pub prompt_finishes :
      (size : Option ℕ) {v : Ventilator Item}
      → init (dicts items) (count (pos iterations)) false size ≡ ok v
      → let w = prompt (iterations * (6 * length items + 1) + 1) v in
        (w.pc ≡ finished) × (w.sent ≡ cycles iterations items)
  prompt_finishes size {v} h =
      let (p, m) = init-Prompt size h in
      let (p', e) = prompt-Prompt (iterations * (6 * length items + 1) + 1) v p m in
      (e, Cycled-finished items iterations _ p'.cycled e)
