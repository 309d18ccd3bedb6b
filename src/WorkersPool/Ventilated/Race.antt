-- ===== src/WorkersPool/Ventilated/Race.antt =====
-- `get_results` may say that nothing is left while every item is still to be done
-- (dataset_toolkit/workers_pool/thread_pool.py and ventilator.py).
use code_assist_analyzer.Prelude.{
  ℕ, zero, suc, ◌+◌, ◌*◌, ◌≤◌, ◌<◌, Bool, true, false, Option, none, some, List, [], ◌∷◌, ◌++◌,
  length, length-append, append-nil_lem, length-cycles, length-take_of_le, cycles, take, get_elem?,
  ◌≡◌, refl, ap, ◌∙◌, subst, inl, inr, arith, ok,
}
use code_assist_analyzer.Prelude.Int.{pos}
use code_assist_analyzer.WorkersPool.ThreadPool
use code_assist_analyzer.WorkersPool.ThreadPool.{ThreadPool, empty_result_error}
use code_assist_analyzer.WorkersPool.Ventilated.{
  System, Event, ventilates, gets, start, fed, ventilation_step, get_step, step, run,
}
use code_assist_analyzer.WorkersPool.Ventilated.Bound.{
  Agreed, ventilation_step-Agreed, start-Agreed,
}
use code_assist_analyzer.WorkersPool.Ventilator.{
  Ventilator, Pc, at_room, at_send, finished, completed, statement, thread_step, send_item, init,
  dicts, count,
}
use code_assist_analyzer.WorkersPool.Ventilator.Backpressure.{uncounted}
use code_assist_analyzer.WorkersPool.Ventilator.Order.{
  Cycled, InLap, lap_done, statement-Cycled, init-Cycled, Cycled-finished,
}
use code_assist_analyzer.WorkersPool.Ventilator.Termination.{
  measure, statement-measure, Pc-cases, init-Prompt,
}

-- the ventilation thread goes on alone
abbrev pub alone : {Item : Type 0} → ℕ → List (Event Item)
alone zero = []
alone (suc n) = ventilates [] ∷ alone n

module _ {Item R : Type 0} (items : List Item) where
  -- no worker has run: what was ventilated waits in the pool's queue
  record Alone (s : System Item R) : Type 0 where
    agreed : Agreed (length items) s.pool s.ventilator
    cycled : Cycled items 1 s.ventilator
    waiting : s.pool.ventilator_queue ≡ s.ventilator.sent

  Alone-room :
      (s : System Item R)
      → Alone s
      → s.ventilator.pc ≡ at_room
      → s.ventilator.ventilated_items_count
        < s.ventilator.max_ventilation_queue_size + s.ventilator.processed_items_count
  Alone-room s a e =
      let v = s.ventilator in
      let c = a.cycled in
      let place =
        subst (λ pc. InLap pc c.left v.current_item_to_ventilate (length items)) e c.place in
      let order =
        subst
          (λ pc.
            v.sent
            ≡ cycles (c.laps + lap_done pc) items
              ++ take (v.current_item_to_ventilate + uncounted pc) items)
          e c.order in
      let counted =
        subst (λ pc. length v.sent ≡ v.ventilated_items_count + uncounted pc) e
          a.agreed.bounded.counted in
      let no_lap =
        ap (λ k. k * length items) {x = c.laps + 0} {y = 0} (omega (arith, place.0, c.total)) in
      omega (
        arith,
        ap length order,
        length-append (cycles (c.laps + 0) items) (take (v.current_item_to_ventilate + 0) items),
        length-cycles (c.laps + 0) items,
        no_lap,
        length-take_of_le (v.current_item_to_ventilate + 0) items (omega (arith, place.1)),
        counted,
        place.1,
        a.agreed.sized,
      )

  sent-waiting :
      (o : Option Item) (pool : ThreadPool Item R) (v : Ventilator Item)
      → pool.ventilator_queue ≡ v.sent
      → (fed at_send o pool).ventilator_queue ≡ (send_item o v).sent
  unfolding ThreadPool.ventilate
  sent-waiting none pool v h = h
  sent-waiting (some item) pool v h = ap (λ q. q ++ item ∷ []) h

  fed-waiting :
      (pc : Pc) (pool : ThreadPool Item R) (v : Ventilator Item)
      → pool.ventilator_queue ≡ v.sent
      → (fed pc (get_elem? v.items_to_ventilate v.current_item_to_ventilate) pool).ventilator_queue
        ≡ (statement pc [] v).sent
  unfolding statement
  fed-waiting at_send pool v h =
      sent-waiting (get_elem? v.items_to_ventilate v.current_item_to_ventilate) pool v h
  fed-waiting _ pool v h = ground arith

  step-Alone : (s : System Item R) → Alone s → Alone (ventilation_step [] s)
  unfolding ventilation_step thread_step
  step-Alone s a = record {
    agreed = ventilation_step-Agreed [] s a.agreed;
    cycled = statement-Cycled items 1 s.ventilator.pc [] s.ventilator refl a.cycled;
    waiting = fed-waiting s.ventilator.pc s.pool s.ventilator a.waiting;
  }

  closer :
      (s : System Item R) (n : ℕ)
      → Alone s
      → measure items 1 s.ventilator ≤ suc n
      → measure items 1 (ventilation_step [] s).ventilator ≤ n
  unfolding ventilation_step thread_step statement
  closer s n a m = elim (Pc-cases items 1 s.ventilator.pc) [
    | inl e ↦ rw e (omega arith)
    | inr going ↦ omega (
      arith,
      statement-measure items 1 s.ventilator.pc s.ventilator refl going (Alone-room s a) a.cycled,
    )
  ]

  module _ (process : Item → List R × Bool) where
    run-alone :
        (n : ℕ) (s : System Item R)
        → Alone s
        → measure items 1 s.ventilator ≤ n
        → Alone (run process (alone n) s)
          × ((run process (alone n) s).ventilator.pc ≡ finished)
          × ((run process (alone n) s).asking ≡ s.asking)
    unfolding run step ventilation_step
    run-alone zero s a m = elim (Pc-cases items 1 s.ventilator.pc) [
      | inl e ↦ (a, e, refl)
      | inr going ↦ absurd (
          omega (
            arith,
            statement-measure items 1 s.ventilator.pc s.ventilator refl going (Alone-room s a)
                a.cycled,
          ))
    ]
    run-alone (suc n) s a m = run-alone n (ventilation_step [] s) (step-Alone s a) (closer s n a m)

    -- the answer, once the ventilation thread is over
    answered :
        (s : System Item R)
        → 0 < length items
        → Alone s
        → s.ventilator.pc ≡ finished
        → s.asking ≡ true
        → (get_step s).1 ≡ some empty_result_error
    unfolding get_step completed
    answered s ne a e asked =
        let v = s.ventilator in
        let place =
          subst (λ pc. InLap pc a.cycled.left v.current_item_to_ventilate (length items)) e
            a.cycled.place in
        rw (asked, a.cycled.remaining, place.1 ne) refl

    start-Alone :
        (n queue_size : ℕ) {v : Ventilator Item}
        → init (dicts items) (count (pos 1)) false none ≡ ok v
        → Alone (record (start n queue_size v) { asking = true })
    unfolding start init ThreadPool.start
    start-Alone n queue_size {v} h = record {
      agreed =
          subst (λ size. Agreed {R = R} size (ThreadPool.start n queue_size) v)
            {x = v.max_ventilation_queue_size} {y = length items} (ground arith)
            (start-Agreed process n queue_size (dicts items) (count (pos 1)) false none h);
      cycled = init-Cycled items 1 none h;
      waiting = ground arith;
    }

    -- Take any items but none at all, and a ventilator that goes over them once, in their order, with the
    -- default queue size, in a pool with any number of workers. The caller of `get_results` tests the
    -- counters first; then the ventilation thread runs to its end, within 6 statements for each item and two
    -- more; then the caller asks the ventilator. `get_results` raises EmptyResultError while every item
    -- still waits for a worker.
    pub get_results_loses_items :
        (n queue_size : ℕ) {v : Ventilator Item}
        → 0 < length items
        → init (dicts items) (count (pos 1)) false none ≡ ok v
        → let s = run process (gets ∷ alone (6 * length items + 2)) (start n queue_size v) in
          ((get_step s).1 ≡ some empty_result_error) × (s.pool.ventilator_queue ≡ items)
    unfolding run step get_step start ThreadPool.start
    get_results_loses_items n queue_size {v} ne h =
        let s = start n queue_size v in
        let (a, e, asked) =
          run-alone (6 * length items + 2) (record s { asking = true }) (start-Alone n queue_size h)
            (omega (arith, (init-Prompt items 1 none h).1)) in
        (
          answered (run process (alone (6 * length items + 2)) (record s { asking = true })) ne a e
              asked,
          a.waiting ∙ Cycled-finished items 1 _ a.cycled e ∙ append-nil_lem items,
        )
