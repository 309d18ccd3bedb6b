-- ===== src/WorkersPool/ProcessPool/Kept.antt =====
-- A step of a worker keeps what it owes
-- (dataset_toolkit/workers_pool/process_pool.py).
use code_assist_analyzer.Prelude.{
  ℕ, ◌+◌, ◌≤◌, Bool, true, false, List, [], ◌∷◌, ◌++◌, map, length, if◌then◌else◌, ◌≡◌, refl, ap,
  subst, arith,
}
use code_assist_analyzer.WorkersPool.ThreadPool.{
  Message, result, item_processed, exception, messages,
}
use code_assist_analyzer.WorkersPool.ProcessPool.{
  Stage, polling, processing, failed, shut_down, after_send, WorkerProcess, poll, worker_step,
}
use code_assist_analyzer.WorkersPool.ProcessPool.Messages.{
  sum_by, weigh, weigh-append, reports, reports-append, Ending, append-Closed,
}
use code_assist_analyzer.WorkersPool.ProcessPool.Account.{
  sent, item_weight, stage_weight, worker_weight, open_items, outstanding, StageOk, WorkerOk,
}

module _ {Item R : Type 0} (process : Item → List R × Bool) (weight : R → ℕ) where
  pub messages-Ending :
      (item : Item)
      → Ending (messages process item)
        × (weigh weight (messages process item) ≡ (item_weight process weight) item)
  unfolding messages
  messages-Ending item = ends (process item).0 (process item).1
    where
      ends :
          (rs : List R) (raises : Bool)
          → Ending (map result rs ++ (if raises then exception else item_processed) ∷ [])
            × (weigh weight (map result rs ++ (if raises then exception else item_processed) ∷ [])
                ≡ sum_by weight rs)
      ends [] true = (tt, refl)
      ends [] false = (tt, refl)
      ends (r ∷ rs) raises = ((ends rs raises).0, ap (λ n. weight r + n) (ends rs raises).1)

  -- A message sent moves what it counts from the worker to the connection.
  pub send-kept :
      (control : Bool) (m : Message R) (ms sent : List (Message R))
      → Ending (m ∷ ms)
      → ((open_items process weight) (after_send control m ms) + reports (sent ++ m ∷ [])
          ≤ 1 + reports sent)
        × (weigh weight (sent ++ m ∷ []) + (stage_weight process weight) (after_send control m ms)
            ≡ weigh weight sent + weigh weight (m ∷ ms))
        × (StageOk process weight) (after_send control m ms) (sent ++ m ∷ [])
  send-kept control (result r) [] sent ending = absurd ending
  send-kept control (result r) (m ∷ ms) sent ending = (
    omega (arith, reports-append sent (result r ∷ [])),
    omega (arith, weigh-append weight sent (result r ∷ [])),
    ending,
  )
  send-kept true item_processed [] sent ending = (
    omega (arith, reports-append sent (item_processed ∷ [])),
    omega (arith, weigh-append weight sent (item_processed ∷ [])),
    append-Closed sent,
  )
  send-kept false item_processed [] sent ending = (
    omega (arith, reports-append sent (item_processed ∷ [])),
    omega (arith, weigh-append weight sent (item_processed ∷ [])),
    append-Closed sent,
  )
  send-kept control item_processed (m ∷ ms) sent ending = absurd ending
  send-kept control exception [] sent ending = (
    omega (arith, reports-append sent (exception ∷ [])),
    omega (arith, weigh-append weight sent (exception ∷ [])),
    tt,
  )
  send-kept control exception (m ∷ ms) sent ending = absurd ending

  -- a worker's step keeps what it owes
  abbrev pub Kept : WorkerProcess Item R → WorkerProcess Item R → Type 0
  Kept w w' =
      ((outstanding process weight) w' ≤ (outstanding process weight) w)
      × ((worker_weight process weight) w' ≡ (worker_weight process weight) w)
      × (WorkerOk process weight) w'

  pub poll-Kept :
      (items : List Item) (w : WorkerProcess Item R)
      → w.work_receiver ≡ items
      → w.stage ≡ polling
      → (WorkerOk process weight) w
      → Kept w (poll process items w)
  unfolding poll
  poll-Kept [] w empty is fine = by_control w.control_receiver
    where
      by_control : (b : Bool) → Kept w (if b then record w { stage = shut_down } else w)
      by_control true = (
        omega (arith, ap (open_items process weight) is),
        omega (arith, ap (stage_weight process weight) is),
        subst (λ s. (StageOk process weight) s w.results_sender) is fine,
      )
      by_control false = (omega arith, refl, fine)
  poll-Kept (item ∷ items) w here is fine =
      let (ending, weighed) = messages-Ending item in
      (
        omega (arith, ap length here, ap (open_items process weight) is),
        omega (
          arith,
          ap (sum_by (item_weight process weight)) here,
          ap (stage_weight process weight) is,
          weighed,
        ),
        ending,
      )

  pub worker_step-Kept :
      (stage : Stage R) (w : WorkerProcess Item R)
      → w.stage ≡ stage
      → (WorkerOk process weight) w
      → Kept w (worker_step process stage w)
  unfolding worker_step
  worker_step-Kept polling w is fine = poll-Kept w.work_receiver w refl is fine
  worker_step-Kept (processing control []) w is fine =
      absurd (subst (λ s. (StageOk process weight) s w.results_sender) is fine)
  worker_step-Kept (processing control (m ∷ ms)) w is fine =
      let (fewer, same, kept) =
        send-kept control m ms w.results_sender
          (subst (λ s. (StageOk process weight) s w.results_sender) is fine) in
      (
        omega (arith, fewer, ap (open_items process weight) is),
        omega (arith, same, ap (stage_weight process weight) is),
        kept,
      )
  worker_step-Kept failed w is fine = (omega arith, refl, fine)
  worker_step-Kept shut_down w is fine = (omega arith, refl, fine)
