-- ===== src/WorkersPool/ProcessPool/Tests.antt =====
-- Runs of a pool of two processes (dataset_toolkit/workers_pool/process_pool.py).
use code_assist_analyzer.Prelude.{
  ℕ, Bool, true, false, some, List, [], ◌∷◌, if◌then◌else◌, ltb, runtime_error, ◌≡◌, refl,
}
use code_assist_analyzer.WorkersPool.ThreadPool.{replace, messages}
use code_assist_analyzer.WorkersPool.ProcessPool.{
  Event, ventilates, works, gets, started_worker, started_workers, start, ventilate, stop, receive,
  get_round, poll, worker_step, step, run,
}
use code_assist_analyzer.WorkersPool.ProcessPool.Messages.{sum_by}
use code_assist_analyzer.WorkersPool.ProcessPool.Account.{sent, received, item_weight}
use code_assist_analyzer.WorkersPool.ProcessPool.Delivery.{received-sent}

-- an item of 7 or more makes the worker raise, after its first result
abbrev doubles : ℕ → List ℕ × Bool
doubles item = if ltb item 7 then (item ∷ item ∷ [], false) else (item ∷ [], true)

abbrev two_items : List (Event ℕ)
two_items =
    ventilates 3 0
    ∷ ventilates 4 1
    ∷ works 1
    ∷ works 1
    ∷ gets 1
    ∷ works 0
    ∷ works 1
    ∷ works 1
    ∷ gets 1
    ∷ works 0
    ∷ works 0
    ∷ gets 0
    ∷ gets 1
    ∷ works 0
    ∷ gets 0
    ∷ gets 0
    ∷ []

results_in_the_order_received : received doubles two_items (start 2) ≡ 4 ∷ 4 ∷ 3 ∷ 3 ∷ []
unfolding received run step start started_workers started_worker ventilate worker_step get_round
    receive stop replace messages poll
results_in_the_order_received = refl

-- An item that cannot be sent is counted, and the pool never finds itself at the end of its work.
unsent_item_is_counted : (ventilate {Item = ℕ} {R = ℕ} 3 0 (start 0)).1 ≡ some runtime_error
unfolding ventilate start started_workers
unsent_item_is_counted = refl

received-sent_example :
    sum_by (λ result. result) (received doubles two_items (start 2))
    ≡ sum_by (item_weight doubles (λ result. result)) (sent doubles two_items (start 2))
unfolding run step start started_workers started_worker ventilate worker_step get_round receive stop
    replace messages poll
received-sent_example = received-sent doubles (λ result. result) 2 two_items 0 refl
