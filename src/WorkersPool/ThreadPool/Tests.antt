-- ===== src/WorkersPool/ThreadPool/Tests.antt =====
-- A run of a pool of two workers (dataset_toolkit/workers_pool/thread_pool.py).
use code_assist_analyzer.Prelude.{
  ℕ, Bool, true, false, some, List, [], ◌∷◌, if◌then◌else◌, ltb, ◌≡◌, refl,
}
use code_assist_analyzer.WorkersPool.ThreadPool.{
  Event, ThreadPool, ventilates, works, gets, start, run, get_round, raised, worker_step, step,
  messages, replace, idle_workers, ventilate, stop,
}
use code_assist_analyzer.WorkersPool.ThreadPool.Quiet.{run-Quiet, Quiet}

-- an item of 7 or more makes the worker raise, after its first result
abbrev doubles : ℕ → List ℕ × Bool
doubles item = if ltb item 7 then (item ∷ item ∷ [], false) else (item ∷ [], true)

abbrev one_item : List (Event ℕ)
one_item =
    ventilates 3
    ∷ works 1
    ∷ works 1
    ∷ gets
    ∷ works 1
    ∷ works 1
    ∷ gets
    ∷ works 1
    ∷ works 1
    ∷ gets
    ∷ []

abbrev bad_item : List (Event ℕ)
bad_item = ventilates 9 ∷ works 0 ∷ works 0 ∷ works 0 ∷ gets ∷ works 0 ∷ []

abbrev after : List (Event ℕ) → ThreadPool ℕ ℕ
after events = run doubles events (start 2 1)

bad_item_raises : (get_round (after bad_item)).1 ≡ some raised
unfolding run step start idle_workers worker_step get_round messages replace ventilate stop
bad_item_raises = refl

run-Quiet_example : Quiet (run doubles one_item (start 2 1))
unfolding run step start idle_workers worker_step get_round messages replace ventilate stop
run-Quiet_example = run-Quiet doubles 2 1 one_item refl
