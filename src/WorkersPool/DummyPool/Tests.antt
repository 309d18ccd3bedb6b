-- ===== src/WorkersPool/DummyPool/Tests.antt =====
-- Items read from a DummyPool (dataset_toolkit/workers_pool/dummy_pool.py).
use code_assist_analyzer.Prelude.{
  ℕ, suc, Bool, true, false, List, [], ◌∷◌, ◌++◌, length, if◌then◌else◌, ltb, nat_beq, ◌≡◌, refl,
}
use code_assist_analyzer.WorkersPool.ThreadPool.{returned, raised, empty_result_error}
use code_assist_analyzer.WorkersPool.DummyPool.{init, process_items, get_results, ventilate}
use code_assist_analyzer.WorkersPool.DummyPool.Answers.{
  ventilate_all, read, answers, read-ventilate_all,
}

-- nothing is published of the item 2; an item of 7 or more makes the worker raise, after its result
abbrev small_ones : ℕ → List ℕ × Bool
small_ones item =
    if nat_beq item 2
    then ([], false)
    else (if ltb item 7 then (item ∷ item ∷ [], false) else (item ∷ [], true))

items_read :
    read small_ones 6 (ventilate_all (3 ∷ 2 ∷ 9 ∷ []) init)
    ≡ returned 3 ∷ returned 3 ∷ raised ∷ returned 9 ∷ empty_result_error ∷ empty_result_error ∷ []
unfolding read ventilate_all init ventilate get_results process_items
items_read = refl

read-ventilate_all_example :
    read small_ones
      (suc (length (answers small_ones (3 ∷ 2 ∷ 9 ∷ []))))
      (ventilate_all (3 ∷ 2 ∷ 9 ∷ []) init)
    ≡ answers small_ones (3 ∷ 2 ∷ 9 ∷ []) ++ empty_result_error ∷ []
read-ventilate_all_example = read-ventilate_all small_ones (3 ∷ 2 ∷ 9 ∷ [])
