-- ===== src/WorkersPool/DummyPool.antt =====
-- DummyPool of dataset_toolkit/workers_pool/dummy_pool.py, used without a ventilator of its own: the
-- caller of `get_results` processes the items. What the worker's `process` publishes of an item, and
-- whether it then raises, is a parameter.
pub mod Answers
mod Tests
use code_assist_analyzer.Prelude.{Bool, true, false, List, [], ◌∷◌, ◌++◌}
use code_assist_analyzer.WorkersPool.ThreadPool.{GetResults, returned, raised, empty_result_error}

pub record DummyPool (Item R : Type 0) : Type 0 where
  pub ventilator_queue : List Item
  pub results_queue : List R

module _ {Item R : Type 0} where
  pub init : DummyPool Item R
  init = record { ventilator_queue = []; results_queue = [] }

  pub ventilate : Item → DummyPool Item R → DummyPool Item R
  ventilate item pool = record pool { ventilator_queue = pool.ventilator_queue ++ item ∷ [] }

  module _ (process : Item → List R × Bool) where
    -- the loop of `get_results`, at an empty results queue
    pub process_items : List Item → DummyPool Item R × GetResults R
    process_items [] = (record { ventilator_queue = []; results_queue = [] }, empty_result_error)
    process_items (item ∷ items) =
        let (published, raises) = process item in
        elim raises [
          | true ↦ (record { ventilator_queue = items; results_queue = published }, raised)
          | false ↦ elim published [
            | [] ↦ process_items items
            | result ∷ rest ↦
                (record { ventilator_queue = items; results_queue = rest }, returned result)
          ]
        ]

    pub get_results : DummyPool Item R → DummyPool Item R × GetResults R
    unfolding process_items
    get_results pool = elim pool.results_queue [
      | [] ↦ process_items pool.ventilator_queue
      | result ∷ rest ↦ (record pool { results_queue = rest }, returned result)
    ]
