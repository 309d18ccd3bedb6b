-- ===== src/WorkersPool.antt =====
-- dataset_toolkit/workers_pool: the ventilator and the pools that it feeds.
pub mod Ventilator
pub mod ThreadPool
pub mod DummyPool
pub mod ProcessPool
pub mod Ventilated
