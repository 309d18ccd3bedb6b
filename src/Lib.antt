-- ===== src/Lib.antt =====
-- A model of CodeAssistAnalyzer: dataset_toolkit/, the library for reading parquet datasets that the
-- repository builds and analyzes, and the scripts that collect and plot the comment metrics of its commits.
--
-- A dataset is written with a schema (Unischema, Codecs) and metadata (Metadata), optionally indexed by
-- row group (RowGroups). A Reader chooses row groups by predicate, selector and training partition
-- (Reader), the Ventilator hands them to workers (WorkersPool), and each worker loads, filters and
-- decodes the rows (Reader.Worker), through a cache (Caches), as rows or as sequences (Sequence). The
-- file system comes from a resolver with failover between HDFS name nodes (Hdfs). Separately, the
-- commit analysis (Commits) checks out commits, runs a scanner on each, and saves the metrics.
--
-- Files, with the code that each models (one function for one function or method, under its name):
-- - WorkersPool/Ventilator: ConcurrentVentilator of dataset_toolkit/workers_pool/ventilator.py. A
--   state and a step for each statement of the ventilation thread; events interleave it with the
--   pool's reports and with stop. Shuffled items are part of the event.
-- - WorkersPool/ThreadPool: dataset_toolkit/workers_pool/thread_pool.py, for a pool without a ventilator
--   of its own: the threads of the workers and the caller of get_results are steps that come in any order.
--   What a worker publishes of an item, and whether it then raises, is a parameter.
-- - WorkersPool/Ventilated: that thread pool with the ventilator that its start is given: ventilate is called by
--   the ventilation thread, and get_results asks completed after its test of the counters, in a step of its own. stop, with the join of
--   the ventilator in it, is one step.
-- - WorkersPool/ProcessPool: dataset_toolkit/workers_pool/process_pool.py, likewise; a connection keeps its
--   messages in order, and which worker gets an item or a FINISHED is part of the events.
-- - WorkersPool/DummyPool: dataset_toolkit/workers_pool/dummy_pool.py, without a ventilator of its own.
-- - Sequence: dataset_toolkit/sequence.py. Timestamps are integers.
-- - Predicates: dataset_toolkit/predicates.py. Hashes and floating-point numbers are parameters.
-- - Predicates/LogSets: dataset_toolkit/logset_predicates.py.
-- - RowGroups: dataset_toolkit/etl/rowgroup_indexers.py, rowgroup_indexing.py, and
--   dataset_toolkit/selectors.py. Pieces come decoded, and Spark's reduce goes from the left.
-- - Hdfs/Resolver and Hdfs/Connector: dataset_toolkit/hdfs/namenode.py; Hdfs/Filesystem:
--   dataset_toolkit/fs_utils.py. Connections and calls are functions of a count of such actions, so
--   that they may answer differently each time.
-- - Unischema: dataset_toolkit/unischema.py and decode_row of dataset_toolkit/utils.py, over the
--   interface Coding of codecs; Codecs: dataset_toolkit/codecs.py but for CompressedImageCodec, with numpy as
--   the record Numpy; Codecs/Coding makes them a Coding.
-- - TfUtils: dataset_toolkit/tf_utils.py, with make_namedtuple_tf of unischema.py. A named tuple is the dict of
--   its fields. Operations of tensorflow are the record Graph (TfUtils/Graph); what py_func calls is dequeue_sample_impl.
-- - Metadata: dataset_toolkit/etl/dataset_metadata.py and add_to_dataset_metadata of
--   dataset_toolkit/utils.py. json, pickle and the parquet footers are parameters.
-- - Caches: dataset_toolkit/cache.py and dataset_toolkit/local_disk_cache.py over the interface Store.
-- - Reader and Reader/Worker: dataset_toolkit/reader.py. Reading columns is a parameter, which may raise.
-- - Commits: py_analyze.py. git, the scanner, the SonarQube server and the parsing of numbers and
--   dates are the fields of the record Tools; a number that is parsed is not negative.
-- - Commits/CommentsOnly: get_comments.py, which has the other functions of py_analyze.py.
-- - Plots: the scripts that plot the metrics, over one model of JSON values, rows and the disk
--   (Plots, Plots/Disk, Plots/Entries): Plots/Daily for plot_daily.py, Plots/Periods for
--   py_plot_monthly.py, its copy py_plot.py, and plot_weekly.py, Plots/Quarterly for
--   py_plot_quarterly.py. pandas and numpy are the record Pandas; a figure is its points and trend, and
--   the metric and author that its title names.
-- - Prelude: shared helpers on tests, lists, integers, dicts, sets, texts, sorting and exceptions.
--
-- Python's exceptions are values of Result (Prelude/Errors), a dict is an association list in the order
-- of insertion (Prelude/Dict), and a set is a list without repeats (Prelude/PySet). Loops are structural
-- recursion on what they run over. Three loops count down: the failover makes at most 3 attempts, as
-- MAX_FAILOVER_ATTEMPTS has it, over at most 2 connections each; the digits of a
-- number n are written with fuel n + 1, and reading them back shows that it is enough; the bound on the rounds of the
-- ventilation thread is proved enough, not assumed.
--
-- Not modelled: the dummy and the process pool with a ventilator, joining threads and processes, timeouts and retries,
-- the adapters to Spark, log messages and the texts of errors, and petastorm/, which is a
-- copy of another project's library.
pub mod Prelude
pub mod WorkersPool
pub mod Sequence
pub mod Predicates
pub mod RowGroups
pub mod Hdfs
pub mod Commits
pub mod TfUtils
pub mod Unischema
pub mod Codecs
pub mod Metadata
pub mod Caches
pub mod Reader
pub mod Plots
