-- ===== src/Hdfs.antt =====
-- HDFS access: dataset_toolkit/hdfs/namenode.py and dataset_toolkit/fs_utils.py.
pub mod Resolver
pub mod Connector
pub mod Filesystem
