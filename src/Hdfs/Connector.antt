-- ===== src/Hdfs/Connector.antt =====
-- HdfsConnector, HAHdfsClient and namenode_failover of dataset_toolkit/hdfs/namenode.py.
-- Connecting to a name node and calling it may answer differently each time: both are functions of
-- the number of such actions before, which the operations count.
pub mod Reachability
mod Tests
use code_assist_analyzer.Prelude.{
  ℕ, zero, suc, ◌+◌, ◌-◌, ◌%◌, Bool, true, false, Option, none, some, List, [], ◌∷◌, length,
  get_elem?, String, leb, if◌then◌else◌, nat_beq,
}
use code_assist_analyzer.Prelude.Int.{ℤ, pos, negsuc, pos_part, neg_part}

abbrev pub max_namenodes : ℕ
max_namenodes = 2

abbrev pub max_failover_attempts : ℕ
max_failover_attempts = 2

-- what ends an operation that does not return
pub data Failure : Type 0 where
  hdfs_connect_error : Failure
  max_failovers_exceeded : ℕ → Failure  -- with the number of failed exceptions
  assertion_error : Failure
  other_error : Failure

pub data Outcome (A : Type 0) : Type 0 where
  returned : A → Outcome A
  failed : Failure → Outcome A

-- what a connection to a name node or a call of a file system method does
pub data Answer (A : Type 0) : Type 0 where
  answer : A → Answer A
  arrow_io_error : Answer A
  other_exception : Answer A

pub record Client (Conn : Type 0) : Type 0 where
  pub list_of_namenodes : List String
  pub index_of_nn : ℤ
  pub hdfs : Conn

-- `(index_of_nn + i) % nn_len`, for an index that is at least -1 and an `i` that is at least 1
abbrev pub next_index : ℤ → ℕ → ℕ → ℕ
next_index index_of_nn i nn_len = (pos_part index_of_nn + i - neg_part index_of_nn) % nn_len

module _ {Conn : Type 0} (connect : ℕ → String → Answer Conn) where
  -- The loop of `_try_next_namenode` from `i`, with `tries` rounds left: the time, and the index and
  -- connection. A name node that is absent from the list is an IndexError, which cannot occur.
  pub try_from : List String → ℤ → ℕ → ℕ → ℕ → ℕ × Outcome (ℕ × Conn)
  try_from namenodes index_of_nn zero i time = (time, failed hdfs_connect_error)
  try_from namenodes index_of_nn (suc tries) i time =
      let idx = next_index index_of_nn i (length namenodes) in
      let rest = try_from namenodes index_of_nn tries (suc i) (suc time) in
      elim (get_elem? namenodes idx) [
        | none ↦ (time, failed other_error)
        | some host ↦ elim (connect time host) [
          | answer conn ↦ (suc time, returned (idx, conn))
          | other_exception ↦ (suc time, failed other_error)
          | arrow_io_error ↦ rest
        ]
      ]

  pub try_next_namenode : List String → ℤ → ℕ → ℕ × Outcome (ℕ × Conn)
  unfolding try_from
  try_next_namenode [] index_of_nn time = (time, failed hdfs_connect_error)
  try_next_namenode (nn ∷ nns) index_of_nn time =
      try_from (nn ∷ nns) index_of_nn max_namenodes 1 time

  abbrev connected : List String → ℕ × Outcome (ℕ × Conn) → ℕ × Outcome (Client Conn)
  connected namenodes (time, failed error) = (time, failed error)
  connected namenodes (time, returned (idx, conn)) = (
    time,
    returned (record { list_of_namenodes = namenodes; index_of_nn = pos idx; hdfs = conn }),
  )

  -- `_do_connect`, from the index of the last name node
  pub do_connect : List String → ℤ → ℕ → ℕ × Outcome (Client Conn)
  unfolding try_next_namenode
  do_connect namenodes index_of_nn time =
      connected namenodes (try_next_namenode namenodes index_of_nn time)

  -- `connect_to_either_namenode`, and the constructor of HAHdfsClient
  pub connect_to_either_namenode : List String → ℕ → ℕ × Outcome (Client Conn)
  unfolding do_connect
  connect_to_either_namenode namenodes time =
      if leb (length namenodes) max_namenodes
      then do_connect namenodes (negsuc 0) time
      else (time, failed assertion_error)

  module _ {A : Type 0} (call : ℕ → Conn → Answer A) where
    -- The loop of `namenode_failover.__call__`: `left` more attempts, after `failures`. The client
    -- that is left, the time, and what the call came to.
    pub failover_from : ℕ → ℕ → Client Conn → ℕ → Client Conn × ℕ × Outcome A
    unfolding do_connect
    failover_from zero failures client time =
        (client, time, failed (max_failovers_exceeded failures))
    failover_from (suc left) failures client time = elim (call time client.hdfs) [
      | answer a ↦ (client, suc time, returned a)
      | other_exception ↦ (client, suc time, failed other_error)
      | arrow_io_error ↦
          let (time', reconnected) =
            do_connect client.list_of_namenodes client.index_of_nn (suc time) in
          elim reconnected [
            | failed error ↦ (client, time', failed error)
            | returned client' ↦ failover_from left (suc failures) client' time'
          ]
    ]

    -- `while len(failures) <= self.MAX_FAILOVER_ATTEMPTS`
    pub failover_call : Client Conn → ℕ → Client Conn × ℕ × Outcome A
    unfolding failover_from
    failover_call client time = failover_from (suc max_failover_attempts) 0 client time
