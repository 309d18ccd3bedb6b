-- ===== src/Hdfs/Connector/Reachability.antt =====
-- What the name node failover of dataset_toolkit/hdfs/namenode.py reaches, when the name nodes
-- neither come up nor go down meanwhile.
use code_assist_analyzer.Prelude.{
  ℕ, Bool, true, false, if◌then◌else◌, zero, suc, ◌+◌, ◌-◌, ◌%◌, ◌≤◌, Option, none, some, List, [],
  ◌∷◌, length, get_elem?, String, All, ◌≡◌, refl, ap, ◌∙◌, ◌⊎◌, inl, inr, Option-cases, arith,
}
use code_assist_analyzer.Prelude.Int.{ℤ, pos, pos_part, neg_part}
use code_assist_analyzer.Hdfs.Connector.{
  Client, Outcome, returned, failed, hdfs_connect_error, connected, do_connect, try_next_namenode,
  try_from, next_index, Answer, answer, arrow_io_error, failover_call, failover_from,
}

-- A name node accepts a connection, or refuses it with an ArrowIOError, as one that is not active does.
abbrev pub connects : {Conn : Type 0} → Option Conn → Answer Conn
connects none = arrow_io_error
connects (some conn) = answer conn

module _ {Conn : Type 0} (up : String → Option Conn) where
  -- the client stands on a name node of the list that accepts connections
  abbrev pub OnNamenode : List String → Client Conn → Type 0
  OnNamenode namenodes client =
      (client.list_of_namenodes ≡ namenodes)
      × (k : ℕ) × (client.index_of_nn ≡ pos k)
      × (host : String) × (get_elem? namenodes k ≡ some host)
      × (up host ≡ some client.hdfs)

  abbrev pub Connects : List String → ℕ × Outcome (Client Conn) → Type 0
  Connects namenodes (time, outcome) =
      ((client : Client Conn) × (outcome ≡ returned client) × OnNamenode namenodes client)
      ⊎ ((outcome ≡ failed hdfs_connect_error) × All (λ host. up host ≡ none) namenodes)

  -- one name node is tried whatever the index
  mod_one : (m : ℕ) → m % 1 ≡ 0
  mod_one m = omega arith

  mod_two : (m : ℕ) → ((m % 2 ≡ 0) × (suc m % 2 ≡ 1)) ⊎ ((m % 2 ≡ 1) × (suc m % 2 ≡ 0))
  mod_two m = ground arith

  next_index-suc :
      (index : ℤ) (n : ℕ)
      → neg_part index ≤ 1
      → next_index index 2 n ≡ suc (pos_part index + 1 - neg_part index) % n
  next_index-suc index n h = ap (λ x. x % n) (omega arith)

  module _ (namenodes : List String) (index : ℤ) where
    -- one round of the loop, when the name node accepts the connection, and when it does not
    try_from-up :
        (tries i time : ℕ) {host : String} {conn : Conn}
        → get_elem? namenodes (next_index index i (length namenodes)) ≡ some host
        → up host ≡ some conn
        → try_from (λ t h. connects (up h)) namenodes index (suc tries) i time
          ≡ (suc time, returned (next_index index i (length namenodes), conn))
    unfolding try_from
    try_from-up tries i time here answers = rw (try_from, here, answers) refl

    try_from-down :
        (tries i time : ℕ) {host : String}
        → get_elem? namenodes (next_index index i (length namenodes)) ≡ some host
        → up host ≡ none
        → try_from (λ t h. connects (up h)) namenodes index (suc tries) i time
          ≡ try_from (λ t h. connects (up h)) namenodes index tries (suc i) (suc time)
    unfolding try_from
    try_from-down tries i time here refuses = rw (try_from, here, refuses) refl

    try_from-out :
        (i time : ℕ)
        → try_from (λ t h. connects (up h)) namenodes index zero i time
          ≡ (time, failed hdfs_connect_error)
    unfolding try_from
    try_from-out i time = refl

    -- two rounds, on two name nodes
    two_rounds :
        (time : ℕ) (a b : String)
        → get_elem? namenodes (next_index index 1 (length namenodes)) ≡ some a
        → get_elem? namenodes (next_index index 2 (length namenodes)) ≡ some b
        → ((conn : Conn) × (k : ℕ) × (t : ℕ) × (host : String) × (get_elem? namenodes k ≡ some host)
            × (up host ≡ some conn)
            × (try_from (λ t h. connects (up h)) namenodes index 2 1 time
                ≡ (t, returned (k, conn))))
          ⊎ ((up a ≡ none)
              × (up b ≡ none)
              × ((t : ℕ) × (try_from (λ t h. connects (up h)) namenodes index 2 1 time
                    ≡ (t, failed hdfs_connect_error))))
    two_rounds time a b at-a at-b = elim (Option-cases (up a)) [
      | inr (conn, h) ↦ inl (
        conn,
        next_index index 1 (length namenodes),
        suc time,
        a,
        at-a,
        h,
        try_from-up 1 1 time at-a h,
      )
      | inl h ↦ elim (Option-cases (up b)) [
        | inr (conn, h') ↦ inl (
          conn,
          next_index index 2 (length namenodes),
          suc (suc time),
          b,
          at-b,
          h',
          try_from-down 1 1 time at-a h ∙ try_from-up 0 2 (suc time) at-b h',
        )
        | inl h' ↦ inr (
          h,
          h',
          (
            suc (suc time),
            try_from-down 1 1 time at-a h
                ∙ try_from-down 0 2 (suc time) at-b h'
                ∙ try_from-out 3 (suc (suc time)),
          ),
        )
      ]
    ]

  -- what two rounds make of `_do_connect`
  connect_of_rounds :
      (nn : String) (nns : List String) (index : ℤ) (time : ℕ) (a b : String)
      → get_elem? (nn ∷ nns) (next_index index 1 (length (nn ∷ nns))) ≡ some a
      → get_elem? (nn ∷ nns) (next_index index 2 (length (nn ∷ nns))) ≡ some b
      → (up a ≡ none → up b ≡ none → All (λ host. up host ≡ none) (nn ∷ nns))
      → Connects (nn ∷ nns) (do_connect (λ t host. connects (up host)) (nn ∷ nns) index time)
  unfolding do_connect try_next_namenode
  connect_of_rounds nn nns index time a b at-a at-b down =
      elim (two_rounds (nn ∷ nns) index time a b at-a at-b) [
        | inl (conn, k, t, host, here, h, eqn) ↦ rw eqn (
            inl (
              record { list_of_namenodes = nn ∷ nns; index_of_nn = pos k; hdfs = conn },
              refl,
              (refl, k, refl, host, here, h),
            ))
        | inr (h, h', (t, eqn)) ↦ rw eqn (inr (refl, down h h'))
      ]

  -- For a list of at most two name nodes, each of which accepts connections or refuses them with an
  -- ArrowIOError, `_do_connect` reaches one that accepts the connection, and raises HdfsConnectError only
  -- when none of them does, from whichever name node the client stood on before (or from -1, at the start).
  pub do_connect-reaches :
      (namenodes : List String) (index : ℤ) (time : ℕ)
      → length namenodes ≤ 2
      → neg_part index ≤ 1
      → Connects namenodes (do_connect (λ t host. connects (up host)) namenodes index time)
  unfolding do_connect try_next_namenode
  do_connect-reaches [] index time short start = inr (refl, tt)
  do_connect-reaches (a ∷ []) index time short start =
      connect_of_rounds a [] index time a a
        (rw (mod_one (pos_part index + 1 - neg_part index)) refl)
        (rw (mod_one (pos_part index + 2 - neg_part index)) refl) (λ h h'. (h, tt))
  do_connect-reaches (a ∷ b ∷ []) index time short start =
      elim (mod_two (pos_part index + 1 - neg_part index)) [
        | inl (h, h') ↦
            connect_of_rounds a (b ∷ []) index time a b (rw h refl)
              (rw (next_index-suc index 2 start, h') refl) (λ h h'. (h, (h', tt)))
        | inr (h, h') ↦
            connect_of_rounds a (b ∷ []) index time b a (rw h refl)
              (rw (next_index-suc index 2 start, h') refl) (λ h h'. (h', (h, tt)))
      ]
  do_connect-reaches (a ∷ b ∷ c ∷ rest) index time short start = absurd (omega arith)

  module _ {A : Type 0} (call : Conn → Answer A) (a b : String) (conn_a conn_b : Conn) where
    abbrev pub client_at : ℕ → Conn → Client Conn
    client_at k conn = record { list_of_namenodes = a ∷ b ∷ []; index_of_nn = pos k; hdfs = conn }

    -- from one of the two name nodes, the client connects to the other one
    leave_first :
        (time : ℕ)
        → up b ≡ some conn_b
        → do_connect (λ t host. connects (up host)) (a ∷ b ∷ []) (pos 0) time
          ≡ (suc time, returned (client_at 1 conn_b))
    unfolding do_connect try_next_namenode
    leave_first time h =
        ap (connected (λ t host. connects (up host)) (a ∷ b ∷ []))
          (try_from-up (a ∷ b ∷ []) (pos 0) 1 1 time refl h)

    leave_second :
        (time : ℕ)
        → up a ≡ some conn_a
        → do_connect (λ t host. connects (up host)) (a ∷ b ∷ []) (pos 1) time
          ≡ (suc time, returned (client_at 0 conn_a))
    unfolding do_connect try_next_namenode
    leave_second time h =
        ap (connected (λ t host. connects (up host)) (a ∷ b ∷ []))
          (try_from-up (a ∷ b ∷ []) (pos 1) 1 1 time refl h)

    abbrev pub outcome_of : Client Conn × ℕ × Outcome A → Outcome A
    outcome_of (client, time, outcome) = outcome

    abbrev pub OneAnswers : A → Type 0
    OneAnswers x =
        ((call conn_a ≡ answer x) × (call conn_b ≡ arrow_io_error))
        ⊎ ((call conn_a ≡ arrow_io_error) × (call conn_b ≡ answer x))

    -- When two name nodes accept connections, one of them answers the call and the other raises
    -- ArrowIOError (it is on standby), the call of a client on either of them returns the answer.
    pub failover_reaches_active :
        (time : ℕ) (x : A) (on_second : Bool)
        → up a ≡ some conn_a
        → up b ≡ some conn_b
        → OneAnswers x
        → outcome_of (
            failover_call
              (λ t h. connects (up h))
              (λ t c. call c)
              (if on_second then client_at 1 conn_b else client_at 0 conn_a)
              time)
          ≡ returned x
    unfolding failover_call failover_from
    failover_reaches_active time x false up_a up_b (inl (active, standby)) = rw active refl
    failover_reaches_active time x false up_a up_b (inr (standby, active)) =
        rw standby (rw (leave_first (suc time) up_b) (rw active refl))
    failover_reaches_active time x true up_a up_b (inr (standby, active)) = rw active refl
    failover_reaches_active time x true up_a up_b (inl (active, standby)) =
        rw standby (rw (leave_second (suc time) up_a) (rw active refl))
