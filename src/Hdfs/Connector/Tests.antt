-- ===== src/Hdfs/Connector/Tests.antt =====
-- Two name nodes, of which the second answers.
use code_assist_analyzer.Prelude.{
  ℕ, ◌≡◌, refl, nat_beq, false, Option, none, some, [], ◌∷◌, String, string_eq, ◌==◌, if◌then◌else◌,
  inr, arith,
}
use code_assist_analyzer.Prelude.Int.{negsuc}
use code_assist_analyzer.Hdfs.Connector.{
  Answer, answer, arrow_io_error, do_connect, failover_call, returned,
}
use code_assist_analyzer.Hdfs.Connector.Reachability.{
  connects, Connects, do_connect-reaches, client_at, outcome_of, failover_reaches_active,
}

abbrev only_second : String → Option ℕ
only_second host = if host == "nn2" then some 2 else none

abbrev both : String → Option ℕ
both host = if host == "nn2" then some 2 else some 1

abbrev second_is_active : ℕ → Answer String
second_is_active conn = if nat_beq conn 2 then answer "listing" else arrow_io_error

do_connect-reaches_example :
    Connects only_second
      ("nn1" ∷ "nn2" ∷ [])
      (do_connect (λ t host. connects (only_second host)) ("nn1" ∷ "nn2" ∷ []) (negsuc 0) 5)
do_connect-reaches_example =
    do_connect-reaches only_second ("nn1" ∷ "nn2" ∷ []) (negsuc 0) 5 (omega arith) (omega arith)

failover_reaches_active_example :
    outcome_of both second_is_active "nn1" "nn2" 1 2 (
      failover_call
        (λ t h. connects (both h))
        (λ t c. second_is_active c)
        (client_at both second_is_active "nn1" "nn2" 1 2 0 1)
        5)
    ≡ returned "listing"
failover_reaches_active_example =
    failover_reaches_active both second_is_active "nn1" "nn2" 1 2 5 "listing" false refl refl
      (inr (refl, refl))
