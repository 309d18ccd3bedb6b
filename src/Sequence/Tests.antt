-- ===== src/Sequence/Tests.antt =====
-- Sequences of concrete items.
use code_assist_analyzer.Prelude.{ℕ, ◌≡◌, List, [], ◌∷◌, map, filter, All}
use code_assist_analyzer.Prelude.Int.{pos}
use code_assist_analyzer.Sequence.{Sequence, form_sequence, enumerate_from, sequence_pass_threshold}
use code_assist_analyzer.Sequence.Windows.{
  windows, IsRun, form_sequence-windows, form_sequence-IsRun,
}

abbrev pairs : Sequence
pairs = record { length = 2; delta_threshold = pos 4; timestamp_field = "id" }

abbrev timestamps : List ℕ
timestamps = 0 ∷ 3 ∷ 8 ∷ 10 ∷ []

form_sequence-windows_example :
    form_sequence (λ n. pos n) pairs timestamps
    ≡ map
        (enumerate_from 0)
        (filter (sequence_pass_threshold (λ n. pos n) (pos 4)) (windows 2 timestamps))
form_sequence-windows_example = form_sequence-windows (λ n. pos n) pairs timestamps

form_sequence-IsRun_example :
    All (IsRun (λ n. pos n) 2 (pos 4)) (form_sequence (λ n. pos n) pairs timestamps)
form_sequence-IsRun_example = form_sequence-IsRun (λ n. pos n) pairs timestamps
