-- ===== src/Codecs/Tests.antt =====
-- Shapes of concrete arrays.
use code_assist_analyzer.Prelude.{ℕ, Option, List, ◌≡◌, ◌↔◌, true, none, some, [], ◌∷◌, length}
use code_assist_analyzer.Codecs.{is_compliant_shape}
use code_assist_analyzer.Codecs.Shapes.{Agree, is_compliant_shape_iff}

abbrev points : List ℕ
points = 1 ∷ 2 ∷ 3 ∷ []

abbrev any_number : List (Option ℕ)
any_number = some 1 ∷ none ∷ some 3 ∷ []

is_compliant_shape_iff_example :
    (is_compliant_shape points any_number ≡ true)
    ↔ ((length points ≡ length any_number) × Agree points any_number)
is_compliant_shape_iff_example =
    is_compliant_shape_iff points any_number
      (((λ h. cc), ((λ h. cc), ((λ h. cc), tt))), ((λ h. cc), ((λ h. cc), ((λ h. cc), tt))))
