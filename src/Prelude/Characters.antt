-- ===== src/Prelude/Characters.antt =====
-- Texts without a given character: what `replace` and `split` make of them.
use Prim.Native.Char.{Char, code}
use Prim.Native.String.{String, ◌++◌}
use Prim.Native.Nat.{ℕ}
use mathlib.Core.Path.{◌≡◌, refl, ap, ◌∙◌}
use mathlib.Core.Bool.{false}
use mathlib.Core.Logic.{inl, inr}
use mathlib.Core.List.{[], ◌∷◌}
use text.Mathlib.TextLemmas.{nil-append, cons-append}
use code_assist_analyzer.Prelude.Tests.{nat_beq, Bool-cases}
use code_assist_analyzer.Prelude.Text.{split, replace_char}

-- the character of this code does not occur
abbrev pub Without : ℕ → String → Type 0
Without old String.[] = Unit
Without old (String.◌∷◌ c text) = (nat_beq (code c) old ≡ false) × Without old text

pub append-Without : (old : ℕ) (s t : String) → Without old s → Without old t → Without old (s ++ t)
append-Without old String.[] t h k = rw (nil-append t) k
append-Without old (String.◌∷◌ c s) t h k =
    rw (cons-append c s t) (h.0, append-Without old s t h.1 k)

single-append : (c : Char) (s : String) → (String.◌∷◌ c "" ++ s) ≡ String.◌∷◌ c s
single-append c s = cons-append c "" s ∙ ap (String.◌∷◌ c) (nil-append s)

pub replace_char-Without :
    (old : ℕ) (new s : String) → Without old new → Without old (replace_char old new s)
unfolding replace_char
replace_char-Without old new String.[] h = tt
replace_char-Without old new (String.◌∷◌ c s) h = elim (Bool-cases (nat_beq (code c) old)) [
  | inl found ↦
      rw found
        (append-Without old new (replace_char old new s) h (replace_char-Without old new s h))
  | inr other ↦
      rw (other, single-append c (replace_char old new s)) (other, replace_char-Without old new s h)
]

-- replacing another character brings in none
pub replace_other-Without :
    (old kept : ℕ) (new s : String)
    → Without kept new
    → Without kept s
    → Without kept (replace_char old new s)
unfolding replace_char
replace_other-Without old kept new String.[] h k = tt
replace_other-Without old kept new (String.◌∷◌ c s) h k =
    let rest = replace_other-Without old kept new s h k.1 in
    elim (Bool-cases (nat_beq (code c) old)) [
      | inl found ↦ rw found (append-Without kept new (replace_char old new s) h rest)
      | inr other ↦ rw (other, single-append c (replace_char old new s)) (k.0, rest)
    ]

pub split_whole : (separator : ℕ) (s : String) → Without separator s → split separator s ≡ s ∷ []
unfolding split
split_whole separator String.[] h = refl
split_whole separator (String.◌∷◌ c s) h =
    rw (h.0, split_whole separator s h.1) (ap (λ w. w ∷ []) (single-append c s))
