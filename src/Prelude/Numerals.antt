-- ===== src/Prelude/Numerals.antt =====
-- Decimal numerals of Python's `str`, and names made of a text, `_` and a numeral.
use Prim.Native.Char.{Char, code}
use Prim.Native.String.{String, ◌++◌}
use Prim.Native.Nat.{ℕ, zero, suc, ◌+◌, ◌-◌, ◌*◌, ◌/◌, ◌%◌, ◌<◌}
use mathlib.Core.Path.{◌≡◌, refl, ap, sym, subst, ◌∙◌}
use mathlib.Core.Logic.{inl, inr}
use mathlib.Core.List.{[], ◌∷◌}
use native.Mathlib.Omega.{arith}
use text.Mathlib.TextLemmas.{nil-append, cons-append, append-nil}
use code_assist_analyzer.Prelude.Tests.{ltb, ltb→lt, if◌then◌else◌, Bool-cases}
use code_assist_analyzer.Prelude.Text.{join}
use code_assist_analyzer.Prelude.Characters.{Without}

abbrev digit_char : ℕ → Char
digit_char zero = "0"
digit_char (suc zero) = "1"
digit_char (suc (suc zero)) = "2"
digit_char (suc (suc (suc zero))) = "3"
digit_char (suc (suc (suc (suc zero)))) = "4"
digit_char (suc (suc (suc (suc (suc zero))))) = "5"
digit_char (suc (suc (suc (suc (suc (suc zero)))))) = "6"
digit_char (suc (suc (suc (suc (suc (suc (suc zero))))))) = "7"
digit_char (suc (suc (suc (suc (suc (suc (suc (suc zero)))))))) = "8"
digit_char _ = "9"

-- the digits of `n` before those of `text`, for `n` below the fuel
digits_before : ℕ → ℕ → String → String
digits_before zero n text = text
digits_before (suc fuel) n text =
    let more = digits_before fuel (n / 10) (String.◌∷◌ (digit_char (n % 10)) text) in
    if ltb n 10 then String.◌∷◌ (digit_char n) text else more

-- `str(n)`
pub str : ℕ → String
unfolding digits_before
str n = digits_before (suc n) n ""

read : ℕ → String → ℕ
read n String.[] = n
read n (String.◌∷◌ c text) = read (n * 10 + (code c - 48)) text

code-digit_char : (n : ℕ) → n < 10 → code (digit_char n) - 48 ≡ n
code-digit_char zero h = refl
code-digit_char (suc zero) h = refl
code-digit_char (suc (suc zero)) h = refl
code-digit_char (suc (suc (suc zero))) h = refl
code-digit_char (suc (suc (suc (suc zero)))) h = refl
code-digit_char (suc (suc (suc (suc (suc zero))))) h = refl
code-digit_char (suc (suc (suc (suc (suc (suc zero)))))) h = refl
code-digit_char (suc (suc (suc (suc (suc (suc (suc zero))))))) h = refl
code-digit_char (suc (suc (suc (suc (suc (suc (suc (suc zero)))))))) h = refl
code-digit_char (suc (suc (suc (suc (suc (suc (suc (suc (suc n))))))))) h = omega arith

-- reading the last digit of `n` after those before it gives `n`
read_last :
    (n : ℕ) (text : String) → read (n / 10) (String.◌∷◌ (digit_char (n % 10)) text) ≡ read n text
unfolding read
read_last n text = ap (λ k. read k text) (omega (arith, code-digit_char (n % 10) (omega arith)))

read-digits_before :
    (fuel n : ℕ) (text : String) → n < fuel → read 0 (digits_before fuel n text) ≡ read n text
unfolding read digits_before
read-digits_before zero n text h = omega arith
read-digits_before (suc fuel) n text h = elim (Bool-cases (ltb n 10)) [
  | inl small ↦
      rw small (ap (λ k. read k text) (omega (arith, code-digit_char n (ltb→lt n 10 small))))
  | inr large ↦ rw large (read-digits_before fuel (n / 10) _ (ground arith) ∙ read_last n text)
]

-- Different numbers have different numerals.
pub str-injective : (n m : ℕ) → str n ≡ str m → n ≡ m
unfolding str read
str-injective n m h =
    sym (read-digits_before (suc n) n "" (omega arith))
    ∙ ap (read 0) h
    ∙ read-digits_before (suc m) m "" (omega arith)

digit_char-Without :
    (n : ℕ) (text : String) → Without 95 text → Without 95 (String.◌∷◌ (digit_char n) text)
digit_char-Without zero text h = (refl, h)
digit_char-Without (suc zero) text h = (refl, h)
digit_char-Without (suc (suc zero)) text h = (refl, h)
digit_char-Without (suc (suc (suc zero))) text h = (refl, h)
digit_char-Without (suc (suc (suc (suc zero)))) text h = (refl, h)
digit_char-Without (suc (suc (suc (suc (suc zero))))) text h = (refl, h)
digit_char-Without (suc (suc (suc (suc (suc (suc zero)))))) text h = (refl, h)
digit_char-Without (suc (suc (suc (suc (suc (suc (suc zero))))))) text h = (refl, h)
digit_char-Without (suc (suc (suc (suc (suc (suc (suc (suc zero)))))))) text h = (refl, h)
digit_char-Without (suc (suc (suc (suc (suc (suc (suc (suc (suc n))))))))) text h = (refl, h)

digits_before-Without :
    (fuel n : ℕ) (text : String) → Without 95 text → Without 95 (digits_before fuel n text)
unfolding digits_before
digits_before-Without zero n text h = h
digits_before-Without (suc fuel) n text h = elim (Bool-cases (ltb n 10)) [
  | inl small ↦ rw small (digit_char-Without n text h)
  | inr large ↦
      rw large (digits_before-Without fuel (n / 10) _ (digit_char-Without (n % 10) text h))
]

-- A numeral has no underscore.
pub str-Without : (n : ℕ) → Without 95 (str n)
unfolding str
str-Without n = digits_before-Without (suc n) n "" tt

-- the first character, and the text after it
first_char : Char → String → Char
first_char c String.[] = c
first_char c (String.◌∷◌ d text) = d

rest : String → String
rest String.[] = ""
rest (String.◌∷◌ c text) = text

drop_char-injective :
    {c d : Char} {s t : String} → String.◌∷◌ c s ≡ String.◌∷◌ d t → (c ≡ d) × (s ≡ t)
unfolding first_char rest
drop_char-injective {c} e = (ap (first_char c) e, ap rest e)

-- a text with an underscore inside is not without one
underscore_inside : (s t : String) {u : String} → u ≡ s ++ String.◌∷◌ "_" t → Without 95 u → ⊥
underscore_inside String.[] t {u} e h =
    let (a, b) = subst (Without 95) (e ∙ nil-append (String.◌∷◌ "_" t)) h in cc a
underscore_inside (String.◌∷◌ c s) t {u} e h =
    let (a, b) = subst (Without 95) (e ∙ cons-append c s (String.◌∷◌ "_" t)) h in
    underscore_inside s t refl b

-- What stands around the last underscore is determined by the whole.
pub underscore-injective :
    (s t s' t' : String)
    → Without 95 t
    → Without 95 t'
    → s ++ String.◌∷◌ "_" t ≡ s' ++ String.◌∷◌ "_" t'
    → (s ≡ s') × (t ≡ t')
underscore-injective String.[] t String.[] t' h h' e =
    (refl, (drop_char-injective (sym (nil-append _) ∙ e ∙ nil-append _)).1)
underscore-injective String.[] t (String.◌∷◌ c s') t' h h' e = absurd (
    underscore_inside s' t' (drop_char-injective (sym (nil-append _) ∙ e ∙ cons-append c s' _)).1 h)
underscore-injective (String.◌∷◌ c s) t String.[] t' h h' e = absurd (
    underscore_inside s t (drop_char-injective (sym (nil-append _) ∙ sym e ∙ cons-append c s _)).1
      h')
underscore-injective (String.◌∷◌ c s) t (String.◌∷◌ d s') t' h h' e =
    let (same, others) = drop_char-injective (sym (cons-append c s _) ∙ e ∙ cons-append d s' _) in
    let (before, after) = underscore-injective s t s' t' h h' others in
    ((λ i. String.◌∷◌ (same i) (before i)), after)

join_underscore : (s t : String) → join (s ∷ "_" ∷ t ∷ []) ≡ s ++ String.◌∷◌ "_" t
unfolding join
join_underscore s t =
    ap (λ u. s ++ u)
      (cons-append "_" "" (t ++ "") ∙ ap (String.◌∷◌ "_") (nil-append (t ++ "") ∙ append-nil t))

-- A name and a number are determined by the name, an underscore and the numeral, put together.
pub join-str-injective :
    (s s' : String) (n n' : ℕ)
    → join (s ∷ "_" ∷ str n ∷ []) ≡ join (s' ∷ "_" ∷ str n' ∷ [])
    → (s ≡ s') × (n ≡ n')
join-str-injective s s' n n' e =
    let (same, number) =
      underscore-injective s (str n) s' (str n') (str-Without n) (str-Without n')
        (sym (join_underscore s (str n)) ∙ e ∙ join_underscore s' (str n')) in
    (same, str-injective n n' number)
