-- ===== src/Prelude/Errors.antt =====
-- Python's exceptions as values: `ok` of what a call returns, `raise` of the class it raises.
use mathlib.Core.Path.{◌≡◌, refl, ap, ◌∙◌}
use mathlib.Core.Bool.{Bool, true, false}
use mathlib.Core.Logic.{◌⊎◌, inl, inr}
use mathlib.Core.List.{List, [], ◌∷◌}

pub data Error : Type 0 where
  value_error runtime_error io_error key_error index_error type_error attribute_error
        assertion_error :
      Error

-- what a call gives its caller
pub data Result {ℓ} (Value : Type ℓ) : Type ℓ where
  raise : Error → Result Value
  ok : Value → Result Value

-- `if test: raise error`
abbrev pub raise_if : Bool → Error → Result (Unit {0})
raise_if false error = ok tt
raise_if true error = raise error

-- the statements after a call, which run when it does not raise
infixl 5 ◌>>=◌
abbrev pub ◌>>=◌ {ℓ κ} :
    {Value : Type ℓ} {Next : Type κ} → Result Value → (Value → Result Next) → Result Next
raise error >>= next = raise error
ok value >>= next = next value

infixl 5 ◌>>◌
abbrev pub ◌>>◌ {κ} : {Next : Type κ} → Result (Unit {0}) → Result Next → Result Next
check >> next = check >>= (λ done. next)

value_or {ℓ} : {Value : Type ℓ} → Value → Result Value → Value
value_or default (raise error) = default
value_or default (ok value) = value

pub ok-injective {ℓ} : {Value : Type ℓ} {x y : Value} → ok x ≡ ok y → x ≡ y
unfolding value_or
ok-injective {x} h = ap (value_or x) h

pub Result-cases {ℓ} :
    {Value : Type ℓ} (call : Result Value)
    → ((value : Value) × (call ≡ ok value)) ⊎ ((error : Error) × (call ≡ raise error))
Result-cases (raise error) = inr (error, refl)
Result-cases (ok value) = inl (value, refl)

module _ {ℓ κ} {Value : Type ℓ} {Next : Type κ} where
  -- Where the statements after a call return, the call returned.
  pub >>=-eq-ok :
      (call : Result Value) (next : Value → Result Next) {returned : Next}
      → (call >>= next) ≡ ok returned
      → (value : Value) × (call ≡ ok value) × (next value ≡ ok returned)
  >>=-eq-ok (raise error) next h = cc
  >>=-eq-ok (ok value) next h = (value, refl, h)

  -- After a call that returned, the statements go on with its value.
  pub >>=-of_ok :
      (call : Result Value) (next : Value → Result Next) {value : Value} {outcome : Result Next}
      → call ≡ ok value
      → next value ≡ outcome
      → (call >>= next) ≡ outcome
  >>=-of_ok call next h h' = ap (λ c. c >>= next) h ∙ h'

module _ {ℓ κ} {Item : Type ℓ} {Value : Type κ} where
  -- a loop that skips the items for which the call raises
  unfoldable pub successes : (Item → Result Value) → List Item → List Value
  successes call [] = []
  successes call (item ∷ items) =
      let rest = successes call items in
      elim (call item) [ raise error ↦ rest | ok value ↦ value ∷ rest ]
