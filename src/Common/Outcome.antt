-- ===== src/Common/Outcome.antt =====
-- A service call: it returns, or raises and the session is closed without a commit. An error
-- carries the HTTP status and the code of schemas/common.py; the message and the field name are
-- texts for the reader and left out. `integrity` is the IntegrityError of
-- SQLAlchemy, `value_error` the ValueError of Python.
use Prim.Native.Nat.{ℕ}
use mathlib.Core.Path.{◌≡◌, refl}
use mathlib.Core.Logic.{◌⊎◌, inl, inr}
use mathlib.Core.Bool.{Bool, true, false}
use mathlib.Core.Option.{Option, none, some}
use rezorpay_pro.Common.Tests.{⊤}

pub data ErrorCode : Type 0 where
  invalid_state validation_error not_found insufficient_permissions : ErrorCode
  payment_exceeds_balance credit_hold fta_send_blocked no_list_price : ErrorCode

pub data Error : Type 0 where
  http : ℕ → ErrorCode → Error
  integrity value_error : Error

-- What a call comes to: the exception that it raised, or the value that it returned.
pub data Result {ℓ} (Value : Type ℓ) : Type ℓ where
  err : (raised : Error) → Result Value
  ok : (returned : Value) → Result Value

-- The statements behind a call run with what it returned; behind a test, with nothing.
infixl 5 ◌>>=◌ ◌>>◌
abbrev pub ◌>>=◌ {ℓ κ} :
    {Row : Type ℓ} {Value : Type κ} → Result Row → (Row → Result Value) → Result Value
err raised >>= rest = err raised
ok returned >>= rest = rest returned

abbrev pub ◌>>◌ {ℓ} : {Value : Type ℓ} → Result ⊤ → Result Value → Result Value
test >> rest = test >>= λ passed. rest

module _ {ℓ κ} {Row : Type ℓ} {Value : Type κ} where
  pub >>=-eq-ok :
      (call : Result Row) (rest : Row → Result Value) {v : Value}
      → (call >>= rest) ≡ ok v
      → (r : Row) × (call ≡ ok r) × (rest r ≡ ok v)
  >>=-eq-ok (err raised) rest e = cc
  >>=-eq-ok (ok returned) rest e = (returned, refl, e)

module _ {ℓ} {Value : Type ℓ} where
  pub ok_injective : {v w : Value} → ok v ≡ ok w → v ≡ w
  ok_injective e = cc

  pub err_not_ok : {raised : Error} {v : Value} → err raised ≡ ok v → ⊥
  err_not_ok e = cc

  pub Result-cases :
      (call : Result Value)
      → ((v : Value) × (call ≡ ok v)) ⊎ ((raised : Error) × (call ≡ err raised))
  Result-cases (err raised) = inr (raised, refl)
  Result-cases (ok returned) = inl (returned, refl)

-- `if c: raise_error(...)`
abbrev pub raise_if : Bool → Error → Result ⊤
raise_if true error = err error
raise_if false error = ok tt

-- `if row is None: raise_error(...)`
abbrev pub or_raise {ℓ} : {Row : Type ℓ} → Option Row → Error → Result Row
or_raise none error = err error
or_raise (some row) error = ok row

pub raise_if-eq-ok {ℓ} :
    {Value : Type ℓ} (c : Bool) (error : Error) (rest : Result Value) {v : Value}
    → (raise_if c error >> rest) ≡ ok v
    → (c ≡ false) × (rest ≡ ok v)
raise_if-eq-ok true error rest e = cc
raise_if-eq-ok false error rest e = (refl, e)

pub or_raise-eq-ok {ℓ κ} :
    {Row : Type ℓ} {Value : Type κ} (o : Option Row) (error : Error) (rest : Row → Result Value)
    {v : Value}
    → (or_raise o error >>= rest) ≡ ok v
    → (r : Row) × (o ≡ some r) × (rest r ≡ ok v)
or_raise-eq-ok none error rest e = cc
or_raise-eq-ok (some row) error rest e = (row, refl, e)
