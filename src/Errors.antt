-- ===== src/Errors.antt =====
-- errors.rs, and how an instruction ends: Anchor's `Result`, or a panic.
use cross_chain_contracts.Common.{◌≡◌, refl, Bool, true, false, Option, none, some}

-- `OFTError`
pub data OftError : Type 0 where
  unauthorized invalid_sender invalid_decimals slippage_exceeded invalid_token_dest : OftError
  rate_limit_exceeded invalid_fee invalid_mint_authority paused : OftError

-- The refusals of Anchor's account attributes that name no error of the program.
pub data Constraint : Type 0 where
  seeds address token_owner token_mint token_token_program mint_token_program : Constraint
  associated_token associated_token_program : Constraint

pub data Error : Type 0 where
  oft : OftError → Error
  constraint : Constraint → Error
  invalid_argument : Error
  -- an error that a called program or the runtime reports
  external : Error

-- `panic` is a Rust panic, which aborts the transaction: an overflow (the workspace sets
-- `overflow-checks = true`), a slice out of range, or `unwrap` on an error.
pub data Result {ℓ} (A : Type ℓ) : Type ℓ where
  panic : Result A
  err : Error → Result A
  ok : A → Result A

-- `o.ok_or(e)`
abbrev pub ok_or {ℓ} : {A : Type ℓ} → Option A → Error → Result A
ok_or none e = err e
ok_or (some a) e = ok a

-- `require!(b, e)`
abbrev pub require : Bool → Error → Result (Unit {0})
require false e = err e
require true e = ok tt

pub require-eq-ok : (b : Bool) (e : Error) {u : Unit {0}} → require b e ≡ ok u → b ≡ true
require-eq-ok false e h = cc
require-eq-ok true e h = refl

-- `?`: what follows a step that succeeds.
infixl 5 ◌>>=◌
abbrev pub ◌>>=◌ {ℓ κ} : {A : Type ℓ} {B : Type κ} → Result A → (A → Result B) → Result B
panic >>= rest = panic
err e >>= rest = err e
ok value >>= rest = rest value

-- If the whole succeeds, the step has succeeded with a value, and so has what follows it.
pub >>=-eq-ok {ℓ κ} :
    {A : Type ℓ} {B : Type κ} (step : Result A) (rest : A → Result B) {result : B}
    → (step >>= rest) ≡ ok result
    → (value : A) × (step ≡ ok value) × (rest value ≡ ok result)
>>=-eq-ok panic rest h = cc
>>=-eq-ok (err e) rest h = cc
>>=-eq-ok (ok value) rest h = (value, refl, h)

-- A step without a value.
infixl 5 ◌>>◌
abbrev pub ◌>>◌ {ℓ} : {B : Type ℓ} → Result (Unit {0}) → Result B → Result B
step >> rest = step >>= λ _. rest

pub >>-eq-ok {ℓ} :
    {B : Type ℓ} (step : Result (Unit {0})) (rest : Result B) {result : B}
    → (step >> rest) ≡ ok result
    → rest ≡ ok result
>>-eq-ok panic rest h = cc
>>-eq-ok (err e) rest h = cc
>>-eq-ok (ok tt) rest h = h

pub >>=_assoc {ℓ κ ι} :
    {A : Type ℓ} {B : Type κ} {C : Type ι} (step : Result A) (rest : A → Result B)
    (last : B → Result C)
    → (step >>= rest >>= last) ≡ (step >>= λ a. rest a >>= last)
>>=_assoc panic rest last = refl
>>=_assoc (err e) rest last = refl
>>=_assoc (ok value) rest last = refl

pub >>=_assoc_ok {ℓ κ ι υ} :
    {A : Type ℓ} {B : Type κ} {C : Type ι} {D : Type υ} (step : Result A) (next : Result B)
    (pair : A → B → C) (last : C → Result D)
    → (step >>= (λ a. next >>= λ b. ok (pair a b)) >>= last)
      ≡ (step >>= λ a. next >>= λ b. last (pair a b))
>>=_assoc_ok panic next pair last = refl
>>=_assoc_ok (err e) next pair last = refl
>>=_assoc_ok (ok a) panic pair last = refl
>>=_assoc_ok (ok a) (err e) pair last = refl
>>=_assoc_ok (ok a) (ok b) pair last = refl

pub ok-injective {ℓ} : {A : Type ℓ} {a b : A} → ok a ≡ ok b → a ≡ b
ok-injective h = cc
