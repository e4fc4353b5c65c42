-- ===== src/Error.antt =====
-- The error codes of errors.rs, and the outcome of an instruction.
use clustly_solana_escrow.Base.{ℕ, ◌≡◌, refl, Bool, true, false, Option, none, some}

pub data EscrowError : Type 0 where
  fee_too_high unauthorized self_enrollment slots_full invalid_state_transition : EscrowError
  task_claim_mismatch invalid_mint zero_bounty invalid_slots deadline_not_reached : EscrowError
  auto_action_too_early claims_not_resolved rejection_limit_reached : EscrowError
  insufficient_fee_vault task_has_enrollments math_overflow already_submitted : EscrowError

-- What the account attributes of a `#[derive(Accounts)]` struct report.
pub data AnchorError : Type 0 where
  account_not_initialized account_not_signer account_in_use : AnchorError
  constraint_seeds constraint_token_mint constraint_token_owner constraint_associated : AnchorError

-- `cpi` carries the code of an error of another program, `panic` is an arithmetic overflow.
pub data Error : Type 0 where
  escrow : EscrowError → Error
  anchor : AnchorError → Error
  cpi : ℕ → Error
  panic : Error

-- An instruction that fails leaves no trace: the transaction is rolled back.
pub data Result {ℓ} (A : Type ℓ) : Type ℓ where
  ok : A → Result A
  err : Error → Result A

-- The operator `?`: an error ends the instruction.
infixl 5 ◌>>=◌ ◌>>◌
abbrev pub ◌>>=◌ {ℓ ℓ'} : {X : Type ℓ} {Y : Type ℓ'} → Result X → (X → Result Y) → Result Y
err cause >>= next = err cause
ok value >>= next = next value

abbrev pub ◌>>◌ {ℓ} : {Y : Type ℓ} → Result (Unit {0}) → Result Y → Result Y
done >> rest = done >>= λ _. rest

-- `require!(test, error)`.
abbrev pub require : Bool → EscrowError → Result (Unit {0})
require true e = ok tt
require false e = err (escrow e)

-- A constraint without an error of its own.
abbrev pub constraint : Bool → AnchorError → Result (Unit {0})
constraint true e = ok tt
constraint false e = err (anchor e)

-- `option.ok_or(error)`.
abbrev pub ok_or {ℓ} : {A : Type ℓ} → Option A → Error → Result A
ok_or none e = err e
ok_or (some a) e = ok a

-- A chain that succeeds: its first part does, and the rest from there.
pub >>=-eq-ok {ℓ ℓ'} :
    {X : Type ℓ} {Y : Type ℓ'} (first : Result X) (next : X → Result Y) {end : Y}
    → (first >>= next) ≡ ok end
    → (value : X) × (first ≡ ok value) × (next value ≡ ok end)
>>=-eq-ok (err cause) next h = cc
>>=-eq-ok (ok value) next h = (value, refl, h)

-- Inversion of a requirement that is met.
pub require-ok {ℓ} :
    {B : Type ℓ} (test : Bool) (e : EscrowError) (k : Result B) {b : B}
    → (require test e >> k) ≡ ok b
    → (test ≡ true) × (k ≡ ok b)
require-ok true e k h = (refl, h)
require-ok false e k h = cc

pub ok-injective {ℓ} : {A : Type ℓ} {a b : A} → ok a ≡ ok b → a ≡ b
ok-injective h = cc
