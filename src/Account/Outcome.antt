-- ===== src/Account/Outcome.antt =====
-- primitives/account/src/lib.rs, `AccountError`, with the errors of the crates transaction and
-- beserial, and the shape of a method: it changes the object that it is called on and returns a
-- value or an error, or it panics. What was written before an error stays written.
use nimiq_core_rs_albatross.Base.{ℕ, Bool, true, false, Option, none, some, if◌then◌else◌}

pub data AccountType : Type 0 where
  basic vesting htlc staking : AccountType

pub data SerializingError : Type 0 where
  io_error invalid_encoding invalid_value overflow limit_exceeded : SerializingError

pub data TransactionError : Type 0 where
  foreign_network zero_value overflow sender_equals_recipient invalid_for_sender : TransactionError
  invalid_proof invalid_for_recipient invalid_data : TransactionError
  invalid_serialization : SerializingError → TransactionError

-- The payload of `CoinParse` is left out: it compares as equal to any other.
pub data AccountError : Type 0 where
  insufficient_funds : ℕ → ℕ → AccountError
  type_mismatch : AccountType → AccountType → AccountError
  invalid_signature invalid_for_sender invalid_for_recipient invalid_for_target : AccountError
  invalid_receipt : AccountError
  invalid_serialization : SerializingError → AccountError
  invalid_transaction : TransactionError → AccountError
  invalid_coin_value coin_parse : AccountError
  coin_convert : ℕ → AccountError
  invalid_inherent : AccountError

pub data Outcome (A : Type 0) : Type 0 where
  ok : A → Outcome A
  err : AccountError → Outcome A
  panic : Outcome A

abbrev pub Action : Type 0 → Type 0 → Type 0
Action S A = S → Outcome A × S

module _ {S A : Type 0} where
  abbrev pub pure : A → Action S A
  pure a s = (ok a, s)

  abbrev pub raise : AccountError → Action S A
  raise e s = (err e, s)

  -- `assert!`, `unwrap()` on None, `unreachable!()`
  abbrev pub abort : Action S A
  abort s = (panic, s)

  abbrev pub lift : Outcome A → Action S A
  lift r s = (r, s)

  abbrev pub gets : (S → A) → Action S A
  gets f s = (ok (f s), s)

  -- `ok_or(e)?`
  abbrev pub or_raise : Option A → AccountError → Action S A
  or_raise none e = raise e
  or_raise (some a) e = pure a

  -- `unwrap()`
  abbrev pub unwrap : Option A → Action S A
  unwrap none = abort
  unwrap (some a) = pure a

infixl 5 ◌>>=◌ ◌>>◌
abbrev pub ◌>>=◌ : {S A B : Type 0} → Action S A → (A → Action S B) → Action S B
◌>>=◌ m f s =
    let (r, s') = m s in elim r [ ok a ↦ f a s' | err e ↦ (err e, s') | panic ↦ (panic, s') ]

abbrev pub ◌>>◌ : {S A B : Type 0} → Action S A → Action S B → Action S B
m >> k = m >>= λ _. k

module _ {S : Type 0} where
  abbrev pub get_self : Action S S
  get_self s = (ok s, s)

  abbrev pub put_self : S → Action S (Unit {0})
  put_self s' s = (ok tt, s')

  abbrev pub modify : (S → S) → Action S (Unit {0})
  modify f s = (ok tt, f s)

  abbrev pub raise_if : Bool → AccountError → Action S (Unit {0})
  raise_if c e s = (if c then err e else ok tt, s)

-- Whether a call has ended in a panic.
abbrev pub panics : {S A : Type 0} → Outcome A × S → Bool
panics (ok a, s) = false
panics (err e, s) = false
panics (panic, s) = true

abbrev pub is_ok : {A : Type 0} → Outcome A → Bool
is_ok (ok a) = true
is_ok (err e) = false
is_ok panic = false
