-- ===== src/Mqtt/Outcome.antt =====
-- `Error` of src/protocol/src/mqtt/common.rs, and the outcome of a call: a value, an error, or a panic.
use robustmq.Prelude.{ℕ, ◌≡◌, refl, ◌⊎◌, inl, inr}

pub data Error : Type 0 where
  invalid_connect_return_code : ℕ → Error
  invalid_reason : ℕ → Error
  invalid_remaining_length : ℕ → Error
  invalid_protocol : Error
  invalid_protocol_level : ℕ → Error
  incorrect_packet_format : Error
  invalid_packet_type : ℕ → Error
  invalid_retain_forward_rule : ℕ → Error
  invalid_qos : ℕ → Error
  payload_too_long : Error
  payload_not_utf8 : Error
  boundary_crossed : ℕ → Error
  malformed_packet : Error
  malformed_remaining_length : Error
  insufficient_bytes : ℕ → Error
  packet_id_zero : Error
  payload_size_limit_exceeded : ℕ → Error
  empty_subscription : Error
  invalid_subscribe_reason_code : ℕ → Error
  topic_not_utf8 : Error
  payload_size_incorrect : Error
  invalid_property_type : ℕ → Error

-- `panic` stands for a Rust panic: `unreachable!()`, or a buffer operation out of range.
pub data Outcome {ℓ} (A : Type ℓ) : Type ℓ where
  ok : A → Outcome A
  err : Error → Outcome A
  panic : Outcome A

infixl 5 ◌>>=◌
abbrev pub ◌>>=◌ {ℓ κ} : {A : Type ℓ} {B : Type κ} → Outcome A → (A → Outcome B) → Outcome B
ok a >>= f = f a
err e >>= f = err e
panic >>= f = panic

-- The call returns, with a value or an error.
abbrev pub Returns {ℓ} : {A : Type ℓ} → Outcome A → Type 0
Returns (ok a) = Unit
Returns (err e) = Unit
Returns panic = ⊥

pub Returns->>= {ℓ κ} :
    {A : Type ℓ} {B : Type κ} (m : Outcome A) (f : A → Outcome B)
    → Returns m
    → ((a : A) → Returns (f a))
    → Returns (m >>= f)
Returns->>= (ok a) f h k = k a
Returns->>= (err e) f h k = tt
Returns->>= panic f h k = h

-- To split on a computed outcome and keep the equation.
pub data OutcomeCase {ℓ} {A : Type ℓ} (r : Outcome A) : Type ℓ where
  is_ok : (a : A) → r ≡ ok a → OutcomeCase r
  is_err : (e : Error) → r ≡ err e → OutcomeCase r
  is_panic : r ≡ panic → OutcomeCase r

pub Outcome-cases {ℓ} : {A : Type ℓ} (r : Outcome A) → OutcomeCase r
Outcome-cases (ok a) = is_ok a refl
Outcome-cases (err e) = is_err e refl
Outcome-cases panic = is_panic refl

pub Returns-cases {ℓ} :
    {A : Type ℓ} (r : Outcome A) → Returns r → ((a : A) × (r ≡ ok a)) ⊎ ((e : Error) × (r ≡ err e))
Returns-cases (ok a) h = inl (a, refl)
Returns-cases (err e) h = inr (e, refl)
Returns-cases panic h = absurd h
