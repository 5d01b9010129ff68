-- ===== src/Mqtt/Buffer.antt =====
-- Computations on a byte buffer: `Bytes`, which is read from the front, and `BytesMut`, which is
-- written at the end.
use robustmq.Prelude.{Bool, true, false, if◌then◌else◌}
use robustmq.Mqtt.Bytes.{Bytes}
use robustmq.Mqtt.Outcome.{Error, Outcome, ok, err, panic, Returns}

-- The outcome, and the buffer after the call, which stays changed on an error too.
abbrev pub Buffered : Type 0 → Type 0
Buffered A = Bytes → Outcome A × Bytes

abbrev pub continue : {A B : Type 0} → (A → Buffered B) → Outcome A × Bytes → Outcome B × Bytes
continue f (ok a, buffer) = f a buffer
continue f (err e, buffer) = (err e, buffer)
continue f (panic, buffer) = (panic, buffer)

infixl 5 ◌>>=◌ ◌>>◌
abbrev pub ◌>>=◌ : {A B : Type 0} → Buffered A → (A → Buffered B) → Buffered B
◌>>=◌ m f buffer = continue f (m buffer)

abbrev pub ◌>>◌ : {B : Type 0} → Buffered (Unit {0}) → Buffered B → Buffered B
m >> k = m >>= λ _. k

abbrev pub lift : {A : Type 0} → Outcome A → Buffered A
lift r buffer = (r, buffer)

abbrev pub pure : {A : Type 0} → A → Buffered A
pure a = lift (ok a)

abbrev pub fail : {A : Type 0} → Error → Buffered A
fail e = lift (err e)

-- `if !test { return Err(e); }`.
abbrev pub guard : Bool → Error → Buffered (Unit {0})
guard true e = pure tt
guard false e = fail e

-- A function that takes the buffer by value drops what is left of it.
abbrev pub run : {A : Type 0} → Buffered A → Bytes → Outcome A
run m buffer = (m buffer).0

-- The computation returns on every buffer, with a value or an error.
abbrev pub Total : {A : Type 0} → Buffered A → Type 0
Total m = (buffer : Bytes) → Returns (m buffer).0

continue-Returns :
    {A B : Type 0} (f : A → Buffered B) (r : Outcome A × Bytes)
    → Returns r.0
    → ((a : A) → Total (f a))
    → Returns (continue f r).0
continue-Returns f (ok a, buffer) h k = k a buffer
continue-Returns f (err e, buffer) h k = tt
continue-Returns f (panic, buffer) h k = h

pub Returns->>= :
    {A B : Type 0} (m : Buffered A) (f : A → Buffered B) (buffer : Bytes)
    → Returns (m buffer).0
    → ((a : A) → Total (f a))
    → Returns ((m >>= f) buffer).0
Returns->>= m f buffer = continue-Returns f (m buffer)

pub guard-Total : (t : Bool) (e : Error) → Total (guard t e)
guard-Total true e buffer = tt
guard-Total false e buffer = tt

pub lift-Total : {A : Type 0} (r : Outcome A) → Returns r → Total (lift r)
lift-Total r h buffer = h

pub if-Total :
    {A : Type 0} (t : Bool) (m k : Buffered A) → Total m → Total k → Total (if t then m else k)
if-Total true m k h g = h
if-Total false m k h g = g
