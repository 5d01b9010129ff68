-- ===== src/Mqtt/V5/Properties.antt =====
-- How a packet of src/protocol/src/mqtt/mqttv5 reads its properties: their length, and a loop that
-- reads one property a round until the cursor reaches the length.
pub mod Codec
pub mod Total
pub mod Image
use robustmq.Prelude.{ℕ, zero, suc, ◌+◌, Bool, true, false, Option, none, some}
use robustmq.Prelude.{ltb, ◌==◌, if◌then◌else◌}
use robustmq.Mqtt.Outcome.{panic}
use robustmq.Mqtt.Buffer.{Buffered, ◌>>=◌, ◌>>◌, lift, pure}
use robustmq.Mqtt.Reader.{advance, read_u8}
use robustmq.Mqtt.Writer.{write_remaining_length, len_len}
use robustmq.Mqtt.V5.PropertyType.{PropertyType, property}
use robustmq.Mqtt.V5.Fields.{peek_length}

-- The match of a loop: the property's type and number, and the properties so far.
abbrev pub Arms : Type 0 → Type 0
Arms P = PropertyType → ℕ → P → Buffered (P × ℕ)

-- The body of the loop, and the rest of it on the cursor and the properties after the body.
unfoldable pub round : {P : Type 0} → Arms P → (ℕ → P → Buffered P) → ℕ → P → Buffered P
round arms next cursor p = do
  prop ← read_u8
  type ← lift (property prop)
  (p', n) ← arms type prop p
  next (cursor + 1 + n) p'

-- `while cursor < properties_len`. Each round moves the cursor, so `properties_len` rounds are
-- enough; without fuel the loop is a panic.
unfoldable pub read_loop : {P : Type 0} → Arms P → ℕ → ℕ → ℕ → P → Buffered P
unfolding round
read_loop arms zero properties_len cursor p =
    if ltb cursor properties_len then lift panic else pure p
read_loop arms (suc fuel) properties_len cursor p =
    if ltb cursor properties_len
    then round arms (read_loop arms fuel properties_len) cursor p
    else pure p

-- Nothing to read, or the loop from the start.
unfoldable pub read_some : {P : Type 0} → Arms P → P → ℕ → Buffered (Option P)
unfolding read_loop
read_some arms p zero = pure none
read_some arms p (suc n) = do p' ← read_loop arms (suc n) (suc n) 0 p; pure (some p')

unfoldable pub read_properties : {P : Type 0} → Arms P → P → Buffered (Option P)
unfolding read_some
read_properties arms p = do
  (properties_len_len, properties_len) ← peek_length
  advance properties_len_len
  read_some arms p properties_len

-- The length that a packet counts for its properties: one byte when there are none.
unfoldable pub len_of : {P : Type 0} → (P → ℕ) → Option P → ℕ
len_of len none = 1
len_of len (some p) = len_len (len p) + len p

-- `if let Some(p) = properties { properties::write(p, buffer)?; } else { write_remaining_length(buffer, 0)?; }`.
unfoldable pub write_or_zero :
    {P : Type 0} → (P → Buffered (Unit {0})) → Option P → Buffered (Unit {0})
write_or_zero write none = write_remaining_length 0 >>= λ _. pure tt
write_or_zero write (some p) = write p
