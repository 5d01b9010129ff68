-- ===== src/Mqtt/Reader.antt =====
-- Reading from the front of `Bytes`, and the read functions of src/protocol/src/mqtt/common.rs.
pub mod Total
pub mod Spend
use robustmq.Prelude.{ℕ, ◌+◌, ◌*◌, Bool, [], ◌∷◌}
use robustmq.Prelude.{leb, ltb, if◌then◌else◌, length, take, drop}
use robustmq.Mqtt.Bytes.{Bytes, Text, is_utf8}
use robustmq.Mqtt.Outcome.{Error, Outcome, ok, err, panic}
use robustmq.Mqtt.Buffer.{Buffered, ◌>>=◌, lift}
use robustmq.Mqtt.Outcome.{malformed_packet, boundary_crossed, topic_not_utf8, payload_not_utf8}

-- `bytes.advance(n)` panics past the end.
unfoldable pub advance : ℕ → Buffered (Unit {0})
advance n bs = if leb n (length bs) then (ok tt, drop n bs) else (panic, bs)

-- The bytes themselves, moved out of the stream.
unfoldable pub take_rest : Buffered Bytes
take_rest bs = (ok bs, [])

unfoldable pub read_u8 : Buffered ℕ
read_u8 [] = (err malformed_packet, [])
read_u8 (b ∷ bs) = (ok (b), bs)

unfoldable pub read_u16 : Buffered ℕ
read_u16 [] = (err malformed_packet, [])
read_u16 (a ∷ []) = (err malformed_packet, a ∷ [])
read_u16 (a ∷ b ∷ bs) = (ok (a * 256 + b), bs)

unfoldable pub read_u32 : Buffered ℕ
read_u32 [] = (err malformed_packet, [])
read_u32 (a ∷ []) = (err malformed_packet, a ∷ [])
read_u32 (a ∷ b ∷ []) = (err malformed_packet, a ∷ b ∷ [])
read_u32 (a ∷ b ∷ c ∷ []) = (err malformed_packet, a ∷ b ∷ c ∷ [])
read_u32 (a ∷ b ∷ c ∷ d ∷ bs) = (ok (((a * 256 + b) * 256 + c) * 256 + d), bs)

-- `stream.split_to(len)`, behind the test that there are so many bytes.
split_checked : ℕ → Buffered Bytes
split_checked len bs =
    if ltb (length bs) len
    then (err (boundary_crossed len), bs)
    else (ok (take len bs), drop len bs)

unfoldable pub read_mqtt_bytes : Buffered Bytes
unfolding split_checked
read_mqtt_bytes = do len ← read_u16; split_checked len

-- A text made from bytes, or the caller's error.
unfoldable pub from_utf8 : Error → Bytes → Outcome Text
from_utf8 e s = if is_utf8 s then ok s else err e

unfoldable pub read_mqtt_string : Buffered Text
unfolding from_utf8
read_mqtt_string = do s ← read_mqtt_bytes; lift (from_utf8 topic_not_utf8 s)

-- `std::str::from_utf8(&read_mqtt_bytes(bytes)?)?.to_owned()`.
unfoldable pub read_utf8_bytes : Buffered Text
unfolding from_utf8
read_utf8_bytes = do s ← read_mqtt_bytes; lift (from_utf8 payload_not_utf8 s)

unfoldable pub has_remaining : Buffered Bool
has_remaining bs = (ok (ltb 0 (length bs)), bs)
