-- ===== src/Mqtt/Writer.antt =====
-- Writing at the end of a `BytesMut`, and the write functions of src/protocol/src/mqtt/common.rs.
use robustmq.Prelude.{ℕ, zero, suc, ◌+◌, ◌/◌, ◌%◌, bit_or, [], ◌∷◌, ◌++◌}
use robustmq.Prelude.{Bool, true, false, ltb, ◌==◌, if◌then◌else◌, length, set}
use robustmq.Mqtt.Bytes.{Bytes, Text}
use robustmq.Mqtt.Buffer.{Buffered, ◌>>◌, lift}
use robustmq.Mqtt.Outcome.{ok, err, panic, payload_too_long}

-- `flag as u8`.
unfoldable pub bool_u8 : Bool → ℕ
bool_u8 true = 1
bool_u8 false = 0

-- `extend_from_slice` and `put_slice`.
unfoldable pub put_slice : Bytes → Buffered (Unit {0})
put_slice bs buffer = (ok tt, buffer ++ bs)

unfoldable pub put_u8 : ℕ → Buffered (Unit {0})
put_u8 b buffer = (ok tt, buffer ++ b ∷ [])

unfoldable pub put_u16 : ℕ → Buffered (Unit {0})
put_u16 n buffer = (ok tt, buffer ++ n / 256 ∷ n % 256 ∷ [])

-- `buffer[i] = b` panics past the end.
unfoldable pub set_byte : ℕ → ℕ → Buffered (Unit {0})
set_byte i b buffer = if ltb i (length buffer) then (ok tt, set buffer i b) else (panic, buffer)

-- `bytes.len() as u16` keeps the low 16 bits.
unfoldable pub write_mqtt_bytes : Bytes → Buffered (Unit {0})
write_mqtt_bytes bytes = do put_u16 (length bytes % 65536); put_slice bytes

unfoldable pub write_mqtt_string : Text → Buffered (Unit {0})
write_mqtt_string = write_mqtt_bytes

-- The loop body of `write_remaining_length`: the byte for `x`, with the top bit if more follow.
abbrev pub length_byte : ℕ → ℕ
length_byte x = if ltb 0 (x / 128) then bit_or (x % 128) 128 else x % 128

-- The loop runs until the quotient is 0. `fuel` bounds the rounds: a usize has ten groups of
-- seven bits at most, and the test before the loop leaves four.
unfoldable pub write_length_loop : ℕ → ℕ → ℕ → Buffered ℕ
write_length_loop zero x count buffer = (panic, buffer)
write_length_loop (suc fuel) x count buffer = elim (x / 128 == 0) [
  | true ↦ (ok (count + 1), buffer ++ length_byte x ∷ [])
  | false ↦ write_length_loop fuel (x / 128) (count + 1) (buffer ++ length_byte x ∷ [])
]

unfoldable pub write_remaining_length : ℕ → Buffered ℕ
unfolding write_length_loop
write_remaining_length len =
    if ltb 268435455 len then lift (err payload_too_long) else write_length_loop 10 len 0

unfoldable pub len_len : ℕ → ℕ
len_len len =
    if ltb 2097151 len then 4 else if ltb 16383 len then 3 else if ltb 127 len then 2 else 1
