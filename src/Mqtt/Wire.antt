-- ===== src/Mqtt/Wire.antt =====
-- What the write functions of src/protocol/src/mqtt/common.rs put on the wire, and the read functions
-- on it.
use robustmq.Prelude.{ℕ, ◌+◌, ◌/◌, ◌%◌, ◌≤◌, ◌<◌, ◌≡◌, [], ◌∷◌, ◌++◌, arith}
use robustmq.Prelude.{
  length, length-append, drop, take-append_exact, drop-append_exact, append_assoc, true,
}
use robustmq.Mqtt.Bytes.{Bytes, is_utf8}
use robustmq.Mqtt.Outcome.{ok}
use robustmq.Mqtt.Reader.{advance, read_u16, read_mqtt_bytes, read_mqtt_string, read_utf8_bytes}
use robustmq.Mqtt.Writer.{
  write_mqtt_string, write_remaining_length, put_u16, put_slice, write_mqtt_bytes, len_len,
}
use robustmq.Mqtt.Header.{new}
use robustmq.Mqtt.Header.Image.{
  var_int, length-var_int, write_remaining_length-var_int, var_int_small,
}
use robustmq.Mqtt.Header.Check.{frame, length-frame}
use robustmq.Mqtt.Types.Packets.{FixedHeader}

abbrev pub u16 : ℕ → Bytes
u16 n = n / 256 ∷ n % 256 ∷ []

-- Bytes behind their length.
unfoldable pub mqtt_bytes : Bytes → Bytes
mqtt_bytes s = u16 (length s) ++ s

-- The header that `check` finds on a frame.
abbrev pub header : ℕ → Bytes → FixedHeader
header b body = new b (len_len (length body)) (length body)

pub length-mqtt_bytes : (s : Bytes) → length (mqtt_bytes s) ≡ 2 + length s
unfolding mqtt_bytes
length-mqtt_bytes s = omega arith

pub write_mqtt_bytes-image :
    (s buffer : Bytes)
    → length s < 65536
    → write_mqtt_bytes s buffer ≡ (ok tt, buffer ++ mqtt_bytes s)
unfolding write_mqtt_bytes put_u16 put_slice mqtt_bytes
write_mqtt_bytes-image s buffer h = ground (arith, append_assoc buffer (u16 (length s)) s)

pub read_u16-image : (n : ℕ) (rest : Bytes) → read_u16 (u16 n ++ rest) ≡ (ok n, rest)
unfolding read_u16
read_u16-image n rest = ground arith

pub read_mqtt_bytes-image : (s rest : Bytes) → read_mqtt_bytes (mqtt_bytes s ++ rest) ≡ (ok s, rest)
unfolding read_mqtt_bytes mqtt_bytes
read_mqtt_bytes-image s rest = ground (
  arith,
  read_u16-image (length s) (s ++ rest),
  length-append s rest,
  take-append_exact (length s) s rest,
  drop-append_exact (length s) s rest,
)

pub read_utf8_bytes-image :
    (s rest : Bytes) → is_utf8 s ≡ true → read_utf8_bytes (mqtt_bytes s ++ rest) ≡ (ok s, rest)
unfolding read_utf8_bytes
read_utf8_bytes-image s rest h = ground (arith, read_mqtt_bytes-image s rest)

pub read_mqtt_string-image :
    (s rest : Bytes) → is_utf8 s ≡ true → read_mqtt_string (mqtt_bytes s ++ rest) ≡ (ok s, rest)
unfolding read_mqtt_string
read_mqtt_string-image s rest h = ground (arith, read_mqtt_bytes-image s rest)

drop-frame : (b : ℕ) (body : Bytes) → drop (len_len (length body) + 1) (frame b body) ≡ body
unfolding frame
drop-frame b body =
    drop-append_exact (len_len (length body) + 1) (b ∷ var_int (length body)) body
      (omega (arith, length-var_int (length body)))

pub advance-frame :
    (b : ℕ) (body : Bytes) → advance (header b body).fixed_header_len (frame b body) ≡ (ok tt, body)
unfolding advance new
advance-frame b body = ground (arith, length-frame b body, drop-frame b body)

-- The first byte and the remaining length, and the whole frame behind a buffer.
pub write_remaining_length-header :
    (b n : ℕ) (buffer : Bytes)
    → n ≤ 268435455
    → write_remaining_length n (buffer ++ b ∷ []) ≡ (ok (len_len n), buffer ++ b ∷ var_int n)
write_remaining_length-header b n buffer h =
    rw (write_remaining_length-var_int n (buffer ++ b ∷ []) h)
      (ground (arith, append_assoc buffer (b ∷ []) (var_int n)))

pub append-frame :
    (b : ℕ) (buffer body : Bytes)
    → (buffer ++ b ∷ var_int (length body)) ++ body ≡ buffer ++ frame b body
unfolding frame
append-frame b buffer body = append_assoc buffer (b ∷ var_int (length body)) body

pub var_int_two : var_int 2 ≡ 2 ∷ []
var_int_two = var_int_small 2 (omega arith)

pub var_int_zero : var_int 0 ≡ 0 ∷ []
var_int_zero = var_int_small 0 (omega arith)

pub write_mqtt_string-image :
    (s buffer : Bytes)
    → length s < 65536
    → write_mqtt_string s buffer ≡ (ok tt, buffer ++ mqtt_bytes s)
unfolding write_mqtt_string
write_mqtt_string-image = write_mqtt_bytes-image
