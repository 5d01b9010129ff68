-- ===== src/Mqtt/Header/RoundTrip.antt =====
-- The remaining length of src/protocol/src/mqtt/common.rs, written and read again.
use robustmq.Prelude.{ℕ, ◌≤◌, ◌≡◌, ◌++◌}
use robustmq.Prelude.{length}
use robustmq.Mqtt.Bytes.{Bytes}
use robustmq.Mqtt.Outcome.{ok}
use robustmq.Mqtt.Writer.{write_remaining_length, len_len}
use robustmq.Mqtt.Header.{parse_length}
use robustmq.Mqtt.Header.Image.{
  var_int, length-var_int, len_len_bounds, write_remaining_length-var_int, parse_length-var_int,
}

-- A remaining length up to 268435455 is written behind the buffer in as many bytes as the result
-- and `len_len` say, one to four, and `length` reads it back from them, whatever follows.
pub parse_length-write_remaining_length :
    (n : ℕ) (buffer rest : Bytes)
    → n ≤ 268435455
    → (bytes : Bytes) × (write_remaining_length n buffer ≡ (ok (len_len n), buffer ++ bytes))
      × (length bytes ≡ len_len n)
      × (1 ≤ len_len n)
      × (len_len n ≤ 4)
      × (parse_length (bytes ++ rest) ≡ ok (len_len n, n))
parse_length-write_remaining_length n buffer rest h = (
  var_int n,
  write_remaining_length-var_int n buffer h,
  length-var_int n,
  (len_len_bounds n).0,
  (len_len_bounds n).1,
  parse_length-var_int n rest h,
)
