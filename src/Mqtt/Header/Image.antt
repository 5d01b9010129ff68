-- ===== src/Mqtt/Header/Image.antt =====
-- What `write_remaining_length` writes and `length` reads, in plain arithmetic.
use robustmq.Prelude.{ℕ, suc, ◌+◌, ◌/◌, ◌%◌, ◌≤◌, ◌<◌, ◌≡◌, [], ◌∷◌, ◌++◌, arith}
use robustmq.Prelude.{ltb, if◌then◌else◌, length, append_assoc}
use robustmq.Prelude.Bits.{low_seven_bits, top_bit, with_top_bit}
use robustmq.Mqtt.Bytes.{Bytes}
use robustmq.Mqtt.Outcome.{ok}
use robustmq.Mqtt.Writer.{write_remaining_length, write_length_loop, len_len}
use robustmq.Mqtt.Header.{parse_length}

-- A variable byte integer: groups of seven bits, lowest first.
pub var_int : ℕ → Bytes
var_int n =
    if ltb 2097151 n
    then (n % 128 + 128) ∷ (n / 128 % 128 + 128) ∷ (n / 16384 % 128 + 128) ∷ n / 2097152 ∷ []
    else if ltb 16383 n
    then (n % 128 + 128) ∷ (n / 128 % 128 + 128) ∷ n / 16384 ∷ []
    else if ltb 127 n
    then (n % 128 + 128) ∷ n / 128 ∷ []
    else n ∷ []

last_round :
    (fuel x count : ℕ) (buffer : Bytes)
    → x < 128
    → write_length_loop (suc fuel) x count buffer ≡ (ok (count + 1), buffer ++ x ∷ [])
unfolding write_length_loop
last_round fuel x count buffer h = ground arith

inner_round :
    (fuel x count : ℕ) (buffer : Bytes)
    → 127 < x
    → write_length_loop (suc fuel) x count buffer
      ≡ write_length_loop fuel (x / 128) (count + 1) (buffer ++ (x % 128 + 128) ∷ [])
unfolding write_length_loop
inner_round fuel x count buffer h = ground (arith, with_top_bit (x % 128))

rounds :
    (fuel x count : ℕ) (buffer : Bytes)
    → x ≤ 268435455
    → write_length_loop (suc (suc (suc (suc fuel)))) x count buffer
      ≡ (ok (count + len_len x), buffer ++ var_int x)
unfolding len_len var_int
rounds fuel x count buffer h = ground (
  arith,
  last_round (suc (suc (suc fuel))) x count buffer,
  inner_round (suc (suc (suc fuel))) x count buffer,
  last_round (suc (suc fuel)) (x / 128) (count + 1) (buffer ++ (x % 128 + 128) ∷ []),
  inner_round (suc (suc fuel)) (x / 128) (count + 1) (buffer ++ (x % 128 + 128) ∷ []),
  last_round (suc fuel) (x / 128 / 128) (count + 1 + 1)
      ((buffer ++ (x % 128 + 128) ∷ []) ++ (x / 128 % 128 + 128) ∷ []),
  inner_round (suc fuel) (x / 128 / 128) (count + 1 + 1)
      ((buffer ++ (x % 128 + 128) ∷ []) ++ (x / 128 % 128 + 128) ∷ []),
  last_round fuel (x / 128 / 128 / 128) (count + 1 + 1 + 1) (
      ((buffer ++ (x % 128 + 128) ∷ []) ++ (x / 128 % 128 + 128) ∷ [])
      ++ (x / 128 / 128 % 128 + 128) ∷ []),
  append_assoc buffer ((x % 128 + 128) ∷ []) (x / 128 ∷ []),
  append_assoc (buffer ++ (x % 128 + 128) ∷ []) ((x / 128 % 128 + 128) ∷ []) (x / 16384 ∷ []),
  append_assoc buffer ((x % 128 + 128) ∷ []) ((x / 128 % 128 + 128) ∷ x / 16384 ∷ []),
  append_assoc ((buffer ++ (x % 128 + 128) ∷ []) ++ (x / 128 % 128 + 128) ∷ [])
      ((x / 16384 % 128 + 128) ∷ []) (x / 2097152 ∷ []),
  append_assoc (buffer ++ (x % 128 + 128) ∷ []) ((x / 128 % 128 + 128) ∷ [])
      ((x / 16384 % 128 + 128) ∷ x / 2097152 ∷ []),
  append_assoc buffer ((x % 128 + 128) ∷ [])
      ((x / 128 % 128 + 128) ∷ (x / 16384 % 128 + 128) ∷ x / 2097152 ∷ []),
)

pub length-var_int : (n : ℕ) → length (var_int n) ≡ len_len n
unfolding var_int len_len
length-var_int n = ground arith

pub len_len_bounds : (n : ℕ) → (1 ≤ len_len n) × (len_len n ≤ 4)
unfolding len_len
len_len_bounds n = ground arith

pub var_int_small : (n : ℕ) → n < 128 → var_int n ≡ n ∷ []
unfolding var_int
var_int_small n h = ground arith

-- The written bytes are the image, and the result counts them.
pub write_remaining_length-var_int :
    (n : ℕ) (buffer : Bytes)
    → n ≤ 268435455
    → write_remaining_length n buffer ≡ (ok (len_len n), buffer ++ var_int n)
unfolding write_remaining_length
write_remaining_length-var_int n buffer h = ground (arith, rounds 6 n 0 buffer)

pub parse_length-var_int :
    (n : ℕ) (rest : Bytes) → n ≤ 268435455 → parse_length (var_int n ++ rest) ≡ ok (len_len n, n)
unfolding parse_length len_len var_int
parse_length-var_int n rest h = ground (
  arith,
  low_seven_bits (n % 128 + 128),
  top_bit (n % 128 + 128),
  low_seven_bits (n / 128 % 128 + 128),
  top_bit (n / 128 % 128 + 128),
  low_seven_bits (n / 16384 % 128 + 128),
  top_bit (n / 16384 % 128 + 128),
  low_seven_bits (n / 2097152),
  top_bit (n / 2097152),
  low_seven_bits (n / 16384),
  top_bit (n / 16384),
  low_seven_bits (n / 128),
  top_bit (n / 128),
  low_seven_bits n,
  top_bit n,
)
