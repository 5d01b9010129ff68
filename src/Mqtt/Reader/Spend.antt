-- ===== src/Mqtt/Reader/Spend.antt =====
-- How many bytes a read that succeeds takes from the front.
use robustmq.Prelude.{
  ℕ, ◌+◌, ◌≤◌, ◌≡◌, refl, [], ◌∷◌, arith, length, length-drop, length-take_le, ◌*◌,
}
use robustmq.Mqtt.Bytes.{Bytes}
use robustmq.Mqtt.Outcome.{Outcome, ok, err, panic}
use robustmq.Mqtt.Buffer.{Buffered, ◌>>=◌, continue, lift}
use robustmq.Mqtt.Reader.{
  read_u8, read_u16, read_mqtt_bytes, split_checked, from_utf8, read_mqtt_string, read_utf8_bytes,
}

-- A success takes `k` bytes at least.
abbrev pub Spends : {A : Type 0} → ℕ → Buffered A → Type 0
Spends {A} k m = (bs : Bytes) (a : A) → (m bs).0 ≡ ok a → length (m bs).1 + k ≤ length bs

continue-Spends :
    {A B : Type 0} (j k n : ℕ) (f : A → Buffered B) (r : Outcome A × Bytes) (b : B)
    → ((a : A) → r.0 ≡ ok a → length r.1 + j ≤ n)
    → ((a : A) → Spends k (f a))
    → (continue f r).0 ≡ ok b
    → length (continue f r).1 + (j + k) ≤ n
continue-Spends j k n f (ok a, rest) b h g e = omega (arith, h a refl, g a rest b e)
continue-Spends j k n f (err x, rest) b h g e = absurd (cc e)
continue-Spends j k n f (panic, rest) b h g e = absurd (cc e)

pub >>=-Spends :
    {A B : Type 0} (j k : ℕ) (m : Buffered A) (f : A → Buffered B)
    → Spends j m
    → ((a : A) → Spends k (f a))
    → Spends (j + k) (m >>= f)
>>=-Spends j k m f h g bs b e = continue-Spends j k (length bs) f (m bs) b (h bs) g e

pub lift-Spends : {A : Type 0} (r : Outcome A) → Spends 0 (lift r)
lift-Spends r bs a e = omega arith

pub read_u8-Spends : Spends 1 read_u8
unfolding read_u8
read_u8-Spends [] a e = absurd (cc e)
read_u8-Spends (b ∷ bs) a e = omega arith

pub read_u16-Spends : Spends 2 read_u16
unfolding read_u16
read_u16-Spends [] a e = absurd (cc e)
read_u16-Spends (b ∷ []) a e = absurd (cc e)
read_u16-Spends (b ∷ c ∷ bs) a e = omega arith

-- The bytes that are split off leave the stream.
split_checked-exact :
    (n : ℕ) (bs s : Bytes)
    → (split_checked n bs).0 ≡ ok s
    → (length (split_checked n bs).1 + length s ≡ length bs) × (length s ≡ n)
unfolding split_checked
split_checked-exact n bs s e = ground (arith, length-drop n bs, length-take_le n bs)

split_checked-Spends : (n : ℕ) → Spends 0 (split_checked n)
split_checked-Spends n bs s e = omega (arith, (split_checked-exact n bs s e).0)

pub read_mqtt_bytes-Spends : Spends 2 read_mqtt_bytes
unfolding read_mqtt_bytes
read_mqtt_bytes-Spends = >>=-Spends 2 0 read_u16 _ read_u16-Spends split_checked-Spends

pub read_utf8_bytes-Spends : Spends 2 read_utf8_bytes
unfolding read_utf8_bytes
read_utf8_bytes-Spends =
    >>=-Spends 2 0 read_mqtt_bytes _ read_mqtt_bytes-Spends λ s. lift-Spends (from_utf8 _ s)

-- One of the two bytes of the length, for a loop that needs one.
pub read_mqtt_string-Spends : Spends 1 read_mqtt_string
unfolding read_mqtt_string
read_mqtt_string-Spends =
    >>=-Spends 1 0 read_mqtt_bytes _ (λ bs s e. omega (arith, read_mqtt_bytes-Spends bs s e))
      λ s. lift-Spends (from_utf8 _ s)

-- A text read from the stream takes its own length and two bytes.
pub read_mqtt_string-exact :
    (bs s : Bytes)
    → (read_mqtt_string bs).0 ≡ ok s
    → length (read_mqtt_string bs).1 + (2 + length s) ≡ length bs
unfolding read_mqtt_string read_mqtt_bytes read_u16 from_utf8
read_mqtt_string-exact [] s e = absurd (cc e)
read_mqtt_string-exact (b ∷ []) s e = absurd (cc e)
read_mqtt_string-exact (b ∷ c ∷ bs) s e = ground (arith, e, split_checked-exact (b * 256 + c) bs s)
