-- ===== src/Mqtt/Reader/Total.antt =====
-- The read functions return on every stream.
use robustmq.Prelude.{
  ℕ, ◌≤◌, ◌≡◌, Bool, true, false, ◌∷◌, [], arith, length, drop, leb, le→leb, if◌then◌else◌,
}
use robustmq.Mqtt.Bytes.{Bytes}
use robustmq.Mqtt.Outcome.{Error, ok, panic, Returns}
use robustmq.Mqtt.Buffer.{Buffered, continue, ◌>>=◌, Total, Returns->>=}
use robustmq.Mqtt.Reader.{
  advance, read_u8, read_u16, read_mqtt_bytes, split_checked, from_utf8, read_mqtt_string,
  read_utf8_bytes,
}

pub advance-Returns : (n : ℕ) (bs : Bytes) → n ≤ length bs → Returns (advance n bs).0
unfolding advance
advance-Returns n bs h = ground arith

passed-Returns :
    {A : Type 0} (t : Bool) (f : Unit {0} → Buffered A) (front back : Bytes)
    → t ≡ true
    → Returns (f tt front).0
    → Returns (continue f (if t then (ok tt, front) else (panic, back))).0
passed-Returns true f front back e h = h
passed-Returns false f front back e h = absurd (cc e)

-- After `advance` the bytes behind are read.
pub advance->>=-Returns :
    {A : Type 0} (n : ℕ) (f : Unit {0} → Buffered A) (bs : Bytes)
    → n ≤ length bs
    → Returns (f tt (drop n bs)).0
    → Returns ((advance n >>= f) bs).0
unfolding advance
advance->>=-Returns n f bs h k =
    passed-Returns (leb n (length bs)) f (drop n bs) bs (le→leb n (length bs) h) k

pub read_u8-Total : Total read_u8
unfolding read_u8
read_u8-Total [] = tt
read_u8-Total (b ∷ bs) = tt

pub read_u16-Total : Total read_u16
unfolding read_u16
read_u16-Total [] = tt
read_u16-Total (a ∷ []) = tt
read_u16-Total (a ∷ b ∷ bs) = tt

split_checked-Total : (n : ℕ) → Total (split_checked n)
unfolding split_checked
split_checked-Total n bs = ground arith

pub read_mqtt_bytes-Total : Total read_mqtt_bytes
unfolding read_mqtt_bytes
read_mqtt_bytes-Total bs = Returns->>= read_u16 _ bs (read_u16-Total bs) split_checked-Total

from_utf8-Returns : (e : Error) (s : Bytes) → Returns (from_utf8 e s)
unfolding from_utf8
from_utf8-Returns e s = ground arith

pub read_mqtt_string-Total : Total read_mqtt_string
unfolding read_mqtt_string
read_mqtt_string-Total bs =
    Returns->>= read_mqtt_bytes _ bs (read_mqtt_bytes-Total bs) λ s _. from_utf8-Returns _ s

pub read_utf8_bytes-Total : Total read_utf8_bytes
unfolding read_utf8_bytes
read_utf8_bytes-Total bs =
    Returns->>= read_mqtt_bytes _ bs (read_mqtt_bytes-Total bs) λ s _. from_utf8-Returns _ s
