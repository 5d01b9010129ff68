-- ===== src/Mqtt/V4/Unsubscribe.antt =====
-- src/protocol/src/mqtt/mqttv4/unsubscribe.rs.
use robustmq.Prelude.{ℕ, zero, suc, ◌+◌, ◌-◌, ◌≤◌, ◌<◌, ◌≡◌, refl, true, List, [], ◌∷◌, ◌++◌, arith}
use robustmq.Prelude.{
  drop, ltb, if◌then◌else◌, length, length-append, length-drop, append_assoc, append-nil, All,
}
use robustmq.Mqtt.Bytes.{Bytes, Text, is_utf8}
use robustmq.Mqtt.Outcome.{Outcome, ok, err, panic, Returns}
use robustmq.Mqtt.Buffer.{Buffered, continue, ◌>>=◌, ◌>>◌, run, pure, lift, Returns->>=}
use robustmq.Mqtt.Reader.{advance, read_u16, read_mqtt_string}
use robustmq.Mqtt.Reader.Total.{advance->>=-Returns, read_mqtt_string-Total}
use robustmq.Mqtt.Reader.Spend.{read_mqtt_string-exact}
use robustmq.Mqtt.Writer.{put_u8, put_u16, write_remaining_length, write_mqtt_string}
use robustmq.Mqtt.Types.Packets.{FixedHeader, Unsubscribe}
use robustmq.Mqtt.Header.{new}
use robustmq.Mqtt.Header.Image.{var_int}
use robustmq.Mqtt.Header.Check.{frame, length-frame}
use robustmq.Mqtt.Wire.{
  u16, mqtt_bytes, length-mqtt_bytes, header, read_u16-image, read_mqtt_string-image, advance-frame,
  write_mqtt_string-image, write_remaining_length-header, append-frame,
}

-- The fold in `write`.
topics_len : List Text → ℕ
topics_len [] = 0
topics_len (t ∷ ts) = length t + 2 + topics_len ts

unfoldable pub remaining_len : Unsubscribe → ℕ
unfolding topics_len
remaining_len p = 2 + topics_len p.filters

write_topics : List Text → Buffered (Unit {0})
write_topics [] = pure tt
write_topics (t ∷ ts) = do write_mqtt_string t; write_topics ts

unfoldable pub write : Unsubscribe → Buffered ℕ
unfolding remaining_len write_topics
write p = do
  put_u8 0xa2
  remaining_len_bytes ← write_remaining_length (remaining_len p)
  put_u16 p.pkid
  write_topics p.filters
  pure (1 + remaining_len_bytes + remaining_len p)

-- A usize difference; it panics below 0 where overflow checks are on.
checked_sub : ℕ → ℕ → Outcome ℕ
checked_sub a b = if ltb a b then panic else ok (a - b)

-- The loop on `payload_bytes`. A round takes two from the count, so the count is fuel enough.
read_topics : ℕ → ℕ → Buffered (List Text)
unfolding checked_sub
read_topics fuel zero = pure []
read_topics zero (suc n) = lift panic
read_topics (suc fuel) (suc n) = do
  topic_filter ← read_mqtt_string
  payload_bytes ← lift (checked_sub (suc n) (length topic_filter + 2))
  filters ← read_topics fuel payload_bytes
  pure (topic_filter ∷ filters)

unfoldable pub read : FixedHeader → Bytes → Outcome Unsubscribe
unfolding checked_sub read_topics
read h = run do
  advance h.fixed_header_len
  pkid ← read_u16
  payload_bytes ← lift (checked_sub h.remaining_len 2)
  filters ← read_topics payload_bytes payload_bytes
  pure (record { pkid = pkid; filters = filters })

topics_bytes : List Text → Bytes
topics_bytes [] = []
topics_bytes (t ∷ ts) = mqtt_bytes t ++ topics_bytes ts

unfoldable pub body : Unsubscribe → Bytes
unfolding topics_bytes
body p = u16 p.pkid ++ topics_bytes p.filters

abbrev pub IsTopic : Text → Type 0
IsTopic t = (length t < 65536) × (is_utf8 t ≡ true)

write_topics-image :
    (ts : List Text) (buffer : Bytes)
    → All IsTopic ts
    → write_topics ts buffer ≡ (ok tt, buffer ++ topics_bytes ts)
unfolding write_topics topics_bytes
write_topics-image [] buffer h = ground (arith, append-nil buffer)
write_topics-image (t ∷ ts) buffer h = ground (
  arith,
  write_mqtt_string-image t buffer,
  append_assoc buffer (mqtt_bytes t) (topics_bytes ts),
  write_topics-image ts (buffer ++ mqtt_bytes t),
)

length-topics_bytes : (ts : List Text) → length (topics_bytes ts) ≡ topics_len ts
unfolding topics_bytes topics_len
length-topics_bytes [] = refl
length-topics_bytes (t ∷ ts) = omega (
  arith,
  length-append (mqtt_bytes t) (topics_bytes ts),
  length-mqtt_bytes t,
  length-topics_bytes ts,
)

length-body : (p : Unsubscribe) → length (body p) ≡ remaining_len p
unfolding body remaining_len
length-body p = omega (arith, length-topics_bytes p.filters)

pub write-frame :
    (p : Unsubscribe) (buffer : Bytes)
    → All IsTopic p.filters
    → length (body p) ≤ 268435455
    → write p buffer ≡ (ok (length (frame 0xa2 (body p))), buffer ++ frame 0xa2 (body p))
unfolding write put_u8 put_u16 body
write-frame p buffer w h =
    let start = buffer ++ 0xa2 ∷ var_int (length (body p)) in
    ground (
      arith,
      length-body p,
      length-frame 0xa2 (body p),
      write_remaining_length-header 0xa2 (length (body p)) buffer,
      write_topics-image p.filters (start ++ u16 p.pkid) w,
      append_assoc start (u16 p.pkid) (topics_bytes p.filters),
      append-frame 0xa2 buffer (body p),
    )

-- A round where bytes are left.
read_topics_round :
    (fuel n : ℕ)
    → 0 < n
    → read_topics (suc fuel) n ≡ (do
      topic_filter ← read_mqtt_string
      payload_bytes ← lift (checked_sub n (length topic_filter + 2))
      filters ← read_topics fuel payload_bytes
      pure (topic_filter ∷ filters))
unfolding read_topics
read_topics_round fuel zero h = absurd (omega arith)
read_topics_round fuel (suc n) h = refl

checked_sub-add : (a b : ℕ) → checked_sub (a + b) a ≡ ok b
unfolding checked_sub
checked_sub-add a b = ground arith

topic_round :
    (fuel n : ℕ) (t : Text) (rest : Bytes)
    → IsTopic t
    → read_topics (suc fuel) (length t + 2 + n) (mqtt_bytes t ++ rest)
      ≡ (read_topics fuel n >>= λ filters. pure (t ∷ filters)) rest
topic_round fuel n t rest h =
    rw (read_topics_round fuel (length t + 2 + n) (omega arith), read_mqtt_string-image t rest h.1)
      (rw (checked_sub-add (length t + 2) n) refl)

read_topics-image :
    (fuel : ℕ) (ts : List Text)
    → All IsTopic ts
    → topics_len ts ≤ fuel
    → read_topics fuel (topics_len ts) (topics_bytes ts) ≡ (ok ts, [])
unfolding topics_len topics_bytes
read_topics-image fuel [] h k = unfold read_topics in ground arith
read_topics-image zero (t ∷ ts) h k = absurd (omega arith)
read_topics-image (suc fuel) (t ∷ ts) h k =
    ground (
      arith,
      topic_round fuel (topics_len ts) t (topics_bytes ts) h.0,
      read_topics-image fuel ts h.1,
    )

pub read-frame :
    (p : Unsubscribe)
    → All IsTopic p.filters
    → read (header 0xa2 (body p)) (frame 0xa2 (body p)) ≡ ok p
unfolding read new body checked_sub
read-frame p w = ground (
  arith,
  advance-frame 0xa2 (body p),
  read_u16-image p.pkid (topics_bytes p.filters),
  length-topics_bytes p.filters,
  read_topics-image (topics_len p.filters) p.filters w,
)

-- The rest of a round, after the text.
after_topic : ℕ → ℕ → Text → Buffered (List Text)
after_topic fuel n t = do
  payload_bytes ← lift (checked_sub n (length t + 2))
  filters ← read_topics fuel payload_bytes
  pure (t ∷ filters)

after_topic-Returns :
    (fuel n : ℕ) (r : Outcome Text × Bytes)
    → Returns r.0
    → ((t : Text) → r.0 ≡ ok t → n ≡ length t + 2 + length r.1)
    → ((m : ℕ) → m < n → m ≡ length r.1 → Returns (read_topics fuel m r.1).0)
    → Returns (continue (after_topic fuel n) r).0
unfolding after_topic
after_topic-Returns fuel n (ok t, rest) h e k =
    rw (e t refl, checked_sub-add (length t + 2) (length rest))
      (Returns->>= (read_topics fuel (length rest)) _ rest
        (k (length rest) (omega (arith, e t refl)) refl) λ _ _. tt)
after_topic-Returns fuel n (err x, rest) h e k = tt
after_topic-Returns fuel n (panic, rest) h e k = h

-- One round: the text that was read took its length and two bytes, so the count does not fall
-- below 0 where it is the number of bytes left.
read_topics-Returns :
    (fuel n : ℕ) (bs : Bytes) → n ≤ fuel → n ≡ length bs → Returns (read_topics fuel n bs).0
unfolding read_topics after_topic
read_topics-Returns fuel zero bs h e = tt
read_topics-Returns zero (suc n) bs h e = absurd (omega arith)
read_topics-Returns (suc fuel) (suc n) bs h e =
    after_topic-Returns fuel (suc n) (read_mqtt_string bs) (read_mqtt_string-Total bs)
      (λ t p. omega (arith, read_mqtt_string-exact bs t p))
      (λ m lt eq. read_topics-Returns fuel m _ (omega arith) eq)

after_pkid-Returns :
    (n : ℕ) (bs : Bytes)
    → n ≡ length bs
    → Returns
        ((do
          pkid ← read_u16
          payload_bytes ← lift (checked_sub n 2)
          filters ← read_topics payload_bytes payload_bytes
          pure {A = Unsubscribe} (record { pkid = pkid; filters = filters }))
          bs).0
unfolding read_u16
after_pkid-Returns n [] e = tt
after_pkid-Returns n (a ∷ []) e = tt
after_pkid-Returns n (a ∷ b ∷ bs) e =
    let left : n ≡ 2 + length bs = omega arith in
    rw (left, checked_sub-add 2 (length bs))
      (Returns->>= (read_topics (length bs) (length bs)) _ bs
        (read_topics-Returns (length bs) (length bs) bs (omega arith) refl) λ _ _. tt)

-- On a frame of the length that the header promises, `read` returns: neither difference of
-- usize values falls below 0.
pub read-Returns :
    (h : FixedHeader) (bytes : Bytes)
    → h.fixed_header_len + h.remaining_len ≡ length bytes
    → Returns (read h bytes)
unfolding read
read-Returns h bytes e = advance->>=-Returns h.fixed_header_len _ bytes (omega arith) (
    after_pkid-Returns h.remaining_len (drop h.fixed_header_len bytes)
      (omega (arith, length-drop h.fixed_header_len bytes)))
