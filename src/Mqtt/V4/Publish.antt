-- ===== src/Mqtt/V4/Publish.antt =====
-- src/protocol/src/mqtt/mqttv4/publish.rs.
use robustmq.Prelude.{
  ℕ, ◌+◌, ◌*◌, ◌/◌, ◌≤◌, ◌<◌, ◌≡◌, refl, bit_and, bit_or, Bool, true, false, not, ◌&&◌, [], ◌∷◌,
  ◌++◌, arith,
}
use robustmq.Prelude.{
  inl, inr, Bool-cases, ◌==◌, if◌then◌else◌, length, length-append, append_assoc, append-nil,
}
use robustmq.Mqtt.Bytes.{Bytes}
use robustmq.Mqtt.Outcome.{Outcome, ok, err, panic, Returns, packet_id_zero}
use robustmq.Mqtt.Buffer.{Buffered, ◌>>=◌, ◌>>◌, run, guard, pure, fail, lift, Total, Returns->>=}
use robustmq.Mqtt.Reader.{advance, read_u16, read_mqtt_bytes, take_rest}
use robustmq.Mqtt.Reader.Total.{advance-Returns, read_u16-Total, read_mqtt_bytes-Total}
use robustmq.Mqtt.Writer.{
  bool_u8, put_u8, put_u16, put_slice, write_remaining_length, write_mqtt_bytes,
}
use robustmq.Mqtt.Types.Codes.{Qos, at_most_once, at_least_once, exactly_once}
use robustmq.Mqtt.Types.Packets.{FixedHeader, Publish}
use robustmq.Mqtt.Qos.{qos, to_u8, is_at_most_once, qos_or_error, qos_or_error-Returns}
use robustmq.Mqtt.Header.{new}
use robustmq.Mqtt.Header.Image.{var_int}
use robustmq.Mqtt.Header.Check.{frame, length-frame}
use robustmq.Mqtt.Wire.{
  u16, mqtt_bytes, length-mqtt_bytes, header, read_u16-image, read_mqtt_bytes-image, advance-frame,
  write_mqtt_bytes-image, write_remaining_length-header, append-frame,
}

-- `Publish::len`.
unfoldable pub len : Publish → ℕ
unfolding is_at_most_once
len p = let n = 2 + length p.topic + length p.payload in if is_at_most_once p.qos then n else n + 2

-- The identifier is on the wire where the QoS is above 0.
unfoldable pub read_pkid : Qos → Buffered ℕ
read_pkid at_most_once = pure 0
read_pkid at_least_once = read_u16
read_pkid exactly_once = read_u16

-- What follows the fixed header.
read_rest : Bool → Bool → Qos → Buffered Publish
unfolding is_at_most_once read_pkid
read_rest dup retain qos = do
  topic ← read_mqtt_bytes
  pkid ← read_pkid qos
  guard (not (not (is_at_most_once qos) && pkid == 0)) packet_id_zero
  payload ← take_rest
  pure (record {
    dup = dup;
    qos = qos;
    pkid = pkid;
    retain = retain;
    topic = topic;
    payload = payload;
  })

unfoldable pub read : FixedHeader → Bytes → Outcome Publish
unfolding qos_or_error read_rest
read h = run do
  qos ← lift (qos_or_error (bit_and h.byte1 0b0110 / 2))
  let dup = not (bit_and h.byte1 0b1000 == 0)
  let retain = not (bit_and h.byte1 0b0001 == 0)
  advance h.fixed_header_len
  read_rest dup retain qos

-- The first byte: `0b0011_0000 | retain | (qos << 1) | (dup << 3)`.
unfoldable pub first_byte : Publish → ℕ
unfolding bool_u8 to_u8
first_byte p =
    bit_or (bit_or (bit_or 0b0011_0000 (bool_u8 p.retain)) (to_u8 p.qos * 2)) (bool_u8 p.dup * 8)

write_pkid : Publish → Buffered (Unit {0})
unfolding is_at_most_once
write_pkid p =
    if is_at_most_once p.qos
    then pure tt
    else if p.pkid == 0
    then fail packet_id_zero
    else put_u16 p.pkid

unfoldable pub write : Publish → Buffered ℕ
unfolding len first_byte write_pkid
write p = do
  put_u8 (first_byte p)
  count ← write_remaining_length (len p)
  write_mqtt_bytes p.topic
  write_pkid p
  put_slice p.payload
  pure (1 + count + len p)

-- The first byte carries the three fields.
first_byte_fields :
    (p : Publish)
    → (qos_or_error (bit_and (first_byte p) 0b0110 / 2) ≡ ok p.qos)
      × (not (bit_and (first_byte p) 0b1000 == 0) ≡ p.dup)
      × (not (bit_and (first_byte p) 0b0001 == 0) ≡ p.retain)
      × (first_byte p / 16 ≡ 3)
unfolding qos_or_error first_byte
first_byte_fields p = fields p.retain p.qos p.dup
  where
    byte : Bool → Qos → Bool → ℕ
    byte r q d = bit_or (bit_or (bit_or 0b0011_0000 (bool_u8 r)) (to_u8 q * 2)) (bool_u8 d * 8)

    fields :
        (r : Bool) (q : Qos) (d : Bool)
        → (qos_or_error (bit_and (byte r q d) 0b0110 / 2) ≡ ok q)
          × (not (bit_and (byte r q d) 0b1000 == 0) ≡ d)
          × (not (bit_and (byte r q d) 0b0001 == 0) ≡ r)
          × (byte r q d / 16 ≡ 3)
    fields true at_most_once true = (refl, refl, refl, refl)
    fields true at_most_once false = (refl, refl, refl, refl)
    fields true at_least_once true = (refl, refl, refl, refl)
    fields true at_least_once false = (refl, refl, refl, refl)
    fields true exactly_once true = (refl, refl, refl, refl)
    fields true exactly_once false = (refl, refl, refl, refl)
    fields false at_most_once true = (refl, refl, refl, refl)
    fields false at_most_once false = (refl, refl, refl, refl)
    fields false at_least_once true = (refl, refl, refl, refl)
    fields false at_least_once false = (refl, refl, refl, refl)
    fields false exactly_once true = (refl, refl, refl, refl)
    fields false exactly_once false = (refl, refl, refl, refl)

-- The identifier on the wire.
unfoldable pub pkid_bytes : Publish → Bytes
pkid_bytes p = if is_at_most_once p.qos then [] else u16 p.pkid

abbrev pub body : Publish → Bytes
body p = mqtt_bytes p.topic ++ (pkid_bytes p ++ p.payload)

-- What can be written: an identifier exactly where the QoS is above 0.
pub record IsWritable (p : Publish) : Type 0 where
  pub topic_fits : length p.topic < 65536
  pub pkid_set : is_at_most_once p.qos ≡ (p.pkid == 0)

length-body : (p : Publish) → length (body p) ≡ len p
unfolding len pkid_bytes
length-body p = ground (
  arith,
  length-append (mqtt_bytes p.topic) (pkid_bytes p ++ p.payload),
  length-mqtt_bytes p.topic,
  length-append (pkid_bytes p) p.payload,
)

write_pkid-image :
    (p : Publish) (buffer : Bytes)
    → IsWritable p
    → write_pkid p buffer ≡ (ok tt, buffer ++ pkid_bytes p)
unfolding write_pkid pkid_bytes put_u16
write_pkid-image p buffer w = ground (arith, append-nil buffer, w.pkid_set)

pub write-frame :
    (p : Publish) (buffer : Bytes)
    → IsWritable p
    → length (body p) ≤ 268435455
    → write p buffer
      ≡ (ok (length (frame (first_byte p) (body p))), buffer ++ frame (first_byte p) (body p))
unfolding write put_u8 put_slice
write-frame p buffer w h =
    let start = buffer ++ first_byte p ∷ var_int (length (body p)) in
    ground (
      arith,
      length-body p,
      length-frame (first_byte p) (body p),
      write_remaining_length-header (first_byte p) (length (body p)) buffer,
      write_mqtt_bytes-image p.topic start w.topic_fits,
      write_pkid-image p (start ++ mqtt_bytes p.topic) w,
      append_assoc start (mqtt_bytes p.topic) (pkid_bytes p),
      append_assoc start (mqtt_bytes p.topic ++ pkid_bytes p) p.payload,
      append_assoc (mqtt_bytes p.topic) (pkid_bytes p) p.payload,
      append-frame (first_byte p) buffer (body p),
    )

read_pkid-image :
    (p : Publish) (rest : Bytes)
    → IsWritable p
    → read_pkid p.qos (pkid_bytes p ++ rest) ≡ (ok p.pkid, rest)
unfolding pkid_bytes read_pkid is_at_most_once
read_pkid-image p rest w = by_qos p.qos w.pkid_set
  where
    by_qos :
        (q : Qos)
        → is_at_most_once q ≡ (p.pkid == 0)
        → read_pkid q ((if is_at_most_once q then [] else u16 p.pkid) ++ rest) ≡ (ok p.pkid, rest)
    by_qos at_most_once e = ground arith
    by_qos at_least_once e = read_u16-image p.pkid rest
    by_qos exactly_once e = read_u16-image p.pkid rest

pub read-frame :
    (p : Publish)
    → IsWritable p
    → read (header (first_byte p) (body p)) (frame (first_byte p) (body p)) ≡ ok p
unfolding read new take_rest
read-frame p w = ground (
  arith,
  (first_byte_fields p).0,
  (first_byte_fields p).1,
  (first_byte_fields p).2,
  advance-frame (first_byte p) (body p),
  read_mqtt_bytes-image p.topic (pkid_bytes p ++ p.payload),
  read_pkid-image p p.payload w,
  w.pkid_set,
)

pub packet_type_bits : (p : Publish) → first_byte p / 16 ≡ 3
packet_type_bits p = (first_byte_fields p).3

read_pkid-Total : (q : Qos) → Total (read_pkid q)
unfolding read_pkid
read_pkid-Total at_most_once bs = tt
read_pkid-Total at_least_once bs = read_u16-Total bs
read_pkid-Total exactly_once bs = read_u16-Total bs

read_rest-Total : (dup retain : Bool) (q : Qos) → Total (read_rest dup retain q)
unfolding read_rest take_rest
read_rest-Total dup retain q bs =
    Returns->>= read_mqtt_bytes _ bs (read_mqtt_bytes-Total bs) λ _ bs'.
      Returns->>= (read_pkid q) _ bs' (read_pkid-Total q bs') λ pkid _.
        elim (Bool-cases (not (not (is_at_most_once q) && pkid == 0))) [
          | inl e ↦ rw e tt
          | inr e ↦ rw e tt
        ]

after_qos-Returns :
    (dup retain : Bool) (n : ℕ) (bytes : Bytes) (r : Outcome Qos)
    → n ≤ length bytes
    → Returns r
    → Returns ((lift r >>= λ q. advance n >> read_rest dup retain q) bytes).0
after_qos-Returns dup retain n bytes (ok q) k t =
    Returns->>= (advance n) _ bytes (advance-Returns n bytes k) λ _. read_rest-Total dup retain q
after_qos-Returns dup retain n bytes (err e) k t = tt
after_qos-Returns dup retain n bytes panic k t = t

pub read-Returns :
    (h : FixedHeader) (bytes : Bytes) → h.fixed_header_len ≤ length bytes → Returns (read h bytes)
unfolding read
read-Returns h bytes k =
    let q = bit_and h.byte1 0b0110 / 2 in
    let dup = not (bit_and h.byte1 0b1000 == 0) in
    let retain = not (bit_and h.byte1 0b0001 == 0) in
    after_qos-Returns dup retain _ bytes (qos_or_error q) k (qos_or_error-Returns q)

-- A publish above QoS 0 with identifier 0 is an error, but the header, which announces the whole
-- packet, and the topic stay in the buffer.
pub write-pkid_zero :
    (p : Publish) (buffer : Bytes)
    → length p.topic < 65536
    → length (body p) ≤ 268435455
    → is_at_most_once p.qos ≡ false
    → p.pkid ≡ 0
    → write p buffer ≡ (
      err packet_id_zero,
      (buffer ++ first_byte p ∷ var_int (length (body p))) ++ mqtt_bytes p.topic,
    )
unfolding write write_pkid put_u8
write-pkid_zero p buffer t h q e =
    let start = buffer ++ first_byte p ∷ var_int (length (body p)) in
    ground (
      arith,
      length-body p,
      write_remaining_length-header (first_byte p) (length (body p)) buffer,
      write_mqtt_bytes-image p.topic start,
    )
