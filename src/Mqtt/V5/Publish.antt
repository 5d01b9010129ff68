-- ===== src/Mqtt/V5/Publish.antt =====
-- src/protocol/src/mqtt/mqttv5/publish.rs.
pub mod Properties
pub mod Written
use robustmq.Prelude.{ℕ, ◌+◌, ◌*◌, ◌/◌, ◌≤◌, bit_and, bit_or, Bool, not, ◌&&◌, Option}
use robustmq.Prelude.{◌==◌, if◌then◌else◌, length}
use robustmq.Mqtt.Bytes.{Bytes}
use robustmq.Mqtt.Outcome.{Outcome, ok, err, panic, Returns, packet_id_zero}
use robustmq.Mqtt.Buffer.{
  Buffered, ◌>>=◌, ◌>>◌, run, guard, pure, fail, lift, Total, Returns->>=, guard-Total,
}
use robustmq.Mqtt.Reader.{advance, read_u16, read_mqtt_bytes, take_rest}
use robustmq.Mqtt.Reader.Total.{advance-Returns, read_u16-Total, read_mqtt_bytes-Total}
use robustmq.Mqtt.Writer.{
  bool_u8, put_u8, put_u16, put_slice, write_remaining_length, write_mqtt_bytes,
}
use robustmq.Mqtt.Types.Codes.{Qos, at_most_once, at_least_once, exactly_once}
use robustmq.Mqtt.Types.Packets.{FixedHeader, Publish}
use robustmq.Mqtt.Types.Properties.{PublishProperties}
use robustmq.Mqtt.Qos.{to_u8, is_at_most_once, qos_or_error, qos_or_error-Returns}
use robustmq.Mqtt.V5.Properties.{len_of, write_or_zero, read_properties}
use robustmq.Mqtt.V5.Properties.Total.{read_properties-Total}
use Properties as Fields

unfoldable pub len : Publish → Option PublishProperties → ℕ
unfolding is_at_most_once
len p properties =
    let topic = 2 + length p.topic in
    let with_pkid = if not (is_at_most_once p.qos) && not (p.pkid == 0) then topic + 2 else topic in
    with_pkid + len_of Fields.len properties + length p.payload

-- The first byte: `0b0011_0000 | retain | (qos << 1) | (dup << 3)`.
unfoldable pub first_byte : Publish → ℕ
unfolding bool_u8 to_u8
first_byte p =
    bit_or (bit_or (bit_or 0b0011_0000 (bool_u8 p.retain)) (to_u8 p.qos * 2)) (bool_u8 p.dup * 8)

write_pkid : Publish → Buffered (Unit {0})
unfolding is_at_most_once
write_pkid p =
    if is_at_most_once p.qos
    then pure tt
    else if p.pkid == 0
    then fail packet_id_zero
    else put_u16 p.pkid

unfoldable pub write : Publish → Option PublishProperties → Buffered ℕ
unfolding len first_byte write_pkid
write p properties = do
  put_u8 (first_byte p)
  count ← write_remaining_length (len p properties)
  write_mqtt_bytes p.topic
  write_pkid p
  write_or_zero Fields.write properties
  put_slice p.payload
  pure (1 + count + len p properties)

-- The identifier is on the wire where the QoS is above 0.
unfoldable pub read_pkid : Qos → Buffered ℕ
read_pkid at_most_once = pure 0
read_pkid at_least_once = read_u16
read_pkid exactly_once = read_u16

-- What follows the fixed header.
unfoldable pub read_rest : Bool → Bool → Qos → Buffered (Publish × Option PublishProperties)
unfolding is_at_most_once read_pkid
read_rest dup retain qos = do
  topic ← read_mqtt_bytes
  pkid ← read_pkid qos
  guard (not (not (is_at_most_once qos) && pkid == 0)) packet_id_zero
  properties ← read_properties Fields.arms Fields.empty
  payload ← take_rest
  pure (
    record { dup = dup; qos = qos; pkid = pkid; retain = retain; topic = topic; payload = payload },
    properties,
  )

unfoldable pub read : FixedHeader → Bytes → Outcome (Publish × Option PublishProperties)
unfolding qos_or_error read_rest
read h = run do
  qos ← lift (qos_or_error (bit_and h.byte1 0b0110 / 2))
  let dup = not (bit_and h.byte1 0b1000 == 0)
  let retain = not (bit_and h.byte1 0b0001 == 0)
  advance h.fixed_header_len
  read_rest dup retain qos

read_pkid-Total : (qos : Qos) → Total (read_pkid qos)
unfolding read_pkid
read_pkid-Total at_most_once bs = tt
read_pkid-Total at_least_once bs = read_u16-Total bs
read_pkid-Total exactly_once bs = read_u16-Total bs

read_rest-Total : (dup retain : Bool) (qos : Qos) → Total (read_rest dup retain qos)
unfolding read_rest take_rest
read_rest-Total dup retain qos bs =
    Returns->>= read_mqtt_bytes _ bs (read_mqtt_bytes-Total bs) λ topic bs'.
      Returns->>= (read_pkid qos) _ bs' (read_pkid-Total qos bs') λ pkid bs2.
        let is_set = not (not (is_at_most_once qos) && pkid == 0) in
        Returns->>= (guard is_set packet_id_zero) _ bs2 (guard-Total is_set _ bs2) λ _ bs3.
          Returns->>= (read_properties Fields.arms Fields.empty) _ bs3
            (read_properties-Total Fields.arms Fields.empty Fields.arms-AreTotal bs3) λ _ _. tt

after_qos-Returns :
    (dup retain : Bool) (n : ℕ) (bytes : Bytes) (q : Outcome Qos)
    → n ≤ length bytes
    → Returns q
    → Returns ((lift q >>= λ qos. advance n >> read_rest dup retain qos) bytes).0
after_qos-Returns dup retain n bytes (ok qos) k h =
    Returns->>= (advance n) _ bytes (advance-Returns n bytes k) λ _. read_rest-Total dup retain qos
after_qos-Returns dup retain n bytes (err e) k h = tt
after_qos-Returns dup retain n bytes panic k h = h

pub read-Returns :
    (h : FixedHeader) (bytes : Bytes) → h.fixed_header_len ≤ length bytes → Returns (read h bytes)
unfolding read
read-Returns h bytes g =
    let q = bit_and h.byte1 0b0110 / 2 in
    let dup = not (bit_and h.byte1 0b1000 == 0) in
    let retain = not (bit_and h.byte1 0b0001 == 0) in
    after_qos-Returns dup retain _ bytes (qos_or_error q) g (qos_or_error-Returns q)
