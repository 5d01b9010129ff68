-- ===== src/Mqtt/V4/Connect/Total.antt =====
-- `read` of src/protocol/src/mqtt/mqttv4/connect.rs returns on every body.
use robustmq.Prelude.{ℕ, ◌≤◌, ◌/◌, bit_and, ◌||◌, length, inl, inr, Bool-cases, ◌==◌}
use robustmq.Mqtt.Bytes.{Bytes, bytes_eq}
use robustmq.Mqtt.Outcome.{Returns, invalid_protocol, invalid_protocol_level}
use robustmq.Mqtt.Buffer.{Total, guard, Returns->>=, guard-Total, lift}
use robustmq.Mqtt.Reader.{read_u8, read_u16, read_mqtt_bytes, read_utf8_bytes}
use robustmq.Mqtt.Reader.Total.{
  advance->>=-Returns, read_u8-Total, read_u16-Total, read_mqtt_bytes-Total, read_utf8_bytes-Total,
}
use robustmq.Mqtt.Types.Packets.{FixedHeader}
use robustmq.Mqtt.Qos.{qos_or_error, qos_or_error-Returns}
use robustmq.Mqtt.V4.Connect.{mqtt, will_read, flagged_text, login_read, read_rest, read}

flagged_text-Total : (flag : ℕ) → Total (flagged_text flag)
unfolding flagged_text
flagged_text-Total flag bs = elim (Bool-cases (flag == 0)) [
  | inl e ↦ rw e tt
  | inr e ↦ rw e (read_utf8_bytes-Total bs)
]

pub login_read-Total : (flags : ℕ) → Total (login_read flags)
unfolding login_read
login_read-Total flags bs =
    let user = bit_and flags 0b1000_0000 in
    let pass = bit_and flags 0b0100_0000 in
    Returns->>= (flagged_text user) _ bs (flagged_text-Total user bs)
      λ _ bs'. Returns->>= (flagged_text pass) _ bs' (flagged_text-Total pass bs') λ _ _. tt

pub will_read-Total : (flags : ℕ) → Total (will_read flags)
unfolding will_read
will_read-Total flags bs = elim (Bool-cases (bit_and flags 0b100 == 0)) [
  | inl e ↦ elim (Bool-cases (bit_and flags 0b0011_1000 == 0)) [
    | inl e' ↦ rw (e, e') tt
    | inr e' ↦ rw (e, e') tt
  ]
  | inr e ↦ rw e (
      Returns->>= read_mqtt_bytes _ bs (read_mqtt_bytes-Total bs) λ _ bs'.
        Returns->>= read_mqtt_bytes _ bs' (read_mqtt_bytes-Total bs') λ _ bs''.
          Returns->>= (lift (qos_or_error (bit_and flags 0b11000 / 8))) _ bs''
            (qos_or_error-Returns (bit_and flags 0b11000 / 8)) λ _ _. tt)
]

pub read_rest-Total : (level : ℕ) → Total (read_rest level)
unfolding read_rest
read_rest-Total level bs = Returns->>= read_u8 _ bs (read_u8-Total bs) λ flags bs'.
    Returns->>= read_u16 _ bs' (read_u16-Total bs') λ _ rest.
      Returns->>= read_utf8_bytes _ rest (read_utf8_bytes-Total rest) λ _ rest'.
        Returns->>= (will_read flags) _ rest' (will_read-Total flags rest')
          λ _ end. Returns->>= (login_read flags) _ end (login_read-Total flags end) λ _ _. tt

pub read-Returns :
    (h : FixedHeader) (bytes : Bytes) → h.fixed_header_len ≤ length bytes → Returns (read h bytes)
unfolding read
read-Returns h bytes k = advance->>=-Returns h.fixed_header_len _ bytes k (
    Returns->>= read_utf8_bytes _ _ (read_utf8_bytes-Total _) λ name bs.
      Returns->>= read_u8 _ bs (read_u8-Total bs) λ level bs'.
        let is_mqtt = bytes_eq name mqtt in
        let is_level = level == 4 || level == 3 in
        Returns->>= (guard is_mqtt invalid_protocol) _ bs' (guard-Total is_mqtt _ bs') λ _ rest.
          Returns->>= (guard is_level (invalid_protocol_level level)) _ rest
            (guard-Total is_level _ rest) λ _. read_rest-Total level)
