-- ===== src/Mqtt/Codec/Laws.antt =====
-- `decode_data` of src/protocol/src/mqtt/codec.rs on arbitrary bytes from the network.
use robustmq.Prelude.{
  ℕ, ◌≡◌, ◌≢◌, ◌≤◌, refl, sym, ap, ◌∙◌, inl, inr, false, ◌||◌, Option, none, some, arith,
}
use robustmq.Prelude.{length, take, Bool-cases, length-take_le, ◌==◌}
use robustmq.Mqtt.Bytes.{Bytes}
use robustmq.Mqtt.Outcome.{Outcome, ok, err, panic, Returns, Returns-cases, invalid_protocol}
use robustmq.Mqtt.Buffer.{Total, guard, Returns->>=, guard-Total, if-Total}
use robustmq.Mqtt.Reader.{read_u8, read_mqtt_string}
use robustmq.Mqtt.Reader.Total.{advance->>=-Returns, read_u8-Total, read_mqtt_string-Total}
use robustmq.Mqtt.Header.{check, frame_length, packet_type, packet_type_of}
use robustmq.Mqtt.Header.Check.{check-Returns, check_bounds}
use robustmq.Mqtt.Types.Codes.{PacketType}
use robustmq.Mqtt.Types.Packets.{FixedHeader}
use robustmq.Mqtt.Frames.{split_to-whole, packet_type-Returns, map_ok-Returns, max_size}
use robustmq.Mqtt.Frames
use robustmq.Mqtt.V4.Connect as Connect4
use robustmq.Mqtt.V4.Codec as Codec4
use robustmq.Mqtt.V5.Connect as Connect5
use robustmq.Mqtt.V5.Connect.{ConnectReadOutcome}
use robustmq.Mqtt.V5.Disconnect
use robustmq.Mqtt.V5.Codec as Codec5
use robustmq.Mqtt.Codec.Read.{read_v4, read_v5}
use robustmq.Mqtt.Codec.{
  read_level, connect_read, read_known, connected, is_connect, read_packet, read_frame, read_split,
  read_checked, decode_data,
}

read_level-Total : (level : ℕ) → Total (read_level level)
unfolding read_level
read_level-Total level = if-Total (level == 5) _ _ (Connect5.Total.read_rest-Total level) (
    if-Total (level == 4 || level == 3) _ _
      (λ bs.
        Returns->>= (Connect4.read_rest level) _ bs (Connect4.Total.read_rest-Total level bs)
          λ _ _. tt)
      (λ _. tt))

connect_read-Returns :
    (h : FixedHeader) (bs : Bytes) → h.fixed_header_len ≤ length bs → Returns (connect_read h bs)
unfolding connect_read
connect_read-Returns h bs k = advance->>=-Returns h.fixed_header_len _ bs k (
    Returns->>= read_mqtt_string _ _ (read_mqtt_string-Total _) λ name bs.
      Returns->>= read_u8 _ bs (read_u8-Total bs) λ level bs'.
        Returns->>= (guard _ invalid_protocol) _ bs' (guard-Total _ _ bs')
          λ _. read_level-Total level)

module _ (h : FixedHeader) (bs : Bytes) (e : frame_length h ≡ length bs) where
  read_v4-Returns :
      (t : PacketType) → is_connect t ≡ false → t ≢ PacketType.auth → Returns (read_v4 t h bs)
  unfolding read_v4 is_connect frame_length Codec4.read_packet
  read_v4-Returns PacketType.connect c n = cc
  read_v4-Returns PacketType.conn_ack c n =
      Codec4.Safety.read_packet-Returns PacketType.conn_ack h bs e
  read_v4-Returns PacketType.publish c n =
      Codec4.Safety.read_packet-Returns PacketType.publish h bs e
  read_v4-Returns PacketType.pub_ack c n =
      Codec4.Safety.read_packet-Returns PacketType.pub_ack h bs e
  read_v4-Returns PacketType.pub_rec c n =
      Codec4.Safety.read_packet-Returns PacketType.pub_rec h bs e
  read_v4-Returns PacketType.pub_rel c n =
      Codec4.Safety.read_packet-Returns PacketType.pub_rel h bs e
  read_v4-Returns PacketType.pub_comp c n =
      Codec4.Safety.read_packet-Returns PacketType.pub_comp h bs e
  read_v4-Returns PacketType.subscribe c n =
      Codec4.Safety.read_packet-Returns PacketType.subscribe h bs e
  read_v4-Returns PacketType.sub_ack c n =
      Codec4.Safety.read_packet-Returns PacketType.sub_ack h bs e
  read_v4-Returns PacketType.unsubscribe c n =
      Codec4.Safety.read_packet-Returns PacketType.unsubscribe h bs e
  read_v4-Returns PacketType.unsub_ack c n =
      Codec4.Safety.read_packet-Returns PacketType.unsub_ack h bs e
  read_v4-Returns PacketType.ping_req c n =
      Codec4.Safety.read_packet-Returns PacketType.ping_req h bs e
  read_v4-Returns PacketType.ping_resp c n =
      Codec4.Safety.read_packet-Returns PacketType.ping_resp h bs e
  read_v4-Returns PacketType.disconnect c n =
      map_ok-Returns _ (Disconnect.read h bs) (Disconnect.read-Returns h bs (omega arith))
  read_v4-Returns PacketType.auth c n = absurd (n refl)

  read_v5-Codec :
      (t : PacketType)
      → is_connect t ≡ false
      → t ≢ PacketType.auth
      → read_v5 t h bs ≡ Codec5.read_packet t h bs
  unfolding read_v5 is_connect Codec5.read_packet
  read_v5-Codec t c n = ground (arith, c, n)

  read_v5-Returns :
      (t : PacketType) → is_connect t ≡ false → t ≢ PacketType.auth → Returns (read_v5 t h bs)
  read_v5-Returns t c n = rw (read_v5-Codec t c n) (Codec5.Safety.read_packet-Returns t h bs e)

  read_known-Returns :
      (version : Option ℕ) (t : PacketType)
      → is_connect t ≡ false
      → t ≢ PacketType.auth
      → Returns (read_known version t h bs)
  unfolding read_known
  read_known-Returns none t c n = tt
  read_known-Returns (some v) t c n = elim (Bool-cases (v == 4 || v == 3)) [
    | inl p ↦ rw p (read_v4-Returns t c n)
    | inr p ↦ elim (Bool-cases (v == 5)) [
      | inl q ↦ rw (p, q) (read_v5-Returns t c n)
      | inr q ↦ rw (p, q) tt
    ]
  ]

  connected-Returns :
      (version : Option ℕ) (o : Outcome ConnectReadOutcome)
      → Returns o
      → Returns (connected version h bs o).1
  unfolding connected read_known
  connected-Returns version (ok o) r =
      elim (Bool-cases (o.protocol_version == 4 || o.protocol_version == 3)) [
        | inl p ↦ rw p tt
        | inr p ↦ elim (Bool-cases (o.protocol_version == 5)) [
          | inl q ↦ rw (p, q) tt
          | inr q ↦ rw (p, q) tt
        ]
      ]
  connected-Returns version (err x) r = tt
  connected-Returns version panic r = r

  read_packet-Returns :
      (version : Option ℕ) (t : PacketType)
      → t ≢ PacketType.auth
      → Returns (read_packet version t h bs).1
  unfolding read_packet frame_length
  read_packet-Returns version t n = elim (Bool-cases (is_connect t)) [
    | inl c ↦
        rw c
          (connected-Returns version (connect_read h bs) (connect_read-Returns h bs (omega arith)))
    | inr c ↦ rw c (read_known-Returns version t c n)
  ]

  read_frame-Returns :
      (version : Option ℕ)
      → packet_type h ≢ ok PacketType.auth
      → Returns (read_frame version h bs (packet_type h)).1
  unfolding read_frame
  read_frame-Returns version n = elim (Returns-cases (packet_type h) (packet_type-Returns h)) [
    | inl (t, p) ↦
        rw p (map_ok-Returns some _ (read_packet-Returns version t (λ q. n (p ∙ ap ok q))))
    | inr (x, p) ↦ rw p tt
  ]

-- The header of an auth packet is refused.
packet_type-not_auth : (h : FixedHeader) → packet_type h ≢ ok PacketType.auth
unfolding packet_type packet_type_of
packet_type-not_auth h e = ground (arith, e)

-- Whatever bytes arrive in whatever version, `decode_data` returns a packet or an error; it never
-- panics.
pub decode_data-Returns :
    (version : Option ℕ) (stream : Bytes) → Returns (decode_data version stream).1
unfolding decode_data read_checked read_split
decode_data-Returns version stream =
    elim (Returns-cases (check stream max_size) (check-Returns stream max_size)) [
      | inl (h, p) ↦
          let b = (check_bounds stream max_size h p).3 in
          rw (p, split_to-whole (frame_length h) stream b)
            (read_frame-Returns h (take (frame_length h) stream)
              (sym (length-take_le (frame_length h) stream b)) version (packet_type-not_auth h))
      | inr (x, p) ↦ rw p tt
    ]

-- In version 5, `decode_data` keeps the version and does what the codec of MQTT 5 does, when a
-- header that it accepts is not that of a connect.
pub decode_data-v5 :
    (stream : Bytes)
    → ((h : FixedHeader) (t : PacketType)
        → check stream max_size ≡ ok h
        → packet_type h ≡ ok t
        → is_connect t ≡ false)
    → decode_data (some 5) stream ≡ (some 5, (Codec5.decode stream).0, (Codec5.decode stream).1)
unfolding decode_data read_checked read_split read_frame read_packet read_known Codec5.decode
decode_data-v5 stream n =
    elim (Returns-cases (check stream max_size) (check-Returns stream max_size)) [
      | inl (h, p) ↦
          let b = (check_bounds stream max_size h p).3 in
          let packet = take (frame_length h) stream in
          let whole = length-take_le (frame_length h) stream b in
          rw
            (
              p,
              split_to-whole (frame_length h) stream b,
              Frames.decode-check_ok Codec5.read_packet stream h p,
            )
            (elim (Returns-cases (packet_type h) (packet_type-Returns h)) [
              | inl (t, q) ↦
                  let k = n h t p q in
                  rw
                    (
                      q,
                      k,
                      read_v5-Codec h packet (sym whole) t k
                          (λ a. packet_type-not_auth h (q ∙ ap ok a)),
                    )
                    refl
              | inr (x, q) ↦ rw q refl
            ])
      | inr (x, p) ↦ rw (p, Frames.decode-check_err Codec5.read_packet stream x p) refl
    ]
