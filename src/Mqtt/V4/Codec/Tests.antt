-- ===== src/Mqtt/V4/Codec/Tests.antt =====
-- Runs of src/protocol/src/mqtt/mqttv4/codec.rs and of the header functions on concrete packets.
use robustmq.Prelude.{ℕ, ◌≤◌, ◌≡◌, refl, ◌⊎◌, true, false, none, some, [], ◌∷◌, ◌++◌, arith}
use robustmq.Prelude.{◌+◌, length, drop, set}
use robustmq.Mqtt.Bytes.{Bytes, is_utf8}
use robustmq.Mqtt.Outcome.{
  Error, ok, err, Returns, packet_id_zero, invalid_protocol, malformed_remaining_length,
}
use robustmq.Mqtt.Types.{MqttPacket}
use robustmq.Mqtt.Types.Codes.{at_least_once, exactly_once}
use robustmq.Mqtt.Types.Packets.{FixedHeader, Connect, LastWill, Login, Publish}
use robustmq.Mqtt.Writer.{len_len, write_remaining_length}
use robustmq.Mqtt.Header.{check, frame_length, new, parse_length}
use robustmq.Mqtt.Header.Check.{check_bounds, frame}
use robustmq.Mqtt.Header.Image.{var_int}
use robustmq.Mqtt.Header.RoundTrip.{parse_length-write_remaining_length}
use robustmq.Mqtt.Wire.{mqtt_bytes}
use robustmq.Mqtt.V4.Publish
use robustmq.Mqtt.V4.Connect
use robustmq.Mqtt.V4.Connect.Image
use robustmq.Mqtt.V4.Connect.Written
use robustmq.Mqtt.V4.Codec.{encode, decode}
use robustmq.Mqtt.V4.Codec.Sent.{arrived}
use robustmq.Mqtt.V4.Codec.Safety.{decode-Returns, decode-progress}
use robustmq.Mqtt.V4.Codec.RoundTrip.{decode-encode, decode-disconnect}

abbrev connect : Connect
connect = record { keep_alive = 60; client_id = 0x63 ∷ 0x31 ∷ []; clean_session = true }

abbrev login : Login
login = record { username = 0x75 ∷ []; password = 0x70 ∷ [] }

abbrev will : LastWill
will = record { topic = 0x74 ∷ []; message = 0x6d ∷ []; qos = at_least_once; retain = false }

abbrev connect_packet : MqttPacket
connect_packet = MqttPacket.connect 4 connect none (some will) none (some login)

abbrev publish : Publish
publish = record {
  dup = false;
  qos = exactly_once;
  pkid = 7;
  retain = true;
  topic = 0x61 ∷ [];
  payload = 1 ∷ 2 ∷ [];
}

abbrev publish_packet : MqttPacket
publish_packet = MqttPacket.publish publish none

abbrev unnumbered : Publish
unnumbered = record publish { pkid = 0 }

connect-IsWritable : Connect.Image.IsWritable connect (some login) (some will)
unfolding is_utf8 Image.username Image.password Connect.opt_len
connect-IsWritable = record {
  client_fits = omega arith;
  client_utf8 = refl;
  username_fits = omega arith;
  username_utf8 = refl;
  password_fits = omega arith;
  password_utf8 = refl;
  topic_fits = omega arith;
  message_fits = omega arith;
}

connect-len : Connect.len connect (some login) (some will) ≡ 26
unfolding Connect.len
connect-len = refl

decode-encode_example :
    (encode connect_packet [] ≡ (ok tt, (encode connect_packet []).1))
    × (decode ((encode connect_packet []).1 ++ 0xc0 ∷ [])
        ≡ (ok (some (arrived connect_packet)), 0xc0 ∷ []))
decode-encode_example =
    decode-encode connect_packet (0xc0 ∷ []) (connect-IsWritable, omega (arith, connect-len))

-- A subscribe that announces more than it has, and a stream that is no frame.
abbrev broken : Bytes
broken = 0x82 ∷ 3 ∷ 0 ∷ 1 ∷ 9 ∷ 5 ∷ []

decode-Returns_example : Returns (decode broken).0
decode-Returns_example = decode-Returns broken

decode-progress_example :
    (front : Bytes) × (front ++ (decode broken).1 ≡ broken)
    × (((front ≡ []) × (e : Error) × (check broken 1000000 ≡ err e) × ((decode broken).0 ≡ err e))
        ⊎ ((h : FixedHeader) × (check broken 1000000 ≡ ok h)
            × (len_len : ℕ) × (len : ℕ) × (parse_length (drop 1 broken) ≡ ok (len_len, len))
            × (length front ≡ 1 + len_len + len)
            × (2 ≤ length front)
            × (length front ≤ 1000005)))
decode-progress_example = decode-progress broken

malformed :
    decode (0x30 ∷ 0xff ∷ 0xff ∷ 0xff ∷ 0xff ∷ [])
    ≡ (err malformed_remaining_length, 0x30 ∷ 0xff ∷ 0xff ∷ 0xff ∷ 0xff ∷ [])
unfolding decode check robustmq.Mqtt.Header.parse_fixed_header parse_length
    robustmq.Mqtt.Frames.decode
malformed = refl

decode-disconnect_example :
    decode ((encode (MqttPacket.disconnect (record { reason_code = none }) none) []).1 ++ 5 ∷ [])
    ≡ (err invalid_protocol, 5 ∷ [])
decode-disconnect_example = decode-disconnect (record { reason_code = none }) (5 ∷ [])

write-pkid_zero_example : Publish.write unnumbered (9 ∷ []) ≡ (
  err packet_id_zero,
  (9 ∷ Publish.first_byte unnumbered ∷ var_int (length (Publish.body unnumbered)))
      ++ mqtt_bytes (0x61 ∷ []),
)
unfolding mqtt_bytes Publish.pkid_bytes robustmq.Mqtt.Qos.is_at_most_once
write-pkid_zero_example =
    Publish.write-pkid_zero unnumbered (9 ∷ []) (omega arith) (omega arith) refl refl

write_lem_example : Connect.write connect (some login) (some will) (0xc0 ∷ 0 ∷ []) ≡ (
  ok 26,
  set
      ((0xc0 ∷ 0 ∷ []) ++ frame 0x10 (Connect.Image.body_with 2 connect (some login) (some will)))
      9
      (Connect.Image.flags connect (some login) (some will)),
)
unfolding Connect.len len_len Image.clean_flag
write_lem_example =
    Connect.Written.write_lem connect (some login) (some will) (0xc0 ∷ 0 ∷ []) connect-IsWritable
      (omega (arith, connect-len))

check_bounds_example : (2 ≤ 2) × (2 ≤ 5) × (1 ≤ 10) × (frame_length (new 0x40 1 1) ≤ 3)
unfolding check robustmq.Mqtt.Header.parse_fixed_header parse_length new frame_length
check_bounds_example = check_bounds (0x40 ∷ 1 ∷ 5 ∷ []) 10 (new 0x40 1 1) refl

parse_length-write_remaining_length_example :
    (bytes : Bytes) × (write_remaining_length 300 (9 ∷ []) ≡ (ok (len_len 300), (9 ∷ []) ++ bytes))
    × (length bytes ≡ len_len 300)
    × (1 ≤ len_len 300)
    × (len_len 300 ≤ 4)
    × (parse_length (bytes ++ 8 ∷ []) ≡ ok (len_len 300, 300))
parse_length-write_remaining_length_example =
    parse_length-write_remaining_length 300 (9 ∷ []) (8 ∷ []) (omega arith)
