-- ===== src/Mqtt/Codec/Tests.antt =====
-- Runs of src/protocol/src/mqtt/codec.rs on concrete streams.
use robustmq.Prelude.{◌≡◌, refl, sym, ap, false, some, [], ◌∷◌}
use robustmq.Mqtt.Bytes.{Bytes}
use robustmq.Mqtt.Outcome.{ok, Returns}
use robustmq.Mqtt.Types.{MqttPacket}
use robustmq.Mqtt.Types.Codes.{PacketType}
use robustmq.Mqtt.Types.Packets.{FixedHeader}
use robustmq.Mqtt.Header.{check, frame_length, packet_type}
use robustmq.Mqtt.Frames.{max_size}
use robustmq.Mqtt.V4.Codec as Codec4
use robustmq.Mqtt.V5.Codec as Codec5
use robustmq.Mqtt.Codec.{is_connect, decode_data, encode_data}
use robustmq.Mqtt.Codec.Sizes.{encode_data-Codec}
use robustmq.Mqtt.Codec.Laws.{decode_data-Returns, decode_data-v5}

abbrev ping_packet : MqttPacket
ping_packet = MqttPacket.ping_req

-- A ping request, with a byte behind it.
abbrev ping : Bytes
ping = 0xc0 ∷ 0 ∷ 7 ∷ []

abbrev ping_header : FixedHeader
ping_header = record { byte1 = 0xc0; fixed_header_len = 2; remaining_len = 0 }

check-ping : check ping max_size ≡ ok ping_header
unfolding check robustmq.Mqtt.Header.parse_fixed_header robustmq.Mqtt.Header.parse_length
    robustmq.Mqtt.Header.new frame_length
check-ping = refl

ping_type : (h : FixedHeader) → check ping max_size ≡ ok h → packet_type h ≡ ok PacketType.ping_req
unfolding packet_type robustmq.Mqtt.Header.packet_type_of
ping_type h p = let e : ping_header ≡ h = cc (check-ping, p) in ap packet_type (sym e)

decode_data-Returns_example : Returns (decode_data (some 4) ping).1
decode_data-Returns_example = decode_data-Returns (some 4) ping

ping_type-known :
    (h : FixedHeader) (t : PacketType)
    → check ping max_size ≡ ok h
    → packet_type h ≡ ok t
    → is_connect t ≡ false
unfolding is_connect
ping_type-known h t p q =
    let e : PacketType.ping_req ≡ t = cc (ping_type h p, q) in ap is_connect (sym e)

decode_data-v5_example :
    decode_data (some 5) ping ≡ (some 5, (Codec5.decode ping).0, (Codec5.decode ping).1)
decode_data-v5_example = decode_data-v5 ping ping_type-known

encode_data-Codec_example :
    (encode_data (record { protocol_version = 3; packet = ping_packet }) (7 ∷ [])
      ≡ Codec4.encode ping_packet (7 ∷ []))
    × (encode_data (record { protocol_version = 4; packet = ping_packet }) (7 ∷ [])
        ≡ Codec4.encode ping_packet (7 ∷ []))
    × (encode_data (record { protocol_version = 5; packet = ping_packet }) (7 ∷ [])
        ≡ Codec5.encode ping_packet (7 ∷ []))
encode_data-Codec_example = encode_data-Codec ping_packet (7 ∷ [])
