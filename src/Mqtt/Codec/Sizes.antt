-- ===== src/Mqtt/Codec/Sizes.antt =====
-- `encode_data` and `calc_mqtt_packet_size` of src/protocol/src/mqtt/codec.rs, against the codecs of
-- each version and against one another.
use robustmq.Prelude.{◌≡◌, refl, arith}
use robustmq.Mqtt.Bytes.{Bytes}
use robustmq.Mqtt.Types.{MqttPacket}
use robustmq.Mqtt.V4.Codec as Codec4
use robustmq.Mqtt.V5.Codec as Codec5
use robustmq.Mqtt.Codec.Write.{write_v4, write_v5}
use robustmq.Mqtt.Codec.{encode_data}

write_v5-Codec : (p : MqttPacket) → write_v5 p ≡ Codec5.write_packet p
unfolding write_v5 Codec5.write_packet
write_v5-Codec p = ground arith

write_v4-Codec : (p : MqttPacket) → write_v4 p ≡ Codec4.write_packet p
unfolding write_v4 Codec4.write_packet
write_v4-Codec p = ground arith

-- In the versions 3 and 4 `encode_data` does what `encode` of the codec of MQTT 3.1.1 does to any
-- packet and buffer, and in version 5 what that of MQTT 5 does.
pub encode_data-Codec :
    (p : MqttPacket) (buffer : Bytes)
    → (encode_data (record { protocol_version = 3; packet = p }) buffer ≡ Codec4.encode p buffer)
      × (encode_data (record { protocol_version = 4; packet = p }) buffer ≡ Codec4.encode p buffer)
      × (encode_data (record { protocol_version = 5; packet = p }) buffer ≡ Codec5.encode p buffer)
unfolding encode_data Codec4.encode Codec5.encode
encode_data-Codec p buffer =
    (rw (write_v4-Codec p) refl, rw (write_v4-Codec p) refl, rw (write_v5-Codec p) refl)
