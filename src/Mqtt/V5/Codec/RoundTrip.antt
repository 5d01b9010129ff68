-- ===== src/Mqtt/V5/Codec/RoundTrip.antt =====
-- `decode` of src/protocol/src/mqtt/mqttv5/codec.rs on what `encode` writes.
use robustmq.Prelude.{◌≡◌, refl, some, [], ◌++◌}
use robustmq.Mqtt.Bytes.{Bytes}
use robustmq.Mqtt.Outcome.{ok}
use robustmq.Mqtt.Types.{MqttPacket}
use robustmq.Mqtt.Header.Check.{frame}
use robustmq.Mqtt.Frames
use robustmq.Mqtt.V5.Codec.{encode, decode, read_packet}
use robustmq.Mqtt.V5.Codec.Sent.{IsWritable, arrived}
use robustmq.Mqtt.V5.Codec.Written.{writable-IsSent}

-- A connack, puback, pubrec, pubrel, pubcomp, suback, unsubscribe, unsuback, disconnect, pingreq or
-- pingresp that meets IsWritable is encoded behind what the buffer holds, by the same bytes whatever
-- that is, and decoding these bytes, whatever follows them, gives the packet as it arrives and
-- leaves what follows. IsWritable asks for texts that are UTF-8 and fit, a body of at most 1000000
-- bytes, a reason that is there and has a code, and lists of reasons that are not empty; a
-- disconnect without properties is a normal one, and no other kind of packet meets it.
pub decode-encode_v5 :
    (p : MqttPacket) (buffer rest : Bytes)
    → IsWritable p
    → (bytes : Bytes) × (encode p buffer ≡ (ok tt, buffer ++ bytes))
      × (encode p [] ≡ (ok tt, bytes))
      × (decode (bytes ++ rest) ≡ (ok (some (arrived p)), rest))
unfolding encode decode
decode-encode_v5 p buffer rest w =
    let s = writable-IsSent p w in
    (
      frame s.byte1 s.body,
      rw (s.written buffer) refl,
      rw (s.written []) refl,
      Frames.decode-frame read_packet s.byte1 s.body rest s.type (arrived p) s.fits s.typed s.read,
    )
