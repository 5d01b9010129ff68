-- ===== src/Mqtt/V4/Codec/RoundTrip.antt =====
-- `decode` of src/protocol/src/mqtt/mqttv4/codec.rs on what `encode` writes.
use robustmq.Prelude.{ℕ, ◌≡◌, refl, ◌∙◌, none, some, [], ◌++◌, arith}
use robustmq.Prelude.{take, drop, drop-append_exact}
use robustmq.Mqtt.Bytes.{Bytes}
use robustmq.Mqtt.Outcome.{ok, err, invalid_protocol}
use robustmq.Mqtt.Types.{MqttPacket}
use robustmq.Mqtt.Types.Codes.{PacketType}
use robustmq.Mqtt.Header.{new, packet_type, packet_type_of, frame_length, check}
use robustmq.Mqtt.Header.Check.{frame, length-frame, check-frame}
use robustmq.Mqtt.Wire.{header, var_int_zero}
use robustmq.Mqtt.V4.Codec.{encode, write_packet, decode, read_packet}
use robustmq.Mqtt.V4.Codec.Sent.{IsWritable, arrived, IsSent, writable-IsSent}
use robustmq.Mqtt.V4.Disconnect
use robustmq.Mqtt.Writer.{put_slice}
use robustmq.Mqtt.Types.Packets.{FixedHeader, Disconnect}
use robustmq.Mqtt.Frames.{map_ok}
use robustmq.Mqtt.Frames

encoded :
    (packet : MqttPacket) (n : ℕ) (buffer f : Bytes)
    → write_packet packet buffer ≡ (ok n, f)
    → encode packet buffer ≡ (ok tt, f)
unfolding encode
encoded packet n buffer f e = rw e refl

encoded-IsSent :
    (packet : MqttPacket) (s : IsSent packet) → encode packet [] ≡ (ok tt, frame s.byte1 s.body)
encoded-IsSent packet s = encoded packet s.size [] (frame s.byte1 s.body) s.written

-- A packet that can be sent is encoded, and decoding what stands in the buffer, whatever follows
-- it, gives the packet as it arrives and leaves what follows.
pub decode-encode :
    (p : MqttPacket) (rest : Bytes)
    → IsWritable p
    → (encode p [] ≡ (ok tt, (encode p []).1))
      × (decode ((encode p []).1 ++ rest) ≡ (ok (some (arrived p)), rest))
unfolding decode
decode-encode p rest w =
    let s = writable-IsSent p w in
    let f = encoded-IsSent p s in
    (
      rw f refl,
      rw f (
          Frames.decode-frame read_packet s.byte1 s.body rest s.type (arrived p) s.fits s.typed
            s.read),
    )

-- What `write` of src/protocol/src/mqtt/mqttv4/disconnect.rs leaves in an empty buffer.
disconnect_bytes :
    (p : Disconnect) → encode (MqttPacket.disconnect p none) [] ≡ (ok tt, frame 0xe0 [])
unfolding encode write_packet Disconnect.write put_slice frame
disconnect_bytes p = rw var_int_zero refl

refused :
    (stream : Bytes) (h : FixedHeader) (t : PacketType)
    → check stream 1000000 ≡ ok h
    → packet_type h ≡ ok t
    → ((bs : Bytes) → read_packet t h bs ≡ err invalid_protocol)
    → decode stream ≡ (err invalid_protocol, drop (frame_length h) stream)
unfolding map_ok decode
refused stream h t c p r =
    Frames.decode-check_ok read_packet stream h c ∙ rw (p, r (take (frame_length h) stream)) refl

-- A disconnect that `encode` has written is refused by `decode` as an invalid protocol, and its
-- frame is gone from the stream.
pub decode-disconnect :
    (p : Disconnect) (rest : Bytes)
    → decode ((encode (MqttPacket.disconnect p none) []).1 ++ rest) ≡ (err invalid_protocol, rest)
unfolding packet_type packet_type_of read_packet new frame_length
decode-disconnect p rest = rw (disconnect_bytes p) (
    refused (frame 0xe0 [] ++ rest) (header 0xe0 []) PacketType.disconnect
      (check-frame 0xe0 [] rest 1000000 (omega arith) (omega arith)) refl (λ bs. refl)
    ∙ rw
        (drop-append_exact (frame_length (header 0xe0 [])) (frame 0xe0 []) rest
          (omega (arith, length-frame 0xe0 [])))
        refl)
