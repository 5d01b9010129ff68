-- ===== src/Mqtt/V4/Codec/Safety.antt =====
-- `decode` of src/protocol/src/mqtt/mqttv4/codec.rs on arbitrary bytes from the network.
use robustmq.Prelude.{ℕ, ◌+◌, ◌≤◌, ◌≡◌, refl, ap, ◌∙◌, ◌⊎◌, inl, inr, [], ◌++◌, arith}
use robustmq.Prelude.{length, take, drop, length-take_le, take-append-drop}
use robustmq.Mqtt.Bytes.{Bytes}
use robustmq.Mqtt.Outcome.{Error, ok, err, Returns, Returns-cases}
use robustmq.Mqtt.Types.Codes.{PacketType}
use robustmq.Mqtt.Types.Packets.{FixedHeader}
use robustmq.Mqtt.Header.{frame_length, check, parse_length}
use robustmq.Mqtt.Header.Check.{check-Returns, check_bounds, check-announced}
use robustmq.Mqtt.V4.Connect
use robustmq.Mqtt.V4.ConnAck
use robustmq.Mqtt.V4.Publish
use robustmq.Mqtt.V4.PubAck
use robustmq.Mqtt.V4.PubRec
use robustmq.Mqtt.V4.PubRel
use robustmq.Mqtt.V4.PubComp
use robustmq.Mqtt.V4.Subscribe
use robustmq.Mqtt.V4.SubAck
use robustmq.Mqtt.V4.Unsubscribe
use robustmq.Mqtt.V4.UnsubAck
use robustmq.Mqtt.Frames.{map_ok-Returns}
use robustmq.Mqtt.Frames
use robustmq.Mqtt.V4.Codec.{decode, read_packet}

-- No reader panics on a frame as long as its header says.
pub read_packet-Returns :
    (t : PacketType) (h : FixedHeader) (bs : Bytes)
    → frame_length h ≡ length bs
    → Returns (read_packet t h bs)
unfolding read_packet frame_length
read_packet-Returns PacketType.connect h bs e =
    map_ok-Returns _ (Connect.read h bs) (Connect.Total.read-Returns h bs (omega arith))
read_packet-Returns PacketType.unsubscribe h bs e =
    map_ok-Returns _ (Unsubscribe.read h bs) (Unsubscribe.read-Returns h bs e)
read_packet-Returns PacketType.ping_req h bs e = tt
read_packet-Returns PacketType.ping_resp h bs e = tt
read_packet-Returns PacketType.disconnect h bs e = tt
read_packet-Returns PacketType.auth h bs e = tt
read_packet-Returns PacketType.conn_ack h bs e =
    map_ok-Returns _ (ConnAck.read h bs) (ConnAck.read-Returns h bs (omega arith))
read_packet-Returns PacketType.publish h bs e =
    map_ok-Returns _ (Publish.read h bs) (Publish.read-Returns h bs (omega arith))
read_packet-Returns PacketType.pub_ack h bs e =
    map_ok-Returns _ (PubAck.read h bs) (PubAck.read-Returns h bs (omega arith))
read_packet-Returns PacketType.pub_rec h bs e =
    map_ok-Returns _ (PubRec.read h bs) (PubRec.read-Returns h bs (omega arith))
read_packet-Returns PacketType.pub_rel h bs e =
    map_ok-Returns _ (PubRel.read h bs) (PubRel.read-Returns h bs (omega arith))
read_packet-Returns PacketType.pub_comp h bs e =
    map_ok-Returns _ (PubComp.read h bs) (PubComp.read-Returns h bs (omega arith))
read_packet-Returns PacketType.subscribe h bs e =
    map_ok-Returns _ (Subscribe.read h bs) (Subscribe.read-Returns h bs (omega arith))
read_packet-Returns PacketType.sub_ack h bs e =
    map_ok-Returns _ (SubAck.read h bs) (SubAck.read-Returns h bs (omega arith))
read_packet-Returns PacketType.unsub_ack h bs e =
    map_ok-Returns _ (UnsubAck.read h bs) (UnsubAck.read-Returns h bs (omega arith))

-- Whatever bytes arrive, `decode` returns a packet or an error; it never panics.
pub decode-Returns : (stream : Bytes) → Returns (decode stream).0
unfolding decode
decode-Returns stream = Frames.decode-Returns_of read_packet stream read_packet-Returns

-- What `decode` takes from the stream is a front of it. Where `check` fails it is nothing, and the
-- error is that of `check`; otherwise it is the frame that the stream announces, one byte, the bytes
-- of the remaining length and as many as that says, at least 2 bytes and at most 1000005.
pub decode-progress :
    (stream : Bytes)
    → (front : Bytes) × (front ++ (decode stream).1 ≡ stream)
      × (((front ≡ []) × (e : Error) × (check stream 1000000 ≡ err e) × ((decode stream).0 ≡ err e))
          ⊎ ((h : FixedHeader) × (check stream 1000000 ≡ ok h)
              × (len_len : ℕ) × (len : ℕ) × (parse_length (drop 1 stream) ≡ ok (len_len, len))
              × (length front ≡ 1 + len_len + len)
              × (2 ≤ length front)
              × (length front ≤ 1000005)))
unfolding decode
decode-progress stream =
    elim (Returns-cases (check stream 1000000) (check-Returns stream 1000000)) [
      | inl (h, p) ↦
          let b = check_bounds stream 1000000 h p in
          let (len_len, len, announced, whole) = check-announced stream 1000000 h p in
          let taken = length-take_le (frame_length h) stream b.3 in
          (
            take (frame_length h) stream,
            rw (Frames.decode-check_ok read_packet stream h p)
                (take-append-drop (frame_length h) stream),
            inr (
              h,
              p,
              len_len,
              len,
              announced,
              taken ∙ whole,
              unfold frame_length in omega (arith, taken, b),
              unfold frame_length in omega (arith, taken, b),
            ),
          )
      | inr (e, p) ↦ (
        [],
        ap (λ r. r.1) (Frames.decode-check_err read_packet stream e p),
        inl (refl, e, p, ap (λ r. r.0) (Frames.decode-check_err read_packet stream e p)),
      )
    ]
