-- ===== src/Mqtt/Frames.antt =====
-- The part of `decode` that the codecs of src/protocol/src/mqtt share: a frame is cut from the stream,
-- and its body is read by its packet type.
use robustmq.Prelude.{ℕ, ◌/◌, ◌≤◌, ◌≡◌, refl, sym, inl, inr, Option, some, ◌++◌, arith}
use robustmq.Prelude.{
  leb, if◌then◌else◌, length, length-append, take, drop, length-take_le, take-append_exact,
  drop-append_exact,
}
use robustmq.Mqtt.Bytes.{Bytes}
use robustmq.Mqtt.Outcome
use robustmq.Mqtt.Outcome.{
  Error, Outcome, ok, err, panic, Returns, is_ok, is_err, is_panic, Outcome-cases, Returns-cases,
}
use robustmq.Mqtt.Buffer.{Buffered, ◌>>=◌, lift, pure}
use robustmq.Mqtt.Types.{MqttPacket}
use robustmq.Mqtt.Types.Codes.{PacketType}
use robustmq.Mqtt.Types.Packets.{FixedHeader}
use robustmq.Mqtt.Header.{check, new, frame_length, packet_type, packet_type_of}
use robustmq.Mqtt.Header.Check.{frame, length-frame, check-frame, check-Returns, check_bounds}
use robustmq.Mqtt.Wire.{header}

-- `stream.split_to(n)` panics past the end.
unfoldable pub split_to : ℕ → Buffered Bytes
split_to n stream =
    if leb n (length stream) then (ok (take n stream), drop n stream) else (panic, stream)

unfoldable pub map_ok : {A B : Type 0} → (A → B) → Outcome A → Outcome B
map_ok f r = Outcome.◌>>=◌ r λ a. ok (f a)

abbrev pub max_size : ℕ
max_size = 1000000

pub map_ok-Returns : {A B : Type 0} (f : A → B) (r : Outcome A) → Returns r → Returns (map_ok f r)
unfolding map_ok
map_ok-Returns f (ok a) h = tt
map_ok-Returns f (err e) h = tt
map_ok-Returns f panic h = h

pub packet_type-Returns : (h : FixedHeader) → Returns (packet_type h)
unfolding packet_type packet_type_of
packet_type-Returns h = ground arith

pub split_to-whole :
    (n : ℕ) (stream : Bytes)
    → n ≤ length stream
    → split_to n stream ≡ (ok (take n stream), drop n stream)
unfolding split_to
split_to-whole n stream h = ground arith

split_to-frame :
    (b n : ℕ) (body rest : Bytes)
    → length (frame b body) ≡ n
    → split_to n (frame b body ++ rest) ≡ (ok (frame b body), rest)
unfolding split_to
split_to-frame b n body rest e = ground (
  arith,
  length-append (frame b body) rest,
  take-append_exact n (frame b body) rest e,
  drop-append_exact n (frame b body) rest e,
)

module _ (read_packet : PacketType → FixedHeader → Bytes → Outcome MqttPacket) where
  -- The frame leaves the stream before its type and body are read.
  unfoldable pub decode : Buffered (Option MqttPacket)
  unfolding split_to
  decode stream =
      (do
        fixed_header ← lift (check stream max_size)
        packet ← split_to (frame_length fixed_header)
        packet_type ← lift (packet_type fixed_header)
        packet ← lift (read_packet packet_type fixed_header packet)
        pure (some packet))
        stream

  -- When `check` accepts the header, the frame leaves the stream, whatever is in it.
  pub decode-check_ok :
      (stream : Bytes) (h : FixedHeader)
      → check stream 1000000 ≡ ok h
      → decode stream ≡ (
        Outcome.◌>>=◌
            (packet_type h)
            λ t. map_ok some (read_packet t h (take (frame_length h) stream)),
        drop (frame_length h) stream,
      )
  unfolding decode map_ok
  decode-check_ok stream h e =
      rw (e, split_to-whole (frame_length h) stream (check_bounds stream 1000000 h e).3)
        (elim (Outcome-cases (packet_type h)) [
          | is_ok t p ↦
              rw p (elim (Outcome-cases (read_packet t h (take (frame_length h) stream))) [
                | is_ok a q ↦ rw q refl
                | is_err x q ↦ rw q refl
                | is_panic q ↦ rw q refl
              ])
          | is_err x p ↦ rw p refl
          | is_panic p ↦ rw p refl
        ])

  pub decode-check_err :
      (stream : Bytes) (e : Error) → check stream 1000000 ≡ err e → decode stream ≡ (err e, stream)
  unfolding decode
  decode-check_err stream n e = rw e refl

  -- Where every reader returns on a frame as long as its header says, `decode` returns.
  pub decode-Returns_of :
      (stream : Bytes)
      → ((t : PacketType) (h : FixedHeader) (bs : Bytes)
          → frame_length h ≡ length bs
          → Returns (read_packet t h bs))
      → Returns (decode stream).0
  decode-Returns_of stream r =
      elim (Returns-cases (check stream 1000000) (check-Returns stream 1000000)) [
        | inl (h, p) ↦ rw (decode-check_ok stream h p) (
            Outcome.Returns->>= (packet_type h) _ (packet_type-Returns h) λ t.
              map_ok-Returns some _ (
                r t h (take (frame_length h) stream) (
                  sym
                    (length-take_le (frame_length h) stream (check_bounds stream 1000000 h p).3))))
        | inr (e, p) ↦ rw (decode-check_err stream e p) tt
      ]

  -- One frame at the front of the stream.
  pub decode-frame :
      (b : ℕ) (body rest : Bytes) (t : PacketType) (p : MqttPacket)
      → length body ≤ 1000000
      → packet_type_of (b / 16) ≡ ok t
      → read_packet t (header b body) (frame b body) ≡ ok p
      → decode (frame b body ++ rest) ≡ (ok (some p), rest)
  unfolding decode packet_type frame_length new
  decode-frame b body rest t p h e r = ground (
    arith,
    check-frame b body rest 1000000 h,
    split_to-frame b (frame_length (header b body)) body rest,
    length-frame b body,
    e,
    r,
  )
