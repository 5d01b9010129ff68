-- ===== src/Mqtt/V4/UnsubAck.antt =====
-- src/protocol/src/mqtt/mqttv4/unsuback.rs.
use robustmq.Prelude.{ℕ, ◌≤◌, ◌≡◌, Bool, true, false, [], ◌∷◌, ◌++◌, arith}
use robustmq.Prelude.{◌==◌, length}
use robustmq.Mqtt.Bytes.{Bytes}
use robustmq.Mqtt.Outcome.{Outcome, ok, Returns, payload_size_incorrect}
use robustmq.Mqtt.Buffer.{Buffered, ◌>>=◌, ◌>>◌, run, guard, pure, Returns->>=}
use robustmq.Mqtt.Reader.{advance, read_u16}
use robustmq.Mqtt.Reader.Total.{advance-Returns, read_u16-Total}
use robustmq.Mqtt.Writer.{put_slice, put_u16}
use robustmq.Mqtt.Types.Packets.{FixedHeader, UnsubAck}
use robustmq.Mqtt.Header.{new}
use robustmq.Mqtt.Header.Check.{frame}
use robustmq.Mqtt.Wire.{u16, header, read_u16-image, advance-frame, append-frame, var_int_two}

unfoldable pub write : UnsubAck → Buffered ℕ
write p = do put_slice (0xb0 ∷ 0x02 ∷ []); put_u16 p.pkid; pure 4

unfoldable pub read : FixedHeader → Bytes → Outcome UnsubAck
read h = run do
  guard (h.remaining_len == 2) payload_size_incorrect
  advance h.fixed_header_len
  pkid ← read_u16
  pure (record { pkid = pkid; reasons = [] })

pub write-frame :
    (p : UnsubAck) (buffer : Bytes) → write p buffer ≡ (ok 4, buffer ++ frame 0xb0 (u16 p.pkid))
unfolding write put_slice put_u16
write-frame p buffer = ground (arith, var_int_two, append-frame 0xb0 buffer (u16 p.pkid))

pub read-frame :
    (pkid : ℕ)
    → read (header 0xb0 (u16 pkid)) (frame 0xb0 (u16 pkid))
      ≡ ok (record { pkid = pkid; reasons = [] })
unfolding read new
read-frame pkid = ground (arith, advance-frame 0xb0 (u16 pkid), read_u16-image pkid [])

guarded-Returns :
    (b : Bool) (h : FixedHeader) (bytes : Bytes)
    → h.fixed_header_len ≤ length bytes
    → Returns (
        run
          (guard b payload_size_incorrect >> (do
            advance h.fixed_header_len
            pkid ← read_u16
            pure {A = UnsubAck} (record { pkid = pkid; reasons = [] })))
          bytes)
guarded-Returns true h bytes k =
    Returns->>= (advance _) _ bytes (advance-Returns _ bytes k)
      λ _ bs. Returns->>= read_u16 _ bs (read_u16-Total bs) λ _ _. tt
guarded-Returns false h bytes k = tt

pub read-Returns :
    (h : FixedHeader) (bytes : Bytes) → h.fixed_header_len ≤ length bytes → Returns (read h bytes)
unfolding read
read-Returns h bytes k = guarded-Returns _ h bytes k
