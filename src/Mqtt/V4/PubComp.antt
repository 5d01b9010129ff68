-- ===== src/Mqtt/V4/PubComp.antt =====
-- src/protocol/src/mqtt/mqttv4/pubcomp.rs.
use robustmq.Prelude.{ℕ, ◌+◌, ◌≤◌, ◌≡◌, some, [], ◌++◌, arith}
use robustmq.Prelude.{◌==◌, if◌then◌else◌, length}
use robustmq.Mqtt.Bytes.{Bytes}
use robustmq.Mqtt.Outcome.{Outcome, ok, Returns, invalid_remaining_length}
use robustmq.Mqtt.Buffer.{Buffered, ◌>>=◌, ◌>>◌, run, pure, fail}
use robustmq.Mqtt.Reader.{advance, read_u16}
use robustmq.Mqtt.Writer.{put_u8, put_u16, write_remaining_length, len_len}
use robustmq.Mqtt.Types.Codes.{PubCompReason}
use robustmq.Mqtt.Types.Packets.{FixedHeader, PubComp}
use robustmq.Mqtt.Header.{new}
use robustmq.Mqtt.Header.Check.{frame}
use robustmq.Mqtt.Wire.{u16, header, read_u16-image, advance-frame}
use robustmq.Mqtt.Reader.Total.{advance-Returns, read_u16-Total}
use robustmq.Mqtt.Buffer.{Returns->>=}
use robustmq.Mqtt.Wire.{write_remaining_length-header, append-frame}

len : ℕ
len = 2

unfoldable pub read : FixedHeader → Bytes → Outcome PubComp
read h = run do
  advance h.fixed_header_len
  pkid ← read_u16
  if h.remaining_len == 2
      then pure (record { pkid = pkid; reason = some PubCompReason.success })
      else fail (invalid_remaining_length h.remaining_len)

unfoldable pub write : PubComp → Buffered ℕ
unfolding len
write p = do put_u8 0x70; count ← write_remaining_length len; put_u16 p.pkid; pure (1 + count + len)

-- `write` appends the frame of the identifier, four bytes.
pub write-frame :
    (p : PubComp) (buffer : Bytes) → write p buffer ≡ (ok 4, buffer ++ frame 0x70 (u16 p.pkid))
unfolding write put_u8 put_u16 len_len
write-frame p buffer =
    ground
      (arith, write_remaining_length-header 0x70 2 buffer, append-frame 0x70 buffer (u16 p.pkid))

pub read-frame :
    (pkid : ℕ)
    → read (header 0x70 (u16 pkid)) (frame 0x70 (u16 pkid))
      ≡ ok (record { pkid = pkid; reason = some PubCompReason.success })
unfolding read new
read-frame pkid = ground (arith, advance-frame 0x70 (u16 pkid), read_u16-image pkid [])

pub read-Returns :
    (h : FixedHeader) (bytes : Bytes) → h.fixed_header_len ≤ length bytes → Returns (read h bytes)
unfolding read
read-Returns h bytes k =
    Returns->>= (advance _) _ bytes (advance-Returns _ bytes k)
      λ _. λ bs. Returns->>= read_u16 _ bs (read_u16-Total bs) λ _ _. ground arith
