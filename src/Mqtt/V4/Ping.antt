-- ===== src/Mqtt/V4/Ping.antt =====
-- src/protocol/src/mqtt/mqttv4/ping.rs.
use robustmq.Prelude.{ℕ, ◌≡◌, [], ◌∷◌, ◌++◌, arith}
use robustmq.Mqtt.Bytes.{Bytes}
use robustmq.Mqtt.Outcome.{ok}
use robustmq.Mqtt.Buffer.{Buffered, ◌>>◌, pure}
use robustmq.Mqtt.Writer.{put_slice}
use robustmq.Mqtt.Header.Check.{frame}
use robustmq.Mqtt.Wire.{var_int_zero}

-- `pingreq::write` and `pingresp::write`.
unfoldable pub write_pingreq : Buffered ℕ
write_pingreq = do put_slice (0xc0 ∷ 0x00 ∷ []); pure 2

unfoldable pub write_pingresp : Buffered ℕ
write_pingresp = do put_slice (0xd0 ∷ 0x00 ∷ []); pure 2

frame_empty : (b : ℕ) → frame b [] ≡ b ∷ 0 ∷ []
unfolding frame
frame_empty b = ground (arith, var_int_zero)

pub write_pingreq-frame : (buffer : Bytes) → write_pingreq buffer ≡ (ok 2, buffer ++ frame 0xc0 [])
unfolding write_pingreq put_slice
write_pingreq-frame buffer = ground (arith, frame_empty 0xc0)

pub write_pingresp-frame :
    (buffer : Bytes) → write_pingresp buffer ≡ (ok 2, buffer ++ frame 0xd0 [])
unfolding write_pingresp put_slice
write_pingresp-frame buffer = ground (arith, frame_empty 0xd0)
