-- ===== src/Mqtt/V5/Ping.antt =====
-- src/protocol/src/mqtt/mqttv5/ping.rs.
use robustmq.Prelude.{ℕ, [], ◌∷◌}
use robustmq.Mqtt.Buffer.{Buffered, ◌>>◌, pure}
use robustmq.Mqtt.Writer.{put_slice}

-- `pingreq::write` and `pingresp::write`.
unfoldable pub write_pingreq : Buffered ℕ
write_pingreq = do put_slice (0xc0 ∷ 0x00 ∷ []); pure 2

unfoldable pub write_pingresp : Buffered ℕ
write_pingresp = do put_slice (0xd0 ∷ 0x00 ∷ []); pure 2
