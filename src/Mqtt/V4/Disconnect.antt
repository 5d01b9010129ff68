-- ===== src/Mqtt/V4/Disconnect.antt =====
-- src/protocol/src/mqtt/mqttv4/disconnect.rs: written, and never read in MQTT 3.1.1.
use robustmq.Prelude.{ℕ, [], ◌∷◌}
use robustmq.Mqtt.Buffer.{Buffered, ◌>>◌, pure}
use robustmq.Mqtt.Writer.{put_slice}
use robustmq.Mqtt.Types.Packets.{Disconnect}

unfoldable pub write : Disconnect → Buffered ℕ
write p = do put_slice (0xe0 ∷ 0x00 ∷ []); pure 2
