-- ===== src/Mqtt/V4/Codec/Append.antt =====
-- `encode` of src/protocol/src/mqtt/mqttv4/codec.rs on a buffer that already holds bytes.
use robustmq.Mqtt.Bytes.{Bytes}
use robustmq.Mqtt.Types.{MqttPacket}
use robustmq.Mqtt.V4.ConnAck
use robustmq.Mqtt.V4.Publish
use robustmq.Mqtt.V4.PubAck
use robustmq.Mqtt.V4.PubRec
use robustmq.Mqtt.V4.PubRel
use robustmq.Mqtt.V4.PubComp
use robustmq.Mqtt.V4.Subscribe
use robustmq.Mqtt.V4.SubAck
use robustmq.Mqtt.V4.Unsubscribe
use robustmq.Mqtt.V4.UnsubAck
use robustmq.Mqtt.V4.Ping

abbrev pub NotConnect : MqttPacket → Type 0
NotConnect (MqttPacket.connect level c x w y l) = ⊥
NotConnect p = Unit
