-- ===== src/Mqtt/Codec/Size.antt =====
-- The matches on the packet in `calc_mqtt_packet_len` of src/protocol/src/mqtt/codec.rs, which has
-- them once more.
use robustmq.Prelude.{ℕ, none}
use robustmq.Mqtt.Outcome.{panic}
use robustmq.Mqtt.Buffer.{Buffered, lift}
use robustmq.Mqtt.Types.{MqttPacket}
use robustmq.Mqtt.V4.Connect as Connect4
use robustmq.Mqtt.V4.ConnAck as ConnAck4
use robustmq.Mqtt.V4.Publish as Publish4
use robustmq.Mqtt.V4.PubAck as PubAck4
use robustmq.Mqtt.V4.PubRec as PubRec4
use robustmq.Mqtt.V4.PubRel as PubRel4
use robustmq.Mqtt.V4.PubComp as PubComp4
use robustmq.Mqtt.V4.Subscribe as Subscribe4
use robustmq.Mqtt.V4.SubAck as SubAck4
use robustmq.Mqtt.V4.Unsubscribe as Unsubscribe4
use robustmq.Mqtt.V4.UnsubAck as UnsubAck4
use robustmq.Mqtt.V4.Ping as Ping4
use robustmq.Mqtt.V4.Disconnect as Disconnect4
use robustmq.Mqtt.V5.Connect as Connect5
use robustmq.Mqtt.V5.ConnAck as ConnAck5
use robustmq.Mqtt.V5.Publish as Publish5
use robustmq.Mqtt.V5.PubAck as PubAck5
use robustmq.Mqtt.V5.PubRec as PubRec5
use robustmq.Mqtt.V5.PubRel as PubRel5
use robustmq.Mqtt.V5.PubComp as PubComp5
use robustmq.Mqtt.V5.Subscribe as Subscribe5
use robustmq.Mqtt.V5.SubAck as SubAck5
use robustmq.Mqtt.V5.Unsubscribe as Unsubscribe5
use robustmq.Mqtt.V5.UnsubAck as UnsubAck5
use robustmq.Mqtt.V5.Ping as Ping5
use robustmq.Mqtt.V5.Disconnect as Disconnect5
use robustmq.Mqtt.V5.Auth as Auth5

-- The match for the versions 3 and 4; the last arm is `unreachable!()`.
unfoldable pub size_v4 : MqttPacket → Buffered ℕ
size_v4 (MqttPacket.connect _ c none w none l) = Connect4.write c l w
size_v4 (MqttPacket.conn_ack p _) = ConnAck4.write p
size_v4 (MqttPacket.publish p none) = Publish4.write p
size_v4 (MqttPacket.pub_ack p none) = PubAck4.write p
size_v4 (MqttPacket.pub_rec p none) = PubRec4.write p
size_v4 (MqttPacket.pub_rel p none) = PubRel4.write p
size_v4 (MqttPacket.pub_comp p none) = PubComp4.write p
size_v4 (MqttPacket.subscribe p none) = Subscribe4.write p
size_v4 (MqttPacket.sub_ack p none) = SubAck4.write p
size_v4 (MqttPacket.unsubscribe p none) = Unsubscribe4.write p
size_v4 (MqttPacket.unsub_ack p none) = UnsubAck4.write p
size_v4 MqttPacket.ping_req = Ping4.write_pingreq
size_v4 MqttPacket.ping_resp = Ping4.write_pingresp
size_v4 (MqttPacket.disconnect p none) = Disconnect4.write p
size_v4 _ = lift panic

-- The match for version 5.
unfoldable pub size_v5 : MqttPacket → Buffered ℕ
size_v5 (MqttPacket.connect _ c o w wo l) = Connect5.write c o w wo l
size_v5 (MqttPacket.conn_ack p o) = ConnAck5.write p o
size_v5 (MqttPacket.publish p o) = Publish5.write p o
size_v5 (MqttPacket.pub_ack p o) = PubAck5.write p o
size_v5 (MqttPacket.pub_rec p o) = PubRec5.write p o
size_v5 (MqttPacket.pub_rel p o) = PubRel5.write p o
size_v5 (MqttPacket.pub_comp p o) = PubComp5.write p o
size_v5 (MqttPacket.subscribe p o) = Subscribe5.write p o
size_v5 (MqttPacket.sub_ack p o) = SubAck5.write p o
size_v5 (MqttPacket.unsubscribe p o) = Unsubscribe5.write p o
size_v5 (MqttPacket.unsub_ack p o) = UnsubAck5.write p o
size_v5 MqttPacket.ping_req = Ping5.write_pingreq
size_v5 MqttPacket.ping_resp = Ping5.write_pingresp
size_v5 (MqttPacket.disconnect p o) = Disconnect5.write p o
size_v5 (MqttPacket.auth p o) = Auth5.write p o
