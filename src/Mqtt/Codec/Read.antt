-- ===== src/Mqtt/Codec/Read.antt =====
-- The matches on the packet type in `decode_data` of src/protocol/src/mqtt/codec.rs.
use robustmq.Prelude.{none}
use robustmq.Mqtt.Bytes.{Bytes}
use robustmq.Mqtt.Outcome.{Outcome, ok, panic}
use robustmq.Mqtt.Types.{MqttPacket}
use robustmq.Mqtt.Types.Codes.{PacketType}
use robustmq.Mqtt.Types.Packets.{FixedHeader}
use robustmq.Mqtt.Frames.{map_ok}
use robustmq.Mqtt.V4.ConnAck as ConnAck4
use robustmq.Mqtt.V4.Publish as Publish4
use robustmq.Mqtt.V4.PubAck as PubAck4
use robustmq.Mqtt.V4.PubRec as PubRec4
use robustmq.Mqtt.V4.PubRel as PubRel4
use robustmq.Mqtt.V4.PubComp as PubComp4
use robustmq.Mqtt.V4.Subscribe as Subscribe4
use robustmq.Mqtt.V4.SubAck as SubAck4
use robustmq.Mqtt.V4.Unsubscribe as Unsubscribe4
use robustmq.Mqtt.V4.UnsubAck as UnsubAck4
use robustmq.Mqtt.V5.ConnAck as ConnAck5
use robustmq.Mqtt.V5.Publish as Publish5
use robustmq.Mqtt.V5.PubAck as PubAck5
use robustmq.Mqtt.V5.PubRec as PubRec5
use robustmq.Mqtt.V5.PubRel as PubRel5
use robustmq.Mqtt.V5.PubComp as PubComp5
use robustmq.Mqtt.V5.Subscribe as Subscribe5
use robustmq.Mqtt.V5.SubAck as SubAck5
use robustmq.Mqtt.V5.Unsubscribe as Unsubscribe5
use robustmq.Mqtt.V5.UnsubAck as UnsubAck5
use robustmq.Mqtt.V5.Disconnect as Disconnect5

-- The match for the versions 3 and 4; the last arm is `unreachable!()`. A disconnect is read by the
-- reader of MQTT 5.
unfoldable pub read_v4 : PacketType → FixedHeader → Bytes → Outcome MqttPacket
unfolding map_ok
read_v4 PacketType.conn_ack h bs = map_ok (λ p. MqttPacket.conn_ack p none) (ConnAck4.read h bs)
read_v4 PacketType.publish h bs = map_ok (λ p. MqttPacket.publish p none) (Publish4.read h bs)
read_v4 PacketType.pub_ack h bs = map_ok (λ p. MqttPacket.pub_ack p none) (PubAck4.read h bs)
read_v4 PacketType.pub_rec h bs = map_ok (λ p. MqttPacket.pub_rec p none) (PubRec4.read h bs)
read_v4 PacketType.pub_rel h bs = map_ok (λ p. MqttPacket.pub_rel p none) (PubRel4.read h bs)
read_v4 PacketType.pub_comp h bs = map_ok (λ p. MqttPacket.pub_comp p none) (PubComp4.read h bs)
read_v4 PacketType.subscribe h bs = map_ok (λ p. MqttPacket.subscribe p none) (Subscribe4.read h bs)
read_v4 PacketType.sub_ack h bs = map_ok (λ p. MqttPacket.sub_ack p none) (SubAck4.read h bs)
read_v4 PacketType.unsubscribe h bs =
    map_ok (λ p. MqttPacket.unsubscribe p none) (Unsubscribe4.read h bs)
read_v4 PacketType.unsub_ack h bs = map_ok (λ p. MqttPacket.unsub_ack p none) (UnsubAck4.read h bs)
read_v4 PacketType.ping_req h bs = ok MqttPacket.ping_req
read_v4 PacketType.ping_resp h bs = ok MqttPacket.ping_resp
read_v4 PacketType.disconnect h bs =
    map_ok (λ (p, o). MqttPacket.disconnect p none) (Disconnect5.read h bs)
read_v4 _ h bs = panic

-- The match for version 5.
unfoldable pub read_v5 : PacketType → FixedHeader → Bytes → Outcome MqttPacket
unfolding map_ok
read_v5 PacketType.conn_ack h bs = map_ok (λ (p, o). MqttPacket.conn_ack p o) (ConnAck5.read h bs)
read_v5 PacketType.publish h bs = map_ok (λ (p, o). MqttPacket.publish p o) (Publish5.read h bs)
read_v5 PacketType.pub_ack h bs = map_ok (λ (p, o). MqttPacket.pub_ack p o) (PubAck5.read h bs)
read_v5 PacketType.pub_rec h bs = map_ok (λ (p, o). MqttPacket.pub_rec p o) (PubRec5.read h bs)
read_v5 PacketType.pub_rel h bs = map_ok (λ (p, o). MqttPacket.pub_rel p o) (PubRel5.read h bs)
read_v5 PacketType.pub_comp h bs = map_ok (λ (p, o). MqttPacket.pub_comp p o) (PubComp5.read h bs)
read_v5 PacketType.subscribe h bs =
    map_ok (λ (p, o). MqttPacket.subscribe p o) (Subscribe5.read h bs)
read_v5 PacketType.sub_ack h bs = map_ok (λ (p, o). MqttPacket.sub_ack p o) (SubAck5.read h bs)
read_v5 PacketType.unsubscribe h bs =
    map_ok (λ (p, o). MqttPacket.unsubscribe p o) (Unsubscribe5.read h bs)
read_v5 PacketType.unsub_ack h bs =
    map_ok (λ (p, o). MqttPacket.unsub_ack p o) (UnsubAck5.read h bs)
read_v5 PacketType.ping_req h bs = ok MqttPacket.ping_req
read_v5 PacketType.ping_resp h bs = ok MqttPacket.ping_resp
read_v5 PacketType.disconnect h bs =
    map_ok (λ (p, o). MqttPacket.disconnect p o) (Disconnect5.read h bs)
read_v5 _ h bs = panic
