-- ===== src/Mqtt/V5/Codec.antt =====
-- `Mqtt5Codec`: src/protocol/src/mqtt/mqttv5/codec.rs. The codec keeps no state.
pub mod Safety
pub mod Sent
pub mod Written
pub mod RoundTrip
use robustmq.Prelude.{ℕ, Option, none, some}
use robustmq.Mqtt.Bytes.{Bytes}
use robustmq.Mqtt.Outcome.{Outcome, ok}
use robustmq.Mqtt.Buffer.{Buffered, ◌>>=◌, pure}
use robustmq.Mqtt.Types.{MqttPacket}
use robustmq.Mqtt.Types.Codes.{PacketType}
use robustmq.Mqtt.Types.Packets.{FixedHeader}
use robustmq.Mqtt.Frames.{map_ok}
use robustmq.Mqtt.Frames
use robustmq.Mqtt.V5.Connect
use robustmq.Mqtt.V5.ConnAck
use robustmq.Mqtt.V5.Publish
use robustmq.Mqtt.V5.PubAck
use robustmq.Mqtt.V5.PubRec
use robustmq.Mqtt.V5.PubRel
use robustmq.Mqtt.V5.PubComp
use robustmq.Mqtt.V5.Subscribe
use robustmq.Mqtt.V5.SubAck
use robustmq.Mqtt.V5.Unsubscribe
use robustmq.Mqtt.V5.UnsubAck
use robustmq.Mqtt.V5.Ping
use robustmq.Mqtt.V5.Disconnect
use robustmq.Mqtt.V5.Auth

-- The writer of a packet.
unfoldable pub write_packet : MqttPacket → Buffered ℕ
write_packet (MqttPacket.connect _ c o w wo l) = Connect.write c o w wo l
write_packet (MqttPacket.conn_ack p o) = ConnAck.write p o
write_packet (MqttPacket.publish p o) = Publish.write p o
write_packet (MqttPacket.pub_ack p o) = PubAck.write p o
write_packet (MqttPacket.pub_rec p o) = PubRec.write p o
write_packet (MqttPacket.pub_rel p o) = PubRel.write p o
write_packet (MqttPacket.pub_comp p o) = PubComp.write p o
write_packet (MqttPacket.subscribe p o) = Subscribe.write p o
write_packet (MqttPacket.sub_ack p o) = SubAck.write p o
write_packet (MqttPacket.unsubscribe p o) = Unsubscribe.write p o
write_packet (MqttPacket.unsub_ack p o) = UnsubAck.write p o
write_packet MqttPacket.ping_req = Ping.write_pingreq
write_packet MqttPacket.ping_resp = Ping.write_pingresp
write_packet (MqttPacket.disconnect p o) = Disconnect.write p o
write_packet (MqttPacket.auth p o) = Auth.write p o

unfoldable pub encode : MqttPacket → Buffered (Unit {0})
unfolding write_packet
encode packet = write_packet packet >>= λ _. pure tt

connect_packet : Connect.ConnectReadOutcome → MqttPacket
connect_packet o =
    MqttPacket.connect o.protocol_version o.connect o.properties o.last_will o.last_will_properties
      o.login

-- The match on the packet type.
unfoldable pub read_packet : PacketType → FixedHeader → Bytes → Outcome MqttPacket
unfolding map_ok connect_packet
read_packet PacketType.connect h bs = map_ok connect_packet (Connect.read h bs)
read_packet PacketType.conn_ack h bs =
    map_ok (λ (p, o). MqttPacket.conn_ack p o) (ConnAck.read h bs)
read_packet PacketType.publish h bs = map_ok (λ (p, o). MqttPacket.publish p o) (Publish.read h bs)
read_packet PacketType.pub_ack h bs = map_ok (λ (p, o). MqttPacket.pub_ack p o) (PubAck.read h bs)
read_packet PacketType.pub_rec h bs = map_ok (λ (p, o). MqttPacket.pub_rec p o) (PubRec.read h bs)
read_packet PacketType.pub_rel h bs = map_ok (λ (p, o). MqttPacket.pub_rel p o) (PubRel.read h bs)
read_packet PacketType.pub_comp h bs =
    map_ok (λ (p, o). MqttPacket.pub_comp p o) (PubComp.read h bs)
read_packet PacketType.subscribe h bs =
    map_ok (λ (p, o). MqttPacket.subscribe p o) (Subscribe.read h bs)
read_packet PacketType.sub_ack h bs = map_ok (λ (p, o). MqttPacket.sub_ack p o) (SubAck.read h bs)
read_packet PacketType.unsubscribe h bs =
    map_ok (λ (p, o). MqttPacket.unsubscribe p o) (Unsubscribe.read h bs)
read_packet PacketType.unsub_ack h bs =
    map_ok (λ (p, o). MqttPacket.unsub_ack p o) (UnsubAck.read h bs)
read_packet PacketType.ping_req h bs = ok MqttPacket.ping_req
read_packet PacketType.ping_resp h bs = ok MqttPacket.ping_resp
read_packet PacketType.disconnect h bs =
    map_ok (λ (p, o). MqttPacket.disconnect p o) (Disconnect.read h bs)
read_packet PacketType.auth h bs = map_ok (λ (p, o). MqttPacket.auth p o) (Auth.read h bs)

unfoldable pub decode : Buffered (Option MqttPacket)
unfolding read_packet
decode = Frames.decode read_packet
