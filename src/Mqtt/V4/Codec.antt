-- ===== src/Mqtt/V4/Codec.antt =====
-- `Mqtt4Codec`: src/protocol/src/mqtt/mqttv4/codec.rs. The codec keeps no state.
pub mod Safety
pub mod Sent
pub mod RoundTrip
pub mod Append
pub mod Tests
use robustmq.Prelude.{ℕ, Option, none, some}
use robustmq.Prelude.{leb, if◌then◌else◌, length, take, drop}
use robustmq.Mqtt.Bytes.{Bytes}
use robustmq.Mqtt.Outcome.{Outcome, ok, err, panic, invalid_protocol}
use robustmq.Mqtt.Outcome
use robustmq.Mqtt.Buffer.{Buffered, ◌>>=◌, lift, pure}
use robustmq.Mqtt.Types.{MqttPacket}
use robustmq.Mqtt.Types.Codes.{PacketType}
use robustmq.Mqtt.Types.Packets.{FixedHeader, Connect, Login, LastWill}
use robustmq.Mqtt.Header.{check, frame_length, packet_type}
use robustmq.Mqtt.Frames.{map_ok}
use robustmq.Mqtt.Frames
use robustmq.Mqtt.V4.Connect
use robustmq.Mqtt.V4.ConnAck
use robustmq.Mqtt.V4.Publish
use robustmq.Mqtt.V4.PubAck
use robustmq.Mqtt.V4.PubRec
use robustmq.Mqtt.V4.PubRel
use robustmq.Mqtt.V4.PubComp
use robustmq.Mqtt.V4.Subscribe
use robustmq.Mqtt.V4.SubAck
use robustmq.Mqtt.V4.Unsubscribe
use robustmq.Mqtt.V4.UnsubAck
use robustmq.Mqtt.V4.Ping
use robustmq.Mqtt.V4.Disconnect

-- The writer of a packet; packets with properties are `unreachable!()`.
unfoldable pub write_packet : MqttPacket → Buffered ℕ
write_packet (MqttPacket.connect _ c none w none l) = Connect.write c l w
write_packet (MqttPacket.conn_ack p _) = ConnAck.write p
write_packet (MqttPacket.publish p none) = Publish.write p
write_packet (MqttPacket.pub_ack p none) = PubAck.write p
write_packet (MqttPacket.pub_rec p none) = PubRec.write p
write_packet (MqttPacket.pub_rel p none) = PubRel.write p
write_packet (MqttPacket.pub_comp p none) = PubComp.write p
write_packet (MqttPacket.subscribe p none) = Subscribe.write p
write_packet (MqttPacket.sub_ack p none) = SubAck.write p
write_packet (MqttPacket.unsubscribe p none) = Unsubscribe.write p
write_packet (MqttPacket.unsub_ack p none) = UnsubAck.write p
write_packet MqttPacket.ping_req = Ping.write_pingreq
write_packet MqttPacket.ping_resp = Ping.write_pingresp
write_packet (MqttPacket.disconnect p none) = Disconnect.write p
write_packet _ = lift panic

unfoldable pub encode : MqttPacket → Buffered (Unit {0})
unfolding write_packet
encode packet = write_packet packet >>= λ _. pure tt

connect_packet : ℕ × Connect × Option Login × Option LastWill → MqttPacket
connect_packet (level, c, l, w) = MqttPacket.connect level c none w none l

-- The match on the packet type.
unfoldable pub read_packet : PacketType → FixedHeader → Bytes → Outcome MqttPacket
unfolding map_ok connect_packet
read_packet PacketType.connect h bs = map_ok connect_packet (Connect.read h bs)
read_packet PacketType.conn_ack h bs = map_ok (λ p. MqttPacket.conn_ack p none) (ConnAck.read h bs)
read_packet PacketType.publish h bs = map_ok (λ p. MqttPacket.publish p none) (Publish.read h bs)
read_packet PacketType.pub_ack h bs = map_ok (λ p. MqttPacket.pub_ack p none) (PubAck.read h bs)
read_packet PacketType.pub_rec h bs = map_ok (λ p. MqttPacket.pub_rec p none) (PubRec.read h bs)
read_packet PacketType.pub_rel h bs = map_ok (λ p. MqttPacket.pub_rel p none) (PubRel.read h bs)
read_packet PacketType.pub_comp h bs = map_ok (λ p. MqttPacket.pub_comp p none) (PubComp.read h bs)
read_packet PacketType.subscribe h bs =
    map_ok (λ p. MqttPacket.subscribe p none) (Subscribe.read h bs)
read_packet PacketType.sub_ack h bs = map_ok (λ p. MqttPacket.sub_ack p none) (SubAck.read h bs)
read_packet PacketType.unsubscribe h bs =
    map_ok (λ p. MqttPacket.unsubscribe p none) (Unsubscribe.read h bs)
read_packet PacketType.unsub_ack h bs =
    map_ok (λ p. MqttPacket.unsub_ack p none) (UnsubAck.read h bs)
read_packet PacketType.ping_req h bs = ok MqttPacket.ping_req
read_packet PacketType.ping_resp h bs = ok MqttPacket.ping_resp
read_packet PacketType.disconnect h bs = err invalid_protocol
read_packet PacketType.auth h bs = err invalid_protocol

unfoldable pub decode : Buffered (Option MqttPacket)
unfolding read_packet
decode = Frames.decode read_packet
