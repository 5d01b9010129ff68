-- ===== src/Mqtt/Types.antt =====
-- `MqttPacket`, the packets with their properties: src/protocol/src/mqtt/common.rs.
pub mod Codes
pub mod Properties
pub mod Packets
use robustmq.Prelude.{ℕ, Option}
use Packets.{
  Connect, LastWill, Login, ConnAck, Publish, PubAck, PubRec, PubRel, PubComp, Subscribe, SubAck,
  Unsubscribe, UnsubAck, Disconnect, Auth,
}
use Properties.{
  ConnectProperties, LastWillProperties, ConnAckProperties, PublishProperties, PubAckProperties,
  PubRecProperties, PubRelProperties, PubCompProperties, SubscribeProperties, SubAckProperties,
  UnsubscribeProperties, UnsubAckProperties, DisconnectProperties, AuthProperties,
}

pub data MqttPacket : Type 0 where
  connect :
      ℕ
      → Connect
      → Option ConnectProperties
      → Option LastWill
      → Option LastWillProperties
      → Option Login
      → MqttPacket
  conn_ack : ConnAck → Option ConnAckProperties → MqttPacket
  publish : Publish → Option PublishProperties → MqttPacket
  pub_ack : PubAck → Option PubAckProperties → MqttPacket
  pub_rec : PubRec → Option PubRecProperties → MqttPacket
  pub_rel : PubRel → Option PubRelProperties → MqttPacket
  pub_comp : PubComp → Option PubCompProperties → MqttPacket
  ping_req : MqttPacket
  ping_resp : MqttPacket
  subscribe : Subscribe → Option SubscribeProperties → MqttPacket
  sub_ack : SubAck → Option SubAckProperties → MqttPacket
  unsubscribe : Unsubscribe → Option UnsubscribeProperties → MqttPacket
  unsub_ack : UnsubAck → Option UnsubAckProperties → MqttPacket
  disconnect : Disconnect → Option DisconnectProperties → MqttPacket
  auth : Auth → Option AuthProperties → MqttPacket
