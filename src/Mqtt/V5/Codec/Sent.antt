-- ===== src/Mqtt/V5/Codec/Sent.antt =====
-- The frames that `encode` of src/protocol/src/mqtt/mqttv5/codec.rs writes.
use robustmq.Prelude.{ℕ, zero, suc, ◌/◌, ◌≤◌, ◌<◌, ◌≡◌, none, some, Option, map}
use robustmq.Prelude.{length, All}
use robustmq.Mqtt.Bytes.{Bytes}
use robustmq.Mqtt.Outcome.{ok}
use robustmq.Mqtt.Types.{MqttPacket}
use robustmq.Mqtt.Types.Codes.{
  PacketType, DisconnectReasonCode, PubAckReason, PubRecReason, PubRelReason, PubCompReason,
}
use robustmq.Mqtt.Types.Packets.{Disconnect, PubAck, PubRec, PubRel, PubComp, SubAck, UnsubAck}
use robustmq.Mqtt.Types.Properties.{
  DisconnectProperties, PubAckProperties, PubRecProperties, PubRelProperties, PubCompProperties,
  SubAckProperties, UnsubAckProperties,
}
use robustmq.Mqtt.Header.{packet_type_of}
use robustmq.Mqtt.Header.Check.{frame}
use robustmq.Mqtt.Wire.{header}
use robustmq.Mqtt.V5.Fields.Image.{Emits, IsText}
use robustmq.Mqtt.V5.Properties.Codec.{back, IsFine}
use robustmq.Mqtt.V5.ConnAck
use robustmq.Mqtt.V5.PubAck as PubAck5
use robustmq.Mqtt.V5.PubRec as PubRec5
use robustmq.Mqtt.V5.PubRel as PubRel5
use robustmq.Mqtt.V5.PubComp as PubComp5
use robustmq.Mqtt.V5.SubAck as SubAck5
use robustmq.Mqtt.V5.Unsubscribe
use robustmq.Mqtt.V5.UnsubAck as UnsubAck5
use robustmq.Mqtt.V5.Disconnect as Disconnect5
use robustmq.Mqtt.V5.Ack
use robustmq.Mqtt.V5.ReasonList
use robustmq.Mqtt.V5.Codec.{write_packet, read_packet}

-- The bodies of the answers.
abbrev pub pub_ack_body : PubAck → PubAckReason → Option PubAckProperties → Bytes
pub_ack_body = Ack.Laws.body PubAck5.shape PubAck5.codec PubAck5.shape-IsAck

abbrev pub pub_rec_body : PubRec → PubRecReason → Option PubRecProperties → Bytes
pub_rec_body = Ack.Laws.body PubRec5.shape PubRec5.codec PubRec5.shape-IsAck

abbrev pub pub_rel_body : PubRel → PubRelReason → Option PubRelProperties → Bytes
pub_rel_body = Ack.Laws.body PubRel5.shape PubRel5.codec PubRel5.shape-IsAck

abbrev pub pub_comp_body : PubComp → PubCompReason → Option PubCompProperties → Bytes
pub_comp_body = Ack.Laws.body PubComp5.shape PubComp5.codec PubComp5.shape-IsAck

abbrev pub sub_ack_body : SubAck → Option SubAckProperties → Bytes
sub_ack_body =
    ReasonList.Laws.body SubAck5.shape SubAck5.codec SubAck5.normal SubAck5.shape-IsReasonList

abbrev pub unsub_ack_body : UnsubAck → Option UnsubAckProperties → Bytes
unsub_ack_body =
    ReasonList.Laws.body UnsubAck5.shape UnsubAck5.codec UnsubAck5.normal
      UnsubAck5.shape-IsReasonList

-- The conditions of the packets that are neither connect, publish, subscribe nor auth: texts are
-- UTF-8, texts and the body fit, the reason is there and has a code, and lists of reasons are not
-- empty. A disconnect without properties is a normal one.
abbrev pub IsWritable : MqttPacket → Type 0
IsWritable (MqttPacket.conn_ack p o) =
    (n : ℕ) × (ConnAck.connect_code p.code ≡ ok n)
    × IsFine ConnAck.Image.codec o
    × (length (ConnAck.Laws.body p n o) ≤ 1000000)
IsWritable (MqttPacket.pub_ack p o) =
    (r : PubAckReason) × (p.reason ≡ some r)
    × IsFine PubAck5.codec o
    × (length (pub_ack_body p r o) ≤ 1000000)
IsWritable (MqttPacket.pub_rec p o) =
    (r : PubRecReason) × (p.reason ≡ some r)
    × IsFine PubRec5.codec o
    × (length (pub_rec_body p r o) ≤ 1000000)
IsWritable (MqttPacket.pub_rel p o) =
    (r : PubRelReason) × (p.reason ≡ some r)
    × IsFine PubRel5.codec o
    × (length (pub_rel_body p r o) ≤ 1000000)
IsWritable (MqttPacket.pub_comp p o) =
    (r : PubCompReason) × (p.reason ≡ some r)
    × IsFine PubComp5.codec o
    × (length (pub_comp_body p r o) ≤ 1000000)
IsWritable (MqttPacket.sub_ack p o) =
    (0 < length p.return_codes) × IsFine SubAck5.codec o × (length (sub_ack_body p o) ≤ 1000000)
IsWritable (MqttPacket.unsub_ack p o) =
    (0 < length p.reasons) × IsFine UnsubAck5.codec o × (length (unsub_ack_body p o) ≤ 1000000)
IsWritable (MqttPacket.unsubscribe p o) =
    All IsText p.filters
    × IsFine Unsubscribe.Image.codec o
    × (length (Unsubscribe.Laws.body p o) ≤ 1000000)
IsWritable MqttPacket.ping_req = Unit
IsWritable MqttPacket.ping_resp = Unit
IsWritable (MqttPacket.disconnect p none) =
    p ≡ Disconnect5.Laws.disconnect DisconnectReasonCode.normal_disconnection
IsWritable (MqttPacket.disconnect p (some q)) =
    (r : DisconnectReasonCode) × (p ≡ Disconnect5.Laws.disconnect r)
    × IsFine Disconnect5.Image.codec (some q)
    × (length (Disconnect5.Laws.body r q) ≤ 1000000)
IsWritable _ = ⊥

-- A disconnect with properties of length 0 arrives as a normal one without properties.
unfoldable pub arrived_disconnect : ℕ → Disconnect → DisconnectProperties → MqttPacket
arrived_disconnect zero p q =
    MqttPacket.disconnect (Disconnect5.Laws.disconnect DisconnectReasonCode.normal_disconnection)
      none
arrived_disconnect (suc n) p q = MqttPacket.disconnect p (some q)

-- What arrives: properties of length 0 are none, and reasons are those that their codes stand for.
unfoldable pub arrived : MqttPacket → MqttPacket
unfolding arrived_disconnect
arrived (MqttPacket.conn_ack p o) = MqttPacket.conn_ack p (back ConnAck.Image.codec o)
arrived (MqttPacket.pub_ack p o) = MqttPacket.pub_ack p (back PubAck5.codec o)
arrived (MqttPacket.pub_rec p o) = MqttPacket.pub_rec p (back PubRec5.codec o)
arrived (MqttPacket.pub_rel p o) = MqttPacket.pub_rel p (back PubRel5.codec o)
arrived (MqttPacket.pub_comp p o) = MqttPacket.pub_comp p (back PubComp5.codec o)
arrived (MqttPacket.sub_ack p o) =
    MqttPacket.sub_ack (record p { return_codes = map SubAck5.normal p.return_codes })
      (back SubAck5.codec o)
arrived (MqttPacket.unsub_ack p o) =
    MqttPacket.unsub_ack (record p { reasons = map UnsubAck5.normal p.reasons })
      (back UnsubAck5.codec o)
arrived (MqttPacket.unsubscribe p o) = MqttPacket.unsubscribe p (back Unsubscribe.Image.codec o)
arrived (MqttPacket.disconnect p (some q)) = arrived_disconnect (Disconnect5.Properties.len q) p q
arrived p = p

-- The frame of a packet, and what `read_packet` makes of it.
pub record IsSent (packet : MqttPacket) : Type 0 where
  pub size : ℕ
  pub byte1 : ℕ
  pub body : Bytes
  pub type : PacketType
  pub written : Emits (write_packet packet) (frame byte1 body) size
  pub fits : length body ≤ 1000000
  pub typed : packet_type_of (byte1 / 16) ≡ ok type
  pub read : read_packet type (header byte1 body) (frame byte1 body) ≡ ok (arrived packet)

pub sent :
    {packet : MqttPacket} (size byte1 : ℕ) (body : Bytes) (type : PacketType)
    → Emits (write_packet packet) (frame byte1 body) size
    → length body ≤ 1000000
    → packet_type_of (byte1 / 16) ≡ ok type
    → read_packet type (header byte1 body) (frame byte1 body) ≡ ok (arrived packet)
    → IsSent packet
sent n b body t w h e r = record {
  size = n;
  byte1 = b;
  body = body;
  type = t;
  written = w;
  fits = h;
  typed = e;
  read = r;
}
