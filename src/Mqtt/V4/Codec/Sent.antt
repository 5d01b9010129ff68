-- ===== src/Mqtt/V4/Codec/Sent.antt =====
-- The frames that `encode` of src/protocol/src/mqtt/mqttv4/codec.rs writes.
use robustmq.Prelude.{ℕ, ◌/◌, ◌≤◌, ◌<◌, ◌≡◌, refl, true, none, some, [], map, arith}
use robustmq.Prelude.{length, All}
use robustmq.Mqtt.Bytes.{Bytes}
use robustmq.Mqtt.Outcome.{ok}
use robustmq.Mqtt.Types.{MqttPacket}
use robustmq.Mqtt.Types.Codes.{PacketType, PubAckReason, PubRecReason, PubRelReason, PubCompReason}
use robustmq.Mqtt.Header.{packet_type_of}
use robustmq.Mqtt.Header.Check.{frame}
use robustmq.Mqtt.Wire.{u16, header}
use robustmq.Mqtt.V4.Connect
use robustmq.Mqtt.V4.ConnAck
use robustmq.Mqtt.V4.Publish
use robustmq.Mqtt.V4.PubAck
use robustmq.Mqtt.V4.PubRec
use robustmq.Mqtt.V4.PubRel
use robustmq.Mqtt.V4.PubComp
use robustmq.Mqtt.V4.Subscribe
use robustmq.Mqtt.V4.SubAck
use robustmq.Mqtt.V4.Unsubscribe
use robustmq.Mqtt.V4.UnsubAck
use robustmq.Mqtt.V4.Ping
use robustmq.Mqtt.V4.Codec.{write_packet, read_packet}

-- What can be sent: a packet without MQTT 5 properties, whose texts are UTF-8 and whose fields
-- and body fit, with a reason code of MQTT 3.1.1. A disconnect is not among them: `decode`
-- refuses its type.
abbrev pub IsWritable : MqttPacket → Type 0
IsWritable (MqttPacket.connect _ c none w none l) =
    Connect.Image.IsWritable c l w × (Connect.len c l w ≤ 1000000)
IsWritable (MqttPacket.conn_ack p none) = (n : ℕ) × (ConnAck.connect_code p.code ≡ ok n)
IsWritable (MqttPacket.publish p none) = Publish.IsWritable p × (length (Publish.body p) ≤ 1000000)
IsWritable (MqttPacket.pub_ack p none) = Unit
IsWritable (MqttPacket.pub_rec p none) = Unit
IsWritable (MqttPacket.pub_rel p none) = Unit
IsWritable (MqttPacket.pub_comp p none) = Unit
IsWritable (MqttPacket.subscribe p none) =
    All Subscribe.IsPath p.filters × (0 < length p.filters) × (length (Subscribe.body p) ≤ 1000000)
IsWritable (MqttPacket.sub_ack p none) =
    (SubAck.all_v4 p.return_codes ≡ true)
    × (0 < length p.return_codes)
    × (length (SubAck.body p) ≤ 1000000)
IsWritable (MqttPacket.unsubscribe p none) =
    All Unsubscribe.IsTopic p.filters × (length (Unsubscribe.body p) ≤ 1000000)
IsWritable (MqttPacket.unsub_ack p none) = Unit
IsWritable MqttPacket.ping_req = Unit
IsWritable MqttPacket.ping_resp = Unit
IsWritable _ = ⊥

-- What arrives: the protocol level is 4, an empty login is none, a will has the retain flag of
-- the password, reasons are those of MQTT 3.1.1, and filters have no options.
unfoldable pub arrived : MqttPacket → MqttPacket
arrived (MqttPacket.connect level c none w none l) =
    MqttPacket.connect 4 c none (Connect.RoundTrip.will_back l w) none
      (Connect.login_of (Connect.Image.username l) (Connect.Image.password l))
arrived (MqttPacket.pub_ack p none) =
    MqttPacket.pub_ack (record p { reason = some PubAckReason.success }) none
arrived (MqttPacket.pub_rec p none) =
    MqttPacket.pub_rec (record p { reason = some PubRecReason.success }) none
arrived (MqttPacket.pub_rel p none) =
    MqttPacket.pub_rel (record p { reason = some PubRelReason.success }) none
arrived (MqttPacket.pub_comp p none) =
    MqttPacket.pub_comp (record p { reason = some PubCompReason.success }) none
arrived (MqttPacket.subscribe p none) =
    MqttPacket.subscribe (record p { filters = Subscribe.v4_filters p.filters }) none
arrived (MqttPacket.sub_ack p none) =
    MqttPacket.sub_ack (record p { return_codes = map SubAck.normal p.return_codes }) none
arrived (MqttPacket.unsub_ack p none) = MqttPacket.unsub_ack (record p { reasons = [] }) none
arrived p = p

-- The frame of a packet in an empty buffer, and what `read_packet` makes of it.
pub record IsSent (packet : MqttPacket) : Type 0 where
  pub size : ℕ
  pub byte1 : ℕ
  pub body : Bytes
  pub type : PacketType
  pub written : write_packet packet [] ≡ (ok size, frame byte1 body)
  pub fits : length body ≤ 1000000
  pub typed : packet_type_of (byte1 / 16) ≡ ok type
  pub read : read_packet type (header byte1 body) (frame byte1 body) ≡ ok (arrived packet)

sent :
    {packet : MqttPacket} (size byte1 : ℕ) (body : Bytes) (type : PacketType)
    → write_packet packet [] ≡ (ok size, frame byte1 body)
    → length body ≤ 1000000
    → packet_type_of (byte1 / 16) ≡ ok type
    → read_packet type (header byte1 body) (frame byte1 body) ≡ ok (arrived packet)
    → IsSent packet
sent n b body t w h e r = record {
  size = n;
  byte1 = b;
  body = body;
  type = t;
  written = w;
  fits = h;
  typed = e;
  read = r;
}

-- Every packet that can be sent has a frame, which is read as the packet that arrives.
pub writable-IsSent : (p : MqttPacket) → IsWritable p → IsSent p
unfolding write_packet read_packet arrived packet_type_of
writable-IsSent (MqttPacket.connect level c none w none l) h =
    sent (Connect.len c l w) 0x10 (Connect.Image.body c l w) PacketType.connect
      (Connect.Written.write-frame c l w h.0 (omega (arith, h.1)))
      (omega (arith, h.1, Connect.Written.length-body c l w)) refl
      (rw (Connect.RoundTrip.read-frame c l w h.0) refl)
writable-IsSent (MqttPacket.conn_ack p none) w =
    sent 4 0x20 _ PacketType.conn_ack (ConnAck.write-frame p w.0 [] w.1) (omega arith) refl
      (rw (ConnAck.read-frame p w.0 w.1) refl)
writable-IsSent (MqttPacket.publish p none) w =
    sent _ (Publish.first_byte p) (Publish.body p) PacketType.publish
      (Publish.write-frame p [] w.0 (omega (arith, w.1))) w.1 (rw (Publish.packet_type_bits p) refl)
      (rw (Publish.read-frame p w.0) refl)
writable-IsSent (MqttPacket.pub_ack p none) w =
    sent 4 0x40 (u16 p.pkid) PacketType.pub_ack (PubAck.write-frame p []) (omega arith) refl
      (rw (PubAck.read-frame p.pkid) refl)
writable-IsSent (MqttPacket.pub_rec p none) w =
    sent 4 0x50 (u16 p.pkid) PacketType.pub_rec (PubRec.write-frame p []) (omega arith) refl
      (rw (PubRec.read-frame p.pkid) refl)
writable-IsSent (MqttPacket.pub_rel p none) w =
    sent 4 0x62 (u16 p.pkid) PacketType.pub_rel (PubRel.write-frame p []) (omega arith) refl
      (rw (PubRel.read-frame p.pkid) refl)
writable-IsSent (MqttPacket.pub_comp p none) w =
    sent 4 0x70 (u16 p.pkid) PacketType.pub_comp (PubComp.write-frame p []) (omega arith) refl
      (rw (PubComp.read-frame p.pkid) refl)
writable-IsSent (MqttPacket.unsub_ack p none) w =
    sent 4 0xb0 (u16 p.pkid) PacketType.unsub_ack (UnsubAck.write-frame p []) (omega arith) refl
      (rw (UnsubAck.read-frame p.pkid) refl)
writable-IsSent (MqttPacket.subscribe p none) w =
    sent _ 0x82 (Subscribe.body p) PacketType.subscribe
      (Subscribe.write-frame p [] w.0 (omega (arith, w.2))) w.2 refl
      (rw (Subscribe.read-frame p w.0 w.1) refl)
writable-IsSent (MqttPacket.sub_ack p none) w =
    sent _ 0x90 (SubAck.body p) PacketType.sub_ack (SubAck.write-frame p [] (omega (arith, w.2)))
      w.2 refl (rw (SubAck.read-frame p w.0 w.1) refl)
writable-IsSent (MqttPacket.unsubscribe p none) w =
    sent _ 0xa2 (Unsubscribe.body p) PacketType.unsubscribe
      (Unsubscribe.write-frame p [] w.0 (omega (arith, w.1))) w.1 refl
      (rw (Unsubscribe.read-frame p w.0) refl)
writable-IsSent MqttPacket.ping_req w =
    sent 2 0xc0 [] PacketType.ping_req (Ping.write_pingreq-frame []) (omega arith) refl refl
writable-IsSent MqttPacket.ping_resp w =
    sent 2 0xd0 [] PacketType.ping_resp (Ping.write_pingresp-frame []) (omega arith) refl refl
writable-IsSent (MqttPacket.connect level c (some x) w o l) h = absurd h
writable-IsSent (MqttPacket.connect level c none w (some x) l) h = absurd h
writable-IsSent (MqttPacket.conn_ack p (some x)) w = absurd w
writable-IsSent (MqttPacket.publish p (some x)) w = absurd w
writable-IsSent (MqttPacket.pub_ack p (some x)) w = absurd w
writable-IsSent (MqttPacket.pub_rec p (some x)) w = absurd w
writable-IsSent (MqttPacket.pub_rel p (some x)) w = absurd w
writable-IsSent (MqttPacket.pub_comp p (some x)) w = absurd w
writable-IsSent (MqttPacket.subscribe p (some x)) w = absurd w
writable-IsSent (MqttPacket.sub_ack p (some x)) w = absurd w
writable-IsSent (MqttPacket.unsubscribe p (some x)) w = absurd w
writable-IsSent (MqttPacket.unsub_ack p (some x)) w = absurd w
writable-IsSent (MqttPacket.disconnect p x) w = absurd w
writable-IsSent (MqttPacket.auth p x) w = absurd w
