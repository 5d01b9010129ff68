-- ===== src/Mqtt/V5/Codec/Written.antt =====
-- Every packet that can be sent by src/protocol/src/mqtt/mqttv5/codec.rs is a frame that is read back.
use robustmq.Prelude.{
  ℕ, zero, suc, ◌≤◌, ◌≡◌, refl, ap, sym, ◌∙◌, subst, ◌∷◌, none, some, Option, [], ◌++◌, arith,
}
use robustmq.Prelude.{length}
use robustmq.Mqtt.Outcome.{ok}
use robustmq.Mqtt.Types.{MqttPacket}
use robustmq.Mqtt.Types.Codes.{PacketType, DisconnectReasonCode}
use robustmq.Mqtt.Types.Packets.{PubAck, PubRec, PubRel, PubComp, SubAck, UnsubAck}
use robustmq.Mqtt.Types.Properties.{
  DisconnectProperties, PubAckProperties, PubRecProperties, PubRelProperties, PubCompProperties,
  SubAckProperties, UnsubAckProperties,
}
use robustmq.Mqtt.Header.{packet_type_of}
use robustmq.Mqtt.Header.Check.{frame}
use robustmq.Mqtt.Writer.{put_slice}
use robustmq.Mqtt.Wire.{var_int_zero}
use robustmq.Mqtt.Frames.{map_ok}
use robustmq.Mqtt.V5.Fields.Image.{Emits}
use robustmq.Mqtt.V5.Properties.Codec.{IsFine}
use robustmq.Mqtt.V5.Properties.Image.{when_some}
use robustmq.Mqtt.V5.ConnAck
use robustmq.Mqtt.V5.Unsubscribe
use robustmq.Mqtt.V5.Ping
use robustmq.Mqtt.V5.Ack
use robustmq.Mqtt.V5.ReasonList
use robustmq.Mqtt.V5.Disconnect as Disconnect5
use robustmq.Mqtt.V5.PubAck as PubAck5
use robustmq.Mqtt.V5.PubRec as PubRec5
use robustmq.Mqtt.V5.PubRel as PubRel5
use robustmq.Mqtt.V5.PubComp as PubComp5
use robustmq.Mqtt.V5.SubAck as SubAck5
use robustmq.Mqtt.V5.UnsubAck as UnsubAck5
use robustmq.Mqtt.V5.Codec.{write_packet, read_packet}
use robustmq.Mqtt.V5.Codec.Sent.{
  IsWritable, arrived, arrived_disconnect, IsSent, sent, pub_ack_body, pub_rec_body, pub_rel_body,
  pub_comp_body, sub_ack_body, unsub_ack_body,
}

ping_frame : (b : ℕ) → frame b [] ≡ b ∷ 0 ∷ []
unfolding frame
ping_frame b = rw var_int_zero refl

write_pingreq-Emits : Emits Ping.write_pingreq (frame 0xc0 []) 2
unfolding Ping.write_pingreq put_slice
write_pingreq-Emits buffer = ap (λ s. (ok 2, buffer ++ s)) (sym (ping_frame 0xc0))

write_pingresp-Emits : Emits Ping.write_pingresp (frame 0xd0 []) 2
unfolding Ping.write_pingresp put_slice
write_pingresp-Emits buffer = ap (λ s. (ok 2, buffer ++ s)) (sym (ping_frame 0xd0))

pub_ack-IsSent :
    (p : PubAck) (o : Option PubAckProperties)
    → IsWritable (MqttPacket.pub_ack p o)
    → IsSent (MqttPacket.pub_ack p o)
unfolding write_packet read_packet arrived packet_type_of PubAck5.write PubAck5.read map_ok
    PubAck5.shape
pub_ack-IsSent p o (r, e, v, h) =
    sent _ 0x40 (pub_ack_body p r o) PacketType.pub_ack
      (Ack.Laws.write-Emits PubAck5.shape PubAck5.codec PubAck5.shape-IsAck p r o e v
        (omega (arith, h)))
      h refl
      (ap (map_ok (λ (p, o). MqttPacket.pub_ack p o))
        (Ack.Laws.read-frame PubAck5.shape PubAck5.codec PubAck5.shape-IsAck p r o e v))

pub_rec-IsSent :
    (p : PubRec) (o : Option PubRecProperties)
    → IsWritable (MqttPacket.pub_rec p o)
    → IsSent (MqttPacket.pub_rec p o)
unfolding write_packet read_packet arrived packet_type_of PubRec5.write PubRec5.read map_ok
    PubRec5.shape
pub_rec-IsSent p o (r, e, v, h) =
    sent _ 0x50 (pub_rec_body p r o) PacketType.pub_rec
      (Ack.Laws.write-Emits PubRec5.shape PubRec5.codec PubRec5.shape-IsAck p r o e v
        (omega (arith, h)))
      h refl
      (ap (map_ok (λ (p, o). MqttPacket.pub_rec p o))
        (Ack.Laws.read-frame PubRec5.shape PubRec5.codec PubRec5.shape-IsAck p r o e v))

pub_rel-IsSent :
    (p : PubRel) (o : Option PubRelProperties)
    → IsWritable (MqttPacket.pub_rel p o)
    → IsSent (MqttPacket.pub_rel p o)
unfolding write_packet read_packet arrived packet_type_of PubRel5.write PubRel5.read map_ok
    PubRel5.shape
pub_rel-IsSent p o (r, e, v, h) =
    sent _ 0x62 (pub_rel_body p r o) PacketType.pub_rel
      (Ack.Laws.write-Emits PubRel5.shape PubRel5.codec PubRel5.shape-IsAck p r o e v
        (omega (arith, h)))
      h refl
      (ap (map_ok (λ (p, o). MqttPacket.pub_rel p o))
        (Ack.Laws.read-frame PubRel5.shape PubRel5.codec PubRel5.shape-IsAck p r o e v))

pub_comp-IsSent :
    (p : PubComp) (o : Option PubCompProperties)
    → IsWritable (MqttPacket.pub_comp p o)
    → IsSent (MqttPacket.pub_comp p o)
unfolding write_packet read_packet arrived packet_type_of PubComp5.write PubComp5.read map_ok
    PubComp5.shape
pub_comp-IsSent p o (r, e, v, h) =
    sent _ 0x70 (pub_comp_body p r o) PacketType.pub_comp
      (Ack.Laws.write-Emits PubComp5.shape PubComp5.codec PubComp5.shape-IsAck p r o e v
        (omega (arith, h)))
      h refl
      (ap (map_ok (λ (p, o). MqttPacket.pub_comp p o))
        (Ack.Laws.read-frame PubComp5.shape PubComp5.codec PubComp5.shape-IsAck p r o e v))

sub_ack-IsSent :
    (p : SubAck) (o : Option SubAckProperties)
    → IsWritable (MqttPacket.sub_ack p o)
    → IsSent (MqttPacket.sub_ack p o)
unfolding write_packet read_packet arrived packet_type_of SubAck5.write SubAck5.read map_ok
    SubAck5.shape
sub_ack-IsSent p o (n, v, h) =
    sent _ 0x90 (sub_ack_body p o) PacketType.sub_ack
      (ReasonList.Laws.write-Emits SubAck5.shape SubAck5.codec SubAck5.normal
        SubAck5.shape-IsReasonList p o v (omega (arith, h)))
      h refl
      (ap (map_ok (λ (p, o). MqttPacket.sub_ack p o)) (
        ReasonList.Laws.read-frame SubAck5.shape SubAck5.codec SubAck5.normal
          SubAck5.shape-IsReasonList p o n v))

unsub_ack-IsSent :
    (p : UnsubAck) (o : Option UnsubAckProperties)
    → IsWritable (MqttPacket.unsub_ack p o)
    → IsSent (MqttPacket.unsub_ack p o)
unfolding write_packet read_packet arrived packet_type_of UnsubAck5.write UnsubAck5.read map_ok
    UnsubAck5.shape
unsub_ack-IsSent p o (n, v, h) =
    sent _ 0xb0 (unsub_ack_body p o) PacketType.unsub_ack
      (ReasonList.Laws.write-Emits UnsubAck5.shape UnsubAck5.codec UnsubAck5.normal
        UnsubAck5.shape-IsReasonList p o v (omega (arith, h)))
      h refl
      (ap (map_ok (λ (p, o). MqttPacket.unsub_ack p o)) (
        ReasonList.Laws.read-frame UnsubAck5.shape UnsubAck5.codec UnsubAck5.normal
          UnsubAck5.shape-IsReasonList p o n v))

-- By the length of the properties: 0, or more.
disconnect-IsSent :
    (r : DisconnectReasonCode) (q : DisconnectProperties) (n : ℕ)
    → Disconnect5.Properties.len q ≡ n
    → IsFine Disconnect5.Image.codec (some q)
    → length (Disconnect5.Laws.body r q) ≤ 1000000
    → IsSent (MqttPacket.disconnect (Disconnect5.Laws.disconnect r) (some q))
unfolding write_packet read_packet arrived arrived_disconnect packet_type_of map_ok
disconnect-IsSent r q zero e v h =
    sent 2 0xe0 [] PacketType.disconnect (λ buffer. Disconnect5.Laws.write-empty r q buffer e)
      (omega arith) refl
      (rw e (ap (map_ok (λ (p, o). MqttPacket.disconnect p o)) Disconnect5.Laws.read-frame_empty))
disconnect-IsSent r q (suc n) e v h =
    sent _ 0xe0 (Disconnect5.Laws.body r q) PacketType.disconnect
      (Disconnect5.Laws.write-Emits r q (omega (arith, e)) v (omega (arith, h))) h refl
      (rw e (
        ap (map_ok (λ (p, o). MqttPacket.disconnect p o)) (
          Disconnect5.Laws.read-frame r q v
          ∙ ap (λ m. ok (Disconnect5.Laws.disconnect r, when_some m q)) e)))

-- Every packet that can be sent has a frame, which is read as the packet that arrives.
pub writable-IsSent : (p : MqttPacket) → IsWritable p → IsSent p
unfolding write_packet read_packet arrived packet_type_of map_ok
writable-IsSent (MqttPacket.conn_ack p o) (n, e, v, h) =
    sent _ 0x20 (ConnAck.Laws.body p n o) PacketType.conn_ack
      (ConnAck.Laws.write-Emits p n o e v (omega (arith, h))) h refl
      (ap (map_ok (λ (p, o). MqttPacket.conn_ack p o)) (ConnAck.Laws.read-frame p n o e v))
writable-IsSent (MqttPacket.pub_ack p o) w = pub_ack-IsSent p o w
writable-IsSent (MqttPacket.pub_rec p o) w = pub_rec-IsSent p o w
writable-IsSent (MqttPacket.pub_rel p o) w = pub_rel-IsSent p o w
writable-IsSent (MqttPacket.pub_comp p o) w = pub_comp-IsSent p o w
writable-IsSent (MqttPacket.sub_ack p o) w = sub_ack-IsSent p o w
writable-IsSent (MqttPacket.unsub_ack p o) w = unsub_ack-IsSent p o w
writable-IsSent (MqttPacket.unsubscribe p o) (t, v, h) =
    sent _ 0xa2 (Unsubscribe.Laws.body p o) PacketType.unsubscribe
      (Unsubscribe.Laws.write-Emits p o t v (omega (arith, h))) h refl
      (ap (map_ok (λ (p, o). MqttPacket.unsubscribe p o)) (Unsubscribe.Laws.read-frame p o t v))
writable-IsSent MqttPacket.ping_req w =
    sent 2 0xc0 [] PacketType.ping_req write_pingreq-Emits (omega arith) refl refl
writable-IsSent MqttPacket.ping_resp w =
    sent 2 0xd0 [] PacketType.ping_resp write_pingresp-Emits (omega arith) refl refl
writable-IsSent (MqttPacket.disconnect p none) w =
    subst (λ p. IsSent (MqttPacket.disconnect p none)) (sym w)
      (sent 2 0xe0 [] PacketType.disconnect Disconnect5.Laws.write-normal (omega arith) refl
        (ap (map_ok (λ (p, o). MqttPacket.disconnect p o)) Disconnect5.Laws.read-frame_empty))
writable-IsSent (MqttPacket.disconnect p (some q)) (r, e, v, h) =
    subst (λ p. IsSent (MqttPacket.disconnect p (some q))) (sym e)
      (disconnect-IsSent r q (Disconnect5.Properties.len q) refl v h)
writable-IsSent (MqttPacket.connect level c o w x l) h = absurd h
writable-IsSent (MqttPacket.publish p o) w = absurd w
writable-IsSent (MqttPacket.subscribe p o) w = absurd w
writable-IsSent (MqttPacket.auth p o) w = absurd w
