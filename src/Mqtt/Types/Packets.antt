-- ===== src/Mqtt/Types/Packets.antt =====
-- The packet structs of src/protocol/src/mqtt/common.rs.
use robustmq.Prelude.{ℕ, Bool, List, Option}
use robustmq.Mqtt.Bytes.{Bytes, Text}
use robustmq.Mqtt.Types.Codes.{
  Qos, RetainForwardRule, ConnectReturnCode, PubAckReason, PubRecReason, PubRelReason,
  PubCompReason, SubscribeReasonCode, UnsubAckReason, DisconnectReasonCode, AuthReason,
}

pub record FixedHeader : Type 0 where
  pub byte1 : ℕ
  pub fixed_header_len : ℕ
  pub remaining_len : ℕ

pub record Connect : Type 0 where
  pub keep_alive : ℕ
  pub client_id : Text
  pub clean_session : Bool

pub record LastWill : Type 0 where
  pub topic : Bytes
  pub message : Bytes
  pub qos : Qos
  pub retain : Bool

pub record Login : Type 0 where
  pub username : Text
  pub password : Text

pub record ConnAck : Type 0 where
  pub session_present : Bool
  pub code : ConnectReturnCode

pub record Publish : Type 0 where
  pub dup : Bool
  pub qos : Qos
  pub pkid : ℕ
  pub retain : Bool
  pub topic : Bytes
  pub payload : Bytes

pub record PubAck : Type 0 where
  pub pkid : ℕ
  pub reason : Option PubAckReason

pub record PubRec : Type 0 where
  pub pkid : ℕ
  pub reason : Option PubRecReason

pub record PubRel : Type 0 where
  pub pkid : ℕ
  pub reason : Option PubRelReason

pub record PubComp : Type 0 where
  pub pkid : ℕ
  pub reason : Option PubCompReason

pub record Filter : Type 0 where
  pub path : Text
  pub qos : Qos
  pub nolocal : Bool
  pub preserve_retain : Bool
  pub retain_forward_rule : RetainForwardRule

pub record Subscribe : Type 0 where
  pub packet_identifier : ℕ
  pub filters : List Filter

pub record SubAck : Type 0 where
  pub pkid : ℕ
  pub return_codes : List SubscribeReasonCode

pub record Unsubscribe : Type 0 where
  pub pkid : ℕ
  pub filters : List Text

pub record UnsubAck : Type 0 where
  pub pkid : ℕ
  pub reasons : List UnsubAckReason

pub record Disconnect : Type 0 where
  pub reason_code : Option DisconnectReasonCode

pub record Auth : Type 0 where
  pub reason : Option AuthReason
