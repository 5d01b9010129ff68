-- ===== src/Mqtt/V5/UnsubAck.antt =====
-- src/protocol/src/mqtt/mqttv5/unsuback.rs.
use robustmq.Prelude.{ℕ, ◌≤◌, ◌≡◌, refl, Option, arith}
use robustmq.Prelude.{◌==◌, if◌then◌else◌, length}
use robustmq.Mqtt.Bytes.{Bytes}
use robustmq.Mqtt.Outcome.{
  Outcome, ok, err, Returns, invalid_subscribe_reason_code, invalid_packet_type,
}
use robustmq.Mqtt.Buffer.{Buffered}
use robustmq.Mqtt.Types.Codes.{UnsubAckReason}
use robustmq.Mqtt.Types.Packets.{FixedHeader, UnsubAck}
use robustmq.Mqtt.Types.Properties.{UnsubAckProperties}
use robustmq.Mqtt.V5.Properties.{read_properties}
use robustmq.Mqtt.V5.Properties.Codec.{Codec}
use robustmq.Mqtt.V5.ReasonProperties
use robustmq.Mqtt.V5.ReasonList

unfoldable pub reason : ℕ → Outcome UnsubAckReason
reason num =
    if num == 0
    then ok UnsubAckReason.success
    else if num == 17
    then ok UnsubAckReason.no_subscription_existed
    else if num == 128
    then ok UnsubAckReason.unspecified_error
    else if num == 131
    then ok UnsubAckReason.implementation_specific_error
    else if num == 135
    then ok UnsubAckReason.not_authorized
    else if num == 143
    then ok UnsubAckReason.topic_filter_invalid
    else if num == 145
    then ok UnsubAckReason.packet_identifier_in_use
    else err (invalid_subscribe_reason_code num)

unfoldable pub code : UnsubAckReason → ℕ
code UnsubAckReason.success = 0
code UnsubAckReason.no_subscription_existed = 17
code UnsubAckReason.unspecified_error = 128
code UnsubAckReason.implementation_specific_error = 131
code UnsubAckReason.not_authorized = 135
code UnsubAckReason.topic_filter_invalid = 143
code UnsubAckReason.packet_identifier_in_use = 145

-- Each reason has a code of its own.
unfoldable pub normal : UnsubAckReason → UnsubAckReason
normal r = r

abbrev pub properties : ReasonProperties.Shape UnsubAckProperties
properties = record {
  make = λ reason_string user_properties. record {
    reason_string = reason_string;
    user_properties = user_properties;
  };
  reason_string = λ p. p.reason_string;
  user_properties = λ p. p.user_properties;
  unknown = invalid_packet_type;
}

unfoldable pub properties_len : UnsubAckProperties → ℕ
properties_len = ReasonProperties.len properties

unfoldable pub properties_write : UnsubAckProperties → Buffered (Unit {0})
properties_write = ReasonProperties.write properties

unfoldable pub properties_read : Buffered (Option UnsubAckProperties)
properties_read =
    read_properties (ReasonProperties.arms properties) (ReasonProperties.empty properties)

unfoldable pub shape : ReasonList.Shape UnsubAck UnsubAckReason UnsubAckProperties
unfolding reason code properties_len properties_write properties_read
shape = record {
  byte1 = 0xb0;
  make = λ pkid reasons. record { pkid = pkid; reasons = reasons };
  pkid = λ p. p.pkid;
  reasons = λ p. p.reasons;
  code = code;
  reason_of = reason;
  properties_len = properties_len;
  properties_write = properties_write;
  properties_read = properties_read;
}

unfoldable pub len : UnsubAck → Option UnsubAckProperties → ℕ
unfolding shape
len = ReasonList.len shape

unfoldable pub write : UnsubAck → Option UnsubAckProperties → Buffered ℕ
unfolding shape
write = ReasonList.write shape

unfoldable pub read : FixedHeader → Bytes → Outcome (UnsubAck × Option UnsubAckProperties)
unfolding shape
read = ReasonList.read shape

abbrev pub codec : Codec UnsubAckProperties
codec = ReasonProperties.Laws.codec properties record {
  reason_string-make = λ _ _. refl;
  user_properties-make = λ _ _. refl;
  make-fields = λ _. refl;
}

reason-code : (r : UnsubAckReason) → reason (code r) ≡ ok (normal r)
unfolding reason code normal
reason-code r = ground arith

reason-Returns : (n : ℕ) → Returns (reason n)
unfolding reason
reason-Returns n = ground arith

pub shape-IsReasonList : ReasonList.Laws.IsReasonList shape codec normal
unfolding shape properties_len properties_write properties_read ReasonProperties.len
shape-IsReasonList = record {
  reason_of-code = reason-code;
  reason_of-Returns = reason-Returns;
  same_len = refl;
  same_write = refl;
  same_read = refl;
}

pub read-Returns :
    (h : FixedHeader) (bytes : Bytes) → h.fixed_header_len ≤ length bytes → Returns (read h bytes)
unfolding read
read-Returns = ReasonList.Laws.read-Returns shape codec normal shape-IsReasonList
