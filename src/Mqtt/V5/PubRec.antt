-- ===== src/Mqtt/V5/PubRec.antt =====
-- src/protocol/src/mqtt/mqttv5/pubrec.rs.
use robustmq.Prelude.{ℕ, ◌≤◌, ◌≡◌, refl, Bool, true, false, Option, arith}
use robustmq.Prelude.{◌==◌, if◌then◌else◌, length}
use robustmq.Mqtt.Bytes.{Bytes}
use robustmq.Mqtt.Outcome.{
  Outcome, ok, err, Returns, invalid_connect_return_code, invalid_packet_type,
}
use robustmq.Mqtt.Buffer.{Buffered}
use robustmq.Mqtt.Types.Codes.{PubRecReason}
use robustmq.Mqtt.Types.Packets.{FixedHeader, PubRec}
use robustmq.Mqtt.Types.Properties.{PubRecProperties}
use robustmq.Mqtt.V5.Properties.{read_properties}
use robustmq.Mqtt.V5.Properties.Codec.{Codec}
use robustmq.Mqtt.V5.ReasonProperties
use robustmq.Mqtt.V5.Ack

unfoldable pub reason : ℕ → Outcome PubRecReason
reason num =
    if num == 0
    then ok PubRecReason.success
    else if num == 16
    then ok PubRecReason.no_matching_subscribers
    else if num == 128
    then ok PubRecReason.unspecified_error
    else if num == 131
    then ok PubRecReason.implementation_specific_error
    else if num == 135
    then ok PubRecReason.not_authorized
    else if num == 144
    then ok PubRecReason.topic_name_invalid
    else if num == 145
    then ok PubRecReason.packet_identifier_in_use
    else if num == 151
    then ok PubRecReason.quota_exceeded
    else if num == 153
    then ok PubRecReason.payload_format_invalid
    else err (invalid_connect_return_code num)

unfoldable pub code : PubRecReason → ℕ
code PubRecReason.success = 0
code PubRecReason.no_matching_subscribers = 16
code PubRecReason.unspecified_error = 128
code PubRecReason.implementation_specific_error = 131
code PubRecReason.not_authorized = 135
code PubRecReason.topic_name_invalid = 144
code PubRecReason.packet_identifier_in_use = 145
code PubRecReason.quota_exceeded = 151
code PubRecReason.payload_format_invalid = 153

unfoldable pub is_success : PubRecReason → Bool
is_success PubRecReason.success = true
is_success _ = false

abbrev pub properties : ReasonProperties.Shape PubRecProperties
properties = record {
  make = λ reason_string user_properties. record {
    reason_string = reason_string;
    user_properties = user_properties;
  };
  reason_string = λ p. p.reason_string;
  user_properties = λ p. p.user_properties;
  unknown = invalid_packet_type;
}

unfoldable pub properties_len : PubRecProperties → ℕ
properties_len = ReasonProperties.len properties

unfoldable pub properties_write : PubRecProperties → Buffered (Unit {0})
properties_write = ReasonProperties.write properties

unfoldable pub properties_read : Buffered (Option PubRecProperties)
properties_read =
    read_properties (ReasonProperties.arms properties) (ReasonProperties.empty properties)

unfoldable pub shape : Ack.Shape PubRec PubRecReason PubRecProperties
unfolding reason code is_success properties_len properties_write properties_read
shape = record {
  byte1 = 0x50;
  make = λ pkid reason. record { pkid = pkid; reason = reason };
  pkid = λ p. p.pkid;
  reason = λ p. p.reason;
  success = PubRecReason.success;
  is_success = is_success;
  code = code;
  reason_of = reason;
  properties_len = properties_len;
  properties_write = properties_write;
  properties_read = properties_read;
}

unfoldable pub len : PubRec → Option PubRecProperties → Outcome ℕ
unfolding shape
len = Ack.len shape

unfoldable pub write : PubRec → Option PubRecProperties → Buffered ℕ
unfolding shape
write = Ack.write shape

unfoldable pub read : FixedHeader → Bytes → Outcome (PubRec × Option PubRecProperties)
unfolding shape
read = Ack.read shape

abbrev pub codec : Codec PubRecProperties
codec = ReasonProperties.Laws.codec properties record {
  reason_string-make = λ _ _. refl;
  user_properties-make = λ _ _. refl;
  make-fields = λ _. refl;
}

reason-code : (r : PubRecReason) → reason (code r) ≡ ok r
unfolding reason code
reason-code r = ground arith

is_success_sound : (r : PubRecReason) → is_success r ≡ true → r ≡ PubRecReason.success
unfolding is_success
is_success_sound r e = ground (arith, e)

reason-Returns : (n : ℕ) → Returns (reason n)
unfolding reason
reason-Returns n = ground arith

pub shape-IsAck : Ack.Laws.IsAck shape codec
unfolding shape properties_len properties_write properties_read ReasonProperties.len
shape-IsAck = record {
  make-fields = λ _. refl;
  reason_of-code = reason-code;
  is_success_sound = is_success_sound;
  reason_of-Returns = reason-Returns;
  same_len = refl;
  same_write = refl;
  same_read = refl;
}

pub read-Returns :
    (h : FixedHeader) (bytes : Bytes) → h.fixed_header_len ≤ length bytes → Returns (read h bytes)
unfolding read
read-Returns = Ack.Laws.read-Returns shape codec shape-IsAck
