-- ===== src/Mqtt/V5/PubRel.antt =====
-- src/protocol/src/mqtt/mqttv5/pubrel.rs.
use robustmq.Prelude.{ℕ, ◌≤◌, ◌≡◌, refl, Bool, true, false, Option, arith}
use robustmq.Prelude.{◌==◌, if◌then◌else◌, length}
use robustmq.Mqtt.Bytes.{Bytes}
use robustmq.Mqtt.Outcome.{
  Outcome, ok, err, Returns, invalid_connect_return_code, invalid_packet_type,
}
use robustmq.Mqtt.Buffer.{Buffered}
use robustmq.Mqtt.Types.Codes.{PubRelReason}
use robustmq.Mqtt.Types.Packets.{FixedHeader, PubRel}
use robustmq.Mqtt.Types.Properties.{PubRelProperties}
use robustmq.Mqtt.V5.Properties.{read_properties}
use robustmq.Mqtt.V5.Properties.Codec.{Codec}
use robustmq.Mqtt.V5.ReasonProperties
use robustmq.Mqtt.V5.Ack

unfoldable pub reason : ℕ → Outcome PubRelReason
reason num =
    if num == 0
    then ok PubRelReason.success
    else if num == 146
    then ok PubRelReason.packet_identifier_not_found
    else err (invalid_connect_return_code num)

unfoldable pub code : PubRelReason → ℕ
code PubRelReason.success = 0
code PubRelReason.packet_identifier_not_found = 146

unfoldable pub is_success : PubRelReason → Bool
is_success PubRelReason.success = true
is_success _ = false

abbrev pub properties : ReasonProperties.Shape PubRelProperties
properties = record {
  make = λ reason_string user_properties. record {
    reason_string = reason_string;
    user_properties = user_properties;
  };
  reason_string = λ p. p.reason_string;
  user_properties = λ p. p.user_properties;
  unknown = invalid_packet_type;
}

unfoldable pub properties_len : PubRelProperties → ℕ
properties_len = ReasonProperties.len properties

unfoldable pub properties_write : PubRelProperties → Buffered (Unit {0})
properties_write = ReasonProperties.write properties

unfoldable pub properties_read : Buffered (Option PubRelProperties)
properties_read =
    read_properties (ReasonProperties.arms properties) (ReasonProperties.empty properties)

unfoldable pub shape : Ack.Shape PubRel PubRelReason PubRelProperties
unfolding reason code is_success properties_len properties_write properties_read
shape = record {
  byte1 = 0x62;
  make = λ pkid reason. record { pkid = pkid; reason = reason };
  pkid = λ p. p.pkid;
  reason = λ p. p.reason;
  success = PubRelReason.success;
  is_success = is_success;
  code = code;
  reason_of = reason;
  properties_len = properties_len;
  properties_write = properties_write;
  properties_read = properties_read;
}

unfoldable pub len : PubRel → Option PubRelProperties → Outcome ℕ
unfolding shape
len = Ack.len shape

unfoldable pub write : PubRel → Option PubRelProperties → Buffered ℕ
unfolding shape
write = Ack.write shape

unfoldable pub read : FixedHeader → Bytes → Outcome (PubRel × Option PubRelProperties)
unfolding shape
read = Ack.read shape

abbrev pub codec : Codec PubRelProperties
codec = ReasonProperties.Laws.codec properties record {
  reason_string-make = λ _ _. refl;
  user_properties-make = λ _ _. refl;
  make-fields = λ _. refl;
}

reason-code : (r : PubRelReason) → reason (code r) ≡ ok r
unfolding reason code
reason-code r = ground arith

is_success_sound : (r : PubRelReason) → is_success r ≡ true → r ≡ PubRelReason.success
unfolding is_success
is_success_sound r e = ground (arith, e)

reason-Returns : (n : ℕ) → Returns (reason n)
unfolding reason
reason-Returns n = ground arith

pub shape-IsAck : Ack.Laws.IsAck shape codec
unfolding shape properties_len properties_write properties_read ReasonProperties.len
shape-IsAck = record {
  make-fields = λ _. refl;
  reason_of-code = reason-code;
  is_success_sound = is_success_sound;
  reason_of-Returns = reason-Returns;
  same_len = refl;
  same_write = refl;
  same_read = refl;
}

pub read-Returns :
    (h : FixedHeader) (bytes : Bytes) → h.fixed_header_len ≤ length bytes → Returns (read h bytes)
unfolding read
read-Returns = Ack.Laws.read-Returns shape codec shape-IsAck
