-- ===== src/Mqtt/V5/PubComp.antt =====
-- src/protocol/src/mqtt/mqttv5/pubcomp.rs.
use robustmq.Prelude.{ℕ, ◌≤◌, ◌≡◌, refl, Bool, true, false, Option, arith}
use robustmq.Prelude.{◌==◌, if◌then◌else◌, length}
use robustmq.Mqtt.Bytes.{Bytes}
use robustmq.Mqtt.Outcome.{
  Outcome, ok, err, Returns, invalid_connect_return_code, invalid_property_type,
}
use robustmq.Mqtt.Buffer.{Buffered}
use robustmq.Mqtt.Types.Codes.{PubCompReason}
use robustmq.Mqtt.Types.Packets.{FixedHeader, PubComp}
use robustmq.Mqtt.Types.Properties.{PubCompProperties}
use robustmq.Mqtt.V5.Properties.{read_properties}
use robustmq.Mqtt.V5.Properties.Codec.{Codec}
use robustmq.Mqtt.V5.ReasonProperties
use robustmq.Mqtt.V5.Ack

unfoldable pub reason : ℕ → Outcome PubCompReason
reason num =
    if num == 0
    then ok PubCompReason.success
    else if num == 146
    then ok PubCompReason.packet_identifier_not_found
    else err (invalid_connect_return_code num)

unfoldable pub code : PubCompReason → ℕ
code PubCompReason.success = 0
code PubCompReason.packet_identifier_not_found = 146

unfoldable pub is_success : PubCompReason → Bool
is_success PubCompReason.success = true
is_success _ = false

abbrev pub properties : ReasonProperties.Shape PubCompProperties
properties = record {
  make = λ reason_string user_properties. record {
    reason_string = reason_string;
    user_properties = user_properties;
  };
  reason_string = λ p. p.reason_string;
  user_properties = λ p. p.user_properties;
  unknown = invalid_property_type;
}

unfoldable pub properties_len : PubCompProperties → ℕ
properties_len = ReasonProperties.len properties

unfoldable pub properties_write : PubCompProperties → Buffered (Unit {0})
properties_write = ReasonProperties.write properties

unfoldable pub properties_read : Buffered (Option PubCompProperties)
properties_read =
    read_properties (ReasonProperties.arms properties) (ReasonProperties.empty properties)

unfoldable pub shape : Ack.Shape PubComp PubCompReason PubCompProperties
unfolding reason code is_success properties_len properties_write properties_read
shape = record {
  byte1 = 0x70;
  make = λ pkid reason. record { pkid = pkid; reason = reason };
  pkid = λ p. p.pkid;
  reason = λ p. p.reason;
  success = PubCompReason.success;
  is_success = is_success;
  code = code;
  reason_of = reason;
  properties_len = properties_len;
  properties_write = properties_write;
  properties_read = properties_read;
}

unfoldable pub len : PubComp → Option PubCompProperties → Outcome ℕ
unfolding shape
len = Ack.len shape

unfoldable pub write : PubComp → Option PubCompProperties → Buffered ℕ
unfolding shape
write = Ack.write shape

unfoldable pub read : FixedHeader → Bytes → Outcome (PubComp × Option PubCompProperties)
unfolding shape
read = Ack.read shape

abbrev pub codec : Codec PubCompProperties
codec = ReasonProperties.Laws.codec properties record {
  reason_string-make = λ _ _. refl;
  user_properties-make = λ _ _. refl;
  make-fields = λ _. refl;
}

reason-code : (r : PubCompReason) → reason (code r) ≡ ok r
unfolding reason code
reason-code r = ground arith

is_success_sound : (r : PubCompReason) → is_success r ≡ true → r ≡ PubCompReason.success
unfolding is_success
is_success_sound r e = ground (arith, e)

reason-Returns : (n : ℕ) → Returns (reason n)
unfolding reason
reason-Returns n = ground arith

pub shape-IsAck : Ack.Laws.IsAck shape codec
unfolding shape properties_len properties_write properties_read ReasonProperties.len
shape-IsAck = record {
  make-fields = λ _. refl;
  reason_of-code = reason-code;
  is_success_sound = is_success_sound;
  reason_of-Returns = reason-Returns;
  same_len = refl;
  same_write = refl;
  same_read = refl;
}

pub read-Returns :
    (h : FixedHeader) (bytes : Bytes) → h.fixed_header_len ≤ length bytes → Returns (read h bytes)
unfolding read
read-Returns = Ack.Laws.read-Returns shape codec shape-IsAck
