-- ===== src/Mqtt/V5/SubAck.antt =====
-- src/protocol/src/mqtt/mqttv5/suback.rs.
use robustmq.Prelude.{ℕ, ◌≤◌, ◌≡◌, refl, Option, arith}
use robustmq.Prelude.{◌==◌, if◌then◌else◌, length}
use robustmq.Mqtt.Bytes.{Bytes}
use robustmq.Mqtt.Outcome.{
  Outcome, ok, err, Returns, invalid_subscribe_reason_code, invalid_property_type,
}
use robustmq.Mqtt.Buffer.{Buffered}
use robustmq.Mqtt.Types.Codes.{SubscribeReasonCode, at_most_once, at_least_once, exactly_once}
use robustmq.Mqtt.Types.Packets.{FixedHeader, SubAck}
use robustmq.Mqtt.Types.Properties.{SubAckProperties}
use robustmq.Mqtt.Qos.{to_u8}
use robustmq.Mqtt.V5.Properties.{read_properties}
use robustmq.Mqtt.V5.Properties.Codec.{Codec}
use robustmq.Mqtt.V5.ReasonProperties
use robustmq.Mqtt.V5.ReasonList

unfoldable pub reason : ℕ → Outcome SubscribeReasonCode
reason num =
    if num == 0
    then ok SubscribeReasonCode.qos_0
    else if num == 1
    then ok SubscribeReasonCode.qos_1
    else if num == 2
    then ok SubscribeReasonCode.qos_2
    else if num == 128
    then ok SubscribeReasonCode.unspecified
    else if num == 131
    then ok SubscribeReasonCode.implementation_specific
    else if num == 135
    then ok SubscribeReasonCode.not_authorized
    else if num == 143
    then ok SubscribeReasonCode.topic_filter_invalid
    else if num == 145
    then ok SubscribeReasonCode.pkid_in_use
    else if num == 151
    then ok SubscribeReasonCode.quota_exceeded
    else if num == 158
    then ok SubscribeReasonCode.shared_subscriptions_not_supported
    else if num == 161
    then ok SubscribeReasonCode.subscription_id_not_supported
    else if num == 162
    then ok SubscribeReasonCode.wildcard_subscriptions_not_supported
    else err (invalid_subscribe_reason_code num)

unfoldable pub code : SubscribeReasonCode → ℕ
unfolding to_u8
code (SubscribeReasonCode.success q) = to_u8 q
code SubscribeReasonCode.failure = 128
code SubscribeReasonCode.qos_0 = 0
code SubscribeReasonCode.qos_1 = 1
code SubscribeReasonCode.qos_2 = 2
code SubscribeReasonCode.unspecified = 128
code SubscribeReasonCode.implementation_specific = 131
code SubscribeReasonCode.not_authorized = 135
code SubscribeReasonCode.topic_filter_invalid = 143
code SubscribeReasonCode.pkid_in_use = 145
code SubscribeReasonCode.quota_exceeded = 151
code SubscribeReasonCode.shared_subscriptions_not_supported = 158
code SubscribeReasonCode.subscription_id_not_supported = 161
code SubscribeReasonCode.wildcard_subscriptions_not_supported = 162
code SubscribeReasonCode.exclusive_subscription_disabled = 143
code SubscribeReasonCode.topic_subscribed = 151

-- The reason that is read back: a success is a quality of service, a failure is unspecified, and
-- two codes have two reasons each.
unfoldable pub normal : SubscribeReasonCode → SubscribeReasonCode
normal (SubscribeReasonCode.success at_most_once) = SubscribeReasonCode.qos_0
normal (SubscribeReasonCode.success at_least_once) = SubscribeReasonCode.qos_1
normal (SubscribeReasonCode.success exactly_once) = SubscribeReasonCode.qos_2
normal SubscribeReasonCode.failure = SubscribeReasonCode.unspecified
normal SubscribeReasonCode.exclusive_subscription_disabled =
    SubscribeReasonCode.topic_filter_invalid
normal SubscribeReasonCode.topic_subscribed = SubscribeReasonCode.quota_exceeded
normal c = c

abbrev pub properties : ReasonProperties.Shape SubAckProperties
properties = record {
  make = λ reason_string user_properties. record {
    reason_string = reason_string;
    user_properties = user_properties;
  };
  reason_string = λ p. p.reason_string;
  user_properties = λ p. p.user_properties;
  unknown = invalid_property_type;
}

unfoldable pub properties_len : SubAckProperties → ℕ
properties_len = ReasonProperties.len properties

unfoldable pub properties_write : SubAckProperties → Buffered (Unit {0})
properties_write = ReasonProperties.write properties

unfoldable pub properties_read : Buffered (Option SubAckProperties)
properties_read =
    read_properties (ReasonProperties.arms properties) (ReasonProperties.empty properties)

unfoldable pub shape : ReasonList.Shape SubAck SubscribeReasonCode SubAckProperties
unfolding reason code properties_len properties_write properties_read
shape = record {
  byte1 = 0x90;
  make = λ pkid reasons. record { pkid = pkid; return_codes = reasons };
  pkid = λ p. p.pkid;
  reasons = λ p. p.return_codes;
  code = code;
  reason_of = reason;
  properties_len = properties_len;
  properties_write = properties_write;
  properties_read = properties_read;
}

unfoldable pub len : SubAck → Option SubAckProperties → ℕ
unfolding shape
len = ReasonList.len shape

unfoldable pub write : SubAck → Option SubAckProperties → Buffered ℕ
unfolding shape
write = ReasonList.write shape

unfoldable pub read : FixedHeader → Bytes → Outcome (SubAck × Option SubAckProperties)
unfolding shape
read = ReasonList.read shape

abbrev pub codec : Codec SubAckProperties
codec = ReasonProperties.Laws.codec properties record {
  reason_string-make = λ _ _. refl;
  user_properties-make = λ _ _. refl;
  make-fields = λ _. refl;
}

reason-code : (r : SubscribeReasonCode) → reason (code r) ≡ ok (normal r)
unfolding reason code normal
reason-code r = ground arith

reason-Returns : (n : ℕ) → Returns (reason n)
unfolding reason
reason-Returns n = ground arith

pub shape-IsReasonList : ReasonList.Laws.IsReasonList shape codec normal
unfolding shape properties_len properties_write properties_read ReasonProperties.len
shape-IsReasonList = record {
  reason_of-code = reason-code;
  reason_of-Returns = reason-Returns;
  same_len = refl;
  same_write = refl;
  same_read = refl;
}

pub read-Returns :
    (h : FixedHeader) (bytes : Bytes) → h.fixed_header_len ≤ length bytes → Returns (read h bytes)
unfolding read
read-Returns = ReasonList.Laws.read-Returns shape codec normal shape-IsReasonList
