-- ===== src/Mqtt/V5/Subscribe.antt =====
-- src/protocol/src/mqtt/mqttv5/subscribe.rs.
pub mod Properties
use robustmq.Prelude.{ℕ, ◌+◌, ◌/◌, ◌≤◌, bit_and, bit_or, not, List, [], ◌∷◌, Option, arith}
use robustmq.Prelude.{◌==◌, if◌then◌else◌, length}
use robustmq.Mqtt.Bytes.{Bytes}
use robustmq.Mqtt.Outcome.{
  Outcome, ok, err, Returns, invalid_retain_forward_rule, empty_subscription,
}
use robustmq.Mqtt.Buffer.{Buffered, ◌>>=◌, ◌>>◌, run, pure, lift, fail, Total, Returns->>=}
use robustmq.Mqtt.Reader.{advance, read_u8, read_u16, read_mqtt_string}
use robustmq.Mqtt.Reader.Total.{
  advance-Returns, read_u8-Total, read_u16-Total, read_mqtt_string-Total,
}
use robustmq.Mqtt.Reader.Spend.{
  Spends, >>=-Spends, lift-Spends, read_u8-Spends, read_mqtt_string-Spends,
}
use robustmq.Mqtt.Writer.{put_u8, put_u16, write_remaining_length, write_mqtt_string}
use robustmq.Mqtt.Types.Codes.{RetainForwardRule, on_every_subscribe, on_new_subscribe, never}
use robustmq.Mqtt.Types.Packets.{FixedHeader, Subscribe, Filter}
use robustmq.Mqtt.Types.Properties.{SubscribeProperties}
use robustmq.Mqtt.Qos.{to_u8, qos_or_error, qos_or_error-Returns}
use robustmq.Mqtt.V5.Properties.{len_of, write_or_zero, read_properties}
use robustmq.Mqtt.V5.Properties.Total.{read_properties-Total}
use robustmq.Mqtt.V5.Repeat.{read_all, write_all, read_all-Total}
use Properties as Fields

-- `filter::len`, and its sum in `len`.
filter_len : Filter → ℕ
filter_len f = 2 + length f.path + 1

filters_len : List Filter → ℕ
unfolding filter_len
filters_len [] = 0
filters_len (f ∷ fs) = filter_len f + filters_len fs

unfoldable pub len : Subscribe → Option SubscribeProperties → ℕ
unfolding filters_len
len p properties = 2 + filters_len p.filters + len_of Fields.len properties

unfoldable pub retain_forward_rule : ℕ → Outcome RetainForwardRule
retain_forward_rule r =
    if r == 0
    then ok on_every_subscribe
    else if r == 1
    then ok on_new_subscribe
    else if r == 2
    then ok never
    else err (invalid_retain_forward_rule r)

-- The body of the loop over the filters.
unfoldable pub read_filter : Buffered Filter
unfolding retain_forward_rule qos_or_error
read_filter = do
  path ← read_mqtt_string
  options ← read_u8
  let requested_qos = bit_and options 0b0000_0011
  let nolocal = not (bit_and (options / 4) 0b0000_0001 == 0)
  let preserve_retain = not (bit_and (options / 8) 0b0000_0001 == 0)
  rule ← lift (retain_forward_rule (bit_and (options / 16) 0b0000_0011))
  qos ← lift (qos_or_error requested_qos)
  pure (record {
    path = path;
    qos = qos;
    nolocal = nolocal;
    preserve_retain = preserve_retain;
    retain_forward_rule = rule;
  })

-- The match on `filters.len()`.
unfoldable pub subscribe_of :
    ℕ → List Filter → Option SubscribeProperties → Buffered (Subscribe × Option SubscribeProperties)
subscribe_of pkid [] properties = fail empty_subscription
subscribe_of pkid (f ∷ fs) properties =
    pure (record { packet_identifier = pkid; filters = f ∷ fs }, properties)

unfoldable pub read : FixedHeader → Bytes → Outcome (Subscribe × Option SubscribeProperties)
unfolding read_filter subscribe_of
read h = run do
  advance h.fixed_header_len
  pkid ← read_u16
  properties ← read_properties Fields.arms Fields.empty
  filters ← read_all read_filter
  subscribe_of pkid filters properties

rule_u8 : RetainForwardRule → ℕ
rule_u8 on_every_subscribe = 0b0000_0000
rule_u8 on_new_subscribe = 0b0001_0000
rule_u8 never = 0b0010_0000

-- The options that `filter::write` puts behind the path.
unfoldable pub options : Filter → ℕ
unfolding to_u8 rule_u8
options f =
    let with_qos = to_u8 f.qos in
    let with_nolocal = if f.nolocal then bit_or with_qos 0b0000_0100 else with_qos in
    let with_retain = if f.preserve_retain then bit_or with_nolocal 0b0000_1000 else with_nolocal in
    bit_or with_retain (rule_u8 f.retain_forward_rule)

-- `filter::write`.
unfoldable pub write_filter : Filter → Buffered (Unit {0})
unfolding options
write_filter f = do write_mqtt_string f.path; put_u8 (options f)

unfoldable pub write : Subscribe → Option SubscribeProperties → Buffered ℕ
unfolding len write_filter
write p properties = do
  put_u8 0x82
  remaining_len_bytes ← write_remaining_length (len p properties)
  put_u16 p.packet_identifier
  write_or_zero Fields.write properties
  write_all write_filter p.filters
  pure (1 + remaining_len_bytes + len p properties)

retain_forward_rule-Returns : (r : ℕ) → Returns (retain_forward_rule r)
unfolding retain_forward_rule
retain_forward_rule-Returns r = ground arith

read_filter-Total : Total read_filter
unfolding read_filter
read_filter-Total bs = Returns->>= read_mqtt_string _ bs (read_mqtt_string-Total bs) λ path bs'.
    Returns->>= read_u8 _ bs' (read_u8-Total bs') λ options bs2.
      Returns->>= (lift (retain_forward_rule (bit_and (options / 16) 3))) _ bs2
        (retain_forward_rule-Returns (bit_and (options / 16) 3))
        λ _ bs3.
          Returns->>= (lift (qos_or_error (bit_and options 3))) _ bs3
            (qos_or_error-Returns (bit_and options 3)) λ _ _. tt

read_filter-Spends : Spends 1 read_filter
unfolding read_filter
read_filter-Spends = >>=-Spends 1 0 read_mqtt_string _ read_mqtt_string-Spends λ _ bs a e. omega (
  arith,
  >>=-Spends 1 0 read_u8 _ read_u8-Spends
      (λ options.
        >>=-Spends 0 0 (lift (retain_forward_rule (bit_and (options / 16) 3))) _ (lift-Spends _)
          λ _.
            >>=-Spends 0 0 (lift (qos_or_error (bit_and options 3))) _ (lift-Spends _)
              λ _. lift-Spends _)
      bs a e,
)

subscribe_of-Total :
    (pkid : ℕ) (fs : List Filter) (o : Option SubscribeProperties) → Total (subscribe_of pkid fs o)
unfolding subscribe_of
subscribe_of-Total pkid [] o bs = tt
subscribe_of-Total pkid (f ∷ fs) o bs = tt

pub read-Returns :
    (h : FixedHeader) (bytes : Bytes) → h.fixed_header_len ≤ length bytes → Returns (read h bytes)
unfolding read
read-Returns h bytes g = Returns->>= (advance _) _ bytes (advance-Returns _ bytes g) λ _ bs.
    Returns->>= read_u16 _ bs (read_u16-Total bs) λ pkid bs'.
      Returns->>= (read_properties Fields.arms Fields.empty) _ bs'
        (read_properties-Total Fields.arms Fields.empty Fields.arms-AreTotal bs')
        λ o bs2.
          Returns->>= (read_all read_filter) _ bs2
            (read_all-Total read_filter read_filter-Total read_filter-Spends bs2)
            λ fs. subscribe_of-Total pkid fs o
