-- ===== src/Mqtt/V4/SubAck.antt =====
-- src/protocol/src/mqtt/mqttv4/suback.rs.
use robustmq.Prelude.{
  ℕ, suc, ◌+◌, ◌≤◌, ◌<◌, ◌≡◌, refl, ap, Bool, true, false, ◌&&◌, List, [], ◌∷◌, ◌++◌, map, arith,
}
use robustmq.Prelude.{◌==◌, if◌then◌else◌, length, append_assoc}
use robustmq.Mqtt.Bytes.{Bytes}
use robustmq.Mqtt.Outcome.{
  Outcome, ok, err, Returns, invalid_subscribe_reason_code, malformed_packet,
}
use robustmq.Mqtt.Outcome
use robustmq.Mqtt.Buffer.{Buffered, ◌>>=◌, ◌>>◌, run, guard, pure, lift, Returns->>=, guard-Total}
use robustmq.Mqtt.Reader.{advance, read_u16, has_remaining, take_rest}
use robustmq.Mqtt.Reader.Total.{advance-Returns, read_u16-Total}
use robustmq.Mqtt.Writer.{put_u8, put_u16, put_slice, write_remaining_length}
use robustmq.Mqtt.Types.Codes.{at_most_once, at_least_once, exactly_once, SubscribeReasonCode}
use robustmq.Mqtt.Types.Packets.{FixedHeader, SubAck}
use robustmq.Mqtt.Qos.{to_u8}
use robustmq.Mqtt.Header.{new}
use robustmq.Mqtt.Header.Image.{var_int}
use robustmq.Mqtt.Header.Check.{frame, length-frame}
use robustmq.Mqtt.Wire.{
  u16, header, read_u16-image, advance-frame, write_remaining_length-header, append-frame,
}

unfoldable pub code : SubscribeReasonCode → ℕ
unfolding to_u8
code (SubscribeReasonCode.success q) = to_u8 q
code SubscribeReasonCode.failure = 0x80
code SubscribeReasonCode.qos_0 = 0
code SubscribeReasonCode.qos_1 = 1
code SubscribeReasonCode.qos_2 = 2
code SubscribeReasonCode.unspecified = 128
code SubscribeReasonCode.implementation_specific = 131
code SubscribeReasonCode.not_authorized = 135
code SubscribeReasonCode.topic_filter_invalid = 143
code SubscribeReasonCode.pkid_in_use = 145
code SubscribeReasonCode.quota_exceeded = 151
code SubscribeReasonCode.shared_subscriptions_not_supported = 158
code SubscribeReasonCode.subscription_id_not_supported = 161
code SubscribeReasonCode.wildcard_subscriptions_not_supported = 162
code SubscribeReasonCode.exclusive_subscription_disabled = 143
code SubscribeReasonCode.topic_subscribed = 151

unfoldable pub reason : ℕ → Outcome SubscribeReasonCode
reason code =
    if code == 0
    then ok (SubscribeReasonCode.success at_most_once)
    else if code == 1
    then ok (SubscribeReasonCode.success at_least_once)
    else if code == 2
    then ok (SubscribeReasonCode.success exactly_once)
    else if code == 128
    then ok SubscribeReasonCode.failure
    else err (invalid_subscribe_reason_code code)

-- `SubAck::len`.
unfoldable pub len : SubAck → ℕ
len p = 2 + length p.return_codes

unfoldable pub write : SubAck → Buffered ℕ
unfolding len
write p = do
  put_u8 0x90
  remaining_len_bytes ← write_remaining_length (len p)
  put_u16 p.pkid
  put_slice (map code p.return_codes)
  pure (1 + remaining_len_bytes + len p)

-- The loop of `read`: each round takes one byte, and stops at a bad code.
unfoldable pub read_codes : Bytes → Outcome (List SubscribeReasonCode)
read_codes [] = ok []
read_codes (b ∷ bs) = Outcome.◌>>=◌ (reason b) λ c. Outcome.◌>>=◌ (read_codes bs) λ cs. ok (c ∷ cs)

unfoldable pub read : FixedHeader → Bytes → Outcome SubAck
read h = run do
  advance h.fixed_header_len
  pkid ← read_u16
  more ← has_remaining
  guard more malformed_packet
  bs ← take_rest
  return_codes ← lift (read_codes bs)
  pure (record { pkid = pkid; return_codes = return_codes })

-- The code that is read back: only the success codes and `failure` have numbers of their own.
unfoldable pub normal : SubscribeReasonCode → SubscribeReasonCode
normal SubscribeReasonCode.qos_0 = SubscribeReasonCode.success at_most_once
normal SubscribeReasonCode.qos_1 = SubscribeReasonCode.success at_least_once
normal SubscribeReasonCode.qos_2 = SubscribeReasonCode.success exactly_once
normal SubscribeReasonCode.unspecified = SubscribeReasonCode.failure
normal c = c

-- A code of MQTT 3.1.1.
unfoldable pub is_v4 : SubscribeReasonCode → Bool
is_v4 (SubscribeReasonCode.success q) = true
is_v4 SubscribeReasonCode.failure = true
is_v4 SubscribeReasonCode.qos_0 = true
is_v4 SubscribeReasonCode.qos_1 = true
is_v4 SubscribeReasonCode.qos_2 = true
is_v4 SubscribeReasonCode.unspecified = true
is_v4 _ = false

pub reason-code :
    (c : SubscribeReasonCode)
    → reason (code c)
      ≡ (if is_v4 c then ok (normal c) else err (invalid_subscribe_reason_code (code c)))
unfolding reason code normal is_v4 to_u8
reason-code c = ground arith

unfoldable pub all_v4 : List SubscribeReasonCode → Bool
all_v4 [] = true
all_v4 (c ∷ cs) = is_v4 c && all_v4 cs

pub read_codes-map :
    (cs : List SubscribeReasonCode)
    → all_v4 cs ≡ true
    → read_codes (map code cs) ≡ ok (map normal cs)
unfolding all_v4 read_codes
read_codes-map [] h = refl
read_codes-map (c ∷ cs) h = ground (arith, reason-code c, read_codes-map cs)

length-map-code : (cs : List SubscribeReasonCode) → length (map code cs) ≡ length cs
length-map-code [] = refl
length-map-code (c ∷ cs) = ap suc (length-map-code cs)

abbrev pub body : SubAck → Bytes
body p = u16 p.pkid ++ map code p.return_codes

pub length-body : (p : SubAck) → length (body p) ≡ len p
unfolding len
length-body p = omega (arith, length-map-code p.return_codes)

pub write-frame :
    (p : SubAck) (buffer : Bytes)
    → length (body p) ≤ 268435455
    → write p buffer ≡ (ok (length (frame 0x90 (body p))), buffer ++ frame 0x90 (body p))
unfolding write put_u8 put_u16 put_slice
write-frame p buffer h = ground (
  arith,
  length-body p,
  length-frame 0x90 (body p),
  write_remaining_length-header 0x90 (length (body p)) buffer,
  append-frame 0x90 buffer (body p),
  append_assoc (buffer ++ 0x90 ∷ var_int (length (body p))) (u16 p.pkid) (map code p.return_codes),
)

pub read-frame :
    (p : SubAck)
    → all_v4 p.return_codes ≡ true
    → 0 < length p.return_codes
    → read (header 0x90 (body p)) (frame 0x90 (body p))
      ≡ ok (record p { return_codes = map normal p.return_codes })
unfolding read new has_remaining take_rest
read-frame p h k = ground (
  arith,
  advance-frame 0x90 (body p),
  read_u16-image p.pkid (map code p.return_codes),
  length-map-code p.return_codes,
  read_codes-map p.return_codes h,
)

reason-Returns : (n : ℕ) → Returns (reason n)
unfolding reason
reason-Returns n = ground arith

read_codes-Returns : (bs : Bytes) → Returns (read_codes bs)
unfolding read_codes
read_codes-Returns [] = tt
read_codes-Returns (b ∷ bs) =
    Outcome.Returns->>= (reason b) _ (reason-Returns b)
      λ _. Outcome.Returns->>= (read_codes bs) _ (read_codes-Returns bs) λ _. tt

pub read-Returns :
    (h : FixedHeader) (bytes : Bytes) → h.fixed_header_len ≤ length bytes → Returns (read h bytes)
unfolding read has_remaining take_rest
read-Returns h bytes k = Returns->>= (advance _) _ bytes (advance-Returns _ bytes k) λ _ bs.
    Returns->>= read_u16 _ bs (read_u16-Total bs) λ _ bs'.
      Returns->>= (guard _ malformed_packet) _ bs' (guard-Total _ _ bs')
        λ _ bs''. Returns->>= (lift (read_codes bs'')) _ [] (read_codes-Returns bs'') λ _ _. tt
