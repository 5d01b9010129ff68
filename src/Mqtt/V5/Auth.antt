-- ===== src/Mqtt/V5/Auth.antt =====
-- src/protocol/src/mqtt/mqttv5/auth.rs.
pub mod Properties
pub mod Image
pub mod Laws
use robustmq.Prelude.{
  ℕ, ◌+◌, ◌/◌, ◌≤◌, ◌≡◌, bit_and, Bool, true, false, ◌&&◌, Option, none, some, arith,
}
use robustmq.Prelude.{◌==◌, if◌then◌else◌, length}
use robustmq.Mqtt.Bytes.{Bytes}
use robustmq.Mqtt.Outcome.{
  Outcome, ok, err, Returns, invalid_connect_return_code, invalid_packet_type, malformed_packet,
}
use robustmq.Mqtt.Outcome
use robustmq.Mqtt.Buffer.{
  Buffered, ◌>>=◌, ◌>>◌, run, pure, lift, guard, Total, Returns->>=, guard-Total, if-Total,
}
use robustmq.Mqtt.Reader.{advance, read_u8}
use robustmq.Mqtt.Reader.Total.{advance-Returns, read_u8-Total}
use robustmq.Mqtt.Writer.{put_u8, write_remaining_length}
use robustmq.Mqtt.Types.Codes.{AuthReason}
use robustmq.Mqtt.Types.Packets.{FixedHeader, Auth}
use robustmq.Mqtt.Types.Properties.{AuthProperties}
use robustmq.Mqtt.V5.Ack.{is_none, unwrap}
use robustmq.Mqtt.V5.Properties.{len_of, write_or_zero, read_properties}
use robustmq.Mqtt.V5.Properties.Total.{read_properties-Total}
use Properties as Fields

unfoldable pub is_success : AuthReason → Bool
is_success AuthReason.success = true
is_success _ = false

-- The reason code is not in the length.
unfoldable pub len : Auth → Option AuthProperties → Outcome ℕ
unfolding is_success is_none unwrap
len p properties = Outcome.◌>>=◌ (unwrap p.reason) λ reason.
    ok (if is_success reason && is_none properties then 2 else len_of Fields.len properties)

unfoldable pub code : AuthReason → ℕ
code AuthReason.success = 0x00
code AuthReason.continue_authentication = 0x18
code AuthReason.re_authenticate = 0x19

unfoldable pub reason : ℕ → Outcome AuthReason
reason num =
    if num == 0x00
    then ok AuthReason.success
    else if num == 0x18
    then ok AuthReason.continue_authentication
    else if num == 0x19
    then ok AuthReason.re_authenticate
    else err (invalid_connect_return_code num)

unfoldable pub write : Auth → Option AuthProperties → Buffered ℕ
unfolding len code unwrap
write p properties = do
  len ← lift (len p properties)
  put_u8 0b1111_0000
  if len == 2 then (do put_u8 0x00; pure len) else (do
    count ← write_remaining_length len
    reason ← lift (unwrap p.reason)
    put_u8 (code reason)
    write_or_zero Fields.write properties
    pure (1 + count + len))

-- What follows the fixed header.
unfoldable pub read_rest : ℕ → Buffered (Auth × Option AuthProperties)
unfolding reason
read_rest remaining_len =
    if remaining_len == 0 then pure (record { reason = some AuthReason.success }, none) else (do
      reason_code ← read_u8
      reason ← lift (reason reason_code)
      properties ← read_properties Fields.arms Fields.empty
      pure (record { reason = some reason }, properties))

unfoldable pub read : FixedHeader → Bytes → Outcome (Auth × Option AuthProperties)
unfolding read_rest
read h = run do
  advance h.fixed_header_len
  guard (h.byte1 / 16 == 15) (invalid_packet_type (h.byte1 / 16))
  guard (bit_and h.byte1 0b0000_1111 == 0x00) malformed_packet
  read_rest h.remaining_len

reason-Returns : (num : ℕ) → Returns (reason num)
unfolding reason
reason-Returns num = ground arith

pub reason-code : (r : AuthReason) → reason (code r) ≡ ok r
unfolding reason code
reason-code r = ground arith

read_rest-Total : (n : ℕ) → Total (read_rest n)
unfolding read_rest
read_rest-Total n =
    if-Total _ (pure _) _ (λ _. tt)
      λ bs. Returns->>= read_u8 _ bs (read_u8-Total bs) λ reason_code bs'.
        Returns->>= (lift (reason reason_code)) _ bs' (reason-Returns reason_code) λ _ bs2.
          Returns->>= (read_properties Fields.arms Fields.empty) _ bs2
            (read_properties-Total Fields.arms Fields.empty Fields.arms-AreTotal bs2) λ _ _. tt

pub read-Returns :
    (h : FixedHeader) (bytes : Bytes) → h.fixed_header_len ≤ length bytes → Returns (read h bytes)
unfolding read
read-Returns h bytes g =
    let of_type = h.byte1 / 16 == 15 in
    let no_flags = bit_and h.byte1 0b0000_1111 == 0x00 in
    Returns->>= (advance _) _ bytes (advance-Returns _ bytes g) λ _ bs.
      Returns->>= (guard of_type (invalid_packet_type (h.byte1 / 16))) _ bs
        (guard-Total of_type _ bs)
        λ _ bs'.
          Returns->>= (guard no_flags malformed_packet) _ bs' (guard-Total no_flags _ bs')
            λ _. read_rest-Total h.remaining_len
