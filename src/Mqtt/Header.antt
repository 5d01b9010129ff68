-- ===== src/Mqtt/Header.antt =====
-- The fixed header and the check of a frame: src/protocol/src/mqtt/common.rs.
pub mod Image
pub mod Check
pub mod RoundTrip
use robustmq.Prelude.{ℕ, zero, suc, ◌+◌, ◌-◌, ◌*◌, ◌/◌, ◌^◌, bit_and, true, false, [], ◌∷◌}
use robustmq.Prelude.{ltb, ◌==◌, if◌then◌else◌, length}
use robustmq.Mqtt.Bytes.{Bytes}
use robustmq.Mqtt.Outcome.{
  Outcome, ok, err, ◌>>=◌, invalid_packet_type, malformed_remaining_length, insufficient_bytes,
  payload_size_limit_exceeded,
}
use robustmq.Mqtt.Types.Codes.{PacketType}
use robustmq.Mqtt.Types.Packets.{FixedHeader}

unfoldable pub new : ℕ → ℕ → ℕ → FixedHeader
new byte1 remaining_len_len remaining_len = record {
  byte1 = byte1;
  fixed_header_len = remaining_len_len + 1;
  remaining_len = remaining_len;
}

unfoldable pub packet_type_of : ℕ → Outcome PacketType
packet_type_of num =
    if num == 1
    then ok PacketType.connect
    else if num == 2
    then ok PacketType.conn_ack
    else if num == 3
    then ok PacketType.publish
    else if num == 4
    then ok PacketType.pub_ack
    else if num == 5
    then ok PacketType.pub_rec
    else if num == 6
    then ok PacketType.pub_rel
    else if num == 7
    then ok PacketType.pub_comp
    else if num == 8
    then ok PacketType.subscribe
    else if num == 9
    then ok PacketType.sub_ack
    else if num == 10
    then ok PacketType.unsubscribe
    else if num == 11
    then ok PacketType.unsub_ack
    else if num == 12
    then ok PacketType.ping_req
    else if num == 13
    then ok PacketType.ping_resp
    else if num == 14
    then ok PacketType.disconnect
    else err (invalid_packet_type num)

-- `self.byte1 >> 4`.
unfoldable pub packet_type : FixedHeader → Outcome PacketType
packet_type h = packet_type_of (h.byte1 / 16)

unfoldable pub frame_length : FixedHeader → ℕ
frame_length h = h.fixed_header_len + h.remaining_len

-- The loop of `length`; the list is what the iterator has not reached. The sum stays below
-- 2 ^ 28, so no usize wraps.
unfoldable pub length_loop : Bytes → ℕ → ℕ → ℕ → Outcome (ℕ × ℕ)
length_loop [] len len_len shift = err (insufficient_bytes 1)
length_loop (b ∷ bs) len len_len shift = elim (bit_and b 0x80 == 0) [
  | true ↦ ok (len_len + 1, len + bit_and b 0x7f * 2 ^ shift)
  | false ↦ elim (ltb 21 (shift + 7)) [
    | true ↦ err malformed_remaining_length
    | false ↦ length_loop bs (len + bit_and b 0x7f * 2 ^ shift) (len_len + 1) (shift + 7)
  ]
]

-- `length` of the source: the number of bytes of a variable byte integer, and its value.
unfoldable pub parse_length : Bytes → Outcome (ℕ × ℕ)
unfolding length_loop
parse_length stream = length_loop stream 0 0 0

unfoldable pub parse_fixed_header : Bytes → Outcome FixedHeader
parse_fixed_header [] = err (insufficient_bytes 2)
parse_fixed_header (a ∷ []) = err (insufficient_bytes 1)
parse_fixed_header (byte1 ∷ b ∷ bs) = do
  (len_len, len) ← parse_length (b ∷ bs)
  ok (new byte1 len_len len)

unfoldable pub check : Bytes → ℕ → Outcome FixedHeader
check stream max_packet_size = do
  fixed_header ← parse_fixed_header stream
  if ltb max_packet_size fixed_header.remaining_len
      then err (payload_size_limit_exceeded fixed_header.remaining_len)
      else if ltb (length stream) (frame_length fixed_header)
      then err (insufficient_bytes (frame_length fixed_header - length stream))
      else ok fixed_header
