-- ===== src/Mqtt/V5/ReasonList.antt =====
-- The answers with a list of reasons: suback.rs and unsuback.rs of src/protocol/src/mqtt/mqttv5 are the
-- same but for their types, first byte and reasons.
pub mod Laws
use robustmq.Prelude.{ℕ, ◌+◌, List, [], ◌∷◌, map, Option}
use robustmq.Prelude.{length}
use robustmq.Mqtt.Bytes.{Bytes}
use robustmq.Mqtt.Outcome.{Outcome, ok, malformed_packet}
use robustmq.Mqtt.Outcome
use robustmq.Mqtt.Buffer.{Buffered, ◌>>=◌, ◌>>◌, run, lift, pure, guard}
use robustmq.Mqtt.Reader.{advance, read_u16, has_remaining, take_rest}
use robustmq.Mqtt.Writer.{put_u8, put_u16, put_slice, write_remaining_length}
use robustmq.Mqtt.Types.Packets.{FixedHeader}
use robustmq.Mqtt.V5.Properties.{len_of, write_or_zero}

-- The struct of the packet, its reasons and their codes, and its `properties` module.
pub record Shape (Packet Reason P : Type 0) : Type 0 where
  pub byte1 : ℕ
  pub make : ℕ → List Reason → Packet
  pub pkid : Packet → ℕ
  pub reasons : Packet → List Reason
  pub code : Reason → ℕ
  pub reason_of : ℕ → Outcome Reason
  pub properties_len : P → ℕ
  pub properties_write : P → Buffered (Unit {0})
  pub properties_read : Buffered (Option P)

module _ {Packet Reason P : Type 0} (k : Shape Packet Reason P) where
  unfoldable pub len : Packet → Option P → ℕ
  len p properties = 2 + length (k.reasons p) + len_of k.properties_len properties

  unfoldable pub write : Packet → Option P → Buffered ℕ
  unfolding len
  write p properties = do
    put_u8 k.byte1
    remaining_len_bytes ← write_remaining_length (len p properties)
    put_u16 (k.pkid p)
    write_or_zero k.properties_write properties
    put_slice (map k.code (k.reasons p))
    pure (1 + remaining_len_bytes + len p properties)

  -- The loop of `read`: each round takes one byte, and stops at a bad code.
  unfoldable pub read_reasons : Bytes → Outcome (List Reason)
  read_reasons [] = ok []
  read_reasons (b ∷ bs) =
      Outcome.◌>>=◌ (k.reason_of b) λ r. Outcome.◌>>=◌ (read_reasons bs) λ rs. ok (r ∷ rs)

  unfoldable pub read : FixedHeader → Bytes → Outcome (Packet × Option P)
  unfolding read_reasons
  read h = run do
    advance h.fixed_header_len
    pkid ← read_u16
    properties ← k.properties_read
    more ← has_remaining
    guard more malformed_packet
    bs ← take_rest
    reasons ← lift (read_reasons bs)
    pure (k.make pkid reasons, properties)
