-- ===== src/Mqtt/V5/Ack.antt =====
-- The answers to a publish: puback.rs, pubrec.rs, pubrel.rs and pubcomp.rs of
-- src/protocol/src/mqtt/mqttv5 are the same but for their types, first byte and reasons.
pub mod Laws
use robustmq.Prelude.{ℕ, ◌+◌, Bool, true, false, ◌&&◌, Option, none, some}
use robustmq.Prelude.{ltb, ◌==◌, if◌then◌else◌}
use robustmq.Mqtt.Bytes.{Bytes}
use robustmq.Mqtt.Outcome.{Outcome, ok, panic}
use robustmq.Mqtt.Outcome
use robustmq.Mqtt.Buffer.{Buffered, ◌>>=◌, ◌>>◌, run, lift, pure}
use robustmq.Mqtt.Reader.{advance, read_u8, read_u16}
use robustmq.Mqtt.Writer.{put_u8, put_u16, write_remaining_length}
use robustmq.Mqtt.Types.Packets.{FixedHeader}
use robustmq.Mqtt.V5.Properties.{Arms, len_of, write_or_zero}
use robustmq.Mqtt.V5.Properties

-- `.unwrap()`.
unfoldable pub unwrap : {A : Type 0} → Option A → Outcome A
unwrap none = panic
unwrap (some a) = ok a

unfoldable pub is_none : {A : Type 0} → Option A → Bool
is_none none = true
is_none (some a) = false

-- The struct of the packet, its reasons and their codes, and its `properties` module.
pub record Shape (Packet Reason P : Type 0) : Type 0 where
  pub byte1 : ℕ
  pub make : ℕ → Option Reason → Packet
  pub pkid : Packet → ℕ
  pub reason : Packet → Option Reason
  pub success : Reason
  pub is_success : Reason → Bool
  pub code : Reason → ℕ
  pub reason_of : ℕ → Outcome Reason
  pub properties_len : P → ℕ
  pub properties_write : P → Buffered (Unit {0})
  pub properties_read : Buffered (Option P)

module _ {Packet Reason P : Type 0} (k : Shape Packet Reason P) where
  -- `reason == Success && properties.is_none()`.
  unfoldable pub is_short : Reason → Option P → Bool
  unfolding is_none
  is_short reason properties = k.is_success reason && is_none properties

  unfoldable pub len : Packet → Option P → Outcome ℕ
  unfolding is_short unwrap
  len p properties = Outcome.◌>>=◌ (unwrap (k.reason p)) λ reason.
      ok (if is_short reason properties then 2 else 2 + 1 + len_of k.properties_len properties)

  unfoldable pub write : Packet → Option P → Buffered ℕ
  unfolding len
  write p properties = do
    len ← lift (len p properties)
    put_u8 k.byte1
    count ← write_remaining_length len
    put_u16 (k.pkid p)
    reason ← lift (unwrap (k.reason p))
    if is_short reason properties then pure 4 else (do
      put_u8 (k.code reason)
      write_or_zero k.properties_write properties
      pure (1 + count + len))

  -- What follows the identifier: no reason with a remaining length of 2, no properties below 4.
  unfoldable pub read_reason : ℕ → ℕ → Buffered (Packet × Option P)
  read_reason remaining_len pkid =
      if remaining_len == 2 then pure (k.make pkid (some k.success), none) else (do
        ack_reason ← read_u8
        reason ← lift (k.reason_of ack_reason)
        if ltb remaining_len 4
            then pure (k.make pkid (some reason), none)
            else (do properties ← k.properties_read; pure (k.make pkid (some reason), properties)))

  unfoldable pub read : FixedHeader → Bytes → Outcome (Packet × Option P)
  unfolding read_reason
  read h = run do advance h.fixed_header_len; pkid ← read_u16; read_reason h.remaining_len pkid
