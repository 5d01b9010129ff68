-- ===== src/Mqtt/V5/Auth/Laws.antt =====
-- What `write` of src/protocol/src/mqtt/mqttv5/auth.rs announces, and what it writes.
use robustmq.Prelude.{
  ℕ, ◌+◌, ◌≤◌, ◌<◌, ◌≡◌, refl, ◌∙◌, Option, none, some, List, ◌⊎◌, inl, inr, [], ◌∷◌, ◌++◌, arith,
}
use robustmq.Prelude.{length}
use robustmq.Mqtt.Bytes.{Bytes, Text}
use robustmq.Mqtt.Outcome.{ok}
use robustmq.Mqtt.Buffer.{Buffered, ◌>>=◌, ◌>>◌, pure}
use robustmq.Mqtt.Writer.{put_u8, write_remaining_length, len_len}
use robustmq.Mqtt.Types.Codes.{AuthReason}
use robustmq.Mqtt.Types.Packets.{Auth}
use robustmq.Mqtt.Types.Properties.{AuthProperties}
use robustmq.Mqtt.Header.Image.{var_int}
use robustmq.Mqtt.V5.Ack.{is_none, unwrap}
use robustmq.Mqtt.V5.Fields.{len_of_bytes, len_of_users}
use robustmq.Mqtt.V5.Fields.Image.{Writes-Emits, Writes-pure, announced-Emits, put_u8-Writes}
use robustmq.Mqtt.V5.Properties.{len_of, write_or_zero}
use robustmq.Mqtt.V5.Properties.Codec.{
  options_image, IsFine, length-options_image, write_or_zero-Writes,
}
use robustmq.Mqtt.V5.Auth.Properties
use robustmq.Mqtt.V5.Auth.Image.{codec}
use robustmq.Mqtt.V5.Auth.{is_success, len, code, write}

abbrev pub auth : AuthReason → Auth
auth r = record { reason = some r }

-- The length that is announced when there are properties.
abbrev pub announced : AuthProperties → ℕ
announced p = len_of Properties.len (some p)

long_write : ℕ → AuthReason → Option AuthProperties → Buffered ℕ
long_write n r o =
    put_u8 0b1111_0000
    >> (write_remaining_length n >>= λ count. do
      put_u8 (code r)
      write_or_zero Properties.write o
      pure (1 + count + n))

write-long :
    (r : AuthReason) (p : AuthProperties) (buffer : Bytes)
    → 2 < announced p
    → write (auth r) (some p) buffer ≡ long_write (announced p) r (some p) buffer
unfolding write len is_success is_none unwrap long_write put_u8
write-long r p buffer h = ground arith

bytes_counted : (o : Option Bytes) → (len_of_bytes o ≡ 0) ⊎ (2 < len_of_bytes o)
unfolding len_of_bytes
bytes_counted none = inl refl
bytes_counted (some s) = inr (omega arith)

users_counted : (us : List (Text × Text)) → (len_of_users us ≡ 0) ⊎ (2 < len_of_users us)
unfolding len_of_users
users_counted [] = inl refl
users_counted ((key, value) ∷ us) = inr (omega arith)

-- A property takes more than two bytes.
announced_long : (p : AuthProperties) → 0 < Properties.len p → 2 < announced p
unfolding Properties.len len_of
announced_long p h = ground (
  arith,
  bytes_counted p.authentication_method,
  bytes_counted p.authentication_data,
  bytes_counted p.reason_string,
  users_counted p.user_properties,
)

-- An authentication packet with properties announces one byte less than it writes: the reason
-- code is not counted.
pub write-uncounted :
    (r : AuthReason) (p : AuthProperties) (buffer : Bytes)
    → 0 < Properties.len p
    → IsFine codec (some p)
    → announced p ≤ 268435455
    → (body : Bytes) × (write (auth r) (some p) buffer ≡ (
      ok (1 + len_len (announced p) + announced p),
      buffer ++ (0b1111_0000 ∷ var_int (announced p) ++ body),
    ))
      × (length body ≡ 1 + announced p)
unfolding long_write
write-uncounted r p buffer k v h = (
  code r ∷ options_image codec (some p),
  write-long r p buffer (announced_long p k)
      ∙ announced-Emits 0b1111_0000 (announced p) _ (code r ∷ options_image codec (some p)) _ h
          (Writes-Emits (put_u8 (code r)) _ (code r ∷ []) _ _ (put_u8-Writes (code r)) (
            Writes-pure (write_or_zero Properties.write (some p)) (options_image codec (some p)) _
              (write_or_zero-Writes codec (some p) v)))
          buffer,
  omega (arith, length-options_image codec (some p)),
)
