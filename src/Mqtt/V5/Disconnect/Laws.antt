-- ===== src/Mqtt/V5/Disconnect/Laws.antt =====
-- The disconnect of src/protocol/src/mqtt/mqttv5/disconnect.rs, written and read again.
use robustmq.Prelude.{
  ℕ, suc, ◌+◌, ◌≤◌, ◌<◌, ◌≡◌, refl, ap, ◌∙◌, sym, Option, none, some, [], ◌∷◌, ◌++◌, append-nil,
  append_assoc, arith,
}
use robustmq.Prelude.{length}
use robustmq.Mqtt.Bytes.{Bytes}
use robustmq.Mqtt.Outcome.{Outcome, ok}
use robustmq.Mqtt.Buffer.{Buffered, ◌>>=◌, ◌>>◌, lift, pure}
use robustmq.Mqtt.Reader.{read_u8}
use robustmq.Mqtt.Writer.{put_u8, len_len, write_remaining_length}
use robustmq.Mqtt.Types.Codes.{DisconnectReasonCode}
use robustmq.Mqtt.Types.Packets.{Disconnect}
use robustmq.Mqtt.Types.Properties.{DisconnectProperties}
use robustmq.Mqtt.Header.{new}
use robustmq.Mqtt.Header.Image.{len_len_bounds}
use robustmq.Mqtt.Header.Check.{frame}
use robustmq.Mqtt.Wire.{header, var_int_zero}
use robustmq.Mqtt.V5.Ack.{unwrap}
use robustmq.Mqtt.V5.Fields.Image.{
  Emits, Writes-Emits, Writes-pure, frame-Emits, advance-frame-run, put_u8-Writes,
}
use robustmq.Mqtt.V5.Properties.{len_of, write_or_zero, read_properties}
use robustmq.Mqtt.V5.Properties.Codec.{
  options_image, back, IsFine, length-options_image, write_or_zero-Writes, read-options_image,
}
use robustmq.Mqtt.V5.Disconnect.Properties
use robustmq.Mqtt.V5.Disconnect.Image.{codec}
use robustmq.Mqtt.V5.Disconnect.{
  len, len_with, code, is_normal, reason, reason-code, write, read_rest, read,
}

abbrev pub disconnect : DisconnectReasonCode → Disconnect
disconnect r = record { reason_code = some r }

-- The reason and the properties.
abbrev pub body : DisconnectReasonCode → DisconnectProperties → Bytes
body r p = code r ∷ options_image codec (some p)

length-body :
    (r : DisconnectReasonCode) (p : DisconnectProperties)
    → length (body r p) ≡ len (disconnect r) (some p)
unfolding len len_with
length-body r p = ap suc (length-options_image codec (some p)) ∙ omega arith

long_write : Disconnect → Option DisconnectProperties → Buffered ℕ
long_write p o =
    put_u8 0xe0
    >> (write_remaining_length (len p o) >>= λ len_len. do
      reason ← lift (unwrap p.reason_code)
      put_u8 (code reason)
      write_or_zero Properties.write o
      pure (1 + len_len + len p o))

write-long :
    (p : Disconnect) (o : Option DisconnectProperties) (buffer : Bytes)
    → 2 < len p o
    → write p o buffer ≡ long_write p o buffer
unfolding write long_write put_u8
write-long p o buffer h = ground arith

write-two :
    (p : Disconnect) (o : Option DisconnectProperties) (buffer : Bytes)
    → len p o ≡ 2
    → write p o buffer ≡ (ok 2, (buffer ++ 0xe0 ∷ []) ++ 0x00 ∷ [])
unfolding write put_u8
write-two p o buffer h = ground (arith, h)

length_long :
    (r : DisconnectReasonCode) (p : DisconnectProperties)
    → 0 < Properties.len p
    → 2 < len (disconnect r) (some p)
unfolding len len_with len_of
length_long r p h = omega (arith, len_len_bounds (Properties.len p))

-- With properties of a positive length a disconnect is a frame.
pub write-Emits :
    (r : DisconnectReasonCode) (p : DisconnectProperties)
    → 0 < Properties.len p
    → IsFine codec (some p)
    → length (body r p) ≤ 268435455
    → Emits (write (disconnect r) (some p)) (frame 0xe0 (body r p)) (length (frame 0xe0 (body r p)))
unfolding long_write unwrap
write-Emits r p k v h buffer =
    write-long (disconnect r) (some p) buffer (length_long r p k)
    ∙ frame-Emits 0xe0 (len (disconnect r) (some p)) _ (body r p) (length-body r p)
        (omega (arith, h, length-body r p))
        (Writes-Emits (put_u8 (code r)) _ (code r ∷ []) (options_image codec (some p)) _
          (put_u8-Writes (code r))
          (Writes-pure (write_or_zero Properties.write (some p)) (options_image codec (some p)) _
            (write_or_zero-Writes codec (some p) v)))
        buffer

long_read : Buffered (Disconnect × Option DisconnectProperties)
long_read = do
  reason_code ← read_u8
  reason ← lift (reason reason_code)
  properties ← read_properties Properties.arms Properties.empty
  pure (disconnect reason, properties)

read_rest-long : (n : ℕ) (bs : Bytes) → 0 < n → read_rest n bs ≡ long_read bs
unfolding read_rest long_read
read_rest-long n bs h = ground arith

long_read-body :
    (r : DisconnectReasonCode) (p : DisconnectProperties)
    → IsFine codec (some p)
    → long_read (body r p) ≡ (ok (disconnect r, back codec (some p)), [])
unfolding long_read read_u8
long_read-body r p v = rw (reason-code r) (
    rw (sym (append-nil (options_image codec (some p))))
      (rw (read-options_image codec (some p) [] v) refl))

pub read-frame :
    (r : DisconnectReasonCode) (p : DisconnectProperties)
    → IsFine codec (some p)
    → read (header 0xe0 (body r p)) (frame 0xe0 (body r p)) ≡ ok (disconnect r, back codec (some p))
unfolding read new
read-frame r p v =
    advance-frame-run 0xe0 (body r p) [] _ _
      (read_rest-long (length (body r p)) (body r p) (omega arith) ∙ long_read-body r p v)

frame_empty : frame 0xe0 [] ≡ 0xe0 ∷ 0 ∷ []
unfolding frame
frame_empty = rw var_int_zero refl

appended :
    (buffer : Bytes)
    → Path
        (Outcome ℕ × Bytes)
        (ok 2, (buffer ++ 0xe0 ∷ []) ++ 0x00 ∷ [])
        (ok 2, buffer ++ frame 0xe0 [])
appended buffer =
    ap (λ s. (ok 2, s))
      (append_assoc buffer (0xe0 ∷ []) (0 ∷ []) ∙ ap (λ s. buffer ++ s) (sym frame_empty))

-- Properties of length 0 make the length 2, which is taken for a normal disconnection.
pub write-empty :
    (r : DisconnectReasonCode) (p : DisconnectProperties) (buffer : Bytes)
    → Properties.len p ≡ 0
    → write (disconnect r) (some p) buffer ≡ (ok 2, buffer ++ frame 0xe0 [])
unfolding len len_with len_of len_len
write-empty r p buffer e =
    write-two (disconnect r) (some p) buffer (ap (λ n. 1 + (len_len n + n)) e) ∙ appended buffer

pub write-normal :
    (buffer : Bytes)
    → write (disconnect DisconnectReasonCode.normal_disconnection) none buffer
      ≡ (ok 2, buffer ++ frame 0xe0 [])
unfolding len len_with is_normal
write-normal buffer = write-two _ none buffer refl ∙ appended buffer

pub read-frame_empty :
    read (header 0xe0 []) (frame 0xe0 [])
    ≡ ok (disconnect DisconnectReasonCode.normal_disconnection, none)
unfolding read read_rest new
read-frame_empty = advance-frame-run 0xe0 [] [] _ _ refl
