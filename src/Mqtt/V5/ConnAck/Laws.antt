-- ===== src/Mqtt/V5/ConnAck/Laws.antt =====
-- The connect acknowledgement of src/protocol/src/mqtt/mqttv5/connack.rs, written and read again.
use robustmq.Prelude.{
  ℕ, ◌≤◌, ◌≡◌, refl, bit_and, Bool, true, false, Option, [], ◌∷◌, append-nil, sym, arith,
}
use robustmq.Prelude.{length, ◌==◌}
use robustmq.Mqtt.Bytes.{Bytes}
use robustmq.Mqtt.Outcome.{ok}
use robustmq.Mqtt.Reader.{read_u8}
use robustmq.Mqtt.Writer.{bool_u8, put_u8}
use robustmq.Mqtt.Types.Codes.{ConnectReturnCode}
use robustmq.Mqtt.Types.Packets.{ConnAck}
use robustmq.Mqtt.Types.Properties.{ConnAckProperties}
use robustmq.Mqtt.Header.Check.{frame}
use robustmq.Mqtt.Wire.{header}
use robustmq.Mqtt.V5.Fields.Image.{
  Emits, Writes-Emits, Writes-pure, frame-Emits, advance-frame-run, put_u8-Writes,
}
use robustmq.Mqtt.V5.Properties.{write_or_zero}
use robustmq.Mqtt.V5.Properties.Codec.{
  options_image, back, IsFine, length-options_image, write_or_zero-Writes, read-options_image,
}
use robustmq.Mqtt.V5.ConnAck.Properties
use robustmq.Mqtt.V5.ConnAck.Image.{codec}
use robustmq.Mqtt.V5.ConnAck.{len, connect_return, connect_code, write, read}

connect_return-connect_code :
    (c : ConnectReturnCode) (n : ℕ) → connect_code c ≡ ok n → connect_return n ≡ ok c
unfolding connect_return connect_code
connect_return-connect_code c n e = ground arith

abbrev pub body : ConnAck → ℕ → Option ConnAckProperties → Bytes
body p n o = bool_u8 p.session_present ∷ n ∷ options_image codec o

length-body : (p : ConnAck) (n : ℕ) (o : Option ConnAckProperties) → length (body p n o) ≡ len o
unfolding len
length-body p n o = omega (arith, length-options_image codec o)

-- With a code of MQTT 5 the acknowledgement is a frame.
pub write-Emits :
    (p : ConnAck) (n : ℕ) (o : Option ConnAckProperties)
    → connect_code p.code ≡ ok n
    → IsFine codec o
    → length (body p n o) ≤ 268435455
    → Emits (write p o) (frame 0x20 (body p n o)) (length (frame 0x20 (body p n o)))
unfolding write
write-Emits p n o e v h =
    frame-Emits 0x20 (len o) _ (body p n o) (length-body p n o)
      (omega (arith, h, length-body p n o))
      (Writes-Emits (put_u8 (bool_u8 p.session_present)) _ (_ ∷ []) (n ∷ options_image codec o) _
        (put_u8-Writes _)
        (rw e (
          Writes-Emits (put_u8 n) _ (n ∷ []) (options_image codec o) _ (put_u8-Writes n) (
            Writes-pure (write_or_zero Properties.write o) (options_image codec o) _
              (write_or_zero-Writes codec o v)))))

flag-bool_u8 : (b : Bool) → (bit_and (bool_u8 b) 0x01 == 1) ≡ b
unfolding bool_u8
flag-bool_u8 true = refl
flag-bool_u8 false = refl

pub read-frame :
    (p : ConnAck) (n : ℕ) (o : Option ConnAckProperties)
    → connect_code p.code ≡ ok n
    → IsFine codec o
    → read (header 0x20 (body p n o)) (frame 0x20 (body p n o)) ≡ ok (p, back codec o)
unfolding read read_u8
read-frame p n o e v = advance-frame-run 0x20 (body p n o) [] _ _ (
    rw (sym (append-nil (options_image codec o))) (
      rw (read-options_image codec o [] v)
        (rw (connect_return-connect_code p.code n e) (rw (flag-bool_u8 p.session_present) refl))))
