-- ===== src/Mqtt/V5/Unsubscribe/Laws.antt =====
-- The unsubscribe of src/protocol/src/mqtt/mqttv5/unsubscribe.rs, written and read again.
use robustmq.Prelude.{◌≤◌, ◌≡◌, refl, List, Option, [], ◌∷◌, ◌++◌, arith}
use robustmq.Prelude.{length, length-append, All}
use robustmq.Mqtt.Bytes.{Bytes, Text}
use robustmq.Mqtt.Outcome.{ok}
use robustmq.Mqtt.Reader.{read_mqtt_string}
use robustmq.Mqtt.Writer.{put_u16, write_mqtt_string}
use robustmq.Mqtt.Types.Packets.{Unsubscribe}
use robustmq.Mqtt.Types.Properties.{UnsubscribeProperties}
use robustmq.Mqtt.Header.Check.{frame}
use robustmq.Mqtt.Wire.{
  header, u16, mqtt_bytes, length-mqtt_bytes, read_u16-image, read_mqtt_string-image,
}
use robustmq.Mqtt.V5.Fields.Image.{
  IsText, Emits, Writes-Emits, Writes-pure, frame-Emits, advance-frame-run, put_u16-Writes,
  write_mqtt_string-Writes,
}
use robustmq.Mqtt.V5.Properties.{write_or_zero}
use robustmq.Mqtt.V5.Properties.Codec.{
  options_image, back, IsFine, length-options_image, write_or_zero-Writes, read-options_image,
}
use robustmq.Mqtt.V5.Repeat.{write_all, images, write_all-Writes, read_all-images}
use robustmq.Mqtt.V5.Unsubscribe.Properties
use robustmq.Mqtt.V5.Unsubscribe.Image.{codec}
use robustmq.Mqtt.V5.Unsubscribe.{topics_len, len, write, read}

abbrev pub body : Unsubscribe → Option UnsubscribeProperties → Bytes
body p o = u16 p.pkid ++ (options_image codec o ++ images mqtt_bytes p.filters)

length-images : (ts : List Text) → length (images mqtt_bytes ts) ≡ topics_len ts
unfolding topics_len
length-images [] = refl
length-images (t ∷ ts) = omega (
  arith,
  length-append (mqtt_bytes t) (images mqtt_bytes ts),
  length-mqtt_bytes t,
  length-images ts,
)

length-body : (p : Unsubscribe) (o : Option UnsubscribeProperties) → length (body p o) ≡ len p o
unfolding len
length-body p o = omega (
  arith,
  length-append (options_image codec o) (images mqtt_bytes p.filters),
  length-options_image codec o,
  length-images p.filters,
)

-- A written unsubscribe is a frame.
pub write-Emits :
    (p : Unsubscribe) (o : Option UnsubscribeProperties)
    → All IsText p.filters
    → IsFine codec o
    → length (body p o) ≤ 268435455
    → Emits (write p o) (frame 0xa2 (body p o)) (length (frame 0xa2 (body p o)))
unfolding write
write-Emits p o t v h =
    frame-Emits 0xa2 (len p o) _ (body p o) (length-body p o) (omega (arith, h, length-body p o)) (
      Writes-Emits (put_u16 p.pkid) _ (u16 p.pkid) _ _ (put_u16-Writes p.pkid) (
        Writes-Emits (write_or_zero Properties.write o) _ (options_image codec o) _ _
          (write_or_zero-Writes codec o v)
          (Writes-pure (write_all write_mqtt_string p.filters) (images mqtt_bytes p.filters) _ (
            write_all-Writes write_mqtt_string mqtt_bytes IsText p.filters
              (λ s k. write_mqtt_string-Writes s k.0) t))))

pub read-frame :
    (p : Unsubscribe) (o : Option UnsubscribeProperties)
    → All IsText p.filters
    → IsFine codec o
    → read (header 0xa2 (body p o)) (frame 0xa2 (body p o)) ≡ ok (p, back codec o)
unfolding read
read-frame p o t v = advance-frame-run 0xa2 (body p o) [] _ _ (
    rw
      (
        read_u16-image p.pkid (options_image codec o ++ images mqtt_bytes p.filters),
        read-options_image codec o (images mqtt_bytes p.filters) v,
        read_all-images read_mqtt_string mqtt_bytes IsText p.filters
            (λ s k.
              ((λ rest. read_mqtt_string-image s rest k.1), omega (arith, length-mqtt_bytes s)))
            t,
      )
      refl)
