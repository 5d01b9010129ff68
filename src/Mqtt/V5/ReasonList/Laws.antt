-- ===== src/Mqtt/V5/ReasonList/Laws.antt =====
-- The answers of src/protocol/src/mqtt/mqttv5 with a list of reasons, written and read again.
use robustmq.Prelude.{ℕ, suc, ◌≤◌, ◌<◌, ◌≡◌, refl, ap, List, [], ◌∷◌, ◌++◌, map, Option, arith}
use robustmq.Prelude.{length, length-append, lt→ltb}
use robustmq.Mqtt.Bytes.{Bytes}
use robustmq.Mqtt.Outcome.{Outcome, ok, Returns, malformed_packet}
use robustmq.Mqtt.Outcome
use robustmq.Mqtt.Buffer.{lift, guard, Returns->>=, guard-Total}
use robustmq.Mqtt.Reader.{advance, read_u16, has_remaining, take_rest}
use robustmq.Mqtt.Reader.Total.{advance-Returns, read_u16-Total}
use robustmq.Mqtt.Writer.{put_u16, put_slice}
use robustmq.Mqtt.Types.Packets.{FixedHeader}
use robustmq.Mqtt.Header.Check.{frame}
use robustmq.Mqtt.Wire.{u16, header, read_u16-image}
use robustmq.Mqtt.V5.Fields.Image.{
  Emits, Writes-pure, Writes-Emits, frame-Emits, advance-frame-run, put_u16-Writes,
  put_slice-Writes,
}
use robustmq.Mqtt.V5.Properties.{read_properties, write_or_zero}
use robustmq.Mqtt.V5.Properties.Codec.{
  Codec, options_image, back, IsFine, length-options_image, write_or_zero-Writes,
  read-options_image, read_properties-Total_of,
}
use robustmq.Mqtt.V5.ReasonList.{Shape, len, write, read_reasons}
use robustmq.Mqtt.V5.ReasonList

-- The struct is made of its fields, `normal` is the reason read back from a code, and the
-- properties are those of a codec.
pub record IsReasonList {Packet Reason P : Type 0} (k : Shape Packet Reason P) (c : Codec P)
    (normal : Reason → Reason) : Type 0 where
  pub reason_of-code : (r : Reason) → k.reason_of (k.code r) ≡ ok (normal r)
  pub reason_of-Returns : (n : ℕ) → Returns (k.reason_of n)
  pub same_len : k.properties_len ≡ c.len
  pub same_write : k.properties_write ≡ c.write
  pub same_read : k.properties_read ≡ read_properties c.arms c.empty

module _ {Packet Reason P : Type 0} (k : Shape Packet Reason P) (c : Codec P)
    (normal : Reason → Reason) (law : IsReasonList k c normal) where
  -- The identifier, the properties and the reasons.
  abbrev pub body : Packet → Option P → Bytes
  body p o = u16 (k.pkid p) ++ (options_image c o ++ map k.code (k.reasons p))

  length-map_code : (rs : List Reason) → length (map k.code rs) ≡ length rs
  length-map_code [] = refl
  length-map_code (r ∷ rs) = ap suc (length-map_code rs)

  length-body : (p : Packet) (o : Option P) → length (body p o) ≡ len k p o
  unfolding len
  length-body p o = rw law.same_len (
      omega (
        arith,
        length-append (options_image c o) (map k.code (k.reasons p)),
        length-options_image c o,
        length-map_code (k.reasons p),
      ))

  -- A written answer is a frame.
  pub write-Emits :
      (p : Packet) (o : Option P)
      → IsFine c o
      → length (body p o) ≤ 268435455
      → Emits (write k p o) (frame k.byte1 (body p o)) (length (frame k.byte1 (body p o)))
  unfolding write
  write-Emits p o v h =
      frame-Emits k.byte1 (len k p o) _ (body p o) (length-body p o)
        (omega (arith, h, length-body p o))
        (Writes-Emits (put_u16 (k.pkid p)) _ (u16 (k.pkid p)) _ _ (put_u16-Writes (k.pkid p)) (
          Writes-Emits (write_or_zero k.properties_write o) _ (options_image c o) _ _
            (rw law.same_write (write_or_zero-Writes c o v))
            (Writes-pure (put_slice (map k.code (k.reasons p))) (map k.code (k.reasons p)) _
              (put_slice-Writes (map k.code (k.reasons p))))))

  read_reasons-map : (rs : List Reason) → read_reasons k (map k.code rs) ≡ ok (map normal rs)
  unfolding read_reasons
  read_reasons-map [] = refl
  read_reasons-map (r ∷ rs) = rw (law.reason_of-code r, read_reasons-map rs) refl

  pub read-frame :
      (p : Packet) (o : Option P)
      → 0 < length (k.reasons p)
      → IsFine c o
      → ReasonList.read k (header k.byte1 (body p o)) (frame k.byte1 (body p o))
        ≡ ok (k.make (k.pkid p) (map normal (k.reasons p)), back c o)
  unfolding ReasonList.read has_remaining take_rest
  read-frame p o n v = advance-frame-run k.byte1 (body p o) [] _ _ (
      rw
        (
          read_u16-image (k.pkid p) (options_image c o ++ map k.code (k.reasons p)),
          law.same_read,
          read-options_image c o (map k.code (k.reasons p)) v,
          lt→ltb 0 (length (map k.code (k.reasons p)))
              (omega (arith, n, length-map_code (k.reasons p))),
          read_reasons-map (k.reasons p),
        )
        refl)

  read_reasons-Returns : (bs : Bytes) → Returns (read_reasons k bs)
  unfolding read_reasons
  read_reasons-Returns [] = tt
  read_reasons-Returns (b ∷ bs) =
      Outcome.Returns->>= (k.reason_of b) _ (law.reason_of-Returns b)
        λ _. Outcome.Returns->>= (read_reasons k bs) _ (read_reasons-Returns bs) λ _. tt

  pub read-Returns :
      (h : FixedHeader) (bytes : Bytes)
      → h.fixed_header_len ≤ length bytes
      → Returns (ReasonList.read k h bytes)
  unfolding ReasonList.read has_remaining take_rest
  read-Returns h bytes g = Returns->>= (advance _) _ bytes (advance-Returns _ bytes g) λ _ bs.
      Returns->>= read_u16 _ bs (read_u16-Total bs) λ pkid bs'.
        Returns->>= k.properties_read _ bs' (rw law.same_read (read_properties-Total_of c bs'))
          λ o bs2. Returns->>= (guard _ malformed_packet) _ bs2 (guard-Total _ _ bs2) λ _ bs3.
            Returns->>= (lift (read_reasons k bs3)) _ [] (read_reasons-Returns bs3) λ _ _. tt
