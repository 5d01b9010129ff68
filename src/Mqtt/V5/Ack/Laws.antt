-- ===== src/Mqtt/V5/Ack/Laws.antt =====
-- The answers of src/protocol/src/mqtt/mqttv5 to a publish, written and read again.
use robustmq.Prelude.{
  ℕ, ◌+◌, ◌≤◌, ◌≡◌, refl, ap, ◌∙◌, sym, Bool, true, false, Option, none, some, [], ◌∷◌, ◌++◌,
  append-nil, arith,
}
use robustmq.Prelude.{length, if◌then◌else◌}
use robustmq.Mqtt.Bytes.{Bytes}
use robustmq.Mqtt.Outcome.{Outcome, ok, Returns}
use robustmq.Mqtt.Buffer.{Buffered, ◌>>=◌, ◌>>◌, pure, lift, Returns->>=, Total, if-Total}
use robustmq.Mqtt.Reader.{advance, read_u8, read_u16}
use robustmq.Mqtt.Reader.Total.{advance-Returns, read_u16-Total, read_u8-Total}
use robustmq.Mqtt.Writer.{put_u8, put_u16, len_len}
use robustmq.Mqtt.Types.Packets.{FixedHeader}
use robustmq.Mqtt.Header.{new}
use robustmq.Mqtt.Header.Check.{frame}
use robustmq.Mqtt.Wire.{u16, header, read_u16-image}
use robustmq.Mqtt.V5.Fields.Image.{
  Emits, Writes-pure, Writes-Emits, pure-Emits, frame-Emits, advance-frame-run, put_u8-Writes,
  put_u16-Writes,
}
use robustmq.Mqtt.V5.Properties.{read_properties, write_or_zero}
use robustmq.Mqtt.V5.Properties.Codec.{
  Codec, options_image, back, IsFine, length-options_image, write_or_zero-Writes,
  read-options_image, length-options_image_pos, read_properties-Total_of,
}
use robustmq.Mqtt.V5.Ack.{Shape, unwrap, is_none, is_short, len, write, read_reason}
use robustmq.Mqtt.V5.Ack

-- The struct holds what it is made of, a reason is read back from its code, and the properties
-- are those of a codec.
pub record IsAck {Packet Reason P : Type 0} (k : Shape Packet Reason P) (c : Codec P) : Type 0 where
  pub make-fields : (p : Packet) → k.make (k.pkid p) (k.reason p) ≡ p
  pub reason_of-code : (r : Reason) → k.reason_of (k.code r) ≡ ok r
  pub is_success_sound : (r : Reason) → k.is_success r ≡ true → r ≡ k.success
  pub reason_of-Returns : (n : ℕ) → Returns (k.reason_of n)
  pub same_len : k.properties_len ≡ c.len
  pub same_write : k.properties_write ≡ c.write
  pub same_read : k.properties_read ≡ read_properties c.arms c.empty

module _ {Packet Reason P : Type 0} (k : Shape Packet Reason P) (c : Codec P)
    (law : IsAck k c) where
  abbrev pub tail : Bool → Reason → Option P → Bytes
  tail true r o = []
  tail false r o = k.code r ∷ options_image c o

  -- The identifier, then the reason and the properties unless they are left out.
  unfoldable pub body : Packet → Reason → Option P → Bytes
  body p r o = u16 (k.pkid p) ++ tail (is_short k r o) r o

  size_of_body :
      (p : Packet) (r : Reason) (o : Option P) (b : Bool)
      → k.reason p ≡ some r
      → is_short k r o ≡ b
      → len k p o ≡ ok (length (u16 (k.pkid p) ++ tail b r o))
  unfolding len unwrap
  size_of_body p r o true e f = rw (e, f) refl
  size_of_body p r o false e f =
      rw (e, f, law.same_len) (rw (length-options_image c o) (ap ok (omega arith)))

  rest_of_write : Reason → Option P → ℕ → ℕ → Bool → Buffered ℕ
  rest_of_write r o count n b =
      if b
      then pure 4
      else (do put_u8 (k.code r); write_or_zero k.properties_write o; pure (1 + count + n))

  rest_of_write-Emits :
      (r : Reason) (o : Option P) (n : ℕ) (b : Bool) (pkid : ℕ)
      → IsFine c o
      → length (u16 pkid ++ tail b r o) ≡ n
      → Emits (rest_of_write r o (len_len n) n b) (tail b r o) (1 + len_len n + n)
  unfolding rest_of_write len_len
  rest_of_write-Emits r o n true pkid v e = rw (sym e) (pure-Emits 4)
  rest_of_write-Emits r o n false pkid v e =
      Writes-Emits (put_u8 (k.code r)) _ (_ ∷ []) (options_image c o) _ (put_u8-Writes (k.code r)) (
        Writes-pure (write_or_zero k.properties_write o) (options_image c o) _
          (rw law.same_write (write_or_zero-Writes c o v)))

  write_tail :
      (p : Packet) (r : Reason) (o : Option P) (b : Bool)
      → k.reason p ≡ some r
      → is_short k r o ≡ b
      → IsFine c o
      → length (u16 (k.pkid p) ++ tail b r o) ≤ 268435455
      → Emits
          (write k p o)
          (frame k.byte1 (u16 (k.pkid p) ++ tail b r o))
          (length (frame k.byte1 (u16 (k.pkid p) ++ tail b r o)))
  unfolding write put_u8 unwrap rest_of_write
  write_tail p r o b e f v h buffer = rw (size_of_body p r o b e f) (
      frame-Emits k.byte1 _ _ (u16 (k.pkid p) ++ tail b r o) refl h
        (Writes-Emits (put_u16 (k.pkid p)) _ (u16 (k.pkid p)) (tail b r o) _
          (put_u16-Writes (k.pkid p))
          (λ rest. rw (e, f) (rest_of_write-Emits r o _ b (k.pkid p) v refl rest)))
        buffer)

  -- A written answer is a frame.
  pub write-Emits :
      (p : Packet) (r : Reason) (o : Option P)
      → k.reason p ≡ some r
      → IsFine c o
      → length (body p r o) ≤ 268435455
      → Emits (write k p o) (frame k.byte1 (body p r o)) (length (frame k.byte1 (body p r o)))
  unfolding body
  write-Emits p r o e v h = write_tail p r o (is_short k r o) e refl v h

  short_is : (r : Reason) (o : Option P) → is_short k r o ≡ true → (r ≡ k.success) × (o ≡ none)
  unfolding is_short is_none
  short_is r none e = (law.is_success_sound r (ground (arith, e)), refl)
  short_is r (some p) e = absurd (ground (arith, e))

  long_reason : ℕ → Buffered (Packet × Option P)
  long_reason pkid = do
    ack_reason ← read_u8
    reason ← lift (k.reason_of ack_reason)
    properties ← k.properties_read
    pure (k.make pkid (some reason), properties)

  read_reason-long :
      (n pkid : ℕ) (bs : Bytes) → 4 ≤ n → read_reason k n pkid bs ≡ long_reason pkid bs
  unfolding read_reason long_reason
  read_reason-long n pkid bs h = ground arith

  long_reason-image :
      (pkid : ℕ) (r : Reason) (o : Option P)
      → IsFine c o
      → long_reason pkid (k.code r ∷ options_image c o) ≡ (ok (k.make pkid (some r), back c o), [])
  unfolding long_reason read_u8
  long_reason-image pkid r o v =
      rw (law.reason_of-code r, law.same_read, sym (append-nil (options_image c o)))
        (rw (read-options_image c o [] v) refl)

  made :
      (p : Packet) (r : Reason) (o : Option P)
      → k.reason p ≡ some r
      → Path
          (Outcome (Packet × Option P) × Bytes)
          (ok (k.make (k.pkid p) (some r), back c o), [])
          (ok (p, back c o), [])
  made p r o e =
      ap (λ x. (ok (x, back c o), [])) (ap (k.make (k.pkid p)) (sym e) ∙ law.make-fields p)

  -- The properties that are read back.
  read_back :
      (p : Packet) (r : Reason) (o : Option P) (b : Bool)
      → k.reason p ≡ some r
      → is_short k r o ≡ b
      → IsFine c o
      → read_reason k (length (u16 (k.pkid p) ++ tail b r o)) (k.pkid p) (tail b r o)
        ≡ (ok (p, back c o), [])
  unfolding read_reason
  read_back p r none true e f v =
      ap (λ x. (ok (k.make (k.pkid p) (some x), none), [])) (sym (short_is r none f).0)
      ∙ made p r none e
  read_back p r (some q) true e f v = absurd (cc ((short_is r (some q) f).1))
  read_back p r o false e f v =
      read_reason-long _ (k.pkid p) _ (omega (arith, length-options_image_pos c o))
      ∙ long_reason-image (k.pkid p) r o v
      ∙ made p r o e

  pub read-frame :
      (p : Packet) (r : Reason) (o : Option P)
      → k.reason p ≡ some r
      → IsFine c o
      → Ack.read k (header k.byte1 (body p r o)) (frame k.byte1 (body p r o)) ≡ ok (p, back c o)
  unfolding Ack.read new body
  read-frame p r o e v = advance-frame-run k.byte1 (body p r o) [] _ _ (
      rw (read_u16-image (k.pkid p) (tail (is_short k r o) r o))
        (read_back p r o (is_short k r o) e refl v))

  read_reason-Total : (n pkid : ℕ) → Total (read_reason k n pkid)
  unfolding read_reason
  read_reason-Total n pkid =
      if-Total _ (pure _) _ (λ _. tt)
        λ bs. Returns->>= read_u8 _ bs (read_u8-Total bs) λ ack_reason bs'.
          Returns->>= (lift (k.reason_of ack_reason)) _ bs' (law.reason_of-Returns ack_reason)
            λ reason.
              if-Total _ (pure _) _ (λ _. tt)
                λ bs''.
                  Returns->>= k.properties_read _ bs''
                    (rw law.same_read (read_properties-Total_of c bs'')) λ _ _. tt

  pub read-Returns :
      (h : FixedHeader) (bytes : Bytes)
      → h.fixed_header_len ≤ length bytes
      → Returns (Ack.read k h bytes)
  unfolding Ack.read
  read-Returns h bytes g = Returns->>= (advance _) _ bytes (advance-Returns _ bytes g) λ _ bs.
      Returns->>= read_u16 _ bs (read_u16-Total bs) λ pkid. read_reason-Total h.remaining_len pkid
