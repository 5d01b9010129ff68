-- ===== src/Mqtt/V4/Connect/RoundTrip.antt =====
-- `read` of src/protocol/src/mqtt/mqttv4/connect.rs on what `write` puts in an empty buffer.
use robustmq.Prelude.{
  ℕ, ◌/◌, ◌≡◌, refl, sym, ap, ◌∙◌, bit_and, Bool, true, false, not, Option, none, some, [], ◌∷◌,
  ◌++◌, arith,
}
use robustmq.Prelude.{◌==◌, append_assoc, append-nil}
use robustmq.Mqtt.Bytes.{Bytes, Text, is_utf8, bytes_eq}
use robustmq.Mqtt.Outcome.{ok}
use robustmq.Mqtt.Reader.{read_u8, read_utf8_bytes}
use robustmq.Mqtt.Types.Codes.{Qos}
use robustmq.Mqtt.Types.Packets.{Connect, LastWill, Login}
use robustmq.Mqtt.Qos.{to_u8, qos_or_error}
use robustmq.Mqtt.Header.{new}
use robustmq.Mqtt.Header.Check.{frame}
use robustmq.Mqtt.Wire.{
  u16, mqtt_bytes, header, read_u16-image, read_mqtt_bytes-image, read_utf8_bytes-image,
  advance-frame,
}
use robustmq.Mqtt.V4.Connect.{
  mqtt, is_empty, will_read, flagged_text, login_of, login_read, read_rest, read,
}
use robustmq.Mqtt.V4.Connect.Image.{
  clean_flag, will_flag, login_flag, bits, text_bytes, username, password, login_bytes, will_bytes,
  opt_will_flag, flags, body, IsWritable, after_flags, body_lem,
}

-- What `read` finds in the flags where there is no will.
bits_no_will :
    (c u p : Bool)
    → let f = bits c 0 (login_flag u p) in
      (not (bit_and f 0b10 == 0) ≡ c)
      × ((bit_and f 0b1000_0000 == 0) ≡ u)
      × ((bit_and f 0b0100_0000 == 0) ≡ p)
      × ((bit_and f 0b100 == 0) ≡ true)
      × ((bit_and f 0b0011_1000 == 0) ≡ true)
unfolding bits clean_flag login_flag
bits_no_will c u p = ground arith

-- And where there is one: the QoS is there, and bit 6 is that of the password.
bits_will :
    (c : Bool) (q : Qos) (r u p : Bool)
    → let f = bits c (will_flag q r) (login_flag u p) in
      (not (bit_and f 0b10 == 0) ≡ c)
      × ((bit_and f 0b1000_0000 == 0) ≡ u)
      × ((bit_and f 0b0100_0000 == 0) ≡ p)
      × ((bit_and f 0b100 == 0) ≡ false)
      × (qos_or_error (bit_and f 0b11000 / 8) ≡ ok q)
unfolding bits clean_flag will_flag login_flag to_u8 qos_or_error
bits_will c q r u p = ground arith

flagged_text-image :
    (flag : ℕ) (t rest : Text)
    → (flag == 0) ≡ is_empty t
    → is_utf8 t ≡ true
    → flagged_text flag (text_bytes t ++ rest) ≡ (ok t, rest)
unfolding flagged_text text_bytes is_empty
flagged_text-image flag [] rest e h = rw e refl
flagged_text-image flag (c ∷ cs) rest e h = rw e (read_utf8_bytes-image (c ∷ cs) rest h)

login_read-image :
    (flags : ℕ) (l : Option Login) (rest : Bytes)
    → (bit_and flags 0b1000_0000 == 0) ≡ is_empty (username l)
    → (bit_and flags 0b0100_0000 == 0) ≡ is_empty (password l)
    → is_utf8 (username l) ≡ true
    → is_utf8 (password l) ≡ true
    → login_read flags (login_bytes l ++ rest) ≡ (ok (login_of (username l) (password l)), rest)
unfolding login_read login_bytes
login_read-image flags l rest u p hu hp =
    rw
      (
        append_assoc (text_bytes (username l)) (text_bytes (password l)) rest,
        flagged_text-image (bit_and flags 0b1000_0000) (username l)
            (text_bytes (password l) ++ rest) u hu,
        flagged_text-image (bit_and flags 0b0100_0000) (password l) rest p hp,
      )
      refl

login_read-image_end :
    (flags : ℕ) (l : Option Login)
    → (bit_and flags 0b1000_0000 == 0) ≡ is_empty (username l)
    → (bit_and flags 0b0100_0000 == 0) ≡ is_empty (password l)
    → is_utf8 (username l) ≡ true
    → is_utf8 (password l) ≡ true
    → login_read flags (login_bytes l) ≡ (ok (login_of (username l) (password l)), [])
login_read-image_end flags l u p hu hp =
    ap (login_read flags) (sym (append-nil (login_bytes l))) ∙ login_read-image flags l [] u p hu hp

-- The will that is read back: its retain flag is whether there is a password.
unfoldable pub will_back : Option Login → Option LastWill → Option LastWill
unfolding is_empty password
will_back l none = none
will_back l (some w) = some (record w { retain = not (is_empty (password l)) })

-- What `read` uses of the flags.
flags_read :
    (c : Connect) (l : Option Login) (w : Option LastWill)
    → let f = flags c l w in
      (not (bit_and f 0b10 == 0) ≡ c.clean_session)
      × ((bit_and f 0b1000_0000 == 0) ≡ is_empty (username l))
      × ((bit_and f 0b0100_0000 == 0) ≡ is_empty (password l))
unfolding flags opt_will_flag
flags_read c l none =
    let h = bits_no_will c.clean_session (is_empty (username l)) (is_empty (password l)) in
    (h.0, h.1, h.2)
flags_read c l (some w) =
    let h =
      bits_will c.clean_session w.qos w.retain (is_empty (username l)) (is_empty (password l)) in
    (h.0, h.1, h.2)

will_read-image :
    (c : Connect) (l : Option Login) (w : Option LastWill) (rest : Bytes)
    → will_read (flags c l w) (will_bytes w ++ rest) ≡ (ok (will_back l w), rest)
unfolding will_read will_bytes will_back flags opt_will_flag
will_read-image c l none rest =
    let h = bits_no_will c.clean_session (is_empty (username l)) (is_empty (password l)) in
    rw (h.3, h.4) refl
will_read-image c l (some w) rest =
    let h =
      bits_will c.clean_session w.qos w.retain (is_empty (username l)) (is_empty (password l)) in
    rw
      (
        h.3,
        append_assoc (mqtt_bytes w.topic) (mqtt_bytes w.message) rest,
        read_mqtt_bytes-image w.topic (mqtt_bytes w.message ++ rest),
        read_mqtt_bytes-image w.message rest,
        h.4,
        h.2,
      )
      refl

mqtt-utf8 : is_utf8 mqtt ≡ true
unfolding is_utf8
mqtt-utf8 = refl

-- From the protocol name on.
read_body-image :
    (c : Connect) (l : Option Login) (w : Option LastWill)
    → IsWritable c l w
    → (read_rest 4 (
        flags c l w
        ∷ (u16 c.keep_alive ++ (mqtt_bytes c.client_id ++ (will_bytes w ++ login_bytes l))))).0
      ≡ ok (4, c, login_of (username l) (password l), will_back l w)
unfolding read_rest read_u8
read_body-image c l w h =
    let (clean, u, p) = flags_read c l w in
    rw
      (
        read_u16-image c.keep_alive (mqtt_bytes c.client_id ++ (will_bytes w ++ login_bytes l)),
        read_utf8_bytes-image c.client_id (will_bytes w ++ login_bytes l) h.client_utf8,
        will_read-image c l w (login_bytes l),
        clean,
        login_read-image_end (flags c l w) l u p h.username_utf8 h.password_utf8,
      )
      refl

name_read : (rest : Bytes) → read_utf8_bytes (0 ∷ 4 ∷ 77 ∷ 81 ∷ 84 ∷ 84 ∷ rest) ≡ (ok mqtt, rest)
unfolding mqtt_bytes
name_read rest = read_utf8_bytes-image mqtt rest mqtt-utf8

-- `read` on what `write` puts in an empty buffer: the packet, but for the retain flag of its
-- will, and with no login where both texts are empty.
pub read-frame :
    (c : Connect) (l : Option Login) (w : Option LastWill)
    → IsWritable c l w
    → read (header 0x10 (body c l w)) (frame 0x10 (body c l w))
      ≡ ok (4, c, login_of (username l) (password l), will_back l w)
unfolding read read_u8 bytes_eq new
read-frame c l w h = ground (
  arith,
  advance-frame 0x10 (body c l w),
  body_lem c l w,
  name_read (4 ∷ flags c l w ∷ after_flags c l w),
  read_body-image c l w h,
)
