-- ===== src/Mqtt/V4/Connect/Written.antt =====
-- `write` of src/protocol/src/mqtt/mqttv4/connect.rs.
use robustmq.Prelude.{
  ℕ, ◌+◌, ◌≤◌, ◌<◌, ◌≡◌, refl, ap, ◌∙◌, Option, none, some, [], ◌∷◌, ◌++◌, arith,
}
use robustmq.Prelude.{
  if◌then◌else◌, length, set, set-append, length-append, append_assoc, append-nil,
}
use robustmq.Mqtt.Bytes.{Bytes, Text}
use robustmq.Mqtt.Outcome.{ok}
use robustmq.Mqtt.Buffer.{pure, ◌>>◌}
use robustmq.Mqtt.Writer.{put_u8, put_u16, set_byte, len_len}
use robustmq.Mqtt.Types.Packets.{Connect, LastWill, Login}
use robustmq.Mqtt.Header.Image.{var_int, length-var_int}
use robustmq.Mqtt.Header.Check.{frame, length-frame}
use robustmq.Mqtt.Wire.{
  u16, mqtt_bytes, length-mqtt_bytes, write_mqtt_bytes-image, write_mqtt_string-image,
  write_remaining_length-header, append-frame,
}
use robustmq.Mqtt.V4.Connect.{
  mqtt, is_empty, will_len, text_len, login_len, opt_len, len, will_write, write_text, login_write,
  write_opt, write,
}
use robustmq.Mqtt.V4.Connect.Image.{
  clean_flag, will_flag, login_flag, bits, text_bytes, username, password, login_bytes, will_bytes,
  opt_will_flag, flags, body_with, body, IsWritable,
}

will_write-image :
    (w : LastWill) (buffer : Bytes)
    → length w.topic < 65536
    → length w.message < 65536
    → will_write w buffer ≡ (ok (will_flag w.qos w.retain), buffer ++ will_bytes (some w))
unfolding will_write will_flag will_bytes
will_write-image w buffer h k = ground (
  arith,
  write_mqtt_bytes-image w.topic buffer h,
  write_mqtt_bytes-image w.message (buffer ++ mqtt_bytes w.topic) k,
  append_assoc buffer (mqtt_bytes w.topic) (mqtt_bytes w.message),
)

write_text-image :
    (t : Text) (flag : ℕ) (buffer : Bytes)
    → length t < 65536
    → write_text t flag buffer ≡ (ok (if is_empty t then 0 else flag), buffer ++ text_bytes t)
unfolding write_text text_bytes
write_text-image t flag buffer h =
    ground (arith, write_mqtt_string-image t buffer h, append-nil buffer)

login_write-image :
    (l : Login) (buffer : Bytes)
    → length l.username < 65536
    → length l.password < 65536
    → login_write l buffer ≡ (
      ok (login_flag (is_empty l.username) (is_empty l.password)),
      buffer ++ login_bytes (some l),
    )
unfolding login_write login_flag login_bytes username password
login_write-image l buffer h k = ground (
  arith,
  write_text-image l.username 0x80 buffer h,
  write_text-image l.password 0x40 (buffer ++ text_bytes l.username) k,
  append_assoc buffer (text_bytes l.username) (text_bytes l.password),
)

write_opt-will :
    (w : Option LastWill) (buffer : Bytes)
    → opt_len (λ x. length x.topic) w < 65536
    → opt_len (λ x. length x.message) w < 65536
    → write_opt will_write w buffer ≡ (ok (opt_will_flag w), buffer ++ will_bytes w)
unfolding write_opt opt_len opt_will_flag
write_opt-will none buffer h k = unfold will_bytes in ground (arith, append-nil buffer)
write_opt-will (some w) buffer h k = will_write-image w buffer h k

write_opt-login :
    (l : Option Login) (buffer : Bytes)
    → length (username l) < 65536
    → length (password l) < 65536
    → write_opt login_write l buffer
      ≡ (ok (login_flag (is_empty (username l)) (is_empty (password l))), buffer ++ login_bytes l)
unfolding write_opt username password
write_opt-login none buffer h k =
    unfold login_bytes text_bytes is_empty login_flag in ground (arith, append-nil buffer)
write_opt-login (some l) buffer h k = login_write-image l buffer h k

length-text_bytes : (t : Text) → length (text_bytes t) ≡ text_len t
unfolding text_bytes text_len
length-text_bytes t = ground (arith, length-mqtt_bytes t)

length-will_bytes : (w : Option LastWill) → length (will_bytes w) ≡ opt_len will_len w
unfolding will_bytes opt_len will_len
length-will_bytes none = refl
length-will_bytes (some w) = omega (
  arith,
  length-append (mqtt_bytes w.topic) (mqtt_bytes w.message),
  length-mqtt_bytes w.topic,
  length-mqtt_bytes w.message,
)

length-login_bytes : (l : Option Login) → length (login_bytes l) ≡ opt_len login_len l
unfolding opt_len login_len login_bytes username password
length-login_bytes none = unfold text_bytes is_empty in refl
length-login_bytes (some l) = omega (
  arith,
  length-append (text_bytes l.username) (text_bytes l.password),
  length-text_bytes l.username,
  length-text_bytes l.password,
)

length-body_with :
    (f : ℕ) (c : Connect) (l : Option Login) (w : Option LastWill)
    → length (body_with f c l w) ≡ len c l w
unfolding body_with len
length-body_with f c l w = omega (
  arith,
  length-append (mqtt_bytes c.client_id) (will_bytes w ++ login_bytes l),
  length-append (will_bytes w) (login_bytes l),
  length-mqtt_bytes c.client_id,
  length-will_bytes w,
  length-login_bytes l,
)

mqtt_name : (rest : Bytes) → mqtt_bytes mqtt ++ rest ≡ 0 ∷ 4 ∷ 77 ∷ 81 ∷ 84 ∷ 84 ∷ rest
unfolding mqtt_bytes
mqtt_name rest = refl

-- The parts of the body, one behind the other.
parts :
    (start : Bytes) (f : ℕ) (c : Connect) (l : Option Login) (w : Option LastWill)
    → ((((((start ++ mqtt_bytes mqtt) ++ 4 ∷ []) ++ f ∷ []) ++ u16 c.keep_alive)
            ++ mqtt_bytes c.client_id)
          ++ will_bytes w)
        ++ login_bytes l
      ≡ start ++ body_with f c l w
unfolding body_with
parts start f c l w = simp (append_assoc, mqtt_name) refl

-- The index of the flags lies in the frame.
set_flags :
    (n i f : ℕ) (buffer body : Bytes)
    → length body ≡ n
    → 10 ≤ n
    → (set_byte (1 + len_len n + 2 + 4 + 1) f >> pure i) (buffer ++ frame 0x10 body)
      ≡ (ok i, set (buffer ++ frame 0x10 body) (1 + len_len n + 2 + 4 + 1) f)
unfolding set_byte
set_flags n i f buffer body e h =
    ground (arith, length-append buffer (frame 0x10 body), length-frame 0x10 body, ap len_len e)

framed :
    (f : ℕ) (c : Connect) (l : Option Login) (w : Option LastWill) (buffer : Bytes)
    → (buffer ++ 0x10 ∷ var_int (len c l w)) ++ body_with f c l w
      ≡ buffer ++ frame 0x10 (body_with f c l w)
framed f c l w buffer =
    rw (← length-body_with f c l w) (append-frame 0x10 buffer (body_with f c l w))

-- `write` on any buffer: the frame is appended with the clean-session flag alone, and then the
-- byte at an index counted from the start of the whole buffer is set to the flags.
pub write_lem :
    (c : Connect) (l : Option Login) (w : Option LastWill) (buffer : Bytes)
    → IsWritable c l w
    → len c l w ≤ 268435455
    → write c l w buffer ≡ (
      ok (len c l w),
      set
          (buffer ++ frame 0x10 (body_with (clean_flag c.clean_session) c l w))
          (1 + len_len (len c l w) + 2 + 4 + 1)
          (flags c l w),
    )
unfolding write put_u8 put_u16 clean_flag bits flags
write_lem c l w buffer h k =
    let n = len c l w in
    let f : ℕ = if c.clean_session then 0x02 else 0 in
    let start = buffer ++ 0x10 ∷ var_int n in
    let fixed = (((start ++ mqtt_bytes mqtt) ++ 4 ∷ []) ++ f ∷ []) ++ u16 c.keep_alive in
    let client = fixed ++ mqtt_bytes c.client_id in
    rw
      (
        write_remaining_length-header 0x10 n buffer k,
        write_mqtt_string-image mqtt start (omega arith),
        write_mqtt_string-image c.client_id fixed h.client_fits,
        write_opt-will w client h.topic_fits h.message_fits,
        write_opt-login l (client ++ will_bytes w) h.username_fits h.password_fits,
        parts start f c l w,
        framed f c l w buffer,
      )
      (set_flags n n (flags c l w) buffer (body_with f c l w) (length-body_with f c l w)
        (unfold len in omega arith))

set_in_body :
    (g f : ℕ) (c : Connect) (l : Option Login) (w : Option LastWill)
    → set (body_with g c l w) 7 f ≡ body_with f c l w
unfolding body_with
set_in_body g f c l w = refl

set_in_frame :
    (g f : ℕ) (c : Connect) (l : Option Login) (w : Option LastWill)
    → set (frame 0x10 (body_with g c l w)) (1 + len_len (len c l w) + 2 + 4 + 1) f
      ≡ frame 0x10 (body_with f c l w)
unfolding frame
set_in_frame g f c l w =
    let prefix = 0x10 ∷ var_int (len c l w) in
    let index : 1 + len_len (len c l w) + 2 + 4 + 1 ≡ length prefix + 7 =
      omega (arith, length-var_int (len c l w)) in
    rw (length-body_with g c l w, length-body_with f c l w, index)
      (set-append prefix (body_with g c l w) 7 f ∙ ap (◌++◌ prefix) (set_in_body g f c l w))

-- In an empty buffer the index is that of the flags: `write` leaves the whole frame.
pub write-frame :
    (c : Connect) (l : Option Login) (w : Option LastWill)
    → IsWritable c l w
    → len c l w ≤ 268435455
    → write c l w [] ≡ (ok (len c l w), frame 0x10 (body c l w))
unfolding body
write-frame c l w h k =
    write_lem c l w [] h k
    ∙ ap (λ b. (ok (len c l w), b)) (set_in_frame (clean_flag c.clean_session) (flags c l w) c l w)

pub length-body :
    (c : Connect) (l : Option Login) (w : Option LastWill) → length (body c l w) ≡ len c l w
unfolding body
length-body c l w = length-body_with (flags c l w) c l w
