-- ===== src/Mqtt/V4/Connect/Image.antt =====
-- What `write` of src/protocol/src/mqtt/mqttv4/connect.rs puts in an empty buffer.
use robustmq.Prelude.{ℕ, ◌*◌, ◌<◌, ◌≡◌, refl, bit_or, Bool, true, Option, none, some, [], ◌∷◌, ◌++◌}
use robustmq.Prelude.{if◌then◌else◌, length}
use robustmq.Mqtt.Bytes.{Bytes, Text, is_utf8}
use robustmq.Mqtt.Types.Codes.{Qos}
use robustmq.Mqtt.Types.Packets.{Connect, LastWill, Login}
use robustmq.Mqtt.Qos.{to_u8}
use robustmq.Mqtt.Wire.{u16, mqtt_bytes}
use robustmq.Mqtt.V4.Connect.{is_empty, opt_len}

-- The flags.
unfoldable pub clean_flag : Bool → ℕ
clean_flag c = if c then 0x02 else 0

unfoldable pub will_flag : Qos → Bool → ℕ
will_flag q r = if r then bit_or (bit_or 0x04 (to_u8 q * 8)) 0x20 else bit_or 0x04 (to_u8 q * 8)

unfoldable pub login_flag : Bool → Bool → ℕ
login_flag no_user no_password =
    bit_or (if no_user then 0 else 0x80) (if no_password then 0 else 0x40)

unfoldable pub bits : Bool → ℕ → ℕ → ℕ
bits c w l = bit_or (bit_or (clean_flag c) w) l

-- A text that stands on the wire only if it is not empty.
unfoldable pub text_bytes : Text → Bytes
text_bytes t = if is_empty t then [] else mqtt_bytes t

unfoldable pub username : Option Login → Text
username none = []
username (some l) = l.username

unfoldable pub password : Option Login → Text
password none = []
password (some l) = l.password

unfoldable pub login_bytes : Option Login → Bytes
login_bytes l = text_bytes (username l) ++ text_bytes (password l)

unfoldable pub will_bytes : Option LastWill → Bytes
will_bytes none = []
will_bytes (some w) = mqtt_bytes w.topic ++ mqtt_bytes w.message

unfoldable pub opt_will_flag : Option LastWill → ℕ
opt_will_flag none = 0
opt_will_flag (some w) = will_flag w.qos w.retain

-- The flags of a packet: the flag bits of its parts.
unfoldable pub flags : Connect → Option Login → Option LastWill → ℕ
flags c l w =
    bits c.clean_session (opt_will_flag w)
      (login_flag (is_empty (username l)) (is_empty (password l)))

-- The body of the packet, with `f` in the place of the flags.
unfoldable pub body_with : ℕ → Connect → Option Login → Option LastWill → Bytes
body_with f c l w =
    0
    ∷ 4
    ∷ 77
    ∷ 81
    ∷ 84
    ∷ 84
    ∷ 4
    ∷ f
    ∷ (u16 c.keep_alive ++ (mqtt_bytes c.client_id ++ (will_bytes w ++ login_bytes l)))

unfoldable pub body : Connect → Option Login → Option LastWill → Bytes
unfolding body_with flags
body c l w = body_with (flags c l w) c l w

-- Texts in UTF-8, and each field short enough for a 16-bit length.
pub record IsWritable (c : Connect) (l : Option Login) (w : Option LastWill) : Type 0 where
  pub client_fits : length c.client_id < 65536
  pub client_utf8 : is_utf8 c.client_id ≡ true
  pub username_fits : length (username l) < 65536
  pub username_utf8 : is_utf8 (username l) ≡ true
  pub password_fits : length (password l) < 65536
  pub password_utf8 : is_utf8 (password l) ≡ true
  pub topic_fits : opt_len (λ x. length x.topic) w < 65536
  pub message_fits : opt_len (λ x. length x.message) w < 65536

-- What follows the flags.
abbrev pub after_flags : Connect → Option Login → Option LastWill → Bytes
after_flags c l w = u16 c.keep_alive ++ (mqtt_bytes c.client_id ++ (will_bytes w ++ login_bytes l))

pub body_lem :
    (c : Connect) (l : Option Login) (w : Option LastWill)
    → body c l w ≡ 0 ∷ 4 ∷ 77 ∷ 81 ∷ 84 ∷ 84 ∷ 4 ∷ flags c l w ∷ after_flags c l w
unfolding body body_with
body_lem c l w = refl
