-- ===== src/Mqtt/V5/Connect.antt =====
-- src/protocol/src/mqtt/mqttv5/connect.rs.
pub mod Properties
pub mod Image
pub mod WillProperties
pub mod WillImage
pub mod Total
use robustmq.Prelude.{
  ℕ, ◌+◌, ◌*◌, ◌/◌, bit_and, bit_or, Bool, true, false, not, ◌&&◌, Option, none, some, [], ◌∷◌,
}
use robustmq.Prelude.{◌==◌, if◌then◌else◌, length}
use robustmq.Mqtt.Bytes.{Bytes, Text, bytes_eq}
use robustmq.Mqtt.Outcome.{
  Outcome, invalid_protocol, invalid_protocol_level, incorrect_packet_format,
}
use robustmq.Mqtt.Buffer.{Buffered, ◌>>=◌, ◌>>◌, run, guard, pure, fail, lift}
use robustmq.Mqtt.Reader.{advance, read_u8, read_u16, read_mqtt_bytes, read_mqtt_string}
use robustmq.Mqtt.Writer.{
  put_u8, put_u16, set_byte, write_remaining_length, write_mqtt_bytes, write_mqtt_string,
}
use robustmq.Mqtt.Types.Packets.{FixedHeader, Connect, LastWill, Login}
use robustmq.Mqtt.Types.Properties.{ConnectProperties, LastWillProperties}
use robustmq.Mqtt.Qos.{to_u8, qos_or_error}
use robustmq.Mqtt.V5.Properties.{len_of, write_or_zero, read_properties}
use Properties as Fields

-- "MQTT".
abbrev pub mqtt : Text
mqtt = 77 ∷ 81 ∷ 84 ∷ 84 ∷ []

unfoldable pub is_empty : Text → Bool
is_empty [] = true
is_empty (c ∷ cs) = false

unfoldable pub will_len : LastWill → Option LastWillProperties → ℕ
will_len w properties =
    len_of WillProperties.len properties + 2 + length w.topic + 2 + length w.message

text_len : Text → ℕ
unfolding is_empty
text_len t = if is_empty t then 0 else 2 + length t

unfoldable pub login_len : Login → ℕ
unfolding text_len
login_len l = text_len l.username + text_len l.password

unfoldable pub opt_len : {A : Type 0} → (A → ℕ) → Option A → ℕ
opt_len f none = 0
opt_len f (some a) = f a

-- The block that computes `len` in `write`.
unfoldable pub len :
    Connect
    → Option ConnectProperties
    → Option LastWill
    → Option LastWillProperties
    → Option Login
    → ℕ
unfolding will_len login_len opt_len
len connect properties will will_properties login =
    2
    + length mqtt
    + 1
    + 1
    + 2
    + len_of Fields.len properties
    + (2 + length connect.client_id)
    + opt_len (λ w. will_len w will_properties) will
    + opt_len login_len login

-- `will::read`.
unfoldable pub will_read : ℕ → Buffered (Option LastWill × Option LastWillProperties)
unfolding qos_or_error
will_read connect_flags =
    if bit_and connect_flags 0b100 == 0
    then (if not (bit_and connect_flags 0b0011_1000 == 0)
        then fail incorrect_packet_format
        else pure (none, none))
    else (do
      properties ← read_properties WillProperties.arms WillProperties.empty
      will_topic ← read_mqtt_bytes
      will_message ← read_mqtt_bytes
      will_qos ← lift (qos_or_error (bit_and connect_flags 0b11000 / 8))
      pure (
        some (record {
          topic = will_topic;
          message = will_message;
          qos = will_qos;
          retain = not (bit_and connect_flags 0b0010_0000 == 0);
        }),
        properties,
      ))

-- A text that a flag announces.
unfoldable pub flagged_text : ℕ → Buffered Text
flagged_text flag = if flag == 0 then pure [] else read_mqtt_string

unfoldable pub login_of : Text → Text → Option Login
unfolding is_empty
login_of username password =
    if is_empty username && is_empty password
    then none
    else some (record { username = username; password = password })

-- `login::read`.
unfoldable pub login_read : ℕ → Buffered (Option Login)
unfolding flagged_text login_of
login_read connect_flags = do
  username ← flagged_text (bit_and connect_flags 0b1000_0000)
  password ← flagged_text (bit_and connect_flags 0b0100_0000)
  pure (login_of username password)

-- `ConnectReadOutcome`.
pub record ConnectReadOutcome : Type 0 where
  pub protocol_version : ℕ
  pub connect : Connect
  pub properties : Option ConnectProperties
  pub last_will : Option LastWill
  pub last_will_properties : Option LastWillProperties
  pub login : Option Login

-- What follows the protocol level.
unfoldable pub read_rest : ℕ → Buffered ConnectReadOutcome
unfolding will_read login_read
read_rest protocol_level = do
  connect_flags ← read_u8
  let clean_session = not (bit_and connect_flags 0b10 == 0)
  keep_alive ← read_u16
  properties ← read_properties Fields.arms Fields.empty
  client_id ← read_mqtt_string
  (will, will_properties) ← will_read connect_flags
  login ← login_read connect_flags
  pure (record {
    protocol_version = protocol_level;
    connect = record {
      keep_alive = keep_alive;
      client_id = client_id;
      clean_session = clean_session;
    };
    properties = properties;
    last_will = will;
    last_will_properties = will_properties;
    login = login;
  })

unfoldable pub read : FixedHeader → Bytes → Outcome ConnectReadOutcome
unfolding read_rest bytes_eq
read h = run do
  advance h.fixed_header_len
  protocol_name ← read_mqtt_string
  protocol_level ← read_u8
  guard (bytes_eq protocol_name mqtt) invalid_protocol
  guard (protocol_level == 5) (invalid_protocol_level protocol_level)
  read_rest protocol_level

-- `will::write` returns the flags that it sets; so does `login::write`.
unfoldable pub will_write : LastWill → Option LastWillProperties → Buffered ℕ
unfolding to_u8
will_write will properties = do
  let connect_flags = bit_or 0x04 (to_u8 will.qos * 8)
  let with_retain = if will.retain then bit_or connect_flags 0x20 else connect_flags
  write_or_zero WillProperties.write properties
  write_mqtt_bytes will.topic
  write_mqtt_bytes will.message
  pure with_retain

write_text : Text → ℕ → Buffered ℕ
unfolding is_empty
write_text t flag = if is_empty t then pure 0 else (do write_mqtt_string t; pure flag)

unfoldable pub login_write : Login → Buffered ℕ
unfolding write_text
login_write login = do
  username_flag ← write_text login.username 0x80
  password_flag ← write_text login.password 0x40
  pure (bit_or username_flag password_flag)

write_opt : {A : Type 0} → (A → Buffered ℕ) → Option A → Buffered ℕ
write_opt w none = pure 0
write_opt w (some a) = w a

-- The flags are written as far as they are known, and again, at an index counted from the start
-- of the buffer, when the will and the login are there.
unfoldable pub write :
    Connect
    → Option ConnectProperties
    → Option LastWill
    → Option LastWillProperties
    → Option Login
    → Buffered ℕ
unfolding len will_write login_write write_opt
write connect properties will will_properties login = do
  put_u8 0b0001_0000
  count ← write_remaining_length (len connect properties will will_properties login)
  write_mqtt_string mqtt
  put_u8 0x05
  let flags_index = 1 + count + 2 + 4 + 1
  let clean_flag : ℕ = if connect.clean_session then 0x02 else 0
  put_u8 clean_flag
  put_u16 connect.keep_alive
  write_or_zero Fields.write properties
  write_mqtt_string connect.client_id
  will_flags ← write_opt (λ w. will_write w will_properties) will
  login_flags ← write_opt login_write login
  set_byte flags_index (bit_or (bit_or clean_flag will_flags) login_flags)
  pure (len connect properties will will_properties login)
