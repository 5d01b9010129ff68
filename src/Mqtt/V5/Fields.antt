-- ===== src/Mqtt/V5/Fields.antt =====
-- The steps that the `properties` modules of src/protocol/src/mqtt/mqttv5 are made of: a property that
-- may be absent is measured, written, and read in one arm of a match.
pub mod Total
pub mod Image
use robustmq.Prelude.{ℕ, ◌+◌, ◌/◌, ◌%◌, List, [], ◌∷◌, Option, none, some, ◌++◌}
use robustmq.Prelude.{length}
use robustmq.Mqtt.Bytes.{Bytes, Text}
use robustmq.Mqtt.Outcome.{ok}
use robustmq.Mqtt.Buffer.{Buffered, ◌>>=◌, ◌>>◌, pure}
use robustmq.Mqtt.Reader.{advance, read_u8, read_u16, read_u32, read_mqtt_bytes, read_mqtt_string}
use robustmq.Mqtt.Writer.{
  put_u8, put_u16, put_slice, write_mqtt_bytes, write_mqtt_string, write_remaining_length, len_len,
}
use robustmq.Mqtt.Header.{parse_length}
use robustmq.Mqtt.V5.PropertyType.{PropertyType, property_u8}

-- `if properties.field.is_some() { len += 1 + size; }`.
unfoldable pub len_of_size : {A : Type 0} → ℕ → Option A → ℕ
len_of_size size none = 0
len_of_size size (some _) = 1 + size

-- `if let Some(s) = &properties.field { len += 1 + 2 + s.len(); }`.
unfoldable pub len_of_bytes : Option Bytes → ℕ
len_of_bytes none = 0
len_of_bytes (some s) = 1 + 2 + length s

-- `len += 1 + 2 + key.len() + 2 + value.len();` for each user property.
unfoldable pub len_of_users : List (Text × Text) → ℕ
len_of_users [] = 0
len_of_users ((key, value) ∷ rest) = 1 + 2 + length key + 2 + length value + len_of_users rest

-- `len += 1 + len_len(*id);`.
unfoldable pub len_of_identifier : Option ℕ → ℕ
len_of_identifier none = 0
len_of_identifier (some id) = 1 + len_len id

unfoldable pub len_of_identifiers : List ℕ → ℕ
len_of_identifiers [] = 0
len_of_identifiers (id ∷ rest) = 1 + len_len id + len_of_identifiers rest

unfoldable pub put_u32 : ℕ → Buffered (Unit {0})
put_u32 n = put_slice (n / 16777216 ∷ n / 65536 % 256 ∷ n / 256 % 256 ∷ n % 256 ∷ [])

-- `if let Some(x) = field { buffer.put_u8(type as u8); put(x); }`.
unfoldable pub write_option :
    {A : Type 0} → PropertyType → (A → Buffered (Unit {0})) → Option A → Buffered (Unit {0})
write_option type put none = pure tt
write_option type put (some x) = do put_u8 (property_u8 type); put x

unfoldable pub write_users : List (Text × Text) → Buffered (Unit {0})
write_users [] = pure tt
write_users ((key, value) ∷ rest) = do
  put_u8 (property_u8 PropertyType.user_property)
  write_mqtt_string key
  write_mqtt_string value
  write_users rest

unfoldable pub write_identifier : ℕ → Buffered (Unit {0})
write_identifier id = write_remaining_length id >>= λ _. pure tt

unfoldable pub write_identifiers : List ℕ → Buffered (Unit {0})
unfolding write_identifier
write_identifiers [] = pure tt
write_identifiers (id ∷ rest) = do
  put_u8 (property_u8 PropertyType.subscription_identifier)
  write_identifier id
  write_identifiers rest

-- An arm reads a value, and returns the properties with it and what the cursor moves by.
unfoldable pub u8_arm : {P : Type 0} → (ℕ → P) → Buffered (P × ℕ)
u8_arm f = do n ← read_u8; pure (f n, 1)

unfoldable pub u16_arm : {P : Type 0} → (ℕ → P) → Buffered (P × ℕ)
u16_arm f = do n ← read_u16; pure (f n, 2)

unfoldable pub u32_arm : {P : Type 0} → (ℕ → P) → Buffered (P × ℕ)
u32_arm f = do n ← read_u32; pure (f n, 4)

unfoldable pub string_arm : {P : Type 0} → (Text → P) → Buffered (P × ℕ)
string_arm f = do s ← read_mqtt_string; pure (f s, 2 + length s)

unfoldable pub bytes_arm : {P : Type 0} → (Bytes → P) → Buffered (P × ℕ)
bytes_arm f = do s ← read_mqtt_bytes; pure (f s, 2 + length s)

unfoldable pub user_arm : {P : Type 0} → (Text × Text → P) → Buffered (P × ℕ)
user_arm f = do
  key ← read_mqtt_string
  value ← read_mqtt_string
  pure (f (key, value), 2 + length key + 2 + length value)

-- `length(bytes.iter())` looks at the stream without taking from it.
unfoldable pub peek_length : Buffered (ℕ × ℕ)
peek_length bs = (parse_length bs, bs)

-- The source moves the cursor by one more than the identifier takes.
unfoldable pub identifier_arm : {P : Type 0} → (ℕ → P) → Buffered (P × ℕ)
unfolding peek_length
identifier_arm f = do (id_len, id) ← peek_length; advance id_len; pure (f id, 1 + id_len)
