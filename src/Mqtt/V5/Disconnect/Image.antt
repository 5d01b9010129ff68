-- ===== src/Mqtt/V5/Disconnect/Image.antt =====
-- What the properties of src/protocol/src/mqtt/mqttv5/disconnect.rs are on the wire.
use robustmq.Prelude.{◌≤◌, ◌≡◌, refl, ◌++◌, arith}
use robustmq.Prelude.{length, All}
use robustmq.Mqtt.Bytes.{Bytes}
use robustmq.Mqtt.Writer.{write_mqtt_string}
use robustmq.Mqtt.Types.Properties.{DisconnectProperties}
use robustmq.Mqtt.Wire.{mqtt_bytes}
use robustmq.Mqtt.V5.PropertyType.{PropertyType}
use robustmq.Mqtt.V5.Fields.{put_u32, write_option, write_users}
use robustmq.Mqtt.V5.Fields.Image.{
  IsSome-unit, Writes, Writes->>, IsText, IsUser, IsSome, u32, option_image, users_image,
  write_option-Writes, write_users-Writes, put_u32-Writes, write_mqtt_string-Writes,
  length-option_size, length-option_bytes, length-users_image, length-append_of, u32_arm-Reads,
  string_arm-Reads, user_arm-Reads,
}
use robustmq.Mqtt.V5.Properties.Image.{
  Parses, sized, append-Parses, option-Parses, users-Parses, write_sized-Writes,
}
use robustmq.Mqtt.V5.Properties.Codec.{Codec}
use robustmq.Mqtt.V5.Disconnect.Properties.{len, write, arms, empty, arms-AreTotal}

abbrev pub image : DisconnectProperties → Bytes
image p =
    option_image PropertyType.session_expiry_interval u32 p.session_expiry_interval
    ++ (option_image PropertyType.reason_string mqtt_bytes p.reason_string
        ++ (users_image p.user_properties
            ++ option_image PropertyType.server_reference mqtt_bytes p.server_reference))

-- Texts and data that the wire can hold.
abbrev pub IsValid : DisconnectProperties → Type 0
IsValid p =
    (IsSome IsText p.reason_string)
    × (All IsUser p.user_properties)
    × (IsSome IsText p.server_reference)

pub length-image : (p : DisconnectProperties) → length (image p) ≡ len p
unfolding len
length-image p = omega (
  arith,
  length-append_of (option_image PropertyType.session_expiry_interval u32 p.session_expiry_interval)
      _ _ _
      (length-option_size 4 PropertyType.session_expiry_interval u32 p.session_expiry_interval
        (λ _. refl))
      (length-append_of (option_image PropertyType.reason_string mqtt_bytes p.reason_string) _ _ _
        (length-option_bytes PropertyType.reason_string p.reason_string)
        (length-append_of (users_image p.user_properties) _ _ _
          (length-users_image p.user_properties)
          (length-option_bytes PropertyType.server_reference p.server_reference))),
)

pub write-Writes :
    (p : DisconnectProperties) → IsValid p → len p ≤ 268435455 → Writes (write p) (sized (image p))
unfolding write
write-Writes p v h = write_sized-Writes (len p) _ (image p) (length-image p) h (
    Writes->> (write_option PropertyType.session_expiry_interval put_u32 p.session_expiry_interval)
      _ (option_image PropertyType.session_expiry_interval u32 p.session_expiry_interval) _
      (write_option-Writes _ _ u32 (λ _. Unit) p.session_expiry_interval (λ n _. put_u32-Writes n)
        (IsSome-unit p.session_expiry_interval))
      (Writes->> (write_option PropertyType.reason_string write_mqtt_string p.reason_string) _
        (option_image PropertyType.reason_string mqtt_bytes p.reason_string) _
        (write_option-Writes _ _ mqtt_bytes IsText p.reason_string
          (λ s h. write_mqtt_string-Writes s h.0) v.0)
        (Writes->> (write_users p.user_properties) _ (users_image p.user_properties) _
          (write_users-Writes p.user_properties v.1)
          (write_option-Writes _ _ mqtt_bytes IsText p.server_reference
            (λ s h. write_mqtt_string-Writes s h.0) v.2))))

pub arms-Parses : (p : DisconnectProperties) → IsValid p → Parses arms (image p) empty p
unfolding arms empty
arms-Parses p v =
    let s1 : DisconnectProperties = record empty {
      session_expiry_interval = p.session_expiry_interval;
    } in
    let s2 : DisconnectProperties = record s1 { reason_string = p.reason_string } in
    let s3 : DisconnectProperties = record s2 { user_properties = p.user_properties } in
    append-Parses arms
      (option_image PropertyType.session_expiry_interval u32 p.session_expiry_interval) _ (empty) s1
      p
      (option-Parses arms PropertyType.session_expiry_interval u32 (λ _. Unit)
        (λ o. record (empty) { session_expiry_interval = o }) p.session_expiry_interval
        (λ x _. u32_arm-Reads _ x) (IsSome-unit p.session_expiry_interval))
      (append-Parses arms (option_image PropertyType.reason_string mqtt_bytes p.reason_string) _
        (s1) s2 p
        (option-Parses arms PropertyType.reason_string mqtt_bytes IsText
          (λ o. record (s1) { reason_string = o }) p.reason_string (λ x h. string_arm-Reads _ x h)
          v.0)
        (append-Parses arms (users_image p.user_properties) _ (s2) s3 p
          (users-Parses arms (λ us. record (s2) { user_properties = us }) p.user_properties
            (λ us u h. user_arm-Reads _ u h) v.1)
          (option-Parses arms PropertyType.server_reference mqtt_bytes IsText
            (λ o. record (s3) { server_reference = o }) p.server_reference
            (λ x h. string_arm-Reads _ x h) v.2)))

abbrev pub codec : Codec DisconnectProperties
codec = record {
  len = len;
  write = write;
  arms = arms;
  empty = empty;
  image = image;
  IsValid = IsValid;
  length-image = length-image;
  write-Writes = write-Writes;
  arms-Parses = arms-Parses;
  arms-AreTotal = arms-AreTotal;
}
