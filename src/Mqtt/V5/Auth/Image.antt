-- ===== src/Mqtt/V5/Auth/Image.antt =====
-- What the properties of src/protocol/src/mqtt/mqttv5/auth.rs are on the wire.
use robustmq.Prelude.{◌≤◌, ◌≡◌, ◌++◌, arith}
use robustmq.Prelude.{length, All}
use robustmq.Mqtt.Bytes.{Bytes}
use robustmq.Mqtt.Writer.{write_mqtt_string, write_mqtt_bytes}
use robustmq.Mqtt.Types.Properties.{AuthProperties}
use robustmq.Mqtt.Wire.{mqtt_bytes, write_mqtt_bytes-image}
use robustmq.Mqtt.V5.PropertyType.{PropertyType}
use robustmq.Mqtt.V5.Fields.{write_option}
use robustmq.Mqtt.V5.Fields.Image.{
  Writes, Writes->>, IsText, IsShort, IsUser, IsSome, option_image, users_image,
  write_option-Writes, write_users-Writes, write_mqtt_string-Writes, length-option_bytes,
  length-users_image, length-append_of, string_arm-Reads, bytes_arm-Reads, user_arm-Reads,
}
use robustmq.Mqtt.V5.Properties.Image.{
  Parses, sized, append-Parses, option-Parses, users-Parses, write_sized-Writes,
}
use robustmq.Mqtt.V5.Properties.Codec.{Codec}
use robustmq.Mqtt.V5.Auth.Properties.{len, write, arms, empty, arms-AreTotal}

abbrev pub image : AuthProperties → Bytes
image p =
    option_image PropertyType.authentication_method mqtt_bytes p.authentication_method
    ++ (option_image PropertyType.authentication_data mqtt_bytes p.authentication_data
        ++ (option_image PropertyType.reason_string mqtt_bytes p.reason_string
            ++ users_image p.user_properties))

-- Texts and data that the wire can hold.
abbrev pub IsValid : AuthProperties → Type 0
IsValid p =
    (IsSome IsText p.authentication_method)
    × (IsSome IsShort p.authentication_data)
    × (IsSome IsText p.reason_string)
    × (All IsUser p.user_properties)

pub length-image : (p : AuthProperties) → length (image p) ≡ len p
unfolding len
length-image p = omega (
  arith,
  length-append_of
      (option_image PropertyType.authentication_method mqtt_bytes p.authentication_method) _ _ _
      (length-option_bytes PropertyType.authentication_method p.authentication_method)
      (length-append_of
        (option_image PropertyType.authentication_data mqtt_bytes p.authentication_data) _ _ _
        (length-option_bytes PropertyType.authentication_data p.authentication_data)
        (length-append_of (option_image PropertyType.reason_string mqtt_bytes p.reason_string) _ _ _
          (length-option_bytes PropertyType.reason_string p.reason_string)
          (length-users_image p.user_properties))),
)

pub write-Writes :
    (p : AuthProperties) → IsValid p → len p ≤ 268435455 → Writes (write p) (sized (image p))
unfolding write
write-Writes p v h = write_sized-Writes (len p) _ (image p) (length-image p) h (
    Writes->>
      (write_option PropertyType.authentication_method write_mqtt_string p.authentication_method) _
      (option_image PropertyType.authentication_method mqtt_bytes p.authentication_method) _
      (write_option-Writes _ _ mqtt_bytes IsText p.authentication_method
        (λ s h. write_mqtt_string-Writes s h.0) v.0)
      (Writes->>
        (write_option PropertyType.authentication_data write_mqtt_bytes p.authentication_data) _
        (option_image PropertyType.authentication_data mqtt_bytes p.authentication_data) _
        (write_option-Writes _ _ mqtt_bytes IsShort p.authentication_data
          (λ s h buffer. write_mqtt_bytes-image s buffer h) v.1)
        (Writes->> (write_option PropertyType.reason_string write_mqtt_string p.reason_string) _
          (option_image PropertyType.reason_string mqtt_bytes p.reason_string) _
          (write_option-Writes _ _ mqtt_bytes IsText p.reason_string
            (λ s h. write_mqtt_string-Writes s h.0) v.2)
          (write_users-Writes p.user_properties v.3))))

pub arms-Parses : (p : AuthProperties) → IsValid p → Parses arms (image p) empty p
unfolding arms empty
arms-Parses p v =
    let s1 : AuthProperties = record empty { authentication_method = p.authentication_method } in
    let s2 : AuthProperties = record s1 { authentication_data = p.authentication_data } in
    let s3 : AuthProperties = record s2 { reason_string = p.reason_string } in
    append-Parses arms
      (option_image PropertyType.authentication_method mqtt_bytes p.authentication_method) _ (empty)
      s1 p
      (option-Parses arms PropertyType.authentication_method mqtt_bytes IsText
        (λ o. record (empty) { authentication_method = o }) p.authentication_method
        (λ x h. string_arm-Reads _ x h) v.0)
      (append-Parses arms
        (option_image PropertyType.authentication_data mqtt_bytes p.authentication_data) _ (s1) s2 p
        (option-Parses arms PropertyType.authentication_data mqtt_bytes IsShort
          (λ o. record (s1) { authentication_data = o }) p.authentication_data
          (λ x h. bytes_arm-Reads _ x) v.1)
        (append-Parses arms (option_image PropertyType.reason_string mqtt_bytes p.reason_string) _
          (s2) s3 p
          (option-Parses arms PropertyType.reason_string mqtt_bytes IsText
            (λ o. record (s2) { reason_string = o }) p.reason_string (λ x h. string_arm-Reads _ x h)
            v.2)
          (users-Parses arms (λ us. record (s3) { user_properties = us }) p.user_properties
            (λ us u h. user_arm-Reads _ u h) v.3)))

abbrev pub codec : Codec AuthProperties
codec = record {
  len = len;
  write = write;
  arms = arms;
  empty = empty;
  image = image;
  IsValid = IsValid;
  length-image = length-image;
  write-Writes = write-Writes;
  arms-Parses = arms-Parses;
  arms-AreTotal = arms-AreTotal;
}
