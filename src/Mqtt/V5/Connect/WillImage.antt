-- ===== src/Mqtt/V5/Connect/WillImage.antt =====
-- What the properties of src/protocol/src/mqtt/mqttv5/connect.rs, those of the will, are on the wire.
use robustmq.Prelude.{◌≤◌, ◌≡◌, refl, [], ◌∷◌, ◌++◌, arith}
use robustmq.Prelude.{length, All}
use robustmq.Mqtt.Bytes.{Bytes}
use robustmq.Mqtt.Writer.{put_u8, write_mqtt_string, write_mqtt_bytes}
use robustmq.Mqtt.Types.Properties.{LastWillProperties}
use robustmq.Mqtt.Wire.{mqtt_bytes, write_mqtt_bytes-image}
use robustmq.Mqtt.V5.PropertyType.{PropertyType}
use robustmq.Mqtt.V5.Fields.{put_u32, write_option}
use robustmq.Mqtt.V5.Fields.Image.{
  IsSome-unit, Writes, Writes->>, IsText, IsShort, IsUser, IsSome, u32, option_image, users_image,
  write_option-Writes, write_users-Writes, put_u8-Writes, put_u32-Writes, write_mqtt_string-Writes,
  length-option_size, length-option_bytes, length-users_image, length-append_of, u8_arm-Reads,
  u32_arm-Reads, string_arm-Reads, bytes_arm-Reads, user_arm-Reads,
}
use robustmq.Mqtt.V5.Properties.Image.{
  Parses, sized, append-Parses, option-Parses, users-Parses, write_sized-Writes,
}
use robustmq.Mqtt.V5.Properties.Codec.{Codec}
use robustmq.Mqtt.V5.Connect.WillProperties.{len, write, arms, empty, arms-AreTotal}

abbrev pub image : LastWillProperties → Bytes
image p =
    option_image PropertyType.will_delay_interval u32 p.delay_interval
    ++ (option_image PropertyType.payload_format_indicator (λ n. n ∷ []) p.payload_format_indicator
        ++ (option_image PropertyType.message_expiry_interval u32 p.message_expiry_interval
            ++ (option_image PropertyType.content_type mqtt_bytes p.content_type
                ++ (option_image PropertyType.response_topic mqtt_bytes p.response_topic
                    ++ (option_image PropertyType.correlation_data mqtt_bytes p.correlation_data
                        ++ users_image p.user_properties)))))

-- Texts and data that the wire can hold.
abbrev pub IsValid : LastWillProperties → Type 0
IsValid p =
    (IsSome IsText p.content_type)
    × (IsSome IsText p.response_topic)
    × (IsSome IsShort p.correlation_data)
    × (All IsUser p.user_properties)

pub length-image : (p : LastWillProperties) → length (image p) ≡ len p
unfolding len
length-image p = omega (
  arith,
  length-append_of (option_image PropertyType.will_delay_interval u32 p.delay_interval) _ _ _
      (length-option_size 4 PropertyType.will_delay_interval u32 p.delay_interval (λ _. refl))
      (length-append_of
        (option_image PropertyType.payload_format_indicator (λ n. n ∷ [])
          p.payload_format_indicator)
        _ _ _
        (length-option_size 1 PropertyType.payload_format_indicator (λ n. n ∷ [])
          p.payload_format_indicator (λ _. refl))
        (length-append_of
          (option_image PropertyType.message_expiry_interval u32 p.message_expiry_interval) _ _ _
          (length-option_size 4 PropertyType.message_expiry_interval u32 p.message_expiry_interval
            (λ _. refl))
          (length-append_of (option_image PropertyType.content_type mqtt_bytes p.content_type) _ _ _
            (length-option_bytes PropertyType.content_type p.content_type)
            (length-append_of (option_image PropertyType.response_topic mqtt_bytes p.response_topic)
              _ _ _ (length-option_bytes PropertyType.response_topic p.response_topic)
              (length-append_of
                (option_image PropertyType.correlation_data mqtt_bytes p.correlation_data) _ _ _
                (length-option_bytes PropertyType.correlation_data p.correlation_data)
                (length-users_image p.user_properties)))))),
)

pub write-Writes :
    (p : LastWillProperties) → IsValid p → len p ≤ 268435455 → Writes (write p) (sized (image p))
unfolding write
write-Writes p v h = write_sized-Writes (len p) _ (image p) (length-image p) h (
    Writes->> (write_option PropertyType.will_delay_interval put_u32 p.delay_interval) _
      (option_image PropertyType.will_delay_interval u32 p.delay_interval) _
      (write_option-Writes _ _ u32 (λ _. Unit) p.delay_interval (λ n _. put_u32-Writes n)
        (IsSome-unit p.delay_interval))
      (Writes->>
        (write_option PropertyType.payload_format_indicator put_u8 p.payload_format_indicator) _
        (option_image PropertyType.payload_format_indicator (λ n. n ∷ [])
          p.payload_format_indicator)
        _
        (write_option-Writes _ _ (λ n. n ∷ []) (λ _. Unit) p.payload_format_indicator
          (λ n _. put_u8-Writes n) (IsSome-unit p.payload_format_indicator))
        (Writes->>
          (write_option PropertyType.message_expiry_interval put_u32 p.message_expiry_interval) _
          (option_image PropertyType.message_expiry_interval u32 p.message_expiry_interval) _
          (write_option-Writes _ _ u32 (λ _. Unit) p.message_expiry_interval
            (λ n _. put_u32-Writes n) (IsSome-unit p.message_expiry_interval))
          (Writes->> (write_option PropertyType.content_type write_mqtt_string p.content_type) _
            (option_image PropertyType.content_type mqtt_bytes p.content_type) _
            (write_option-Writes _ _ mqtt_bytes IsText p.content_type
              (λ s h. write_mqtt_string-Writes s h.0) v.0)
            (Writes->> (write_option PropertyType.response_topic write_mqtt_string p.response_topic)
              _ (option_image PropertyType.response_topic mqtt_bytes p.response_topic) _
              (write_option-Writes _ _ mqtt_bytes IsText p.response_topic
                (λ s h. write_mqtt_string-Writes s h.0) v.1)
              (Writes->>
                (write_option PropertyType.correlation_data write_mqtt_bytes p.correlation_data) _
                (option_image PropertyType.correlation_data mqtt_bytes p.correlation_data) _
                (write_option-Writes _ _ mqtt_bytes IsShort p.correlation_data
                  (λ s h buffer. write_mqtt_bytes-image s buffer h) v.2)
                (write_users-Writes p.user_properties v.3)))))))

pub arms-Parses : (p : LastWillProperties) → IsValid p → Parses arms (image p) empty p
unfolding arms empty
arms-Parses p v =
    let s1 : LastWillProperties = record empty { delay_interval = p.delay_interval } in
    let s2 : LastWillProperties = record s1 {
      payload_format_indicator = p.payload_format_indicator;
    } in
    let s3 : LastWillProperties = record s2 {
      message_expiry_interval = p.message_expiry_interval;
    } in
    let s4 : LastWillProperties = record s3 { content_type = p.content_type } in
    let s5 : LastWillProperties = record s4 { response_topic = p.response_topic } in
    let s6 : LastWillProperties = record s5 { correlation_data = p.correlation_data } in
    append-Parses arms (option_image PropertyType.will_delay_interval u32 p.delay_interval) _
      (empty) s1 p
      (option-Parses arms PropertyType.will_delay_interval u32 (λ _. Unit)
        (λ o. record (empty) { delay_interval = o }) p.delay_interval (λ x _. u32_arm-Reads _ x)
        (IsSome-unit p.delay_interval))
      (append-Parses arms
        (option_image PropertyType.payload_format_indicator (λ n. n ∷ [])
          p.payload_format_indicator)
        _ (s1) s2 p
        (option-Parses arms PropertyType.payload_format_indicator (λ n. n ∷ []) (λ _. Unit)
          (λ o. record (s1) { payload_format_indicator = o }) p.payload_format_indicator
          (λ x _. u8_arm-Reads _ x) (IsSome-unit p.payload_format_indicator))
        (append-Parses arms
          (option_image PropertyType.message_expiry_interval u32 p.message_expiry_interval) _ (s2)
          s3 p
          (option-Parses arms PropertyType.message_expiry_interval u32 (λ _. Unit)
            (λ o. record (s2) { message_expiry_interval = o }) p.message_expiry_interval
            (λ x _. u32_arm-Reads _ x) (IsSome-unit p.message_expiry_interval))
          (append-Parses arms (option_image PropertyType.content_type mqtt_bytes p.content_type) _
            (s3) s4 p
            (option-Parses arms PropertyType.content_type mqtt_bytes IsText
              (λ o. record (s3) { content_type = o }) p.content_type (λ x h. string_arm-Reads _ x h)
              v.0)
            (append-Parses arms
              (option_image PropertyType.response_topic mqtt_bytes p.response_topic) _ (s4) s5 p
              (option-Parses arms PropertyType.response_topic mqtt_bytes IsText
                (λ o. record (s4) { response_topic = o }) p.response_topic
                (λ x h. string_arm-Reads _ x h) v.1)
              (append-Parses arms
                (option_image PropertyType.correlation_data mqtt_bytes p.correlation_data) _ (s5) s6
                p
                (option-Parses arms PropertyType.correlation_data mqtt_bytes IsShort
                  (λ o. record (s5) { correlation_data = o }) p.correlation_data
                  (λ x h. bytes_arm-Reads _ x) v.2)
                (users-Parses arms (λ us. record (s6) { user_properties = us }) p.user_properties
                  (λ us u h. user_arm-Reads _ u h) v.3))))))

abbrev pub codec : Codec LastWillProperties
codec = record {
  len = len;
  write = write;
  arms = arms;
  empty = empty;
  image = image;
  IsValid = IsValid;
  length-image = length-image;
  write-Writes = write-Writes;
  arms-Parses = arms-Parses;
  arms-AreTotal = arms-AreTotal;
}
