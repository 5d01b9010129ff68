-- ===== src/Mqtt/V5/Connect/Image.antt =====
-- What the properties of src/protocol/src/mqtt/mqttv5/connect.rs are on the wire.
use robustmq.Prelude.{◌≤◌, ◌≡◌, refl, [], ◌∷◌, ◌++◌, arith}
use robustmq.Prelude.{length, All}
use robustmq.Mqtt.Bytes.{Bytes}
use robustmq.Mqtt.Writer.{put_u8, put_u16, write_mqtt_string}
use robustmq.Mqtt.Types.Properties.{ConnectProperties}
use robustmq.Mqtt.Wire.{u16, mqtt_bytes, write_mqtt_bytes-image}
use robustmq.Mqtt.V5.PropertyType.{PropertyType}
use robustmq.Mqtt.V5.Fields.{put_u32, write_option, write_users}
use robustmq.Mqtt.V5.Fields.Image.{
  IsSome-unit, Writes, Writes->>, IsText, IsShort, IsUser, IsSome, u32, option_image, users_image,
  write_option-Writes, write_users-Writes, put_u8-Writes, put_u16-Writes, put_u32-Writes,
  write_mqtt_string-Writes, length-option_size, length-option_bytes, length-users_image,
  length-append_of, u8_arm-Reads, u16_arm-Reads, u32_arm-Reads, string_arm-Reads, bytes_arm-Reads,
  user_arm-Reads,
}
use robustmq.Mqtt.V5.Properties.Image.{
  Parses, sized, append-Parses, option-Parses, users-Parses, write_sized-Writes,
}
use robustmq.Mqtt.V5.Properties.Codec.{Codec}
use robustmq.Mqtt.V5.Connect.Properties.{len, write, arms, empty, arms-AreTotal}

abbrev pub image : ConnectProperties → Bytes
image p =
    option_image PropertyType.session_expiry_interval u32 p.session_expiry_interval
    ++ (option_image PropertyType.receive_maximum u16 p.receive_maximum
        ++ (option_image PropertyType.maximum_packet_size u32 p.max_packet_size
            ++ (option_image PropertyType.topic_alias_maximum u16 p.topic_alias_max
                ++ (option_image PropertyType.request_response_information (λ n. n ∷ [])
                      p.request_response_info
                    ++ (option_image PropertyType.request_problem_information (λ n. n ∷ [])
                          p.request_problem_info
                        ++ (users_image p.user_properties
                            ++ (option_image PropertyType.authentication_method mqtt_bytes
                                  p.authentication_method
                                ++ option_image PropertyType.authentication_data mqtt_bytes
                                    p.authentication_data)))))))

-- Texts and data that the wire can hold.
abbrev pub IsValid : ConnectProperties → Type 0
IsValid p =
    (All IsUser p.user_properties)
    × (IsSome IsText p.authentication_method)
    × (IsSome IsShort p.authentication_data)

pub length-image : (p : ConnectProperties) → length (image p) ≡ len p
unfolding len
length-image p = omega (
  arith,
  length-append_of (option_image PropertyType.session_expiry_interval u32 p.session_expiry_interval)
      _ _ _
      (length-option_size 4 PropertyType.session_expiry_interval u32 p.session_expiry_interval
        (λ _. refl))
      (length-append_of (option_image PropertyType.receive_maximum u16 p.receive_maximum) _ _ _
        (length-option_size 2 PropertyType.receive_maximum u16 p.receive_maximum (λ _. refl))
        (length-append_of (option_image PropertyType.maximum_packet_size u32 p.max_packet_size) _ _
          _
          (length-option_size 4 PropertyType.maximum_packet_size u32 p.max_packet_size (λ _. refl))
          (length-append_of (option_image PropertyType.topic_alias_maximum u16 p.topic_alias_max) _
            _ _
            (length-option_size 2 PropertyType.topic_alias_maximum u16 p.topic_alias_max
              (λ _. refl))
            (length-append_of
              (option_image PropertyType.request_response_information (λ n. n ∷ [])
                p.request_response_info)
              _ _ _
              (length-option_size 1 PropertyType.request_response_information (λ n. n ∷ [])
                p.request_response_info (λ _. refl))
              (length-append_of
                (option_image PropertyType.request_problem_information (λ n. n ∷ [])
                  p.request_problem_info)
                _ _ _
                (length-option_size 1 PropertyType.request_problem_information (λ n. n ∷ [])
                  p.request_problem_info (λ _. refl))
                (length-append_of (users_image p.user_properties) _ _ _
                  (length-users_image p.user_properties)
                  (length-append_of
                    (option_image PropertyType.authentication_method mqtt_bytes
                      p.authentication_method)
                    _ _ _
                    (length-option_bytes PropertyType.authentication_method p.authentication_method)
                    (length-option_bytes PropertyType.authentication_data
                      p.authentication_data)))))))),
)

pub write-Writes :
    (p : ConnectProperties) → IsValid p → len p ≤ 268435455 → Writes (write p) (sized (image p))
unfolding write
write-Writes p v h = write_sized-Writes (len p) _ (image p) (length-image p) h (
    Writes->> (write_option PropertyType.session_expiry_interval put_u32 p.session_expiry_interval)
      _ (option_image PropertyType.session_expiry_interval u32 p.session_expiry_interval) _
      (write_option-Writes _ _ u32 (λ _. Unit) p.session_expiry_interval (λ n _. put_u32-Writes n)
        (IsSome-unit p.session_expiry_interval))
      (Writes->> (write_option PropertyType.receive_maximum put_u16 p.receive_maximum) _
        (option_image PropertyType.receive_maximum u16 p.receive_maximum) _
        (write_option-Writes _ _ u16 (λ _. Unit) p.receive_maximum (λ n _. put_u16-Writes n)
          (IsSome-unit p.receive_maximum))
        (Writes->> (write_option PropertyType.maximum_packet_size put_u32 p.max_packet_size) _
          (option_image PropertyType.maximum_packet_size u32 p.max_packet_size) _
          (write_option-Writes _ _ u32 (λ _. Unit) p.max_packet_size (λ n _. put_u32-Writes n)
            (IsSome-unit p.max_packet_size))
          (Writes->> (write_option PropertyType.topic_alias_maximum put_u16 p.topic_alias_max) _
            (option_image PropertyType.topic_alias_maximum u16 p.topic_alias_max) _
            (write_option-Writes _ _ u16 (λ _. Unit) p.topic_alias_max (λ n _. put_u16-Writes n)
              (IsSome-unit p.topic_alias_max))
            (Writes->>
              (write_option PropertyType.request_response_information put_u8
                p.request_response_info)
              _
              (option_image PropertyType.request_response_information (λ n. n ∷ [])
                p.request_response_info)
              _
              (write_option-Writes _ _ (λ n. n ∷ []) (λ _. Unit) p.request_response_info
                (λ n _. put_u8-Writes n) (IsSome-unit p.request_response_info))
              (Writes->>
                (write_option PropertyType.request_problem_information put_u8
                  p.request_problem_info)
                _
                (option_image PropertyType.request_problem_information (λ n. n ∷ [])
                  p.request_problem_info)
                _
                (write_option-Writes _ _ (λ n. n ∷ []) (λ _. Unit) p.request_problem_info
                  (λ n _. put_u8-Writes n) (IsSome-unit p.request_problem_info))
                (Writes->> (write_users p.user_properties) _ (users_image p.user_properties) _
                  (write_users-Writes p.user_properties v.0)
                  (Writes->>
                    (write_option PropertyType.authentication_method write_mqtt_string
                      p.authentication_method)
                    _
                    (option_image PropertyType.authentication_method mqtt_bytes
                      p.authentication_method)
                    _
                    (write_option-Writes _ _ mqtt_bytes IsText p.authentication_method
                      (λ s h. write_mqtt_string-Writes s h.0) v.1)
                    (write_option-Writes _ _ mqtt_bytes IsShort p.authentication_data
                      (λ s h buffer. write_mqtt_bytes-image s buffer h) v.2)))))))))

pub arms-Parses : (p : ConnectProperties) → IsValid p → Parses arms (image p) empty p
unfolding arms empty
arms-Parses p v =
    let s1 : ConnectProperties = record empty {
      session_expiry_interval = p.session_expiry_interval;
    } in
    let s2 : ConnectProperties = record s1 { receive_maximum = p.receive_maximum } in
    let s3 : ConnectProperties = record s2 { max_packet_size = p.max_packet_size } in
    let s4 : ConnectProperties = record s3 { topic_alias_max = p.topic_alias_max } in
    let s5 : ConnectProperties = record s4 { request_response_info = p.request_response_info } in
    let s6 : ConnectProperties = record s5 { request_problem_info = p.request_problem_info } in
    let s7 : ConnectProperties = record s6 { user_properties = p.user_properties } in
    let s8 : ConnectProperties = record s7 { authentication_method = p.authentication_method } in
    append-Parses arms
      (option_image PropertyType.session_expiry_interval u32 p.session_expiry_interval) _ (empty) s1
      p
      (option-Parses arms PropertyType.session_expiry_interval u32 (λ _. Unit)
        (λ o. record (empty) { session_expiry_interval = o }) p.session_expiry_interval
        (λ x _. u32_arm-Reads _ x) (IsSome-unit p.session_expiry_interval))
      (append-Parses arms (option_image PropertyType.receive_maximum u16 p.receive_maximum) _ (s1)
        s2 p
        (option-Parses arms PropertyType.receive_maximum u16 (λ _. Unit)
          (λ o. record (s1) { receive_maximum = o }) p.receive_maximum (λ x _. u16_arm-Reads _ x)
          (IsSome-unit p.receive_maximum))
        (append-Parses arms (option_image PropertyType.maximum_packet_size u32 p.max_packet_size) _
          (s2) s3 p
          (option-Parses arms PropertyType.maximum_packet_size u32 (λ _. Unit)
            (λ o. record (s2) { max_packet_size = o }) p.max_packet_size (λ x _. u32_arm-Reads _ x)
            (IsSome-unit p.max_packet_size))
          (append-Parses arms (option_image PropertyType.topic_alias_maximum u16 p.topic_alias_max)
            _ (s3) s4 p
            (option-Parses arms PropertyType.topic_alias_maximum u16 (λ _. Unit)
              (λ o. record (s3) { topic_alias_max = o }) p.topic_alias_max
              (λ x _. u16_arm-Reads _ x) (IsSome-unit p.topic_alias_max))
            (append-Parses arms
              (option_image PropertyType.request_response_information (λ n. n ∷ [])
                p.request_response_info)
              _ (s4) s5 p
              (option-Parses arms PropertyType.request_response_information (λ n. n ∷ [])
                (λ _. Unit) (λ o. record (s4) { request_response_info = o }) p.request_response_info
                (λ x _. u8_arm-Reads _ x) (IsSome-unit p.request_response_info))
              (append-Parses arms
                (option_image PropertyType.request_problem_information (λ n. n ∷ [])
                  p.request_problem_info)
                _ (s5) s6 p
                (option-Parses arms PropertyType.request_problem_information (λ n. n ∷ [])
                  (λ _. Unit) (λ o. record (s5) { request_problem_info = o }) p.request_problem_info
                  (λ x _. u8_arm-Reads _ x) (IsSome-unit p.request_problem_info))
                (append-Parses arms (users_image p.user_properties) _ (s6) s7 p
                  (users-Parses arms (λ us. record (s6) { user_properties = us }) p.user_properties
                    (λ us u h. user_arm-Reads _ u h) v.0)
                  (append-Parses arms
                    (option_image PropertyType.authentication_method mqtt_bytes
                      p.authentication_method)
                    _ (s7) s8 p
                    (option-Parses arms PropertyType.authentication_method mqtt_bytes IsText
                      (λ o. record (s7) { authentication_method = o }) p.authentication_method
                      (λ x h. string_arm-Reads _ x h) v.1)
                    (option-Parses arms PropertyType.authentication_data mqtt_bytes IsShort
                      (λ o. record (s8) { authentication_data = o }) p.authentication_data
                      (λ x h. bytes_arm-Reads _ x) v.2))))))))

abbrev pub codec : Codec ConnectProperties
codec = record {
  len = len;
  write = write;
  arms = arms;
  empty = empty;
  image = image;
  IsValid = IsValid;
  length-image = length-image;
  write-Writes = write-Writes;
  arms-Parses = arms-Parses;
  arms-AreTotal = arms-AreTotal;
}
