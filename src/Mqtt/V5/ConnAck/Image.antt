-- ===== src/Mqtt/V5/ConnAck/Image.antt =====
-- What the properties of src/protocol/src/mqtt/mqttv5/connack.rs are on the wire.
use robustmq.Prelude.{◌≤◌, ◌≡◌, refl, [], ◌∷◌, ◌++◌, arith}
use robustmq.Prelude.{length, All}
use robustmq.Mqtt.Bytes.{Bytes}
use robustmq.Mqtt.Writer.{put_u8, put_u16, write_mqtt_string}
use robustmq.Mqtt.Types.Properties.{ConnAckProperties}
use robustmq.Mqtt.Wire.{u16, mqtt_bytes, write_mqtt_bytes-image}
use robustmq.Mqtt.V5.PropertyType.{PropertyType}
use robustmq.Mqtt.V5.Fields.{put_u32, write_option, write_users}
use robustmq.Mqtt.V5.Fields.Image.{
  IsSome-unit, Writes, Writes->>, IsText, IsShort, IsUser, IsSome, u32, option_image, users_image,
  write_option-Writes, write_users-Writes, put_u8-Writes, put_u16-Writes, put_u32-Writes,
  write_mqtt_string-Writes, length-option_size, length-option_bytes, length-users_image,
  length-append_of, u8_arm-Reads, u16_arm-Reads, u32_arm-Reads, string_arm-Reads, bytes_arm-Reads,
  user_arm-Reads,
}
use robustmq.Mqtt.V5.Properties.Image.{
  Parses, sized, append-Parses, option-Parses, users-Parses, write_sized-Writes,
}
use robustmq.Mqtt.V5.Properties.Codec.{Codec}
use robustmq.Mqtt.V5.ConnAck.Properties.{len, write, arms, empty, arms-AreTotal}

abbrev pub image : ConnAckProperties → Bytes
image p =
    option_image PropertyType.session_expiry_interval u32 p.session_expiry_interval
    ++ (option_image PropertyType.receive_maximum u16 p.receive_max
        ++ (option_image PropertyType.maximum_qos (λ n. n ∷ []) p.max_qos
            ++ (option_image PropertyType.retain_available (λ n. n ∷ []) p.retain_available
                ++ (option_image PropertyType.maximum_packet_size u32 p.max_packet_size
                    ++ (option_image PropertyType.assigned_client_identifier mqtt_bytes
                          p.assigned_client_identifier
                        ++ (option_image PropertyType.topic_alias_maximum u16 p.topic_alias_max
                            ++ (option_image PropertyType.reason_string mqtt_bytes p.reason_string
                                ++ (users_image p.user_properties
                                    ++ (option_image PropertyType.wildcard_subscription_available
                                          (λ n. n ∷ []) p.wildcard_subscription_available
                                        ++ (option_image
                                              PropertyType.subscription_identifier_available
                                              (λ n. n ∷ []) p.subscription_identifiers_available
                                            ++ (option_image
                                                  PropertyType.shared_subscription_available
                                                  (λ n. n ∷ []) p.shared_subscription_available
                                                ++ (option_image PropertyType.server_keep_alive u16
                                                      p.server_keep_alive
                                                    ++ (option_image
                                                          PropertyType.response_information
                                                          mqtt_bytes p.response_information
                                                        ++ (option_image
                                                            PropertyType.server_reference mqtt_bytes
                                                            p.server_reference
                                                            ++ (option_image
                                                            PropertyType.authentication_method
                                                            mqtt_bytes p.authentication_method
                                                            ++ option_image
                                                            PropertyType.authentication_data
                                                            mqtt_bytes
                                                            p.authentication_data)))))))))))))))

-- Texts and data that the wire can hold.
abbrev pub IsValid : ConnAckProperties → Type 0
IsValid p =
    (IsSome IsText p.assigned_client_identifier)
    × (IsSome IsText p.reason_string)
    × (All IsUser p.user_properties)
    × (IsSome IsText p.response_information)
    × (IsSome IsText p.server_reference)
    × (IsSome IsText p.authentication_method)
    × (IsSome IsShort p.authentication_data)

pub length-image : (p : ConnAckProperties) → length (image p) ≡ len p
unfolding len
length-image p = omega (
  arith,
  length-append_of (option_image PropertyType.session_expiry_interval u32 p.session_expiry_interval)
      _ _ _
      (length-option_size 4 PropertyType.session_expiry_interval u32 p.session_expiry_interval
        (λ _. refl))
      (length-append_of (option_image PropertyType.receive_maximum u16 p.receive_max) _ _ _
        (length-option_size 2 PropertyType.receive_maximum u16 p.receive_max (λ _. refl))
        (length-append_of (option_image PropertyType.maximum_qos (λ n. n ∷ []) p.max_qos) _ _ _
          (length-option_size 1 PropertyType.maximum_qos (λ n. n ∷ []) p.max_qos (λ _. refl))
          (length-append_of
            (option_image PropertyType.retain_available (λ n. n ∷ []) p.retain_available) _ _ _
            (length-option_size 1 PropertyType.retain_available (λ n. n ∷ []) p.retain_available
              (λ _. refl))
            (length-append_of (option_image PropertyType.maximum_packet_size u32 p.max_packet_size)
              _ _ _
              (length-option_size 4 PropertyType.maximum_packet_size u32 p.max_packet_size
                (λ _. refl))
              (length-append_of
                (option_image PropertyType.assigned_client_identifier mqtt_bytes
                  p.assigned_client_identifier)
                _ _ _
                (length-option_bytes PropertyType.assigned_client_identifier
                  p.assigned_client_identifier)
                (length-append_of
                  (option_image PropertyType.topic_alias_maximum u16 p.topic_alias_max) _ _ _
                  (length-option_size 2 PropertyType.topic_alias_maximum u16 p.topic_alias_max
                    (λ _. refl))
                  (length-append_of
                    (option_image PropertyType.reason_string mqtt_bytes p.reason_string) _ _ _
                    (length-option_bytes PropertyType.reason_string p.reason_string)
                    (length-append_of (users_image p.user_properties) _ _ _
                      (length-users_image p.user_properties)
                      (length-append_of
                        (option_image PropertyType.wildcard_subscription_available (λ n. n ∷ [])
                          p.wildcard_subscription_available)
                        _ _ _
                        (length-option_size 1 PropertyType.wildcard_subscription_available
                          (λ n. n ∷ []) p.wildcard_subscription_available (λ _. refl))
                        (length-append_of
                          (option_image PropertyType.subscription_identifier_available (λ n. n ∷ [])
                            p.subscription_identifiers_available)
                          _ _ _
                          (length-option_size 1 PropertyType.subscription_identifier_available
                            (λ n. n ∷ []) p.subscription_identifiers_available (λ _. refl))
                          (length-append_of
                            (option_image PropertyType.shared_subscription_available (λ n. n ∷ [])
                              p.shared_subscription_available)
                            _ _ _
                            (length-option_size 1 PropertyType.shared_subscription_available
                              (λ n. n ∷ []) p.shared_subscription_available (λ _. refl))
                            (length-append_of
                              (option_image PropertyType.server_keep_alive u16 p.server_keep_alive)
                              _ _ _
                              (length-option_size 2 PropertyType.server_keep_alive u16
                                p.server_keep_alive (λ _. refl))
                              (length-append_of
                                (option_image PropertyType.response_information mqtt_bytes
                                  p.response_information)
                                _ _ _
                                (length-option_bytes PropertyType.response_information
                                  p.response_information)
                                (length-append_of
                                  (option_image PropertyType.server_reference mqtt_bytes
                                    p.server_reference)
                                  _ _ _
                                  (length-option_bytes PropertyType.server_reference
                                    p.server_reference)
                                  (length-append_of
                                    (option_image PropertyType.authentication_method mqtt_bytes
                                      p.authentication_method)
                                    _ _ _
                                    (length-option_bytes PropertyType.authentication_method
                                      p.authentication_method)
                                    (length-option_bytes PropertyType.authentication_data
                                      p.authentication_data)))))))))))))))),
)

pub write-Writes :
    (p : ConnAckProperties) → IsValid p → len p ≤ 268435455 → Writes (write p) (sized (image p))
unfolding write
write-Writes p v h = write_sized-Writes (len p) _ (image p) (length-image p) h (
    Writes->> (write_option PropertyType.session_expiry_interval put_u32 p.session_expiry_interval)
      _ (option_image PropertyType.session_expiry_interval u32 p.session_expiry_interval) _
      (write_option-Writes _ _ u32 (λ _. Unit) p.session_expiry_interval (λ n _. put_u32-Writes n)
        (IsSome-unit p.session_expiry_interval))
      (Writes->> (write_option PropertyType.receive_maximum put_u16 p.receive_max) _
        (option_image PropertyType.receive_maximum u16 p.receive_max) _
        (write_option-Writes _ _ u16 (λ _. Unit) p.receive_max (λ n _. put_u16-Writes n)
          (IsSome-unit p.receive_max))
        (Writes->> (write_option PropertyType.maximum_qos put_u8 p.max_qos) _
          (option_image PropertyType.maximum_qos (λ n. n ∷ []) p.max_qos) _
          (write_option-Writes _ _ (λ n. n ∷ []) (λ _. Unit) p.max_qos (λ n _. put_u8-Writes n)
            (IsSome-unit p.max_qos))
          (Writes->> (write_option PropertyType.retain_available put_u8 p.retain_available) _
            (option_image PropertyType.retain_available (λ n. n ∷ []) p.retain_available) _
            (write_option-Writes _ _ (λ n. n ∷ []) (λ _. Unit) p.retain_available
              (λ n _. put_u8-Writes n) (IsSome-unit p.retain_available))
            (Writes->> (write_option PropertyType.maximum_packet_size put_u32 p.max_packet_size) _
              (option_image PropertyType.maximum_packet_size u32 p.max_packet_size) _
              (write_option-Writes _ _ u32 (λ _. Unit) p.max_packet_size (λ n _. put_u32-Writes n)
                (IsSome-unit p.max_packet_size))
              (Writes->>
                (write_option PropertyType.assigned_client_identifier write_mqtt_string
                  p.assigned_client_identifier)
                _
                (option_image PropertyType.assigned_client_identifier mqtt_bytes
                  p.assigned_client_identifier)
                _
                (write_option-Writes _ _ mqtt_bytes IsText p.assigned_client_identifier
                  (λ s h. write_mqtt_string-Writes s h.0) v.0)
                (Writes->> (write_option PropertyType.topic_alias_maximum put_u16 p.topic_alias_max)
                  _ (option_image PropertyType.topic_alias_maximum u16 p.topic_alias_max) _
                  (write_option-Writes _ _ u16 (λ _. Unit) p.topic_alias_max
                    (λ n _. put_u16-Writes n) (IsSome-unit p.topic_alias_max))
                  (Writes->>
                    (write_option PropertyType.reason_string write_mqtt_string p.reason_string) _
                    (option_image PropertyType.reason_string mqtt_bytes p.reason_string) _
                    (write_option-Writes _ _ mqtt_bytes IsText p.reason_string
                      (λ s h. write_mqtt_string-Writes s h.0) v.1)
                    (Writes->> (write_users p.user_properties) _ (users_image p.user_properties) _
                      (write_users-Writes p.user_properties v.2)
                      (Writes->>
                        (write_option PropertyType.wildcard_subscription_available put_u8
                          p.wildcard_subscription_available)
                        _
                        (option_image PropertyType.wildcard_subscription_available (λ n. n ∷ [])
                          p.wildcard_subscription_available)
                        _
                        (write_option-Writes _ _ (λ n. n ∷ []) (λ _. Unit)
                          p.wildcard_subscription_available (λ n _. put_u8-Writes n)
                          (IsSome-unit p.wildcard_subscription_available))
                        (Writes->>
                          (write_option PropertyType.subscription_identifier_available put_u8
                            p.subscription_identifiers_available)
                          _
                          (option_image PropertyType.subscription_identifier_available (λ n. n ∷ [])
                            p.subscription_identifiers_available)
                          _
                          (write_option-Writes _ _ (λ n. n ∷ []) (λ _. Unit)
                            p.subscription_identifiers_available (λ n _. put_u8-Writes n)
                            (IsSome-unit p.subscription_identifiers_available))
                          (Writes->>
                            (write_option PropertyType.shared_subscription_available put_u8
                              p.shared_subscription_available)
                            _
                            (option_image PropertyType.shared_subscription_available (λ n. n ∷ [])
                              p.shared_subscription_available)
                            _
                            (write_option-Writes _ _ (λ n. n ∷ []) (λ _. Unit)
                              p.shared_subscription_available (λ n _. put_u8-Writes n)
                              (IsSome-unit p.shared_subscription_available))
                            (Writes->>
                              (write_option PropertyType.server_keep_alive put_u16
                                p.server_keep_alive)
                              _
                              (option_image PropertyType.server_keep_alive u16 p.server_keep_alive)
                              _
                              (write_option-Writes _ _ u16 (λ _. Unit) p.server_keep_alive
                                (λ n _. put_u16-Writes n) (IsSome-unit p.server_keep_alive))
                              (Writes->>
                                (write_option PropertyType.response_information write_mqtt_string
                                  p.response_information)
                                _
                                (option_image PropertyType.response_information mqtt_bytes
                                  p.response_information)
                                _
                                (write_option-Writes _ _ mqtt_bytes IsText p.response_information
                                  (λ s h. write_mqtt_string-Writes s h.0) v.3)
                                (Writes->>
                                  (write_option PropertyType.server_reference write_mqtt_string
                                    p.server_reference)
                                  _
                                  (option_image PropertyType.server_reference mqtt_bytes
                                    p.server_reference)
                                  _
                                  (write_option-Writes _ _ mqtt_bytes IsText p.server_reference
                                    (λ s h. write_mqtt_string-Writes s h.0) v.4)
                                  (Writes->>
                                    (write_option PropertyType.authentication_method
                                      write_mqtt_string p.authentication_method)
                                    _
                                    (option_image PropertyType.authentication_method mqtt_bytes
                                      p.authentication_method)
                                    _
                                    (write_option-Writes _ _ mqtt_bytes IsText
                                      p.authentication_method
                                      (λ s h. write_mqtt_string-Writes s h.0) v.5)
                                    (write_option-Writes _ _ mqtt_bytes IsShort
                                      p.authentication_data
                                      (λ s h buffer. write_mqtt_bytes-image s buffer h)
                                      v.6)))))))))))))))))

pub arms-Parses : (p : ConnAckProperties) → IsValid p → Parses arms (image p) empty p
unfolding arms empty
arms-Parses p v =
    let s1 : ConnAckProperties = record empty {
      session_expiry_interval = p.session_expiry_interval;
    } in
    let s2 : ConnAckProperties = record s1 { receive_max = p.receive_max } in
    let s3 : ConnAckProperties = record s2 { max_qos = p.max_qos } in
    let s4 : ConnAckProperties = record s3 { retain_available = p.retain_available } in
    let s5 : ConnAckProperties = record s4 { max_packet_size = p.max_packet_size } in
    let s6 : ConnAckProperties = record s5 {
      assigned_client_identifier = p.assigned_client_identifier;
    } in
    let s7 : ConnAckProperties = record s6 { topic_alias_max = p.topic_alias_max } in
    let s8 : ConnAckProperties = record s7 { reason_string = p.reason_string } in
    let s9 : ConnAckProperties = record s8 { user_properties = p.user_properties } in
    let s10 : ConnAckProperties = record s9 {
      wildcard_subscription_available = p.wildcard_subscription_available;
    } in
    let s11 : ConnAckProperties = record s10 {
      subscription_identifiers_available = p.subscription_identifiers_available;
    } in
    let s12 : ConnAckProperties = record s11 {
      shared_subscription_available = p.shared_subscription_available;
    } in
    let s13 : ConnAckProperties = record s12 { server_keep_alive = p.server_keep_alive } in
    let s14 : ConnAckProperties = record s13 { response_information = p.response_information } in
    let s15 : ConnAckProperties = record s14 { server_reference = p.server_reference } in
    let s16 : ConnAckProperties = record s15 { authentication_method = p.authentication_method } in
    append-Parses arms
      (option_image PropertyType.session_expiry_interval u32 p.session_expiry_interval) _ (empty) s1
      p
      (option-Parses arms PropertyType.session_expiry_interval u32 (λ _. Unit)
        (λ o. record (empty) { session_expiry_interval = o }) p.session_expiry_interval
        (λ x _. u32_arm-Reads _ x) (IsSome-unit p.session_expiry_interval))
      (append-Parses arms (option_image PropertyType.receive_maximum u16 p.receive_max) _ (s1) s2 p
        (option-Parses arms PropertyType.receive_maximum u16 (λ _. Unit)
          (λ o. record (s1) { receive_max = o }) p.receive_max (λ x _. u16_arm-Reads _ x)
          (IsSome-unit p.receive_max))
        (append-Parses arms (option_image PropertyType.maximum_qos (λ n. n ∷ []) p.max_qos) _ (s2)
          s3 p
          (option-Parses arms PropertyType.maximum_qos (λ n. n ∷ []) (λ _. Unit)
            (λ o. record (s2) { max_qos = o }) p.max_qos (λ x _. u8_arm-Reads _ x)
            (IsSome-unit p.max_qos))
          (append-Parses arms
            (option_image PropertyType.retain_available (λ n. n ∷ []) p.retain_available) _ (s3) s4
            p
            (option-Parses arms PropertyType.retain_available (λ n. n ∷ []) (λ _. Unit)
              (λ o. record (s3) { retain_available = o }) p.retain_available
              (λ x _. u8_arm-Reads _ x) (IsSome-unit p.retain_available))
            (append-Parses arms
              (option_image PropertyType.maximum_packet_size u32 p.max_packet_size) _ (s4) s5 p
              (option-Parses arms PropertyType.maximum_packet_size u32 (λ _. Unit)
                (λ o. record (s4) { max_packet_size = o }) p.max_packet_size
                (λ x _. u32_arm-Reads _ x) (IsSome-unit p.max_packet_size))
              (append-Parses arms
                (option_image PropertyType.assigned_client_identifier mqtt_bytes
                  p.assigned_client_identifier)
                _ (s5) s6 p
                (option-Parses arms PropertyType.assigned_client_identifier mqtt_bytes IsText
                  (λ o. record (s5) { assigned_client_identifier = o }) p.assigned_client_identifier
                  (λ x h. string_arm-Reads _ x h) v.0)
                (append-Parses arms
                  (option_image PropertyType.topic_alias_maximum u16 p.topic_alias_max) _ (s6) s7 p
                  (option-Parses arms PropertyType.topic_alias_maximum u16 (λ _. Unit)
                    (λ o. record (s6) { topic_alias_max = o }) p.topic_alias_max
                    (λ x _. u16_arm-Reads _ x) (IsSome-unit p.topic_alias_max))
                  (append-Parses arms
                    (option_image PropertyType.reason_string mqtt_bytes p.reason_string) _ (s7) s8 p
                    (option-Parses arms PropertyType.reason_string mqtt_bytes IsText
                      (λ o. record (s7) { reason_string = o }) p.reason_string
                      (λ x h. string_arm-Reads _ x h) v.1)
                    (append-Parses arms (users_image p.user_properties) _ (s8) s9 p
                      (users-Parses arms (λ us. record (s8) { user_properties = us })
                        p.user_properties (λ us u h. user_arm-Reads _ u h) v.2)
                      (append-Parses arms
                        (option_image PropertyType.wildcard_subscription_available (λ n. n ∷ [])
                          p.wildcard_subscription_available)
                        _ (s9) s10 p
                        (option-Parses arms PropertyType.wildcard_subscription_available
                          (λ n. n ∷ []) (λ _. Unit)
                          (λ o. record (s9) { wildcard_subscription_available = o })
                          p.wildcard_subscription_available (λ x _. u8_arm-Reads _ x)
                          (IsSome-unit p.wildcard_subscription_available))
                        (append-Parses arms
                          (option_image PropertyType.subscription_identifier_available (λ n. n ∷ [])
                            p.subscription_identifiers_available)
                          _ (s10) s11 p
                          (option-Parses arms PropertyType.subscription_identifier_available
                            (λ n. n ∷ []) (λ _. Unit)
                            (λ o. record (s10) { subscription_identifiers_available = o })
                            p.subscription_identifiers_available (λ x _. u8_arm-Reads _ x)
                            (IsSome-unit p.subscription_identifiers_available))
                          (append-Parses arms
                            (option_image PropertyType.shared_subscription_available (λ n. n ∷ [])
                              p.shared_subscription_available)
                            _ (s11) s12 p
                            (option-Parses arms PropertyType.shared_subscription_available
                              (λ n. n ∷ []) (λ _. Unit)
                              (λ o. record (s11) { shared_subscription_available = o })
                              p.shared_subscription_available (λ x _. u8_arm-Reads _ x)
                              (IsSome-unit p.shared_subscription_available))
                            (append-Parses arms
                              (option_image PropertyType.server_keep_alive u16 p.server_keep_alive)
                              _ (s12) s13 p
                              (option-Parses arms PropertyType.server_keep_alive u16 (λ _. Unit)
                                (λ o. record (s12) { server_keep_alive = o }) p.server_keep_alive
                                (λ x _. u16_arm-Reads _ x) (IsSome-unit p.server_keep_alive))
                              (append-Parses arms
                                (option_image PropertyType.response_information mqtt_bytes
                                  p.response_information)
                                _ (s13) s14 p
                                (option-Parses arms PropertyType.response_information mqtt_bytes
                                  IsText (λ o. record (s13) { response_information = o })
                                  p.response_information (λ x h. string_arm-Reads _ x h) v.3)
                                (append-Parses arms
                                  (option_image PropertyType.server_reference mqtt_bytes
                                    p.server_reference)
                                  _ (s14) s15 p
                                  (option-Parses arms PropertyType.server_reference mqtt_bytes
                                    IsText (λ o. record (s14) { server_reference = o })
                                    p.server_reference (λ x h. string_arm-Reads _ x h) v.4)
                                  (append-Parses arms
                                    (option_image PropertyType.authentication_method mqtt_bytes
                                      p.authentication_method)
                                    _ (s15) s16 p
                                    (option-Parses arms PropertyType.authentication_method
                                      mqtt_bytes IsText
                                      (λ o. record (s15) { authentication_method = o })
                                      p.authentication_method (λ x h. string_arm-Reads _ x h) v.5)
                                    (option-Parses arms PropertyType.authentication_data mqtt_bytes
                                      IsShort (λ o. record (s16) { authentication_data = o })
                                      p.authentication_data (λ x h. bytes_arm-Reads _ x)
                                      v.6))))))))))))))))

abbrev pub codec : Codec ConnAckProperties
codec = record {
  len = len;
  write = write;
  arms = arms;
  empty = empty;
  image = image;
  IsValid = IsValid;
  length-image = length-image;
  write-Writes = write-Writes;
  arms-Parses = arms-Parses;
  arms-AreTotal = arms-AreTotal;
}
