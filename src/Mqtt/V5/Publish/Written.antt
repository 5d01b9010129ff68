-- ===== src/Mqtt/V5/Publish/Written.antt =====
-- What `write` of src/protocol/src/mqtt/mqttv5/publish.rs announces, and what it writes.
use robustmq.Prelude.{
  ℕ, ◌+◌, ◌≤◌, ◌<◌, ◌≡◌, refl, ap, ◌∙◌, Bool, true, false, Option, none, some, List, [], ◌∷◌, ◌++◌,
  append_assoc, arith,
}
use robustmq.Prelude.{length, length-append, All, ◌==◌, if◌then◌else◌}
use robustmq.Mqtt.Bytes.{Bytes}
use robustmq.Mqtt.Outcome.{ok}
use robustmq.Mqtt.Writer.{put_u8, put_u16, put_slice, write_mqtt_string, write_mqtt_bytes, len_len}
use robustmq.Mqtt.Types.Packets.{Publish}
use robustmq.Mqtt.Types.Properties.{PublishProperties}
use robustmq.Mqtt.Qos.{is_at_most_once}
use robustmq.Mqtt.Header.Image.{
  var_int, length-var_int, write_remaining_length-var_int, var_int_small,
}
use robustmq.Mqtt.Wire.{u16, mqtt_bytes, length-mqtt_bytes, write_mqtt_bytes-image}
use robustmq.Mqtt.V5.PropertyType.{PropertyType, property_u8}
use robustmq.Mqtt.V5.Fields.{
  put_u32, write_option, write_users, write_identifier, write_identifiers, len_of_size,
  len_of_identifiers,
}
use robustmq.Mqtt.V5.Fields.Image.{
  IsSome-unit, Writes, Writes->>, Writes-Emits, Writes-pure, announced-Emits, nothing-Writes,
  IsText, IsShort, IsUser, IsSome, u32, option_image, users_image, write_option-Writes,
  write_users-Writes, put_u8-Writes, put_u16-Writes, put_u32-Writes, put_slice-Writes,
  write_mqtt_string-Writes, length-option_size, length-option_bytes, length-users_image,
  length-append_of,
}
use robustmq.Mqtt.V5.Properties.{len_of, write_or_zero}
use robustmq.Mqtt.V5.Publish.Properties
use robustmq.Mqtt.V5.Publish.{len, first_byte, write_pkid, write}

identifiers_image : List ℕ → Bytes
identifiers_image [] = []
identifiers_image (id ∷ rest) =
    (property_u8 PropertyType.subscription_identifier ∷ var_int id) ++ identifiers_image rest

abbrev pub IsIdentifier : ℕ → Type 0
IsIdentifier id = id ≤ 268435455

write_identifier-Writes : (id : ℕ) → IsIdentifier id → Writes (write_identifier id) (var_int id)
unfolding write_identifier
write_identifier-Writes id h buffer = rw (write_remaining_length-var_int id buffer h) refl

write_identifiers-Writes :
    (ids : List ℕ) → All IsIdentifier ids → Writes (write_identifiers ids) (identifiers_image ids)
unfolding write_identifiers identifiers_image
write_identifiers-Writes [] h buffer = nothing-Writes buffer
write_identifiers-Writes (id ∷ rest) h buffer =
    Writes->> (put_u8 _) _ (_ ∷ []) _ (put_u8-Writes _)
      (Writes->> (write_identifier id) _ (var_int id) _ (write_identifier-Writes id h.0)
        (write_identifiers-Writes rest h.1))
      buffer

length-identifiers_image : (ids : List ℕ) → length (identifiers_image ids) ≡ len_of_identifiers ids
unfolding identifiers_image len_of_identifiers
length-identifiers_image [] = refl
length-identifiers_image (id ∷ rest) = omega (
  arith,
  length-append (var_int id) (identifiers_image rest),
  length-var_int id,
  length-identifiers_image rest,
)

-- The properties without their length.
image : PublishProperties → Bytes
unfolding identifiers_image
image p =
    option_image PropertyType.payload_format_indicator (λ n. n ∷ []) p.payload_format_indicator
    ++ (option_image PropertyType.message_expiry_interval u32 p.message_expiry_interval
        ++ (option_image PropertyType.topic_alias u16 p.topic_alias
            ++ (option_image PropertyType.response_topic mqtt_bytes p.response_topic
                ++ (option_image PropertyType.correlation_data mqtt_bytes p.correlation_data
                    ++ (users_image p.user_properties
                        ++ (identifiers_image p.subscription_identifiers
                            ++ option_image PropertyType.content_type mqtt_bytes
                                p.content_type))))))

-- Texts, data and identifiers that the wire can hold.
abbrev pub IsValid : PublishProperties → Type 0
IsValid p =
    IsSome IsText p.response_topic
    × IsSome IsShort p.correlation_data
    × All IsUser p.user_properties
    × All IsIdentifier p.subscription_identifiers
    × IsSome IsText p.content_type

-- A topic alias is counted as one byte, and written as two.
abbrev pub uncounted : Option PublishProperties → ℕ
uncounted none = 0
uncounted (some p) = len_of_size 0 p.topic_alias

alias_length :
    (o : Option ℕ)
    → length (option_image PropertyType.topic_alias u16 o) ≡ len_of_size 1 o + len_of_size 0 o
unfolding len_of_size
alias_length none = refl
alias_length (some n) = refl

length-image :
    (p : PublishProperties) → length (image p) ≡ Properties.len p + len_of_size 0 p.topic_alias
unfolding image Properties.len
length-image p = omega (
  arith,
  length-append_of
      (option_image PropertyType.payload_format_indicator (λ n. n ∷ []) p.payload_format_indicator)
      _ _ _
      (length-option_size 1 PropertyType.payload_format_indicator (λ n. n ∷ [])
        p.payload_format_indicator (λ _. refl))
      (length-append_of
        (option_image PropertyType.message_expiry_interval u32 p.message_expiry_interval) _ _ _
        (length-option_size 4 PropertyType.message_expiry_interval u32 p.message_expiry_interval
          (λ _. refl))
        (length-append_of (option_image PropertyType.topic_alias u16 p.topic_alias) _ _ _
          (alias_length p.topic_alias)
          (length-append_of (option_image PropertyType.response_topic mqtt_bytes p.response_topic) _
            _ _ (length-option_bytes _ p.response_topic)
            (length-append_of
              (option_image PropertyType.correlation_data mqtt_bytes p.correlation_data) _ _ _
              (length-option_bytes _ p.correlation_data)
              (length-append_of (users_image p.user_properties) _ _ _
                (length-users_image p.user_properties)
                (length-append_of (identifiers_image p.subscription_identifiers) _ _ _
                  (length-identifiers_image p.subscription_identifiers)
                  (length-option_bytes PropertyType.content_type p.content_type))))))),
)

fields_written :
    (p : PublishProperties)
    → IsValid p
    → Properties.len p ≤ 268435455
    → Writes (Properties.write p) (var_int (Properties.len p) ++ image p)
unfolding Properties.write image
fields_written p v h buffer = rw (write_remaining_length-var_int (Properties.len p) buffer h) (
    Writes->> (write_option _ put_u8 p.payload_format_indicator) _ _ _
      (write_option-Writes _ put_u8 (λ n. n ∷ []) (λ _. Unit) p.payload_format_indicator
        (λ n _. put_u8-Writes n) (IsSome-unit p.payload_format_indicator))
      (Writes->> (write_option _ put_u32 p.message_expiry_interval) _ _ _
        (write_option-Writes _ put_u32 u32 (λ _. Unit) p.message_expiry_interval
          (λ n _. put_u32-Writes n) (IsSome-unit p.message_expiry_interval))
        (Writes->> (write_option _ put_u16 p.topic_alias) _ _ _
          (write_option-Writes _ put_u16 u16 (λ _. Unit) p.topic_alias (λ n _. put_u16-Writes n)
            (IsSome-unit p.topic_alias))
          (Writes->> (write_option _ write_mqtt_string p.response_topic) _ _ _
            (write_option-Writes _ _ mqtt_bytes IsText p.response_topic
              (λ s k. write_mqtt_string-Writes s k.0) v.0)
            (Writes->> (write_option _ write_mqtt_bytes p.correlation_data) _ _ _
              (write_option-Writes _ _ mqtt_bytes IsShort p.correlation_data
                (λ s k b. write_mqtt_bytes-image s b k) v.1)
              (Writes->> (write_users p.user_properties) _ _ _
                (write_users-Writes p.user_properties v.2)
                (Writes->> (write_identifiers p.subscription_identifiers) _ _ _
                  (write_identifiers-Writes p.subscription_identifiers v.3)
                  (write_option-Writes _ _ mqtt_bytes IsText p.content_type
                    (λ s k. write_mqtt_string-Writes s k.0) v.4)))))))
      (buffer ++ var_int (Properties.len p))
    ∙ ap (λ s. (ok tt, s)) (append_assoc buffer (var_int (Properties.len p)) _))

abbrev pub IsFit : Option PublishProperties → Type 0
IsFit none = Unit
IsFit (some p) = IsValid p × (Properties.len p ≤ 268435455)

abbrev options : Option PublishProperties → Bytes
options none = 0 ∷ []
options (some p) = var_int (Properties.len p) ++ image p

length-options :
    (o : Option PublishProperties) → length (options o) ≡ len_of Properties.len o + uncounted o
unfolding len_of
length-options none = refl
length-options (some p) = omega (
  arith,
  length-append (var_int (Properties.len p)) (image p),
  length-var_int (Properties.len p),
  length-image p,
)

options-Writes :
    (o : Option PublishProperties) → IsFit o → Writes (write_or_zero Properties.write o) (options o)
unfolding write_or_zero
options-Writes none v buffer =
    rw (write_remaining_length-var_int 0 buffer (omega arith))
      (rw (var_int_small 0 (omega arith)) refl)
options-Writes (some p) v buffer = fields_written p v.0 v.1 buffer

-- What can be written: an identifier exactly where the QoS is above 0.
pub record IsWritable (p : Publish) : Type 0 where
  pub topic_fits : length p.topic < 65536
  pub pkid_set : is_at_most_once p.qos ≡ (p.pkid == 0)

pkid_bytes : Bool → ℕ → Bytes
pkid_bytes true pkid = []
pkid_bytes false pkid = u16 pkid

write_pkid-Writes :
    (p : Publish) (b : Bool)
    → is_at_most_once p.qos ≡ b
    → (p.pkid == 0) ≡ b
    → Writes (write_pkid p) (pkid_bytes b p.pkid)
unfolding write_pkid pkid_bytes
write_pkid-Writes p true e f buffer = rw e (nothing-Writes buffer)
write_pkid-Writes p false e f buffer = rw (e, f) (put_u16-Writes p.pkid buffer)

abbrev body_of : Bool → Publish → Option PublishProperties → Bytes
body_of b p o = mqtt_bytes p.topic ++ (pkid_bytes b p.pkid ++ (options o ++ p.payload))

length-pkid_bytes : (b : Bool) (pkid : ℕ) → length (pkid_bytes b pkid) ≡ (if b then 0 else 2)
unfolding pkid_bytes
length-pkid_bytes true pkid = refl
length-pkid_bytes false pkid = refl

counted :
    (p : Publish) (o : Option PublishProperties) (b : Bool)
    → is_at_most_once p.qos ≡ b
    → (p.pkid == 0) ≡ b
    → len p o
      ≡ 2 + length p.topic + (if b then 0 else 2) + len_of Properties.len o + length p.payload
unfolding len
counted p o true e f = rw e (omega arith)
counted p o false e f = rw (e, f) (omega arith)

length-body_of :
    (p : Publish) (o : Option PublishProperties) (b : Bool)
    → is_at_most_once p.qos ≡ b
    → (p.pkid == 0) ≡ b
    → length (body_of b p o) ≡ len p o + uncounted o
length-body_of p o b e f = omega (
  arith,
  length-append (mqtt_bytes p.topic) (pkid_bytes b p.pkid ++ (options o ++ p.payload)),
  length-mqtt_bytes p.topic,
  length-append (pkid_bytes b p.pkid) (options o ++ p.payload),
  length-pkid_bytes b p.pkid,
  length-append (options o) p.payload,
  length-options o,
  counted p o b e f,
)

-- A publish that can be written is put behind what the buffer holds, with a remaining length that
-- counts its body, but for one byte less where the properties have a topic alias.
pub write-announced :
    (p : Publish) (o : Option PublishProperties) (buffer : Bytes)
    → IsWritable p
    → IsFit o
    → len p o ≤ 268435455
    → (body : Bytes) × (write p o buffer ≡ (
      ok (1 + len_len (len p o) + len p o),
      buffer ++ (first_byte p ∷ var_int (len p o) ++ body),
    ))
      × (length body ≡ len p o + uncounted o)
unfolding write
write-announced p o buffer w v h =
    let b = p.pkid == 0 in
    (
      body_of b p o,
      announced-Emits (first_byte p) (len p o) _ (body_of b p o) _ h
          (Writes-Emits (write_mqtt_bytes p.topic) _ (mqtt_bytes p.topic) _ _
            (λ s. write_mqtt_bytes-image p.topic s w.topic_fits)
            (Writes-Emits (write_pkid p) _ (pkid_bytes b p.pkid) _ _
              (write_pkid-Writes p b w.pkid_set refl)
              (Writes-Emits (write_or_zero Properties.write o) _ (options o) _ _
                (options-Writes o v)
                (Writes-pure (put_slice p.payload) p.payload _ (put_slice-Writes p.payload)))))
          buffer,
      length-body_of p o b w.pkid_set refl,
    )
