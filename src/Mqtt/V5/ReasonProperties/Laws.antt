-- ===== src/Mqtt/V5/ReasonProperties/Laws.antt =====
-- Reason strings and user properties of src/protocol/src/mqtt/mqttv5, written and read again.
use robustmq.Prelude.{◌≤◌, ◌≡◌, subst, Option, none, List, [], ◌++◌, arith}
use robustmq.Prelude.{length, length-append, All}
use robustmq.Mqtt.Bytes.{Bytes, Text}
use robustmq.Mqtt.Wire.{mqtt_bytes}
use robustmq.Mqtt.V5.PropertyType.{PropertyType}
use robustmq.Mqtt.V5.Fields.{write_option}
use robustmq.Mqtt.V5.Fields.Total.{string_arm-Total, user_arm-Total}
use robustmq.Mqtt.V5.Fields.Image.{
  IsText, IsUser, IsSome, option_image, users_image, Writes, Writes->>, write_option-Writes,
  write_users-Writes, write_mqtt_string-Writes, length-option_bytes, length-users_image,
  string_arm-Reads, user_arm-Reads,
}
use robustmq.Mqtt.V5.Properties.Total.{AreTotal}
use robustmq.Mqtt.V5.Properties.Image.{
  Parses, sized, append-Parses, option-Parses, users-Parses, write_sized-Writes,
}
use robustmq.Mqtt.V5.Properties.Codec.{Codec}
use robustmq.Mqtt.V5.ReasonProperties.{Shape, len, write, arms, empty}

-- The struct holds what it is made of.
pub record IsStruct {P : Type 0} (k : Shape P) : Type 0 where
  pub reason_string-make :
      (r : Option Text) (us : List (Text × Text)) → k.reason_string (k.make r us) ≡ r
  pub user_properties-make :
      (r : Option Text) (us : List (Text × Text)) → k.user_properties (k.make r us) ≡ us
  pub make-fields : (p : P) → k.make (k.reason_string p) (k.user_properties p) ≡ p

module _ {P : Type 0} (k : Shape P) where
  abbrev pub image : P → Bytes
  image p =
      option_image PropertyType.reason_string mqtt_bytes (k.reason_string p)
      ++ users_image (k.user_properties p)

  abbrev pub IsValid : P → Type 0
  IsValid p = IsSome IsText (k.reason_string p) × All IsUser (k.user_properties p)

  pub length-image : (p : P) → length (image p) ≡ len k p
  unfolding len
  length-image p = omega (
    arith,
    length-append (option_image PropertyType.reason_string mqtt_bytes (k.reason_string p))
        (users_image (k.user_properties p)),
    length-option_bytes PropertyType.reason_string (k.reason_string p),
    length-users_image (k.user_properties p),
  )

  pub write-Writes :
      (p : P) → IsValid p → len k p ≤ 268435455 → Writes (write k p) (sized (image p))
  unfolding write
  write-Writes p v h = write_sized-Writes (len k p) _ (image p) (length-image p) h (
      Writes->> (write_option _ _ _) _ _ _
        (write_option-Writes _ _ mqtt_bytes IsText (k.reason_string p)
          (λ s t. write_mqtt_string-Writes s t.0) v.0)
        (write_users-Writes (k.user_properties p) v.1))

  pub arms-AreTotal : AreTotal (arms k)
  unfolding arms
  arms-AreTotal PropertyType.reason_string prop p = string_arm-Total _
  arms-AreTotal PropertyType.user_property prop p = user_arm-Total _
  arms-AreTotal _ prop p = λ _. tt

  pub arms-Parses : IsStruct k → (p : P) → IsValid p → Parses (arms k) (image p) (empty k) p
  unfolding arms empty
  arms-Parses s p v =
      subst (λ q. Parses (arms k) (image p) (empty k) q) (s.make-fields p)
        (append-Parses (arms k) (option_image _ mqtt_bytes (k.reason_string p))
          (users_image (k.user_properties p)) _ (k.make (k.reason_string p) [])
          (k.make (k.reason_string p) (k.user_properties p))
          (option-Parses (arms k) PropertyType.reason_string mqtt_bytes IsText (λ r. k.make r [])
            (k.reason_string p)
            (λ x h rest. rw (s.user_properties-make none []) (string_arm-Reads _ x h rest)) v.0)
          (users-Parses (arms k) (λ us. k.make (k.reason_string p) us) (k.user_properties p)
            (λ us u h rest.
              rw (s.user_properties-make (k.reason_string p) us)
                (rw (s.reason_string-make (k.reason_string p) us) (user_arm-Reads _ u h rest)))
            v.1))

  abbrev pub codec : IsStruct k → Codec P
  codec s = record {
    len = len k;
    write = write k;
    arms = arms k;
    empty = empty k;
    image = image;
    IsValid = IsValid;
    length-image = length-image;
    write-Writes = write-Writes;
    arms-Parses = arms-Parses s;
    arms-AreTotal = arms-AreTotal;
  }
