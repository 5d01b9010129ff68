-- ===== src/Mqtt/V5/Unsubscribe/Image.antt =====
-- What the properties of src/protocol/src/mqtt/mqttv5/unsubscribe.rs are on the wire.
use robustmq.Prelude.{◌≤◌, ◌≡◌, arith}
use robustmq.Prelude.{length, All}
use robustmq.Mqtt.Bytes.{Bytes}
use robustmq.Mqtt.Types.Properties.{UnsubscribeProperties}
use robustmq.Mqtt.V5.Fields.Image.{
  Writes, IsUser, users_image, write_users-Writes, length-users_image, user_arm-Reads,
}
use robustmq.Mqtt.V5.Properties.Image.{Parses, sized, users-Parses, write_sized-Writes}
use robustmq.Mqtt.V5.Properties.Codec.{Codec}
use robustmq.Mqtt.V5.Unsubscribe.Properties.{len, write, arms, empty, arms-AreTotal}

abbrev pub image : UnsubscribeProperties → Bytes
image p = users_image p.user_properties

-- Texts and data that the wire can hold.
abbrev pub IsValid : UnsubscribeProperties → Type 0
IsValid p = All IsUser p.user_properties

pub length-image : (p : UnsubscribeProperties) → length (image p) ≡ len p
unfolding len
length-image p = omega (arith, length-users_image p.user_properties)

pub write-Writes :
    (p : UnsubscribeProperties) → IsValid p → len p ≤ 268435455 → Writes (write p) (sized (image p))
unfolding write
write-Writes p v h =
    write_sized-Writes (len p) _ (image p) (length-image p) h
      (write_users-Writes p.user_properties v)

pub arms-Parses : (p : UnsubscribeProperties) → IsValid p → Parses arms (image p) empty p
unfolding arms empty
arms-Parses p v =
    users-Parses arms (λ us. record (empty) { user_properties = us }) p.user_properties
      (λ us u h. user_arm-Reads _ u h) v

abbrev pub codec : Codec UnsubscribeProperties
codec = record {
  len = len;
  write = write;
  arms = arms;
  empty = empty;
  image = image;
  IsValid = IsValid;
  length-image = length-image;
  write-Writes = write-Writes;
  arms-Parses = arms-Parses;
  arms-AreTotal = arms-AreTotal;
}
