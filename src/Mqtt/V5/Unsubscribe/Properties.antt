-- ===== src/Mqtt/V5/Unsubscribe/Properties.antt =====
-- The properties of src/protocol/src/mqtt/mqttv5/unsubscribe.rs.
use robustmq.Prelude.{ℕ, [], ◌∷◌, ◌++◌}
use robustmq.Mqtt.Buffer.{Buffered, ◌>>=◌, fail}
use robustmq.Mqtt.Outcome.{invalid_packet_type}
use robustmq.Mqtt.Writer.{write_remaining_length}
use robustmq.Mqtt.Types.Properties.{UnsubscribeProperties}
use robustmq.Mqtt.V5.PropertyType.{PropertyType}
use robustmq.Mqtt.V5.Fields.{len_of_users, write_users, user_arm}
use robustmq.Mqtt.V5.Fields.Total.{user_arm-Total}
use robustmq.Mqtt.V5.Properties.{Arms}
use robustmq.Mqtt.V5.Properties.Total.{AreTotal}

unfoldable pub len : UnsubscribeProperties → ℕ
len p = len_of_users p.user_properties

unfoldable pub write : UnsubscribeProperties → Buffered (Unit {0})
unfolding len
write p = write_remaining_length (len p) >>= λ _. do write_users p.user_properties

-- The match of `read`.
unfoldable pub arms : Arms UnsubscribeProperties
arms PropertyType.user_property prop p =
    user_arm λ user. record p { user_properties = p.user_properties ++ user ∷ [] }
arms _ prop p = fail (invalid_packet_type prop)

unfoldable pub empty : UnsubscribeProperties
empty = record { user_properties = [] }

pub arms-AreTotal : AreTotal arms
unfolding arms
arms-AreTotal PropertyType.user_property prop p = user_arm-Total _
arms-AreTotal _ prop p = λ _. tt
