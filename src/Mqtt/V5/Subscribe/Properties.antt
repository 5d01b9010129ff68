-- ===== src/Mqtt/V5/Subscribe/Properties.antt =====
-- The properties of src/protocol/src/mqtt/mqttv5/subscribe.rs.
use robustmq.Prelude.{ℕ, ◌+◌, none, some, [], ◌∷◌, ◌++◌}
use robustmq.Mqtt.Buffer.{Buffered, ◌>>=◌, ◌>>◌, fail}
use robustmq.Mqtt.Outcome.{invalid_property_type}
use robustmq.Mqtt.Writer.{write_remaining_length}
use robustmq.Mqtt.Types.Properties.{SubscribeProperties}
use robustmq.Mqtt.V5.PropertyType.{PropertyType}
use robustmq.Mqtt.V5.Fields.{
  len_of_users, len_of_identifier, write_option, write_users, write_identifier, user_arm,
  identifier_arm,
}
use robustmq.Mqtt.V5.Fields.Total.{user_arm-Total, identifier_arm-Total}
use robustmq.Mqtt.V5.Properties.{Arms}
use robustmq.Mqtt.V5.Properties.Total.{AreTotal}

unfoldable pub len : SubscribeProperties → ℕ
len p = len_of_identifier p.subscription_identifier + len_of_users p.user_properties

unfoldable pub write : SubscribeProperties → Buffered (Unit {0})
unfolding len
write p = write_remaining_length (len p) >>= λ _. do
  write_option PropertyType.subscription_identifier write_identifier p.subscription_identifier
  write_users p.user_properties

-- The match of `read`.
unfoldable pub arms : Arms SubscribeProperties
arms PropertyType.subscription_identifier prop p =
    identifier_arm λ id. record p { subscription_identifier = some id }
arms PropertyType.user_property prop p =
    user_arm λ user. record p { user_properties = p.user_properties ++ user ∷ [] }
arms _ prop p = fail (invalid_property_type prop)

unfoldable pub empty : SubscribeProperties
empty = record { subscription_identifier = none; user_properties = [] }

pub arms-AreTotal : AreTotal arms
unfolding arms
arms-AreTotal PropertyType.subscription_identifier prop p = identifier_arm-Total _
arms-AreTotal PropertyType.user_property prop p = user_arm-Total _
arms-AreTotal _ prop p = λ _. tt
