-- ===== src/Mqtt/V5/Unsubscribe.antt =====
-- src/protocol/src/mqtt/mqttv5/unsubscribe.rs.
pub mod Properties
pub mod Image
pub mod Laws
use robustmq.Prelude.{ℕ, ◌+◌, ◌≤◌, List, [], ◌∷◌, Option}
use robustmq.Prelude.{length}
use robustmq.Mqtt.Bytes.{Bytes, Text}
use robustmq.Mqtt.Outcome.{Outcome, Returns}
use robustmq.Mqtt.Buffer.{Buffered, ◌>>=◌, ◌>>◌, run, pure, Returns->>=}
use robustmq.Mqtt.Reader.{advance, read_u16, read_mqtt_string}
use robustmq.Mqtt.Reader.Total.{advance-Returns, read_u16-Total, read_mqtt_string-Total}
use robustmq.Mqtt.Reader.Spend.{read_mqtt_string-Spends}
use robustmq.Mqtt.Writer.{put_u8, put_u16, write_remaining_length, write_mqtt_string}
use robustmq.Mqtt.Types.Packets.{FixedHeader, Unsubscribe}
use robustmq.Mqtt.Types.Properties.{UnsubscribeProperties}
use robustmq.Mqtt.V5.Properties.{len_of, write_or_zero, read_properties}
use robustmq.Mqtt.V5.Properties.Total.{read_properties-Total}
use robustmq.Mqtt.V5.Repeat.{read_all, write_all, read_all-Total}
use Properties as Fields

-- The fold in `len`.
topics_len : List Text → ℕ
topics_len [] = 0
topics_len (t ∷ ts) = 2 + length t + topics_len ts

unfoldable pub len : Unsubscribe → Option UnsubscribeProperties → ℕ
unfolding topics_len
len p properties = 2 + topics_len p.filters + len_of Fields.len properties

unfoldable pub write : Unsubscribe → Option UnsubscribeProperties → Buffered ℕ
unfolding len
write p properties = do
  put_u8 0xa2
  remaining_len_bytes ← write_remaining_length (len p properties)
  put_u16 p.pkid
  write_or_zero Fields.write properties
  write_all write_mqtt_string p.filters
  pure (1 + remaining_len_bytes + len p properties)

unfoldable pub read : FixedHeader → Bytes → Outcome (Unsubscribe × Option UnsubscribeProperties)
read h = run do
  advance h.fixed_header_len
  pkid ← read_u16
  properties ← read_properties Fields.arms Fields.empty
  filters ← read_all read_mqtt_string
  pure (record { pkid = pkid; filters = filters }, properties)

pub read-Returns :
    (h : FixedHeader) (bytes : Bytes) → h.fixed_header_len ≤ length bytes → Returns (read h bytes)
unfolding read
read-Returns h bytes g = Returns->>= (advance _) _ bytes (advance-Returns _ bytes g) λ _ bs.
    Returns->>= read_u16 _ bs (read_u16-Total bs) λ pkid bs'.
      Returns->>= (read_properties Fields.arms Fields.empty) _ bs'
        (read_properties-Total Fields.arms Fields.empty Fields.arms-AreTotal bs')
        λ o bs2.
          Returns->>= (read_all read_mqtt_string) _ bs2
            (read_all-Total read_mqtt_string read_mqtt_string-Total read_mqtt_string-Spends bs2)
            λ _ _. tt
