-- ===== src/Mqtt/V5.antt =====
-- The packets of MQTT 5: src/protocol/src/mqtt/mqttv5.
pub mod PropertyType
pub mod Fields
pub mod Properties
pub mod ReasonProperties
pub mod Ack
pub mod PubAck
pub mod PubRec
pub mod PubRel
pub mod PubComp
pub mod ReasonList
pub mod SubAck
pub mod UnsubAck
pub mod ConnAck
pub mod Auth
pub mod Disconnect
pub mod Unsubscribe
pub mod Connect
pub mod Publish
pub mod Subscribe
pub mod Repeat
pub mod Ping
pub mod Codec
mod Tests
