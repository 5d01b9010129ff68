-- ===== src/Mqtt/V4.antt =====
-- The packets of MQTT 3.1.1: src/protocol/src/mqtt/mqttv4.
pub mod PubAck
pub mod PubRec
pub mod PubRel
pub mod PubComp
pub mod UnsubAck
pub mod ConnAck
pub mod Ping
pub mod Disconnect
pub mod SubAck
pub mod Publish
pub mod Subscribe
pub mod Unsubscribe
pub mod Connect
pub mod Codec
