-- ===== src/Mqtt.antt =====
-- The MQTT wire protocol: src/protocol/src/mqtt.
pub mod Bytes
pub mod Outcome
pub mod Buffer
pub mod Reader
pub mod Writer
pub mod Types
pub mod Header
pub mod Qos
pub mod Wire
pub mod Frames
pub mod Codec
pub mod V4
pub mod V5
