-- ===== src/Broker.antt =====
-- The MQTT broker: src/mqtt-broker.
pub mod Acl
pub mod TopicFilter
