-- ===== src/Lib.antt =====
-- A verification library of RobustMQ: the MQTT wire protocol of src/protocol, the access
-- control of src/mqtt-broker, the storage in memory of src/storage-adapter, and the segment status
-- of src/journal-server.
--
-- The program. A RobustMQ cluster is a placement center (metadata and scheduling, on Raft), an
-- MQTT broker (sessions, subscriptions, access control), a journal server (segments) and storage
-- adapters. A byte stream from a client is cut into frames by `check` of
-- src/protocol/src/mqtt/common.rs, and each frame is read by the codec of the protocol's version;
-- answers are written by the same codec into the buffer of the connection.
--
-- The files.
--   Prelude: the library's names, Boolean tests on numbers, lists measured by native numbers.
--   Mqtt/Bytes, Mqtt/Outcome, Mqtt/Buffer: bytes and UTF-8 as `String::from_utf8` reads it; the
--     result of a call, a value, an `Error` or a panic; a computation on a `Bytes` or `BytesMut`,
--     which returns its outcome and the buffer after it. A buffer stays changed on an error.
--   Mqtt/Types: the packets of common.rs, structs as records and enums as data types.
--   Mqtt/Reader, Mqtt/Writer: `read_u8`, `read_mqtt_bytes`, `write_remaining_length` and the
--     others of common.rs. Reader/Total, Reader/Spend: their totality, and what they take.
--   Mqtt/Header: `length`, `parse_fixed_header` and `check`. Header/Image: the bytes of a variable
--     byte integer; Header/Check: `check` on whole, cut and arbitrary streams.
--   Mqtt/Wire: what the write functions put on the wire, and what the read functions make of it.
--   Mqtt/V4: a module for each file of src/protocol/src/mqtt/mqttv4, with its `read` and `write`,
--     the frame that `write` leaves, what `read` makes of it, and that `read` returns.
--   Mqtt/V4/Codec: `Mqtt4Codec`, its `encode` and `decode`.
--   Mqtt/Frames: what the codecs share of `decode`: a frame leaves the stream, and is read by type.
--   Mqtt/V5: a module for each file of src/protocol/src/mqtt/mqttv5, with the properties of each
--     packet. V5/PropertyType: `PropertyType` and `property` of mod.rs; V5/Fields: how a property is
--     measured, written and read, in one step each; V5/Properties: the length before the properties
--     and the loop over them, and what a `properties` module promises (Properties/Codec);
--     V5/ReasonProperties, V5/Ack and V5/ReasonList: what files that are the same but for their
--     types share, with those types as a record that each file fills; V5/Repeat: loops over items.
--   Mqtt/V5/Codec: `Mqtt5Codec`, its `encode` and `decode`.
--   Mqtt/Codec: `MqttCodec` of src/protocol/src/mqtt/codec.rs, which picks the codec by the version,
--     and `connect_read` of common.rs beside it; the version is the state. Codec/Read, Codec/Write and
--     Codec/Size: the matches of `decode_data`, `encode_data` and `calc_mqtt_packet_len`, which the
--     source has beside those of the two codecs; Codec/Laws: `decode_data` on arbitrary bytes;
--     Codec/Sizes: `encode_data` and the sizes.
--   Maps: `DashMap` with texts as keys.
--   Broker/Acl: `is_allow_acl` of src/mqtt-broker/src/security/acl/auth.rs. Acl/Metadata: the
--     rules and blacklists of metadata.rs beside it; Acl/Rules: what a rule forbids;
--     Acl/Banned, Acl/Blacklist and Acl/Decision: the answers. The crates `regex` and `ipnet` and the address
--     parser are the record Crates, an argument; the clock is the argument `now`; a pattern that
--     does not compile is the answer none, the panic of an `unwrap`.
--   Broker/TopicFilter: src/mqtt-broker/src/subscribe/sub_common.rs up to line 154, on paths as
--     UTF-8 bytes. TopicFilter/Paths: split and join; TopicFilter/Shared, TopicFilter/Validator and
--     TopicFilter/Matched: shared subscriptions, valid paths, and matching. The crate `regex` is an
--     argument, and none stands for a panic, as in Broker/Acl.
--   Storage/Memory: `MemoryStorageAdapter` of src/storage-adapter/src/memory/mod.rs.
--     Memory/Written: what writes keep; Memory/Read: what reads find;
--     Memory/Shards: offsets by time and of groups.
--   Journal/SegmentStatus: src/journal-server/src/core/segment_status.rs on the segments of one
--     shard in the cache; the call of the placement center is an argument, and an error of it
--     leaves the cache as it was changed. SegmentStatus/Steps: the steps that a segment takes.
--
-- How the code is modelled. A `u8`, `u16` or `usize` is a native number; a packet's fields are
-- taken as they are, and texts are their UTF-8 bytes. Where Rust panics (`advance` or `split_to`
-- out of range, a subtraction below 0, `unreachable!()`) the outcome is `panic`. The parameters
-- of the codec are none: what it uses of the crate `bytes` is split, advance, get and put, which
-- are written out.
--
-- Fuel. `write_remaining_length` divides by 128 until 0 is left: ten rounds are enough for a
-- usize. The loop over the filters of a subscribe takes three bytes a round, that of an
-- unsubscribe two, and each is given as many rounds as there are bytes; the loops of MQTT 5 over
-- filters and over properties take a byte at least, and move the cursor by one at least. Running
-- out of fuel is `panic`.
--
-- Not modelled: most of the broker, the rest of the journal server and the placement center, and
-- what has no logic of its own: network and disk I/O, RPC stubs that a build generates,
-- configuration files, and the command-line tools.
pub mod Broker
pub mod Journal
pub mod Maps
pub mod Mqtt
pub mod Prelude
pub mod Storage
