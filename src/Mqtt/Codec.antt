-- ===== src/Mqtt/Codec.antt =====
-- `MqttCodec`, which keeps the protocol version of a connection: src/protocol/src/mqtt/codec.rs, and
-- `connect_read` of common.rs beside it.
pub mod Read
pub mod Write
pub mod Size
pub mod Laws
pub mod Sizes
pub mod Tests
use robustmq.Prelude.{ℕ, Bool, true, false, ◌||◌, Option, none, some, [], ◌∷◌}
use robustmq.Prelude.{◌==◌, if◌then◌else◌}
use robustmq.Mqtt.Bytes.{Bytes, Text, bytes_eq}
use robustmq.Mqtt.Outcome.{Outcome, ok, err, panic, invalid_protocol}
use robustmq.Mqtt.Outcome
use robustmq.Mqtt.Buffer.{Buffered, ◌>>=◌, ◌>>◌, run, guard, pure, fail}
use robustmq.Mqtt.Reader.{advance, read_u8, read_mqtt_string}
use robustmq.Mqtt.Header.{check, frame_length, packet_type}
use robustmq.Mqtt.Types.{MqttPacket}
use robustmq.Mqtt.Types.Codes.{PacketType}
use robustmq.Mqtt.Types.Packets.{FixedHeader, Connect, LastWill, Login}
use robustmq.Mqtt.Frames.{split_to, map_ok, max_size}
use robustmq.Mqtt.V4.Connect as Connect4
use robustmq.Mqtt.V5.Connect as Connect5
use robustmq.Mqtt.V5.Connect.{ConnectReadOutcome, mqtt}
use robustmq.Mqtt.Codec.Read.{read_v4, read_v5}
use robustmq.Mqtt.Codec.Write.{write_v4, write_v5}
use robustmq.Mqtt.Codec.Size.{size_v4, size_v5}

pub record MqttPacketWrapper : Type 0 where
  pub protocol_version : ℕ
  pub packet : MqttPacket

-- "MQIsdp".
abbrev mqisdp : Text
mqisdp = 77 ∷ 81 ∷ 73 ∷ 115 ∷ 100 ∷ 112 ∷ []

outcome_of : ℕ × Connect × Option Login × Option LastWill → ConnectReadOutcome
outcome_of (level, connect, login, last_will) = record {
  protocol_version = level;
  connect = connect;
  properties = none;
  last_will = last_will;
  last_will_properties = none;
  login = login;
}

-- The two branches of `connect_read` for the levels that it knows.
unfoldable pub read_level : ℕ → Buffered ConnectReadOutcome
unfolding outcome_of
read_level protocol_level =
    if protocol_level == 5
    then Connect5.read_rest protocol_level
    else if protocol_level == 4 || protocol_level == 3
    then (Connect4.read_rest protocol_level >>= λ r. pure (outcome_of r))
    else fail invalid_protocol

unfoldable pub connect_read : FixedHeader → Bytes → Outcome ConnectReadOutcome
unfolding bytes_eq read_level
connect_read h = run do
  advance h.fixed_header_len
  protocol_name ← read_mqtt_string
  protocol_level ← read_u8
  guard (bytes_eq protocol_name mqtt || bytes_eq protocol_name mqisdp) invalid_protocol
  read_level protocol_level

-- What follows the `if` on a connect.
unfoldable pub read_known : Option ℕ → PacketType → FixedHeader → Bytes → Outcome MqttPacket
unfolding read_v4 read_v5
read_known none t h bs = err invalid_protocol
read_known (some protocol_version) t h bs =
    if protocol_version == 4 || protocol_version == 3
    then read_v4 t h bs
    else if protocol_version == 5
    then read_v5 t h bs
    else err invalid_protocol

-- A connect that is read sets the version.
unfoldable pub connected :
    Option ℕ → FixedHeader → Bytes → Outcome ConnectReadOutcome → Option ℕ × Outcome MqttPacket
unfolding read_known
connected version h bs (ok o) = (
  some o.protocol_version,
  if o.protocol_version == 4 || o.protocol_version == 3
      then ok (MqttPacket.connect o.protocol_version o.connect none o.last_will none o.login)
      else if o.protocol_version == 5
      then ok (
          MqttPacket.connect o.protocol_version o.connect o.properties o.last_will
            o.last_will_properties o.login)
      else read_known (some o.protocol_version) PacketType.connect h bs,
)
connected version h bs (err e) = (version, err invalid_protocol)
connected version h bs panic = (version, panic)

unfoldable pub is_connect : PacketType → Bool
is_connect PacketType.connect = true
is_connect _ = false

unfoldable pub read_packet :
    Option ℕ → PacketType → FixedHeader → Bytes → Option ℕ × Outcome MqttPacket
unfolding is_connect connected read_known connect_read
read_packet version packet_type h bs =
    if is_connect packet_type
    then connected version h bs (connect_read h bs)
    else (version, read_known version packet_type h bs)

unfoldable pub read_frame :
    Option ℕ → FixedHeader → Bytes → Outcome PacketType → Option ℕ × Outcome (Option MqttPacket)
unfolding read_packet
read_frame version h packet (ok t) =
    let r = read_packet version t h packet in (r.0, map_ok some r.1)
read_frame version h packet (err e) = (version, err e)
read_frame version h packet panic = (version, panic)

unfoldable pub read_split :
    Option ℕ → FixedHeader → Outcome Bytes × Bytes → Option ℕ × Outcome (Option MqttPacket) × Bytes
unfolding read_frame
read_split version h (ok packet, rest) =
    let r = read_frame version h packet (packet_type h) in (r.0, r.1, rest)
read_split version h (err e, rest) = (version, err e, rest)
read_split version h (panic, rest) = (version, panic, rest)

-- What follows the check of the header.
unfoldable pub read_checked :
    Option ℕ → Bytes → Outcome FixedHeader → Option ℕ × Outcome (Option MqttPacket) × Bytes
unfolding read_split
read_checked version stream (ok h) = read_split version h (split_to (frame_length h) stream)
read_checked version stream (err e) = (version, err e, stream)
read_checked version stream panic = (version, panic, stream)

-- The state is the version, the answer is with the bytes that are left of the stream.
unfoldable pub decode_data : Option ℕ → Bytes → Option ℕ × Outcome (Option MqttPacket) × Bytes
unfolding read_checked
decode_data version stream = read_checked version stream (check stream max_size)

unfoldable pub encode_data : MqttPacketWrapper → Buffered (Unit {0})
encode_data wrapper =
    if wrapper.protocol_version == 4 || wrapper.protocol_version == 3
    then (write_v4 wrapper.packet >>= λ _. pure tt)
    else if wrapper.protocol_version == 5
    then (write_v5 wrapper.packet >>= λ _. pure tt)
    else pure tt

-- The packet is written in a new buffer, and the size is what the writer returns.
unfoldable pub calc_mqtt_packet_len : MqttPacketWrapper → Outcome ℕ
calc_mqtt_packet_len wrapper =
    let buffer : Bytes = [] in
    if wrapper.protocol_version == 4 || wrapper.protocol_version == 3
    then (size_v4 wrapper.packet buffer).0
    else if wrapper.protocol_version == 5
    then (size_v5 wrapper.packet buffer).0
    else ok 0

-- `unwrap_or_default`.
or_default : Outcome ℕ → Outcome ℕ
or_default (ok n) = ok n
or_default (err e) = ok 0
or_default panic = panic

unfoldable pub calc_mqtt_packet_size : MqttPacketWrapper → Outcome ℕ
unfolding calc_mqtt_packet_len or_default
calc_mqtt_packet_size wrapper = or_default (calc_mqtt_packet_len wrapper)
