-- ===== src/Mqtt/V5/Codec/Safety.antt =====
-- `decode` of src/protocol/src/mqtt/mqttv5/codec.rs on arbitrary bytes from the network.
use robustmq.Prelude.{◌≡◌, length, arith}
use robustmq.Mqtt.Bytes.{Bytes}
use robustmq.Mqtt.Outcome.{Returns}
use robustmq.Mqtt.Types.Codes.{PacketType}
use robustmq.Mqtt.Types.Packets.{FixedHeader}
use robustmq.Mqtt.Header.{frame_length}
use robustmq.Mqtt.Frames.{map_ok-Returns}
use robustmq.Mqtt.Frames
use robustmq.Mqtt.V5.Connect
use robustmq.Mqtt.V5.ConnAck
use robustmq.Mqtt.V5.Publish
use robustmq.Mqtt.V5.PubAck
use robustmq.Mqtt.V5.PubRec
use robustmq.Mqtt.V5.PubRel
use robustmq.Mqtt.V5.PubComp
use robustmq.Mqtt.V5.Subscribe
use robustmq.Mqtt.V5.SubAck
use robustmq.Mqtt.V5.Unsubscribe
use robustmq.Mqtt.V5.UnsubAck
use robustmq.Mqtt.V5.Disconnect
use robustmq.Mqtt.V5.Auth
use robustmq.Mqtt.V5.Codec.{decode, read_packet}

-- No reader panics on a frame as long as its header says.
pub read_packet-Returns :
    (t : PacketType) (h : FixedHeader) (bs : Bytes)
    → frame_length h ≡ length bs
    → Returns (read_packet t h bs)
unfolding read_packet frame_length
read_packet-Returns PacketType.connect h bs e =
    map_ok-Returns _ (Connect.read h bs) (Connect.Total.read-Returns h bs (omega arith))
read_packet-Returns PacketType.conn_ack h bs e =
    map_ok-Returns _ (ConnAck.read h bs) (ConnAck.read-Returns h bs (omega arith))
read_packet-Returns PacketType.publish h bs e =
    map_ok-Returns _ (Publish.read h bs) (Publish.read-Returns h bs (omega arith))
read_packet-Returns PacketType.pub_ack h bs e =
    map_ok-Returns _ (PubAck.read h bs) (PubAck.read-Returns h bs (omega arith))
read_packet-Returns PacketType.pub_rec h bs e =
    map_ok-Returns _ (PubRec.read h bs) (PubRec.read-Returns h bs (omega arith))
read_packet-Returns PacketType.pub_rel h bs e =
    map_ok-Returns _ (PubRel.read h bs) (PubRel.read-Returns h bs (omega arith))
read_packet-Returns PacketType.pub_comp h bs e =
    map_ok-Returns _ (PubComp.read h bs) (PubComp.read-Returns h bs (omega arith))
read_packet-Returns PacketType.subscribe h bs e =
    map_ok-Returns _ (Subscribe.read h bs) (Subscribe.read-Returns h bs (omega arith))
read_packet-Returns PacketType.sub_ack h bs e =
    map_ok-Returns _ (SubAck.read h bs) (SubAck.read-Returns h bs (omega arith))
read_packet-Returns PacketType.unsubscribe h bs e =
    map_ok-Returns _ (Unsubscribe.read h bs) (Unsubscribe.read-Returns h bs (omega arith))
read_packet-Returns PacketType.unsub_ack h bs e =
    map_ok-Returns _ (UnsubAck.read h bs) (UnsubAck.read-Returns h bs (omega arith))
read_packet-Returns PacketType.disconnect h bs e =
    map_ok-Returns _ (Disconnect.read h bs) (Disconnect.read-Returns h bs (omega arith))
read_packet-Returns PacketType.auth h bs e =
    map_ok-Returns _ (Auth.read h bs) (Auth.read-Returns h bs (omega arith))
read_packet-Returns PacketType.ping_req h bs e = tt
read_packet-Returns PacketType.ping_resp h bs e = tt

-- Whatever bytes arrive, `decode` returns a packet or an error; it never panics.
pub decode-Returns_v5 : (stream : Bytes) → Returns (decode stream).0
unfolding decode
decode-Returns_v5 stream = Frames.decode-Returns_of read_packet stream read_packet-Returns
