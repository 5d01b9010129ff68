-- ===== src/Mqtt/V4/ConnAck.antt =====
-- src/protocol/src/mqtt/mqttv4/connack.rs.
use robustmq.Prelude.{ℕ, ◌+◌, ◌≤◌, ◌≡◌, bit_and, [], ◌∷◌, ◌++◌, arith}
use robustmq.Prelude.{◌==◌, if◌then◌else◌, length, append_assoc}
use robustmq.Mqtt.Bytes.{Bytes}
use robustmq.Mqtt.Outcome.{Outcome, ok, err, panic, Returns, invalid_connect_return_code}
use robustmq.Mqtt.Buffer.{Buffered, ◌>>=◌, ◌>>◌, run, pure, lift, Returns->>=}
use robustmq.Mqtt.Reader.{advance, read_u8}
use robustmq.Mqtt.Reader.Total.{advance-Returns, read_u8-Total}
use robustmq.Mqtt.Writer.{bool_u8, put_u8, write_remaining_length, len_len}
use robustmq.Mqtt.Types.Codes.{ConnectReturnCode}
use robustmq.Mqtt.Types.Packets.{FixedHeader, ConnAck}
use robustmq.Mqtt.Header.{new}
use robustmq.Mqtt.Header.Image.{var_int}
use robustmq.Mqtt.Header.Check.{frame}
use robustmq.Mqtt.Wire.{header, advance-frame, write_remaining_length-header, append-frame}

len : ℕ
len = 2

unfoldable pub connect_return : ℕ → Outcome ConnectReturnCode
connect_return num =
    if num == 0
    then ok ConnectReturnCode.success
    else if num == 1
    then ok ConnectReturnCode.refused_protocol_version
    else if num == 2
    then ok ConnectReturnCode.bad_client_id
    else if num == 3
    then ok ConnectReturnCode.service_unavailable
    else if num == 4
    then ok ConnectReturnCode.bad_user_name_password
    else if num == 5
    then ok ConnectReturnCode.not_authorized
    else err (invalid_connect_return_code num)

-- The codes of MQTT 5 are `unreachable!()` here.
unfoldable pub connect_code : ConnectReturnCode → Outcome ℕ
connect_code ConnectReturnCode.success = ok 0
connect_code ConnectReturnCode.refused_protocol_version = ok 1
connect_code ConnectReturnCode.bad_client_id = ok 2
connect_code ConnectReturnCode.service_unavailable = ok 3
connect_code ConnectReturnCode.bad_user_name_password = ok 4
connect_code ConnectReturnCode.not_authorized = ok 5
connect_code _ = panic

unfoldable pub read : FixedHeader → Bytes → Outcome ConnAck
read h = run do
  advance h.fixed_header_len
  flags ← read_u8
  return_code ← read_u8
  let session_present = bit_and flags 0x01 == 1
  code ← lift (connect_return return_code)
  pure (record { session_present = session_present; code = code })

unfoldable pub write : ConnAck → Buffered ℕ
unfolding len bool_u8
write p = do
  put_u8 0x20
  count ← write_remaining_length len
  put_u8 (bool_u8 p.session_present)
  code ← lift (connect_code p.code)
  put_u8 code
  pure (1 + count + len)

pub connect_return-connect_code :
    (c : ConnectReturnCode) (n : ℕ) → connect_code c ≡ ok n → connect_return n ≡ ok c
unfolding connect_return connect_code
connect_return-connect_code c n e = ground arith

pub write-frame :
    (p : ConnAck) (n : ℕ) (buffer : Bytes)
    → connect_code p.code ≡ ok n
    → write p buffer ≡ (ok 4, buffer ++ frame 0x20 (bool_u8 p.session_present ∷ n ∷ []))
unfolding write put_u8 len_len
write-frame p n buffer e = ground (
  arith,
  write_remaining_length-header 0x20 2 buffer,
  append-frame 0x20 buffer (bool_u8 p.session_present ∷ n ∷ []),
  append_assoc (buffer ++ 0x20 ∷ var_int 2) (bool_u8 p.session_present ∷ []) (n ∷ []),
)

pub read-frame :
    (p : ConnAck) (n : ℕ)
    → connect_code p.code ≡ ok n
    → read
        (header 0x20 (bool_u8 p.session_present ∷ n ∷ []))
        (frame 0x20 (bool_u8 p.session_present ∷ n ∷ []))
      ≡ ok p
unfolding read new read_u8 bool_u8
read-frame p n e = ground (
  arith,
  advance-frame 0x20 (bool_u8 p.session_present ∷ n ∷ []),
  connect_return-connect_code p.code n e,
)

connect_return-Returns : (n : ℕ) → Returns (connect_return n)
unfolding connect_return
connect_return-Returns n = ground arith

pub read-Returns :
    (h : FixedHeader) (bytes : Bytes) → h.fixed_header_len ≤ length bytes → Returns (read h bytes)
unfolding read
read-Returns h bytes k = Returns->>= (advance _) _ bytes (advance-Returns _ bytes k) λ _ bs.
    Returns->>= read_u8 _ bs (read_u8-Total bs) λ _ bs'.
      Returns->>= read_u8 _ bs' (read_u8-Total bs')
        λ n bs''. Returns->>= (lift (connect_return n)) _ bs'' (connect_return-Returns n) λ _ _. tt
