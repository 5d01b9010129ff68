-- ===== src/Mqtt/V4/Subscribe.antt =====
-- src/protocol/src/mqtt/mqttv4/subscribe.rs.
use robustmq.Prelude.{
  ℕ, zero, suc, ◌+◌, ◌≤◌, ◌<◌, ◌≡◌, refl, bit_and, true, false, List, [], ◌∷◌, ◌++◌, arith,
}
use robustmq.Prelude.{length, length-append, append_assoc, append-nil, All}
use robustmq.Mqtt.Bytes.{Bytes, is_utf8}
use robustmq.Mqtt.Outcome.{Outcome, ok, err, panic, Returns, empty_subscription}
use robustmq.Mqtt.Buffer.{
  Buffered, continue, ◌>>=◌, ◌>>◌, run, pure, fail, lift, Total, Returns->>=,
}
use robustmq.Mqtt.Reader.{advance, read_u8, read_u16, read_utf8_bytes}
use robustmq.Mqtt.Reader.Total.{
  advance-Returns, read_u8-Total, read_u16-Total, read_utf8_bytes-Total,
}
use robustmq.Mqtt.Reader.Spend.{
  Spends, >>=-Spends, lift-Spends, read_u8-Spends, read_utf8_bytes-Spends,
}
use robustmq.Mqtt.Writer.{put_u8, put_u16, write_remaining_length, write_mqtt_string}
use robustmq.Mqtt.Types.Codes.{Qos, at_most_once, at_least_once, exactly_once, on_every_subscribe}
use robustmq.Mqtt.Types.Packets.{FixedHeader, Filter, Subscribe}
use robustmq.Mqtt.Qos.{to_u8, qos_or_error, qos_or_error-Returns}
use robustmq.Mqtt.Header.{new}
use robustmq.Mqtt.Header.Image.{var_int}
use robustmq.Mqtt.Header.Check.{frame, length-frame}
use robustmq.Mqtt.Wire.{
  u16, mqtt_bytes, length-mqtt_bytes, header, read_u16-image, read_utf8_bytes-image, advance-frame,
  write_mqtt_string-image, write_remaining_length-header, append-frame,
}

-- `filter::len`, and its sum in `len`.
filter_len : Filter → ℕ
filter_len f = 2 + length f.path + 1

filters_len : List Filter → ℕ
filters_len [] = 0
filters_len (f ∷ fs) = filter_len f + filters_len fs

unfoldable pub len : Subscribe → ℕ
unfolding filters_len filter_len
len p = 2 + filters_len p.filters

-- `filter::write`.
write_filter : Filter → Buffered (Unit {0})
write_filter f = do write_mqtt_string f.path; put_u8 (to_u8 f.qos)

write_filters : List Filter → Buffered (Unit {0})
write_filters [] = pure tt
write_filters (f ∷ fs) = do write_filter f; write_filters fs

unfoldable pub write : Subscribe → Buffered ℕ
unfolding len write_filters write_filter
write p = do
  put_u8 0x82
  remaining_length_bytes ← write_remaining_length (len p)
  put_u16 p.packet_identifier
  write_filters p.filters
  pure (1 + remaining_length_bytes + len p)

-- The body of the loop of `filter::read`.
read_filter : Buffered Filter
unfolding qos_or_error
read_filter = do
  path ← read_utf8_bytes
  options ← read_u8
  qos ← lift (qos_or_error (bit_and options 0b0000_0011))
  pure (record {
    path = path;
    qos = qos;
    nolocal = false;
    preserve_retain = false;
    retain_forward_rule = on_every_subscribe;
  })

-- `filter::read`: rounds while bytes remain. Each round takes three bytes at least, so as many
-- rounds as there are bytes are enough.
read_filters : ℕ → Buffered (List Filter)
read_filters fuel [] = (ok [], [])
read_filters zero (b ∷ bs) = (panic, b ∷ bs)
read_filters (suc fuel) (b ∷ bs) =
    (read_filter >>= λ f. read_filters fuel >>= λ fs. pure (f ∷ fs)) (b ∷ bs)

all_filters : Buffered (List Filter)
unfolding read_filters read_filter
all_filters bs = read_filters (length bs) bs

-- The match on `filters.len()`.
abbrev subscribe_of : ℕ → List Filter → Buffered Subscribe
subscribe_of pkid [] = fail empty_subscription
subscribe_of pkid (f ∷ fs) = pure (record { packet_identifier = pkid; filters = f ∷ fs })

unfoldable pub read : FixedHeader → Bytes → Outcome Subscribe
unfolding all_filters
read h =
    run do
      advance h.fixed_header_len
      pkid ← read_u16
      filters ← all_filters
      subscribe_of pkid filters

-- What is written of a filter.
filter_bytes : Filter → Bytes
filter_bytes f = mqtt_bytes f.path ++ to_u8 f.qos ∷ []

filters_bytes : List Filter → Bytes
filters_bytes [] = []
filters_bytes (f ∷ fs) = filter_bytes f ++ filters_bytes fs

unfoldable pub body : Subscribe → Bytes
unfolding filters_bytes filter_bytes
body p = u16 p.packet_identifier ++ filters_bytes p.filters

-- A path that can be written, in UTF-8 and shorter than 2 ^ 16 bytes.
abbrev pub IsPath : Filter → Type 0
IsPath f = (length f.path < 65536) × (is_utf8 f.path ≡ true)

-- The filter that is read back: the options of MQTT 5 are not on the wire.
unfoldable pub v4_filter : Filter → Filter
v4_filter f = record f {
  nolocal = false;
  preserve_retain = false;
  retain_forward_rule = on_every_subscribe;
}

unfoldable pub v4_filters : List Filter → List Filter
unfolding v4_filter
v4_filters [] = []
v4_filters (f ∷ fs) = v4_filter f ∷ v4_filters fs

write_filters-image :
    (fs : List Filter) (buffer : Bytes)
    → All IsPath fs
    → write_filters fs buffer ≡ (ok tt, buffer ++ filters_bytes fs)
unfolding write_filters write_filter filters_bytes filter_bytes put_u8
write_filters-image [] buffer h = ground (arith, append-nil buffer)
write_filters-image (f ∷ fs) buffer h = ground (
  arith,
  write_mqtt_string-image f.path buffer,
  append_assoc buffer (mqtt_bytes f.path) (to_u8 f.qos ∷ []),
  append_assoc buffer (filter_bytes f) (filters_bytes fs),
  write_filters-image fs (buffer ++ filter_bytes f),
)

length-filter_bytes : (f : Filter) → length (filter_bytes f) ≡ filter_len f
unfolding filter_bytes filter_len
length-filter_bytes f =
    omega (arith, length-append (mqtt_bytes f.path) (to_u8 f.qos ∷ []), length-mqtt_bytes f.path)

length-filters_bytes : (fs : List Filter) → length (filters_bytes fs) ≡ filters_len fs
unfolding filters_bytes filters_len
length-filters_bytes [] = refl
length-filters_bytes (f ∷ fs) = omega (
  arith,
  length-append (filter_bytes f) (filters_bytes fs),
  length-filter_bytes f,
  length-filters_bytes fs,
)

length-body : (p : Subscribe) → length (body p) ≡ len p
unfolding body len
length-body p = omega (arith, length-filters_bytes p.filters)

pub write-frame :
    (p : Subscribe) (buffer : Bytes)
    → All IsPath p.filters
    → length (body p) ≤ 268435455
    → write p buffer ≡ (ok (length (frame 0x82 (body p))), buffer ++ frame 0x82 (body p))
unfolding write put_u8 put_u16 body
write-frame p buffer w h =
    let start = buffer ++ 0x82 ∷ var_int (length (body p)) in
    ground (
      arith,
      length-body p,
      length-frame 0x82 (body p),
      write_remaining_length-header 0x82 (length (body p)) buffer,
      write_filters-image p.filters (start ++ u16 p.packet_identifier) w,
      append_assoc start (u16 p.packet_identifier) (filters_bytes p.filters),
      append-frame 0x82 buffer (body p),
    )

option_qos : (q : Qos) → qos_or_error (bit_and (to_u8 q) 0b0000_0011) ≡ ok q
unfolding qos_or_error to_u8
option_qos at_most_once = refl
option_qos at_least_once = refl
option_qos exactly_once = refl

read_filter-image :
    (f : Filter) (rest : Bytes)
    → IsPath f
    → read_filter (filter_bytes f ++ rest) ≡ (ok (v4_filter f), rest)
unfolding read_filter filter_bytes v4_filter read_u8
read_filter-image f rest h = ground (
  arith,
  append_assoc (mqtt_bytes f.path) (to_u8 f.qos ∷ []) rest,
  read_utf8_bytes-image f.path (to_u8 f.qos ∷ rest),
  option_qos f.qos,
)

-- A round on bytes that are not used up.
read_filters_round :
    (fuel : ℕ) (bs : Bytes)
    → 0 < length bs
    → read_filters (suc fuel) bs
      ≡ (read_filter >>= λ f. read_filters fuel >>= λ fs. pure (f ∷ fs)) bs
unfolding read_filters
read_filters_round fuel [] h = absurd (omega arith)
read_filters_round fuel (b ∷ bs) h = refl

read_filters-image :
    (fuel : ℕ) (fs : List Filter)
    → All IsPath fs
    → length (filters_bytes fs) ≤ fuel
    → read_filters fuel (filters_bytes fs) ≡ (ok (v4_filters fs), [])
unfolding filters_bytes v4_filters filter_len
read_filters-image fuel [] h k = unfold read_filters in ground arith
read_filters-image zero (f ∷ fs) h k =
    absurd (omega (arith, length-append (filter_bytes f) (filters_bytes fs), length-filter_bytes f))
read_filters-image (suc fuel) (f ∷ fs) h k = ground (
  arith,
  length-append (filter_bytes f) (filters_bytes fs),
  length-filter_bytes f,
  read_filters_round fuel (filter_bytes f ++ filters_bytes fs),
  read_filter-image f (filters_bytes fs) h.0,
  read_filters-image fuel fs h.1,
)

subscribe_of-v4 :
    (pkid : ℕ) (fs : List Filter)
    → 0 < length fs
    → subscribe_of pkid (v4_filters fs) []
      ≡ (ok (record { packet_identifier = pkid; filters = v4_filters fs }), [])
unfolding v4_filters
subscribe_of-v4 pkid [] h = absurd (omega arith)
subscribe_of-v4 pkid (f ∷ fs) h = refl

pub read-frame :
    (p : Subscribe)
    → All IsPath p.filters
    → 0 < length p.filters
    → read (header 0x82 (body p)) (frame 0x82 (body p))
      ≡ ok (record p { filters = v4_filters p.filters })
unfolding read new body all_filters
read-frame p w h = ground (
  arith,
  advance-frame 0x82 (body p),
  read_u16-image p.packet_identifier (filters_bytes p.filters),
  read_filters-image (length (filters_bytes p.filters)) p.filters w,
  subscribe_of-v4 p.packet_identifier p.filters h,
)

read_filter-Total : Total read_filter
unfolding read_filter
read_filter-Total bs = Returns->>= read_utf8_bytes _ bs (read_utf8_bytes-Total bs) λ _ bs'.
    Returns->>= read_u8 _ bs' (read_u8-Total bs') λ o bs''.
      Returns->>= (lift (qos_or_error (bit_and o 3))) _ bs'' (qos_or_error-Returns (bit_and o 3))
        λ _ _. tt

read_filter-Spends : Spends 3 read_filter
unfolding read_filter
read_filter-Spends = >>=-Spends 2 1 read_utf8_bytes _ read_utf8_bytes-Spends λ _.
    >>=-Spends 1 0 read_u8 _ read_u8-Spends
      λ o. >>=-Spends 0 0 (lift (qos_or_error (bit_and o 3))) _ (lift-Spends _) λ _. lift-Spends _

-- With as much fuel as there are bytes, the loop ends by its test.
read_filters-Returns : (fuel : ℕ) (bs : Bytes) → length bs ≤ fuel → Returns (read_filters fuel bs).0
unfolding read_filters
read_filters-Returns fuel [] h = tt
read_filters-Returns zero (b ∷ bs) h = absurd (omega arith)
read_filters-Returns (suc fuel) (b ∷ bs) h =
    after_round (read_filter (b ∷ bs)) (read_filter-Total (b ∷ bs))
      λ f e. read_filters-Returns fuel _ (omega (arith, read_filter-Spends (b ∷ bs) f e))
  where
    after_round :
        (r : Outcome Filter × Bytes)
        → Returns r.0
        → ((f : Filter) → r.0 ≡ ok f → Returns (read_filters fuel r.1).0)
        → Returns (continue (λ f. read_filters fuel >>= λ fs. pure (f ∷ fs)) r).0
    after_round (ok f, rest) t k = Returns->>= (read_filters fuel) _ rest (k f refl) λ _ _. tt
    after_round (err e, rest) t k = tt
    after_round (panic, rest) t k = t

subscribe_of-Total : (pkid : ℕ) (fs : List Filter) → Total (subscribe_of pkid fs)
subscribe_of-Total pkid [] bs = tt
subscribe_of-Total pkid (f ∷ fs) bs = tt

pub read-Returns :
    (h : FixedHeader) (bytes : Bytes) → h.fixed_header_len ≤ length bytes → Returns (read h bytes)
unfolding read all_filters
read-Returns h bytes k = Returns->>= (advance _) _ bytes (advance-Returns _ bytes k) λ _ bs.
    Returns->>= read_u16 _ bs (read_u16-Total bs) λ pkid bs'.
      Returns->>= all_filters _ bs' (read_filters-Returns (length bs') bs' (omega arith))
        (subscribe_of-Total pkid)
