-- ===== src/Mqtt/Header/Check.antt =====
-- `check` on streams: whole frames, frames that are cut short, and arbitrary bytes.
use robustmq.Prelude.{ℕ, ◌+◌, ◌*◌, ◌^◌, ◌≤◌, ◌<◌, ◌≡◌, refl, sym, ap, ◌∙◌, [], ◌∷◌, ◌++◌, arith}
use robustmq.Prelude.{◌⊎◌, inl, inr, bit_and, length, drop, length-append, append_assoc, append-nil}
use robustmq.Mqtt.Bytes.{Bytes}
use robustmq.Mqtt.Outcome.{
  ok, err, panic, Returns, is_ok, is_err, is_panic, Outcome-cases, insufficient_bytes,
  payload_size_limit_exceeded,
}
use robustmq.Mqtt.Types.Packets.{FixedHeader}
use robustmq.Mqtt.Writer.{len_len}
use robustmq.Mqtt.Header.{new, frame_length, length_loop, parse_length, parse_fixed_header, check}
use robustmq.Mqtt.Header.Image.{var_int, length-var_int, len_len_bounds, parse_length-var_int}

-- A frame: the first byte, the remaining length, and the rest of the packet.
unfoldable pub frame : ℕ → Bytes → Bytes
frame byte1 body = byte1 ∷ (var_int (length body) ++ body)

pub length-frame :
    (b : ℕ) (body : Bytes) → length (frame b body) ≡ 1 + len_len (length body) + length body
unfolding frame
length-frame b body =
    omega (arith, length-append (var_int (length body)) body, length-var_int (length body))

parse_fixed_header-cons :
    (b : ℕ) (bs : Bytes)
    → 0 < length bs
    → parse_fixed_header (b ∷ bs)
      ≡ elim (parse_length bs) [ ok p ↦ ok (new b p.0 p.1) | err e ↦ err e | panic ↦ panic ]
unfolding parse_fixed_header
parse_fixed_header-cons b [] h = absurd (omega arith)
parse_fixed_header-cons b (c ∷ bs) h = ground arith

pub parse_fixed_header-frame :
    (b : ℕ) (body rest : Bytes)
    → length body ≤ 268435455
    → parse_fixed_header (frame b body ++ rest) ≡ ok (new b (len_len (length body)) (length body))
unfolding frame
parse_fixed_header-frame b body rest h = ground (
  arith,
  append_assoc (var_int (length body)) body rest,
  length-append (var_int (length body)) (body ++ rest),
  length-var_int (length body),
  len_len_bounds (length body),
  parse_fixed_header-cons b (var_int (length body) ++ (body ++ rest)),
  parse_length-var_int (length body) (body ++ rest),
)

-- On a stream that begins with a frame within the limit `check` finds the header of the frame.
pub check-frame :
    (b : ℕ) (body rest : Bytes) (max : ℕ)
    → length body ≤ max
    → max ≤ 268435455
    → check (frame b body ++ rest) max ≡ ok (new b (len_len (length body)) (length body))
unfolding check frame_length new
check-frame b body rest max h k = ground (
  arith,
  parse_fixed_header-frame b body rest,
  length-append (frame b body) rest,
  length-frame b body,
)

-- A frame above the limit is refused before its body is there.
pub check-frame_over :
    (b : ℕ) (body rest : Bytes) (max : ℕ)
    → max < length body
    → length body ≤ 268435455
    → check (frame b body ++ rest) max ≡ err (payload_size_limit_exceeded (length body))
unfolding check frame_length new
check-frame_over b body rest max h k = ground (arith, parse_fixed_header-frame b body rest)

length_loop_bounds :
    (s : Bytes) (len c shift k n : ℕ)
    → shift ≤ 21
    → length_loop s len c shift ≡ ok (k, n)
    → (c < k) × (k ≤ c + length s) × (shift + 7 * k ≤ 28 + 7 * c)
unfolding length_loop
length_loop_bounds [] len c shift k n h e = cc
length_loop_bounds (b ∷ bs) len c shift k n h e =
    ground (arith, length_loop_bounds bs (len + bit_and b 0x7f * 2 ^ shift) (c + 1) (shift + 7) k n)

length_loop-Returns : (s : Bytes) (len c shift : ℕ) → Returns (length_loop s len c shift)
unfolding length_loop
length_loop-Returns [] len c shift = tt
length_loop-Returns (b ∷ bs) len c shift =
    ground (arith, length_loop-Returns bs (len + bit_and b 0x7f * 2 ^ shift) (c + 1) (shift + 7))

pub parse_length-Returns : (s : Bytes) → Returns (parse_length s)
unfolding parse_length
parse_length-Returns s = length_loop-Returns s 0 0 0

-- A length that is read has its bytes in the stream.
pub parse_length_bounds :
    (s : Bytes) (l n : ℕ) → parse_length s ≡ ok (l, n) → (0 < l) × (l ≤ length s)
unfolding parse_length
parse_length_bounds s l n e = omega (arith, length_loop_bounds s 0 0 0 l n (omega arith) e)

-- More bytes change the answer only where the number was cut short.
length_loop-append :
    (s more : Bytes) (len c shift : ℕ)
    → (length_loop s len c shift ≡ err (insufficient_bytes 1))
      ⊎ (length_loop (s ++ more) len c shift ≡ length_loop s len c shift)
unfolding length_loop
length_loop-append [] more len c shift = inl refl
length_loop-append (b ∷ bs) more len c shift =
    ground
      (arith, length_loop-append bs more (len + bit_and b 0x7f * 2 ^ shift) (c + 1) (shift + 7))

pub check-Returns : (stream : Bytes) (max : ℕ) → Returns (check stream max)
unfolding check parse_fixed_header parse_length
check-Returns [] max = tt
check-Returns (a ∷ []) max = tt
check-Returns (a ∷ b ∷ bs) max = ground (arith, length_loop-Returns (b ∷ bs) 0 0 0)

-- Whatever the stream, a header that `check` accepts has one to four length bytes, a remaining
-- length within the limit, and a frame that the stream holds whole.
pub check_bounds :
    (stream : Bytes) (max : ℕ) (h : FixedHeader)
    → check stream max ≡ ok h
    → (2 ≤ h.fixed_header_len)
      × (h.fixed_header_len ≤ 5)
      × (h.remaining_len ≤ max)
      × (frame_length h ≤ length stream)
unfolding check parse_fixed_header parse_length new
check_bounds [] max h e = cc
check_bounds (a ∷ []) max h e = cc
check_bounds (a ∷ b ∷ bs) max h e = elim (Outcome-cases (length_loop (b ∷ bs) 0 0 0)) [
  | is_ok (k, n) p ↦ ground (arith, p, e, length_loop_bounds (b ∷ bs) 0 0 0 k n)
  | is_err x p ↦ ground (arith, p, e)
  | is_panic p ↦ ground (arith, p, e)
]

-- The frame of a header that `check` accepts is the first byte, the bytes of the remaining length
-- behind it, and as many bytes as that says.
pub check-announced :
    (stream : Bytes) (max : ℕ) (h : FixedHeader)
    → check stream max ≡ ok h
    → (len_len : ℕ) × (len : ℕ) × (parse_length (drop 1 stream) ≡ ok (len_len, len))
      × (frame_length h ≡ 1 + len_len + len)
unfolding check parse_fixed_header new
check-announced [] max h e = cc
check-announced (a ∷ []) max h e = cc
check-announced (a ∷ b ∷ bs) max h e = elim (Outcome-cases (parse_length (b ∷ bs))) [
  | is_ok (k, n) p ↦ (k, n, p, unfold frame_length in ground (arith, p, e))
  | is_err x p ↦ ground (arith, p, e)
  | is_panic p ↦ ground (arith, p, e)
]

parse_fixed_header-append :
    (a c : ℕ) (fs more : Bytes)
    → (parse_fixed_header (a ∷ c ∷ fs) ≡ err (insufficient_bytes 1))
      ⊎ (parse_fixed_header (a ∷ c ∷ fs ++ more) ≡ parse_fixed_header (a ∷ c ∷ fs))
unfolding parse_fixed_header parse_length
parse_fixed_header-append a c fs more = elim (length_loop-append (c ∷ fs) more 0 0 0) [
  | inl short ↦ inl (ground (arith, short))
  | inr same ↦ inr (ground (arith, same))
]

-- A frame within the limit that is cut short: `check` asks for more bytes, at least one and no
-- more than are missing.
pub check-frame_cut :
    (b : ℕ) (body front back : Bytes) (x max : ℕ)
    → length body ≤ max
    → max ≤ 268435455
    → front ++ (x ∷ back) ≡ frame b body
    → (n : ℕ) × (check front max ≡ err (insufficient_bytes n)) × (0 < n) × (n ≤ length (x ∷ back))
unfolding check new frame_length
check-frame_cut b body [] back x max h k e = (
  2,
  unfold parse_fixed_header in refl,
  omega arith,
  omega (arith, ap length e, length-frame b body, len_len_bounds (length body)),
)
check-frame_cut b body (a ∷ []) back x max h k e =
    (1, unfold parse_fixed_header in refl, omega arith, omega arith)
check-frame_cut b body (a ∷ c ∷ fs) back x max h k e =
    elim (parse_fixed_header-append a c fs (x ∷ back)) [
      | inl short ↦ (1, ground (arith, short), omega arith, omega arith)
      | inr same ↦ (
        length (x ∷ back),
        ground (arith, whole, same, lengths, length-append fs (x ∷ back)),
        omega arith,
        omega arith,
      )
    ]
  where
    whole :
        parse_fixed_header (a ∷ c ∷ fs ++ x ∷ back)
        ≡ ok (new b (len_len (length body)) (length body))
    whole =
        ap parse_fixed_header (e ∙ sym (append-nil (frame b body)))
        ∙ parse_fixed_header-frame b body [] (omega arith)

    lengths : length (a ∷ c ∷ fs ++ x ∷ back) ≡ 1 + len_len (length body) + length body
    lengths = ap length e ∙ length-frame b body
