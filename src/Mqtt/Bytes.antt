-- ===== src/Mqtt/Bytes.antt =====
-- Bytes and texts. A text is the list of its UTF-8 bytes; `is_utf8` is the test of Rust's
-- `std::str::from_utf8`.
use robustmq.Prelude.{ℕ, Bool, true, false, ◌&&◌, List, [], ◌∷◌, Option, none, some}
use robustmq.Prelude.{◌<◌, ltb, leb, ◌==◌, if◌then◌else◌}

abbrev pub Bytes : Type 0
Bytes = List ℕ

abbrev pub Text : Type 0
Text = List ℕ

abbrev pub IsByte : ℕ → Type 0
IsByte b = b < 256

-- What may come next: a new character, so many continuation bytes, or a restricted first
-- continuation byte after e0, ed, f0 or f4.
pub data Utf8State : Type 0 where
  start one two three after_e0 after_ed after_f0 after_f4 : Utf8State

abbrev between : ℕ → ℕ → ℕ → Bool
between lo hi b = leb lo b && leb b hi

first_byte : ℕ → Option Utf8State
first_byte b =
    if ltb b 0x80
    then some start
    else if between 0xc2 0xdf b
    then some one
    else if b == 0xe0
    then some after_e0
    else if b == 0xed
    then some after_ed
    else if between 0xe1 0xef b
    then some two
    else if b == 0xf0
    then some after_f0
    else if between 0xf1 0xf3 b
    then some three
    else if b == 0xf4
    then some after_f4
    else none

continuation : ℕ → ℕ → Utf8State → ℕ → Option Utf8State
continuation lo hi s b = if between lo hi b then some s else none

utf8_step : Utf8State → ℕ → Option Utf8State
unfolding first_byte continuation
utf8_step start = first_byte
utf8_step one = continuation 0x80 0xbf start
utf8_step two = continuation 0x80 0xbf one
utf8_step three = continuation 0x80 0xbf two
utf8_step after_e0 = continuation 0xa0 0xbf one
utf8_step after_ed = continuation 0x80 0x9f one
utf8_step after_f0 = continuation 0x90 0xbf two
utf8_step after_f4 = continuation 0x80 0x8f two

is_start : Utf8State → Bool
is_start start = true
is_start _ = false

utf8_from : Utf8State → Bytes → Bool
unfolding is_start utf8_step
utf8_from s [] = is_start s
utf8_from s (b ∷ bs) = elim (utf8_step s b) [ none ↦ false | some s' ↦ utf8_from s' bs ]

unfoldable pub is_utf8 : Bytes → Bool
unfolding utf8_from
is_utf8 = utf8_from start

unfoldable pub bytes_eq : Bytes → Bytes → Bool
bytes_eq [] [] = true
bytes_eq [] (c ∷ cs) = false
bytes_eq (b ∷ bs) [] = false
bytes_eq (b ∷ bs) (c ∷ cs) = b == c && bytes_eq bs cs
