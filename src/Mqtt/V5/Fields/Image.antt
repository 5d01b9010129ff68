-- ===== src/Mqtt/V5/Fields/Image.antt =====
-- The bytes that the steps of src/protocol/src/mqtt/mqttv5 write for a property, and what an arm
-- reads from them.
use robustmq.Prelude.{
  ℕ, ◌+◌, ◌/◌, ◌%◌, ◌≤◌, ◌<◌, ◌≡◌, refl, sym, ap, ◌∙◌, Option, none, some, List, [], ◌∷◌, ◌++◌,
  append-nil, append_assoc, arith,
}
use robustmq.Prelude.{true, length, length-append, All}
use robustmq.Mqtt.Bytes.{Bytes, Text, is_utf8}
use robustmq.Mqtt.Outcome.{ok}
use robustmq.Mqtt.Buffer.{Buffered, ◌>>=◌, ◌>>◌, pure, run, continue}
use robustmq.Mqtt.Reader.{read_u8, read_u32, advance}
use robustmq.Mqtt.Writer.{
  put_u8, put_u16, put_slice, write_mqtt_string, write_remaining_length, len_len,
}
use robustmq.Mqtt.Header.Image.{var_int}
use robustmq.Mqtt.Header.Check.{frame, length-frame}
use robustmq.Mqtt.Wire.{
  header, advance-frame, write_remaining_length-header, append-frame, u16, mqtt_bytes,
  length-mqtt_bytes, write_mqtt_bytes-image, read_u16-image, read_mqtt_bytes-image,
  read_mqtt_string-image,
}
use robustmq.Mqtt.V5.PropertyType.{PropertyType, property_u8}
use robustmq.Mqtt.V5.Fields.{
  put_u32, write_option, write_users, len_of_size, len_of_bytes, len_of_users, u8_arm, u16_arm,
  u32_arm, string_arm, bytes_arm, user_arm,
}

-- The computation appends `s` to any buffer.
abbrev pub Writes : Buffered (Unit {0}) → Bytes → Type 0
Writes m s = (buffer : Bytes) → m buffer ≡ (ok tt, buffer ++ s)

pub Writes->> :
    (m k : Buffered (Unit {0})) (s t : Bytes) → Writes m s → Writes k t → Writes (m >> k) (s ++ t)
Writes->> m k s t h g buffer =
    rw (h buffer) (rw (g (buffer ++ s)) (rw (append_assoc buffer s t) refl))

pub nothing-Writes : Writes (pure tt) []
nothing-Writes buffer = rw (append-nil buffer) refl

pub put_u8-Writes : (b : ℕ) → Writes (put_u8 b) (b ∷ [])
unfolding put_u8
put_u8-Writes b buffer = refl

pub put_slice-Writes : (s : Bytes) → Writes (put_slice s) s
unfolding put_slice
put_slice-Writes s buffer = refl

pub put_u16-Writes : (n : ℕ) → Writes (put_u16 n) (u16 n)
unfolding put_u16
put_u16-Writes n buffer = refl

abbrev pub u32 : ℕ → Bytes
u32 n = n / 16777216 ∷ n / 65536 % 256 ∷ n / 256 % 256 ∷ n % 256 ∷ []

pub put_u32-Writes : (n : ℕ) → Writes (put_u32 n) (u32 n)
unfolding put_u32 put_slice
put_u32-Writes n buffer = refl

-- A text that the wire can hold.
abbrev pub IsText : Text → Type 0
IsText s = (length s < 65536) × (is_utf8 s ≡ true)

-- Data that the wire can hold.
abbrev pub IsShort : Bytes → Type 0
IsShort s = length s < 65536

abbrev pub IsUser : Text × Text → Type 0
IsUser u = IsText u.0 × IsText u.1

pub write_mqtt_string-Writes :
    (s : Text) → length s < 65536 → Writes (write_mqtt_string s) (mqtt_bytes s)
unfolding write_mqtt_string
write_mqtt_string-Writes s h buffer = write_mqtt_bytes-image s buffer h

-- Nothing for an absent property, its type and value otherwise.
abbrev pub option_image : {A : Type 0} → PropertyType → (A → Bytes) → Option A → Bytes
option_image type image none = []
option_image type image (some x) = property_u8 type ∷ image x

abbrev pub IsSome : {A : Type 0} → (A → Type 0) → Option A → Type 0
IsSome P none = Unit
IsSome P (some x) = P x

pub IsSome-unit : {A : Type 0} (o : Option A) → IsSome (λ _. Unit) o
IsSome-unit none = tt
IsSome-unit (some x) = tt

pub write_option-Writes :
    {A : Type 0} (type : PropertyType) (put : A → Buffered (Unit {0})) (image : A → Bytes)
    (P : A → Type 0) (o : Option A)
    → ((x : A) → P x → Writes (put x) (image x))
    → IsSome P o
    → Writes (write_option type put o) (option_image type image o)
unfolding write_option
write_option-Writes type put image P none h v = nothing-Writes
write_option-Writes type put image P (some x) h v =
    Writes->> (put_u8 _) (put x) (_ ∷ []) (image x) (put_u8-Writes _) (h x v)

abbrev pub user_image : Text × Text → Bytes
user_image (key, value) = mqtt_bytes key ++ mqtt_bytes value

abbrev pub users_image : List (Text × Text) → Bytes
users_image [] = []
users_image (user ∷ rest) =
    (property_u8 PropertyType.user_property ∷ user_image user) ++ users_image rest

pub write_users-Writes :
    (us : List (Text × Text)) → All IsUser us → Writes (write_users us) (users_image us)
unfolding write_users
write_users-Writes [] h buffer = nothing-Writes buffer
write_users-Writes ((key, value) ∷ rest) h buffer =
    rw (append_assoc (mqtt_bytes key) (mqtt_bytes value) (users_image rest)) (
      Writes->> (put_u8 _) _ (_ ∷ []) _ (put_u8-Writes _)
        (Writes->> (write_mqtt_string key) _ (mqtt_bytes key) _
          (write_mqtt_string-Writes key h.0.0.0)
          (Writes->> (write_mqtt_string value) _ (mqtt_bytes value) _
            (write_mqtt_string-Writes value h.0.1.0) (write_users-Writes rest h.1)))
        buffer)

-- The computation appends `s` to any buffer and returns `a`.
abbrev pub Emits : {A : Type 0} → Buffered A → Bytes → A → Type 0
Emits m s a = (buffer : Bytes) → m buffer ≡ (ok a, buffer ++ s)

pub pure-Emits : {A : Type 0} (a : A) → Emits (pure a) [] a
pure-Emits a buffer = rw (append-nil buffer) refl

pub Writes-Emits :
    {A : Type 0} (m : Buffered (Unit {0})) (k : Buffered A) (s t : Bytes) (a : A)
    → Writes m s
    → Emits k t a
    → Emits (m >> k) (s ++ t) a
Writes-Emits m k s t a h g buffer =
    rw (h buffer) (rw (g (buffer ++ s)) (rw (append_assoc buffer s t) refl))

pub Writes-pure :
    {A : Type 0} (m : Buffered (Unit {0})) (s : Bytes) (a : A)
    → Writes m s
    → Emits (m >> pure a) s a
Writes-pure m s a h buffer = rw (h buffer) refl

-- The first byte, a length that is announced, and what is emitted behind them.
pub announced-Emits :
    {A : Type 0} (b n : ℕ) (k : ℕ → Buffered A) (s : Bytes) (a : A)
    → n ≤ 268435455
    → Emits (k (len_len n)) s a
    → Emits (put_u8 b >> (write_remaining_length n >>= k)) (b ∷ var_int n ++ s) a
unfolding put_u8
announced-Emits b n k s a h g buffer =
    rw (write_remaining_length-header b n buffer h)
      (g (buffer ++ b ∷ var_int n) ∙ ap (λ x. (ok a, x)) (append_assoc buffer (b ∷ var_int n) s))

-- A packet whose body is emitted behind its length is a frame.
pub frame-Emits :
    (b n : ℕ) (k : ℕ → Buffered ℕ) (s : Bytes)
    → length s ≡ n
    → n ≤ 268435455
    → Emits (k (len_len n)) s (1 + len_len n + n)
    → Emits (put_u8 b >> (write_remaining_length n >>= k)) (frame b s) (length (frame b s))
unfolding put_u8
frame-Emits b n k s e h g buffer = rw (write_remaining_length-header b n buffer h) (
    g (buffer ++ b ∷ var_int n)
    ∙ ap (λ x. (ok (1 + len_len x + x), (buffer ++ b ∷ var_int x) ++ s)) (sym e)
    ∙ ap (λ x. (ok x, (buffer ++ b ∷ var_int (length s)) ++ s)) (sym (length-frame b s))
    ∙ ap (λ x. (ok (length (frame b s)), x)) (append-frame b buffer s))

-- A reader behind `advance` reads the body of a frame.
pub advance-frame-run :
    {A : Type 0} (b : ℕ) (s rest : Bytes) (m : Buffered A) (a : A)
    → m s ≡ (ok a, rest)
    → run (advance (header b s).fixed_header_len >> m) (frame b s) ≡ ok a
advance-frame-run b s rest m a e =
    ap (λ r. (continue (λ _. m) r).0) (advance-frame b s) ∙ ap (λ r. r.0) e

-- The arm reads `s` and returns `p` with the cursor's move, the length of `s`.
abbrev pub Reads : {A : Type 0} → Buffered A → Bytes → A → Type 0
Reads m s a = (rest : Bytes) → m (s ++ rest) ≡ (ok a, rest)

pub u8_arm-Reads : {P : Type 0} (f : ℕ → P) (n : ℕ) → Reads (u8_arm f) (n ∷ []) (f n, 1)
unfolding u8_arm read_u8
u8_arm-Reads f n rest = refl

pub u16_arm-Reads : {P : Type 0} (f : ℕ → P) (n : ℕ) → Reads (u16_arm f) (u16 n) (f n, 2)
unfolding u16_arm
u16_arm-Reads f n rest = rw (read_u16-image n rest) refl

read_u32-image : (n : ℕ) (rest : Bytes) → read_u32 (u32 n ++ rest) ≡ (ok n, rest)
unfolding read_u32
read_u32-image n rest = ground arith

pub u32_arm-Reads : {P : Type 0} (f : ℕ → P) (n : ℕ) → Reads (u32_arm f) (u32 n) (f n, 4)
unfolding u32_arm
u32_arm-Reads f n rest = rw (read_u32-image n rest) refl

pub bytes_arm-Reads :
    {P : Type 0} (f : Bytes → P) (s : Bytes)
    → Reads (bytes_arm f) (mqtt_bytes s) (f s, length (mqtt_bytes s))
unfolding bytes_arm
bytes_arm-Reads f s rest = rw (length-mqtt_bytes s) (rw (read_mqtt_bytes-image s rest) refl)

pub string_arm-Reads :
    {P : Type 0} (f : Bytes → P) (s : Text)
    → IsText s
    → Reads (string_arm f) (mqtt_bytes s) (f s, length (mqtt_bytes s))
unfolding string_arm
string_arm-Reads f s h rest = rw (length-mqtt_bytes s) (rw (read_mqtt_string-image s rest h.1) refl)

length-user_image :
    (key value : Text) → length (user_image (key, value)) ≡ 2 + length key + 2 + length value
length-user_image key value = omega (
  arith,
  length-append (mqtt_bytes key) (mqtt_bytes value),
  length-mqtt_bytes key,
  length-mqtt_bytes value,
)

pub user_arm-Reads :
    {P : Type 0} (f : Text × Text → P) (u : Text × Text)
    → IsUser u
    → Reads (user_arm f) (user_image u) (f u, length (user_image u))
unfolding user_arm
user_arm-Reads f (key, value) h rest = rw (length-user_image key value) (
    rw (append_assoc (mqtt_bytes key) (mqtt_bytes value) rest) (
      rw (read_mqtt_string-image key (mqtt_bytes value ++ rest) h.0.1)
        (rw (read_mqtt_string-image value rest h.1.1) refl)))

pub length-option_size :
    {A : Type 0} (size : ℕ) (type : PropertyType) (image : A → Bytes) (o : Option A)
    → ((x : A) → length (image x) ≡ size)
    → length (option_image type image o) ≡ len_of_size size o
unfolding len_of_size
length-option_size size type image none h = refl
length-option_size size type image (some x) h = omega (arith, h x)

pub length-option_bytes :
    (type : PropertyType) (o : Option Bytes)
    → length (option_image type mqtt_bytes o) ≡ len_of_bytes o
unfolding len_of_bytes
length-option_bytes type none = refl
length-option_bytes type (some s) = omega (arith, length-mqtt_bytes s)

pub length-users_image : (us : List (Text × Text)) → length (users_image us) ≡ len_of_users us
unfolding len_of_users
length-users_image [] = refl
length-users_image ((key, value) ∷ rest) = omega (
  arith,
  length-append (user_image (key, value)) (users_image rest),
  length-user_image key value,
  length-users_image rest,
)

pub length-append_of :
    (s t : Bytes) (m n : ℕ) → length s ≡ m → length t ≡ n → length (s ++ t) ≡ m + n
length-append_of s t m n e f = omega (arith, length-append s t)
