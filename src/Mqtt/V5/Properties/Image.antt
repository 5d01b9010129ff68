-- ===== src/Mqtt/V5/Properties/Image.antt =====
-- What the property loop of src/protocol/src/mqtt/mqttv5 makes of properties that were written.
use robustmq.Prelude.{
  ℕ, zero, suc, ◌+◌, ◌-◌, ◌≤◌, ◌≡◌, refl, sym, ◌∙◌, Option, none, some, List, [], ◌∷◌, ◌++◌,
  append-nil, append_assoc, arith,
}
use robustmq.Prelude.{length, length-append, drop-append_exact, All}
use robustmq.Mqtt.Bytes.{Bytes, Text}
use robustmq.Mqtt.Outcome.{ok}
use robustmq.Mqtt.Buffer.{Buffered, ◌>>=◌}
use robustmq.Mqtt.Reader.{advance, read_u8}
use robustmq.Mqtt.Writer.{write_remaining_length, len_len}
use robustmq.Mqtt.Header.Image.{
  var_int, length-var_int, write_remaining_length-var_int, parse_length-var_int,
}
use robustmq.Mqtt.V5.PropertyType.{PropertyType, property_u8, property-property_u8}
use robustmq.Mqtt.V5.Fields.{peek_length}
use robustmq.Mqtt.V5.Fields.Image.{
  Writes, Reads, option_image, IsSome, users_image, user_image, IsUser,
}
use robustmq.Mqtt.V5.Properties.Total.{read_loop-round, read_loop-done}
use robustmq.Mqtt.V5.Properties.{Arms, read_loop, round, read_some, read_properties}

-- From `p` the loop reads `s` in so many rounds, and has `p'` then.
pub record Parses {P : Type 0} (arms : Arms P) (s : Bytes) (p p' : P) : Type 0 where
  pub rounds : ℕ
  pub rounds_le : rounds ≤ length s
  pub reads :
      (fuel properties_len cursor : ℕ) (rest : Bytes)
      → cursor + length s ≤ properties_len
      → read_loop arms (rounds + fuel) properties_len cursor p (s ++ rest)
        ≡ read_loop arms fuel properties_len (cursor + length s) p' rest

pub nothing-Parses : {P : Type 0} (arms : Arms P) (p : P) → Parses arms [] p p
nothing-Parses arms p = record {
  rounds = 0;
  rounds_le = omega arith;
  reads = λ fuel n cursor rest h. ground arith;
}

moved :
    {P : Type 0} (arms : Arms P) (fuel fuel' n cursor cursor' : ℕ) (p : P) (s s' : Bytes)
    → fuel ≡ fuel'
    → cursor ≡ cursor'
    → s ≡ s'
    → read_loop arms fuel n cursor p s ≡ read_loop arms fuel' n cursor' p s'
moved arms fuel fuel' n cursor cursor' p s s' e f g = cc

-- One round on a property.
one_round :
    {P : Type 0} (arms : Arms P) (type : PropertyType) (s : Bytes) (p p' : P)
    (next : ℕ → P → Buffered P) (cursor : ℕ) (rest : Bytes)
    → Reads (arms type (property_u8 type) p) s (p', length s)
    → round arms next cursor p (property_u8 type ∷ s ++ rest) ≡ next (cursor + 1 + length s) p' rest
unfolding round read_u8
one_round arms type s p p' next cursor rest r = rw (property-property_u8 type) (rw (r rest) refl)

pub one-Parses :
    {P : Type 0} (arms : Arms P) (type : PropertyType) (s : Bytes) (p p' : P)
    → Reads (arms type (property_u8 type) p) s (p', length s)
    → Parses arms (property_u8 type ∷ s) p p'
one-Parses arms type s p p' r = record {
  rounds = 1;
  rounds_le = omega arith;
  reads = λ fuel n cursor rest h.
      moved arms (1 + fuel) (suc fuel) n cursor cursor p _ _ (omega arith) refl refl
      ∙ read_loop-round arms fuel n cursor p _ (omega (arith, h))
      ∙ one_round arms type s p p' (read_loop arms fuel n) cursor rest r
      ∙ moved arms fuel fuel n _ _ p' rest rest refl (omega arith) refl;
}

pub append-Parses :
    {P : Type 0} (arms : Arms P) (s t : Bytes) (p p' p'' : P)
    → Parses arms s p p'
    → Parses arms t p' p''
    → Parses arms (s ++ t) p p''
append-Parses arms s t p p' p'' g h = record {
  rounds = g.rounds + h.rounds;
  rounds_le = omega (arith, length-append s t, g.rounds_le, h.rounds_le);
  reads = λ fuel n cursor rest b.
      moved arms _ _ n cursor cursor p _ _ (omega arith) refl (append_assoc s t rest)
      ∙ g.reads (h.rounds + fuel) n cursor (t ++ rest) (omega (arith, b, length-append s t))
      ∙ h.reads fuel n (cursor + length s) rest (omega (arith, b, length-append s t))
      ∙ moved arms fuel fuel n _ _ p'' rest rest refl (omega (arith, length-append s t)) refl;
}

-- An absent property leaves the field absent; one that is there is set.
pub option-Parses :
    {P A : Type 0} (arms : Arms P) (type : PropertyType) (image : A → Bytes) (Q : A → Type 0)
    (set : Option A → P) (o : Option A)
    → ((x : A)
        → Q x
        → Reads
            (arms type (property_u8 type) (set none))
            (image x)
            (set (some x), length (image x)))
    → IsSome Q o
    → Parses arms (option_image type image o) (set none) (set o)
option-Parses arms type image Q set none r h = nothing-Parses arms (set none)
option-Parses arms type image Q set (some x) r h =
    one-Parses arms type (image x) (set none) (set (some x)) (r x h)

users_from :
    {P : Type 0} (arms : Arms P) (set : List (Text × Text) → P) (us : List (Text × Text))
    (before : List (Text × Text))
    → ((before : List (Text × Text)) (u : Text × Text)
        → IsUser u
        → Reads
            (arms PropertyType.user_property (property_u8 PropertyType.user_property) (set before))
            (user_image u)
            (set (before ++ u ∷ []), length (user_image u)))
    → All IsUser us
    → Parses arms (users_image us) (set before) (set (before ++ us))
users_from arms set [] before r h = rw (append-nil before) (nothing-Parses arms (set before))
users_from arms set (u ∷ us) before r h =
    append-Parses arms _ (users_image us) (set before) (set (before ++ u ∷ [])) _
      (one-Parses arms _ (user_image u) (set before) _ (r before u h.0))
      (rw (sym (append_assoc before (u ∷ []) us)) (users_from arms set us (before ++ u ∷ []) r h.1))

-- User properties are appended in their order.
pub users-Parses :
    {P : Type 0} (arms : Arms P) (set : List (Text × Text) → P) (us : List (Text × Text))
    → ((before : List (Text × Text)) (u : Text × Text)
        → IsUser u
        → Reads
            (arms PropertyType.user_property (property_u8 PropertyType.user_property) (set before))
            (user_image u)
            (set (before ++ u ∷ []), length (user_image u)))
    → All IsUser us
    → Parses arms (users_image us) (set []) (set us)
users-Parses arms set us = users_from arms set us []

-- The length of the properties and the properties.
abbrev pub sized : Bytes → Bytes
sized s = var_int (length s) ++ s

pub length-sized : (s : Bytes) → length (sized s) ≡ len_len (length s) + length s
length-sized s = omega (arith, length-append (var_int (length s)) s, length-var_int (length s))

-- Properties of length 0 are not told from no properties.
abbrev pub when_some : {P : Type 0} → ℕ → P → Option P
when_some zero p = none
when_some (suc n) p = some p

loop_end :
    {P : Type 0} (arms : Arms P) (s rest : Bytes) (p p' : P)
    → Parses arms s p p'
    → read_loop arms (length s) (length s) 0 p (s ++ rest) ≡ (ok p', rest)
loop_end arms s rest p p' g =
    moved arms _ (g.rounds + (length s - g.rounds)) (length s) 0 0 p _ _
      (omega (arith, g.rounds_le)) refl refl
    ∙ g.reads (length s - g.rounds) (length s) 0 rest (omega arith)
    ∙ read_loop-done arms _ (length s) (0 + length s) p' rest (omega arith)

read_some-image :
    {P : Type 0} (arms : Arms P) (s rest : Bytes) (p p' : P)
    → Parses arms s p p'
    → read_some arms p (length s) (s ++ rest) ≡ (ok (when_some (length s) p'), rest)
unfolding read_some
read_some-image arms [] rest p p' g = refl
read_some-image arms (x ∷ s) rest p p' g = rw (loop_end arms (x ∷ s) rest p p' g) refl

advance-append : (n : ℕ) (s rest : Bytes) → n ≡ length s → advance n (s ++ rest) ≡ (ok tt, rest)
unfolding advance
advance-append n s rest e = ground (arith, length-append s rest, drop-append_exact n s rest)

pub read_properties-sized :
    {P : Type 0} (arms : Arms P) (s rest : Bytes) (p p' : P)
    → Parses arms s p p'
    → length s ≤ 268435455
    → read_properties arms p (sized s ++ rest) ≡ (ok (when_some (length s) p'), rest)
unfolding read_properties peek_length
read_properties-sized arms s rest p p' g h = rw (append_assoc (var_int (length s)) s rest) (
    rw (parse_length-var_int (length s) (s ++ rest) h) (
      rw
        (advance-append (len_len (length s)) (var_int (length s)) (s ++ rest)
          (sym (length-var_int (length s))))
        (read_some-image arms s rest p p' g)))

pub write_sized-Writes :
    (n : ℕ) (m : Buffered (Unit {0})) (s : Bytes)
    → length s ≡ n
    → n ≤ 268435455
    → Writes m s
    → Writes (write_remaining_length n >>= λ _. m) (sized s)
write_sized-Writes n m s e h w buffer =
    rw (write_remaining_length-var_int n buffer h)
      (rw (w (buffer ++ var_int n)) (rw (append_assoc buffer (var_int n) s) (rw e refl)))
