-- ===== src/Mqtt/V5/Properties/Codec.antt =====
-- What the `properties` module of a packet promises, for the packets that use it.
use robustmq.Prelude.{ℕ, ◌≤◌, ◌<◌, ◌≡◌, refl, ap, ◌∙◌, ◌+◌, Option, none, some, [], ◌++◌, arith}
use robustmq.Prelude.{length}
use robustmq.Mqtt.Bytes.{Bytes}
use robustmq.Mqtt.Outcome.{ok}
use robustmq.Mqtt.Buffer.{Buffered, Total}
use robustmq.Mqtt.Writer.{len_len}
use robustmq.Mqtt.Wire.{var_int_zero}
use robustmq.Mqtt.Header.Image.{write_remaining_length-var_int, length-var_int, len_len_bounds}
use robustmq.Mqtt.V5.Fields.Image.{Writes}
use robustmq.Mqtt.V5.Properties.{Arms, read_properties, len_of, write_or_zero}
use robustmq.Mqtt.V5.Properties.Total.{AreTotal, read_properties-Total}
use robustmq.Mqtt.V5.Properties.Image.{
  Parses, sized, length-sized, when_some, nothing-Parses, read_properties-sized,
}

-- `len`, `write` and the arms of `read`, with the bytes of the properties that are written, and
-- the properties that can be.
pub record Codec (P : Type 0) : Type 1 where
  pub len : P → ℕ
  pub write : P → Buffered (Unit {0})
  pub arms : Arms P
  pub empty : P
  pub image : P → Bytes
  pub IsValid : P → Type 0
  pub length-image : (p : P) → length (image p) ≡ len p
  pub write-Writes : (p : P) → IsValid p → len p ≤ 268435455 → Writes (write p) (sized (image p))
  pub arms-Parses : (p : P) → IsValid p → Parses arms (image p) empty p
  pub arms-AreTotal : AreTotal arms

module _ {P : Type 0} (c : Codec P) where
  abbrev pub options_image : Option P → Bytes
  options_image none = sized []
  options_image (some p) = sized (c.image p)

  -- The properties that are read back: those of length 0 are none.
  abbrev pub back : Option P → Option P
  back none = none
  back (some p) = when_some (c.len p) p

  -- None, or properties that can be written and fit.
  abbrev pub IsFine : Option P → Type 0
  IsFine none = Unit
  IsFine (some p) = c.IsValid p × (c.len p ≤ 268435455)

  pub length-options_image : (o : Option P) → length (options_image o) ≡ len_of c.len o
  unfolding len_of
  length-options_image none =
      omega (arith, length-sized [], length-var_int 0, ap length var_int_zero)
  length-options_image (some p) =
      length-sized (c.image p) ∙ ap (λ n. len_len n + n) (c.length-image p)

  pub length-options_image_pos : (o : Option P) → 0 < length (options_image o)
  length-options_image_pos none = omega (arith, length-sized [], len_len_bounds 0)
  length-options_image_pos (some p) =
      omega (arith, length-sized (c.image p), len_len_bounds (length (c.image p)))

  pub write_or_zero-Writes :
      (o : Option P) → IsFine o → Writes (write_or_zero c.write o) (options_image o)
  unfolding write_or_zero
  write_or_zero-Writes none h buffer =
      rw (write_remaining_length-var_int 0 buffer (omega arith)) (rw var_int_zero refl)
  write_or_zero-Writes (some p) h buffer = c.write-Writes p h.0 h.1 buffer

  pub read-options_image :
      (o : Option P) (rest : Bytes)
      → IsFine o
      → read_properties c.arms c.empty (options_image o ++ rest) ≡ (ok (back o), rest)
  read-options_image none rest h =
      read_properties-sized c.arms [] rest c.empty c.empty (nothing-Parses c.arms c.empty)
        (omega arith)
  read-options_image (some p) rest h =
      read_properties-sized c.arms (c.image p) rest c.empty p (c.arms-Parses p h.0)
        (omega (arith, h.1, c.length-image p))
      ∙ ap (λ n. (ok (when_some n p), rest)) (c.length-image p)

  pub read_properties-Total_of : Total (read_properties c.arms c.empty)
  read_properties-Total_of = read_properties-Total c.arms c.empty c.arms-AreTotal
