-- ===== src/Mqtt/V5/Properties/Total.antt =====
-- The property loop of src/protocol/src/mqtt/mqttv5 ends within its fuel, and never panics.
use robustmq.Prelude.{ℕ, zero, suc, ◌+◌, ◌≤◌, ◌<◌, ◌≡◌, arith}
use robustmq.Prelude.{inl, inr, le_or_lt}
use robustmq.Mqtt.Bytes.{Bytes}
use robustmq.Mqtt.Outcome.{ok}
use robustmq.Mqtt.Buffer.{Buffered, lift, Total, Returns->>=}
use robustmq.Mqtt.Reader.{read_u8}
use robustmq.Mqtt.Reader.Total.{read_u8-Total}
use robustmq.Mqtt.V5.PropertyType.{PropertyType, property, property-Returns}
use robustmq.Mqtt.V5.Fields.Total.{peek_length-advance-Returns}
use robustmq.Mqtt.V5.Properties.{Arms, read_loop, round, read_some, read_properties}

abbrev pub AreTotal : {P : Type 0} → Arms P → Type 0
AreTotal {P} arms = (type : PropertyType) (prop : ℕ) (p : P) → Total (arms type prop p)

pub read_loop-round :
    {P : Type 0} (arms : Arms P) (fuel properties_len cursor : ℕ) (p : P) (bs : Bytes)
    → cursor < properties_len
    → read_loop arms (suc fuel) properties_len cursor p bs
      ≡ round arms (read_loop arms fuel properties_len) cursor p bs
unfolding read_loop
read_loop-round arms fuel properties_len cursor p bs h = ground arith

pub read_loop-done :
    {P : Type 0} (arms : Arms P) (fuel properties_len cursor : ℕ) (p : P) (bs : Bytes)
    → properties_len ≤ cursor
    → read_loop arms fuel properties_len cursor p bs ≡ (ok p, bs)
unfolding read_loop
read_loop-done arms zero properties_len cursor p bs h = ground arith
read_loop-done arms (suc fuel) properties_len cursor p bs h = ground arith

round-Total :
    {P : Type 0} (arms : Arms P) (next : ℕ → P → Buffered P) (cursor : ℕ) (p : P)
    → AreTotal arms
    → ((n : ℕ) (p' : P) → Total (next (cursor + 1 + n) p'))
    → Total (round arms next cursor p)
unfolding round
round-Total arms next cursor p h k bs = Returns->>= read_u8 _ bs (read_u8-Total bs) λ prop bs'.
    Returns->>= (lift (property prop)) _ bs' (property-Returns prop)
      λ type bs''. Returns->>= (arms type prop p) _ bs'' (h type prop p bs'') λ r. k r.1 r.0

-- With as many rounds as there are bytes left to the length, the loop returns.
pub read_loop-Total :
    {P : Type 0} (arms : Arms P) (fuel properties_len cursor : ℕ) (p : P)
    → AreTotal arms
    → properties_len ≤ fuel + cursor
    → Total (read_loop arms fuel properties_len cursor p)
read_loop-Total arms zero properties_len cursor p h k bs =
    rw (read_loop-done arms zero properties_len cursor p bs (omega (arith, k))) tt
read_loop-Total arms (suc fuel) properties_len cursor p h k bs =
    elim (le_or_lt properties_len cursor) [
      | inl done ↦ rw (read_loop-done arms (suc fuel) properties_len cursor p bs done) tt
      | inr more ↦ rw (read_loop-round arms fuel properties_len cursor p bs more) (
          round-Total arms (read_loop arms fuel properties_len) cursor p h
            (λ n p'. read_loop-Total arms fuel properties_len (cursor + 1 + n) p' h (omega arith))
            bs)
    ]

read_some-Total :
    {P : Type 0} (arms : Arms P) (p : P) (n : ℕ) → AreTotal arms → Total (read_some arms p n)
unfolding read_some
read_some-Total arms p zero h bs = tt
read_some-Total arms p (suc n) h bs =
    Returns->>= (read_loop arms (suc n) (suc n) 0 p) _ bs
      (read_loop-Total arms (suc n) (suc n) 0 p h (omega arith) bs) λ _ _. tt

-- The properties are read or refused, whatever the bytes.
pub read_properties-Total :
    {P : Type 0} (arms : Arms P) (p : P) → AreTotal arms → Total (read_properties arms p)
unfolding read_properties
read_properties-Total arms p h bs =
    peek_length-advance-Returns (λ _ n. read_some arms p n) bs λ l n. read_some-Total arms p n h
