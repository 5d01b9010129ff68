-- ===== src/Mqtt/V5/Repeat.antt =====
-- The loops of src/protocol/src/mqtt/mqttv5 that read or write the rest of a packet item by item:
-- `while bytes.has_remaining()`, and `for filter in filters`.
use robustmq.Prelude.{ℕ, zero, suc, ◌≤◌, ◌<◌, ◌≡◌, refl, List, [], ◌∷◌, ◌++◌, arith}
use robustmq.Prelude.{length, length-append, All}
use robustmq.Mqtt.Bytes.{Bytes}
use robustmq.Mqtt.Outcome.{Outcome, ok, err, panic, Returns}
use robustmq.Mqtt.Buffer.{Buffered, continue, ◌>>=◌, ◌>>◌, pure, Total, Returns->>=}
use robustmq.Mqtt.Reader.Spend.{Spends}
use robustmq.Mqtt.V5.Fields.Image.{Writes, Writes->>, nothing-Writes, Reads}

-- Rounds while bytes remain. Each round takes a byte at least, so as many rounds as there are
-- bytes are enough; without fuel the loop is a panic.
unfoldable pub read_rounds : {A : Type 0} → Buffered A → ℕ → Buffered (List A)
read_rounds item fuel [] = (ok [], [])
read_rounds item zero (b ∷ bs) = (panic, b ∷ bs)
read_rounds item (suc fuel) (b ∷ bs) =
    (item >>= λ a. read_rounds item fuel >>= λ xs. pure (a ∷ xs)) (b ∷ bs)

unfoldable pub read_all : {A : Type 0} → Buffered A → Buffered (List A)
unfolding read_rounds
read_all item bs = read_rounds item (length bs) bs

unfoldable pub write_all : {A : Type 0} → (A → Buffered (Unit {0})) → List A → Buffered (Unit {0})
write_all put [] = pure tt
write_all put (a ∷ xs) = do put a; write_all put xs

after_round :
    {A : Type 0} (item : Buffered A) (fuel : ℕ) (r : Outcome A × Bytes)
    → Returns r.0
    → ((a : A) → r.0 ≡ ok a → Returns (read_rounds item fuel r.1).0)
    → Returns (continue (λ a. read_rounds item fuel >>= λ xs. pure (a ∷ xs)) r).0
after_round item fuel (ok a, rest) t k =
    Returns->>= (read_rounds item fuel) _ rest (k a refl) λ _ _. tt
after_round item fuel (err e, rest) t k = tt
after_round item fuel (panic, rest) t k = t

read_rounds-Returns :
    {A : Type 0} (item : Buffered A) (fuel : ℕ) (bs : Bytes)
    → Total item
    → Spends 1 item
    → length bs ≤ fuel
    → Returns (read_rounds item fuel bs).0
unfolding read_rounds
read_rounds-Returns item fuel [] t s h = tt
read_rounds-Returns item zero (b ∷ bs) t s h = absurd (omega arith)
read_rounds-Returns item (suc fuel) (b ∷ bs) t s h =
    after_round item fuel (item (b ∷ bs)) (t (b ∷ bs))
      λ a e. read_rounds-Returns item fuel _ t s (omega (arith, s (b ∷ bs) a e))

-- The loop returns where the body does and takes a byte.
pub read_all-Total :
    {A : Type 0} (item : Buffered A) → Total item → Spends 1 item → Total (read_all item)
unfolding read_all
read_all-Total item t s bs = read_rounds-Returns item (length bs) bs t s (omega arith)

abbrev pub images : {A : Type 0} → (A → Bytes) → List A → Bytes
images image [] = []
images image (a ∷ xs) = image a ++ images image xs

pub write_all-Writes :
    {A : Type 0} (put : A → Buffered (Unit {0})) (image : A → Bytes) (P : A → Type 0) (xs : List A)
    → ((a : A) → P a → Writes (put a) (image a))
    → All P xs
    → Writes (write_all put xs) (images image xs)
unfolding write_all
write_all-Writes put image P [] w h buffer = nothing-Writes buffer
write_all-Writes put image P (a ∷ xs) w h buffer =
    Writes->> (put a) _ (image a) _ (w a h.0) (write_all-Writes put image P xs w h.1) buffer

one_round :
    {A : Type 0} (item : Buffered A) (fuel : ℕ) (s rest : Bytes) (a : A)
    → Reads item s a
    → 0 < length s
    → read_rounds item (suc fuel) (s ++ rest) ≡ (read_rounds item fuel >>= λ xs. pure (a ∷ xs)) rest
unfolding read_rounds
one_round item fuel [] rest a r h = absurd (omega arith)
one_round item fuel (b ∷ s) rest a r h = rw (r rest) refl

read_rounds-images :
    {A : Type 0} (item : Buffered A) (image : A → Bytes) (P : A → Type 0) (fuel : ℕ) (xs : List A)
    → ((a : A) → P a → Reads item (image a) a × (0 < length (image a)))
    → All P xs
    → length (images image xs) ≤ fuel
    → read_rounds item fuel (images image xs) ≡ (ok xs, [])
read_rounds-images item image P fuel [] r h k = unfold read_rounds in refl
read_rounds-images item image P zero (a ∷ xs) r h k =
    absurd (omega (arith, length-append (image a) (images image xs), (r a h.0).1))
read_rounds-images item image P (suc fuel) (a ∷ xs) r h k =
    rw (one_round item fuel (image a) (images image xs) a (r a h.0).0 (r a h.0).1) (
      rw
        (read_rounds-images item image P fuel xs r h.1
          (omega (arith, length-append (image a) (images image xs), (r a h.0).1)))
        refl)

-- The loop reads back the items that were written.
pub read_all-images :
    {A : Type 0} (item : Buffered A) (image : A → Bytes) (P : A → Type 0) (xs : List A)
    → ((a : A) → P a → Reads item (image a) a × (0 < length (image a)))
    → All P xs
    → read_all item (images image xs) ≡ (ok xs, [])
unfolding read_all
read_all-images item image P xs r h = read_rounds-images item image P _ xs r h (omega arith)
