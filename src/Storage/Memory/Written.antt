-- ===== src/Storage/Memory/Written.antt =====
-- What the writes of src/storage-adapter/src/memory/mod.rs keep.
use robustmq.Prelude.{
  ℕ, ◌+◌, ◌≡◌, refl, sym, ap, ◌∙◌, false, Option, none, some, List, [], ◌∷◌, ◌++◌, append-nil,
  append_assoc, arith,
}
use robustmq.Prelude.{length}
use robustmq.Mqtt.Bytes.{Text, bytes_eq}
use robustmq.Maps.{get, get-insert, get-insert_other}
use robustmq.Storage.Memory.{
  Record, MemoryStorageAdapter, shard_key, write_loop, written, batch_write, written_one, write,
}

-- The records with the offsets from `n` on, and these offsets.
unfoldable pub stamp : ℕ → List Record → List Record
stamp n [] = []
stamp n (r ∷ rs) = record r { offset = some n } ∷ stamp (n + 1) rs

unfoldable pub offsets : ℕ → List Record → List ℕ
offsets n [] = []
offsets n (r ∷ rs) = n ∷ offsets (n + 1) rs

-- Every record has its index as its offset.
unfoldable pub IsNumbered : List Record → Type 0
unfolding stamp
IsNumbered rs = rs ≡ stamp 0 rs

-- The records of a shard, none of one that is not there.
unfoldable pub or_empty : Option (List Record) → List Record
or_empty none = []
or_empty (some rs) = rs

unfoldable pub records : Text → MemoryStorageAdapter → List Record
unfolding or_empty
records key s = or_empty (get key s.shard_data)

write_loop_lem :
    (rs : List Record) (n : ℕ) (res : List ℕ) (kept : List Record)
    → write_loop rs n res kept ≡ (res ++ offsets n rs, kept ++ stamp n rs)
unfolding write_loop offsets stamp
write_loop_lem [] n res kept = ground (arith, append-nil res, append-nil kept)
write_loop_lem (r ∷ rs) n res kept = ground (
  arith,
  write_loop_lem rs (n + 1) (res ++ n ∷ []) (kept ++ record r { offset = some n } ∷ []),
  append_assoc res (n ∷ []) (offsets (n + 1) rs),
  append_assoc kept (record r { offset = some n } ∷ []) (stamp (n + 1) rs),
)

pub written_lem :
    (rs : List Record) (o : Option (List Record))
    → written rs o
      ≡ (offsets (length (or_empty o)) rs, or_empty o ++ stamp (length (or_empty o)) rs)
unfolding written or_empty
written_lem rs none = write_loop_lem rs 0 [] []
written_lem rs (some kept) = write_loop_lem rs (length kept) [] kept

-- `batch_write` returns the offsets that follow those of the shard and appends the records with
-- these offsets, also to a shard that was not there; other shards stay as they are.
pub batch_write_lem :
    (namespace shard_name other : Text) (rs : List Record) (s : MemoryStorageAdapter)
    → bytes_eq other (shard_key namespace shard_name) ≡ false
    → let key = shard_key namespace shard_name in
      let old = records key s in
      ((batch_write namespace shard_name rs s).0 ≡ offsets (length old) rs)
      × (records key (batch_write namespace shard_name rs s).1 ≡ old ++ stamp (length old) rs)
      × (records other (batch_write namespace shard_name rs s).1 ≡ records other s)
unfolding batch_write records
batch_write_lem namespace shard_name other rs s h =
    let key = shard_key namespace shard_name in
    let w = written rs (get key s.shard_data) in
    let e = written_lem rs (get key s.shard_data) in
    (
      ap (λ p. p.0) e,
      ap or_empty (get-insert key w.1 s.shard_data) ∙ ap (λ p. p.1) e,
      ap or_empty (get-insert_other other key w.1 s.shard_data h),
    )

stamp-append :
    (n : ℕ) (xs ys : List Record) → stamp n (xs ++ ys) ≡ stamp n xs ++ stamp (n + length xs) ys
unfolding stamp
stamp-append n [] ys = ap (λ k. stamp k ys) (omega arith)
stamp-append n (x ∷ xs) ys =
    ap (◌∷◌ (record x { offset = some n }))
      (stamp-append (n + 1) xs ys ∙ ap (λ k. stamp (n + 1) xs ++ stamp k ys) (omega arith))

stamp_twice : (n : ℕ) (rs : List Record) → stamp n (stamp n rs) ≡ stamp n rs
unfolding stamp
stamp_twice n [] = refl
stamp_twice n (r ∷ rs) = ap (◌∷◌ (record r { offset = some n })) (stamp_twice (n + 1) rs)

stamp-append_zero : (xs ys : List Record) → stamp 0 (xs ++ ys) ≡ stamp 0 xs ++ stamp (length xs) ys
stamp-append_zero xs ys = stamp-append 0 xs ys ∙ ap (λ k. stamp 0 xs ++ stamp k ys) (omega arith)

append-IsNumbered :
    (old rs : List Record) → IsNumbered old → IsNumbered (old ++ stamp (length old) rs)
unfolding IsNumbered
append-IsNumbered old rs h =
    ap (λ x. x ++ stamp (length old) rs) h
    ∙ (ap (λ x. stamp 0 old ++ x) (sym (stamp_twice (length old) rs))
        ∙ sym (stamp-append_zero old (stamp (length old) rs)))

-- After a write every record of the shard has its index as its offset, if it was so before.
pub batch_write-IsNumbered :
    (namespace shard_name : Text) (rs : List Record) (s : MemoryStorageAdapter)
    → IsNumbered (records (shard_key namespace shard_name) s)
    → IsNumbered
        (records (shard_key namespace shard_name) (batch_write namespace shard_name rs s).1)
unfolding batch_write records
batch_write-IsNumbered namespace shard_name rs s h =
    let key = shard_key namespace shard_name in
    let o = get key s.shard_data in
    rw (get-insert key (written rs o).1 s.shard_data, written_lem rs o)
      (unfold or_empty in append-IsNumbered (or_empty o) rs h)

written_one_lem :
    (r : Record) (o : Option (List Record))
    → written (r ∷ []) o ≡ ((written_one r o).0 ∷ [], (written_one r o).1)
unfolding written written_one write_loop
written_one_lem r none = refl
written_one_lem r (some kept) = refl

-- `write` is `batch_write` of one record.
pub write-batch_write :
    (namespace shard_name : Text) (r : Record) (s : MemoryStorageAdapter)
    → batch_write namespace shard_name (r ∷ []) s
      ≡ ((write namespace shard_name r s).0 ∷ [], (write namespace shard_name r s).1)
unfolding batch_write write
write-batch_write namespace shard_name r s =
    rw (written_one_lem r (get (shard_key namespace shard_name) s.shard_data)) refl
