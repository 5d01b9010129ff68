-- ===== src/Storage/Memory/Read.antt =====
-- What the reads of src/storage-adapter/src/memory/mod.rs find.
use robustmq.Prelude.{
  ℕ, zero, suc, ◌+◌, ◌^◌, ◌≤◌, ◌<◌, ◌≡◌, refl, ap, ◌∙◌, inl, inr, Bool, true, Option, none, some,
  List, [], ◌∷◌, arith,
}
use robustmq.Prelude.{
  Option-cases, length, get_elem?, take, drop, filter, drop-get_elem?, drop_all, take_nil, take_all,
  drop-append_exact,
}
use robustmq.Mqtt.Bytes.{Text, bytes_eq}
use robustmq.Maps.{get, insert, get-insert}
use robustmq.Storage.Memory.{
  Record, ReadConfig, MemoryStorageAdapter, shard_key, read_loop, read_range, read_by_offset,
  read_by_tag, read_by_key, contains, batch_write, written,
}
use robustmq.Storage.Memory.Written.{stamp, or_empty, records, written_lem}

read_loop_lem :
    (wanted : Record → Bool) (n i : ℕ) (rs : List Record)
    → read_loop wanted n i rs ≡ filter wanted (take n (drop i rs))
unfolding read_loop
read_loop_lem wanted zero i rs = refl
read_loop_lem wanted (suc n) i rs = elim (Option-cases (get_elem? rs i)) [
  | inl e ↦ ground (arith, e, drop-get_elem? i rs)
  | inr (r, e) ↦ ground (arith, e, drop-get_elem? i rs, read_loop_lem wanted n (i + 1) rs)
]

-- The records of the shard from the offset on, at most the given number of them.
unfoldable pub page : Text → ℕ → ReadConfig → MemoryStorageAdapter → List Record
page key offset read_config s = take read_config.max_record_num (drop offset (records key s))

read_range_lem :
    (wanted : Record → Bool) (offset : ℕ) (c : ReadConfig) (o : Option (List Record))
    → offset + c.max_record_num < 2 ^ 64
    → read_range wanted offset c o
      ≡ filter wanted (take c.max_record_num (drop offset (or_empty o)))
unfolding read_range or_empty
read_range_lem wanted offset c none h =
    ground (arith, drop_all {A = Record} offset [], take_nil {A = Record} c.max_record_num)
read_range_lem wanted offset c (some rs) h = ground (
  arith,
  drop_all offset rs,
  take_nil {A = Record} c.max_record_num,
  read_loop_lem wanted c.max_record_num offset rs,
)

filter-true : (rs : List Record) → filter (λ r. true) rs ≡ rs
filter-true [] = refl
filter-true (r ∷ rs) = ap (◌∷◌ r) (filter-true rs)

-- As long as the range does not pass 2 ^ 64: reading by offset gives the records from the offset
-- on, at most as many as asked for; reading by tag and by key, those of them that match.
pub read_lem :
    (namespace shard_name tag key : Text) (offset : ℕ) (c : ReadConfig) (s : MemoryStorageAdapter)
    → offset + c.max_record_num < 2 ^ 64
    → let found = page (shard_key namespace shard_name) offset c s in
      (read_by_offset namespace shard_name offset c s ≡ found)
      × (read_by_tag namespace shard_name offset tag c s ≡ filter (λ r. contains r.tags tag) found)
      × (read_by_key namespace shard_name offset key c s ≡ filter (λ r. bytes_eq r.key key) found)
unfolding page records read_by_offset read_by_tag read_by_key
read_lem namespace shard_name tag key offset c s h =
    let o = get (shard_key namespace shard_name) s.shard_data in
    (
      read_range_lem (λ r. true) offset c o h ∙ filter-true _,
      read_range_lem (λ r. contains r.tags tag) offset c o h,
      read_range_lem (λ r. bytes_eq r.key key) offset c o h,
    )

length-stamp : (n : ℕ) (rs : List Record) → length (stamp n rs) ≡ length rs
unfolding stamp
length-stamp n [] = refl
length-stamp n (r ∷ rs) = ap suc (length-stamp (n + 1) rs)

-- What `batch_write` has written is read back at the offset where the shard ended before, by a
-- read that asks for as many records or more.
pub read_by_offset-batch_write :
    (namespace shard_name : Text) (rs : List Record) (c : ReadConfig) (s : MemoryStorageAdapter)
    → length (records (shard_key namespace shard_name) s) + c.max_record_num < 2 ^ 64
    → length rs ≤ c.max_record_num
    → read_by_offset namespace shard_name
        (length (records (shard_key namespace shard_name) s))
        c
        (batch_write namespace shard_name rs s).1
      ≡ stamp (length (records (shard_key namespace shard_name) s)) rs
unfolding read_by_offset batch_write records
read_by_offset-batch_write namespace shard_name rs c s h k =
    let key = shard_key namespace shard_name in
    let o = get key s.shard_data in
    let kept = or_empty o in
    read_range_lem (λ r. true) (length kept) c (get key (insert key (written rs o).1 s.shard_data))
      h
    ∙ (filter-true _
        ∙ rw (get-insert key (written rs o).1 s.shard_data, written_lem rs o)
            (unfold or_empty in
              rw (drop-append_exact (length kept) kept (stamp (length kept) rs) refl) (
                take_all c.max_record_num (stamp (length kept) rs)
                  (omega (arith, length-stamp (length kept) rs)))))
