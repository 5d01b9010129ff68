-- ===== src/Storage/Memory/Shards.antt =====
-- Shards that come and go, offsets by time, and offsets of groups, of
-- src/storage-adapter/src/memory/mod.rs.
use mathlib.Core.Path.{subst}
use robustmq.Prelude.{
  ℕ, suc, ◌+◌, ◌≤◌, ◌<◌, ◌≡◌, refl, sym, ap, ◌∙◌, inl, inr, false, Option, none, some, List, [],
  ◌∷◌, ◌++◌, arith,
}
use robustmq.Prelude.{leb, Bool-cases, get_elem?, take, All}
use robustmq.Mqtt.Bytes.{Text, bytes_eq}
use robustmq.Maps.{DashMap, get, insert, get-insert, get-insert_other}
use robustmq.Storage.Memory.{
  Record, ShardOffset, MemoryStorageAdapter, shard_key, find_timestamp, get_offset_by_timestamp,
  commit_loop, committed, commit_offset,
}
use robustmq.Storage.Memory.Written.{stamp, IsNumbered, or_empty, records}

-- The first record at or after a time, counted from `n`: what stands before it is older.
pub record IsFirst (timestamp n : ℕ) (rs : List Record) (o : ShardOffset) : Type 0 where
  pub index : ℕ
  pub value : Record
  pub is_offset : o.offset ≡ n + index
  pub found : get_elem? rs index ≡ some value
  pub late : timestamp ≤ value.timestamp
  pub before : All (λ r. r.timestamp < timestamp) (take index rs)

find_timestamp_lem :
    (t n : ℕ) (rs : List Record) (o : ShardOffset)
    → find_timestamp t (stamp n rs) ≡ some o
    → IsFirst t n (stamp n rs) o
unfolding find_timestamp stamp
find_timestamp_lem t n [] o h = cc
find_timestamp_lem t n (r ∷ rs) o h = elim (Bool-cases (leb t r.timestamp)) [
  | inl e ↦ record {
    index = 0;
    value = record r { offset = some n };
    is_offset = ground (arith, h, e);
    found = refl;
    late = ground (arith, e);
    before = tt;
  }
  | inr e ↦
      let later = find_timestamp_lem t (n + 1) rs o (ground (arith, h, e)) in
      record {
        index = suc later.index;
        value = later.value;
        is_offset = omega (arith, later.is_offset);
        found = later.found;
        late = later.late;
        before = (ground (arith, e), later.before);
      }
]

-- In a shard whose records have their indices as offsets: an offset that is found for a time is
-- that of a record at or after it, and every record before it is older.
pub get_offset_by_timestamp_lem :
    (namespace shard_name : Text) (t : ℕ) (s : MemoryStorageAdapter) (o : ShardOffset)
    → IsNumbered (records (shard_key namespace shard_name) s)
    → get_offset_by_timestamp namespace shard_name t s ≡ some o
    → IsFirst t 0 (records (shard_key namespace shard_name) s) o
unfolding get_offset_by_timestamp records or_empty IsNumbered
get_offset_by_timestamp_lem namespace shard_name t s o h e =
    by_shard (get (shard_key namespace shard_name) s.shard_data) h e
  where
    by_shard :
        (d : Option (List Record))
        → or_empty d ≡ stamp 0 (or_empty d)
        → elim d [ none ↦ none | some rs ↦ find_timestamp t rs ] ≡ some o
        → IsFirst t 0 (or_empty d) o
    by_shard none h e = cc
    by_shard (some rs) h e =
        subst (λ x. IsFirst t 0 x o) (sym h)
          (find_timestamp_lem t 0 rs o (ap (find_timestamp t) (sym h) ∙ e))

find_timestamp-none :
    (t n : ℕ) (rs : List Record)
    → find_timestamp t (stamp n rs) ≡ none
    → All (λ r. r.timestamp < t) (stamp n rs)
unfolding find_timestamp stamp
find_timestamp-none t n [] h = tt
find_timestamp-none t n (r ∷ rs) h = elim (Bool-cases (leb t r.timestamp)) [
  | inl e ↦ absurd (ground (arith, h, e))
  | inr e ↦ (ground (arith, e), find_timestamp-none t (n + 1) rs (ground (arith, h, e)))
]

-- If no offset is found for a time, every record of the shard is older.
pub get_offset_by_timestamp-none :
    (namespace shard_name : Text) (t : ℕ) (s : MemoryStorageAdapter)
    → IsNumbered (records (shard_key namespace shard_name) s)
    → get_offset_by_timestamp namespace shard_name t s ≡ none
    → All (λ r. r.timestamp < t) (records (shard_key namespace shard_name) s)
unfolding get_offset_by_timestamp records or_empty IsNumbered
get_offset_by_timestamp-none namespace shard_name t s h e =
    by_shard (get (shard_key namespace shard_name) s.shard_data) h e
  where
    by_shard :
        (d : Option (List Record))
        → or_empty d ≡ stamp 0 (or_empty d)
        → elim d [ none ↦ none | some rs ↦ find_timestamp t rs ] ≡ none
        → All (λ r. r.timestamp < t) (or_empty d)
    by_shard none h e = tt
    by_shard (some rs) h e =
        subst (λ x. All (λ r. r.timestamp < t) x) (sym h)
          (find_timestamp-none t 0 rs (ap (find_timestamp t) (sym h) ∙ e))

commit_loop-append :
    (namespace : Text) (front back group : DashMap ℕ)
    → commit_loop namespace (front ++ back) group
      ≡ commit_loop namespace back (commit_loop namespace front group)
unfolding commit_loop
commit_loop-append namespace [] back group = refl
commit_loop-append namespace ((name, n) ∷ front) back group =
    commit_loop-append namespace front back (insert (shard_key namespace name) n group)

-- A key that none of the pairs has.
abbrev pub IsOther : Text → Text → DashMap ℕ → Type 0
IsOther namespace key pairs = All (λ p. bytes_eq key (shard_key namespace p.0) ≡ false) pairs

commit_loop_other :
    (namespace key : Text) (back group : DashMap ℕ)
    → IsOther namespace key back
    → get key (commit_loop namespace back group) ≡ get key group
unfolding commit_loop
commit_loop_other namespace key [] group h = refl
commit_loop_other namespace key ((name, n) ∷ back) group h =
    commit_loop_other namespace key back (insert (shard_key namespace name) n group) h.1
    ∙ get-insert_other key (shard_key namespace name) n group h.0

stored :
    (namespace name : Text) (n : ℕ) (back group : DashMap ℕ)
    → IsOther namespace (shard_key namespace name) back
    → get (shard_key namespace name) (commit_loop namespace ((name, n) ∷ back) group) ≡ some n
unfolding commit_loop
stored namespace name n back group h =
    commit_loop_other namespace (shard_key namespace name) back
      (insert (shard_key namespace name) n group) h
    ∙ get-insert (shard_key namespace name) n group

committed_loop :
    (namespace : Text) (offset : DashMap ℕ) (o : Option (DashMap ℕ))
    → (group : DashMap ℕ) × (committed namespace offset o ≡ commit_loop namespace offset group)
unfolding committed
committed_loop namespace offset none = ([], refl)
committed_loop namespace offset (some group) = (group, refl)

-- What a group has committed for a key.
unfoldable pub offset_of : Text → Option (DashMap ℕ) → Option ℕ
offset_of key none = none
offset_of key (some group) = get key group

unfoldable pub group_offset : Text → Text → MemoryStorageAdapter → Option ℕ
unfolding offset_of
group_offset group_name key s = offset_of key (get group_name s.group_data)

-- The offset that a commit gives for a shard is the one that the group has then, whether the
-- group was known or not, if no later pair of the commit is for the same shard; and other groups
-- keep theirs.
pub commit_offset_lem :
    (group_name other namespace name key : Text) (n : ℕ) (front back : DashMap ℕ)
    (s : MemoryStorageAdapter)
    → IsOther namespace (shard_key namespace name) back
    → bytes_eq other group_name ≡ false
    → let after = commit_offset group_name namespace (front ++ (name, n) ∷ back) s in
      (group_offset group_name (shard_key namespace name) after ≡ some n)
      × (group_offset other key after ≡ group_offset other key s)
unfolding group_offset commit_offset
commit_offset_lem group_name other namespace name key n front back s h k =
    let old = get group_name s.group_data in
    let (group, e) = committed_loop namespace (front ++ (name, n) ∷ back) old in
    let g = committed namespace (front ++ (name, n) ∷ back) old in
    (
      ap (offset_of (shard_key namespace name)) (get-insert group_name g s.group_data)
          ∙ (ap (get (shard_key namespace name))
                (e ∙ commit_loop-append namespace front ((name, n) ∷ back) group)
              ∙ stored namespace name n back (commit_loop namespace front group) h),
      ap (offset_of key) (get-insert_other other group_name g s.group_data k),
    )
