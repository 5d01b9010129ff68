-- ===== src/Storage/Memory.antt =====
-- `MemoryStorageAdapter` of src/storage-adapter/src/memory/mod.rs: shards as logs of records, and
-- the offsets that groups commit. No operation fails, so each gives its value and the new state.
pub mod Written
pub mod Read
pub mod Shards
pub mod Tests
use robustmq.Prelude.{
  ℕ, zero, suc, ◌+◌, ◌-◌, ◌%◌, ◌^◌, Bool, true, false, ◌||◌, Option, none, some, List, [], ◌∷◌,
  ◌++◌, map,
}
use robustmq.Prelude.{ltb, leb, if◌then◌else◌, length, get_elem?}
use robustmq.Mqtt.Bytes.{Bytes, Text, bytes_eq}
use robustmq.Maps.{DashMap, get, insert, remove}

pub record Header : Type 0 where
  pub name : Text
  pub value : Text

-- `data` of the source is the field `content`.
pub record Record : Type 0 where
  pub offset : Option ℕ
  pub header : List Header
  pub key : Text
  pub content : Bytes
  pub tags : List Text
  pub timestamp : ℕ
  pub delay_timestamp : ℕ
  pub crc_num : ℕ

pub record ShardInfo : Type 0 where
  pub namespace : Text
  pub shard_name : Text
  pub replica_num : ℕ

pub record ShardOffset : Type 0 where
  pub namespace : Text
  pub shard_name : Text
  pub segment_no : ℕ
  pub offset : ℕ

pub record ReadConfig : Type 0 where
  pub max_record_num : ℕ
  pub max_size : ℕ

pub record MemoryStorageAdapter : Type 0 where
  pub shard_info : DashMap ShardInfo
  pub shard_data : DashMap (List Record)
  pub group_data : DashMap (DashMap ℕ)

unfoldable pub new : MemoryStorageAdapter
new = record { shard_info = []; shard_data = []; group_data = [] }

-- `format!("{}_{}", namespace, shard_name)`.
unfoldable pub shard_key : Text → Text → Text
shard_key namespace shard_name = namespace ++ 0x5f ∷ shard_name

unfoldable pub create_shard : ShardInfo → MemoryStorageAdapter → MemoryStorageAdapter
create_shard shard s =
    let key = shard_key shard.namespace shard.shard_name in
    record s { shard_data = insert key [] s.shard_data; shard_info = insert key shard s.shard_info }

is_empty : Text → Bool
is_empty [] = true
is_empty (c ∷ cs) = false

unfoldable pub values : {V : Type 0} → DashMap V → List V
values [] = []
values ((k, v) ∷ m) = v ∷ values m

unfoldable pub list_shard : Text → Text → MemoryStorageAdapter → List ShardInfo
unfolding is_empty values
list_shard namespace shard_name s =
    if is_empty shard_name
    then elim (get (shard_key namespace shard_name) s.shard_info) [
      | some info ↦ info ∷ []
      | none ↦ values s.shard_info
    ]
    else values s.shard_info

unfoldable pub delete_shard : Text → Text → MemoryStorageAdapter → MemoryStorageAdapter
delete_shard namespace shard_name s = record s {
  shard_data = remove (shard_key namespace shard_name) s.shard_data;
}

-- The loop of `batch_write`: the offsets that it returns, and the records of the shard.
unfoldable pub write_loop : List Record → ℕ → List ℕ → List Record → List ℕ × List Record
write_loop [] start_offset offset_res data_list = (offset_res, data_list)
write_loop (msg ∷ messages) start_offset offset_res data_list =
    write_loop messages (start_offset + 1) (offset_res ++ start_offset ∷ [])
      (data_list ++ record msg { offset = some start_offset } ∷ [])

-- The shard is there, or it is not.
unfoldable pub written : List Record → Option (List Record) → List ℕ × List Record
unfolding write_loop
written messages (some data_list) = write_loop messages (length data_list) [] data_list
written messages none = write_loop messages 0 [] []

unfoldable pub batch_write :
    Text → Text → List Record → MemoryStorageAdapter → List ℕ × MemoryStorageAdapter
unfolding written
batch_write namespace shard_name messages s =
    let key = shard_key namespace shard_name in
    let result = written messages (get key s.shard_data) in
    (result.0, record s { shard_data = insert key result.1 s.shard_data })

unfoldable pub written_one : Record → Option (List Record) → ℕ × List Record
written_one msg (some data_list) =
    (length data_list, data_list ++ record msg { offset = some (length data_list) } ∷ [])
written_one msg none = (0, record msg { offset = some 0 } ∷ [])

unfoldable pub write : Text → Text → Record → MemoryStorageAdapter → ℕ × MemoryStorageAdapter
unfolding written_one
write namespace shard_name msg s =
    let key = shard_key namespace shard_name in
    let result = written_one msg (get key s.shard_data) in
    (result.0, record s { shard_data = insert key result.1 s.shard_data })

-- The loop over `offset..(offset + max_record_num)`, which ends at the first index past the data,
-- and keeps the records that are wanted.
unfoldable pub read_loop : (Record → Bool) → ℕ → ℕ → List Record → List Record
read_loop wanted zero i data_list = []
read_loop wanted (suc n) i data_list =
    let rest = read_loop wanted n (i + 1) data_list in
    elim (get_elem? data_list i) [
      | none ↦ []
      | some value ↦ if wanted value then value ∷ rest else rest
    ]

-- The sum of the range wraps at 2 ^ 64; a range that ends before it begins is empty.
unfoldable pub read_range : (Record → Bool) → ℕ → ReadConfig → Option (List Record) → List Record
unfolding read_loop
read_range wanted offset read_config none = []
read_range wanted offset read_config (some data_list) =
    if ltb (length data_list) offset
    then []
    else read_loop wanted ((offset + read_config.max_record_num) % 2 ^ 64 - offset) offset data_list

unfoldable pub read_by_offset : Text → Text → ℕ → ReadConfig → MemoryStorageAdapter → List Record
unfolding read_range
read_by_offset namespace shard_name offset read_config s =
    read_range (λ r. true) offset read_config (get (shard_key namespace shard_name) s.shard_data)

unfoldable pub contains : List Text → Text → Bool
contains [] tag = false
contains (t ∷ ts) tag = bytes_eq t tag || contains ts tag

unfoldable pub read_by_tag :
    Text → Text → ℕ → Text → ReadConfig → MemoryStorageAdapter → List Record
unfolding read_range contains
read_by_tag namespace shard_name offset tag read_config s =
    read_range (λ r. contains r.tags tag) offset read_config
      (get (shard_key namespace shard_name) s.shard_data)

unfoldable pub read_by_key :
    Text → Text → ℕ → Text → ReadConfig → MemoryStorageAdapter → List Record
unfolding read_range
read_by_key namespace shard_name offset key read_config s =
    read_range (λ r. bytes_eq r.key key) offset read_config
      (get (shard_key namespace shard_name) s.shard_data)

-- `ShardOffset { offset, ..Default::default() }`.
abbrev pub shard_offset : ℕ → ShardOffset
shard_offset n = record { namespace = []; shard_name = []; segment_no = 0; offset = n }

unfoldable pub find_timestamp : ℕ → List Record → Option ShardOffset
find_timestamp timestamp [] = none
find_timestamp timestamp (r ∷ rs) =
    let rest = find_timestamp timestamp rs in
    if leb timestamp r.timestamp
    then elim r.offset [ none ↦ none | some n ↦ some (shard_offset n) ]
    else rest

unfoldable pub get_offset_by_timestamp : Text → Text → ℕ → MemoryStorageAdapter → Option ShardOffset
unfolding find_timestamp
get_offset_by_timestamp namespace shard_name timestamp s =
    elim (get (shard_key namespace shard_name) s.shard_data) [
      | none ↦ none
      | some record_list ↦ find_timestamp timestamp record_list
    ]

unfoldable pub get_offset_by_group : Text → MemoryStorageAdapter → List ShardOffset
unfolding values
get_offset_by_group group_name s = elim (get group_name s.group_data) [
  | none ↦ []
  | some group ↦ map shard_offset (values group)
]

-- The loop of `commit_offset` over the pairs of the `HashMap`.
unfoldable pub commit_loop : Text → DashMap ℕ → DashMap ℕ → DashMap ℕ
commit_loop namespace [] group = group
commit_loop namespace ((shard_name, n) ∷ offset) group =
    commit_loop namespace offset (insert (shard_key namespace shard_name) n group)

unfoldable pub committed : Text → DashMap ℕ → Option (DashMap ℕ) → DashMap ℕ
unfolding commit_loop
committed namespace offset (some group) = commit_loop namespace offset group
committed namespace offset none = commit_loop namespace offset []

unfoldable pub commit_offset : Text → Text → DashMap ℕ → MemoryStorageAdapter → MemoryStorageAdapter
unfolding committed
commit_offset group_name namespace offset s = record s {
  group_data =
      insert group_name (committed namespace offset (get group_name s.group_data)) s.group_data;
}
