-- ===== src/Storage/Memory/Tests.antt =====
-- Runs of src/storage-adapter/src/memory/mod.rs on small shards.
use robustmq.Prelude.{◌<◌, ◌≡◌, refl, none, some, [], ◌∷◌, ◌++◌, filter, length, All, arith}
use robustmq.Mqtt.Bytes.{bytes_eq}
use robustmq.Storage.Memory.{
  Record, ReadConfig, MemoryStorageAdapter, shard_key, batch_write, write, read_by_offset,
  read_by_tag, read_by_key, contains,
}
use robustmq.Storage.Memory.Written.{
  stamp, offsets, records, IsNumbered, batch_write_lem, batch_write-IsNumbered, write-batch_write,
}
use robustmq.Storage.Memory.{get_offset_by_timestamp, shard_offset, commit_offset}
use robustmq.Storage.Memory.Shards.{
  IsFirst, group_offset, get_offset_by_timestamp_lem, get_offset_by_timestamp-none,
  commit_offset_lem,
}
use robustmq.Storage.Memory.Read.{page, read_lem, read_by_offset-batch_write}

abbrev message : Record
message = record {
  offset = none;
  header = [];
  key = 0x6b ∷ [];
  content = 1 ∷ [];
  tags = (0x74 ∷ []) ∷ [];
  timestamp = 5;
  delay_timestamp = 0;
  crc_num = 0;
}

abbrev store : MemoryStorageAdapter
store = record {
  shard_info = [];
  shard_data = (0x6e ∷ 0x5f ∷ 0x73 ∷ [], record message { offset = some 0 } ∷ []) ∷ [];
  group_data = [];
}

abbrev config : ReadConfig
config = record { max_record_num = 10; max_size = 100 }

-- `a_b` and `c` share their key with `a` and `b_c`.
keys_meet :
    shard_key (0x61 ∷ 0x5f ∷ 0x62 ∷ []) (0x63 ∷ [])
    ≡ shard_key (0x61 ∷ []) (0x62 ∷ 0x5f ∷ 0x63 ∷ [])
unfolding shard_key
keys_meet = refl

store-IsNumbered : IsNumbered (records (shard_key (0x6e ∷ []) (0x73 ∷ [])) store)
unfolding IsNumbered records robustmq.Maps.get bytes_eq shard_key
store-IsNumbered = refl

batch_write_lem_example :
    ((batch_write (0x6e ∷ []) (0x73 ∷ []) (message ∷ message ∷ []) store).0
      ≡ offsets
          (length (records (shard_key (0x6e ∷ []) (0x73 ∷ [])) store))
          (message ∷ message ∷ []))
    × (records
          (shard_key (0x6e ∷ []) (0x73 ∷ []))
          (batch_write (0x6e ∷ []) (0x73 ∷ []) (message ∷ message ∷ []) store).1
        ≡ records (shard_key (0x6e ∷ []) (0x73 ∷ [])) store
          ++ stamp
              (length (records (shard_key (0x6e ∷ []) (0x73 ∷ [])) store))
              (message ∷ message ∷ []))
    × (records (0x78 ∷ []) (batch_write (0x6e ∷ []) (0x73 ∷ []) (message ∷ message ∷ []) store).1
        ≡ records (0x78 ∷ []) store)
unfolding bytes_eq shard_key
batch_write_lem_example =
    batch_write_lem (0x6e ∷ []) (0x73 ∷ []) (0x78 ∷ []) (message ∷ message ∷ []) store refl

batch_write-IsNumbered_example : IsNumbered (
    records
      (shard_key (0x6e ∷ []) (0x73 ∷ []))
      (batch_write (0x6e ∷ []) (0x73 ∷ []) (message ∷ []) store).1)
batch_write-IsNumbered_example =
    batch_write-IsNumbered (0x6e ∷ []) (0x73 ∷ []) (message ∷ []) store store-IsNumbered

write-batch_write_example : batch_write (0x6e ∷ []) (0x73 ∷ []) (message ∷ []) store ≡ (
  (write (0x6e ∷ []) (0x73 ∷ []) message store).0 ∷ [],
  (write (0x6e ∷ []) (0x73 ∷ []) message store).1,
)
write-batch_write_example = write-batch_write (0x6e ∷ []) (0x73 ∷ []) message store

read_lem_example :
    (read_by_offset (0x6e ∷ []) (0x73 ∷ []) 0 config store
      ≡ page (shard_key (0x6e ∷ []) (0x73 ∷ [])) 0 config store)
    × (read_by_tag (0x6e ∷ []) (0x73 ∷ []) 0 (0x74 ∷ []) config store
        ≡ filter
            (λ r. contains r.tags (0x74 ∷ []))
            (page (shard_key (0x6e ∷ []) (0x73 ∷ [])) 0 config store))
    × (read_by_key (0x6e ∷ []) (0x73 ∷ []) 0 (0x6b ∷ []) config store
        ≡ filter
            (λ r. bytes_eq r.key (0x6b ∷ []))
            (page (shard_key (0x6e ∷ []) (0x73 ∷ [])) 0 config store))
read_lem_example =
    read_lem (0x6e ∷ []) (0x73 ∷ []) (0x74 ∷ []) (0x6b ∷ []) 0 config store (omega arith)

read_by_offset-batch_write_example :
    read_by_offset
      (0x6e ∷ [])
      (0x73 ∷ [])
      (length (records (shard_key (0x6e ∷ []) (0x73 ∷ [])) store))
      config
      (batch_write (0x6e ∷ []) (0x73 ∷ []) (message ∷ message ∷ []) store).1
    ≡ stamp (length (records (shard_key (0x6e ∷ []) (0x73 ∷ [])) store)) (message ∷ message ∷ [])
unfolding records robustmq.Maps.get bytes_eq shard_key
read_by_offset-batch_write_example =
    read_by_offset-batch_write (0x6e ∷ []) (0x73 ∷ []) (message ∷ message ∷ []) config store
      (omega arith) (omega arith)

get_offset_by_timestamp_lem_example :
    IsFirst 3 0 (records (shard_key (0x6e ∷ []) (0x73 ∷ [])) store) (shard_offset 0)
unfolding get_offset_by_timestamp robustmq.Maps.get bytes_eq shard_key
get_offset_by_timestamp_lem_example =
    get_offset_by_timestamp_lem (0x6e ∷ []) (0x73 ∷ []) 3 store (shard_offset 0) store-IsNumbered
      refl

get_offset_by_timestamp-none_example :
    All (λ r. r.timestamp < 9) (records (shard_key (0x6e ∷ []) (0x73 ∷ [])) store)
unfolding get_offset_by_timestamp robustmq.Maps.get bytes_eq shard_key
get_offset_by_timestamp-none_example =
    get_offset_by_timestamp-none (0x6e ∷ []) (0x73 ∷ []) 9 store store-IsNumbered refl

commit_offset_lem_example :
    (group_offset
        (0x67 ∷ [])
        (shard_key (0x6e ∷ []) (0x73 ∷ []))
        (commit_offset (0x67 ∷ []) (0x6e ∷ []) ((0x73 ∷ [], 4) ∷ []) store)
      ≡ some 4)
    × (group_offset
          (0x68 ∷ [])
          (0x78 ∷ [])
          (commit_offset (0x67 ∷ []) (0x6e ∷ []) ((0x73 ∷ [], 4) ∷ []) store)
        ≡ group_offset (0x68 ∷ []) (0x78 ∷ []) store)
unfolding bytes_eq
commit_offset_lem_example =
    commit_offset_lem (0x67 ∷ []) (0x68 ∷ []) (0x6e ∷ []) (0x73 ∷ []) (0x78 ∷ []) 4 [] [] store tt
      refl
