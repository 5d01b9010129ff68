-- ===== src/Journal/SegmentStatus.antt =====
-- The status of segments: src/journal-server/src/core/segment_status.rs, on the segments that the
-- cache of src/journal-server/src/core/cache.rs holds.
pub mod Steps
pub mod Tests
use robustmq.Prelude.{ℕ, ◌+◌, ◌%◌, ◌^◌, Bool, true, false, Option, none, some, List, [], ◌∷◌}
use robustmq.Prelude.{◌==◌, if◌then◌else◌}
use robustmq.Mqtt.Bytes.{Text}

pub data SegmentStatus : Type 0 where
  idle : SegmentStatus
  pre_write : SegmentStatus
  write : SegmentStatus
  pre_seal_up : SegmentStatus
  seal_up : SegmentStatus
  pre_delete : SegmentStatus
  deleting : SegmentStatus

unfoldable pub status_eq : SegmentStatus → SegmentStatus → Bool
status_eq SegmentStatus.idle SegmentStatus.idle = true
status_eq SegmentStatus.pre_write SegmentStatus.pre_write = true
status_eq SegmentStatus.write SegmentStatus.write = true
status_eq SegmentStatus.pre_seal_up SegmentStatus.pre_seal_up = true
status_eq SegmentStatus.seal_up SegmentStatus.seal_up = true
status_eq SegmentStatus.pre_delete SegmentStatus.pre_delete = true
status_eq SegmentStatus.deleting SegmentStatus.deleting = true
status_eq _ _ = false

-- The segments of one shard in the cache: the status of each sequence number.
abbrev pub Segments : Type 0
Segments = List (ℕ × SegmentStatus)

unfoldable pub get_segment : ℕ → Segments → Option SegmentStatus
get_segment seq [] = none
get_segment seq ((n, status) ∷ segments) =
    if seq == n then some status else get_segment seq segments

-- `update_segment_status` of the cache: nothing on a segment that is not there.
unfoldable pub update_segment_status : ℕ → SegmentStatus → Segments → Segments
update_segment_status seq next [] = []
update_segment_status seq next ((n, status) ∷ segments) =
    let rest = update_segment_status seq next segments in
    if seq == n then (n, next) ∷ segments else (n, status) ∷ rest

-- `segment_seq + 1` of a u32.
unfoldable pub next_seq : ℕ → ℕ
next_seq seq = (seq + 1) % 2 ^ 32

-- The request to the placement center, as far as it differs from one call to the next.
pub record UpdateSegmentStatusRequest : Type 0 where
  pub segment_seq : ℕ
  pub cur_status : SegmentStatus
  pub next_status : SegmentStatus

-- The errors of the call are those of the client.
pub data Result (E : Type 0) : Type 0 where
  ok : Result E
  err : E → Result E

module _ {E : Type 0} (call : UpdateSegmentStatusRequest → Result E) where
  -- The cache first, the placement center after it: an error leaves the cache changed.
  unfoldable pub update : ℕ → SegmentStatus → SegmentStatus → Segments → Result E × Segments
  update seq cur next segments = (
    call (record { segment_seq = seq; cur_status = cur; next_status = next }),
    update_segment_status seq next segments,
  )

  -- A function that returns early if the status is not the one it expects.
  unfoldable pub advance : SegmentStatus → SegmentStatus → ℕ → Segments → Result E × Segments
  unfolding update
  advance expected next seq segments = elim (get_segment seq segments) [
    | none ↦ (ok, segments)
    | some status ↦
        if status_eq status expected then update seq status next segments else (ok, segments)
  ]

  unfoldable pub update_segment_status_to_pre_write : ℕ → Segments → Result E × Segments
  unfolding advance
  update_segment_status_to_pre_write = advance SegmentStatus.idle SegmentStatus.pre_write

  -- This one warns about another status than PreWrite and goes on.
  unfoldable pub update_segment_status_to_write : ℕ → Segments → Result E × Segments
  unfolding update
  update_segment_status_to_write seq segments = elim (get_segment seq segments) [
    | none ↦ (ok, segments)
    | some status ↦ update seq status SegmentStatus.write segments
  ]

  unfoldable pub update_segment_status_to_pre_seal_up : ℕ → Segments → Result E × Segments
  unfolding advance
  update_segment_status_to_pre_seal_up = advance SegmentStatus.write SegmentStatus.pre_seal_up

  unfoldable pub update_segment_status_to_seal_up : ℕ → Segments → Result E × Segments
  unfolding advance
  update_segment_status_to_seal_up = advance SegmentStatus.pre_seal_up SegmentStatus.seal_up

  -- `first(...).await?; second(...).await`.
  abbrev pub and_then : Result E × Segments → (Segments → Result E × Segments) → Result E × Segments
  and_then (ok, segments) second = second segments
  and_then (err e, segments) second = (err e, segments)

  unfoldable pub pre_sealup_segment : ℕ → Segments → Result E × Segments
  unfolding update_segment_status_to_pre_seal_up update_segment_status_to_pre_write
  pre_sealup_segment seq segments =
      and_then (update_segment_status_to_pre_seal_up seq segments)
        (update_segment_status_to_pre_write (next_seq seq))

  unfoldable pub sealup_segment : ℕ → Segments → Result E × Segments
  unfolding update_segment_status_to_seal_up update_segment_status_to_write
  sealup_segment seq segments =
      and_then (update_segment_status_to_seal_up seq segments)
        (update_segment_status_to_write (next_seq seq))
