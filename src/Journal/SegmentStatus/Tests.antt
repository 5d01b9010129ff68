-- ===== src/Journal/SegmentStatus/Tests.antt =====
-- Runs of src/journal-server/src/core/segment_status.rs on two segments.
use robustmq.Prelude.{ℕ, ◌≡◌, refl, some, [], ◌∷◌}
use robustmq.Journal.SegmentStatus.{
  SegmentStatus, Segments, get_segment, UpdateSegmentStatusRequest, Result, ok, next_seq,
  pre_sealup_segment, sealup_segment,
}
use robustmq.Journal.SegmentStatus.Steps.{Moves, pre_sealup_segment-Moves, sealup_segment_lem}

abbrev accepted : UpdateSegmentStatusRequest → Result ℕ
accepted request = ok

abbrev open_segments : Segments
open_segments = (0, SegmentStatus.write) ∷ (1, SegmentStatus.idle) ∷ []

-- The next segment is sealed already.
abbrev sealed_segments : Segments
sealed_segments = (0, SegmentStatus.pre_seal_up) ∷ (1, SegmentStatus.seal_up) ∷ []

pre_sealup_segment-Moves_example :
    Moves
      (get_segment 1 open_segments)
      (get_segment 1 (pre_sealup_segment accepted 0 open_segments).1)
pre_sealup_segment-Moves_example = pre_sealup_segment-Moves accepted 0 1 open_segments

sealup_segment_lem_example :
    ((sealup_segment accepted 0 sealed_segments).0 ≡ ok)
    × (get_segment 0 (sealup_segment accepted 0 sealed_segments).1 ≡ some SegmentStatus.seal_up)
    × (get_segment (next_seq 0) (sealup_segment accepted 0 sealed_segments).1
        ≡ some SegmentStatus.write)
unfolding get_segment next_seq
sealup_segment_lem_example =
    sealup_segment_lem accepted 0 SegmentStatus.seal_up sealed_segments (λ request. refl) refl refl
