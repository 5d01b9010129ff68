-- ===== src/Journal/SegmentStatus/Steps.antt =====
-- The steps that src/journal-server/src/core/segment_status.rs takes.
use robustmq.Prelude.{
  ℕ, ◌≡◌, refl, sym, ap, ◌∙◌, ◌⊎◌, inl, inr, true, false, Option, some, [], ◌∷◌, arith,
}
use robustmq.Prelude.{◌==◌, Bool-cases, Option-cases}
use robustmq.Journal.SegmentStatus.{
  SegmentStatus, status_eq, Segments, get_segment, update_segment_status,
  UpdateSegmentStatusRequest, Result, ok, err, update, advance, and_then,
  update_segment_status_to_pre_write, update_segment_status_to_write,
  update_segment_status_to_pre_seal_up, update_segment_status_to_seal_up, next_seq,
  pre_sealup_segment, sealup_segment,
}

-- The life of a segment, one status after the other.
pub data Step : SegmentStatus → SegmentStatus → Type 0 where
  prepare : Step SegmentStatus.idle SegmentStatus.pre_write
  close : Step SegmentStatus.write SegmentStatus.pre_seal_up
  seal : Step SegmentStatus.pre_seal_up SegmentStatus.seal_up

status_eq_sound : (a b : SegmentStatus) → status_eq a b ≡ true → a ≡ b
unfolding status_eq
status_eq_sound a b h = ground (arith, h)

get_segment-update_segment_status :
    (seq : ℕ) (next status : SegmentStatus) (segments : Segments)
    → get_segment seq segments ≡ some status
    → get_segment seq (update_segment_status seq next segments) ≡ some next
unfolding get_segment update_segment_status
get_segment-update_segment_status seq next status [] h = cc
get_segment-update_segment_status seq next status ((n, s) ∷ segments) h =
    elim (Bool-cases (seq == n)) [
      | inl e ↦ ground (arith, e)
      | inr e ↦ ground (arith, e, h, get_segment-update_segment_status seq next status segments)
    ]

get_segment-update_segment_status_other :
    (k seq : ℕ) (next : SegmentStatus) (segments : Segments)
    → (k == seq) ≡ false
    → get_segment k (update_segment_status seq next segments) ≡ get_segment k segments
unfolding get_segment update_segment_status
get_segment-update_segment_status_other k seq next [] h = refl
get_segment-update_segment_status_other k seq next ((n, s) ∷ segments) h =
    ground (arith, h, get_segment-update_segment_status_other k seq next segments h)

-- A segment keeps its status, or takes a step.
abbrev pub Moves : Option SegmentStatus → Option SegmentStatus → Type 0
Moves before after =
    (after ≡ before) ⊎ ((a b : SegmentStatus) × (before ≡ some a) × (after ≡ some b) × Step a b)

module _ {E : Type 0} (call : UpdateSegmentStatusRequest → Result E) where
  advance-Moves :
      (expected next : SegmentStatus) (seq k : ℕ) (segments : Segments)
      → Step expected next
      → Moves (get_segment k segments) (get_segment k (advance call expected next seq segments).1)
  unfolding advance update
  advance-Moves expected next seq k segments step = elim (Option-cases (get_segment seq segments)) [
    | inl e ↦ inl (ground (arith, e))
    | inr (status, e) ↦ elim (Bool-cases (status_eq status expected)) [
      | inr f ↦ inl (ground (arith, e, f))
      | inl f ↦ elim (Bool-cases (k == seq)) [
        | inr d ↦
            inl
              (ground (arith, e, f, get_segment-update_segment_status_other k seq next segments d))
        | inl d ↦ inr (
          expected,
          next,
          ground (arith, d, e, status_eq_sound status expected f),
          ground (arith, d, e, f, get_segment-update_segment_status seq next status segments),
          step,
        )
      ]
    ]
  ]

  advance_other :
      (expected next : SegmentStatus) (seq k : ℕ) (segments : Segments)
      → (k == seq) ≡ false
      → get_segment k (advance call expected next seq segments).1 ≡ get_segment k segments
  unfolding advance update
  advance_other expected next seq k segments h =
      ground (arith, h, get_segment-update_segment_status_other k seq next segments h)

  and_then-Moves :
      (k : ℕ) (before : Option SegmentStatus) (r : Result E × Segments)
      (second : Segments → Result E × Segments)
      → Moves before (get_segment k r.1)
      → Moves before (get_segment k (second r.1).1)
      → Moves before (get_segment k (and_then call r second).1)
  and_then-Moves k before (ok, segments) second h h' = h'
  and_then-Moves k before (err e, segments) second h h' = h

  -- Whatever the placement center answers, `pre_sealup_segment` leaves every segment in its
  -- status or takes it one step on.
  pub pre_sealup_segment-Moves :
      (seq k : ℕ) (segments : Segments)
      → Moves (get_segment k segments) (get_segment k (pre_sealup_segment call seq segments).1)
  unfolding pre_sealup_segment next_seq update_segment_status_to_pre_seal_up
      update_segment_status_to_pre_write
  pre_sealup_segment-Moves seq k segments =
      let first = advance call SegmentStatus.write SegmentStatus.pre_seal_up seq segments in
      let moved =
        advance-Moves SegmentStatus.write SegmentStatus.pre_seal_up seq k segments Step.close in
      and_then-Moves k (get_segment k segments) first
        (advance call SegmentStatus.idle SegmentStatus.pre_write (next_seq seq)) moved
        (elim (Bool-cases (k == seq)) [
          | inl e ↦
              rw
                (advance_other SegmentStatus.idle SegmentStatus.pre_write (next_seq seq) k first.1
                  (ground (arith, e)))
                moved
          | inr e ↦
              rw
                (sym (advance_other SegmentStatus.write SegmentStatus.pre_seal_up seq k segments e))
                (advance-Moves SegmentStatus.idle SegmentStatus.pre_write (next_seq seq) k first.1
                  Step.prepare)
        ])

  -- When the placement center accepts the requests, `sealup_segment` on a segment in PreSealUp
  -- seals it and puts the next one in Write, whichever status that has: also one that is sealed.
  pub sealup_segment_lem :
      (seq : ℕ) (status : SegmentStatus) (segments : Segments)
      → ((request : UpdateSegmentStatusRequest) → call request ≡ ok)
      → get_segment seq segments ≡ some SegmentStatus.pre_seal_up
      → get_segment (next_seq seq) segments ≡ some status
      → ((sealup_segment call seq segments).0 ≡ ok)
        × (get_segment seq (sealup_segment call seq segments).1 ≡ some SegmentStatus.seal_up)
        × (get_segment (next_seq seq) (sealup_segment call seq segments).1
            ≡ some SegmentStatus.write)
  unfolding sealup_segment next_seq update_segment_status_to_seal_up update_segment_status_to_write
      advance update status_eq
  sealup_segment_lem seq status segments accepts h k =
      let sealed = update_segment_status seq SegmentStatus.seal_up segments in
      let a = accepts (record {
        segment_seq = seq;
        cur_status = SegmentStatus.pre_seal_up;
        next_status = SegmentStatus.seal_up;
      }) in
      let b = accepts (record {
        segment_seq = next_seq seq;
        cur_status = status;
        next_status = SegmentStatus.write;
      }) in
      let next =
        get_segment-update_segment_status_other (next_seq seq) seq SegmentStatus.seal_up segments
          (ground arith)
        ∙ k in
      let done : sealup_segment call seq segments
          ≡ (ok, update_segment_status (next_seq seq) SegmentStatus.write sealed) =
        ground (arith, h, a, next, b) in
      (
        ap (λ r. r.0) done,
        ap (λ r. get_segment seq r.1) done
            ∙ (get_segment-update_segment_status_other seq (next_seq seq) SegmentStatus.write sealed
                  (ground arith)
                ∙ get_segment-update_segment_status seq SegmentStatus.seal_up
                    SegmentStatus.pre_seal_up segments h),
        ap (λ r. get_segment (next_seq seq) r.1) done
            ∙ get_segment-update_segment_status (next_seq seq) SegmentStatus.write status sealed
                next,
      )
