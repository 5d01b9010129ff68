-- ===== src/Broker/TopicFilter/Paths.antt =====
-- `split` and `join`, for src/mqtt-broker/src/subscribe/sub_common.rs.
use robustmq.Prelude.{
  ℕ, ◌≡◌, refl, sym, ap, ◌∙◌, subst, inl, inr, false, List, [], ◌∷◌, ◌++◌, arith,
}
use robustmq.Prelude.{Bool-cases, ==_iff, ◌==◌}
use robustmq.Mqtt.Bytes.{Text}
use robustmq.Broker.TopicFilter.{slash, contains_char, split, join, in_first}

pub split-cons : (s : Text) → (w : Text) × (ws : List Text) × (split s ≡ w ∷ ws)
unfolding split
split-cons [] = ([], [], refl)
split-cons (c ∷ cs) = elim (Bool-cases (c == slash)) [
  | inl e ↦ ([], split cs, rw e refl)
  | inr e ↦ let (w, ws, h) = split-cons cs in (c ∷ w, ws, rw (e, h) refl)
]

join-in_first : (c : ℕ) (w : Text) (ws : List Text) → join (in_first c (w ∷ ws)) ≡ c ∷ join (w ∷ ws)
unfolding join
join-in_first c w [] = refl
join-in_first c w (v ∷ vs) = refl

pub join-split : (s : Text) → join (split s) ≡ s
unfolding split join
join-split [] = refl
join-split (c ∷ cs) =
    let (w, ws, h) = split-cons cs in
    let joined : join (w ∷ ws) ≡ cs = subst (λ l. join l ≡ cs) h (join-split cs) in
    elim (Bool-cases (c == slash)) [
      | inl e ↦ rw (e, h) (ap (◌∷◌ slash) joined ∙ ap (λ d. d ∷ cs) (sym ((==_iff c slash).0 e)))
      | inr e ↦ rw (e, h) (join-in_first c w ws ∙ ap (◌∷◌ c) joined)
    ]

pub split-segment :
    (w r : Text) → contains_char slash w ≡ false → split (w ++ slash ∷ r) ≡ w ∷ split r
unfolding split contains_char
split-segment [] r h = refl
split-segment (c ∷ cs) r h =
    let e : (c == slash) ≡ false = ground (arith, h) in
    let i = split-segment cs r (ground (arith, h)) in rw (e, i) refl
