-- ===== src/Maps.antt =====
-- `DashMap` with texts as keys, as an association list: `insert` replaces the entry of a key, and
-- `get` on a missing key is none.
use robustmq.Prelude.{
  ◌≡◌, refl, sym, ap, ◌∙◌, inl, inr, true, false, Option, none, some, List, [], ◌∷◌, arith,
}
use robustmq.Prelude.{if◌then◌else◌, Bool-cases}
use robustmq.Mqtt.Bytes.{Text, bytes_eq}

abbrev pub DashMap : Type 0 → Type 0
DashMap V = List (Text × V)

pub bytes_eq_refl : (s : Text) → bytes_eq s s ≡ true
unfolding bytes_eq
bytes_eq_refl [] = refl
bytes_eq_refl (b ∷ bs) = ground (arith, bytes_eq_refl bs)

pub bytes_eq_sound : (s t : Text) → bytes_eq s t ≡ true → s ≡ t
unfolding bytes_eq
bytes_eq_sound [] [] h = refl
bytes_eq_sound [] (c ∷ cs) h = cc
bytes_eq_sound (b ∷ bs) [] h = cc
bytes_eq_sound (b ∷ bs) (c ∷ cs) h = ground (arith, bytes_eq_sound bs cs)

module _ {V : Type 0} where
  unfoldable pub get : Text → DashMap V → Option V
  get k [] = none
  get k ((l, v) ∷ m) = if bytes_eq k l then some v else get k m

  unfoldable pub remove : Text → DashMap V → DashMap V
  remove k [] = []
  remove k ((l, v) ∷ m) = let rest = remove k m in if bytes_eq k l then rest else (l, v) ∷ rest

  unfoldable pub insert : Text → V → DashMap V → DashMap V
  unfolding remove
  insert k v m = (k, v) ∷ remove k m

  pub get-remove : (k : Text) (m : DashMap V) → get k (remove k m) ≡ none
  unfolding get remove
  get-remove k [] = refl
  get-remove k ((l, v) ∷ m) = elim (Bool-cases (bytes_eq k l)) [
    | inl e ↦ rw e (get-remove k m)
    | inr e ↦ rw (e, e) (get-remove k m)
  ]

  pub get-remove_other :
      (k l : Text) (m : DashMap V) → bytes_eq k l ≡ false → get k (remove l m) ≡ get k m
  unfolding get remove
  get-remove_other k l [] h = refl
  get-remove_other k l ((j, v) ∷ m) h = elim (Bool-cases (bytes_eq l j)) [
    | inl e ↦ rw (e, ap (bytes_eq k) (sym (bytes_eq_sound l j e)) ∙ h) (get-remove_other k l m h)
    | inr e ↦ rw e (ap (λ r. if bytes_eq k j then some v else r) (get-remove_other k l m h))
  ]

  pub get-insert : (k : Text) (v : V) (m : DashMap V) → get k (insert k v m) ≡ some v
  unfolding get insert
  get-insert k v m = rw (bytes_eq_refl k) refl

  pub get-insert_other :
      (k l : Text) (v : V) (m : DashMap V) → bytes_eq k l ≡ false → get k (insert l v m) ≡ get k m
  unfolding get insert
  get-insert_other k l v m h = rw h (get-remove_other k l m h)
