-- ===== src/RamCache/Blocks/Slots.antt =====
-- The order of use as a list without repetitions.
use folder_buddies.Base.Bytes.{bytes_eq_iff, Bytes}
use mathlib.Core.Path.{ap₂}
use folder_buddies.Base.{
  ◌∙◌, sym, ap, ==_iff, inr, inl, ◌↔◌, arith, Bool-cases, ◌||◌, ◌&&◌, ◌++◌, true, false, Bool, not,
  ◌∷◌, List, ◌≡◌, ℕ, refl, [],
}
use folder_buddies.RamCache.Blocks.{Slot, same_slot, erase_slot}

abbrev pub contains : Slot → List Slot → Bool
contains k [] = false
contains k (x ∷ xs) = same_slot x k || contains k xs

-- No slot stands twice.
abbrev pub Once : List Slot → Type 0
Once [] = Unit {0}
Once (x ∷ xs) = (contains x xs ≡ false) × Once xs

pub same_slot_iff : (a b : Slot) → (same_slot a b ≡ true) ↔ (a ≡ b)
unfolding same_slot
same_slot_iff (p, i) (q, j) = (
  λ h.
      ap₂ (λ (x : Bytes) (y : ℕ). (x, y)) ((bytes_eq_iff p q).0 (ground (arith, h)))
        ((==_iff i j).0 (ground (arith, h))),
  λ e.
      rw
        ((bytes_eq_iff p q).1 (ap (λ (t : Slot). t.0) e), (==_iff i j).1 (ap (λ (t : Slot). t.1) e))
        refl,
)

pub same_slot_self : (k : Slot) → same_slot k k ≡ true
same_slot_self k = (same_slot_iff k k).1 refl

pub same_slot_comm : (a b : Slot) → same_slot a b ≡ same_slot b a
same_slot_comm a b = ground (arith, forth a b, forth b a)
  where
    forth : (a b : Slot) → same_slot a b ≡ true → same_slot b a ≡ true
    forth a b h = (same_slot_iff b a).1 (sym ((same_slot_iff a b).0 h))

-- A slot that is no other slot's is not the slot that equals the other.
pub apart : (x k a : Slot) → same_slot x k ≡ false → same_slot k a ≡ true → same_slot x a ≡ false
apart x k a miss hit = rw (← (same_slot_iff k a).0 hit) miss

pub contains-erase_slot :
    (k a : Slot) (xs : List Slot)
    → contains a (erase_slot k xs) ≡ (not (same_slot k a) && contains a xs)
unfolding erase_slot
contains-erase_slot k a [] = ground arith
contains-erase_slot k a (x ∷ xs) = elim (Bool-cases (same_slot x k)) [
  | inl hit ↦ rw (hit, (same_slot_iff x k).0 hit, contains-erase_slot k a xs) (ground arith)
  | inr miss ↦ rw (miss, contains-erase_slot k a xs) (ground (arith, apart x k a miss))
]

pub contains-push :
    (a k : Slot) (xs : List Slot) → contains a (xs ++ (k ∷ [])) ≡ (contains a xs || same_slot k a)
contains-push a k [] = ground arith
contains-push a k (x ∷ xs) = ground (arith, contains-push a k xs)

pub Once-push :
    (k : Slot) (xs : List Slot) → contains k xs ≡ false → Once xs → Once (xs ++ (k ∷ []))
Once-push k [] h o = (refl, tt)
Once-push k (x ∷ xs) h o = (
  rw (contains-push x k xs, o.0) (same_slot_comm k x ∙ ground (arith, h)),
  Once-push k xs (ground (arith, h)) o.1,
)

pub Once-erase_slot : (k : Slot) (xs : List Slot) → Once xs → Once (erase_slot k xs)
unfolding erase_slot
Once-erase_slot k [] o = tt
Once-erase_slot k (x ∷ xs) o = elim (Bool-cases (same_slot x k)) [
  | inl hit ↦ rw hit (Once-erase_slot k xs o.1)
  | inr miss ↦
      rw miss (rw (contains-erase_slot k x xs, o.0) (ground arith), Once-erase_slot k xs o.1)
]

-- Moving a slot to the end keeps the set.
pub contains-touch :
    (k a : Slot) (xs : List Slot)
    → contains k xs ≡ true
    → contains a (erase_slot k xs ++ (k ∷ [])) ≡ contains a xs
contains-touch k a xs h = elim (Bool-cases (same_slot k a)) [
  | inl own ↦
      rw (contains-push a k (erase_slot k xs), own, ← (same_slot_iff k a).0 own, h) (ground arith)
  | inr other ↦
      rw (contains-push a k (erase_slot k xs), contains-erase_slot k a xs, other) (ground arith)
]
