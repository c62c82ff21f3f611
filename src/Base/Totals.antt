-- ===== src/Base/Totals.antt =====
-- Association maps without repeated keys, and the total of a weight over their values.
use folder_buddies.Base.{inr, inl}
use Prim.Native.Nat.{ℕ, ◌+◌}
use mathlib.Core.Path.{subst, ◌≡◌, refl}
use mathlib.Core.Option.{Option, none, some}
use mathlib.Core.List.{[], ◌∷◌}
use native.Mathlib.Omega.{arith}
use folder_buddies.Base.Tests.{Bool-cases}
use folder_buddies.Base.Map.{find-insert, Key, Map, find, insert, erase, find-erase, same_refl}

abbrev pub weight_at {ℓ} : {V : Type ℓ} → (V → ℕ) → Option V → ℕ
weight_at weight none = 0
weight_at weight (some v) = weight v

module _ {ℓ} {K V : Type ℓ} ⦃k : Key K⦄ where
  -- No key stands twice.
  abbrev pub Distinct : Map K V → Type ℓ
  Distinct [] = Unit {ℓ}
  Distinct ((a, v) ∷ m) = (find a m ≡ none) × Distinct m

  pub erase_absent : (a : K) (m : Map K V) → find a m ≡ none → erase a m ≡ m
  unfolding find erase
  erase_absent a [] h = refl
  erase_absent a ((b, v) ∷ m) h = elim (Bool-cases (k.same b a)) [
    | inl hit ↦ cc (rw hit at h)
    | inr miss ↦ rw (miss, erase_absent a m (rw miss at h)) refl
  ]

  pub find-erase-none : (a b : K) (m : Map K V) → find b m ≡ none → find b (erase a m) ≡ none
  find-erase-none a b m h =
      rw (find-erase a b m)
        (elim (Bool-cases (k.same a b)) [ inl hit ↦ rw hit refl | inr miss ↦ rw miss h ])

  pub Distinct-erase : (a : K) (m : Map K V) → Distinct m → Distinct (erase a m)
  unfolding erase
  Distinct-erase a [] d = tt
  Distinct-erase a ((b, v) ∷ m) d = elim (Bool-cases (k.same b a)) [
    | inl hit ↦ rw hit (Distinct-erase a m d.1)
    | inr miss ↦ rw miss (find-erase-none a b m d.0, Distinct-erase a m d.1)
  ]

  pub Distinct-insert : (a : K) (v : V) (m : Map K V) → Distinct m → Distinct (insert a v m)
  unfolding insert
  Distinct-insert a v m d = (rw (find-erase a a m, same_refl a) refl, Distinct-erase a m d)

  module _ (weight : V → ℕ) where
    unfoldable pub total : Map K V → ℕ
    total [] = 0
    total ((a, v) ∷ m) = weight v + total m

    pub total-erase :
        (a : K) (m : Map K V)
        → Distinct m
        → total (erase a m) + weight_at weight (find a m) ≡ total m
    unfolding total erase find
    total-erase a [] d = omega arith
    total-erase a ((b, v) ∷ m) d = elim (Bool-cases (k.same b a)) [
      | inl hit ↦
          let same : b ≡ a = (k.same_iff b a).0 hit in
          rw (hit, erase_absent a m (rw same at d.0)) (omega arith)
      | inr miss ↦ rw miss (omega (arith, total-erase a m d.1))
    ]

    pub total-insert :
        (a : K) (v : V) (m : Map K V)
        → Distinct m
        → total (insert a v m) + weight_at weight (find a m) ≡ total m + weight v
    unfolding total insert
    total-insert a v m d = omega (arith, total-erase a m d)

  -- A predicate on every value that is found.
  abbrev pub Every {κ} : (V → Type κ) → Map K V → Type (ℓ ⊔ κ)
  Every P m = (a : K) (v : V) → find a m ≡ some v → P v

  pub Every-erase {κ} : (P : V → Type κ) (a : K) (m : Map K V) → Every P m → Every P (erase a m)
  Every-erase P a m every b v h = elim (Bool-cases (k.same a b)) [
    | inl hit ↦ cc (rw (find-erase a b m, hit) at h)
    | inr miss ↦ every b v (rw (find-erase a b m, miss) at h)
  ]

  pub Every-insert {κ} :
      (P : V → Type κ) (a : K) (v : V) (m : Map K V) → P v → Every P m → Every P (insert a v m)
  Every-insert P a v m own every b w h = elim (Bool-cases (k.same a b)) [
    | inl hit ↦ let same : v ≡ w = cc (rw (find-insert a b v m, hit) at h) in subst P same own
    | inr miss ↦ every b w (rw (find-insert a b v m, miss) at h)
  ]
