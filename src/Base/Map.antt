-- ===== src/Base/Map.antt =====
-- `std::unordered_map` as an association list, over keys with a Boolean equality. The program
-- iterates over such maps only to visit every entry.
use Prim.Native.Nat.{ℕ, ◌+◌, ◌≤◌}
use mathlib.Core.Path.{◌≡◌, refl}
use mathlib.Core.Logic.{◌↔◌}
use mathlib.Core.Bool.{Bool, true}
use mathlib.Core.Option.{Option, none, some}
use mathlib.Core.List.{List, [], ◌∷◌}
use native.Mathlib.Omega.{arith}
use folder_buddies.Base.Tests.{◌==◌ as nat_beq, ==_iff, if◌then◌else◌}
use folder_buddies.Base.Lists.{length}
use folder_buddies.Base.Bytes.{Bytes, bytes_eq, bytes_eq_iff}

pub record Key {ℓ} (K : Type ℓ) : Type ℓ where
  pub same : K → K → Bool
  pub same_iff : (a b : K) → (same a b ≡ true) ↔ (a ≡ b)

instance abbrev pub nat_key : Key ℕ
nat_key = record { same = nat_beq; same_iff = ==_iff }

instance abbrev pub bytes_key : Key Bytes
bytes_key = record { same = bytes_eq; same_iff = bytes_eq_iff }

abbrev pub Map {ℓ} : Type ℓ → Type ℓ → Type ℓ
Map K V = List (K × V)

pub same_refl {ℓ} : {K : Type ℓ} ⦃k : Key K⦄ (a : K) → k.same a a ≡ true
same_refl ⦃k⦄ a = (k.same_iff a a).1 refl

module _ {ℓ} {K V : Type ℓ} ⦃k : Key K⦄ where
  -- find(a)
  unfoldable pub find : K → Map K V → Option V
  find a [] = none
  find a ((b, v) ∷ m) = if k.same b a then some v else find a m

  -- erase(a)
  unfoldable pub erase : K → Map K V → Map K V
  erase a [] = []
  erase a ((b, v) ∷ m) = let rest = erase a m in if k.same b a then rest else (b, v) ∷ rest

  -- m[a] = v
  unfoldable pub insert : K → V → Map K V → Map K V
  insert a v m = (a, v) ∷ erase a m

  pub find_empty : (a : K) → find a [] ≡ none
  unfolding find
  find_empty a = refl

  pub find-erase :
      (a b : K) (m : Map K V) → find b (erase a m) ≡ (if k.same a b then none else find b m)
  unfolding find erase
  find-erase a b [] = ground arith
  find-erase a b ((c, v) ∷ m) =
      ground (arith, find-erase a b m, k.same_iff c a, k.same_iff c b, k.same_iff a b)

  pub find-insert :
      (a b : K) (v : V) (m : Map K V)
      → find b (insert a v m) ≡ (if k.same a b then some v else find b m)
  unfolding find insert
  find-insert a b v m = ground (arith, find-erase a b m)

  pub find-erase_self : (a : K) (m : Map K V) → find a (erase a m) ≡ none
  find-erase_self a m = rw (find-erase a a m, same_refl a)

  pub find-insert_self : (a : K) (v : V) (m : Map K V) → find a (insert a v m) ≡ some v
  find-insert_self a v m = rw (find-insert a a v m, same_refl a)

  pub length-erase : (a : K) (m : Map K V) → length (erase a m) ≤ length m
  unfolding erase
  length-erase a [] = omega arith
  length-erase a ((b, v) ∷ m) = ground (arith, length-erase a m)

  pub length-insert : (a : K) (v : V) (m : Map K V) → length (insert a v m) ≤ length m + 1
  unfolding insert
  length-insert a v m = omega (arith, length-erase a m)
