-- ===== src/RamCache/Timed.antt =====
-- The caches with an expiry in client/src/fs/ram_cache.cpp: attributes, missing files, directories.
pub mod Laws
use folder_buddies.Base.{
  ◌/◌, length, ◌-◌, ltb, leb, ◌∷◌, List, Option, if◌then◌else◌, ℕ, none, some, [],
}
use folder_buddies.Base.Bytes.{Bytes}
use folder_buddies.Base.Map.{Map, find, insert, erase, bytes_key}
use folder_buddies.Wire.{WireAttr}

-- Times to live in milliseconds, and the numbers of entries.
abbrev pub meta_ttl : ℕ
meta_ttl = 2000

abbrev pub dir_ttl : ℕ
dir_ttl = 5000

abbrev pub neg_ttl : ℕ
neg_ttl = 1000

abbrev pub meta_max : ℕ
meta_max = 8192

abbrev pub dir_max : ℕ
dir_max = 1024

abbrev pub neg_max : ℕ
neg_max = 4096

-- A value and when it was stored; for a missing file the value is empty.
pub record Entry {ℓ} (V : Type ℓ) : Type ℓ where
  pub value : V
  pub at : ℕ

-- `trim`: entries are erased from the front of the order of iteration, which the program leaves to
-- the library.
unfoldable pub trim {ℓ} : {A : Type ℓ} → List A → ℕ → List A
trim [] target = []
trim (x ∷ m) target =
    let rest = trim m target in if ltb target (length (x ∷ m)) then rest else x ∷ m

module _ {V : Type 0} where
  -- An entry that is too old is erased.
  unfoldable pub lookup : ℕ → ℕ → Bytes → Map Bytes (Entry V) → Option V × Map Bytes (Entry V)
  lookup ttl now path m = elim (find path m) [
    | none ↦ (none, m)
    | some e ↦ if ltb ttl (now - e.at) then (none, erase path m) else (some e.value, m)
  ]

  -- A full map is trimmed to half of its bound first.
  unfoldable pub store : ℕ → ℕ → Bytes → V → Map Bytes (Entry V) → Map Bytes (Entry V)
  store bound now path v m =
      insert path (record { value = v; at = now })
        (if leb bound (length m) then trim m (bound / 2) else m)

-- The state under `metaMtx` and `dirMtx`.
pub record Caches : Type 0 where
  pub meta : Map Bytes (Entry WireAttr)
  pub neg : Map Bytes (Entry (Unit {0}))
  pub dir : Map Bytes (Entry Bytes)

unfoldable pub meta_lookup : ℕ → Bytes → Caches → Option WireAttr × Caches
meta_lookup now path c =
    let (got, meta) = lookup meta_ttl now path c.meta in (got, record c { meta = meta })

unfoldable pub meta_store : ℕ → Bytes → WireAttr → Caches → Caches
meta_store now path a c = record c {
  meta = store meta_max now path a c.meta;
  neg = erase path c.neg;
}

unfoldable pub meta_erase : Bytes → Caches → Caches
meta_erase path c = record c { meta = erase path c.meta; neg = erase path c.neg }

unfoldable pub neg_lookup : ℕ → Bytes → Caches → Option (Unit {0}) × Caches
neg_lookup now path c =
    let (got, neg) = lookup neg_ttl now path c.neg in (got, record c { neg = neg })

unfoldable pub neg_store : ℕ → Bytes → Caches → Caches
neg_store now path c = record c { neg = store neg_max now path tt c.neg }

unfoldable pub dir_lookup : ℕ → Bytes → Caches → Option Bytes × Caches
dir_lookup now path c =
    let (got, dir) = lookup dir_ttl now path c.dir in (got, record c { dir = dir })

unfoldable pub dir_store : ℕ → Bytes → Bytes → Caches → Caches
dir_store now path resp c = record c { dir = store dir_max now path resp c.dir }

unfoldable pub dir_erase : Bytes → Caches → Caches
dir_erase path c = record c { dir = erase path c.dir }
