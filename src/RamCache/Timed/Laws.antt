-- ===== src/RamCache/Timed/Laws.antt =====
-- What the caches with an expiry give back, and how large they grow.
use folder_buddies.Wire.{WireAttr}
use folder_buddies.Base.Bytes.{Bytes}
use folder_buddies.Base.{
  not-leb→lt, ◌/◌, not-ltb→le, ◌-◌, leb, ltb, if◌then◌else◌, Option-cases, Bool-cases, ◌≡◌, arith,
  ◌≤◌, List, length, ℕ, refl, [], ◌∷◌, none, some, inl, inr,
}
use folder_buddies.Base.Map.{
  find-erase_self, find-insert_self, length-erase, length-insert, find, Map, bytes_key,
}
use folder_buddies.RamCache.Timed.{
  dir_ttl, neg_ttl, dir_erase, meta_ttl, dir_max, neg_max, dir_store, dir_lookup, meta_max,
  neg_store, Entry, meta_erase, Caches, trim, lookup, store, meta_store, meta_lookup, neg_lookup,
}

length-trim {ℓ} : {A : Type ℓ} (m : List A) (target : ℕ) → length (trim m target) ≤ target
unfolding trim
length-trim [] target = omega arith
length-trim (x ∷ m) target = elim (Bool-cases (ltb target (length (x ∷ m)))) [
  | inl over ↦ rw over (length-trim m target)
  | inr within ↦ rw within (not-ltb→le target (length (x ∷ m)) within)
]

module _ {V : Type 0} (m : Map Bytes (Entry V)) where
  length-store :
      (bound now : ℕ) (path : Bytes) (v : V)
      → 2 ≤ bound
      → length m ≤ bound
      → length (store bound now path v m) ≤ bound
  unfolding store
  length-store bound now path v two small = elim (Bool-cases (leb bound (length m))) [
    | inl full ↦ rw full (
        omega (
          arith,
          length-insert path (record { value = v; at = now }) (trim m (bound / 2)),
          length-trim m (bound / 2),
        ))
    | inr room ↦ rw room (
        omega (
          arith,
          length-insert path (record { value = v; at = now }) m,
          not-leb→lt bound (length m) room,
        ))
  ]

  -- What is stored is found until it expires, and at no later time.
  lookup-store :
      (ttl bound now later : ℕ) (path : Bytes) (v : V)
      → (lookup ttl later path (store bound now path v m)).0
        ≡ (if ltb ttl (later - now) then none else some v)
  unfolding lookup store
  lookup-store ttl bound now later path v =
      let e : Entry V = record { value = v; at = now } in
      rw (find-insert_self path e _, lookup) (ground arith)

-- Bounds of the three caches.
pub record Bounded (c : Caches) : Type 0 where
  pub meta : length c.meta ≤ meta_max
  pub neg : length c.neg ≤ neg_max
  pub dir : length c.dir ≤ dir_max

length-lookup :
    {V : Type 0} (ttl now : ℕ) (path : Bytes) (m : Map Bytes (Entry V))
    → length (lookup ttl now path m).1 ≤ length m
unfolding lookup
length-lookup ttl now path m = elim (Option-cases (find path m)) [
  | inl absent ↦ rw (absent, lookup) (omega arith)
  | inr (e, present) ↦ elim (Bool-cases (ltb ttl (now - e.at))) [
    | inl old ↦ rw (present, old, lookup) (length-erase path m)
    | inr young ↦ rw (present, young, lookup) (omega arith)
  ]
]

-- Every operation on the caches keeps each of them within its number of entries.
pub Caches-Bounded :
    (now : ℕ) (path : Bytes) (a : WireAttr) (resp : Bytes) (c : Caches)
    → Bounded c
    → Bounded (meta_lookup now path c).1
      × Bounded (meta_store now path a c)
      × Bounded (meta_erase path c)
      × Bounded (neg_lookup now path c).1
      × Bounded (neg_store now path c)
      × Bounded (dir_lookup now path c).1
      × Bounded (dir_store now path resp c)
      × Bounded (dir_erase path c)
unfolding meta_lookup meta_store meta_erase neg_lookup neg_store dir_lookup dir_store dir_erase
Caches-Bounded now path a resp c b = (
  record {
    meta = omega (arith, b.meta, length-lookup meta_ttl now path c.meta);
    neg = b.neg;
    dir = b.dir;
  },
  record {
    meta = length-store c.meta meta_max now path a (omega arith) b.meta;
    neg = omega (arith, b.neg, length-erase path c.neg);
    dir = b.dir;
  },
  record {
    meta = omega (arith, b.meta, length-erase path c.meta);
    neg = omega (arith, b.neg, length-erase path c.neg);
    dir = b.dir;
  },
  record {
    meta = b.meta;
    neg = omega (arith, b.neg, length-lookup neg_ttl now path c.neg);
    dir = b.dir;
  },
  record {
    meta = b.meta;
    neg = length-store c.neg neg_max now path tt (omega arith) b.neg;
    dir = b.dir;
  },
  record {
    meta = b.meta;
    neg = b.neg;
    dir = omega (arith, b.dir, length-lookup dir_ttl now path c.dir);
  },
  record {
    meta = b.meta;
    neg = b.neg;
    dir = length-store c.dir dir_max now path resp (omega arith) b.dir;
  },
  record { meta = b.meta; neg = b.neg; dir = omega (arith, b.dir, length-erase path c.dir) },
)

-- Attributes that are stored are found for two seconds and not after that, and the file does not
-- count as missing any more.
pub meta_lookup-meta_store :
    (now later : ℕ) (path : Bytes) (a : WireAttr) (c : Caches)
    → ((meta_lookup later path (meta_store now path a c)).0
        ≡ (if ltb meta_ttl (later - now) then none else some a))
      × ((neg_lookup later path (meta_store now path a c)).0 ≡ none)
unfolding meta_lookup meta_store neg_lookup lookup
meta_lookup-meta_store now later path a c = (
  lookup-store c.meta meta_ttl meta_max now later path a,
  rw (find-erase_self path c.neg, neg_lookup, lookup) refl,
)
