-- ===== src/RamCache/Blocks/Valid/Purge.antt =====
-- Dropping a file keeps the invariant.
use folder_buddies.Base.Map.{find_empty, find-erase, nat_key, bytes_key}
use folder_buddies.RamCache.Blocks.Slots.{Once-erase_slot, contains-erase_slot, Once, contains}
use folder_buddies.Base.Bytes.{bytes_eq_iff, bytes_eq, Bytes}
use folder_buddies.Base.Totals.{Every-erase, Distinct-erase, total-erase, erase_absent, total}
use folder_buddies.Base.Map.{erase, Map, find}
use folder_buddies.Base.{
  is_some, ◌≤◌, Bool-cases, length, ◌-◌, arith, inr, not, ◌&&◌, inl, Option-cases, Bool, List, ◌≡◌,
  ℕ, refl, [], ◌∷◌, some,
}
use folder_buddies.RamCache.Blocks.{
  FileBlocks, erase_slot, Slot, Block, same_slot, BlockCache, purge_blocks, purge_file,
}
use folder_buddies.RamCache.Blocks.Valid.{block_at, block_size, NoRepeats, file_size, Valid}

-- A slot among the blocks of a path.
abbrev under : Bytes → Map ℕ Block → Slot → Bool
under path blocks k = bytes_eq path k.0 && is_some (find k.1 blocks)

purge_blocks-count :
    (path : Bytes) (blocks : Map ℕ Block) (cur : ℕ) (lru : List Slot)
    → (purge_blocks path blocks cur lru).0 ≡ cur - total block_size blocks
unfolding purge_blocks total
purge_blocks-count path [] cur lru = omega arith
purge_blocks-count path ((idx, b) ∷ blocks) cur lru =
    omega
      (arith, purge_blocks-count path blocks (cur - length b.bytes) (erase_slot (path, idx) lru))

purge_blocks-contains :
    (path : Bytes) (blocks : Map ℕ Block) (cur : ℕ) (lru : List Slot) (k : Slot)
    → contains k (purge_blocks path blocks cur lru).1
      ≡ (contains k lru && not (under path blocks k))
unfolding purge_blocks find same_slot
purge_blocks-contains path [] cur lru k = ground arith
purge_blocks-contains path ((idx, b) ∷ blocks) cur lru k =
    rw
      (
        purge_blocks-contains path blocks (cur - length b.bytes) (erase_slot (path, idx) lru) k,
        contains-erase_slot (path, idx) k lru,
      )
      (ground arith)

purge_blocks-Once :
    (path : Bytes) (blocks : Map ℕ Block) (cur : ℕ) (lru : List Slot)
    → Once lru
    → Once (purge_blocks path blocks cur lru).1
unfolding purge_blocks
purge_blocks-Once path [] cur lru o = o
purge_blocks-Once path ((idx, b) ∷ blocks) cur lru o =
    purge_blocks-Once path blocks (cur - length b.bytes) (erase_slot (path, idx) lru)
      (Once-erase_slot (path, idx) lru o)

purged-listed :
    (path : Bytes) (c : BlockCache) (f : FileBlocks)
    → Valid c
    → find path c.files ≡ some f
    → (k : Slot)
    → contains k (purge_blocks path f.blocks c.cur_bytes c.lru).1
      ≡ is_some (block_at (erase path c.files) k)
purged-listed path c f v present k = elim (Bool-cases (bytes_eq path k.0)) [
  | inl own ↦
      let here : find k.0 c.files ≡ some f = rw (← (bytes_eq_iff path k.0).0 own) present in
      rw
        (
          purge_blocks-contains path f.blocks c.cur_bytes c.lru k,
          v.listed k,
          here,
          find-erase path k.0 c.files,
          own,
        )
        (ground (arith, find_empty {V = Block} k.1))
  | inr other ↦
      rw
        (
          purge_blocks-contains path f.blocks c.cur_bytes c.lru k,
          v.listed k,
          find-erase path k.0 c.files,
          other,
        )
        (ground arith)
]

-- Dropping a file keeps the invariant, the file is gone, and the byte count does not grow.
pub purge_file-Valid :
    (path : Bytes) (c : BlockCache)
    → Valid c
    → Valid (purge_file path c)
      × ((purge_file path c).files ≡ erase path c.files)
      × ((purge_file path c).cur_bytes ≤ c.cur_bytes)
unfolding purge_file
purge_file-Valid path c v = elim (Option-cases (find path c.files)) [
  | inl absent ↦ rw (absent, purge_file, erase_absent path c.files absent) (v, refl, omega arith)
  | inr (f, present) ↦
      let sum = total-erase file_size path c.files v.names in
      rw (present, purge_file)
        (
          record {
            names = Distinct-erase path c.files v.names;
            indices = Every-erase NoRepeats path c.files v.indices;
            counted = omega (
              arith,
              purge_blocks-count path f.blocks c.cur_bytes c.lru,
              v.counted,
              rw present at sum,
            );
            listed = purged-listed path c f v present;
            once = purge_blocks-Once path f.blocks c.cur_bytes c.lru v.once;
          },
          refl,
          omega (arith, purge_blocks-count path f.blocks c.cur_bytes c.lru),
        )
]
