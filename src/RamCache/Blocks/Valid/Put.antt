-- ===== src/RamCache/Blocks/Valid/Put.antt =====
-- Storing and reading a block keep the invariant.
use folder_buddies.RamCache.Blocks.Slots.{
  Once-erase_slot, same_slot_self, contains-erase_slot, contains-touch, Once-push, contains-push,
  contains,
}
use folder_buddies.Base.Totals.{total-insert, Every-insert, Distinct-insert, total, Distinct}
use folder_buddies.Base.Bytes.{bytes_eq_iff, bytes_eq, Bytes}
use folder_buddies.Base.{
  is_some, ap, ◌||◌, true, sym, ◌≤◌, ◌∙◌, arith, ◌+◌, if◌then◌else◌, false, Bool-cases, ◌≡◌,
  Option-cases, ℕ, refl, none, some, inl, inr,
}
use folder_buddies.Base.Map.{find-insert, insert, find, Map, nat_key, bytes_key}
use folder_buddies.RamCache.Blocks.{
  erase_slot, same_slot, is_stale, blocks_of, Slot, FileBlocks, BlockCache, Block, add_block,
  put_fresh, block_put, block_get, drop_stale,
}
use folder_buddies.RamCache.Blocks.Valid.{NoRepeats, block_size, block_at, file_size, Valid}
use folder_buddies.RamCache.Blocks.Valid.Purge.{purge_file-Valid}
use folder_buddies.RamCache.Blocks.Valid.Evict.{no_blocks, evict_to_budget-budget}

pub drop_stale-Valid :
    (path : Bytes) (size mtime : ℕ) (c : BlockCache)
    → Valid c
    → Valid (drop_stale path size mtime c)
      × ((drop_stale path size mtime c).cur_bytes ≤ c.cur_bytes)
unfolding drop_stale
drop_stale-Valid path size mtime c v = elim (Option-cases (find path c.files)) [
  | inl absent ↦ rw (absent, drop_stale) (v, omega arith)
  | inr (f, present) ↦ elim (Bool-cases (is_stale f size mtime)) [
    | inl stale ↦
        let (kept, gone, less) = purge_file-Valid path c v in
        rw (present, stale, drop_stale) (kept, less)
    | inr same ↦ rw (present, same, drop_stale) (v, omega arith)
  ]
]

-- Setting the blocks of a file.
module _ (path : Bytes) (c : BlockCache) (g : FileBlocks) where
  set-block_at :
      (k : Slot)
      → block_at (insert path g c.files) k
        ≡ (if bytes_eq path k.0 then find k.1 g.blocks else block_at c.files k)
  set-block_at k = rw (find-insert path k.0 g c.files) (ground arith)

  set-total :
      Distinct c.files
      → total file_size (insert path g c.files) + total block_size (blocks_of (find path c.files))
        ≡ total file_size c.files + file_size g
  set-total names = elim (Option-cases (find path c.files)) [
    | inl absent ↦
        rw absent
          (omega (arith, rw absent at (total-insert file_size path g c.files names), no_blocks))
    | inr (f, present) ↦
        rw present (omega (arith, rw present at (total-insert file_size path g c.files names)))
  ]

blocks_of-Distinct :
    (path : Bytes) (c : BlockCache) → Valid c → Distinct (blocks_of (find path c.files))
blocks_of-Distinct path c v = elim (Option-cases (find path c.files)) [
  | inl absent ↦ rw absent tt
  | inr (f, present) ↦ rw present (v.indices path f present)
]

module _ (path : Bytes) (size mtime idx : ℕ) (b : Block) (c : BlockCache) (v : Valid c) where
  abbrev before : Map ℕ Block
  before = blocks_of (find path c.files)

  abbrev after : FileBlocks
  after = record { size = size; mtime = mtime; blocks = insert idx b before }

  pub fresh_slot : find idx before ≡ none → contains (path, idx) c.lru ≡ false
  fresh_slot fresh = rw (v.listed (path, idx), fresh) refl

  pub own_blocks : (a : Slot) → bytes_eq path a.0 ≡ true → blocks_of (find a.0 c.files) ≡ before
  own_blocks a own =
      ap (λ (t : Bytes). blocks_of (find t c.files)) (sym ((bytes_eq_iff path a.0).0 own))

  added-listed :
      (a : Slot)
      → (contains a c.lru || same_slot (path, idx) a)
        ≡ is_some (block_at (insert path after c.files) a)
  unfolding same_slot
  added-listed a = elim (Bool-cases (bytes_eq path a.0)) [
    | inl own ↦
        rw
          (
            v.listed a,
            set-block_at path c after a,
            own,
            own_blocks a own,
            find-insert idx a.1 b before,
          )
          (ground arith)
    | inr other ↦ rw (v.listed a, set-block_at path c after a, other) (ground arith)
  ]

  pub add_block-Valid : find idx before ≡ none → Valid (add_block path size mtime idx b c)
  unfolding add_block
  add_block-Valid fresh = record {
    names = Distinct-insert path after c.files v.names;
    indices =
        Every-insert NoRepeats path after c.files
          (Distinct-insert idx b before (blocks_of-Distinct path c v)) v.indices;
    counted = omega (
      arith,
      v.counted,
      set-total path c after v.names,
      rw fresh at (total-insert block_size idx b before (blocks_of-Distinct path c v)),
    );
    listed = λ a. contains-push a (path, idx) c.lru ∙ added-listed a;
    once = Once-push (path, idx) c.lru (fresh_slot fresh) v.once;
  }

  unchanged :
      (a : Slot)
      → block_at (insert path (record { size = size; mtime = mtime; blocks = before }) c.files) a
        ≡ block_at c.files a
  unchanged a = elim (Bool-cases (bytes_eq path a.0)) [
    | inl own ↦ rw (set-block_at path c _ a, own, own_blocks a own) refl
    | inr other ↦ rw (set-block_at path c _ a, other) refl
  ]

  -- A block that is there already: the cache is what it was.
  present-Valid :
      (other : Block)
      → find idx before ≡ some other
      → Valid (record c {
        files = insert path (record { size = size; mtime = mtime; blocks = before }) c.files;
      })
  present-Valid other held = record {
    names = Distinct-insert path _ c.files v.names;
    indices = Every-insert NoRepeats path _ c.files (blocks_of-Distinct path c v) v.indices;
    counted = omega (
      arith,
      v.counted,
      set-total path c (record { size = size; mtime = mtime; blocks = before }) v.names,
    );
    listed = λ a. v.listed a ∙ sym (ap is_some (unchanged a));
    once = v.once;
  }

-- Storing a block keeps the invariant, and the cache stays within the budget if it was within it.
pub put_fresh-Valid :
    (path : Bytes) (size mtime idx : ℕ) (b : Block) (budget : ℕ) (c : BlockCache)
    → Valid c
    → c.cur_bytes ≤ budget
    → Valid (put_fresh path size mtime idx b budget c)
      × ((put_fresh path size mtime idx b budget c).cur_bytes ≤ budget)
unfolding put_fresh
put_fresh-Valid path size mtime idx b budget c v within =
    elim (Option-cases (find idx (blocks_of (find path c.files)))) [
      | inl fresh ↦
          rw (fresh, put_fresh)
            (evict_to_budget-budget budget (add_block path size mtime idx b c)
              (add_block-Valid path size mtime idx b c v fresh))
      | inr (other, held) ↦
          rw (held, put_fresh) (present-Valid path size mtime idx b c v other held, within)
    ]

-- Storing a block keeps the invariant of the cache, and a cache within its budget stays within it.
pub block_put-Valid :
    (path : Bytes) (size mtime idx : ℕ) (b : Block) (budget : ℕ) (c : BlockCache)
    → Valid c
    → c.cur_bytes ≤ budget
    → Valid (block_put path size mtime idx b budget c)
      × ((block_put path size mtime idx b budget c).cur_bytes ≤ budget)
unfolding block_put
block_put-Valid path size mtime idx b budget c v within =
    let (kept, less) = drop_stale-Valid path size mtime c v in
    put_fresh-Valid path size mtime idx b budget (drop_stale path size mtime c) kept (omega arith)

-- The invariant alone is kept whatever the budget is.
pub block_put-kept :
    (path : Bytes) (size mtime idx : ℕ) (b : Block) (budget : ℕ) (c : BlockCache)
    → Valid c
    → Valid (block_put path size mtime idx b budget c)
unfolding block_put put_fresh
block_put-kept path size mtime idx b budget c v =
    let d : BlockCache = drop_stale path size mtime c in
    let kept : Valid d = (drop_stale-Valid path size mtime c v).0 in
    elim (Option-cases (find idx (blocks_of (find path d.files)))) [
      | inl fresh ↦
          rw (fresh, put_fresh)
            (evict_to_budget-budget budget (add_block path size mtime idx b d)
              (add_block-Valid path size mtime idx b d kept fresh)).0
      | inr (other, held) ↦
          rw (held, put_fresh) (present-Valid path size mtime idx b d kept other held)
    ]

-- Reading a block keeps the invariant, whether it hits, misses or drops a stale file.
pub block_get-Valid :
    (path : Bytes) (size mtime idx : ℕ) (c : BlockCache)
    → Valid c
    → Valid (block_get path size mtime idx c).1
unfolding block_get
block_get-Valid path size mtime idx c v = elim (Option-cases (find path c.files)) [
  | inl absent ↦ rw (absent, block_get) v
  | inr (f, present) ↦ elim (Bool-cases (is_stale f size mtime)) [
    | inl stale ↦ rw (present, stale, block_get) (purge_file-Valid path c v).0
    | inr same ↦ elim (Option-cases (find idx f.blocks)) [
      | inl missing ↦ rw (present, same, missing, block_get) v
      | inr (b, held) ↦
          rw (present, same, held, block_get)
            (record {
              names = v.names;
              indices = v.indices;
              counted = v.counted;
              listed = λ a.
                  contains-touch (path, idx) a c.lru (rw (v.listed (path, idx), present, held) refl)
                  ∙ v.listed a;
              once =
                  Once-push (path, idx) (erase_slot (path, idx) c.lru)
                    (rw
                      (
                        contains-erase_slot (path, idx) (path, idx) c.lru,
                        same_slot_self (path, idx),
                      )
                      refl)
                    (Once-erase_slot (path, idx) c.lru v.once);
            })
    ]
  ]
]
