-- ===== src/RamCache/Blocks/Valid/Keep.antt =====
-- The block that was stored last is read back.
use folder_buddies.RamCache.Blocks.Valid.Purge.{purge_file-Valid}
use folder_buddies.RamCache.Blocks.Slots.{contains-push, same_slot_comm, contains}
use folder_buddies.Base.Bytes.{bytes_eq_iff, bytes_eq, Bytes}
use folder_buddies.Base.{
  ==_iff, ◌+◌, sym, ltb, arith, ◌-◌, ◌∙◌, ap, le→not-ltb, ◌≤◌, length, ◌++◌, ◌==◌, List, Bool-cases,
  Option-cases, false, ◌≡◌, ℕ, refl, [], ◌∷◌, none, some, inl, inr,
}
use folder_buddies.Base.Map.{
  find-erase_self, find-insert_self, insert, find-insert, find_empty, find-erase, erase, find, Map,
  nat_key, bytes_key,
}
use folder_buddies.RamCache.Blocks.{
  is_stale, blocks_of, evict_to_budget, BlockCache, same_slot, drop_block, FileBlocks, Block, Slot,
  add_block, put_fresh, block_put, block_get, drop_stale, evict_block, evict_loop,
}
use folder_buddies.RamCache.Blocks.Valid.{Valid}
use folder_buddies.RamCache.Blocks.Valid.Put.{add_block-Valid, drop_stale-Valid}
use folder_buddies.RamCache.Blocks.Valid.Evict.{nothing_held, empty_of_length, evict_block-Valid}

-- The files hold a block of a version of a file.
pub record Holds (files : Map Bytes FileBlocks) (k : Slot) (size mtime : ℕ) (b : Block)
    : Type 0 where
  pub file : FileBlocks
  pub found : find k.0 files ≡ some file
  pub same_size : file.size ≡ size
  pub same_mtime : file.mtime ≡ mtime
  pub held : find k.1 file.blocks ≡ some b

module _ (k : Slot) (size mtime : ℕ) (b : Block) where
  -- Dropping another block does not touch this one.
  drop_block-Holds :
      (path : Bytes) (idx : ℕ) (files : Map Bytes FileBlocks) (f : FileBlocks)
      → find path files ≡ some f
      → same_slot (path, idx) k ≡ false
      → Holds files k size mtime b
      → Holds (drop_block path f idx files) k size mtime b
  unfolding drop_block same_slot
  drop_block-Holds path idx files f present other h = elim (Bool-cases (bytes_eq path k.0)) [
    | inl own ↦
        let name : find path files ≡ some h.file = rw ((bytes_eq_iff path k.0).0 own) h.found in
        let file : f ≡ h.file = cc in
        let differs : (idx == k.1) ≡ false = rw own at other in
        let left : find k.1 (erase idx f.blocks) ≡ some b =
          rw (find-erase idx k.1 f.blocks, differs, file) h.held in
        elim (Bool-cases (length (erase idx f.blocks) == 0)) [
          | inl empty ↦
              cc (
                rw (empty_of_length (erase idx f.blocks) empty, find_empty {V = Block} k.1) at left)
          | inr full ↦ rw full (record {
            file = record f { blocks = erase idx f.blocks };
            found =
                rw (find-insert path k.0 (record f { blocks = erase idx f.blocks }) files, own)
                  refl;
            same_size = ap (λ (t : FileBlocks). t.size) file ∙ h.same_size;
            same_mtime = ap (λ (t : FileBlocks). t.mtime) file ∙ h.same_mtime;
            held = left;
          })
        ]
    | inr apart ↦ elim (Bool-cases (length (erase idx f.blocks) == 0)) [
      | inl empty ↦ rw empty (record {
        file = h.file;
        found = rw (find-erase path k.0 files, apart) h.found;
        same_size = h.same_size;
        same_mtime = h.same_mtime;
        held = h.held;
      })
      | inr full ↦ rw full (record {
        file = h.file;
        found =
            rw (find-insert path k.0 (record f { blocks = erase idx f.blocks }) files, apart)
              h.found;
        same_size = h.same_size;
        same_mtime = h.same_mtime;
        held = h.held;
      })
    ]
  ]

  evict_block-Holds :
      (x : Slot) (files : Map Bytes FileBlocks) (cur : ℕ)
      → same_slot x k ≡ false
      → Holds files k size mtime b
      → Holds (evict_block x files cur).0 k size mtime b
  unfolding evict_block
  evict_block-Holds (path, idx) files cur other h = elim (Option-cases (find path files)) [
    | inl absent ↦ rw (absent, evict_block) h
    | inr (f, present) ↦ elim (Option-cases (find idx f.blocks)) [
      | inl missing ↦ rw (present, missing, evict_block) h
      | inr (c, there) ↦
          rw (present, there, evict_block) (drop_block-Holds path idx files f present other h)
    ]
  ]

  last-other :
      (x : Slot) (lru : List Slot) → contains x (lru ++ (k ∷ [])) ≡ false → same_slot x k ≡ false
  last-other x lru h = same_slot_comm x k ∙ ground (arith, rw (contains-push x k lru) at h)

  -- A block that is alone in the cache is all that is counted.
  only_block :
      (files : Map Bytes FileBlocks) (cur e : ℕ)
      → Valid (record { files = files; lru = k ∷ []; cur_bytes = cur; evictions = e })
      → Holds files k size mtime b
      → cur ≤ length b.bytes
  unfolding evict_block
  only_block files cur e v h =
      let w = evict_block-Valid k [] files cur e e v in
      let left : (evict_block k files cur).1 ≡ cur - length b.bytes =
        rw (h.found, h.held, evict_block) refl in
      omega (
        arith,
        left,
        w.counted,
        nothing_held (evict_block k files cur).0 w.names (λ a. sym (w.listed a)),
      )

  -- The most recently used block outlives an eviction to a budget that it fits.
  evict_loop-Holds :
      (budget : ℕ) (lru : List Slot) (files : Map Bytes FileBlocks) (cur e : ℕ)
      → Valid (record { files = files; lru = lru ++ (k ∷ []); cur_bytes = cur; evictions = e })
      → length b.bytes ≤ budget
      → Holds files k size mtime b
      → Holds (evict_loop budget (lru ++ (k ∷ [])) files cur e).files k size mtime b
  unfolding evict_loop
  evict_loop-Holds budget [] files cur e v fits h =
      rw (le→not-ltb budget cur (omega (arith, only_block files cur e v h))) h
  evict_loop-Holds budget (x ∷ lru) files cur e v fits h = elim (Bool-cases (ltb budget cur)) [
    | inl over ↦ rw over (
        evict_loop-Holds budget lru _ _ (e + 1)
          (evict_block-Valid x (lru ++ (k ∷ [])) files cur e (e + 1) v) fits
          (evict_block-Holds x files cur (last-other x lru v.once.0) h))
    | inr within ↦ rw within h
  ]

module _ (path : Bytes) (size mtime idx : ℕ) (b : Block) (budget : ℕ) where
  put_fresh-Holds :
      (c : BlockCache)
      → Valid c
      → length b.bytes ≤ budget
      → find idx (blocks_of (find path c.files)) ≡ none
      → Holds (put_fresh path size mtime idx b budget c).files (path, idx) size mtime b
  unfolding put_fresh evict_to_budget add_block
  put_fresh-Holds c v fits fresh =
      rw (fresh, put_fresh)
        (evict_loop-Holds (path, idx) size mtime b budget c.lru _ _ c.evictions
          (add_block-Valid path size mtime idx b c v fresh) fits
          (record {
            file = record {
              size = size;
              mtime = mtime;
              blocks = insert idx b (blocks_of (find path c.files));
            };
            found = find-insert_self path _ c.files;
            same_size = refl;
            same_mtime = refl;
            held = find-insert_self idx b (blocks_of (find path c.files));
          }))

  -- A miss in this version leaves the place free for the block.
  drop_stale-free :
      (c : BlockCache)
      → Valid c
      → (block_get path size mtime idx c).0 ≡ none
      → find idx (blocks_of (find path (drop_stale path size mtime c).files)) ≡ none
  unfolding drop_stale block_get
  drop_stale-free c v miss = elim (Option-cases (find path c.files)) [
    | inl absent ↦ rw (absent, drop_stale, absent) (find_empty {V = Block} idx)
    | inr (f, present) ↦ elim (Bool-cases (is_stale f size mtime)) [
      | inl stale ↦
          let (kept, gone, less) = purge_file-Valid path c v in
          rw (present, stale, drop_stale, gone, find-erase_self path c.files)
            (find_empty {V = Block} idx)
      | inr same ↦ elim (Option-cases (find idx f.blocks)) [
        | inl free ↦ rw (present, same, drop_stale, present) free
        | inr (other, held) ↦ cc (rw (present, same, held, block_get) at miss)
      ]
    ]
  ]

  block_get-Holds :
      (c : BlockCache)
      → Holds c.files (path, idx) size mtime b
      → (block_get path size mtime idx c).0 ≡ some b
  unfolding block_get
  block_get-Holds c h =
      let same : is_stale h.file size mtime ≡ false =
        rw ((==_iff h.file.size size).1 h.same_size, (==_iff h.file.mtime mtime).1 h.same_mtime)
          refl in
      rw (h.found, same, h.held, block_get) refl

-- A block that is stored in a valid cache, that the cache has not in this version of the file and
-- that fits the budget, is what a read of that version then returns.
pub block_get-block_put :
    (path : Bytes) (size mtime idx : ℕ) (b : Block) (budget : ℕ) (c : BlockCache)
    → Valid c
    → length b.bytes ≤ budget
    → (block_get path size mtime idx c).0 ≡ none
    → (block_get path size mtime idx (block_put path size mtime idx b budget c)).0 ≡ some b
unfolding block_put
block_get-block_put path size mtime idx b budget c v fits miss =
    block_get-Holds path size mtime idx b budget _ (
      put_fresh-Holds path size mtime idx b budget (drop_stale path size mtime c)
        (drop_stale-Valid path size mtime c v).0 fits
        (drop_stale-free path size mtime idx b budget c v miss))
