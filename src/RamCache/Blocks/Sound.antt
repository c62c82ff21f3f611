-- ===== src/RamCache/Blocks/Sound.antt =====
-- A property of every cached block, client/src/fs/ram_cache.cpp: what is stored has it, so what is found
-- has it.
use folder_buddies.Base.{
  ℕ, ◌+◌, ◌==◌, ltb, length, false, some, List, [], ◌∷◌, ◌≡◌, inl, inr, Bool-cases, Option-cases,
  ==_iff, arith,
}
use mathlib.Core.Path.{subst}
use folder_buddies.Base.Bytes.{Bytes, bytes_eq, bytes_eq_iff}
use folder_buddies.Base.Map.{
  find-erase_self, find_empty, Map, find, insert, erase, find-insert, find-erase, bytes_key,
  nat_key,
}
use folder_buddies.RamCache.Blocks.{
  Block, FileBlocks, Slot, BlockCache, purge_file, drop_block, evict_block, evict_loop,
  evict_to_budget, is_stale, block_get, drop_stale, blocks_of, add_block, put_fresh, block_put,
}

fresh_version :
    (f : FileBlocks) (size mtime : ℕ)
    → is_stale f size mtime ≡ false
    → (f.size ≡ size) × (f.mtime ≡ mtime)
fresh_version f size mtime h = (ground arith, ground arith)

purged_gone :
    (path : Bytes) (c : BlockCache) (g f : FileBlocks)
    → find path c.files ≡ some g
    → ¬ (find path (purge_file path c).files ≡ some f)
unfolding purge_file
purged_gone path c g f present h = cc (rw (present, purge_file, find-erase_self path c.files) at h)

-- Behind `drop_stale` the file has the given version or no entry.
drop_stale-version :
    (path : Bytes) (size mtime : ℕ) (c : BlockCache) (f : FileBlocks)
    → find path (drop_stale path size mtime c).files ≡ some f
    → (f.size ≡ size) × (f.mtime ≡ mtime)
unfolding drop_stale
drop_stale-version path size mtime c f h = elim (Option-cases (find path c.files)) [
  | inl absent ↦ cc (rw (absent, drop_stale, absent) at h)
  | inr (g, present) ↦ elim (Bool-cases (is_stale g size mtime)) [
    | inl stale ↦ absurd (purged_gone path c g f present (rw (present, stale, drop_stale) at h))
    | inr same ↦
        let one : g ≡ f = cc (rw (present, same, drop_stale, present) at h) in
        subst (λ (f : FileBlocks). (f.size ≡ size) × (f.mtime ≡ mtime)) one
          (fresh_version g size mtime same)
  ]
]

-- A property of a block by its file, the version of the file, and its index.
module _ (P : Bytes → ℕ → ℕ → ℕ → Block → Type 0) where
  abbrev pub FileSound : Bytes → FileBlocks → Type 0
  FileSound path f =
      (idx : ℕ) (b : Block) → find idx f.blocks ≡ some b → P path f.size f.mtime idx b

  abbrev pub Sound : Map Bytes FileBlocks → Type 0
  Sound files = (path : Bytes) (f : FileBlocks) → find path files ≡ some f → FileSound path f

  Sound-erase : (path : Bytes) (m : Map Bytes FileBlocks) → Sound m → Sound (erase path m)
  Sound-erase path m sound other f h = elim (Bool-cases (bytes_eq path other)) [
    | inl hit ↦ cc (rw (find-erase path other m, hit) at h)
    | inr miss ↦ sound other f (rw (find-erase path other m, miss) at h)
  ]

  Sound-insert :
      (path : Bytes) (f : FileBlocks) (m : Map Bytes FileBlocks)
      → FileSound path f
      → Sound m
      → Sound (insert path f m)
  Sound-insert path f m own sound other g h = elim (Bool-cases (bytes_eq path other)) [
    | inl hit ↦
        let same : f ≡ g = cc (rw (find-insert path other f m, hit) at h) in
        let path_same : path ≡ other = (bytes_eq_iff path other).0 hit in
        subst (λ (g : FileBlocks). FileSound other g) same
          (subst (λ (p : Bytes). FileSound p f) path_same own)
    | inr miss ↦ sound other g (rw (find-insert path other f m, miss) at h)
  ]

  purge_file-Sound :
      (path : Bytes) (c : BlockCache) → Sound c.files → Sound (purge_file path c).files
  unfolding purge_file
  purge_file-Sound path c sound = elim (Option-cases (find path c.files)) [
    | inl absent ↦ rw (absent, purge_file) sound
    | inr (f, present) ↦ rw (present, purge_file) (Sound-erase path c.files sound)
  ]

  drop_block-Sound :
      (path : Bytes) (f : FileBlocks) (idx : ℕ) (m : Map Bytes FileBlocks)
      → FileSound path f
      → Sound m
      → Sound (drop_block path f idx m)
  unfolding drop_block
  drop_block-Sound path f idx m own sound =
      let rest : Map ℕ Block = erase idx f.blocks in
      elim (Bool-cases (length rest == 0)) [
        | inl empty ↦ rw empty (Sound-erase path m sound)
        | inr more ↦
            rw more (
              Sound-insert path (record f { blocks = rest }) m (λ i b h. own i b (kept i b h))
                sound)
      ]
    where
      kept : (i : ℕ) (b : Block) → find i (erase idx f.blocks) ≡ some b → find i f.blocks ≡ some b
      kept i b h = elim (Bool-cases (idx == i)) [
        | inl hit ↦ cc (rw (find-erase idx i f.blocks, hit) at h)
        | inr miss ↦ rw (find-erase idx i f.blocks, miss) at h
      ]

  evict_block-Sound :
      (k : Slot) (m : Map Bytes FileBlocks) (cur : ℕ) → Sound m → Sound (evict_block k m cur).0
  unfolding evict_block
  evict_block-Sound (path, idx) m cur sound = elim (Option-cases (find path m)) [
    | inl absent ↦ rw (absent, evict_block) sound
    | inr (f, present) ↦ elim (Option-cases (find idx f.blocks)) [
      | inl missing ↦ rw (present, missing, evict_block) sound
      | inr (b, held) ↦
          rw (present, held, evict_block)
            (drop_block-Sound path f idx m (sound path f present) sound)
    ]
  ]

  evict_loop-Sound :
      (budget : ℕ) (lru : List Slot) (m : Map Bytes FileBlocks) (cur evictions : ℕ)
      → Sound m
      → Sound (evict_loop budget lru m cur evictions).files
  unfolding evict_loop
  evict_loop-Sound budget [] m cur evictions sound = sound
  evict_loop-Sound budget (k ∷ lru) m cur evictions sound =
      let (files, cur') = evict_block k m cur in
      let more =
        evict_loop-Sound budget lru files cur' (evictions + 1) (evict_block-Sound k m cur sound) in
      elim (Bool-cases (ltb budget cur)) [ inl over ↦ rw over more | inr within ↦ rw within sound ]

  drop_stale-Sound :
      (path : Bytes) (size mtime : ℕ) (c : BlockCache)
      → Sound c.files
      → Sound (drop_stale path size mtime c).files
  unfolding drop_stale
  drop_stale-Sound path size mtime c sound = elim (Option-cases (find path c.files)) [
    | inl absent ↦ rw (absent, drop_stale) sound
    | inr (f, present) ↦ elim (Bool-cases (is_stale f size mtime)) [
      | inl stale ↦ rw (present, stale, drop_stale) (purge_file-Sound path c sound)
      | inr same ↦ rw (present, same, drop_stale) sound
    ]
  ]

  -- A block that is found has the version that was asked for, and the property.
  pub block_get-Sound :
      (path : Bytes) (size mtime idx : ℕ) (c : BlockCache)
      → Sound c.files
      → Sound (block_get path size mtime idx c).1.files
        × ((b : Block) → (block_get path size mtime idx c).0 ≡ some b → P path size mtime idx b)
  unfolding block_get
  block_get-Sound path size mtime idx c sound = elim (Option-cases (find path c.files)) [
    | inl absent ↦ rw (absent, block_get) (sound, λ b h. cc h)
    | inr (f, present) ↦ elim (Bool-cases (is_stale f size mtime)) [
      | inl stale ↦ rw (present, stale, block_get) (purge_file-Sound path c sound, λ b h. cc h)
      | inr same ↦ elim (Option-cases (find idx f.blocks)) [
        | inl missing ↦ rw (present, same, missing, block_get) (sound, λ b h. cc h)
        | inr (b, held) ↦
            rw (present, same, held, block_get)
              (
                sound,
                λ b' h.
                    let one : b ≡ b' = cc h in
                    let (s1, s2) = fresh_version f size mtime same in
                    subst (λ (b : Block). P path size mtime idx b) one
                      (subst (λ (n : ℕ). P path n mtime idx b) s1
                        (subst (λ (n : ℕ). P path f.size n idx b) s2
                          (sound path f present idx b held))),
              )
      ]
    ]
  ]

  same_blocks :
      (path : Bytes) (size mtime : ℕ) (c : BlockCache)
      → ((f : FileBlocks) → find path c.files ≡ some f → (f.size ≡ size) × (f.mtime ≡ mtime))
      → Sound c.files
      → (i : ℕ) (a : Block) → find i (blocks_of (find path c.files)) ≡ some a
      → P path size mtime i a
  same_blocks path size mtime c version sound i a h = elim (Option-cases (find path c.files)) [
    | inl absent ↦ cc (rw (absent, find_empty {V = Block} i) at h)
    | inr (f, present) ↦
        let (s1, s2) = version f present in
        subst (λ (n : ℕ). P path n mtime i a) s1
          (subst (λ (n : ℕ). P path f.size n i a) s2 (sound path f present i a (rw present at h)))
  ]

  add_block-Sound :
      (path : Bytes) (size mtime idx : ℕ) (b : Block) (c : BlockCache)
      → ((f : FileBlocks) → find path c.files ≡ some f → (f.size ≡ size) × (f.mtime ≡ mtime))
      → P path size mtime idx b
      → Sound c.files
      → Sound (add_block path size mtime idx b c).files
  unfolding add_block
  add_block-Sound path size mtime idx b c version own sound =
      Sound-insert path _ c.files
        (λ i a h. elim (Bool-cases (idx == i)) [
          | inl hit ↦
              let one : b ≡ a = cc (rw (find-insert idx i b before, hit) at h) in
              let at_idx : idx ≡ i = (==_iff idx i).0 hit in
              subst (λ (n : ℕ). P path size mtime n a) at_idx
                (subst (λ (b : Block). P path size mtime idx b) one own)
          | inr miss ↦ old i a (rw (find-insert idx i b before, miss) at h)
        ])
        sound
    where
      before : Map ℕ Block
      before = blocks_of (find path c.files)

      old : (i : ℕ) (a : Block) → find i before ≡ some a → P path size mtime i a
      old = same_blocks path size mtime c version sound

  pub block_put-Sound :
      (path : Bytes) (size mtime idx : ℕ) (b : Block) (budget : ℕ) (c : BlockCache)
      → P path size mtime idx b
      → Sound c.files
      → Sound (block_put path size mtime idx b budget c).files
  unfolding block_put put_fresh evict_to_budget
  block_put-Sound path size mtime idx b budget c own sound =
      let d : BlockCache = drop_stale path size mtime c in
      let kept : Sound d.files = drop_stale-Sound path size mtime c sound in
      let added : BlockCache = add_block path size mtime idx b d in
      let version = drop_stale-version path size mtime c in
      elim (Option-cases (find idx (blocks_of (find path d.files)))) [
        | inl missing ↦
            rw (missing, put_fresh)
              (evict_loop-Sound budget added.lru added.files added.cur_bytes added.evictions
                (add_block-Sound path size mtime idx b d version own kept))
        | inr (other, held) ↦
            rw (held, put_fresh)
              (Sound-insert path _ d.files (same_blocks path size mtime d version kept) kept)
      ]
