-- ===== src/RamCache/Blocks.antt =====
-- The block cache, client/src/fs/ram_cache.cpp: the blocks of each file version, and their order of
-- use.
pub mod Slots
pub mod Valid
pub mod Sound
use folder_buddies.Base.{
  ltb, ◌||◌, ◌==◌, ◌+◌, ◌&&◌, ◌-◌, not, ◌∷◌, length, List, if◌then◌else◌, ◌++◌, Bool, Option, ℕ,
  none, some, [],
}
use folder_buddies.Base.Bytes.{bytes_eq, Bytes}
use folder_buddies.Base.Map.{Map, find, insert, erase, Key, bytes_key, nat_key}

pub record Block : Type 0 where
  pub bytes : Bytes
  pub eof : Bool

pub record FileBlocks : Type 0 where
  pub size : ℕ
  pub mtime : ℕ
  pub blocks : Map ℕ Block

-- A block by its path and index.
abbrev pub Slot : Type 0
Slot = Bytes × ℕ

unfoldable pub same_slot : Slot → Slot → Bool
same_slot a b = bytes_eq a.0 b.0 && a.1 == b.1

-- `lru` holds the least recently used block first: the reverse of the list of the program. A block's
-- iterator into it is the block's own entry.
pub record BlockCache : Type 0 where
  pub files : Map Bytes FileBlocks
  pub lru : List Slot
  pub cur_bytes : ℕ
  pub evictions : ℕ

unfoldable pub erase_slot : Slot → List Slot → List Slot
erase_slot k [] = []
erase_slot k (x ∷ xs) = let rest = erase_slot k xs in if same_slot x k then rest else x ∷ rest

-- The loop of `purgeFileLocked` over the blocks of a file.
unfoldable pub purge_blocks : Bytes → Map ℕ Block → ℕ → List Slot → ℕ × List Slot
purge_blocks path [] cur lru = (cur, lru)
purge_blocks path ((idx, b) ∷ blocks) cur lru =
    purge_blocks path blocks (cur - length b.bytes) (erase_slot (path, idx) lru)

unfoldable pub purge_file : Bytes → BlockCache → BlockCache
purge_file path c = elim (find path c.files) [
  | none ↦ c
  | some f ↦
      let (cur, lru) = purge_blocks path f.blocks c.cur_bytes c.lru in
      record c { files = erase path c.files; lru = lru; cur_bytes = cur }
]

-- The files without one block of a file, and without the file once it has no blocks.
unfoldable pub drop_block : Bytes → FileBlocks → ℕ → Map Bytes FileBlocks → Map Bytes FileBlocks
drop_block path f idx files =
    let blocks = erase idx f.blocks in
    if length blocks == 0
    then erase path files
    else insert path (record f { blocks = blocks }) files

-- The body of the loop of `evictToBudgetLocked`: the files and the count without one block.
unfoldable pub evict_block : Slot → Map Bytes FileBlocks → ℕ → Map Bytes FileBlocks × ℕ
evict_block (path, idx) files cur = elim (find path files) [
  | none ↦ (files, cur)
  | some f ↦ elim (find idx f.blocks) [
    | none ↦ (files, cur)
    | some b ↦ (drop_block path f idx files, cur - length b.bytes)
  ]
]

unfoldable pub evict_loop : ℕ → List Slot → Map Bytes FileBlocks → ℕ → ℕ → BlockCache
evict_loop budget [] files cur evictions = record {
  files = files;
  lru = [];
  cur_bytes = cur;
  evictions = evictions;
}
evict_loop budget (k ∷ lru) files cur evictions =
    let (files', cur') = evict_block k files cur in
    let more = evict_loop budget lru files' cur' (evictions + 1) in
    if ltb budget cur
    then more
    else record { files = files; lru = k ∷ lru; cur_bytes = cur; evictions = evictions }

unfoldable pub evict_to_budget : ℕ → BlockCache → BlockCache
evict_to_budget budget c = evict_loop budget c.lru c.files c.cur_bytes c.evictions

abbrev pub is_stale : FileBlocks → ℕ → ℕ → Bool
is_stale f size mtime = not (f.size == size) || not (f.mtime == mtime)

-- A hit makes the block the most recently used one.
unfoldable pub block_get : Bytes → ℕ → ℕ → ℕ → BlockCache → Option Block × BlockCache
block_get path size mtime idx c = elim (find path c.files) [
  | none ↦ (none, c)
  | some f ↦ if is_stale f size mtime then (none, purge_file path c) else elim (find idx f.blocks) [
    | none ↦ (none, c)
    | some b ↦ (some b, record c { lru = erase_slot (path, idx) c.lru ++ ((path, idx) ∷ []) })
  ]
]

-- The cache without another version of the file.
unfoldable pub drop_stale : Bytes → ℕ → ℕ → BlockCache → BlockCache
drop_stale path size mtime c = elim (find path c.files) [
  | none ↦ c
  | some f ↦ if is_stale f size mtime then purge_file path c else c
]

-- The blocks of a file, none if it has no entry.
abbrev pub blocks_of : Option FileBlocks → Map ℕ Block
blocks_of none = []
blocks_of (some f) = f.blocks

-- The block and its place in the order of use, before anything is evicted.
unfoldable pub add_block : Bytes → ℕ → ℕ → ℕ → Block → BlockCache → BlockCache
add_block path size mtime idx b c =
    let blocks = insert idx b (blocks_of (find path c.files)) in
    record c {
      files = insert path (record { size = size; mtime = mtime; blocks = blocks }) c.files;
      lru = c.lru ++ ((path, idx) ∷ []);
      cur_bytes = c.cur_bytes + length b.bytes;
    }

-- `blockPutLocked` on a cache without another version of the file.
unfoldable pub put_fresh : Bytes → ℕ → ℕ → ℕ → Block → ℕ → BlockCache → BlockCache
put_fresh path size mtime idx b budget c =
    let blocks = blocks_of (find path c.files) in
    elim (find idx blocks) [
      | some other ↦ record c {
        files = insert path (record { size = size; mtime = mtime; blocks = blocks }) c.files;
      }
      | none ↦ evict_to_budget budget (add_block path size mtime idx b c)
    ]

unfoldable pub block_put : Bytes → ℕ → ℕ → ℕ → Block → ℕ → BlockCache → BlockCache
block_put path size mtime idx b budget c =
    put_fresh path size mtime idx b budget (drop_stale path size mtime c)
