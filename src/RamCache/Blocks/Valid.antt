-- ===== src/RamCache/Blocks/Valid.antt =====
-- The invariant of the block cache.
pub mod Purge
pub mod Put
pub mod Evict
pub mod Keep
use folder_buddies.Base.Map.{nat_key, bytes_key}
use folder_buddies.Base.Bytes.{Bytes}
use folder_buddies.Base.Map.{find, Map}
use folder_buddies.Base.{is_some, Option, length, ◌≡◌, ℕ, refl, [], none}
use folder_buddies.Base.Totals.{Distinct, total, Every}
use folder_buddies.RamCache.Blocks.{Slot, BlockCache, Block, FileBlocks, blocks_of}
use folder_buddies.RamCache.Blocks.Slots.{contains, Once}

abbrev pub block_size : Block → ℕ
block_size b = length b.bytes

abbrev pub file_size : FileBlocks → ℕ
file_size f = total block_size f.blocks

-- The block that the files hold at a place.
abbrev pub block_at : Map Bytes FileBlocks → Slot → Option Block
block_at files k = find k.1 (blocks_of (find k.0 files))

abbrev pub NoRepeats : FileBlocks → Type 0
NoRepeats f = Distinct f.blocks

-- The byte count is the sum of the sizes of the blocks, and the order of use lists each block that
-- is held once, and nothing else.
pub record Valid (c : BlockCache) : Type 0 where
  pub names : Distinct c.files
  pub indices : Every NoRepeats c.files
  pub counted : c.cur_bytes ≡ total file_size c.files
  pub listed : (k : Slot) → contains k c.lru ≡ is_some (block_at c.files k)
  pub once : Once c.lru
