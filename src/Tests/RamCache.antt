-- ===== src/Tests/RamCache.antt =====
-- The RAM cache on small inputs.
use folder_buddies.Base.Totals.{total}
use folder_buddies.Base.Bytes.{bytes_eq, Bytes}
use folder_buddies.Wire.{max_io, WireAttr}
use folder_buddies.RamCache.Read.{read, Fetched, read_blocks}
use folder_buddies.Base.{
  length, ltb, drop, take, true, ◌*◌, ℕ, arith, false, ◌≤◌, ◌≡◌, refl, [], ◌∷◌, none, some,
}
use folder_buddies.Base.Map.{erase, insert, find, nat_key, bytes_key}
use folder_buddies.RamCache.Budget.{RamInfo, gib}
use folder_buddies.RamCache.Blocks.{
  evict_loop, evict_to_budget, add_block, drop_stale, put_fresh, BlockCache, Block, block_put,
  block_get,
}
use folder_buddies.RamCache.Blocks.Valid.{Valid}
use folder_buddies.RamCache.Blocks.Valid.Put.{block_put-Valid}
use folder_buddies.RamCache.Blocks.Valid.Keep.{block_get-block_put}
use folder_buddies.RamCache.Read.Whole.{file_block, read_blocks-whole}

abbrev laptop : RamInfo
laptop = record { total = 8 * gib; avail = 3 * gib }

abbrev no_cache : BlockCache
no_cache = record { files = []; lru = []; cur_bytes = 0; evictions = 0 }

no_cache-Valid : Valid no_cache
unfolding find total
no_cache-Valid = record {
  names = tt;
  indices = λ a v h. cc;
  counted = refl;
  listed = λ k. refl;
  once = tt;
}

abbrev name : Bytes
name = 47 ∷ 97 ∷ []

abbrev small : Block
small = record { bytes = 1 ∷ 2 ∷ 3 ∷ []; eof = false }

abbrev other : Block
other = record { bytes = 4 ∷ 5 ∷ []; eof = true }

abbrev one_block : BlockCache
one_block = block_put name 5 9 0 small 4 no_cache

block_put-Valid_example :
    Valid (block_put name 5 9 0 small 4 no_cache)
    × ((block_put name 5 9 0 small 4 no_cache).cur_bytes ≤ 4)
block_put-Valid_example = block_put-Valid name 5 9 0 small 4 no_cache no_cache-Valid (omega arith)

one_block-misses : (block_get name 5 9 1 one_block).0 ≡ none
unfolding block_get block_put put_fresh drop_stale add_block evict_to_budget evict_loop find insert
    erase bytes_eq
one_block-misses = refl

-- The second block does not fit beside the first.
block_get-block_put_example :
    (block_get name 5 9 1 (block_put name 5 9 1 other 4 one_block)).0 ≡ some other
block_get-block_put_example =
    block_get-block_put name 5 9 1 other 4 one_block
      (block_put-Valid name 5 9 0 small 4 no_cache no_cache-Valid (omega arith)).0 (omega arith)
      one_block-misses

abbrev attr : WireAttr
attr = record {
  ino = 3;
  size = 5;
  blocks = 1;
  atime = 1;
  mtime = 9;
  ctime = 9;
  mode = 0x81a4;
  nlink = 1;
  uid = 0;
  gid = 0;
}

abbrev content : Bytes
content = 10 ∷ 11 ∷ 12 ∷ []

-- A host that has the file and no state.
abbrev host : ℕ → ℕ → Fetched × ℕ
host idx s = (
  record {
    status = 0;
    bytes = file_block content idx;
    eof = ltb (length (file_block content idx)) max_io;
  },
  s,
)

read_blocks-whole_example : (read_blocks host 1 5 0).0 ≡ read (take 5 (drop 1 content))
read_blocks-whole_example =
    read_blocks-whole host content (λ s. Unit {0}) (λ idx s small h. (refl, tt)) 1 5 0 tt
      (omega arith)
