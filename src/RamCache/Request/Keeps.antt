-- ===== src/RamCache/Request/Keeps.antt =====
-- Every request keeps the cache well formed, client/src/fs/ram_cache.cpp.
pub mod Effects
pub mod Reads
pub mod Requests
use folder_buddies.Base.{ℕ, ◌≤◌, length}
use folder_buddies.RamCache.Blocks.Valid.{Valid}
use folder_buddies.RamCache.Timed.Laws.{Bounded}
use folder_buddies.RamCache.Prefetch.{prefetch_queue_max}
use folder_buddies.RamCache.State.{Ram}

-- The byte count and the order of use of the blocks fit the blocks, and the three caches and the queue
-- of the pool are within their bounds.
pub record WellFormed (s : Ram) : Type 0 where
  pub blocks : Valid s.blocks
  pub caches : Bounded s.caches
  pub queue : length s.pool.queue ≤ prefetch_queue_max
