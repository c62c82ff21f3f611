-- ===== src/RamCache/State.antt =====
-- The whole state of the cache, `RamCache::Impl` of client/src/fs/ram_cache.cpp, without its debug
-- counters.
use folder_buddies.Base.{ℕ, ◌-◌, Bool, List, ltb, if◌then◌else◌}
use folder_buddies.Base.Bytes.{Bytes}
use folder_buddies.RamCache.Budget.{RamInfo, compute_block_budget}
use folder_buddies.RamCache.Blocks.{BlockCache, purge_file}
use folder_buddies.RamCache.Timed.{Caches, meta_erase, dir_erase}
use folder_buddies.RamCache.Names.{parent_of}
use folder_buddies.RamCache.Handles.{Handles, clear_fh_version}

-- What a prefetch job captures.
pub record Job : Type 0 where
  pub path : Bytes
  pub fh_id : ℕ
  pub size : ℕ
  pub mtime : ℕ
  pub idx : ℕ

pub record PrefetchPool : Type 0 where
  pub queue : List Job
  pub running : Bool

pub record Ram : Type 0 where
  pub caches : Caches
  pub handles : Handles
  pub blocks : BlockCache
  pub pool : PrefetchPool
  pub ram_total : ℕ
  pub effective_budget : ℕ
  pub budget_checked_at : ℕ

-- The file system behind the cache, `RemoteFs::request` with its status and response; the clock
-- `now_ms`; and the memory that the system reports. Time passes only while a request is at the host.
pub record RemoteFs (W : Type 0) : Type 0 where
  pub request : ℕ → Bytes → W → (ℕ × Bytes) × W
  pub now : W → ℕ
  pub detect_ram : W → RamInfo

-- The memory is sampled again after two seconds at the earliest.
unfoldable pub budget_now : {W : Type 0} → RemoteFs W → W → Ram → ℕ × Ram
budget_now host w s =
    let t = host.now w in
    let b =
      compute_block_budget (record { total = s.ram_total; avail = (host.detect_ram w).avail }) in
    if ltb 2000 (t - s.budget_checked_at)
    then (b, record s { budget_checked_at = t; effective_budget = b })
    else (s.effective_budget, s)

unfoldable pub invalidate_file : Bytes → Ram → Ram
invalidate_file path s = record s {
  caches = meta_erase path s.caches;
  handles = clear_fh_version path s.handles;
  blocks = purge_file path s.blocks;
}

unfoldable pub drop_meta : Bytes → Ram → Ram
drop_meta path s = record s { caches = meta_erase path s.caches }

unfoldable pub drop_dir : Bytes → Ram → Ram
drop_dir path s = record s { caches = dir_erase path s.caches }

-- The callback that the constructor installs, for a change that the host announces.
unfoldable pub on_invalidate : Bytes → Ram → Ram
unfolding invalidate_file drop_dir
on_invalidate path s = drop_dir (parent_of path) (drop_dir path (invalidate_file path s))
