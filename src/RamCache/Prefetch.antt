-- ===== src/RamCache/Prefetch.antt =====
-- Read-ahead, client/src/fs/ram_cache.cpp: `PrefetchPool` and `scheduleReadAhead`.
pub mod Bounds
use folder_buddies.Base.{
  ℕ, zero, suc, ◌+◌, ◌*◌, ◌/◌, ◌%◌, ◌^◌, min, max, Bool, true, false, not, ◌&&◌, ◌||◌, Option, none,
  some, List, [], ◌∷◌, ◌++◌, length, ltb, leb, ◌==◌, if◌then◌else◌,
}
use folder_buddies.Base.Bytes.{Bytes}
use folder_buddies.Base.Map.{find, insert, nat_key}
use folder_buddies.Wire.{max_io}
use folder_buddies.RamCache.Handles.{FhInfo, Handles}
use folder_buddies.RamCache.State.{Job, PrefetchPool, Ram, RemoteFs, budget_now}

abbrev pub max_read_ahead_blocks : ℕ
max_read_ahead_blocks = 32

abbrev pub prefetch_queue_max : ℕ
prefetch_queue_max = 512

unfoldable pub submit : Job → PrefetchPool → Bool × PrefetchPool
submit job p =
    if not p.running || leb prefetch_queue_max (length p.queue)
    then (false, p)
    else (true, record p { queue = p.queue ++ (job ∷ []) })

-- What a worker does next.
pub data Next : Type 0 where
  wait : Next
  stop : Next
  run : Job → Next

unfoldable pub next_job : PrefetchPool → Next × PrefetchPool
next_job p = elim p.queue [
  | [] ↦ if p.running then (wait, p) else (stop, p)
  | job ∷ rest ↦ (run job, record p { queue = rest })
]

unfoldable pub shut_down : PrefetchPool → PrefetchPool
shut_down p = record p { running = false }

-- The handle behind a read of the bytes from `off` to `end`.
unfoldable pub note_read : ℕ → ℕ → FhInfo → FhInfo
note_read off end f =
    let grown =
      if f.ra_window == 0 then 1 else min (f.ra_window * 2 % 2 ^ 32) max_read_ahead_blocks in
    if off == f.last_end || (f.last_end == 0 && off == 0)
    then record f { seq_run = (f.seq_run + 1) % 2 ^ 32; ra_window = grown; last_end = end }
    else record f { seq_run = 0; ra_window = 0; last_end = end }

abbrev pub wanted : FhInfo → ℕ
wanted f = if leb 2 f.seq_run then f.ra_window else 0

-- Half of the budget in blocks, one at least.
abbrev pub budget_cap : ℕ → ℕ
budget_cap budget = max 1 (budget / max_io / 2) % 2 ^ 32

unfoldable pub submit_jobs : Bytes → ℕ → ℕ → ℕ → ℕ → ℕ → PrefetchPool → PrefetchPool
submit_jobs path fh_id size mtime zero idx p = p
submit_jobs path fh_id size mtime (suc n) idx p =
    let job : Job = record { path = path; fh_id = fh_id; size = size; mtime = mtime; idx = idx } in
    submit_jobs path fh_id size mtime n ((idx + 1) % 2 ^ 64) (submit job p).1

-- How many blocks are submitted.
unfoldable pub window : ℕ → FhInfo → ℕ
window budget f = min (wanted f) (min (budget_cap budget) max_read_ahead_blocks)

unfoldable pub schedule_read_ahead :
    {W : Type 0} → RemoteFs W → ℕ → Bytes → ℕ → ℕ → ℕ → ℕ → W → Ram → Ram
schedule_read_ahead host fh_id path size mtime end off w s =
    let (budget, s') = budget_now host w s in
    if budget == 0 then s' else elim (find fh_id s'.handles) [
      | none ↦ s'
      | some f ↦
          let f' = note_read off end f in
          record s' {
            handles = insert fh_id f' s'.handles;
            pool = submit_jobs path fh_id size mtime (window budget f') (end / max_io) s'.pool;
          }
    ]
