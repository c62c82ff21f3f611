-- ===== src/RamCache/Prefetch/Bounds.antt =====
-- How much a read-ahead asks for, client/src/fs/ram_cache.cpp.
use folder_buddies.Base.{
  ltb, ℕ, zero, suc, ◌+◌, ◌-◌, ◌*◌, ◌/◌, ◌%◌, ◌^◌, ◌≤◌, max, ◌≡◌, refl, arith, length,
  length-append, leb, Bool-cases, Option-cases, inl, inr, [], ◌∷◌, ◌||◌, not, ◌==◌,
}
use folder_buddies.Base.Bytes.{Bytes}
use folder_buddies.Base.Map.{find, nat_key}
use folder_buddies.Wire.{max_io}
use folder_buddies.RamCache.Handles.{FhInfo}
use folder_buddies.RamCache.State.{Job, PrefetchPool, Ram, RemoteFs, budget_now}
use folder_buddies.RamCache.Prefetch.{
  submit, submit_jobs, schedule_read_ahead, window, note_read, prefetch_queue_max,
}

submit-length :
    (job : Job) (p : PrefetchPool)
    → length p.queue ≤ prefetch_queue_max
    → (length (submit job p).1.queue ≤ prefetch_queue_max)
      × (length (submit job p).1.queue ≤ length p.queue + 1)
unfolding submit
submit-length job p h =
    elim (Bool-cases (not p.running || leb prefetch_queue_max (length p.queue))) [
      | inl refused ↦ rw refused (h, omega arith)
      | inr taken ↦
          let room : length p.queue + 1 ≤ prefetch_queue_max = ground arith in
          rw taken (
            omega (arith, length-append p.queue (job ∷ [])),
            omega (arith, length-append p.queue (job ∷ [])),
          )
    ]

submit_jobs-length :
    (path : Bytes) (fh_id size mtime n idx : ℕ) (p : PrefetchPool)
    → length p.queue ≤ prefetch_queue_max
    → (length (submit_jobs path fh_id size mtime n idx p).queue ≤ prefetch_queue_max)
      × (length (submit_jobs path fh_id size mtime n idx p).queue ≤ length p.queue + n)
unfolding submit_jobs
submit_jobs-length path fh_id size mtime zero idx p h = (h, omega arith)
submit_jobs-length path fh_id size mtime (suc n) idx p h =
    let job : Job = record { path = path; fh_id = fh_id; size = size; mtime = mtime; idx = idx } in
    let one = submit-length job p h in
    let more =
      submit_jobs-length path fh_id size mtime n ((idx + 1) % 2 ^ 64) (submit job p).1 one.0 in
    (more.0, omega (arith, more.1, one.1))

half :
    (budget n : ℕ)
    → n ≤ max 1 (budget / max_io / 2) % 2 ^ 32
    → n * max_io * 2 ≤ max (2 * max_io) budget
half budget n h = omega arith

window-bounds :
    (budget : ℕ) (f : FhInfo)
    → (window budget f ≤ 32) × (window budget f * max_io * 2 ≤ max (2 * max_io) budget)
unfolding window
window-bounds budget f = (omega arith, half budget (window budget f) (omega arith))

budget_now-pool :
    {W : Type 0} (host : RemoteFs W) (w : W) (s : Ram) → (budget_now host w s).1.pool ≡ s.pool
unfolding budget_now
budget_now-pool host w s = elim (Bool-cases (ltb 2000 (host.now w - s.budget_checked_at))) [
  | inl due ↦ rw due refl
  | inr recent ↦ rw recent refl
]

-- The jobs that come to a queue, within the bounds that a budget sets.
abbrev pub Within : ℕ → PrefetchPool → PrefetchPool → Type 0
Within budget p q =
    (length q.queue ≤ prefetch_queue_max)
    × (length q.queue - length p.queue ≤ 32)
    × ((length q.queue - length p.queue) * max_io * 2 ≤ max (2 * max_io) budget)

Within-self :
    (budget : ℕ) (p : PrefetchPool) → length p.queue ≤ prefetch_queue_max → Within budget p p
Within-self budget p h = (h, omega arith, omega arith)

within_window :
    (budget n added : ℕ)
    → added ≤ n
    → n * max_io * 2 ≤ max (2 * max_io) budget
    → added * max_io * 2 ≤ max (2 * max_io) budget
within_window budget n added h k = omega arith

Within-submit_jobs :
    (path : Bytes) (fh_id size mtime idx budget : ℕ) (f : FhInfo) (p : PrefetchPool)
    → length p.queue ≤ prefetch_queue_max
    → Within budget p (submit_jobs path fh_id size mtime (window budget f) idx p)
Within-submit_jobs path fh_id size mtime idx budget f p h =
    let more = submit_jobs-length path fh_id size mtime (window budget f) idx p h in
    let (few, fits) = window-bounds budget f in
    let added : ℕ =
      length (submit_jobs path fh_id size mtime (window budget f) idx p).queue - length p.queue in
    let bound : added ≤ window budget f = omega (arith, more.1) in
    (more.0, omega arith, within_window budget (window budget f) added bound fits)

-- A read-ahead never has the queue of the pool grow past 512 jobs, submits at most 32 blocks, and
-- asks for at most half of the memory budget, or for one block if that is more.
pub schedule_read_ahead-Within :
    {W : Type 0} (host : RemoteFs W) (fh_id : ℕ) (path : Bytes) (size mtime end off : ℕ) (w : W)
    (s : Ram)
    → length s.pool.queue ≤ prefetch_queue_max
    → Within
        (budget_now host w s).0
        s.pool
        (schedule_read_ahead host fh_id path size mtime end off w s).pool
unfolding schedule_read_ahead
schedule_read_ahead-Within host fh_id path size mtime end off w s h =
    let (budget, s') = budget_now host w s in
    let same : s'.pool ≡ s.pool = budget_now-pool host w s in
    elim (Bool-cases (budget == 0)) [
      | inl none_left ↦ rw (none_left, same) (Within-self budget s.pool h)
      | inr some_left ↦ elim (Option-cases (find fh_id s'.handles)) [
        | inl absent ↦
            rw (some_left, absent, schedule_read_ahead, same) (Within-self budget s.pool h)
        | inr (f, present) ↦
            rw (some_left, present, schedule_read_ahead, same)
              (Within-submit_jobs path fh_id size mtime (end / max_io) budget (note_read off end f)
                s.pool h)
      ]
    ]
