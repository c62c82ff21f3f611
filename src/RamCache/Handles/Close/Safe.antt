-- ===== src/RamCache/Handles/Close/Safe.antt =====
-- The safety and the progress of a close, client/src/fs/ram_cache.cpp: OP_RELEASE against the reads of
-- the same handle.
use folder_buddies.RamCache.Handles.Close.Keeps.{
  kept-Inv, release_ends-Inv, release_sent-Inv, close_starts-Inv, read_starts-Inv, opened-Inv,
  no_threads-Inv,
}
use folder_buddies.RamCache.Handles.Close.Sleeps.{read_ends-Inv, sleeps-Inv, wakes-Inv}
use folder_buddies.RamCache.Handles.Close.Moves.{
  count-append, reads_at-rename_fh_paths, fh_drained-reads, reads_at-clear_fh_version,
  count-leave_own,
}
use folder_buddies.Base.{
  not-ltb→le, ltb→lt, ltb, List, ◌+◌, Bool-cases, zero, ℕ, suc, ◌<◌, true, false, inl, inr, ◌≡◌,
  refl, ◌∙◌, arith, Option-cases, ap,
}
use folder_buddies.Base.Ints.{pos}
use folder_buddies.Base.Map.{find, nat_key}
use folder_buddies.RamCache.Handles.{fh_end_notifies, Handles, fh_begin_read, fh_drained}
use folder_buddies.RamCache.Handles.Close.{
  Threads, Inv, Step, Reach, no_threads, count, leave, closing_at, here, next, opened, read_starts,
  read_refused, read_ends, close_starts, release_sent, release_ends, changed, renamed,
  direct_starts, direct_ends, sleeps, wakes, end_read, wake,
}

-- The reads around the cache are not counted.
other-Inv : (s : Threads) (ds : List ℕ) → Inv s → Inv (record s { direct = ds })
other-Inv s ds inv = record {
  counted = inv.counted;
  waits = inv.waits;
  closes = inv.closes;
  sleepers = inv.sleepers;
  awaited = inv.awaited;
  drained = inv.drained;
}

Step-Inv : {s t : Threads} → Step s t → Inv s → Inv t
Step-Inv {s = s} (opened x path r w a c) inv = opened-Inv s x path inv r w a c
Step-Inv {s = s} (read_starts x h) inv = read_starts-Inv s x inv h
Step-Inv (read_refused x h) inv = inv
Step-Inv {s = s} (read_ends x h) inv = read_ends-Inv s x inv h
Step-Inv {s = s} (direct_starts x) inv = other-Inv s _ inv
Step-Inv {s = s} (direct_ends x h) inv = other-Inv s _ inv
Step-Inv {s = s} (sleeps x w h) inv = sleeps-Inv s x inv w h
Step-Inv {s = s} (wakes x w) inv = wakes-Inv s x inv w
Step-Inv {s = s} (close_starts x) inv = close_starts-Inv s x inv
Step-Inv {s = s} (release_sent x w h) inv = release_sent-Inv s x inv w h
Step-Inv {s = s} (release_ends x h) inv = release_ends-Inv s x inv h
Step-Inv {s = s} (changed path) inv =
    kept-Inv s _ inv (λ id. reads_at-clear_fh_version id path s.handles)
Step-Inv {s = s} (renamed from to) inv =
    kept-Inv s _ inv (λ id. reads_at-rename_fh_paths id from to s.handles)

Reach-Inv : {s t : Threads} → Reach s t → Inv s → Inv t
Reach-Inv here inv = inv
Reach-Inv (next r st) inv = Step-Inv st (Reach-Inv r inv)

refuses-closing :
    (x : ℕ) (m : Handles) → closing_at (find x m) ≡ true → (fh_begin_read x m).0 ≡ false
unfolding fh_begin_read
refuses-closing x m h = elim (Option-cases (find x m)) [
  | inl absent ↦ rw (absent, fh_begin_read) refl
  | inr (f, present) ↦
      let closing : f.closing ≡ true = rw present at h in rw (present, closing, fh_begin_read) refl
]

-- However reads, closes, opens, changes and renames interleave from a state with no open file: while
-- an OP_RELEASE of a handle is at the host, no OP_READ of `blockFetch` for that handle is, and a new one
-- is refused. The OP_READs that `doRead` forwards around the cache are not counted, and may be.
pub release-alone :
    {t : Threads} (id : ℕ)
    → Reach no_threads t
    → 0 < count id t.releasing
    → (count id t.reading ≡ 0) × ((fh_begin_read id t.handles).0 ≡ false)
release-alone {t} id r closes =
    let inv : Inv t = Reach-Inv r no_threads-Inv in
    (inv.drained id closes, refuses-closing id t.handles (inv.closes id closes))

-- The threads after `n` reads of a handle have ended.
abbrev pub finish : ℕ → ℕ → Threads → Threads
finish zero id t = t
finish (suc n) id t = finish n id (end_read id t)

-- The closes of a handle that have not sent their OP_RELEASE.
abbrev pub closers : ℕ → Threads → ℕ
closers id t = count id t.waiting + count id t.asleep

closers-end_read : (x : ℕ) (t : Threads) → closers x (end_read x t) ≡ closers x t
unfolding end_read wake count
closers-end_read x t = elim (Bool-cases (fh_end_notifies x t.handles)) [
  | inl call ↦ rw call (omega (arith, count-append x t.asleep t.waiting))
  | inr quiet ↦ rw quiet refl
]

reading-end_read : (x : ℕ) (t : Threads) → (end_read x t).reading ≡ leave x t.reading
unfolding end_read wake
reading-end_read x t = elim (Bool-cases (fh_end_notifies x t.handles)) [
  | inl call ↦ rw call refl
  | inr quiet ↦ rw quiet refl
]

no_sleeper : {t : Threads} (id : ℕ) → Inv t → count id t.reading ≡ 0 → count id t.asleep ≡ 0
no_sleeper {t} id inv h = elim (Bool-cases (ltb 0 (count id t.asleep))) [
  | inl slept ↦ absurd (omega (arith, h, inv.awaited id (ltb→lt 0 (count id t.asleep) slept)))
  | inr awake ↦ omega (arith, not-ltb→le 0 (count id t.asleep) awake)
]

finish-Reach :
    (n : ℕ) {s t : Threads} (id : ℕ)
    → Inv t
    → Reach s t
    → count id t.reading ≡ n
    → Reach s (finish n id t)
      × (closers id (finish n id t) ≡ closers id t)
      × (count id (finish n id t).asleep ≡ 0)
      × (fh_drained id (finish n id t).handles ≡ true)
finish-Reach zero {t = t} id inv r h =
    (r, refl, no_sleeper id inv h, fh_drained-reads id t.handles 0 (inv.counted id ∙ ap pos h))
finish-Reach (suc n) {t = t} id inv r h =
    let some_reads : 0 < count id t.reading = omega arith in
    let ends : Step t (end_read id t) = read_ends id some_reads in
    let fewer : count id (end_read id t).reading ≡ n =
      rw (reading-end_read id t, count-leave_own id t.reading, h) (omega arith) in
    let (run, same, awake, ready) = finish-Reach n id (Step-Inv ends inv) (next r ends) fewer in
    (run, same ∙ closers-end_read id t, awake, ready)

-- However they interleave, a close that waits or sleeps lets no new read of `blockFetch` through; and
-- once the reads of `blockFetch` for its handle that are at the host have ended, which is a possible
-- run, no close of the handle sleeps, none is lost, and the test that each of them makes succeeds.
pub close-drains :
    {t : Threads} (id : ℕ)
    → Reach no_threads t
    → 0 < closers id t
    → ((fh_begin_read id t.handles).0 ≡ false)
      × Reach no_threads (finish (count id t.reading) id t)
      × (count id (finish (count id t.reading) id t).waiting ≡ closers id t)
      × (count id (finish (count id t.reading) id t).asleep ≡ 0)
      × (fh_drained id (finish (count id t.reading) id t).handles ≡ true)
close-drains {t} id r closes =
    let inv : Inv t = Reach-Inv r no_threads-Inv in
    let (run, same, awake, ready) = finish-Reach (count id t.reading) id inv r refl in
    let closing : closing_at (find id t.handles) ≡ true =
      elim (Bool-cases (ltb 0 (count id t.asleep))) [
        | inl slept ↦ inv.sleepers id (ltb→lt 0 (count id t.asleep) slept)
        | inr not_asleep ↦
            inv.waits id (omega (arith, closes, not-ltb→le 0 (count id t.asleep) not_asleep))
      ] in
    (refuses-closing id t.handles closing, run, omega (arith, same, awake), awake, ready)
