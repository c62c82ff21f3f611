-- ===== src/RamCache/Handles/Close.antt =====
-- Reads and closes of one handle from several threads, client/src/fs/ram_cache.cpp: the locked parts
-- of `blockFetch` and of OP_RELEASE as steps.
pub mod Moves
pub mod Keeps
pub mod Sleeps
pub mod Safe
use folder_buddies.Base.{
  ◌++◌, ℕ, suc, ◌+◌, ◌-◌, ◌<◌, ◌≤◌, ◌==◌, Bool, true, false, Option, none, some, List, [], ◌∷◌, inl,
  inr, if◌then◌else◌, ◌≡◌, refl, sym, ◌∙◌, arith, Bool-cases, Option-cases, ==_iff,
}
use mathlib.Core.Path.{subst}
use folder_buddies.Base.Ints.{ℤ, pos, negsuc, incr, decr, is_zero}
use folder_buddies.Base.Bytes.{Bytes, bytes_eq}
use folder_buddies.Base.Map.{Map, find, insert, erase, nat_key, find-insert, find-erase}
use folder_buddies.RamCache.Handles.{
  fh_end_notifies, Handles, FhInfo, fresh_info, fh_add, fh_remove, fh_begin_read, fh_end_read,
  fh_mark_closing, fh_drained, clear_fh_version, rename_fh_paths,
}

-- How many threads are at a handle.
unfoldable pub count : ℕ → List ℕ → ℕ
count id [] = 0
count id (x ∷ xs) = let rest = count id xs in if x == id then suc rest else rest

unfoldable pub leave : ℕ → List ℕ → List ℕ
leave id [] = []
leave id (x ∷ xs) = let rest = leave id xs in if x == id then xs else x ∷ rest

-- The handles, and for each thread the handle it works on: a read of `blockFetch` whose OP_READ is at
-- the host, a close that is to test whether the reads have ended, a close that sleeps in `fhCv.wait`, a
-- close whose OP_RELEASE is at the host; and an OP_READ that `doRead` forwards around the cache, which
-- the handle does not count.
pub record Threads : Type 0 where
  pub handles : Handles
  pub reading : List ℕ
  pub waiting : List ℕ
  pub asleep : List ℕ
  pub releasing : List ℕ
  pub direct : List ℕ

-- `fhCv.notify_all`, if it is called: every close that sleeps tests again.
unfoldable pub wake : Bool → Threads → Threads
wake true s = record s { waiting = s.asleep ++ s.waiting; asleep = [] }
wake false s = s

-- The end of an OP_READ of `blockFetch`.
unfoldable pub end_read : ℕ → Threads → Threads
unfolding wake
end_read id s =
    wake (fh_end_notifies id s.handles)
      (record s { handles = fh_end_read id s.handles; reading = leave id s.reading })

-- A step of one thread. The host gives each open file a new number, so that no thread works on it
-- yet.
pub data Step (s : Threads) : Threads → Type 0 where
  opened :
      (id : ℕ) (path : Bytes)
      → count id s.reading ≡ 0
      → count id s.waiting ≡ 0
      → count id s.asleep ≡ 0
      → count id s.releasing ≡ 0
      → Step s (record s { handles = fh_add id path s.handles })
  read_starts :
      (id : ℕ)
      → (fh_begin_read id s.handles).0 ≡ true
      → Step s (record s { handles = (fh_begin_read id s.handles).1; reading = id ∷ s.reading })
  read_refused : (id : ℕ) → (fh_begin_read id s.handles).0 ≡ false → Step s s
  read_ends : (id : ℕ) → 0 < count id s.reading → Step s (end_read id s)
  direct_starts : (id : ℕ) → Step s (record s { direct = id ∷ s.direct })
  direct_ends : (id : ℕ) → 0 < count id s.direct → Step s (record s { direct = leave id s.direct })
  close_starts :
      (id : ℕ)
      → Step s (record s { handles = fh_mark_closing id s.handles; waiting = id ∷ s.waiting })
  sleeps :
      (id : ℕ)
      → 0 < count id s.waiting
      → fh_drained id s.handles ≡ false
      → Step s (record s { waiting = leave id s.waiting; asleep = id ∷ s.asleep })
  -- A wait may also end without a call.
  wakes :
      (id : ℕ)
      → 0 < count id s.asleep
      → Step s (record s { waiting = id ∷ s.waiting; asleep = leave id s.asleep })
  release_sent :
      (id : ℕ)
      → 0 < count id s.waiting
      → fh_drained id s.handles ≡ true
      → Step s (record s { waiting = leave id s.waiting; releasing = id ∷ s.releasing })
  release_ends :
      (id : ℕ)
      → 0 < count id s.releasing
      → Step s (record s { handles = fh_remove id s.handles; releasing = leave id s.releasing })
  changed : (path : Bytes) → Step s (record s { handles = clear_fh_version path s.handles })
  renamed : (from to : Bytes) → Step s (record s { handles = rename_fh_paths from to s.handles })

-- The reads that a handle counts, and whether it refuses new ones.
abbrev pub reads_at : Option FhInfo → ℤ
reads_at none = pos 0
reads_at (some f) = f.active_reads

abbrev pub closing_at : Option FhInfo → Bool
closing_at none = true
closing_at (some f) = f.closing

-- Every handle counts the reads of `blockFetch` that are at the host; a handle that is being closed
-- refuses new ones; none is left when its OP_RELEASE is sent; and a close sleeps only while one is.
pub record Inv (s : Threads) : Type 0 where
  pub counted : (id : ℕ) → reads_at (find id s.handles) ≡ pos (count id s.reading)
  pub waits : (id : ℕ) → 0 < count id s.waiting → closing_at (find id s.handles) ≡ true
  pub closes : (id : ℕ) → 0 < count id s.releasing → closing_at (find id s.handles) ≡ true
  pub sleepers : (id : ℕ) → 0 < count id s.asleep → closing_at (find id s.handles) ≡ true
  pub awaited : (id : ℕ) → 0 < count id s.asleep → 0 < count id s.reading
  pub drained : (id : ℕ) → 0 < count id s.releasing → count id s.reading ≡ 0

pub data Reach (s : Threads) : Threads → Type 0 where
  here : Reach s s
  next : {t u : Threads} → Reach s t → Step t u → Reach s u

abbrev pub no_threads : Threads
no_threads = record {
  handles = [];
  reading = [];
  waiting = [];
  asleep = [];
  releasing = [];
  direct = [];
}
