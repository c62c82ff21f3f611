-- ===== src/RamCache/Flights.antt =====
-- Fetches of blocks by several threads, `blockFetch` of client/src/fs/ram_cache.cpp: the locked parts as
-- steps.
pub mod Single
use folder_buddies.Base.{
  ℕ, suc, ◌+◌, ◌<◌, ◌≡◌, Bool, true, false, Option, none, some, List, [], ◌∷◌, if◌then◌else◌,
}
use folder_buddies.Base.Bytes.{Bytes}
use folder_buddies.RamCache.Blocks.{
  purge_file, Slot, same_slot, erase_slot, Block, BlockCache, block_get, block_put,
}
use folder_buddies.RamCache.Blocks.Slots.{contains}

-- What a thread does behind the first locked part: it has the block, it waits for another thread, or it
-- asks the host.
pub data Start : Type 0 where
  hit : Block → Start
  waits : Start
  fetches : Start

-- One round of the loop: the cache and the set `inflight` are the state.
unfoldable pub start_fetch :
    Bytes → ℕ → ℕ → ℕ → BlockCache → List Slot → Start × (BlockCache × List Slot)
start_fetch path size mtime idx c inflight =
    let (got, c') = block_get path size mtime idx c in
    elim got [
      | some b ↦ (hit b, (c', inflight))
      | none ↦
          if contains (path, idx) inflight
          then (waits, (c', inflight))
          else (fetches, (c', (path, idx) ∷ inflight))
    ]

-- The second locked part: the block is stored if the host sent one.
unfoldable pub end_fetch :
    Bytes → ℕ → ℕ → ℕ → Option Block → ℕ → BlockCache → List Slot → BlockCache × List Slot
end_fetch path size mtime idx got budget c inflight =
    let inflight' = erase_slot (path, idx) inflight in
    elim got [
      | none ↦ (c, inflight')
      | some b ↦ (block_put path size mtime idx b budget c, inflight')
    ]

-- The shared state, and the block of each thread that is at the host or that sleeps in `blockCv.wait`.
pub record Flights : Type 0 where
  pub cache : BlockCache
  pub inflight : List Slot
  pub asking : List Slot
  pub asleep : List Slot

unfoldable pub count_slot : Slot → List Slot → ℕ
count_slot k [] = 0
count_slot k (x ∷ xs) = let rest = count_slot k xs in if same_slot x k then suc rest else rest

unfoldable pub leave_slot : Slot → List Slot → List Slot
leave_slot k [] = []
leave_slot k (x ∷ xs) = let rest = leave_slot k xs in if same_slot x k then xs else x ∷ rest

-- A step of one thread. One that sleeps does nothing until a wait ends: `notify_all` behind every
-- answer ends all of them, and then each thread starts its round again.
pub data FetchStep (s : Flights) : Flights → Type 0 where
  serves :
      (path : Bytes) (size mtime idx : ℕ) (b : Block)
      → (start_fetch path size mtime idx s.cache s.inflight).0 ≡ hit b
      → FetchStep s (record s { cache = (start_fetch path size mtime idx s.cache s.inflight).1.0 })
  sleeps :
      (path : Bytes) (size mtime idx : ℕ)
      → (start_fetch path size mtime idx s.cache s.inflight).0 ≡ waits
      → FetchStep s (record s {
        cache = (start_fetch path size mtime idx s.cache s.inflight).1.0;
        asleep = (path, idx) ∷ s.asleep;
      })
  -- A wait may also end without a call.
  wakes :
      (k : Slot)
      → 0 < count_slot k s.asleep
      → FetchStep s (record s { asleep = leave_slot k s.asleep })
  asks :
      (path : Bytes) (size mtime idx : ℕ)
      → (start_fetch path size mtime idx s.cache s.inflight).0 ≡ fetches
      → FetchStep s (record s {
        cache = (start_fetch path size mtime idx s.cache s.inflight).1.0;
        inflight = (start_fetch path size mtime idx s.cache s.inflight).1.1;
        asking = (path, idx) ∷ s.asking;
      })
  answers :
      (path : Bytes) (size mtime idx : ℕ) (got : Option Block) (budget : ℕ)
      → 0 < count_slot (path, idx) s.asking
      → FetchStep s (record s {
        cache = (end_fetch path size mtime idx got budget s.cache s.inflight).0;
        inflight = (end_fetch path size mtime idx got budget s.cache s.inflight).1;
        asking = leave_slot (path, idx) s.asking;
        asleep = [];
      })
  -- A change of the file drops its blocks, whatever is asked for.
  drops : (path : Bytes) → FetchStep s (record s { cache = purge_file path s.cache })

pub data FetchReach (s : Flights) : Flights → Type 0 where
  here : FetchReach s s
  next : {t u : Flights} → FetchReach s t → FetchStep t u → FetchReach s u

abbrev pub no_flights : Flights
no_flights = record {
  cache = record { files = []; lru = []; cur_bytes = 0; evictions = 0 };
  inflight = [];
  asking = [];
  asleep = [];
}
