-- ===== src/RamCache/Fetch/Whole.antt =====
-- A read through the cache is a read of the host, client/src/fs/ram_cache.cpp.
use folder_buddies.Base.{
  ◌≤◌, ℕ, ◌*◌, ◌-◌, ◌%◌, ◌^◌, ◌<◌, true, false, ◌≡◌, refl, sym, ◌∙◌, ap, inl, inr, arith,
  Bool-cases, Option-cases, length, take, drop, ltb,
}
use folder_buddies.Base.Bytes.{Bytes}
use folder_buddies.Base.Ints.{incr, decr}
use folder_buddies.Base.Map.{find, find-insert_self, nat_key, bytes_key}
use folder_buddies.Wire.{max_io}
use folder_buddies.Wire.Op.{Op, op_code}
use folder_buddies.RamCache.Blocks.{Block, BlockCache, block_get}
use folder_buddies.RamCache.Blocks.Sound.{Sound, block_get-Sound, block_put-Sound}
use folder_buddies.RamCache.Handles.{Handles, fh_begin_read, fh_end_read}
use folder_buddies.RamCache.Handles.Close.{closing_at}
use folder_buddies.RamCache.Read.Whole.{file_block, RightBelow}
use folder_buddies.RamCache.State.{Ram, RemoteFs, budget_now}
use folder_buddies.RamCache.Fetch.{forward, read_payload, fetch_host, store_fetched, block_fetch}

-- A new sample of the memory changes nothing else.
pub budget_now-fields :
    {W : Type 0} (host : RemoteFs W) (w : W) (s : Ram)
    → ((budget_now host w s).1.blocks ≡ s.blocks)
      × ((budget_now host w s).1.handles ≡ s.handles)
      × ((budget_now host w s).1.caches ≡ s.caches)
unfolding budget_now
budget_now-fields host w s = elim (Bool-cases (ltb 2000 (host.now w - s.budget_checked_at))) [
  | inl due ↦ rw due (refl, refl, refl)
  | inr recent ↦ rw recent (refl, refl, refl)
]

closing_at-fh_end_read :
    (x : ℕ) (m : Handles) → closing_at (find x (fh_end_read x m)) ≡ closing_at (find x m)
unfolding fh_end_read
closing_at-fh_end_read x m = elim (Option-cases (find x m)) [
  | inl absent ↦ rw (absent, fh_end_read, absent) refl
  | inr (f, present) ↦
      rw
        (
          present,
          fh_end_read,
          find-insert_self x (record f { active_reads = decr f.active_reads }) m,
        )
        refl
]

-- A read of an open handle is let through, and leaves the handle open.
begin_open :
    (x : ℕ) (m : Handles)
    → closing_at (find x m) ≡ false
    → ((fh_begin_read x m).0 ≡ true) × (closing_at (find x (fh_begin_read x m).1) ≡ false)
unfolding fh_begin_read
begin_open x m h = elim (Option-cases (find x m)) [
  | inl absent ↦ cc (rw absent at h)
  | inr (f, present) ↦
      let open_still : f.closing ≡ false = rw present at h in
      rw
        (
          present,
          open_still,
          fh_begin_read,
          find-insert_self x (record f { active_reads = incr f.active_reads; closing = false }) m,
        )
        (refl, refl)
]

abbrev pub right_block : Bytes → ℕ → Block
right_block content idx = record {
  bytes = file_block content idx;
  eof = ltb (length (file_block content idx)) max_io;
}

-- The blocks are those of the contents that each version of each file has.
abbrev pub RightBlocks : (Bytes → ℕ → ℕ → Bytes) → BlockCache → Type 0
RightBlocks contents c =
    Sound (λ path size mtime idx b. idx < 2 ^ 43 → b ≡ right_block (contents path size mtime) idx)
      c.files

module _ {W : Type 0} (host : RemoteFs W) (contents : Bytes → ℕ → ℕ → Bytes) (fh_id : ℕ)
    (content : Bytes) (Served : W → Type 0) where
  -- While `Served` holds, the host answers OP_READ on the handle with these contents, at the offsets
  -- that `pread` takes and for at most kMaxIO bytes, to which the server limits a read.
  abbrev pub Serves : Type 0
  Serves =
      (off len : ℕ) (w : W)
      → Served w
      → off < 2 ^ 63
      → len ≤ max_io
      → ((host.request (op_code Op.read_op) (read_payload fh_id off len) w).0
          ≡ (0, take len (drop off content)))
        × Served (host.request (op_code Op.read_op) (read_payload fh_id off len) w).1

  abbrev pub Ready : Ram × W → Type 0
  Ready (s, w) =
      Served w × RightBlocks contents s.blocks × (closing_at (find fh_id s.handles) ≡ false)

  store_fetched-right :
      (path : Bytes) (size mtime idx : ℕ) (s : Ram) (w : W)
      → contents path size mtime ≡ content
      → idx < 2 ^ 43
      → Ready (s, w)
      → ((store_fetched host path size mtime idx (0, file_block content idx) (s, w)).0 ≡ record {
        status = 0;
        bytes = file_block content idx;
        eof = ltb (length (file_block content idx)) max_io;
      })
        × Ready (store_fetched host path size mtime idx (0, file_block content idx) (s, w)).1
  unfolding store_fetched
  store_fetched-right path size mtime idx s w version small ready =
      let (budget, s') = budget_now host w s in
      let (same_blocks, same_handles, same_caches) = budget_now-fields host w s in
      (
        refl,
        (
          ready.0,
          block_put-Sound _ path size mtime idx (right_block content idx) budget s'.blocks
              (λ h. ap (λ (t : Bytes). right_block t idx) (sym version)) (rw same_blocks ready.1),
          rw same_handles ready.2,
        ),
      )

  pub block_fetch-right :
      Serves
      → (path : Bytes) (size mtime : ℕ) → contents path size mtime ≡ content
      → RightBelow (2 ^ 43) (block_fetch host path fh_id size mtime) content Ready
  unfolding block_fetch fetch_host forward
  block_fetch-right serves path size mtime version idx (s, w) small ready =
      let (kept, found) = block_get-Sound _ path size mtime idx s.blocks ready.1 in
      let c : BlockCache = (block_get path size mtime idx s.blocks).1 in
      let (let_through, still) = begin_open fh_id s.handles ready.2 in
      elim (Option-cases (block_get path size mtime idx s.blocks).0) [
        | inl miss ↦
            let off : idx * max_io % 2 ^ 64 ≡ idx * max_io = omega arith in
            let (answer, served) =
              serves (idx * max_io) max_io w ready.0 (omega arith) (omega arith) in
            rw (miss, block_fetch, let_through, off, answer)
              (store_fetched-right path size mtime idx _ _ version small
                (served, kept, closing_at-fh_end_read fh_id _ ∙ still))
        | inr (b, hit) ↦
            let right : b ≡ right_block content idx =
              found b hit small ∙ ap (λ (t : Bytes). right_block t idx) version in
            rw (hit, block_fetch)
              (
                ap (λ (b : Block). record { status = 0; bytes = b.bytes; eof = b.eof }) right,
                (ready.0, kept, ready.2),
              )
      ]
