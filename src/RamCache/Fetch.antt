-- ===== src/RamCache/Fetch.antt =====
-- One block and one version from the cache or from the host, client/src/fs/ram_cache.cpp:
-- `blockFetch` by a thread that no other thread is ahead of, `ensureVersion` and `doRead`.
pub mod Whole
pub mod Version
pub mod Transparent
use folder_buddies.Base.{
  ℕ, ◌-◌, ◌*◌, ◌%◌, ◌^◌, Bool, true, false, not, ◌&&◌, Option, none, some, List, [], length, ltb,
  leb, ◌==◌, if◌then◌else◌, ◌+◌,
}
use folder_buddies.Base.Bytes.{Bytes}
use folder_buddies.Base.Map.{find, insert, nat_key}
use folder_buddies.Wire.{put_pod, put_str, get_pod, get_attr, max_io, WireAttr, Parse, pure, ◌>>=◌}
use folder_buddies.Wire.Op.{Op, op_code}
use folder_buddies.RamCache.Blocks.{Block, block_get, block_put}
use folder_buddies.RamCache.Timed.{Caches, meta_lookup, meta_store, meta_ttl}
use folder_buddies.RamCache.Handles.{FhInfo, Handles, fh_path, fh_begin_read, fh_end_read}
use folder_buddies.RamCache.Read.{Fetched, Reply, read, failed, read_blocks}
use folder_buddies.RamCache.State.{Ram, RemoteFs, budget_now}
use folder_buddies.RamCache.Prefetch.{schedule_read_ahead}

abbrev pub ebadf : ℕ
ebadf = 9

-- The status and the response of a request.
abbrev pub Answer : Type 0
Answer = ℕ × Bytes

unfoldable pub read_payload : ℕ → ℕ → ℕ → Bytes
unfolding put_pod
read_payload fh_id off len = put_pod 4 len (put_pod 8 off (put_pod 8 fh_id []))

-- The three numbers of a read.
unfoldable pub read_args : Parse (ℕ × (ℕ × ℕ))
read_args = do fh_id ← get_pod 8; off ← get_pod 8; size ← get_pod 4; pure (fh_id, (off, size))

module _ {W : Type 0} (host : RemoteFs W) where
  unfoldable pub forward : ℕ → Bytes → Ram × W → Answer × (Ram × W)
  forward op payload (s, w) = let (answer, w') = host.request op payload w in (answer, (s, w'))

  -- The part of `blockFetch` without the lock: OP_READ, unless the handle is being closed.
  unfoldable pub fetch_host : ℕ → ℕ → Ram × W → Answer × (Ram × W)
  unfolding forward read_payload
  fetch_host fh_id idx (s, w) =
      let (open_still, handles) = fh_begin_read fh_id s.handles in
      let (answer, (s', w')) =
        forward (op_code Op.read_op) (read_payload fh_id (idx * max_io % 2 ^ 64) max_io)
          (record s { handles = handles }, w) in
      if open_still
      then (answer, (record s' { handles = fh_end_read fh_id s'.handles }, w'))
      else ((ebadf, []), (s, w))

  -- The part behind it, with the lock again.
  unfoldable pub store_fetched : Bytes → ℕ → ℕ → ℕ → Answer → Ram × W → Fetched × (Ram × W)
  store_fetched path size mtime idx (status, resp) (s, w) =
      let eof = ltb (length resp) max_io in
      let (budget, s') = budget_now host w s in
      if not (status == 0) then (record { status = status; bytes = []; eof = false }, (s, w)) else (
        record { status = 0; bytes = resp; eof = eof },
        (
          record s' {
            blocks =
                block_put path size mtime idx (record { bytes = resp; eof = eof }) budget s'.blocks;
          },
          w,
        ),
      )

  unfoldable pub block_fetch : Bytes → ℕ → ℕ → ℕ → ℕ → Ram × W → Fetched × (Ram × W)
  unfolding fetch_host store_fetched
  block_fetch path fh_id size mtime idx (s, w) =
      let (got, blocks) = block_get path size mtime idx s.blocks in
      let s' = record s { blocks = blocks } in
      elim got [
        | some b ↦ (record { status = 0; bytes = b.bytes; eof = b.eof }, (s', w))
        | none ↦
            let (answer, st) = fetch_host fh_id idx (s', w) in
            store_fetched path size mtime idx answer st
      ]

  unfoldable pub note_version : ℕ → WireAttr → ℕ → Handles → Handles
  note_version fh_id a now m = elim (find fh_id m) [
    | none ↦ m
    | some f ↦
        insert fh_id (record f { have_ver = true; ver_at = now; size = a.size; mtime = a.mtime }) m
  ]

  -- The end of `ensureVersion`.
  unfoldable pub use_version : ℕ → WireAttr → Ram × W → Option (ℕ × ℕ) × (Ram × W)
  unfolding note_version
  use_version fh_id a (s, w) = (
    some (a.size, a.mtime),
    (record s { handles = note_version fh_id a (host.now w) s.handles }, w),
  )

  -- The attributes from the host.
  unfoldable pub ask_version : ℕ → Bytes → Ram × W → Option (ℕ × ℕ) × (Ram × W)
  unfolding forward use_version
  ask_version fh_id path st =
      let ((status, resp), (s, w)) = forward (op_code Op.getattr) (put_str path []) st in
      if not (status == 0) then (none, (s, w)) else elim (get_attr resp).0 [
        | none ↦ (none, (s, w))
        | some a ↦
            use_version fh_id a (record s { caches = meta_store (host.now w) path a s.caches }, w)
      ]

  unfoldable pub find_version : ℕ → Bytes → Ram × W → Option (ℕ × ℕ) × (Ram × W)
  unfolding use_version ask_version
  find_version fh_id path (s, w) =
      let (got, caches) = meta_lookup (host.now w) path s.caches in
      let st : Ram × W = (record s { caches = caches }, w) in
      elim got [ some a ↦ use_version fh_id a st | none ↦ ask_version fh_id path st ]

  unfoldable pub ensure_version : ℕ → Bytes → Ram × W → Option (ℕ × ℕ) × (Ram × W)
  unfolding find_version
  ensure_version fh_id path (s, w) = elim (find fh_id s.handles) [
    | none ↦ find_version fh_id path (s, w)
    | some f ↦
        if f.have_ver && leb (host.now w - f.ver_at) meta_ttl
        then (some (f.size, f.mtime), (s, w))
        else find_version fh_id path (s, w)
  ]

  -- `doRead` behind its checks.
  unfoldable pub read_version : ℕ → Bytes → ℕ → ℕ → ℕ → ℕ → Ram × W → Answer × (Ram × W)
  unfolding block_fetch
  read_version fh_id path fsize fmtime off size st =
      let (reply, (s, w)) = read_blocks (block_fetch path fh_id fsize fmtime) off size st in
      elim reply [
        | failed status ↦ ((status, []), (s, w))
        | read out ↦
            let end = (off + length out) % 2 ^ 64 in
            ((0, out), (schedule_read_ahead host fh_id path fsize fmtime end off w s, w))
      ]

  unfoldable pub do_read : Bytes → Ram × W → Answer × (Ram × W)
  unfolding forward ensure_version read_args read_version
  do_read payload (s, w) = elim (read_args payload).0 [
    | none ↦ forward (op_code Op.read_op) payload (s, w)
    | some (fh_id, (off, size)) ↦
        let (budget, s') = budget_now host w s in
        if budget == 0
        then forward (op_code Op.read_op) payload (s', w)
        else elim (fh_path fh_id s'.handles) [
          | none ↦ forward (op_code Op.read_op) payload (s', w)
          | some path ↦
              let (version, st) = ensure_version fh_id path (s', w) in
              elim version [
                | none ↦ forward (op_code Op.read_op) payload st
                | some (fsize, fmtime) ↦ read_version fh_id path fsize fmtime off size st
              ]
        ]
  ]
