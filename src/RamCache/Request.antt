-- ===== src/RamCache/Request.antt =====
-- The requests of the file system, `RamCache::request` of client/src/fs/ram_cache.cpp: cached answers
-- for reads, and what each change drops.
pub mod Through
pub mod Forgets
pub mod Keeps
use folder_buddies.Base.{ℕ, zero, suc, Bool, Option, none, some, List, [], ◌==◌, if◌then◌else◌}
use folder_buddies.Base.Bytes.{Bytes}
use folder_buddies.Wire.{get_pod, get_str, get_attr, attr_bytes, WireAttr, Parse, pure, ◌>>=◌}
use folder_buddies.Wire.Op.{Op, op_code, op_of}
use folder_buddies.RamCache.Names.{parent_of, join_path}
use folder_buddies.RamCache.Timed.{
  meta_lookup, meta_store, neg_lookup, neg_store, dir_lookup, dir_store, Caches,
}
use folder_buddies.RamCache.Handles.{fh_add, fh_remove, fh_path, fh_mark_closing, rename_fh_paths}
use folder_buddies.RamCache.State.{Ram, RemoteFs, invalidate_file, drop_meta, drop_dir}
use folder_buddies.RamCache.Fetch.{Answer, forward, do_read}

abbrev pub enoent : ℕ
enoent = 2

-- A field that cannot be read keeps its initial value.
abbrev pub or_else {ℓ} : {A : Type ℓ} → A → Option A → A
or_else d none = d
or_else d (some a) = a

unfoldable pub read_path : Bytes → Bytes
read_path payload = or_else [] (get_str payload).0

unfoldable pub read_handle : Bytes → ℕ
read_handle payload = or_else 0 (get_pod 8 payload).0

-- The second path of a rename.
unfoldable pub read_target : Bytes → Bytes
read_target payload = or_else [] (get_str (get_str payload).1).0

-- The attributes of a listing, up to the first that cannot be read.
unfoldable pub store_listed : ℕ → ℕ → Bytes → Bytes → Caches → Caches
store_listed zero now path r c = c
store_listed (suc n) now path r c =
    let (name, r') = get_str r in
    let (attr, rest) = get_attr r' in
    elim name [
      | none ↦ c
      | some name ↦ elim attr [
        | none ↦ c
        | some a ↦ store_listed n now path rest (meta_store now (join_path path name) a c)
      ]
    ]

unfoldable pub store_listing : ℕ → Bytes → Bytes → Caches → Caches
unfolding store_listed
store_listing now path resp c =
    let (count, r) = get_pod 4 resp in
    let c' = dir_store now path resp c in
    elim count [ none ↦ c' | some n ↦ store_listed n now path r c' ]

module _ {W : Type 0} (host : RemoteFs W) where
  -- What an answer to OP_GETATTR leaves in the caches.
  unfoldable pub note_attr : Bytes → Answer → Ram × W → Ram × W
  note_attr path (status, resp) (s, w) =
      if status == 0
      then elim (get_attr resp).0 [
        | none ↦ (s, w)
        | some a ↦ (record s { caches = meta_store (host.now w) path a s.caches }, w)
      ]
      else if status == enoent
      then (record s { caches = neg_store (host.now w) path s.caches }, w)
      else (s, w)

  unfoldable pub do_getattr : Bytes → Ram × W → Answer × (Ram × W)
  unfolding forward note_attr
  do_getattr payload (s, w) = elim (get_str payload).0 [
    | none ↦ forward host (op_code Op.getattr) payload (s, w)
    | some path ↦
        let (got, caches) = meta_lookup (host.now w) path s.caches in
        elim got [
          | some a ↦ ((0, attr_bytes a), (record s { caches = caches }, w))
          | none ↦
              let (missing, caches') = neg_lookup (host.now w) path caches in
              let st : Ram × W = (record s { caches = caches' }, w) in
              elim missing [
                | some u ↦ ((enoent, []), st)
                | none ↦
                    let (answer, st') = forward host (op_code Op.getattr) payload st in
                    (answer, note_attr path answer st')
              ]
        ]
  ]

  unfoldable pub ask_listing : Bytes → Bytes → Ram × W → Answer × (Ram × W)
  unfolding forward store_listing
  ask_listing path payload st =
      let ((status, resp), (s, w)) = forward host (op_code Op.readdir) payload st in
      (
        (status, resp),
        (
          if status == 0
              then record s { caches = store_listing (host.now w) path resp s.caches }
              else s,
          w,
        ),
      )

  unfoldable pub do_readdir : Bytes → Ram × W → Answer × (Ram × W)
  unfolding forward ask_listing
  do_readdir payload (s, w) = elim (get_str payload).0 [
    | none ↦ forward host (op_code Op.readdir) payload (s, w)
    | some path ↦
        let (got, caches) = dir_lookup (host.now w) path s.caches in
        let st : Ram × W = (record s { caches = caches }, w) in
        elim got [ some resp ↦ ((0, resp), st) | none ↦ ask_listing path payload st ]
  ]

  -- A change is written through, and has its effect on the cache if the host accepts it.
  unfoldable pub write_through : ℕ → Bytes → (Bytes → Ram → Ram) → Ram × W → Answer × (Ram × W)
  unfolding forward
  write_through op payload effect st =
      let ((status, resp), (s, w)) = forward host op payload st in
      ((status, resp), (if status == 0 then effect resp s else s, w))

-- Each change's effect on the cache.
unfoldable pub open_done : Bytes → Bytes → Ram → Ram
open_done payload resp s = elim (get_pod 8 resp).0 [
  | none ↦ s
  | some fh_id ↦ record s { handles = fh_add fh_id (read_path payload) s.handles }
]

unfoldable pub create_done : Bytes → Bytes → Ram → Ram
unfolding open_done
create_done payload resp s =
    drop_dir (parent_of (read_path payload))
      (invalidate_file (read_path payload) (open_done payload resp s))

unfoldable pub write_done : Bytes → Ram → Ram
write_done payload s = elim (fh_path (read_handle payload) s.handles) [
  | none ↦ s
  | some path ↦ invalidate_file path s
]

unfoldable pub unlink_done : Bytes → Ram → Ram
unlink_done payload s =
    drop_dir (parent_of (read_path payload)) (invalidate_file (read_path payload) s)

unfoldable pub rmdir_done : Bytes → Ram → Ram
rmdir_done payload s =
    drop_dir (parent_of (read_path payload))
      (drop_dir (read_path payload) (drop_meta (read_path payload) s))

unfoldable pub mkdir_done : Bytes → Ram → Ram
mkdir_done payload s = drop_dir (parent_of (read_path payload)) (drop_meta (read_path payload) s)

unfoldable pub rename_done : Bytes → Ram → Ram
rename_done payload s =
    let from = read_path payload in
    let to = read_target payload in
    let s' = drop_dir (parent_of to) (
      drop_dir (parent_of from)
        (drop_dir to (drop_dir from (invalidate_file to (invalidate_file from s))))) in
    record s' { handles = rename_fh_paths from to s'.handles }

-- What an accepted change does to the cache, with the host's response.
unfoldable pub effect_of : Op → Bytes → Bytes → Ram → Ram
effect_of Op.open_op payload resp = open_done payload resp
effect_of Op.create payload resp = create_done payload resp
effect_of Op.write_op payload resp = write_done payload
effect_of Op.truncate payload resp = invalidate_file (read_path payload)
effect_of Op.unlink payload resp = unlink_done payload
effect_of Op.rmdir payload resp = rmdir_done payload
effect_of Op.mkdir payload resp = mkdir_done payload
effect_of Op.rename payload resp = rename_done payload
effect_of Op.chmod payload resp = drop_meta (read_path payload)
effect_of Op.utimens payload resp = drop_meta (read_path payload)
effect_of other payload resp = λ s. s

module _ {W : Type 0} (host : RemoteFs W) where
  -- OP_RELEASE of a handle that no read is at.
  unfoldable pub do_release : ℕ → Bytes → Ram × W → Answer × (Ram × W)
  unfolding forward
  do_release op payload (s, w) =
      let fh_id = read_handle payload in
      let (answer, (s', w')) =
        forward host op payload (record s { handles = fh_mark_closing fh_id s.handles }, w) in
      (answer, (record s' { handles = fh_remove fh_id s'.handles }, w'))

  unfoldable pub request_op : Op → ℕ → Bytes → Ram × W → Answer × (Ram × W)
  unfolding do_getattr do_readdir write_through do_release forward
  request_op Op.getattr op payload = do_getattr host payload
  request_op Op.readdir op payload = do_readdir host payload
  request_op Op.read_op op payload = do_read host payload
  request_op Op.release op payload = do_release op payload
  request_op Op.open_op op payload = write_through host op payload (effect_of Op.open_op payload)
  request_op Op.create op payload = write_through host op payload (effect_of Op.create payload)
  request_op Op.write_op op payload = write_through host op payload (effect_of Op.write_op payload)
  request_op Op.truncate op payload = write_through host op payload (effect_of Op.truncate payload)
  request_op Op.unlink op payload = write_through host op payload (effect_of Op.unlink payload)
  request_op Op.rmdir op payload = write_through host op payload (effect_of Op.rmdir payload)
  request_op Op.mkdir op payload = write_through host op payload (effect_of Op.mkdir payload)
  request_op Op.rename op payload = write_through host op payload (effect_of Op.rename payload)
  request_op Op.chmod op payload = write_through host op payload (effect_of Op.chmod payload)
  request_op Op.utimens op payload = write_through host op payload (effect_of Op.utimens payload)
  request_op other op payload = forward host op payload

  unfoldable pub request : ℕ → Bytes → Ram × W → Answer × (Ram × W)
  unfolding request_op
  request op payload st = request_op (op_of op) op payload st
