-- ===== src/RamCache/Request/Forgets/Accepted.antt =====
-- Every accepted change drops what it makes stale, client/src/fs/ram_cache.cpp.
use folder_buddies.Base.{ℕ, ◌≡◌, some}
use folder_buddies.Base.Bytes.{Bytes}
use folder_buddies.Wire.Op.{Op, op_of}
use folder_buddies.RamCache.Names.{parent_of}
use folder_buddies.RamCache.Handles.{fh_path}
use folder_buddies.RamCache.State.{Ram, RemoteFs, invalidate_file, drop_dir, drop_meta}
use folder_buddies.RamCache.Fetch.{forward}
use folder_buddies.RamCache.Request.{
  read_path, read_target, read_handle, effect_of, create_done, write_done, unlink_done, rmdir_done,
  mkdir_done, rename_done, open_done, write_through, request_op, request,
}
use folder_buddies.RamCache.Request.Forgets.{
  NoListing-drop_dir, drop_dir-NoListing, Forgotten-invalidate_file, drop_meta-NoAttr,
  invalidate_file-Forgotten, Forgotten-rename_fh_paths, Forgotten-drop_dir, NoAttr-drop_dir, NoAttr,
  NoListing, Forgotten,
}

-- What the cache must not know any more behind each change: of the file or directory itself, and of
-- the listing of its parent where an entry comes or goes.
abbrev pub Forgets : Op → Bytes → Ram → Ram → Type 0
Forgets Op.create payload s t =
    Forgotten (read_path payload) t × NoListing (parent_of (read_path payload)) t
Forgets Op.write_op payload s t =
    (path : Bytes) → fh_path (read_handle payload) s.handles ≡ some path → Forgotten path t
Forgets Op.truncate payload s t = Forgotten (read_path payload) t
Forgets Op.unlink payload s t =
    Forgotten (read_path payload) t × NoListing (parent_of (read_path payload)) t
Forgets Op.rmdir payload s t =
    NoAttr (read_path payload) t
    × NoListing (read_path payload) t
    × NoListing (parent_of (read_path payload)) t
Forgets Op.mkdir payload s t =
    NoAttr (read_path payload) t × NoListing (parent_of (read_path payload)) t
Forgets Op.rename payload s t =
    Forgotten (read_path payload) t
    × Forgotten (read_target payload) t
    × NoListing (read_path payload) t
    × NoListing (read_target payload) t
    × NoListing (parent_of (read_path payload)) t
    × NoListing (parent_of (read_target payload)) t
Forgets Op.chmod payload s t = NoAttr (read_path payload) t
Forgets Op.utimens payload s t = NoAttr (read_path payload) t
Forgets _ payload s t = Unit

unlink_done-Forgets :
    (path : Bytes) (s : Ram)
    → Forgotten path (drop_dir (parent_of path) (invalidate_file path s))
      × NoListing (parent_of path) (drop_dir (parent_of path) (invalidate_file path s))
unlink_done-Forgets path s = (
  Forgotten-drop_dir (parent_of path) path (invalidate_file path s)
      (invalidate_file-Forgotten path s),
  drop_dir-NoListing (parent_of path) (invalidate_file path s),
)

write_done-Forgets :
    (payload resp : Bytes) (s : Ram) → Forgets Op.write_op payload s (write_done payload s)
unfolding write_done
write_done-Forgets payload resp s path h = rw (h, write_done) (invalidate_file-Forgotten path s)

rename_done-Forgets :
    (payload : Bytes) (s : Ram) → Forgets Op.rename payload s (rename_done payload s)
unfolding rename_done
rename_done-Forgets payload s =
    let from : Bytes = read_path payload in
    let to : Bytes = read_target payload in
    let s1 : Ram = invalidate_file to (invalidate_file from s) in
    let s2 : Ram = drop_dir from s1 in
    let s3 : Ram = drop_dir to s2 in
    let s4 : Ram = drop_dir (parent_of from) s3 in
    let s5 : Ram = drop_dir (parent_of to) s4 in
    let kept : (path : Bytes) → Forgotten path s1 → Forgotten path (rename_done payload s) =
      λ path h. Forgotten-rename_fh_paths from to path s5 (
        Forgotten-drop_dir (parent_of to) path s4 (
          Forgotten-drop_dir (parent_of from) path s3
            (Forgotten-drop_dir to path s2 (Forgotten-drop_dir from path s1 h)))) in
    (
      kept from (
          Forgotten-invalidate_file to from (invalidate_file from s)
            (invalidate_file-Forgotten from s)),
      kept to (invalidate_file-Forgotten to (invalidate_file from s)),
      NoListing-drop_dir (parent_of to) from s4 (
          NoListing-drop_dir (parent_of from) from s3
            (NoListing-drop_dir to from s2 (drop_dir-NoListing from s1))),
      NoListing-drop_dir (parent_of to) to s4
          (NoListing-drop_dir (parent_of from) to s3 (drop_dir-NoListing to s2)),
      NoListing-drop_dir (parent_of to) (parent_of from) s4
          (drop_dir-NoListing (parent_of from) s3),
      drop_dir-NoListing (parent_of to) s4,
    )

rmdir_done-Forgets : (payload : Bytes) (s : Ram) → Forgets Op.rmdir payload s (rmdir_done payload s)
unfolding rmdir_done
rmdir_done-Forgets payload s =
    let path : Bytes = read_path payload in
    let s1 : Ram = drop_meta path s in
    let s2 : Ram = drop_dir path s1 in
    (
      NoAttr-drop_dir (parent_of path) path s2
          (NoAttr-drop_dir path path s1 (drop_meta-NoAttr path s)),
      NoListing-drop_dir (parent_of path) path s2 (drop_dir-NoListing path s1),
      drop_dir-NoListing (parent_of path) s2,
    )

mkdir_done-Forgets : (payload : Bytes) (s : Ram) → Forgets Op.mkdir payload s (mkdir_done payload s)
unfolding mkdir_done
mkdir_done-Forgets payload s =
    let path : Bytes = read_path payload in
    (
      NoAttr-drop_dir (parent_of path) path (drop_meta path s) (drop_meta-NoAttr path s),
      drop_dir-NoListing (parent_of path) (drop_meta path s),
    )

effect_of-Forgets :
    (o : Op) (payload resp : Bytes) (s : Ram) → Forgets o payload s (effect_of o payload resp s)
unfolding effect_of create_done unlink_done
effect_of-Forgets Op.hello payload resp s = tt
effect_of-Forgets Op.challenge payload resp s = tt
effect_of-Forgets Op.auth payload resp s = tt
effect_of-Forgets Op.auth_ok payload resp s = tt
effect_of-Forgets Op.auth_fail payload resp s = tt
effect_of-Forgets Op.getattr payload resp s = tt
effect_of-Forgets Op.readdir payload resp s = tt
effect_of-Forgets Op.open_op payload resp s = tt
effect_of-Forgets Op.read_op payload resp s = tt
effect_of-Forgets Op.write_op payload resp s = write_done-Forgets payload resp s
effect_of-Forgets Op.create payload resp s =
    unlink_done-Forgets (read_path payload) (open_done payload resp s)
effect_of-Forgets Op.mkdir payload resp s = mkdir_done-Forgets payload s
effect_of-Forgets Op.unlink payload resp s = unlink_done-Forgets (read_path payload) s
effect_of-Forgets Op.rmdir payload resp s = rmdir_done-Forgets payload s
effect_of-Forgets Op.rename payload resp s = rename_done-Forgets payload s
effect_of-Forgets Op.truncate payload resp s = invalidate_file-Forgotten (read_path payload) s
effect_of-Forgets Op.release payload resp s = tt
effect_of-Forgets Op.fsync payload resp s = tt
effect_of-Forgets Op.statfs payload resp s = tt
effect_of-Forgets Op.utimens payload resp s = drop_meta-NoAttr (read_path payload) s
effect_of-Forgets Op.chmod payload resp s = drop_meta-NoAttr (read_path payload) s
effect_of-Forgets Op.flush payload resp s = tt
effect_of-Forgets Op.access payload resp s = tt
effect_of-Forgets Op.invalidate payload resp s = tt
effect_of-Forgets (Op.unknown n) payload resp s = tt

module _ {W : Type 0} (host : RemoteFs W) (op : ℕ) (payload : Bytes) (s : Ram) (w : W) where
  accepted-Forgets :
      (o : Op)
      → (write_through host op payload (effect_of o payload) (s, w)).0.0 ≡ 0
      → Forgets o payload s (write_through host op payload (effect_of o payload) (s, w)).1.0
  unfolding write_through forward
  accepted-Forgets o h = rw h (effect_of-Forgets o payload (host.request op payload w).0.1 s)

  request_op-Forgets :
      (o : Op)
      → (request_op host o op payload (s, w)).0.0 ≡ 0
      → Forgets o payload s (request_op host o op payload (s, w)).1.0
  unfolding request_op
  request_op-Forgets Op.hello h = tt
  request_op-Forgets Op.challenge h = tt
  request_op-Forgets Op.auth h = tt
  request_op-Forgets Op.auth_ok h = tt
  request_op-Forgets Op.auth_fail h = tt
  request_op-Forgets Op.getattr h = tt
  request_op-Forgets Op.readdir h = tt
  request_op-Forgets Op.open_op h = accepted-Forgets Op.open_op h
  request_op-Forgets Op.read_op h = tt
  request_op-Forgets Op.write_op h = accepted-Forgets Op.write_op h
  request_op-Forgets Op.create h = accepted-Forgets Op.create h
  request_op-Forgets Op.mkdir h = accepted-Forgets Op.mkdir h
  request_op-Forgets Op.unlink h = accepted-Forgets Op.unlink h
  request_op-Forgets Op.rmdir h = accepted-Forgets Op.rmdir h
  request_op-Forgets Op.rename h = accepted-Forgets Op.rename h
  request_op-Forgets Op.truncate h = accepted-Forgets Op.truncate h
  request_op-Forgets Op.release h = tt
  request_op-Forgets Op.fsync h = tt
  request_op-Forgets Op.statfs h = tt
  request_op-Forgets Op.utimens h = accepted-Forgets Op.utimens h
  request_op-Forgets Op.chmod h = accepted-Forgets Op.chmod h
  request_op-Forgets Op.flush h = tt
  request_op-Forgets Op.access h = tt
  request_op-Forgets Op.invalidate h = tt
  request_op-Forgets (Op.unknown n) h = tt

  -- After an accepted CREATE, WRITE through a tracked handle, TRUNCATE or UNLINK the cache has no
  -- attributes, no blocks and no version of the file, and after a RENAME of both files; after a MKDIR,
  -- RMDIR, CHMOD or UTIMENS it has no attributes of the path. The listing of the parent is gone where
  -- an entry came or went, and with a RMDIR or a RENAME that of the path itself. Nothing is claimed of
  -- the attributes in the listing of a parent whose entries stay, which expire with it.
  pub request-Forgets :
      (request host op payload (s, w)).0.0 ≡ 0
      → Forgets (op_of op) payload s (request host op payload (s, w)).1.0
  unfolding request
  request-Forgets h = request_op-Forgets (op_of op) h
