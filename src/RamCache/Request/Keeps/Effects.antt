-- ===== src/RamCache/Request/Keeps/Effects.antt =====
-- What the effects of changes, of attributes and of listings keep, client/src/fs/ram_cache.cpp.
use folder_buddies.Base.{ℕ, zero, suc, inl, inr, Option-cases, []}
use folder_buddies.Base.Bytes.{Bytes}
use folder_buddies.Wire.{WireAttr, get_str, get_attr, get_pod}
use folder_buddies.Wire.Op.{Op}
use folder_buddies.RamCache.Names.{parent_of, join_path}
use folder_buddies.RamCache.Timed.{
  Caches, meta_erase, dir_erase, meta_store, meta_lookup, neg_lookup, neg_store, dir_lookup,
  dir_store,
}
use folder_buddies.RamCache.Timed.Laws.{Bounded, Caches-Bounded}
use folder_buddies.RamCache.Blocks.Valid.Purge.{purge_file-Valid}
use folder_buddies.RamCache.Handles.{fh_path}
use folder_buddies.RamCache.State.{Ram, invalidate_file, drop_meta, drop_dir}
use folder_buddies.RamCache.Request.{
  read_path, read_handle, read_target, store_listed, store_listing, open_done, create_done,
  write_done, unlink_done, rmdir_done, mkdir_done, rename_done, effect_of,
}
use folder_buddies.RamCache.Request.Keeps.{WellFormed}

-- The bounds of each cache operation on its own.
module _ (path : Bytes) (c : Caches) (b : Bounded c) where
  any_attr : WireAttr
  any_attr = record {
    ino = 0;
    size = 0;
    blocks = 0;
    atime = 0;
    mtime = 0;
    ctime = 0;
    mode = 0;
    nlink = 0;
    uid = 0;
    gid = 0;
  }

  pub meta_store-Bounded : (now : ℕ) (a : WireAttr) → Bounded (meta_store now path a c)
  meta_store-Bounded now a = (Caches-Bounded now path a [] c b).1

  meta_erase-Bounded : Bounded (meta_erase path c)
  meta_erase-Bounded = (Caches-Bounded 0 path any_attr [] c b).2

  pub meta_lookup-Bounded : (now : ℕ) → Bounded (meta_lookup now path c).1
  meta_lookup-Bounded now = (Caches-Bounded now path any_attr [] c b).0

  pub neg_lookup-Bounded : (now : ℕ) → Bounded (neg_lookup now path c).1
  neg_lookup-Bounded now = (Caches-Bounded now path any_attr [] c b).3

  pub neg_store-Bounded : (now : ℕ) → Bounded (neg_store now path c)
  neg_store-Bounded now = (Caches-Bounded now path any_attr [] c b).4

  pub dir_lookup-Bounded : (now : ℕ) → Bounded (dir_lookup now path c).1
  dir_lookup-Bounded now = (Caches-Bounded now path any_attr [] c b).5

  dir_store-Bounded : (now : ℕ) (resp : Bytes) → Bounded (dir_store now path resp c)
  dir_store-Bounded now resp = (Caches-Bounded now path any_attr resp c b).6

  dir_erase-Bounded : Bounded (dir_erase path c)
  dir_erase-Bounded = (Caches-Bounded 0 path any_attr [] c b).7

-- The well-formed states of a changed part.
pub with_caches :
    (s : Ram) (c : Caches) → WellFormed s → Bounded c → WellFormed (record s { caches = c })
with_caches s c v b = record { blocks = v.blocks; caches = b; queue = v.queue }

invalidate_file-kept : (path : Bytes) (s : Ram) → WellFormed s → WellFormed (invalidate_file path s)
unfolding invalidate_file
invalidate_file-kept path s v = record {
  blocks = (purge_file-Valid path s.blocks v.blocks).0;
  caches = meta_erase-Bounded path s.caches v.caches;
  queue = v.queue;
}

drop_meta-kept : (path : Bytes) (s : Ram) → WellFormed s → WellFormed (drop_meta path s)
unfolding drop_meta
drop_meta-kept path s v = with_caches s _ v (meta_erase-Bounded path s.caches v.caches)

drop_dir-kept : (path : Bytes) (s : Ram) → WellFormed s → WellFormed (drop_dir path s)
unfolding drop_dir
drop_dir-kept path s v = with_caches s _ v (dir_erase-Bounded path s.caches v.caches)

store_listed-Bounded :
    (n now : ℕ) (path r : Bytes) (c : Caches) → Bounded c → Bounded (store_listed n now path r c)
unfolding store_listed
store_listed-Bounded zero now path r c b = b
store_listed-Bounded (suc n) now path r c b =
    let (name, r') = get_str r in
    let (attr, rest) = get_attr r' in
    elim (Option-cases name) [
      | inl broken ↦ rw (broken, store_listed) b
      | inr (x, e) ↦ elim (Option-cases attr) [
        | inl broken ↦ rw (e, broken, store_listed) b
        | inr (a, e2) ↦
            rw (e, e2, store_listed)
              (store_listed-Bounded n now path rest _
                (meta_store-Bounded (join_path path x) c b now a))
      ]
    ]

pub store_listing-Bounded :
    (now : ℕ) (path resp : Bytes) (c : Caches) → Bounded c → Bounded (store_listing now path resp c)
unfolding store_listing
store_listing-Bounded now path resp c b =
    let (count, r) = get_pod 4 resp in
    let stored = dir_store-Bounded path c b now resp in
    elim (Option-cases count) [
      | inl broken ↦ rw (broken, store_listing) stored
      | inr (n, e) ↦ rw (e, store_listing) (store_listed-Bounded n now path r _ stored)
    ]

open_done-kept :
    (payload resp : Bytes) (s : Ram) → WellFormed s → WellFormed (open_done payload resp s)
unfolding open_done
open_done-kept payload resp s v = elim (Option-cases (get_pod 8 resp).0) [
  | inl broken ↦ rw (broken, open_done) v
  | inr (id, e) ↦
      rw (e, open_done) (record { blocks = v.blocks; caches = v.caches; queue = v.queue })
]

write_done-kept : (payload : Bytes) (s : Ram) → WellFormed s → WellFormed (write_done payload s)
unfolding write_done
write_done-kept payload s v = elim (Option-cases (fh_path (read_handle payload) s.handles)) [
  | inl absent ↦ rw (absent, write_done) v
  | inr (path, e) ↦ rw (e, write_done) (invalidate_file-kept path s v)
]

rename_done-kept : (payload : Bytes) (s : Ram) → WellFormed s → WellFormed (rename_done payload s)
unfolding rename_done
rename_done-kept payload s v =
    let from : Bytes = read_path payload in
    let to : Bytes = read_target payload in
    let w = drop_dir-kept (parent_of to) _ (
      drop_dir-kept (parent_of from) _ (
        drop_dir-kept to _
          (drop_dir-kept from _ (invalidate_file-kept to _ (invalidate_file-kept from s v))))) in
    record { blocks = w.blocks; caches = w.caches; queue = w.queue }

pub effect_of-kept :
    (o : Op) (payload resp : Bytes) (s : Ram)
    → WellFormed s
    → WellFormed (effect_of o payload resp s)
unfolding effect_of create_done unlink_done rmdir_done mkdir_done
effect_of-kept Op.hello payload resp s v = v
effect_of-kept Op.challenge payload resp s v = v
effect_of-kept Op.auth payload resp s v = v
effect_of-kept Op.auth_ok payload resp s v = v
effect_of-kept Op.auth_fail payload resp s v = v
effect_of-kept Op.getattr payload resp s v = v
effect_of-kept Op.readdir payload resp s v = v
effect_of-kept Op.open_op payload resp s v = open_done-kept payload resp s v
effect_of-kept Op.read_op payload resp s v = v
effect_of-kept Op.write_op payload resp s v = write_done-kept payload s v
effect_of-kept Op.create payload resp s v =
    drop_dir-kept _ _ (invalidate_file-kept _ _ (open_done-kept payload resp s v))
effect_of-kept Op.mkdir payload resp s v = drop_dir-kept _ _ (drop_meta-kept _ s v)
effect_of-kept Op.unlink payload resp s v = drop_dir-kept _ _ (invalidate_file-kept _ s v)
effect_of-kept Op.rmdir payload resp s v =
    drop_dir-kept _ _ (drop_dir-kept _ _ (drop_meta-kept _ s v))
effect_of-kept Op.rename payload resp s v = rename_done-kept payload s v
effect_of-kept Op.truncate payload resp s v = invalidate_file-kept _ s v
effect_of-kept Op.release payload resp s v = v
effect_of-kept Op.fsync payload resp s v = v
effect_of-kept Op.statfs payload resp s v = v
effect_of-kept Op.utimens payload resp s v = drop_meta-kept _ s v
effect_of-kept Op.chmod payload resp s v = drop_meta-kept _ s v
effect_of-kept Op.flush payload resp s v = v
effect_of-kept Op.access payload resp s v = v
effect_of-kept Op.invalidate payload resp s v = v
effect_of-kept (Op.unknown n) payload resp s v = v
