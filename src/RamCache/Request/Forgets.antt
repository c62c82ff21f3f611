-- ===== src/RamCache/Request/Forgets.antt =====
-- What a change drops from the cache, client/src/fs/ram_cache.cpp.
pub mod Accepted
use folder_buddies.Base.{
  ℕ, Bool, true, false, ◌==◌, ◌≡◌, refl, if◌then◌else◌, arith, All, List, [], ◌∷◌, Option, none,
  some, inl, inr, Bool-cases, Option-cases,
}
use folder_buddies.Base.Bytes.{Bytes, bytes_eq, bytes_eq_iff}
use folder_buddies.Base.Map.{Map, find, insert, erase, find-erase_self, bytes_key, nat_key}
use folder_buddies.Base.Totals.{find-erase-none}
use folder_buddies.RamCache.Blocks.{BlockCache, purge_file}
use folder_buddies.RamCache.Timed.{meta_erase, dir_erase}
use folder_buddies.RamCache.Handles.{Handles, FhInfo, clear_fh_version, rename_fh_paths, fh_add}
use folder_buddies.RamCache.State.{Ram, invalidate_file, drop_meta, drop_dir}

-- No tracked handle of the file has a version.
abbrev pub NoVersion : Bytes → Handles → Type 0
NoVersion path m = All (λ (e : ℕ × FhInfo). e.1.path ≡ path → e.1.have_ver ≡ false) m

abbrev pub NoAttr : Bytes → Ram → Type 0
NoAttr path s = (find path s.caches.meta ≡ none) × (find path s.caches.neg ≡ none)

abbrev pub NoListing : Bytes → Ram → Type 0
NoListing path s = find path s.caches.dir ≡ none

-- Nothing that the cache knew of a file is left.
abbrev pub Forgotten : Bytes → Ram → Type 0
Forgotten path s = NoAttr path s × (find path s.blocks.files ≡ none) × NoVersion path s.handles

purge_file-gone : (path : Bytes) (c : BlockCache) → find path (purge_file path c).files ≡ none
unfolding purge_file
purge_file-gone path c = elim (Option-cases (find path c.files)) [
  | inl absent ↦ rw (absent, purge_file, absent) refl
  | inr (f, present) ↦ rw (present, purge_file) (find-erase_self path c.files)
]

purge_file-none :
    (path other : Bytes) (c : BlockCache)
    → find other c.files ≡ none
    → find other (purge_file path c).files ≡ none
unfolding purge_file
purge_file-none path other c h = elim (Option-cases (find path c.files)) [
  | inl absent ↦ rw (absent, purge_file) h
  | inr (f, present) ↦ rw (present, purge_file) (find-erase-none path other c.files h)
]

NoVersion-clear : (path : Bytes) (m : Handles) → NoVersion path (clear_fh_version path m)
unfolding clear_fh_version
NoVersion-clear path [] = tt
NoVersion-clear path ((id, f) ∷ m) = elim (Bool-cases (bytes_eq f.path path)) [
  | inl hit ↦ rw hit (λ e. refl, NoVersion-clear path m)
  | inr miss ↦
      rw miss (λ e. cc (rw ((bytes_eq_iff f.path path).1 e) at miss), NoVersion-clear path m)
]

NoVersion-kept :
    (path other : Bytes) (m : Handles)
    → NoVersion other m
    → NoVersion other (clear_fh_version path m)
unfolding clear_fh_version
NoVersion-kept path other [] h = tt
NoVersion-kept path other ((id, f) ∷ m) h = elim (Bool-cases (bytes_eq f.path path)) [
  | inl hit ↦ rw hit (λ e. refl, NoVersion-kept path other m h.1)
  | inr miss ↦ rw miss (h.0, NoVersion-kept path other m h.1)
]

NoVersion-rename :
    (from to path : Bytes) (m : Handles)
    → NoVersion path m
    → NoVersion path (rename_fh_paths from to m)
unfolding rename_fh_paths
NoVersion-rename from to path [] h = tt
NoVersion-rename from to path ((id, f) ∷ m) h = elim (Bool-cases (bytes_eq f.path from)) [
  | inl hit ↦ rw hit (λ e. refl, NoVersion-rename from to path m h.1)
  | inr miss ↦ rw miss (h.0, NoVersion-rename from to path m h.1)
]

pub invalidate_file-Forgotten : (path : Bytes) (s : Ram) → Forgotten path (invalidate_file path s)
unfolding invalidate_file meta_erase
invalidate_file-Forgotten path s = (
  (find-erase_self path s.caches.meta, find-erase_self path s.caches.neg),
  purge_file-gone path s.blocks,
  NoVersion-clear path s.handles,
)

pub Forgotten-invalidate_file :
    (path other : Bytes) (s : Ram) → Forgotten other s → Forgotten other (invalidate_file path s)
unfolding invalidate_file meta_erase
Forgotten-invalidate_file path other s h = (
  (find-erase-none path other s.caches.meta h.0.0, find-erase-none path other s.caches.neg h.0.1),
  purge_file-none path other s.blocks h.1,
  NoVersion-kept path other s.handles h.2,
)

pub drop_dir-NoListing : (path : Bytes) (s : Ram) → NoListing path (drop_dir path s)
unfolding drop_dir dir_erase
drop_dir-NoListing path s = find-erase_self path s.caches.dir

pub NoListing-drop_dir :
    (path other : Bytes) (s : Ram) → NoListing other s → NoListing other (drop_dir path s)
unfolding drop_dir dir_erase
NoListing-drop_dir path other s h = find-erase-none path other s.caches.dir h

pub Forgotten-drop_dir :
    (path other : Bytes) (s : Ram) → Forgotten other s → Forgotten other (drop_dir path s)
unfolding drop_dir dir_erase
Forgotten-drop_dir path other s h = h

pub drop_meta-NoAttr : (path : Bytes) (s : Ram) → NoAttr path (drop_meta path s)
unfolding drop_meta meta_erase
drop_meta-NoAttr path s = (find-erase_self path s.caches.meta, find-erase_self path s.caches.neg)

pub NoAttr-drop_dir :
    (path other : Bytes) (s : Ram) → NoAttr other s → NoAttr other (drop_dir path s)
unfolding drop_dir dir_erase
NoAttr-drop_dir path other s h = h

pub Forgotten-rename_fh_paths :
    (from to path : Bytes) (s : Ram)
    → Forgotten path s
    → Forgotten path (record s { handles = rename_fh_paths from to s.handles })
Forgotten-rename_fh_paths from to path s h = (h.0, h.1, NoVersion-rename from to path s.handles h.2)
