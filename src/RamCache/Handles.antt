-- ===== src/RamCache/Handles.antt =====
-- The open file handles that the cache tracks, client/src/fs/ram_cache.cpp: `FhInfo` and the `fh`
-- operations.
pub mod Close
use folder_buddies.Base.{
  not, ℕ, Bool, true, false, Option, none, some, List, [], ◌∷◌, if◌then◌else◌,
}
use folder_buddies.Base.Ints.{ℤ, pos, incr, decr, is_zero, is_positive}
use folder_buddies.Base.Bytes.{Bytes, bytes_eq}
use folder_buddies.Base.Map.{Map, find, insert, erase, nat_key}

pub record FhInfo : Type 0 where
  pub path : Bytes
  pub have_ver : Bool
  pub ver_at : ℕ
  pub size : ℕ
  pub mtime : ℕ
  pub last_end : ℕ
  pub seq_run : ℕ
  pub ra_window : ℕ
  pub active_reads : ℤ
  pub closing : Bool

abbrev pub fresh_info : Bytes → FhInfo
fresh_info path = record {
  path = path;
  have_ver = false;
  ver_at = 0;
  size = 0;
  mtime = 0;
  last_end = 0;
  seq_run = 0;
  ra_window = 0;
  active_reads = pos 0;
  closing = false;
}

abbrev pub Handles : Type 0
Handles = Map ℕ FhInfo

unfoldable pub fh_add : ℕ → Bytes → Handles → Handles
fh_add id path m = insert id (fresh_info path) m

unfoldable pub fh_remove : ℕ → Handles → Handles
fh_remove id m = erase id m

unfoldable pub fh_path : ℕ → Handles → Option Bytes
fh_path id m = elim (find id m) [ none ↦ none | some f ↦ some f.path ]

-- Whether the read may go on.
unfoldable pub fh_begin_read : ℕ → Handles → Bool × Handles
fh_begin_read id m = elim (find id m) [
  | none ↦ (false, m)
  | some f ↦
      if f.closing
      then (false, m)
      else (true, insert id (record f { active_reads = incr f.active_reads }) m)
]

unfoldable pub fh_end_read : ℕ → Handles → Handles
fh_end_read id m = elim (find id m) [
  | none ↦ m
  | some f ↦ insert id (record f { active_reads = decr f.active_reads }) m
]

-- Whether `fhEndRead` wakes the closes: behind the last read of the handle.
unfoldable pub fh_end_notifies : ℕ → Handles → Bool
fh_end_notifies id m = elim (find id m) [
  | none ↦ false
  | some f ↦ not (is_positive (decr f.active_reads))
]

-- `fhBeginClose` up to its wait.
unfoldable pub fh_mark_closing : ℕ → Handles → Handles
fh_mark_closing id m = elim (find id m) [
  | none ↦ m
  | some f ↦ insert id (record f { closing = true }) m
]

-- What `fhBeginClose` waits for: the test of `fhCv.wait`.
unfoldable pub fh_drained : ℕ → Handles → Bool
fh_drained id m = elim (find id m) [ none ↦ true | some f ↦ is_zero f.active_reads ]

unfoldable pub clear_fh_version : Bytes → Handles → Handles
clear_fh_version path [] = []
clear_fh_version path ((id, f) ∷ m) =
    let rest = clear_fh_version path m in
    if bytes_eq f.path path then (id, record f { have_ver = false }) ∷ rest else (id, f) ∷ rest

unfoldable pub rename_fh_paths : Bytes → Bytes → Handles → Handles
rename_fh_paths from to [] = []
rename_fh_paths from to ((id, f) ∷ m) =
    let rest = rename_fh_paths from to m in
    if bytes_eq f.path from
    then (id, record f { path = to; have_ver = false }) ∷ rest
    else (id, f) ∷ rest
