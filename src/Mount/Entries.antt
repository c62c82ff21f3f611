-- ===== src/Mount/Entries.antt =====
-- The operations of the mounted file system on directory entries and attributes,
-- client/src/fs/fuse_fs.cpp: `fs_release` to `fs_utimens`. A signed number of the kernel's is its 64 bits.
use folder_buddies.Base.{◌-◌, ℕ, ◌^◌, Option, none, some, [], ◌==◌, if◌then◌else◌, ◌⊎◌}
use folder_buddies.Base.Bytes.{Bytes}
use folder_buddies.Wire.{put_pod, put_str, get_pod, get_whole, Parse, pure, ◌>>=◌}
use folder_buddies.Wire.Op.{Op}
use folder_buddies.Mount.{Return, returns, fails, einval, negative, status_only, with_response}

-- WireStatvfs
pub record WireStatvfs : Type 0 where
  pub bsize : ℕ
  pub frsize : ℕ
  pub blocks : ℕ
  pub bfree : ℕ
  pub bavail : ℕ
  pub files : ℕ
  pub ffree : ℕ
  pub namemax : ℕ

unfoldable pub get_statvfs : Parse WireStatvfs
get_statvfs = get_whole 64 do
  bsize ← get_pod 8
  frsize ← get_pod 8
  blocks ← get_pod 8
  bfree ← get_pod 8
  bavail ← get_pod 8
  files ← get_pod 8
  ffree ← get_pod 8
  namemax ← get_pod 8
  pure (record {
    bsize = bsize;
    frsize = frsize;
    blocks = blocks;
    bfree = bfree;
    bavail = bavail;
    files = files;
    ffree = ffree;
    namemax = namemax;
  })

-- `struct timespec`
pub record Timespec : Type 0 where
  pub sec : ℕ
  pub nsec : ℕ

-- The values of `tv_nsec` that stand for the current time and for a time that is left as it is.
abbrev pub utime_now : ℕ
utime_now = 2 ^ 30 - 1

abbrev pub utime_omit : ℕ
utime_omit = 2 ^ 30 - 2

unfoldable pub pick : ℕ → Timespec → ℕ
pick now ts = if ts.nsec == utime_now then now else ts.sec

module _ {W : Type 0} (request : ℕ → Bytes → W → (ℕ × Bytes) × W) where
  unfoldable pub fs_fh_only : Op → ℕ → W → Return × W
  unfolding status_only
  fs_fh_only op fh w = status_only request op (put_pod 8 fh []) w

  unfoldable pub fs_release : ℕ → W → Return × W
  unfolding fs_fh_only
  fs_release fh w = fs_fh_only Op.release fh w

  unfoldable pub fs_flush : ℕ → W → Return × W
  unfolding fs_fh_only
  fs_flush fh w = fs_fh_only Op.flush fh w

  unfoldable pub fs_fsync : ℕ → W → Return × W
  unfolding status_only
  fs_fsync fh w = status_only request Op.fsync (put_pod 8 fh []) w

  unfoldable pub fs_path_only : Op → Bytes → W → Return × W
  unfolding status_only
  fs_path_only op path w = status_only request op (put_str path []) w

  unfoldable pub fs_unlink : Bytes → W → Return × W
  unfolding fs_path_only
  fs_unlink path w = fs_path_only Op.unlink path w

  unfoldable pub fs_rmdir : Bytes → W → Return × W
  unfolding fs_path_only
  fs_rmdir path w = fs_path_only Op.rmdir path w

  unfoldable pub fs_mkdir : Bytes → ℕ → W → Return × W
  unfolding status_only
  fs_mkdir path mode w = status_only request Op.mkdir (put_pod 4 mode (put_str path [])) w

  unfoldable pub fs_rename : Bytes → Bytes → W → Return × W
  unfolding status_only
  fs_rename old_path new_path w =
      status_only request Op.rename (put_str new_path (put_str old_path [])) w

  unfoldable pub fs_truncate : Bytes → ℕ → W → Return × W
  unfolding status_only
  fs_truncate path size w =
      if negative size
      then (fails einval, w)
      else status_only request Op.truncate (put_pod 8 size (put_str path [])) w

  unfoldable pub fs_statfs : Bytes → W → (ℕ ⊎ WireStatvfs) × W
  unfolding with_response get_statvfs
  fs_statfs path w = with_response request Op.statfs (put_str path []) get_statvfs w

  unfoldable pub fs_access : Bytes → ℕ → W → Return × W
  unfolding status_only
  fs_access path mode w = status_only request Op.access (put_pod 4 mode (put_str path [])) w

  unfoldable pub fs_chmod : Bytes → ℕ → W → Return × W
  unfolding status_only
  fs_chmod path mode w = status_only request Op.chmod (put_pod 4 mode (put_str path [])) w

  -- At the time `now`; without times, both are set to it.
  unfoldable pub fs_utimens : ℕ → Bytes → Option (Timespec × Timespec) → W → Return × W
  unfolding status_only pick
  fs_utimens now path none w =
      status_only request Op.utimens (put_pod 8 now (put_pod 8 now (put_str path []))) w
  fs_utimens now path (some (access, modified)) w =
      if modified.nsec == utime_omit
      then (returns 0, w)
      else status_only request Op.utimens
          (put_pod 8 (pick now modified) (put_pod 8 (pick now access) (put_str path []))) w
