-- ===== src/Server/Dispatch.antt =====
-- The requests of an authenticated client: the `switch` of `Server::handleStream`,
-- client/src/server/server.cpp.
use folder_buddies.Base.{
  is_empty, ◌++◌, ◌^◌, length, ◌==◌, ◌%◌, ◌+◌, min, ◌&&◌, true, bit_and, ◌||◌, if◌then◌else◌, ◌/◌,
  false, not, List, Option, Bool, ℕ, none, some, [], ◌∷◌,
}
use folder_buddies.Base.Bytes.{Bytes}
use folder_buddies.Base.Map.{nat_key, find, insert, erase}
use folder_buddies.Server.Paths.{resolve, there, missing, unknown}
use folder_buddies.Server.State.{
  opened, broken, unchanged, enosys, errno, eexist, erofs, changed, refused, enoent, eacces, Opened,
  ebadf, success, eio, broadcast, Change, einval, Files, State, Status,
}
use folder_buddies.Wire.Op.{Op}
use folder_buddies.Wire.{
  put_str, attr_bytes, max_io, get_str, WireAttr, put_pod, get_pod, Parse, ◌>>=◌, pure,
}

abbrev pub has_flags : ℕ → ℕ → Bool
has_flags flags mask = not (bit_and flags mask == 0)

-- FB_O_WRONLY, FB_O_RDWR; FB_O_CREAT, FB_O_TRUNC and FB_O_APPEND together
abbrev pub opens_for_write : Bool → ℕ → Bool
opens_for_write creates flags =
    creates
    || bit_and flags 3 == 1
    || bit_and flags 3 == 2
    || has_flags flags (0x100 + 0x400 + 0x800)

abbrev pub path_arg : Bytes → Option Bytes
path_arg p = (get_str p).0

-- Two arguments of a request, and three.
abbrev pub pair_of {ℓ κ} : {A : Type ℓ} {B : Type κ} → Parse A → Parse B → Parse (A × B)
pair_of a b = do x ← a; y ← b; pure (x, y)

module _ {S H : Type 0} (files : Files S H) (root : Bytes) where
  abbrev pub Out : Type 0
  Out = Status × Bytes × State S H

  abbrev pub fail_with : Status → State S H → Out
  fail_with e st = (e, [], st)

  -- The absolute path of an argument.
  abbrev pub resolved : State S H → Bytes → Option Bytes
  resolved st path = resolve (files.answers st.system) root path

  -- A call that changed a path, or did not.
  abbrev pub announced : Status → Bytes → State S H → Out
  announced success path st = (success, [], record st { sessions = broadcast path st.sessions })
  announced e path st = (e, [], st)

  unfoldable pub on_getattr : Bytes → State S H → Out
  on_getattr p st = elim (path_arg p) [
    | none ↦ fail_with einval st
    | some path ↦ elim (resolved st path) [
      | none ↦ fail_with eacces st
      | some abs ↦ elim (files.attributes abs st.system) [
        | none ↦ fail_with enoent st
        | some a ↦ (success, attr_bytes a, st)
      ]
    ]
  ]

  abbrev pub put_entries : List (Bytes × WireAttr) → Bytes → Bytes
  put_entries [] b = b
  put_entries ((name, a) ∷ es) b = put_entries es (put_str name b ++ attr_bytes a)

  unfoldable pub on_readdir : Bytes → State S H → Out
  on_readdir p st = elim (path_arg p) [
    | none ↦ fail_with einval st
    | some path ↦ elim (resolved st path) [
      | none ↦ fail_with eacces st
      | some abs ↦ elim (files.entries abs st.system) [
        | none ↦ fail_with enoent st
        | some es ↦ (success, put_entries es (put_pod 4 (length es) []), st)
      ]
    ]
  ]

  -- The handle of an open file gets the next number.
  unfoldable pub add_handle : Bool → Bytes → Opened H × S → State S H → Out
  add_handle creates path (refused n, s) st =
      fail_with (if n == 0 then eio else errno n) (record st { system = s })
  add_handle creates path (opened h, s) st =
      let id = st.next_fh in
      let st' = record st {
        system = s;
        handles = insert id h st.handles;
        handle_paths = insert id path st.handle_paths;
        next_fh = (id + 1) % 2 ^ 64;
      } in
      (
        success,
        put_pod 8 id [],
        if creates then record st' { sessions = broadcast path st.sessions } else st',
      )

  unfoldable pub on_open : Bool → Bool → Bytes → State S H → Out
  on_open allow creates p st = elim ((pair_of get_str (pair_of (get_pod 4) (get_pod 4)) p).0) [
    | none ↦ fail_with einval st
    | some (path, (flags, mode)) ↦
        if opens_for_write creates flags && not allow
        then fail_with erofs st
        else elim (resolved st path) [
          | none ↦ fail_with eacces st
          | some abs ↦ add_handle creates path (files.open_file abs flags mode st.system) st
        ]
  ]

  unfoldable pub on_read : Bytes → State S H → Out
  on_read p st = elim ((pair_of (get_pod 8) (pair_of (get_pod 8) (get_pod 4)) p).0) [
    | none ↦ fail_with einval st
    | some (id, (off, size)) ↦ elim (find id st.handles) [
      | none ↦ fail_with ebadf st
      | some h ↦ elim (files.pread h (min size max_io) off st.system) [
        | none ↦ fail_with eio st
        | some got ↦ (success, got, record st { bytes_out = (st.bytes_out + length got) % 2 ^ 64 })
      ]
    ]
  ]

  -- What a write that went through leaves to do.
  unfoldable pub wrote : Option Bytes → Option ℕ × S → State S H → Out
  wrote path (none, s) st = fail_with eio (record st { system = s })
  wrote path (some n, s) st =
      let st' = record st { system = s; bytes_in = (st.bytes_in + n) % 2 ^ 64 } in
      elim path [
        | none ↦ (success, put_pod 4 n [], st')
        | some q ↦ (
          success,
          put_pod 4 n [],
          if is_empty q then st' else record st' { sessions = broadcast q st.sessions },
        )
      ]

  unfoldable pub on_write : Bool → Bytes → State S H → Out
  on_write allow p st =
      let (arg, rest) = pair_of (get_pod 8) (get_pod 8) p in
      if not allow then fail_with erofs st else elim arg [
        | none ↦ fail_with einval st
        | some (id, off) ↦ elim (find id st.handles) [
          | none ↦ fail_with ebadf st
          | some h ↦ wrote (find id st.handle_paths) (files.pwrite h rest off st.system) st
        ]
      ]

  unfoldable pub on_release : Bytes → State S H → Out
  on_release p st = elim ((get_pod 8 p).0) [
    | none ↦ fail_with einval st
    | some id ↦ (
      success,
      [],
      record st { handles = erase id st.handles; handle_paths = erase id st.handle_paths },
    )
  ]

  unfoldable pub on_fsync : Bytes → State S H → Out
  on_fsync p st = elim ((get_pod 8 p).0) [
    | none ↦ fail_with einval st
    | some id ↦ elim (find id st.handles) [
      | none ↦ (success, [], st)
      | some h ↦ (if files.fsync_data h st.system then success else eio, [], st)
    ]
  ]

  -- The reply to a change of a name, with the status of a change that was not needed.
  unfoldable pub named : Status → Bytes → Change × S → State S H → Out
  named idle path (changed, s) st = announced success path (record st { system = s })
  named idle path (unchanged, s) st = fail_with idle (record st { system = s })
  named idle path (broken, s) st = fail_with eio (record st { system = s })

  unfoldable pub on_mkdir : Bool → Bytes → State S H → Out
  on_mkdir allow p st =
      if not allow then fail_with erofs st else elim ((pair_of get_str (get_pod 4) p).0) [
        | none ↦ fail_with einval st
        | some (path, mode) ↦ elim (resolved st path) [
          | none ↦ fail_with eacces st
          | some abs ↦ named eexist path (files.create_directory abs st.system) st
        ]
      ]

  unfoldable pub on_remove : Bool → Bytes → State S H → Out
  on_remove allow p st = if not allow then fail_with erofs st else elim (path_arg p) [
    | none ↦ fail_with einval st
    | some path ↦ elim (resolved st path) [
      | none ↦ fail_with eacces st
      | some abs ↦ named enoent path (files.remove abs st.system) st
    ]
  ]

  -- A call that reports success or an error.
  unfoldable pub done_or : Status → Bytes → Bool × S → State S H → Out
  done_or e path (true, s) st = announced success path (record st { system = s })
  done_or e path (false, s) st = fail_with e (record st { system = s })

  unfoldable pub on_rename : Bool → Bytes → State S H → Out
  on_rename allow p st =
      if not allow then fail_with erofs st else elim ((pair_of get_str get_str p).0) [
        | none ↦ fail_with einval st
        | some (from, to) ↦ elim (resolved st from) [
          | none ↦ fail_with eacces st
          | some afrom ↦ elim (resolved st to) [
            | none ↦ fail_with eacces st
            | some ato ↦
                let (ok, s) = files.rename afrom ato st.system in
                let moved = record st {
                  system = s;
                  sessions = broadcast to (broadcast from st.sessions);
                } in
                if ok then (success, [], moved) else fail_with eio (record st { system = s })
          ]
        ]
      ]

  unfoldable pub on_truncate : Bool → Bytes → State S H → Out
  on_truncate allow p st =
      if not allow then fail_with erofs st else elim ((pair_of get_str (get_pod 8) p).0) [
        | none ↦ fail_with einval st
        | some (path, size) ↦ elim (resolved st path) [
          | none ↦ fail_with eacces st
          | some abs ↦ done_or eio path (files.resize_file abs size st.system) st
        ]
      ]

  -- The packed `WireStatvfs`.
  abbrev pub statvfs_bytes : ℕ × ℕ × ℕ → Bytes
  statvfs_bytes (capacity, free, available) = put_pod 8 255 (
      put_pod 8 0 (
        put_pod 8 0 (
          put_pod 8 (available / 4096) (
            put_pod 8 (free / 4096)
              (put_pod 8 (capacity / 4096) (put_pod 8 4096 (put_pod 8 4096 [])))))))

  unfoldable pub on_statfs : Bytes → State S H → Out
  on_statfs p st = elim (path_arg p) [
    | none ↦ fail_with einval st
    | some path ↦ elim (resolved st path) [
      | none ↦ fail_with eacces st
      | some abs ↦ (success, statvfs_bytes (files.space abs st.system), st)
    ]
  ]

  unfoldable pub on_access : Bool → Bytes → State S H → Out
  on_access allow p st = elim ((pair_of get_str (get_pod 4) p).0) [
    | none ↦ fail_with einval st
    | some (path, mode) ↦
        if not allow && has_flags mode 2 then fail_with erofs st else elim (resolved st path) [
          | none ↦ fail_with eacces st
          | some abs ↦ elim ((files.answers st.system).exists abs) [
            | there ↦ (success, [], st)
            | missing ↦ fail_with enoent st
            | unknown ↦ fail_with enoent st
          ]
        ]
  ]

  unfoldable pub on_chmod : Bool → Bytes → State S H → Out
  on_chmod allow p st =
      if not allow then fail_with erofs st else elim ((pair_of get_str (get_pod 4) p).0) [
        | none ↦ fail_with einval st
        | some (path, mode) ↦ elim (resolved st path) [
          | none ↦ fail_with eacces st
          | some abs ↦
              let (n, s) = files.chmod abs mode st.system in done_or (errno n) path (n == 0, s) st
        ]
      ]

  unfoldable pub on_utimens : Bool → Bytes → State S H → Out
  on_utimens allow p st =
      if not allow
      then fail_with erofs st
      else elim ((pair_of get_str (pair_of (get_pod 8) (get_pod 8)) p).0) [
        | none ↦ fail_with einval st
        | some (path, (atime, mtime)) ↦ elim (resolved st path) [
          | none ↦ fail_with eacces st
          | some abs ↦ done_or eio path (files.last_write_time abs mtime st.system) st
        ]
      ]

  unfoldable pub dispatch : Bool → Op → Bytes → State S H → Out
  dispatch allow Op.getattr p st = on_getattr p st
  dispatch allow Op.readdir p st = on_readdir p st
  dispatch allow Op.open_op p st = on_open allow false p st
  dispatch allow Op.create p st = on_open allow true p st
  dispatch allow Op.read_op p st = on_read p st
  dispatch allow Op.write_op p st = on_write allow p st
  dispatch allow Op.release p st = on_release p st
  dispatch allow Op.fsync p st = on_fsync p st
  dispatch allow Op.flush p st = (success, [], st)
  dispatch allow Op.mkdir p st = on_mkdir allow p st
  dispatch allow Op.unlink p st = on_remove allow p st
  dispatch allow Op.rmdir p st = on_remove allow p st
  dispatch allow Op.rename p st = on_rename allow p st
  dispatch allow Op.truncate p st = on_truncate allow p st
  dispatch allow Op.statfs p st = on_statfs p st
  dispatch allow Op.access p st = on_access allow p st
  dispatch allow Op.chmod p st = on_chmod allow p st
  dispatch allow Op.utimens p st = on_utimens allow p st
  dispatch allow Op.hello p st = fail_with enosys st
  dispatch allow Op.challenge p st = fail_with enosys st
  dispatch allow Op.auth p st = fail_with enosys st
  dispatch allow Op.auth_ok p st = fail_with enosys st
  dispatch allow Op.auth_fail p st = fail_with enosys st
  dispatch allow Op.invalidate p st = fail_with enosys st
  dispatch allow (Op.unknown n) p st = fail_with enosys st
