-- ===== src/Server/ReadOnly.antt =====
-- A client without write access cannot change the share.
use folder_buddies.Wire.{max_io, get_str, get_pod}
use folder_buddies.Base.Bytes.{Bytes}
use folder_buddies.Base.{
  ◌&&◌, ◌∙◌, not, min, Bool-cases, sym, false≢true, Bool, Option-cases, ◌≡◌, ℕ, refl, [], inl, inr,
  false, true,
}
use folder_buddies.Base.Map.{find, nat_key, bytes_key}
use folder_buddies.Server.Paths.{Existence, there, missing, unknown}
use folder_buddies.Wire.Op.{Op}
use folder_buddies.Server.State.{enoent, success, Opened, Files, State, opened, refused}
use folder_buddies.Server.Dispatch.{
  on_utimens, has_flags, on_chmod, on_truncate, on_rename, fail_with, on_remove, on_mkdir, on_write,
  pair_of, resolved, path_arg, Out, dispatch, on_open, on_getattr, on_readdir, on_read, on_release,
  on_fsync, on_statfs, on_access, add_handle, opens_for_write,
}

-- Opening a file for reading, without creating it, does not change the file system.
abbrev pub QuietOpen : {S H : Type 0} → Files S H → Type 0
QuietOpen {S} files =
    (abs : Bytes) (flags mode : ℕ) (s : S)
    → opens_for_write false flags ≡ false
    → (files.open_file abs flags mode s).1 ≡ s

only_reads :
    (creates : Bool) (flags : ℕ)
    → opens_for_write creates flags ≡ false
    → opens_for_write false flags ≡ false
only_reads true flags h = absurd (false≢true (sym h))
only_reads false flags h = h

module _ {S H : Type 0} (files : Files S H) (root : Bytes) where
  abbrev Keeps : Out files root → State S H → Type 0
  Keeps out st = out.2.system ≡ st.system

  add_handle-system :
      (creates : Bool) (path : Bytes) (o : Opened H × S) (st : State S H)
      → (add_handle files root creates path o st).2.system ≡ o.1
  unfolding add_handle
  add_handle-system creates path (refused n, s) st = refl
  add_handle-system true path (opened h, s) st = refl
  add_handle-system false path (opened h, s) st = refl

  on_getattr-Keeps : (p : Bytes) (st : State S H) → Keeps (on_getattr files root p st) st
  unfolding on_getattr
  on_getattr-Keeps p st = elim (Option-cases (path_arg p)) [
    | inl bad ↦ rw (bad, on_getattr) refl
    | inr (path, ok) ↦ elim (Option-cases (resolved files root st path)) [
      | inl outside ↦ rw (ok, outside, on_getattr) refl
      | inr (abs, inside) ↦ elim (Option-cases (files.attributes abs st.system)) [
        | inl gone ↦ rw (ok, inside, gone, on_getattr) refl
        | inr (a, known) ↦ rw (ok, inside, known, on_getattr) refl
      ]
    ]
  ]

  on_readdir-Keeps : (p : Bytes) (st : State S H) → Keeps (on_readdir files root p st) st
  unfolding on_readdir
  on_readdir-Keeps p st = elim (Option-cases (path_arg p)) [
    | inl bad ↦ rw (bad, on_readdir) refl
    | inr (path, ok) ↦ elim (Option-cases (resolved files root st path)) [
      | inl outside ↦ rw (ok, outside, on_readdir) refl
      | inr (abs, inside) ↦ elim (Option-cases (files.entries abs st.system)) [
        | inl gone ↦ rw (ok, inside, gone, on_readdir) refl
        | inr (es, listed) ↦ rw (ok, inside, listed, on_readdir) refl
      ]
    ]
  ]

  on_statfs-Keeps : (p : Bytes) (st : State S H) → Keeps (on_statfs files root p st) st
  unfolding on_statfs
  on_statfs-Keeps p st = elim (Option-cases (path_arg p)) [
    | inl bad ↦ rw (bad, on_statfs) refl
    | inr (path, ok) ↦ elim (Option-cases (resolved files root st path)) [
      | inl outside ↦ rw (ok, outside, on_statfs) refl
      | inr (abs, inside) ↦ rw (ok, inside, on_statfs) refl
    ]
  ]

  on_read-Keeps : (p : Bytes) (st : State S H) → Keeps (on_read files root p st) st
  unfolding on_read
  on_read-Keeps p st =
      elim (Option-cases ((pair_of (get_pod 8) (pair_of (get_pod 8) (get_pod 4)) p).0)) [
        | inl bad ↦ rw (bad, on_read) refl
        | inr ((id, (off, size)), ok) ↦ elim (Option-cases (find id st.handles)) [
          | inl closed ↦ rw (ok, closed, on_read) refl
          | inr (h, live) ↦ elim (Option-cases (files.pread h (min size max_io) off st.system)) [
            | inl broken ↦ rw (ok, live, broken, on_read) refl
            | inr (got, fine) ↦ rw (ok, live, fine, on_read) refl
          ]
        ]
      ]

  on_release-Keeps : (p : Bytes) (st : State S H) → Keeps (on_release files root p st) st
  unfolding on_release
  on_release-Keeps p st = elim (Option-cases ((get_pod 8 p).0)) [
    | inl bad ↦ rw (bad, on_release) refl
    | inr (id, ok) ↦ rw (ok, on_release) refl
  ]

  on_fsync-Keeps : (p : Bytes) (st : State S H) → Keeps (on_fsync files root p st) st
  unfolding on_fsync
  on_fsync-Keeps p st = elim (Option-cases ((get_pod 8 p).0)) [
    | inl bad ↦ rw (bad, on_fsync) refl
    | inr (id, ok) ↦ elim (Option-cases (find id st.handles)) [
      | inl closed ↦ rw (ok, closed, on_fsync) refl
      | inr (h, live) ↦ rw (ok, live, on_fsync) refl
    ]
  ]

  by_existence :
      (abs : Bytes) (st : State S H) (e : Existence)
      → Keeps
          (elim e [
            | there ↦ (success, [], st)
            | missing ↦ fail_with files root enoent st
            | unknown ↦ fail_with files root enoent st
          ])
          st
  by_existence abs st there = refl
  by_existence abs st missing = refl
  by_existence abs st unknown = refl

  on_access-Keeps :
      (allow : Bool) (p : Bytes) (st : State S H) → Keeps (on_access files root allow p st) st
  unfolding on_access
  on_access-Keeps allow p st = elim (Option-cases ((pair_of get_str (get_pod 4) p).0)) [
    | inl bad ↦ rw (bad, on_access) refl
    | inr ((path, mode), ok) ↦ elim (Bool-cases (not allow && has_flags mode 2)) [
      | inl denied ↦ rw (ok, denied, on_access) refl
      | inr fine ↦ elim (Option-cases (resolved files root st path)) [
        | inl outside ↦ rw (ok, fine, outside, on_access) refl
        | inr (abs, inside) ↦
            rw (ok, fine, inside, on_access)
              (by_existence abs st ((files.answers st.system).exists abs))
      ]
    ]
  ]

  on_open-Keeps :
      (creates : Bool) (p : Bytes) (st : State S H)
      → QuietOpen files
      → Keeps (on_open files root false creates p st) st
  unfolding on_open
  on_open-Keeps creates p st quiet =
      elim (Option-cases ((pair_of get_str (pair_of (get_pod 4) (get_pod 4)) p).0)) [
        | inl bad ↦ rw (bad, on_open) refl
        | inr ((path, (flags, mode)), ok) ↦ elim (Bool-cases (opens_for_write creates flags)) [
          | inl writes ↦ rw (ok, writes, on_open) refl
          | inr reads ↦ elim (Option-cases (resolved files root st path)) [
            | inl outside ↦ rw (ok, reads, outside, on_open) refl
            | inr (abs, inside) ↦
                rw (ok, reads, inside, on_open)
                  (add_handle-system creates path (files.open_file abs flags mode st.system) st
                    ∙ quiet abs flags mode st.system (only_reads creates flags reads))
          ]
        ]
      ]

-- Without write access, no request of any kind, however it is formed, changes the file system, if
-- opening a file for reading does not.
pub dispatch-read_only :
    {S H : Type 0} (files : Files S H) (root : Bytes) (op : Op) (p : Bytes) (st : State S H)
    → QuietOpen files
    → (dispatch files root false op p st).2.system ≡ st.system
unfolding dispatch on_write on_mkdir on_remove on_rename on_truncate on_chmod on_utimens
dispatch-read_only files root Op.getattr p st q = on_getattr-Keeps files root p st
dispatch-read_only files root Op.readdir p st q = on_readdir-Keeps files root p st
dispatch-read_only files root Op.open_op p st q = on_open-Keeps files root false p st q
dispatch-read_only files root Op.create p st q = on_open-Keeps files root true p st q
dispatch-read_only files root Op.read_op p st q = on_read-Keeps files root p st
dispatch-read_only files root Op.release p st q = on_release-Keeps files root p st
dispatch-read_only files root Op.fsync p st q = on_fsync-Keeps files root p st
dispatch-read_only files root Op.statfs p st q = on_statfs-Keeps files root p st
dispatch-read_only files root Op.access p st q = on_access-Keeps files root false p st
dispatch-read_only files root Op.write_op p st q = refl
dispatch-read_only files root Op.mkdir p st q = refl
dispatch-read_only files root Op.unlink p st q = refl
dispatch-read_only files root Op.rmdir p st q = refl
dispatch-read_only files root Op.rename p st q = refl
dispatch-read_only files root Op.truncate p st q = refl
dispatch-read_only files root Op.chmod p st q = refl
dispatch-read_only files root Op.utimens p st q = refl
dispatch-read_only files root Op.flush p st q = refl
dispatch-read_only files root Op.hello p st q = refl
dispatch-read_only files root Op.challenge p st q = refl
dispatch-read_only files root Op.auth p st q = refl
dispatch-read_only files root Op.auth_ok p st q = refl
dispatch-read_only files root Op.auth_fail p st q = refl
dispatch-read_only files root Op.invalidate p st q = refl
dispatch-read_only files root (Op.unknown n) p st q = refl
