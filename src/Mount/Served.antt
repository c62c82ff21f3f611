-- ===== src/Mount/Served.antt =====
-- The mounted file system over the requests of the server, client/src/fs/fuse_fs.cpp and
-- client/src/server/server.cpp, when nothing is lost between them.
pub mod Written
use folder_buddies.Base.{refl, ◌≡◌}
use folder_buddies.Base.{
  append-nil, sym, ap, arith, min, ◌∙◌, append_assoc, ◌%◌, ◌++◌, length, drop, take, ◌+◌, ◌≤◌, [],
  ◌^◌, some, ◌≡◌, ◌<◌, Bool, ℕ,
}
use folder_buddies.Base.Bytes.{Bytes, le_bytes}
use folder_buddies.Base.Map.{nat_key, find}
use folder_buddies.Mount.{returns, read_request, fs_read}
use folder_buddies.Mount.Reads.{fs_read-whole}
use folder_buddies.Server.Dispatch.{pair_of, dispatch, on_read}
use folder_buddies.Server.State.{
  Files, State, Status, success, einval, eacces, enoent, erofs, eio, ebadf, eexist, enosys, errno,
}
use folder_buddies.Wire.{put_pod, get_pod, max_io, pure}
use folder_buddies.Wire.Op.{Op, op_of, op_code}
use folder_buddies.Wire.RoundTrip.{field, get_pod-append}

abbrev pub status_code : Status → ℕ
status_code success = 0
status_code einval = 22
status_code eacces = 13
status_code enoent = 2
status_code erofs = 30
status_code eio = 5
status_code ebadf = 9
status_code eexist = 17
status_code enosys = 38
status_code (errno n) = n

-- `Reader` gets the fields of a read as `Writer` put them.
read_fields :
    (id off len : ℕ)
    → id < 2 ^ 64
    → off < 2 ^ 64
    → len < 2 ^ 32
    → pair_of (get_pod 8) (pair_of (get_pod 8) (get_pod 4)) (read_request id off len)
      ≡ (some (id, (off, len)), [])
unfolding read_request put_pod
read_fields id off len hid hoff hlen =
    let three : (le_bytes 8 id ++ le_bytes 8 off) ++ le_bytes 4 len
        ≡ le_bytes 8 id ++ (le_bytes 8 off ++ (le_bytes 4 len ++ [])) =
      append_assoc (le_bytes 8 id) (le_bytes 8 off) (le_bytes 4 len)
      ∙ ap (λ (l : Bytes). le_bytes 8 id ++ (le_bytes 8 off ++ l))
          (sym (append-nil (le_bytes 4 len))) in
    rw three (
      rw
        (
          get_pod-append 8 id (le_bytes 8 off ++ (le_bytes 4 len ++ [])) hid,
          get_pod-append 8 off (le_bytes 4 len ++ []) hoff,
          get_pod-append 4 len [] hlen,
        )
        refl)

module _ {S H : Type 0} (files : Files S H) (root : Bytes) (allow : Bool) where
  abbrev pub reply_to : Status × Bytes × State S H → (ℕ × Bytes) × State S H
  reply_to (status, reply, st) = ((status_code status, reply), st)

  -- A request and its reply.
  unfoldable pub serve : ℕ → Bytes → State S H → (ℕ × Bytes) × State S H
  serve op p st = reply_to (dispatch files root allow (op_of op) p st)

  -- Reads of the open file give these contents, at the offsets that `pread` takes.
  abbrev pub PreadsFile : H → Bytes → S → Type 0
  PreadsFile h content s =
      (len off : ℕ) → off < 2 ^ 63 → files.pread h len off s ≡ some (take len (drop off content))

  read_served :
      (id : ℕ) (h : H) (content : Bytes) (off len : ℕ) (st : State S H)
      → id < 2 ^ 64
      → off < 2 ^ 63
      → len ≤ max_io
      → find id st.handles ≡ some h
      → PreadsFile h content st.system
      → serve (op_code Op.read_op) (read_request id off len) st ≡ (
        (0, take len (drop off content)),
        record st { bytes_out = (st.bytes_out + length (take len (drop off content))) % 2 ^ 64 },
      )
  unfolding serve dispatch on_read op_of op_code
  read_served id h content off len st hid hoff hlen has reads =
      let few : min len max_io ≡ len = omega arith in
      rw
        (
          read_fields id off len hid (omega arith) (omega arith),
          on_read,
          has,
          few,
          reads len off hoff,
        )
        refl

  -- A read of less than 2 GiB from a file that the server has open returns the bytes of that file at
  -- the offset, `size` of them or those before the end of the file, and their number, when `pread`
  -- gives the file's bytes below 2^63; the handle is below 2^64 and the end of the read below 2^63.
  pub fs_read-served :
      (id : ℕ) (h : H) (content : Bytes) (off size : ℕ) (st : State S H)
      → id < 2 ^ 64
      → find id st.handles ≡ some h
      → PreadsFile h content st.system
      → off + size < 2 ^ 63
      → size < 2 ^ 31
      → (fs_read serve id off size st).0
        ≡ (returns (length (take size (drop off content))), take size (drop off content))
  fs_read-served id h content off size st hid has reads small int =
      fs_read-whole serve id content
        (λ st. (find id st.handles ≡ some h) × PreadsFile h content st.system)
        (λ off len st served hoff hlen.
          rw (read_served id h content off len st hid hoff hlen served.0 served.1) (refl, served))
        off size st (has, reads) small int
