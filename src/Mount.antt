-- ===== src/Mount.antt =====
-- The operations of the mounted file system, client/src/fs/fuse_fs.cpp, over any `RemoteFs`, and the
-- portable open flags of client/include/fs/osflags.h.
pub mod Transfer
pub mod Reads
pub mod Writes
pub mod Served
pub mod Entries
pub mod Place
use folder_buddies.Base.{
  inr, inl, ◌⊎◌, ℕ, zero, suc, ◌+◌, ◌-◌, ◌%◌, ◌^◌, min, bit_and, bit_or, Bool, true, false, not,
  ◌||◌, ◌&&◌, Option, none, some, List, [], ◌∷◌, ◌++◌, length, take, drop, ltb, leb, ◌==◌,
  if◌then◌else◌,
}
use folder_buddies.Base.Bytes.{Bytes}
use folder_buddies.Wire.{
  WireAttr, put_raw, put_pod, put_str, get_pod, get_str, get_attr, max_io, Parse, pure, ◌>>=◌,
  get_whole,
}
use folder_buddies.Client.{eio}
use folder_buddies.Wire.Op.{Op, op_code}

-- What an operation returns to the kernel: a count or 0, or an error number, which it negates.
pub data Return : Type 0 where
  returns : ℕ → Return
  fails : ℕ → Return

abbrev pub einval : ℕ
einval = 22

-- `struct stat` as `fill_stat` leaves it.
unfoldable pub fill_stat : WireAttr → WireAttr
fill_stat a = record a { nlink = if a.nlink == 0 then 1 else a.nlink }

-- The open flags of a system.
pub record OpenFlags : Type 0 where
  pub creat : ℕ
  pub excl : ℕ
  pub trunc : ℕ
  pub append : ℕ
  -- set on every file of a system that has it, 0 elsewhere
  pub binary : ℕ

abbrev pub portable_flags : OpenFlags
portable_flags = record {
  creat = 0x0100;
  excl = 0x0200;
  trunc = 0x0400;
  append = 0x0800;
  binary = 0;
}

abbrev with_flag : ℕ → ℕ → ℕ → ℕ → ℕ
with_flag f flag value r = if bit_and f flag == 0 then r else bit_or r value

-- The access mode and each flag that is set, from one system's values to another's.
unfoldable pub map_flags : OpenFlags → OpenFlags → ℕ → ℕ
map_flags from to f =
    let creat = with_flag f from.creat to.creat (bit_and f 3) in
    let excl = with_flag f from.excl to.excl creat in
    let trunc = with_flag f from.trunc to.trunc excl in with_flag f from.append to.append trunc

unfoldable pub to_portable_flags : OpenFlags → ℕ → ℕ
unfolding map_flags
to_portable_flags system f = map_flags system portable_flags f

unfoldable pub from_portable_flags : OpenFlags → ℕ → ℕ
unfolding map_flags
from_portable_flags system f = bit_or (map_flags portable_flags system f) system.binary

-- A string as `c_str` hands it over: up to the first zero byte.
unfoldable pub c_string : Bytes → Bytes
c_string [] = []
c_string (x ∷ xs) = let rest = c_string xs in if x == 0 then [] else x ∷ rest

-- A negative offset has its highest bit set.
abbrev pub negative : ℕ → Bool
negative off = leb (2 ^ 63) off

-- `static_cast<int>` of a count, 32 bits of which a negative one is an error number to the kernel.
unfoldable pub to_count : ℕ → Return
to_count n = let r = n % 2 ^ 32 in if ltb r (2 ^ 31) then returns r else fails (2 ^ 32 - r)

-- What is done so far, or the error if that is nothing.
abbrev pub so_far : ℕ → ℕ → Return
so_far transferred e = if transferred == 0 then fails e else to_count transferred

unfoldable pub read_request : ℕ → ℕ → ℕ → Bytes
read_request fh off chunk = put_pod 4 chunk (put_pod 8 off (put_pod 8 fh []))

unfoldable pub write_request : ℕ → ℕ → Bytes → ℕ → Bytes
write_request fh off p chunk = put_raw p chunk (put_pod 8 off (put_pod 8 fh []))

module _ {W : Type 0} (request : ℕ → Bytes → W → (ℕ × Bytes) × W) where
  -- A request of which only the status counts.
  unfoldable pub status_only : Op → Bytes → W → Return × W
  status_only op payload w =
      let ((status, resp), w') = request (op_code op) payload w in
      (if status == 0 then returns 0 else fails status, w')

  -- A request whose response is read; a response that is too short is EIO.
  unfoldable pub with_response : {A : Type 0} → Op → Bytes → Parse A → W → (ℕ ⊎ A) × W
  with_response op payload parse w =
      let ((status, resp), w') = request (op_code op) payload w in
      (
        if not (status == 0)
            then inl status
            else elim (parse resp).0 [ none ↦ inl eio | some a ↦ inr a ],
        w',
      )

  unfoldable pub fs_getattr : Bytes → W → (ℕ ⊎ WireAttr) × W
  unfolding with_response fill_stat
  fs_getattr path w =
      with_response Op.getattr (put_str path []) (do a ← get_attr; pure (fill_stat a)) w

  -- The names of a listing with their attributes, up to one that cannot be read or that the kernel's
  -- buffer refuses; `filler` tells whether it is full.
  module _ {B : Type 0} (filler : Bytes → Option WireAttr → B → Bool × B) where
    unfoldable pub fill_names : ℕ → Bytes → B → B
    unfolding c_string
    fill_names zero r b = b
    fill_names (suc n) r b =
        let (name, r') = get_str r in
        let (attr, rest) = get_attr r' in
        elim name [
          | none ↦ b
          | some name ↦ elim attr [
            | none ↦ b
            | some a ↦
                let (full, b') = filler (c_string name) (some (fill_stat a)) b in
                let more = fill_names n rest b' in if full then b' else more
          ]
        ]

    -- Behind the entries of the directory itself and its parent.
    unfoldable pub fill_listing : ℕ → Bytes → B → B
    unfolding fill_names
    fill_listing n r b =
        let (full1, b1) = filler (46 ∷ []) none b in
        let (full2, b2) = filler (46 ∷ 46 ∷ []) none b1 in
        if full1 then b1 else if full2 then b2 else fill_names n r b2

    unfoldable pub fs_readdir : Bytes → B → W → Return × (B × W)
    unfolding fill_listing
    fs_readdir path b w =
        let ((status, resp), w') = request (op_code Op.readdir) (put_str path []) w in
        let (count, r) = get_pod 4 resp in
        if not (status == 0) then (fails status, (b, w')) else elim count [
          | none ↦ (fails eio, (b, w'))
          | some n ↦ (returns 0, (fill_listing n r b, w'))
        ]

  -- The handle of an opened file.
  unfoldable pub do_open : OpenFlags → Bytes → ℕ → Op → ℕ → W → (ℕ ⊎ ℕ) × W
  unfolding with_response to_portable_flags
  do_open system path flags op mode w =
      with_response op
        (put_pod 4 mode (put_pod 4 (to_portable_flags system flags) (put_str path []))) (get_pod 8)
        w

  unfoldable pub fs_open : OpenFlags → Bytes → ℕ → W → (ℕ ⊎ ℕ) × W
  unfolding do_open
  fs_open system path flags w = do_open system path flags Op.open_op 0 w

  unfoldable pub fs_create : OpenFlags → Bytes → ℕ → ℕ → W → (ℕ ⊎ ℕ) × W
  unfolding do_open
  fs_create system path mode flags w =
      do_open system path (bit_or flags system.creat) Op.create mode w

  -- The loop of `fs_read`, with the bytes that are in the buffer so far. A round that goes on has read
  -- a whole chunk.
  unfoldable pub read_chunks : ℕ → ℕ → ℕ → ℕ → Bytes → W → (Return × Bytes) × W
  unfolding read_request
  read_chunks zero fh off size buf w = ((to_count (length buf), buf), w)
  read_chunks (suc fuel) fh off size buf w =
      let transferred = length buf in
      let chunk = min (size - transferred) max_io in
      let ((status, resp), w') =
        request (op_code Op.read_op) (read_request fh ((off + transferred) % 2 ^ 64) chunk) w in
      let more = read_chunks fuel fh off size (buf ++ resp) w' in
      if not (ltb transferred size)
      then ((to_count transferred, buf), w)
      else if not (status == 0)
      then ((so_far transferred status, buf), w')
      else if length resp == 0
      then ((to_count transferred, buf), w')
      else if ltb chunk (length resp)
      then ((so_far transferred eio, buf), w')
      else if ltb (length resp) chunk
      then ((to_count (transferred + length resp), buf ++ resp), w')
      else more

  unfoldable pub fs_read : ℕ → ℕ → ℕ → W → (Return × Bytes) × W
  unfolding read_chunks
  fs_read fh off size w =
      if negative off then ((fails einval, []), w) else read_chunks size fh off size [] w

  -- The loop of `fs_write`, with how much is written so far. A round that goes on has written a whole
  -- chunk.
  unfoldable pub write_chunks : ℕ → ℕ → ℕ → Bytes → ℕ → W → Return × W
  unfolding write_request
  write_chunks zero fh off buf transferred w = (to_count transferred, w)
  write_chunks (suc fuel) fh off buf transferred w =
      let chunk = min (length buf - transferred) max_io in
      let ((status, resp), w') =
        request (op_code Op.write_op)
          (write_request fh ((off + transferred) % 2 ^ 64) (drop transferred buf) chunk) w in
      let written = (get_pod 4 resp).0 in
      elim written [
        | none ↦
            if not (ltb transferred (length buf))
            then (to_count transferred, w)
            else if not (status == 0)
            then (so_far transferred status, w')
            else (so_far transferred eio, w')
        | some n ↦
            let more = write_chunks fuel fh off buf (transferred + n) w' in
            if not (ltb transferred (length buf))
            then (to_count transferred, w)
            else if not (status == 0)
            then (so_far transferred status, w')
            else if ltb chunk n || n == 0
            then (so_far transferred eio, w')
            else if ltb n chunk
            then (to_count (transferred + n), w')
            else more
      ]

  unfoldable pub fs_write : ℕ → Bytes → ℕ → W → Return × W
  unfolding write_chunks
  fs_write fh buf off w =
      if negative off then (fails einval, w) else write_chunks (length buf) fh off buf 0 w
