-- ===== src/Wire.antt =====
-- The payload serialisation of client/include/net/common.h: `Writer`, `Reader` and the packed
-- records. Integers are natural numbers below their width; a signed field is its bit pattern.
pub mod Op
pub mod RoundTrip
pub mod Stream
use folder_buddies.Base.{
  ℕ, ◌+◌, ◌*◌, ◌%◌, ◌^◌, ◌≤◌, ◌<◌, ◌≡◌, Option, none, some, List, [], ◌∷◌, ◌++◌,
}
use folder_buddies.Base.{length, take, drop, leb, if◌then◌else◌}
use folder_buddies.Base.Bytes.{Bytes, le_bytes, from_le}

abbrev pub magic_number : ℕ
magic_number = 0x46424459

abbrev pub protocol_version : ℕ
protocol_version = 2

-- kMaxIO and kMaxHandshakeMsg
abbrev pub max_io : ℕ
max_io = 2 ^ 20

abbrev pub max_handshake_msg : ℕ
max_handshake_msg = 64 * 1024

pub record MsgHeader : Type 0 where
  pub magic : ℕ
  pub op : ℕ
  pub status : ℕ
  pub req_id : ℕ
  pub len : ℕ

pub record WireAttr : Type 0 where
  pub ino : ℕ
  pub size : ℕ
  pub blocks : ℕ
  pub atime : ℕ
  pub mtime : ℕ
  pub ctime : ℕ
  pub mode : ℕ
  pub nlink : ℕ
  pub uid : ℕ
  pub gid : ℕ

-- `Writer`: the buffer `b` is the state, and each method returns it with more bytes behind it.
unfoldable pub put_raw : Bytes → ℕ → Bytes → Bytes
put_raw p n b = b ++ take n p

unfoldable pub put_pod : ℕ → ℕ → Bytes → Bytes
put_pod width v b = b ++ le_bytes width v

unfoldable pub put_str : Bytes → Bytes → Bytes
unfolding put_raw put_pod
put_str s b = let n = length s % 2 ^ 32 in put_raw s n (put_pod 4 n b)

unfoldable pub put_bytes : Bytes → ℕ → Bytes → Bytes
unfolding put_raw put_pod
put_bytes p n b = put_raw p n (put_pod 4 n b)

-- The memory of the packed records, field by field.
unfoldable pub header_bytes : MsgHeader → Bytes
header_bytes h =
    le_bytes 4 h.magic
    ++ (le_bytes 2 h.op ++ (le_bytes 2 h.status ++ (le_bytes 8 h.req_id ++ le_bytes 4 h.len)))

unfoldable pub attr_bytes : WireAttr → Bytes
attr_bytes a =
    le_bytes 8 a.ino
    ++ (le_bytes 8 a.size
        ++ (le_bytes 8 a.blocks
            ++ (le_bytes 8 a.atime
                ++ (le_bytes 8 a.mtime
                    ++ (le_bytes 8 a.ctime
                        ++ (le_bytes 4 a.mode
                            ++ (le_bytes 4 a.nlink ++ (le_bytes 4 a.uid ++ le_bytes 4 a.gid))))))))

-- `Reader`: the state is the bytes from `p` to `e`. A read that fails returns `none`; what it has
-- consumed until then stays consumed.
abbrev pub Parse {ℓ} : Type ℓ → Type ℓ
Parse A = Bytes → Option A × Bytes

module _ {ℓ} {A : Type ℓ} where
  abbrev pub pure : A → Parse A
  pure a r = (some a, r)

  abbrev pub fail : Parse A
  fail r = (none, r)

module _ {ℓ κ} {A : Type ℓ} {B : Type κ} where
  abbrev pub continue : Option A → (A → Parse B) → Parse B
  continue none f r = (none, r)
  continue (some a) f r = f a r

  -- A chain of reads joined by `||` on their failures.
  infixl 5 ◌>>=◌
  abbrev pub ◌>>=◌ : Parse A → (A → Parse B) → Parse B
  ◌>>=◌ m f r = let (o, r') = m r in continue o f r'

unfoldable pub get_raw : ℕ → Parse Bytes
get_raw n r = if leb n (length r) then (some (take n r), drop n r) else (none, r)

unfoldable pub get_pod : ℕ → Parse ℕ
get_pod width = do bs ← get_raw width; pure (from_le bs)

unfoldable pub get_str : Parse Bytes
get_str = do n ← get_pod 4; get_raw n

unfoldable pub get_bytes : Parse Bytes
get_bytes = do n ← get_pod 4; get_raw n

-- `pod` of a packed record copies all of it or nothing.
unfoldable pub get_whole {ℓ} : {A : Type ℓ} → ℕ → Parse A → Parse A
get_whole size fields r = if leb size (length r) then fields r else (none, r)

unfoldable pub get_header : Parse MsgHeader
get_header = get_whole 20 do
  magic ← get_pod 4
  op ← get_pod 2
  status ← get_pod 2
  req_id ← get_pod 8
  len ← get_pod 4
  pure (record { magic = magic; op = op; status = status; req_id = req_id; len = len })

unfoldable pub get_attr : Parse WireAttr
get_attr = get_whole 64 do
  ino ← get_pod 8
  size ← get_pod 8
  blocks ← get_pod 8
  atime ← get_pod 8
  mtime ← get_pod 8
  ctime ← get_pod 8
  mode ← get_pod 4
  nlink ← get_pod 4
  uid ← get_pod 4
  gid ← get_pod 4
  pure (record {
    ino = ino;
    size = size;
    blocks = blocks;
    atime = atime;
    mtime = mtime;
    ctime = ctime;
    mode = mode;
    nlink = nlink;
    uid = uid;
    gid = gid;
  })
