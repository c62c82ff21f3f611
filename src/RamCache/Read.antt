-- ===== src/RamCache/Read.antt =====
-- A read over cached blocks: the loop of `doRead`, client/src/fs/ram_cache.cpp, over whatever
-- `blockFetch` answers.
pub mod Whole
use folder_buddies.Base.{
  zero, ◌||◌, ◌&&◌, leb, ◌==◌, ltb, not, if◌then◌else◌, drop, take, ◌++◌, ◌-◌, min, ◌^◌, length,
  ◌/◌, ◌%◌, Bool, ◌+◌, suc, ℕ, none, some, [],
}
use folder_buddies.Base.Bytes.{Bytes}
use folder_buddies.Wire.{max_io}

-- What `blockFetch` leaves: its status, the bytes and whether they end the file.
pub record Fetched : Type 0 where
  pub status : ℕ
  pub bytes : Bytes
  pub eof : Bool

pub data Reply : Type 0 where
  failed : ℕ → Reply
  read : Bytes → Reply

module _ {S : Type 0} (fetch : ℕ → S → Fetched × S) where
  -- The loop, with `out` read so far. Each round that goes on has read a byte.
  unfoldable pub read_loop : ℕ → ℕ → ℕ → Bytes → S → Reply × S
  read_loop zero cur end out s = (read out, s)
  read_loop (suc fuel) cur end out s =
      let (got, s') = fetch (cur / max_io) s in
      let boff = cur % max_io in
      let len = length got.bytes in
      let n = min (end - cur) (len - boff) in
      let out' = out ++ take n (drop boff got.bytes) in
      let more = read_loop fuel (cur + n) end out' s' in
      if not (ltb cur end)
      then (read out, s)
      else if not (got.status == 0)
      then (failed got.status, s')
      else if leb len boff
      then (read out, s')
      else if leb len (boff + n) && (got.eof || ltb len max_io)
      then (read out', s')
      else more

  unfoldable pub read_blocks : ℕ → ℕ → S → Reply × S
  read_blocks off size s = read_loop size off ((off + size) % 2 ^ 64) [] s
