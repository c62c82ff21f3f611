-- ===== src/Wire/Stream.antt =====
-- `ByteStream` and the framed messages over it, client/include/net/common.h; the memory stream of
-- client/src/crypto/crypto.cpp.
pub mod Laws
pub mod Socket
use folder_buddies.Base.{
  none, drop, [], length, false, ◌+◌, ◌++◌, ◌&&◌, take, leb, true, ◌==◌, some, if◌then◌else◌, Bool,
  Option, ℕ,
}
use folder_buddies.Base.Bytes.{Bytes}
use folder_buddies.Wire.{MsgHeader, magic_number, max_handshake_msg, header_bytes, get_header}

-- A stream by what `read` and `write` do to its state; `none` and `false` are failures.
pub record ByteStream (S : Type 0) : Type 0 where
  pub read : ℕ → S → Option Bytes × S
  pub write : Bytes → S → Bool × S

-- The payload of a message, as it was read.
abbrev with_header : {S : Type 0} → MsgHeader → Option Bytes × S → Option (MsgHeader × Bytes) × S
with_header h (none, s) = (none, s)
with_header h (some p, s) = (some (h, p), s)

module _ {S : Type 0} (stream : ByteStream S) where
  unfoldable pub send_message : ℕ → ℕ → ℕ → Bytes → ℕ → S → Bool × S
  send_message op status req_id payload len s =
      let h : MsgHeader = record {
        magic = magic_number;
        op = op;
        status = status;
        req_id = req_id;
        len = len;
      } in
      let (sent, s') = stream.write (header_bytes h) s in
      if sent
      then (if len == 0 then (true, s') else stream.write (take len payload) s')
      else (false, s')

  unfoldable pub recv_payload : MsgHeader → S → Option (MsgHeader × Bytes) × S
  recv_payload h s =
      if h.magic == magic_number && leb h.len max_handshake_msg
      then (if h.len == 0 then (some (h, []), s) else with_header h (stream.read h.len s))
      else (none, s)

  -- The header was read into memory that is a `MsgHeader`.
  unfoldable pub recv_parsed : Option Bytes × S → Option (MsgHeader × Bytes) × S
  recv_parsed (none, s) = (none, s)
  recv_parsed (some b, s) = elim ((get_header b).0) [ none ↦ (none, s) | some h ↦ recv_payload h s ]

  unfoldable pub recv_message : S → Option (MsgHeader × Bytes) × S
  recv_message s = recv_parsed (stream.read 20 s)

pub record Memory : Type 0 where
  pub bytes : Bytes
  pub offset : ℕ

unfoldable pub memory_read : ℕ → Memory → Option Bytes × Memory
memory_read size m =
    if leb (m.offset + size) (length m.bytes)
    then (some (take size (drop m.offset m.bytes)), record m { offset = m.offset + size })
    else (none, m)

unfoldable pub memory_write : Bytes → Memory → Bool × Memory
memory_write p m = (true, record m { bytes = m.bytes ++ p })

unfoldable pub memory_stream : ByteStream Memory
unfolding memory_read memory_write
memory_stream = record { read = memory_read; write = memory_write }
