-- ===== src/Crypto/Channel.antt =====
-- `SecureChannel`, client/include/crypto/crypto.h and client/src/crypto/crypto.cpp, over any stream.
pub mod RoundTrip
pub mod Session
pub mod Nonce
use folder_buddies.Wire.{header_bytes, magic_number, get_header, MsgHeader}
use folder_buddies.Base.Bytes.{from_le, le_bytes, Bytes}
use folder_buddies.Base.{
  ◌&&◌, ◌||◌, ◌==◌, drop, false, ltb, none, replicate, take, ◌-◌, [], ◌++◌, if◌then◌else◌, some,
  length, ◌%◌, ◌^◌, Bool, true, ◌+◌, ◌*◌, Option, ℕ,
}
use folder_buddies.Wire.Stream.{ByteStream, send_message, recv_message}
use folder_buddies.Crypto.Aead.{aead_encrypt, aead_decrypt}

-- kMaxRecord
abbrev pub max_record : ℕ
max_record = 256 * 2 ^ 20

pub record SecureChannel : Type 0 where
  pub tx_key : Bytes
  pub rx_key : Bytes
  pub tx_ctr : ℕ
  pub rx_ctr : ℕ
  pub active : Bool

unfoldable pub activate : Bytes → Bytes → SecureChannel → SecureChannel
activate tx rx c = record { tx_key = tx; rx_key = rx; tx_ctr = 0; rx_ctr = 0; active = true }

unfoldable pub nonce_from_counter : ℕ → Bytes
nonce_from_counter ctr = le_bytes 8 ctr ++ replicate 4 0

-- `txCtr_++` of a `uint64_t`.
abbrev pub next_ctr : ℕ → ℕ
next_ctr n = (n + 1) % 2 ^ 64

-- The sealed record of a message: ciphertext and tag.
unfoldable pub seal_record : Bytes → ℕ → MsgHeader → Bytes → Bytes
seal_record key ctr h payload =
    let (ct, tag) = aead_encrypt key (nonce_from_counter ctr) [] (header_bytes h ++ payload) in
    ct ++ tag

-- Header and payload of a decrypted record.
unfoldable pub open_plain : Bytes → Option (MsgHeader × Bytes)
open_plain plain = elim ((get_header plain).0) [
  | none ↦ none
  | some h ↦
      if h.magic == magic_number && h.len == length plain - 20
      then some (h, drop 20 plain)
      else none
]

unfoldable pub open_record : Bytes → ℕ → Bytes → Option (MsgHeader × Bytes)
open_record key ctr rec =
    let plain_len = length rec - 16 in
    elim (aead_decrypt key (nonce_from_counter ctr) [] (take plain_len rec) (drop plain_len rec)) [
      | none ↦ none
      | some plain ↦ open_plain plain
    ]

module _ {S : Type 0} (stream : ByteStream S) where
  -- The result, the channel and the stream.
  unfoldable pub send : ℕ → ℕ → ℕ → Bytes → ℕ → SecureChannel → S → Bool × SecureChannel × S
  send op status req_id payload len c s =
      let h : MsgHeader = record {
        magic = magic_number;
        op = op;
        status = status;
        req_id = req_id;
        len = len;
      } in
      let rec = seal_record c.tx_key c.tx_ctr h (take len payload) in
      let c' = record c { tx_ctr = next_ctr c.tx_ctr } in
      let (plain, s0) = send_message stream op status req_id payload len s in
      let (first, s1) = stream.write (le_bytes 4 (length rec)) s in
      let (second, s2) = stream.write rec s1 in
      if c.active then (if first then (second, c', s2) else (false, c', s1)) else (plain, c, s0)

  -- The record, once its length is known to be allowed.
  unfoldable pub recv_record :
      SecureChannel → Option Bytes × S → Option (MsgHeader × Bytes) × SecureChannel × S
  recv_record c (none, s) = (none, c, s)
  recv_record c (some rec, s) =
      (open_record c.rx_key c.rx_ctr rec, record c { rx_ctr = next_ctr c.rx_ctr }, s)

  unfoldable pub recv_length :
      SecureChannel → Option Bytes × S → Option (MsgHeader × Bytes) × SecureChannel × S
  recv_length c (none, s) = (none, c, s)
  recv_length c (some lenbuf, s) =
      let rec_len = from_le lenbuf in
      if ltb rec_len 36 || ltb max_record rec_len
      then (none, c, s)
      else recv_record c (stream.read rec_len s)

  unfoldable pub recv : SecureChannel → S → Option (MsgHeader × Bytes) × SecureChannel × S
  recv c s =
      let (m, s') = recv_message stream s in
      if c.active then recv_length c (stream.read 4 s) else (m, c, s')
