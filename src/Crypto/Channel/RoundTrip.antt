-- ===== src/Crypto/Channel/RoundTrip.antt =====
-- What one end of a channel seals, the other end opens.
use folder_buddies.Wire.Stream.{ByteStream}
use folder_buddies.Crypto.Aead.{aead_encrypt}
use folder_buddies.Base.Bytes.{from_le-le_bytes, length-le_bytes, le_bytes, Bytes}
use folder_buddies.Wire.{header_bytes, MsgHeader}
use folder_buddies.Base.{
  inl, false≢true, inr, Bool-cases, take_all, ap, le→not-ltb, take, append_assoc, ◌∙◌, drop_exact,
  ==_iff, true, take_exact, Bool, ◌-◌, ◌==◌, [], length-append, ◌≤◌, arith, ◌+◌, some, ◌++◌, ◌≡◌,
  length, ◌^◌, ◌<◌, ℕ, refl,
}
use folder_buddies.Wire.RoundTrip.{get_header-append, length-header_bytes}
use folder_buddies.Wire.Stream.Laws.{Reliable, message}
use folder_buddies.Crypto.Aead.Laws.{aead_decrypt-aead_encrypt, length-aead_encrypt}
use folder_buddies.Crypto.Channel.{
  SecureChannel, nonce_from_counter, next_ctr, seal_record, open_plain, open_record, send,
  recv_record, recv_length, recv, max_record,
}

-- A message that the channel carries.
pub record Packet : Type 0 where
  pub op : ℕ
  pub status : ℕ
  pub req_id : ℕ
  pub payload : Bytes

pub record FitsPacket (m : Packet) : Type 0 where
  pub op : m.op < 2 ^ 16
  pub status : m.status < 2 ^ 16
  pub req_id : m.req_id < 2 ^ 64
  pub size : 36 + length m.payload ≤ max_record

abbrev pub header : Packet → MsgHeader
header m = message m.op m.status m.req_id m.payload

open_plain-header :
    (m : Packet)
    → FitsPacket m
    → open_plain (header_bytes (header m) ++ m.payload) ≡ some (header m, m.payload)
unfolding open_plain
open_plain-header m f =
    let parsed = get_header-append (header m) m.payload (record {
      magic = omega arith;
      op = f.op;
      status = f.status;
      req_id = f.req_id;
      len = omega (arith, f.size);
    }) in
    let whole : (length m.payload == length (header_bytes (header m) ++ m.payload) - 20) ≡ true =
      (==_iff (length m.payload) (length (header_bytes (header m) ++ m.payload) - 20)).1 (
        omega (
          arith,
          length-append (header_bytes (header m)) m.payload,
          length-header_bytes (header m),
        )) in
    rw (
      parsed,
      whole,
      drop_exact 20 (header_bytes (header m)) m.payload (length-header_bytes (header m)),
      open_plain,
    )

length-seal_record :
    (key : Bytes) (ctr : ℕ) (m : Packet)
    → length (seal_record key ctr (header m) m.payload) ≡ 36 + length m.payload
unfolding seal_record
length-seal_record key ctr m = omega (
  arith,
  length-append
      (aead_encrypt key (nonce_from_counter ctr) [] (header_bytes (header m) ++ m.payload)).0
      (aead_encrypt key (nonce_from_counter ctr) [] (header_bytes (header m) ++ m.payload)).1,
  length-aead_encrypt key (nonce_from_counter ctr) [] (header_bytes (header m) ++ m.payload),
  length-append (header_bytes (header m)) m.payload,
  length-header_bytes (header m),
)

pub open_record-seal_record :
    (key : Bytes) (ctr : ℕ) (m : Packet)
    → FitsPacket m
    → open_record key ctr (seal_record key ctr (header m) m.payload) ≡ some (header m, m.payload)
unfolding open_record seal_record
open_record-seal_record key ctr m f =
    let nonce : Bytes = nonce_from_counter ctr in
    let plain : Bytes = header_bytes (header m) ++ m.payload in
    let ct : Bytes = (aead_encrypt key nonce [] plain).0 in
    let tag : Bytes = (aead_encrypt key nonce [] plain).1 in
    let cut : length ct ≡ length (ct ++ tag) - 16 =
      omega (arith, length-append ct tag, length-aead_encrypt key nonce [] plain) in
    rw
      (
        take_exact (length (ct ++ tag) - 16) ct tag cut,
        drop_exact (length (ct ++ tag) - 16) ct tag cut,
        aead_decrypt-aead_encrypt key nonce [] plain,
        open_record,
      )
      (open_plain-header m f)

-- What stands in the stream for a message.
abbrev pub sealed_frame : Bytes → ℕ → Packet → Bytes
sealed_frame key ctr m =
    let rec = seal_record key ctr (header m) m.payload in le_bytes 4 (length rec) ++ rec

module _ {S : Type 0} (stream : ByteStream S) where
  abbrev pub sent : Packet → SecureChannel → S → Bool × SecureChannel × S
  sent m c s = send stream m.op m.status m.req_id m.payload (length m.payload) c s

module _ {S : Type 0} (stream : ByteStream S) (r : Reliable stream) where
  -- An active channel that reports success has queued the sealed record and counted it.
  pub send-sealed :
      (m : Packet) (c : SecureChannel) (s : S)
      → r.Live s
      → c.active ≡ true
      → (sent stream m c s).0 ≡ true
      → ((sent stream m c s).1 ≡ record c { tx_ctr = next_ctr c.tx_ctr })
        × r.Live (sent stream m c s).2
        × (r.pending (sent stream m c s).2 ≡ r.pending s ++ sealed_frame c.tx_key c.tx_ctr m)
  unfolding send
  send-sealed m c s live on ok =
      let rec : Bytes =
        seal_record c.tx_key c.tx_ctr (header m) (take (length m.payload) m.payload) in
      let whole : rec ≡ seal_record c.tx_key c.tx_ctr (header m) m.payload =
        ap (seal_record c.tx_key c.tx_ctr (header m))
          (take_all (length m.payload) m.payload (omega arith)) in
      elim (Bool-cases ((stream.write (le_bytes 4 (length rec)) s).0)) [
        | inr failed ↦ absurd (false≢true (rw (on, failed) at ok))
        | inl first ↦
            let (live1, put1) = r.write_puts (le_bytes 4 (length rec)) s live first in
            let (live2, put2) = r.write_puts rec _ live1 (rw (on, first) at ok) in
            rw (on, first)
              (
                refl,
                live2,
                put2
                    ∙ rw put1 (append_assoc (r.pending s) (le_bytes 4 (length rec)) rec)
                    ∙ ap (λ (t : Bytes). r.pending s ++ (le_bytes 4 (length t) ++ t)) whole,
              )
      ]

  pub recv-sealed :
      (m : Packet) (c : SecureChannel) (rest : Bytes) (s : S)
      → FitsPacket m
      → r.Live s
      → c.active ≡ true
      → r.pending s ≡ sealed_frame c.rx_key c.rx_ctr m ++ rest
      → (s' : S) × (recv stream c s
          ≡ (some (header m, m.payload), record c { rx_ctr = next_ctr c.rx_ctr }, s'))
        × r.Live s'
        × (r.pending s' ≡ rest)
  unfolding recv recv_length recv_record
  recv-sealed m c rest s f live on h =
      let rec : Bytes = seal_record c.rx_key c.rx_ctr (header m) m.payload in
      let size : length rec ≡ 36 + length m.payload = length-seal_record c.rx_key c.rx_ctr m in
      let (s1, e1, live1, queue1) =
        r.read_takes 4 (le_bytes 4 (length rec)) (rec ++ rest) s live
          (h ∙ append_assoc (le_bytes 4 (length rec)) rec rest) (length-le_bytes 4 (length rec)) in
      let (s2, e2, live2, queue2) = r.read_takes (length rec) rec rest s1 live1 queue1 refl in
      (
        s2,
        rw (
          on,
          e1,
          from_le-le_bytes 4 (length rec) (omega (arith, f.size)),
          le→not-ltb (length rec) 36 (omega arith),
          le→not-ltb max_record (length rec) (omega (arith, f.size)),
          e2,
          open_record-seal_record c.rx_key c.rx_ctr m f,
        ),
        live2,
        queue2,
      )
