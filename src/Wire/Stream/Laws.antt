-- ===== src/Wire/Stream/Laws.antt =====
use folder_buddies.Base.{
  drop_exact, drop-drop, take_exact, length-drop, drop-append_le, ◌+◌, length-append, drop,
  take_all, suc-==-zero, ap, refl,
}
-- What the protocol relies on of a stream, and that a message sent is the message received.
use folder_buddies.Wire.{get_header, MsgHeader, max_handshake_msg, magic_number, header_bytes}
use folder_buddies.Base.{
  arith, take, [], le→leb, append-nil, false≢true, ◌∷◌, append_assoc, ◌∙◌, inl, inr, Bool-cases,
  some, ◌++◌, ◌≤◌, true, ◌^◌, length, ◌<◌, ◌≡◌, ℕ,
}
use folder_buddies.Base.Bytes.{Bytes}
use folder_buddies.Wire.Stream.{
  ByteStream, Memory, send_message, recv_payload, recv_parsed, recv_message, memory_read,
  memory_stream,
}
use folder_buddies.Wire.RoundTrip.{get_header-header_bytes, length-header_bytes}

-- A reliable ordered stream: while it is live, a write that succeeds queues its bytes, and a read
-- takes as many bytes as it asks for from the front of the queue, if they are there.
pub record Reliable {S : Type 0} (stream : ByteStream S) : Type 1 where
  pub Live : S → Type 0
  pub pending : S → Bytes
  pub write_puts :
      (p : Bytes) (s : S)
      → Live s
      → (stream.write p s).0 ≡ true
      → Live (stream.write p s).1 × (pending (stream.write p s).1 ≡ pending s ++ p)
  pub read_takes :
      (n : ℕ) (p rest : Bytes) (s : S)
      → Live s
      → pending s ≡ p ++ rest
      → length p ≡ n
      → (s' : S) × (stream.read n s ≡ (some p, s')) × Live s' × (pending s' ≡ rest)

-- The bytes of a message: its header and its payload.
abbrev pub frame : ℕ → ℕ → ℕ → Bytes → Bytes
frame op status req_id p =
    header_bytes
      (record { magic = magic_number; op = op; status = status; req_id = req_id; len = length p })
    ++ p

abbrev pub message : ℕ → ℕ → ℕ → Bytes → MsgHeader
message op status req_id p = record {
  magic = magic_number;
  op = op;
  status = status;
  req_id = req_id;
  len = length p;
}

module _ {S : Type 0} (stream : ByteStream S) (r : Reliable stream) where
  -- A send that reports success has queued the frame, whole and behind what was queued before.
  pub send_message-frame :
      (op status req_id : ℕ) (p : Bytes) (s : S)
      → r.Live s
      → (send_message stream op status req_id p (length p) s).0 ≡ true
      → r.Live (send_message stream op status req_id p (length p) s).1
        × (r.pending (send_message stream op status req_id p (length p) s).1
            ≡ r.pending s ++ frame op status req_id p)
  unfolding send_message
  send_message-frame op status req_id [] s live h =
      elim (Bool-cases ((stream.write (header_bytes (message op status req_id [])) s).0)) [
        | inr failed ↦ absurd (false≢true (rw failed at h))
        | inl sent ↦
            let (live', put) =
              r.write_puts (header_bytes (message op status req_id [])) s live sent in
            rw (sent, append-nil) (live', put)
      ]
  send_message-frame op status req_id (x ∷ xs) s live h =
      elim (Bool-cases ((stream.write (header_bytes (message op status req_id (x ∷ xs))) s).0)) [
        | inr failed ↦ absurd (false≢true (rw failed at h))
        | inl sent ↦
            let (live', put) =
              r.write_puts (header_bytes (message op status req_id (x ∷ xs))) s live sent in
            let (live2, put2) =
              r.write_puts (take (length (x ∷ xs)) (x ∷ xs)) _ live'
                (rw (sent, suc-==-zero) at h) in
            rw (sent, suc-==-zero)
              (
                live2,
                put2
                    ∙ rw (put, take_all (length (x ∷ xs)) (x ∷ xs) (omega arith))
                        (append_assoc (r.pending s)
                          (header_bytes (message op status req_id (x ∷ xs))) (x ∷ xs)),
              )
      ]

  recv_payload-frame :
      (op status req_id : ℕ) (p rest : Bytes) (s : S)
      → r.Live s
      → length p ≤ max_handshake_msg
      → r.pending s ≡ p ++ rest
      → (s' : S) × (recv_payload stream (message op status req_id p) s
          ≡ (some (message op status req_id p, p), s'))
        × r.Live s'
        × (r.pending s' ≡ rest)
  unfolding recv_payload
  recv_payload-frame op status req_id [] rest s live hl h = (s, refl, live, h)
  recv_payload-frame op status req_id (x ∷ xs) rest s live hl h =
      let (s', e, live', queue) = r.read_takes (length (x ∷ xs)) (x ∷ xs) rest s live h refl in
      (s', rw (le→leb (length (x ∷ xs)) max_handshake_msg hl, suc-==-zero, e), live', queue)

  recv_parsed-some :
      (b : Bytes) (s : S) (h : MsgHeader)
      → (get_header b).0 ≡ some h
      → recv_parsed stream (some b, s) ≡ recv_payload stream h s
  unfolding recv_parsed
  recv_parsed-some b s h e = rw (e, recv_parsed)

  pub recv_message-frame :
      (op status req_id : ℕ) (p rest : Bytes) (s : S)
      → r.Live s
      → op < 2 ^ 16
      → status < 2 ^ 16
      → req_id < 2 ^ 64
      → length p ≤ max_handshake_msg
      → r.pending s ≡ frame op status req_id p ++ rest
      → (s' : S) × (recv_message stream s ≡ (some (message op status req_id p, p), s'))
        × r.Live s'
        × (r.pending s' ≡ rest)
  unfolding recv_message
  recv_message-frame op status req_id p rest s live ho hs hr hl h =
      let (s1, e1, live1, queue1) =
        r.read_takes 20 (header_bytes (message op status req_id p)) (p ++ rest) s live
          (h ∙ append_assoc (header_bytes (message op status req_id p)) p rest)
          (length-header_bytes (message op status req_id p)) in
      let (s2, e2, live2, queue2) = recv_payload-frame op status req_id p rest s1 live1 hl queue1 in
      let parsed : get_header (header_bytes (message op status req_id p))
          ≡ (some (message op status req_id p), []) =
        get_header-header_bytes (message op status req_id p)
          (record { magic = omega arith; op = ho; status = hs; req_id = hr; len = omega arith }) in
      (s2, rw e1 (recv_parsed-some _ s1 _ (ap (λ q. q.0) parsed) ∙ e2), live2, queue2)

  -- A message of at most 64 KiB that is sent over an empty live stream is what the other end
  -- receives, and nothing is left in the stream.
  pub recv_message-send_message :
      (op status req_id : ℕ) (p : Bytes) (s : S)
      → r.Live s
      → r.pending s ≡ []
      → op < 2 ^ 16
      → status < 2 ^ 16
      → req_id < 2 ^ 64
      → length p ≤ max_handshake_msg
      → (send_message stream op status req_id p (length p) s).0 ≡ true
      → (s' : S) × (recv_message stream (send_message stream op status req_id p (length p) s).1
          ≡ (some (message op status req_id p, p), s'))
        × r.Live s'
        × (r.pending s' ≡ [])
  recv_message-send_message op status req_id p s live empty ho hs hr hl sent =
      let (live1, queue1) = send_message-frame op status req_id p s live sent in
      recv_message-frame op status req_id p [] _ live1 ho hs hr hl (queue1 ∙ rw (empty, append-nil))

pub memory_read_takes :
    (n : ℕ) (p rest : Bytes) (m : Memory)
    → m.offset ≤ length m.bytes
    → drop m.offset m.bytes ≡ p ++ rest
    → length p ≡ n
    → (m' : Memory) × (memory_read n m ≡ (some p, m'))
      × (m'.offset ≤ length m'.bytes)
      × (drop m'.offset m'.bytes ≡ rest)
unfolding memory_read
memory_read_takes n p rest m live queue len =
    let fits : m.offset + n ≤ length m.bytes =
      omega (arith, length-drop m.offset m.bytes, ap length queue, length-append p rest) in
    (
      record m { offset = m.offset + n },
      rw (le→leb (m.offset + n) (length m.bytes) fits, queue, take_exact n p rest len),
      fits,
      rw (← drop-drop m.offset n m.bytes, queue) (drop_exact n p rest len),
    )

-- The memory stream: what is pending stands behind the offset.
unfoldable pub memory_reliable : Reliable memory_stream
unfolding memory_stream
memory_reliable = record {
  Live = λ m. m.offset ≤ length m.bytes;
  pending = λ m. drop m.offset m.bytes;
  write_puts = λ p m live ok.
      (omega (arith, length-append m.bytes p), drop-append_le m.offset m.bytes p live);
  read_takes = memory_read_takes;
}
