-- ===== src/Handshake/Duplex.antt =====
-- Two streams, one for each direction, as the stream of each end.
use folder_buddies.Base.{
  ℕ, ◌<◌, ◌≤◌, ◌^◌, true, ◌&&◌, Option, none, some, ◌++◌, length, leb, ◌==◌, ◌≡◌, refl, ◌∙◌, ap,
  inl, inr, Bool-cases, Option-cases, arith, take,
}
use folder_buddies.Base.Bytes.{Bytes}
use folder_buddies.Wire.{MsgHeader, get_header, header_bytes, max_handshake_msg, magic_number}
use folder_buddies.Wire.Stream.{ByteStream, send_message, recv_message, recv_parsed, recv_payload}
use folder_buddies.Wire.Stream.Laws.{
  Reliable, frame, message, recv_message-frame, send_message-frame,
}

module _ {S : Type 0} (stream : ByteStream S) where
  -- The end that writes into the first stream and reads from the second.
  abbrev pub duplex : ByteStream (S × S)
  duplex = record {
    read = λ n s. ((stream.read n s.1).0, (s.0, (stream.read n s.1).1));
    write = λ p s. ((stream.write p s.0).0, ((stream.write p s.0).1, s.1));
  }

  abbrev behind : {A : Type 0} → S → A × S → A × (S × S)
  behind out r = (r.0, (out, r.1))

  recv_payload-duplex :
      (h : MsgHeader) (out s : S)
      → recv_payload duplex h (out, s) ≡ behind out (recv_payload stream h s)
  unfolding recv_payload
  recv_payload-duplex h out s =
      elim (Bool-cases (h.magic == magic_number && leb h.len max_handshake_msg)) [
        | inr bad ↦ rw bad refl
        | inl good ↦ elim (Bool-cases (h.len == 0)) [
          | inl empty ↦ rw (good, empty) refl
          | inr more ↦ elim (Option-cases (stream.read h.len s).0) [
            | inl failed ↦ rw (good, more, failed) refl
            | inr (p, got) ↦ rw (good, more, got) refl
          ]
        ]
      ]

  recv_parsed-duplex :
      (b : Option Bytes) (out s : S)
      → recv_parsed duplex (b, (out, s)) ≡ behind out (recv_parsed stream (b, s))
  unfolding recv_parsed
  recv_parsed-duplex none out s = refl
  recv_parsed-duplex (some b) out s = elim (Option-cases (get_header b).0) [
    | inl bad ↦ rw (bad, recv_parsed) refl
    | inr (h, good) ↦ rw (good, recv_parsed) (recv_payload-duplex h out s)
  ]

  pub recv_message-duplex :
      (out s : S) → recv_message duplex (out, s) ≡ behind out (recv_message stream s)
  unfolding recv_message
  recv_message-duplex out s = recv_parsed-duplex (stream.read 20 s).0 out (stream.read 20 s).1

  pub send_message-duplex :
      (op status req_id : ℕ) (p : Bytes) (len : ℕ) (out s : S)
      → send_message duplex op status req_id p len (out, s) ≡ (
        (send_message stream op status req_id p len out).0,
        ((send_message stream op status req_id p len out).1, s),
      )
  unfolding send_message
  send_message-duplex op status req_id p len out s =
      let h : Bytes =
        header_bytes
          (record { magic = magic_number; op = op; status = status; req_id = req_id; len = len }) in
      elim (Bool-cases (stream.write h out).0) [
        | inr failed ↦ rw failed refl
        | inl sent ↦ elim (Bool-cases (len == 0)) [
          | inl empty ↦ rw (sent, empty) refl
          | inr more ↦ rw (sent, more) refl
        ]
      ]

  module _ (r : Reliable stream) where
    -- Every write succeeds while the stream is live.
    abbrev pub Accepts : Type 0
    Accepts = (p : Bytes) (s : S) → r.Live s → (stream.write p s).0 ≡ true

    send_message-accepted :
        (op status req_id : ℕ) (p : Bytes) (len : ℕ) (s : S)
        → Accepts
        → r.Live s
        → (send_message stream op status req_id p len s).0 ≡ true
    unfolding send_message
    send_message-accepted op status req_id p len s accepts live =
        let h : Bytes =
          header_bytes (record {
            magic = magic_number;
            op = op;
            status = status;
            req_id = req_id;
            len = len;
          }) in
        let sent : (stream.write h s).0 ≡ true = accepts h s live in
        let (live', put) = r.write_puts h s live sent in
        elim (Bool-cases (len == 0)) [
          | inl empty ↦ rw (sent, empty) refl
          | inr more ↦ rw (sent, more) (accepts (take len p) _ live')
        ]

    -- A message is written behind what the first stream has pending.
    pub send_duplex :
        (op req_id : ℕ) (p : Bytes) (out s : S)
        → Accepts
        → r.Live out
        → (out' : S) × (send_message duplex op 0 req_id p (length p) (out, s) ≡ (true, (out', s)))
          × r.Live out'
          × (r.pending out' ≡ r.pending out ++ frame op 0 req_id p)
    send_duplex op req_id p out s accepts live =
        let sent = send_message-accepted op 0 req_id p (length p) out accepts live in
        let (live', queue) = send_message-frame stream r op 0 req_id p out live sent in
        (
          (send_message stream op 0 req_id p (length p) out).1,
          send_message-duplex op 0 req_id p (length p) out s ∙ rw sent refl,
          live',
          queue,
        )

    -- The first message that the second stream has pending is received, and the rest is left.
    pub recv_duplex :
        (op req_id : ℕ) (p rest : Bytes) (out s : S)
        → r.Live s
        → op < 2 ^ 16
        → req_id < 2 ^ 64
        → length p ≤ max_handshake_msg
        → r.pending s ≡ frame op 0 req_id p ++ rest
        → (s' : S) × (recv_message duplex (out, s) ≡ (some (message op 0 req_id p, p), (out, s')))
          × r.Live s'
          × (r.pending s' ≡ rest)
    recv_duplex op req_id p rest out s live ho hr hl h =
        let (s', e, live', queue) =
          recv_message-frame stream r op 0 req_id p rest s live ho (omega arith) hr hl h in
        (s', recv_message-duplex out s ∙ ap (behind out) e, live', queue)
