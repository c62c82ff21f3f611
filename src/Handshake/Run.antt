-- ===== src/Handshake/Run.antt =====
-- A run of both ends of the handshake, client/src/clients/client.cpp and client/src/server/server.cpp.
use folder_buddies.Base.{
  le→not-ltb, ℕ, ◌<◌, ◌^◌, ◌%◌, Bool, true, false, [], ◌++◌, length, ltb, ◌==◌, ◌≡◌, refl, sym, ◌∙◌,
  if◌then◌else◌, arith, append-nil, take, take_all, ==_iff,
}
use folder_buddies.Base.Bytes.{Bytes, bytes_eq, bytes_eq_iff}
use folder_buddies.Wire.Op.{op_code}
use folder_buddies.Wire.Stream.{ByteStream, send_message}
use folder_buddies.Wire.Stream.Laws.{Reliable, frame}
use folder_buddies.Crypto.Aead.{ct_equal}
use folder_buddies.Crypto.Aead.Laws.{ct_equal_iff}
use folder_buddies.Crypto.Auth.{auth_proof}
use folder_buddies.Handshake.{
  hello_payload, Outcome, broken, done, client_hello, client_answer, answer_challenge,
  client_finish, server_greet, greet, server_check, check_proof, auth_failed, rejected,
}
use folder_buddies.Handshake.Duplex.{duplex, Accepts, send_duplex, recv_duplex}
use folder_buddies.Handshake.Layout.{hello_of, Sized, length-hello_payload, get_hello-hello_payload}

module _ {S : Type 0} (stream : ByteStream S) (r : Reliable stream)
    (accepts : Accepts stream r) where
  -- What one end leaves: its outcome, what it has sent, and what is left to read.
  abbrev pub Turn : {E A : Type 0} → Outcome E A × (S × S) → Outcome E A → Bytes → Bytes → Type 0
  Turn result outcome sent left =
      (out : S) × (rest : S) × (result ≡ (outcome, (out, rest)))
      × r.Live out
      × r.Live rest
      × (r.pending out ≡ sent)
      × (r.pending rest ≡ left)

  send_behind :
      (op req_id : ℕ) (p : Bytes) (len : ℕ) (out s : S) (q : Bytes)
      → len ≡ length p
      → r.Live out
      → r.pending out ≡ q
      → (out' : S) × (send_message (duplex stream) op 0 req_id p len (out, s) ≡ (true, (out', s)))
        × r.Live out'
        × (r.pending out' ≡ q ++ frame op 0 req_id p)
  send_behind op req_id p len out s q same live before =
      let (out', e, live', queue) = send_duplex stream r op req_id p out s accepts live in
      (out', rw same e, live', queue ∙ rw before refl)

  pub hello-Turn :
      (client_id folder_hash nonce : Bytes) (up down : S) (left : Bytes)
      → Sized client_id folder_hash nonce
      → r.Live up
      → r.Live down
      → r.pending up ≡ []
      → r.pending down ≡ left
      → Turn
          (client_hello (duplex stream) client_id folder_hash nonce (up, down))
          (done tt)
          (frame 1 0 1 (hello_payload client_id folder_hash nonce))
          left
  unfolding client_hello op_code
  hello-Turn client_id folder_hash nonce up down left sized live1 live2 idle1 queue2 =
      let p : Bytes = hello_payload client_id folder_hash nonce in
      let (up', e, live', queue) =
        send_behind 1 1 p (length p % 2 ^ 32) up down []
          (omega (arith, length-hello_payload client_id folder_hash nonce sized)) live1 idle1 in
      (up', down, rw e refl, live', live2, queue, queue2)

  -- The server's answer to a HELLO for its own folder, and to one for another.
  pub greet-Turn :
      (client_id folder_hash own_hash nonce nonce_s : Bytes) (down up : S) (left : Bytes)
      → Sized client_id folder_hash nonce
      → length own_hash ≡ 32
      → length nonce_s ≡ 16
      → r.Live down
      → r.Live up
      → r.pending down ≡ []
      → r.pending up ≡ frame 1 0 1 (hello_payload client_id folder_hash nonce) ++ left
      → (bytes_eq folder_hash own_hash ≡ true
          → Turn
              (server_greet (duplex stream) own_hash nonce_s (down, up))
              (done (hello_of client_id folder_hash nonce))
              (frame 2 0 1 nonce_s)
              left)
        × (bytes_eq folder_hash own_hash ≡ false
            → Turn
                (server_greet (duplex stream) own_hash nonce_s (down, up))
                (broken tt)
                (frame 5 0 1 [])
                left)
  unfolding server_greet greet op_code
  greet-Turn client_id folder_hash own_hash nonce nonce_s down up left sized size sixteen live2
        live1 idle2 queue1 =
      let p : Bytes = hello_payload client_id folder_hash nonce in
      let (up', got, live', queue') =
        recv_duplex stream r 1 1 p left down up live1 (omega arith) (omega arith)
          (omega (arith, length-hello_payload client_id folder_hash nonce sized)) queue1 in
      let (ok, e1, live_ok, queue_ok) =
        send_behind 2 1 nonce_s 16 down up' [] (sym sixteen) live2 idle2 in
      let (fail, e2, live_fail, queue_fail) = send_behind 5 1 [] 0 down up' [] refl live2 idle2 in
      let parsed = get_hello-hello_payload client_id folder_hash nonce sized in
      let right_size : (length own_hash == 32) ≡ true = (==_iff (length own_hash) 32).1 size in
      (
        λ same. (
          ok,
          up',
          rw (got, parsed, right_size, same, e1) refl,
          live_ok,
          live',
          queue_ok,
          queue',
        ),
        λ other. (
          fail,
          up',
          rw (got, parsed, right_size, other, e2) refl,
          live_fail,
          live',
          queue_fail,
          queue',
        ),
      )

  pub answer-Turn :
      (hmac_sha256 : Bytes → Bytes → Bytes) (key nonce nonce_s : Bytes) (up down : S)
      (sent left : Bytes)
      → length nonce_s ≡ 16
      → length (auth_proof hmac_sha256 key nonce nonce_s) ≡ 32
      → r.Live up
      → r.Live down
      → r.pending up ≡ sent
      → r.pending down ≡ frame 2 0 1 nonce_s ++ left
      → Turn
          (client_answer (duplex stream) hmac_sha256 key nonce (up, down))
          (done nonce_s)
          (sent ++ frame 3 0 1 (auth_proof hmac_sha256 key nonce nonce_s))
          left
  unfolding client_answer answer_challenge op_code
  answer-Turn hmac_sha256 key nonce nonce_s up down sent left sixteen size live1 live2 queue1
        queue2 =
      let proof : Bytes = auth_proof hmac_sha256 key nonce nonce_s in
      let (down', got, live', queue') =
        recv_duplex stream r 2 1 nonce_s left up down live2 (omega arith) (omega arith)
          (omega arith) queue2 in
      let (up', e, live1', queue1') =
        send_behind 3 1 proof (length proof % 2 ^ 32) up down' sent (omega arith) live1 queue1 in
      let whole : take 16 nonce_s ≡ nonce_s = take_all 16 nonce_s (omega arith) in
      let long : ltb (length nonce_s) 16 ≡ false = le→not-ltb (length nonce_s) 16 (omega arith) in
      (up', down', rw (got, long, whole, e) refl, live1', live', queue1', queue')

  -- The client's end when its HELLO is refused.
  pub refused-Turn :
      (hmac_sha256 : Bytes → Bytes → Bytes) (key nonce : Bytes) (up down : S) (sent left : Bytes)
      → r.Live up
      → r.Live down
      → r.pending up ≡ sent
      → r.pending down ≡ frame 5 0 1 [] ++ left
      → Turn
          (client_answer (duplex stream) hmac_sha256 key nonce (up, down))
          (broken rejected)
          sent
          left
  unfolding client_answer answer_challenge op_code
  refused-Turn hmac_sha256 key nonce up down sent left live1 live2 queue1 queue2 =
      let (down', got, live', queue') =
        recv_duplex stream r 5 1 [] left up down live2 (omega arith) (omega arith) (omega arith)
          queue2 in
      (up, down', rw got refl, live1, live', queue1, queue')

  -- The server's verdict on a proof of the right size.
  pub check-Turn :
      (hmac_sha256 : Bytes → Bytes → Bytes) (key nonce nonce_s proof : Bytes) (down up : S)
      (sent left : Bytes)
      → length proof ≡ 32
      → length (auth_proof hmac_sha256 key nonce nonce_s) ≡ 32
      → r.Live down
      → r.Live up
      → r.pending down ≡ sent
      → r.pending up ≡ frame 3 0 1 proof ++ left
      → (bytes_eq proof (auth_proof hmac_sha256 key nonce nonce_s) ≡ true
          → Turn
              (server_check (duplex stream) hmac_sha256 key nonce nonce_s (down, up))
              (done tt)
              (sent ++ frame 4 0 1 [])
              left)
        × (bytes_eq proof (auth_proof hmac_sha256 key nonce nonce_s) ≡ false
            → Turn
                (server_check (duplex stream) hmac_sha256 key nonce nonce_s (down, up))
                (broken tt)
                (sent ++ frame 5 0 1 [])
                left)
  unfolding server_check check_proof op_code
  check-Turn hmac_sha256 key nonce nonce_s proof down up sent left size size2 live2 live1 queue2
        queue1 =
      let expect : Bytes = auth_proof hmac_sha256 key nonce nonce_s in
      let (up', got, live', queue') =
        recv_duplex stream r 3 1 proof left down up live1 (omega arith) (omega arith) (omega arith)
          queue1 in
      let (ok, e1, live_ok, queue_ok) = send_behind 4 1 [] 0 down up' sent refl live2 queue2 in
      let (fail, e2, live_fail, queue_fail) =
        send_behind 5 1 [] 0 down up' sent refl live2 queue2 in
      let same_size : (length proof == length expect) ≡ true =
        (==_iff (length proof) (length expect)).1 (size ∙ sym size2) in
      let equal = ct_equal_iff proof expect (length expect) (size ∙ sym size2) refl in
      (
        λ h.
            let right : ct_equal proof expect (length expect) ≡ true =
              equal.1 ((bytes_eq_iff proof expect).0 h) in
            (ok, up', rw (got, same_size, right, e1) refl, live_ok, live', queue_ok, queue'),
        λ h.
            let unequal : ct_equal proof expect (length expect) ≡ false =
              not_true (ct_equal proof expect (length expect))
                (λ e. cc (rw ((bytes_eq_iff proof expect).1 (equal.0 e)) at h)) in
            (
              fail,
              up',
              rw (got, same_size, unequal, e2) refl,
              live_fail,
              live',
              queue_fail,
              queue',
            ),
      )
    where
      not_true : (b : Bool) → ¬ (b ≡ true) → b ≡ false
      not_true true h = absurd (h refl)
      not_true false h = refl

  -- The client's end, whatever the server said.
  pub finish-Turn :
      (op : ℕ) (up down : S) (sent : Bytes)
      → op < 2 ^ 16
      → r.Live up
      → r.Live down
      → r.pending up ≡ sent
      → r.pending down ≡ frame op 0 1 []
      → Turn
          (client_finish (duplex stream) (up, down))
          (if op == 4 then done tt else broken auth_failed)
          sent
          []
  unfolding client_finish op_code
  finish-Turn op up down sent small live1 live2 queue1 queue2 =
      let (down', got, live', queue') =
        recv_duplex stream r op 1 [] [] up down live2 small (omega arith) (omega arith)
          (queue2 ∙ sym (append-nil (frame op 0 1 []))) in
      (up, down', rw got refl, live1, live', queue1, queue')
