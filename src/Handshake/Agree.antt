-- ===== src/Handshake/Agree.antt =====
-- Both ends of the handshake come to the same verdict, `Client::handshake` of client/src/clients/client.cpp
-- and `Server::handshake` of client/src/server/server.cpp, and can talk after it.
use folder_buddies.Base.{
  append-nil, refl, sym, ◌∙◌, ap, Bool, true, false, List, [], length, map, ◌≡◌, All, some, arith,
  if◌then◌else◌, Bool-cases, inl, inr, not, ◌++◌,
}
use folder_buddies.Base.Bytes.{Bytes, bytes_eq}
use folder_buddies.Wire.Stream.{ByteStream}
use folder_buddies.Wire.Stream.Laws.{Reliable, frame}
use folder_buddies.Crypto.Auth.{auth_proof, derive_key, session, recv_many-session}
use folder_buddies.Crypto.Channel.{SecureChannel}
use folder_buddies.Crypto.Channel.RoundTrip.{FitsPacket, Packet}
use folder_buddies.Crypto.Channel.Session.{opened, send_many, recv_many}
use folder_buddies.Signaling.{Token}
use folder_buddies.Handshake.{
  ClientError, Outcome, broken, done, hello_payload, client_handshake, client_answer, client_finish,
  ◌>>>◌, server_handshake, auth_failed, rejected,
}
use folder_buddies.Handshake.Duplex.{duplex, Accepts}
use folder_buddies.Handshake.Layout.{Sized}
use folder_buddies.Handshake.Run.{
  hello-Turn, greet-Turn, answer-Turn, refused-Turn, check-Turn, finish-Turn,
}

-- What the two ends know, what they draw, and their channels before the handshake.
pub record Ends : Type 0 where
  pub client_id : Bytes
  pub tok : Token
  pub share_name : Bytes
  pub server_key : Bytes
  pub nonce_c : Bytes
  pub nonce_s : Bytes
  pub client_before : SecureChannel
  pub server_before : SecureChannel

module _ (sha256 : Bytes → Bytes) (hmac_sha256 : Bytes → Bytes → Bytes) (e : Ends) where
  abbrev pub client_key : Bytes
  client_key = derive_key sha256 e.tok.secret

  abbrev pub client_proof : Bytes
  client_proof = auth_proof hmac_sha256 client_key e.nonce_c e.nonce_s

  abbrev pub server_proof : Bytes
  server_proof = auth_proof hmac_sha256 e.server_key e.nonce_c e.nonce_s

  -- Whether both ends mean one folder, and whether they expect one proof.
  abbrev pub same_folder : Bool
  same_folder = bytes_eq (sha256 e.tok.folder) (sha256 e.share_name)

  abbrev pub same_proof : Bool
  same_proof = bytes_eq client_proof server_proof

  -- The sizes that SHA-256, HMAC-SHA-256 and the draws have.
  pub record FitsEnds : Type 0 where
    pub sized : Sized e.client_id (sha256 e.tok.folder) e.nonce_c
    pub share_hash : length (sha256 e.share_name) ≡ 32
    pub nonce_s : length e.nonce_s ≡ 16
    pub client_proof : length client_proof ≡ 32
    pub server_proof : length server_proof ≡ 32

  -- The messages of the client: HELLO, and its proof if it gets a challenge.
  abbrev pub from_client : Bytes
  from_client =
      frame 1 0 1 (hello_payload e.client_id (sha256 e.tok.folder) e.nonce_c)
      ++ (if same_folder then frame 3 0 1 client_proof else [])

  abbrev verdict_frame : Bytes
  verdict_frame = if same_proof then frame 4 0 1 [] else frame 5 0 1 []

  -- The messages of the server: a challenge and its verdict, or AUTH_FAIL.
  abbrev pub from_server : Bytes
  from_server =
      if same_folder
      then frame 2 0 1 e.nonce_s ++ (if same_proof then frame 4 0 1 [] else frame 5 0 1 [])
      else frame 5 0 1 []

  abbrev pub client_verdict : Outcome ClientError SecureChannel
  client_verdict =
      if same_folder
      then (if same_proof
          then done (session hmac_sha256 client_key e.nonce_c e.nonce_s false e.client_before)
          else broken auth_failed)
      else broken rejected

  abbrev pub server_verdict : Outcome (Unit {0}) (Bytes × SecureChannel)
  server_verdict =
      if same_folder
      then (if same_proof
          then done (
            e.client_id,
            session hmac_sha256 e.server_key e.nonce_c e.nonce_s true e.server_before,
          )
          else broken tt)
      else broken tt

  module _ {S : Type 0} (stream : ByteStream S) (r : Reliable stream) where
    -- The client over the stream that it writes and the one that it reads, and likewise the server.
    abbrev pub run_client : S → S → Outcome ClientError SecureChannel × (S × S)
    run_client up d =
        client_handshake (duplex stream) sha256 hmac_sha256 e.client_id e.tok e.nonce_c
          e.client_before (up, d)

    abbrev pub run_server : S → S → Outcome (Unit {0}) (Bytes × SecureChannel) × (S × S)
    run_server down u =
        server_handshake (duplex stream) hmac_sha256 sha256 e.share_name e.server_key e.nonce_s
          e.server_before (down, u)

    -- How an end leaves its streams: its messages sent, and nothing left to read.
    pub record Left (s : S × S) (messages : Bytes) : Type 0 where
      pub live_out : r.Live s.0
      pub live_in : r.Live s.1
      pub sent : r.pending s.0 ≡ messages
      pub read : r.pending s.1 ≡ []

    -- Each end comes to its verdict, from the messages that the other end has sent.
    pub record Agreement (up d down u : S) : Type 0 where
      pub client : (run_client up d).0 ≡ client_verdict
      pub server : (run_server down u).0 ≡ server_verdict
      pub client_left : Left (run_client up d).1 from_client
      pub server_left : Left (run_server down u).1 from_server

    module _ (accepts : Accepts stream r) (fits : FitsEnds) where
      abbrev Concludes :
          {A : Type 0} → Outcome ClientError A × (S × S) → Outcome ClientError A → Bytes → Type 0
      Concludes run verdict messages = (run.0 ≡ verdict) × Left run.1 messages

      -- The client behind its proof, by what the server has decided.
      client_finished :
          {A : Type 0} (result : A) (b : Bool) (up d : S) (messages : Bytes)
          → r.Live up
          → r.Live d
          → r.pending up ≡ messages
          → r.pending d ≡ (if b then frame 4 0 1 [] else frame 5 0 1 [])
          → Concludes
              (client_finish (duplex stream) (up, d) >>> λ u s. (done result, s))
              (if b then done result else broken auth_failed)
              messages
      client_finished result true up d messages l m q p =
          let (up', d', finished, l', m', q', p') =
            finish-Turn stream r accepts 4 up d messages (omega arith) l m q p in
          rw finished (refl, record { live_out = l'; live_in = m'; sent = q'; read = p' })
      client_finished result false up d messages l m q p =
          let (up', d', finished, l', m', q', p') =
            finish-Turn stream r accepts 5 up d messages (omega arith) l m q p in
          rw finished (refl, record { live_out = l'; live_in = m'; sent = q'; read = p' })

      -- The client behind its HELLO, by whether the server has sent a challenge.
      client_greeted :
          {A : Type 0} (result : Bytes → A) (f b : Bool) (up d : S) (messages : Bytes)
          → r.Live up
          → r.Live d
          → r.pending up ≡ messages
          → r.pending d ≡ (
              if f
              then frame 2 0 1 e.nonce_s ++ (if b then frame 4 0 1 [] else frame 5 0 1 [])
              else frame 5 0 1 [])
          → Concludes
              (client_answer (duplex stream) hmac_sha256 client_key e.nonce_c (up, d)
                >>> λ nonce_s s.
                    client_finish (duplex stream) s >>> λ u s. (done (result nonce_s), s))
              (if f
                then (if b then done (result e.nonce_s) else broken auth_failed)
                else broken rejected)
              (messages ++ (if f then frame 3 0 1 client_proof else []))
      client_greeted result true b up d messages l m q p =
          let (up', d', answered, l', m', q', p') =
            answer-Turn stream r accepts hmac_sha256 client_key e.nonce_c e.nonce_s up d messages
              (if b then frame 4 0 1 [] else frame 5 0 1 []) fits.nonce_s fits.client_proof l m q
              p in
          rw answered (client_finished (result e.nonce_s) b up' d' _ l' m' q' p')
      client_greeted result false b up d messages l m q p =
          let (up', d', refused, l', m', q', p') =
            refused-Turn stream r accepts hmac_sha256 client_key e.nonce_c up d messages [] l m q
              (p ∙ sym (append-nil (frame 5 0 1 []))) in
          rw refused (
            refl,
            record {
              live_out = l';
              live_in = m';
              sent = q' ∙ sym (append-nil messages);
              read = p';
            },
          )

      client_side :
          (up d : S)
          → r.Live up
          → r.Live d
          → r.pending up ≡ []
          → r.pending d ≡ from_server
          → Concludes (run_client up d) client_verdict from_client
      unfolding client_handshake
      client_side up d live1 live2 idle1 queue2 =
          let (up1, d1, hello, l1, m1, q1, p1) =
            hello-Turn stream r accepts e.client_id (sha256 e.tok.folder) e.nonce_c up d from_server
              fits.sized live1 live2 idle1 queue2 in
          rw hello (
            client_greeted
              (λ nonce_s. session hmac_sha256 client_key e.nonce_c nonce_s false e.client_before)
              same_folder same_proof up1 d1 _ l1 m1 q1 p1)

      server_side :
          (down u : S)
          → r.Live down
          → r.Live u
          → r.pending down ≡ []
          → r.pending u ≡ from_client
          → ((run_server down u).0 ≡ server_verdict) × Left (run_server down u).1 from_server
      unfolding server_handshake
      server_side down u live2 live1 idle2 queue1 =
          let (own, foreign) =
            greet-Turn stream r accepts e.client_id (sha256 e.tok.folder) (sha256 e.share_name)
              e.nonce_c e.nonce_s down u _ fits.sized fits.share_hash fits.nonce_s live2 live1 idle2
              queue1 in
          elim (Bool-cases same_folder) [
            | inl folder ↦
                let (down1, u1, greeted, l1, m1, q1, p1) = own folder in
                let (right, wrong) =
                  check-Turn stream r accepts hmac_sha256 e.server_key e.nonce_c e.nonce_s
                    client_proof down1 u1 _ [] fits.client_proof fits.server_proof l1 m1 q1
                    (p1 ∙ rw folder (sym (append-nil _))) in
                elim (Bool-cases same_proof) [
                  | inl same ↦
                      let (down2, u2, checked, l2, m2, q2, p2) = right same in
                      rw (greeted, folder, checked, same)
                        (refl, record { live_out = l2; live_in = m2; sent = q2; read = p2 })
                  | inr differ ↦
                      let (down2, u2, checked, l2, m2, q2, p2) = wrong differ in
                      rw (greeted, folder, checked, differ)
                        (refl, record { live_out = l2; live_in = m2; sent = q2; read = p2 })
                ]
            | inr other ↦
                let (down1, u1, refused, l1, m1, q1, p1) = foreign other in
                rw (refused, other)
                  (
                    refl,
                    record { live_out = l1; live_in = m1; sent = q1; read = p1 ∙ rw other refl },
                  )
          ]

      pub exchange-verdict :
          (up d down u : S)
          → r.Live up
          → r.Live d
          → r.Live down
          → r.Live u
          → r.pending up ≡ []
          → r.pending down ≡ []
          → r.pending d ≡ from_server
          → r.pending u ≡ from_client
          → Agreement up d down u
      exchange-verdict up d down u live1 live2 live3 live4 idle1 idle2 queue1 queue2 =
          let (client, client_left) = client_side up d live1 live2 idle1 queue1 in
          let (server, server_left) = server_side down u live3 live4 idle2 queue2 in
          record {
            client = client;
            server = server;
            client_left = client_left;
            server_left = server_left;
          }

    done_only :
        {E A : Type 0} (f p : Bool) (a b : A) (x y : E)
        → (if f then (if p then done a else broken x) else broken y) ≡ done b
        → a ≡ b
    done_only true true a b x y h = cc
    done_only true false a b x y h = cc
    done_only false p a b x y h = cc

    client_channel :
        (c : SecureChannel)
        → client_verdict ≡ done c
        → c ≡ session hmac_sha256 client_key e.nonce_c e.nonce_s false e.client_before
    client_channel c h = sym (done_only same_folder same_proof _ c auth_failed rejected h)

    server_channel :
        (id : Bytes) (s : SecureChannel)
        → server_verdict ≡ done (id, s)
        → s ≡ session hmac_sha256 e.server_key e.nonce_c e.nonce_s true e.server_before
    server_channel id s h =
        ap (λ (x : Bytes × SecureChannel). x.1)
          (sym (done_only same_folder same_proof _ (id, s) tt tt h))

    -- The stream of either end as the other end leaves it, and the channels of both.
    abbrev pub sent_by : Bool → S × S → S × S → S
    sent_by true c s = s.1
    sent_by false c s = c.1

    abbrev pub channel_of : Bool → SecureChannel → SecureChannel → SecureChannel
    channel_of true c s = c
    channel_of false c s = s

    -- What the verdicts of both ends give.
    Agreement-recv_many :
        (up d down u : S) (x : Agreement up d down u) (c s : SecureChannel) (id : Bytes)
        → (run_client up d).0 ≡ done c
        → (run_server down u).0 ≡ done (id, s)
        → client_key ≡ e.server_key
        → (from_client : Bool) (ms : List Packet) → All FitsPacket ms
        → (send_many stream ms
            (channel_of from_client c s)
            (sent_by from_client (run_client up d).1 (run_server down u).1)).0
          ≡ true
        → recv_many stream
            (length ms)
            (channel_of (not from_client) c s)
            (send_many stream ms
              (channel_of from_client c s)
              (sent_by from_client (run_client up d).1 (run_server down u).1)).2
          ≡ some (map opened ms)
    Agreement-recv_many up d down u x c s id hc hs same true ms fit sent =
        let client = client_channel c (sym x.client ∙ hc) in
        let server = server_channel id s (sym x.server ∙ hs) in
        let own =
          server
          ∙ ap (λ (k : Bytes). session hmac_sha256 k e.nonce_c e.nonce_s true e.server_before)
              (sym same) in
        rw (client, own)
          (recv_many-session stream r hmac_sha256 client_key e.nonce_c e.nonce_s false
            e.client_before e.server_before ms (run_server down u).1.1 fit x.server_left.live_in
            x.server_left.read (rw client at sent))
    Agreement-recv_many up d down u x c s id hc hs same false ms fit sent =
        let client = client_channel c (sym x.client ∙ hc) in
        let server = server_channel id s (sym x.server ∙ hs) in
        let own =
          client
          ∙ ap (λ (k : Bytes). session hmac_sha256 k e.nonce_c e.nonce_s false e.client_before)
              same in
        rw (own, server)
          (recv_many-session stream r hmac_sha256 e.server_key e.nonce_c e.nonce_s true
            e.server_before e.client_before ms (run_client up d).1.1 fit x.client_left.live_in
            x.client_left.read (rw server at sent))

    module _ (accepts : Accepts stream r) (fits : FitsEnds) where
      -- After handshakes over streams that accept what is written, with each end reading what the other
      -- has sent, in which both ends come to an end with a channel, and know one secret: the messages
      -- that either end sends through the channel that its handshake returned are those that the other
      -- end receives through its own, in their order.
      pub handshake-recv_many :
          (up d down u : S)
          → r.Live up
          → r.Live d
          → r.Live down
          → r.Live u
          → r.pending up ≡ []
          → r.pending down ≡ []
          → r.pending d ≡ from_server
          → r.pending u ≡ from_client
          → (c s : SecureChannel) (id : Bytes) → (run_client up d).0 ≡ done c
          → (run_server down u).0 ≡ done (id, s)
          → client_key ≡ e.server_key
          → (by_client : Bool) (ms : List Packet) → All FitsPacket ms
          → (send_many stream ms
              (channel_of by_client c s)
              (sent_by by_client (run_client up d).1 (run_server down u).1)).0
            ≡ true
          → recv_many stream
              (length ms)
              (channel_of (not by_client) c s)
              (send_many stream ms
                (channel_of by_client c s)
                (sent_by by_client (run_client up d).1 (run_server down u).1)).2
            ≡ some (map opened ms)
      handshake-recv_many up d down u l1 l2 l3 l4 i1 i2 q1 q2 =
          Agreement-recv_many up d down u
            (exchange-verdict accepts fits up d down u l1 l2 l3 l4 i1 i2 q1 q2)
