-- ===== src/Crypto/Channel/Session.antt =====
-- A session: messages sealed one after the other, and opened one after the other.
use folder_buddies.Wire.Stream.{ByteStream}
use folder_buddies.Base.Bytes.{Bytes}
use folder_buddies.Wire.{MsgHeader}
use mathlib.Core.Option
use folder_buddies.Base.{
  zero, none, ap, inl, false≢true, append_assoc, inr, Bool-cases, ◌∙◌, false, map, append-nil, sym,
  suc, length, if◌then◌else◌, [], true, ◌++◌, All, some, ◌∷◌, ◌≡◌, Bool, Option, List, ℕ, refl,
}
use folder_buddies.Wire.Stream.Laws.{Reliable}
use folder_buddies.Crypto.Channel.{SecureChannel, next_ctr, recv}
use folder_buddies.Crypto.Channel.RoundTrip.{
  Packet, FitsPacket, header, sealed_frame, sent, send-sealed, recv-sealed,
}

-- What stands in the stream for several messages.
abbrev frames : Bytes → ℕ → List Packet → Bytes
frames key ctr [] = []
frames key ctr (m ∷ ms) = sealed_frame key ctr m ++ frames key (next_ctr ctr) ms

abbrev pub opened : Packet → MsgHeader × Bytes
opened m = (header m, m.payload)

abbrev pub before :
    Option (MsgHeader × Bytes)
    → Option (List (MsgHeader × Bytes))
    → Option (List (MsgHeader × Bytes))
before none later = none
before (some m) later = Option.map (λ ms. m ∷ ms) later

module _ {S : Type 0} (stream : ByteStream S) where
  unfoldable pub send_many : List Packet → SecureChannel → S → Bool × SecureChannel × S
  send_many [] c s = (true, c, s)
  send_many (m ∷ ms) c s =
      let (ok, c', s') = sent stream m c s in
      let more = send_many ms c' s' in if ok then more else (false, c', s')

  unfoldable pub recv_many : ℕ → SecureChannel → S → Option (List (MsgHeader × Bytes))
  recv_many zero c s = some []
  recv_many (suc n) c s = let (got, c', s') = recv stream c s in before got (recv_many n c' s')

  module _ (r : Reliable stream) where
    pub send_many-frames :
        (ms : List Packet) (c : SecureChannel) (s : S)
        → r.Live s
        → c.active ≡ true
        → (send_many ms c s).0 ≡ true
        → r.Live (send_many ms c s).2
          × (r.pending (send_many ms c s).2 ≡ r.pending s ++ frames c.tx_key c.tx_ctr ms)
    unfolding send_many
    send_many-frames [] c s live on ok = (live, sym (append-nil (r.pending s)))
    send_many-frames (m ∷ ms) c s live on ok = elim (Bool-cases ((sent stream m c s).0)) [
      | inr failed ↦ absurd (false≢true (rw failed at ok))
      | inl first ↦
          let (same, live1, put1) = send-sealed stream r m c s live on first in
          let (live2, put2) =
            send_many-frames ms (sent stream m c s).1 (sent stream m c s).2 live1
              (ap (λ (t : SecureChannel). t.active) same ∙ on) (rw first at ok) in
          let more : Bytes = frames c.tx_key (next_ctr c.tx_ctr) ms in
          let queued : r.pending (send_many ms (sent stream m c s).1 (sent stream m c s).2).2
              ≡ r.pending (sent stream m c s).2 ++ more =
            put2
            ∙ ap
                (λ (t : SecureChannel).
                  r.pending (sent stream m c s).2 ++ frames t.tx_key t.tx_ctr ms)
                same in
          rw first (
            live2,
            queued
                ∙ ap (λ (t : Bytes). t ++ more) put1
                ∙ append_assoc (r.pending s) (sealed_frame c.tx_key c.tx_ctr m) more,
          )
    ]

    pub recv_many-frames :
        (ms : List Packet) (c : SecureChannel) (rest : Bytes) (s : S)
        → All FitsPacket ms
        → r.Live s
        → c.active ≡ true
        → r.pending s ≡ frames c.rx_key c.rx_ctr ms ++ rest
        → recv_many (length ms) c s ≡ some (map opened ms)
    unfolding recv_many
    recv_many-frames [] c rest s fit live on h = refl
    recv_many-frames (m ∷ ms) c rest s fit live on h =
        let (s1, e1, live1, queue1) =
          recv-sealed stream r m c (frames c.rx_key (next_ctr c.rx_ctr) ms ++ rest) s fit.0 live on
            (h ∙ append_assoc (sealed_frame c.rx_key c.rx_ctr m) _ rest) in
        let later : recv_many (length ms) (record c { rx_ctr = next_ctr c.rx_ctr }) s1
            ≡ some (map opened ms) =
          recv_many-frames ms (record c { rx_ctr = next_ctr c.rx_ctr }) rest s1 fit.1 live1 on
            queue1 in
        rw (e1, later) refl

    -- Messages that an end sends over an idle live stream, and that are all accepted, are received in their
    -- order, with their headers and payloads, by an end whose receiving key and counter are the sending
    -- ones of the first, when both are active and the messages fit a packet.
    pub recv_many-send_many :
        (ms : List Packet) (a b : SecureChannel) (s : S)
        → All FitsPacket ms
        → r.Live s
        → r.pending s ≡ []
        → a.active ≡ true
        → b.active ≡ true
        → a.tx_key ≡ b.rx_key
        → a.tx_ctr ≡ b.rx_ctr
        → (send_many ms a s).0 ≡ true
        → recv_many (length ms) b (send_many ms a s).2 ≡ some (map opened ms)
    recv_many-send_many ms a b s fit live idle on_a on_b keys ctrs ok =
        let (live1, queued) = send_many-frames ms a s live on_a ok in
        recv_many-frames ms b [] (send_many ms a s).2 fit live1 on_b (
          queued
          ∙ ap (λ (t : Bytes). t ++ frames a.tx_key a.tx_ctr ms) idle
          ∙ rw (keys, ctrs) (sym (append-nil (frames b.rx_key b.rx_ctr ms))))
