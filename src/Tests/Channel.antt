-- ===== src/Tests/Channel.antt =====
-- The secure channel over the memory stream, and the parts of its encryption.
use folder_buddies.Base.Bytes.{Bytes}
use folder_buddies.Crypto.Channel.{send, SecureChannel}
use folder_buddies.Crypto.Chacha.{chacha20_xor}
use folder_buddies.Wire.Stream.{memory_write, memory_stream, Memory}
use folder_buddies.Crypto.Aead.{aead_encrypt, aead_decrypt}
use folder_buddies.Base.{
  ◌++◌, false, take, ℕ, map, some, ◌↔◌, true, [], ◌∷◌, replicate, arith, ◌≡◌, List, All, refl,
}
use folder_buddies.Crypto.Channel.Session.{opened, send_many, recv_many, recv_many-send_many}
use folder_buddies.Crypto.Channel.RoundTrip.{FitsPacket, Packet}
use folder_buddies.Crypto.Channel.Nonce.{nonce_from_counter-injective}
use folder_buddies.Crypto.Aead.Laws.{aead_decrypt_iff}
use folder_buddies.Crypto.Chacha.Laws.{chacha20_xor-twice}
use folder_buddies.Wire.Stream.Laws.{memory_reliable}

abbrev key : Bytes
key = replicate 32 7

abbrev nonce : Bytes
nonce = replicate 12 3

abbrev text : Bytes
text = 104 ∷ 105 ∷ []

chacha20_xor-twice_example : chacha20_xor key nonce 1 (chacha20_xor key nonce 1 text) ≡ text
chacha20_xor-twice_example = chacha20_xor-twice key nonce 1 text

aead_decrypt_iff_example :
    (aead_decrypt key nonce [] text (replicate 16 0) ≡ some text)
    ↔ (aead_encrypt key nonce [] text ≡ (text, replicate 16 0))
aead_decrypt_iff_example = aead_decrypt_iff key nonce [] text (replicate 16 0) text refl

nonce_from_counter-injective_example : Path ℕ 5 5
nonce_from_counter-injective_example =
    nonce_from_counter-injective 5 5 (omega arith) (omega arith) refl

abbrev packets : List Packet
packets =
    record { op = 5; status = 0; req_id = 1; payload = text }
    ∷ record { op = 7; status = 2; req_id = 2; payload = [] }
    ∷ []

abbrev sender : SecureChannel
sender = record { tx_key = key; rx_key = nonce; tx_ctr = 4; rx_ctr = 0; active = true }

abbrev receiver : SecureChannel
receiver = record { tx_key = nonce; rx_key = key; tx_ctr = 9; rx_ctr = 4; active = true }

abbrev empty_memory : Memory
empty_memory = record { bytes = []; offset = 0 }

packets_sent : (send_many memory_stream packets sender empty_memory).0 ≡ true
unfolding send_many send memory_stream memory_write
packets_sent = refl

packets_fit : All FitsPacket packets
packets_fit = (
  record { op = omega arith; status = omega arith; req_id = omega arith; size = omega arith },
  (record { op = omega arith; status = omega arith; req_id = omega arith; size = omega arith }, tt),
)

recv_many-send_many_example :
    recv_many memory_stream 2 receiver (send_many memory_stream packets sender empty_memory).2
    ≡ some (map opened packets)
unfolding memory_reliable
recv_many-send_many_example =
    recv_many-send_many memory_stream memory_reliable packets sender receiver empty_memory
      packets_fit (omega arith) refl refl refl refl refl packets_sent

-- A stand-in for the keyed hash.
abbrev toy_hmac : Bytes → Bytes → Bytes
toy_hmac k d = take 32 (d ++ (k ++ replicate 32 0))

abbrev closed : SecureChannel
closed = record { tx_key = []; rx_key = []; tx_ctr = 0; rx_ctr = 0; active = false }
