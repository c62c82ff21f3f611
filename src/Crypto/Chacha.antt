-- ===== src/Crypto/Chacha.antt =====
-- ChaCha20 of client/src/crypto/crypto.cpp: the 32-bit words, the block function and the stream.
pub mod Laws
use folder_buddies.Base.Bytes.{Bytes}
use folder_buddies.Base.{
  ◌++◌, set, ◌-◌, take, zero, ◌/◌, ◌+◌, min, bit_xor, drop, ◌∷◌, length, ◌*◌, suc, get_or, [], ◌^◌,
  bit_or, ◌%◌, List, ℕ,
}

abbrev pub u32 : ℕ → ℕ
u32 x = x % 2 ^ 32

unfoldable pub rotl32 : ℕ → ℕ → ℕ
rotl32 x n = bit_or (u32 (x * 2 ^ n)) (x / 2 ^ (32 - n))

-- `p[i]`; a read past the end, which the callers never make, gives 0.
abbrev pub at : Bytes → ℕ → ℕ
at p i = get_or p i 0

unfoldable pub load_le32 : Bytes → ℕ
load_le32 p =
    bit_or (bit_or (bit_or (at p 0) (at p 1 * 2 ^ 8)) (at p 2 * 2 ^ 16)) (u32 (at p 3 * 2 ^ 24))

unfoldable pub store_le32 : ℕ → Bytes
store_le32 v = (v % 256) ∷ (v / 2 ^ 8 % 256) ∷ (v / 2 ^ 16 % 256) ∷ (v / 2 ^ 24 % 256) ∷ []

-- `quarter` on the words at four places of the state.
unfoldable pub quarter : ℕ → ℕ → ℕ → ℕ → List ℕ → List ℕ
quarter ia ib ic id x =
    let a1 = u32 (get_or x ia 0 + get_or x ib 0) in
    let d1 = rotl32 (bit_xor (get_or x id 0) a1) 16 in
    let c1 = u32 (get_or x ic 0 + d1) in
    let b1 = rotl32 (bit_xor (get_or x ib 0) c1) 12 in
    let a2 = u32 (a1 + b1) in
    let d2 = rotl32 (bit_xor d1 a2) 8 in
    let c2 = u32 (c1 + d2) in
    let b2 = rotl32 (bit_xor b1 c2) 7 in set (set (set (set x ia a2) ib b2) ic c2) id d2

unfoldable pub double_round : List ℕ → List ℕ
double_round x = quarter 3 4 9 14 (
    quarter 2 7 8 13 (
      quarter 1 6 11 12 (
        quarter 0 5 10 15
          (quarter 3 7 11 15 (quarter 2 6 10 14 (quarter 1 5 9 13 (quarter 0 4 8 12 x)))))))

unfoldable pub rounds : ℕ → List ℕ → List ℕ
rounds zero x = x
rounds (suc n) x = rounds n (double_round x)

-- The 16 words of the state before the rounds.
unfoldable pub block_state : List ℕ → ℕ → List ℕ → List ℕ
block_state key counter nonce =
    0x61707865
    ∷ 0x3320646e
    ∷ 0x79622d32
    ∷ 0x6b206574
    ∷ get_or key 0 0
    ∷ get_or key 1 0
    ∷ get_or key 2 0
    ∷ get_or key 3 0
    ∷ get_or key 4 0
    ∷ get_or key 5 0
    ∷ get_or key 6 0
    ∷ get_or key 7 0
    ∷ counter
    ∷ get_or nonce 0 0
    ∷ get_or nonce 1 0
    ∷ get_or nonce 2 0
    ∷ []

-- `store_le32(out + 4 * i, x[i] + s[i])` for each word.
unfoldable pub store_sums : List ℕ → List ℕ → Bytes
store_sums [] s = []
store_sums (x ∷ xs) [] = []
store_sums (x ∷ xs) (s ∷ ss) = store_le32 (u32 (x + s)) ++ store_sums xs ss

unfoldable pub chacha20_block : List ℕ → ℕ → List ℕ → Bytes
chacha20_block key counter nonce =
    let s = block_state key counter nonce in store_sums (rounds 10 s) s

-- `out[i] = in[i] ^ block[i]` while there is input; the block is never the shorter of the two.
unfoldable pub xor_bytes : Bytes → Bytes → Bytes
xor_bytes [] ks = []
xor_bytes (x ∷ xs) [] = []
xor_bytes (x ∷ xs) (k ∷ ks) = bit_xor x k ∷ xor_bytes xs ks

-- The loop of `chacha20_xor`. A round takes at least one byte, so `length input` rounds are enough.
unfoldable pub xor_loop : ℕ → List ℕ → ℕ → List ℕ → Bytes → Bytes
xor_loop fuel key counter nonce [] = []
xor_loop zero key counter nonce (x ∷ xs) = []
xor_loop (suc fuel) key counter nonce (x ∷ xs) =
    let n = min (length (x ∷ xs)) 64 in
    xor_bytes (take n (x ∷ xs)) (chacha20_block key counter nonce)
    ++ xor_loop fuel key (u32 (counter + 1)) nonce (drop n (x ∷ xs))

-- `k[i] = load_le32(key + 4 * i)`
unfoldable pub load_words : ℕ → Bytes → List ℕ
load_words zero p = []
load_words (suc n) p = load_le32 p ∷ load_words n (drop 4 p)

unfoldable pub chacha20_xor : Bytes → Bytes → ℕ → Bytes → Bytes
chacha20_xor key nonce counter input =
    xor_loop (length input) (load_words 8 key) counter (load_words 3 nonce) input
