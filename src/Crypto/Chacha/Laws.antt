-- ===== src/Crypto/Chacha/Laws.antt =====
-- The key stream is long enough, and a second pass of it gives the text back.
use mathlib.Core.Path.{ap₂}
use folder_buddies.Base.Bytes.{Bytes}
use folder_buddies.Base.{
  take-append-drop, length-drop, drop_exact, length-take, length-append, take_exact, drop, ◌+◌, [],
  ◌++◌, ap, arith, min, ◌∷◌, zero, ◌∙◌, take, length-set, ◌*◌, ◌≤◌, ◌≡◌, suc, length, List, ℕ, refl,
}
use folder_buddies.Base.Bits.{bit_xor-twice}
use folder_buddies.Crypto.Chacha.{
  load_words, quarter, double_round, rounds, block_state, store_sums, store_le32, chacha20_block,
  xor_bytes, xor_loop, chacha20_xor, u32,
}

length-quarter : (a b c d : ℕ) (x : List ℕ) → length (quarter a b c d x) ≡ length x
unfolding quarter
length-quarter a b c d x = simp length-set

length-rounds : (n : ℕ) (x : List ℕ) → length (rounds n x) ≡ length x
unfolding rounds double_round
length-rounds zero x = refl
length-rounds (suc n) x = rw (length-rounds n (double_round x)) (simp length-quarter)

length-store_sums :
    (xs ss : List ℕ) → length xs ≡ length ss → length (store_sums xs ss) ≡ 4 * length xs
unfolding store_sums store_le32
length-store_sums [] [] h = refl
length-store_sums [] (s ∷ ss) h = refl
length-store_sums (x ∷ xs) [] h = absurd (omega arith)
length-store_sums (x ∷ xs) (s ∷ ss) h = omega (arith, length-store_sums xs ss (omega arith))

pub length-chacha20_block :
    (key : List ℕ) (counter : ℕ) (nonce : List ℕ) → length (chacha20_block key counter nonce) ≡ 64
unfolding chacha20_block
length-chacha20_block key counter nonce =
    length-store_sums (rounds 10 (block_state key counter nonce)) (block_state key counter nonce)
      (length-rounds 10 (block_state key counter nonce))
    ∙ rw (length-rounds 10 (block_state key counter nonce)) (unfold block_state in refl)

xor_bytes-twice : (xs ks : Bytes) → length xs ≤ length ks → xor_bytes (xor_bytes xs ks) ks ≡ xs
unfolding xor_bytes
xor_bytes-twice [] ks h = refl
xor_bytes-twice (x ∷ xs) [] h = absurd (omega arith)
xor_bytes-twice (x ∷ xs) (k ∷ ks) h =
    ap₂ ◌∷◌ (bit_xor-twice x k) (xor_bytes-twice xs ks (omega arith))

length-xor_bytes : (xs ks : Bytes) → length xs ≤ length ks → length (xor_bytes xs ks) ≡ length xs
unfolding xor_bytes
length-xor_bytes [] ks h = refl
length-xor_bytes (x ∷ xs) [] h = absurd (omega arith)
length-xor_bytes (x ∷ xs) (k ∷ ks) h = ap suc (length-xor_bytes xs ks (omega arith))

module _ (key nonce : List ℕ) where
  -- One round, for any input that the fuel covers.
  round :
      (fuel counter : ℕ) (input : Bytes)
      → xor_loop (suc fuel) key counter nonce input
        ≡ xor_bytes (take (min (length input) 64) input) (chacha20_block key counter nonce)
          ++ xor_loop fuel key (u32 (counter + 1)) nonce (drop (min (length input) 64) input)
  unfolding xor_loop
  round zero counter [] = unfold xor_bytes in refl
  round (suc fuel) counter [] = unfold xor_bytes in refl
  round fuel counter (x ∷ xs) = refl

  abbrev cut : Bytes → ℕ
  cut input = min (length input) 64

  -- What one round puts out has the length of what it takes.
  length-front :
      (counter : ℕ) (input : Bytes)
      → length (xor_bytes (take (cut input) input) (chacha20_block key counter nonce)) ≡ cut input
  length-front counter input =
      length-xor_bytes (take (cut input) input) (chacha20_block key counter nonce)
        (omega (arith, length-take (cut input) input, length-chacha20_block key counter nonce))
      ∙ omega (arith, length-take (cut input) input)

  pub length-xor_loop :
      (fuel counter : ℕ) (input : Bytes)
      → length input ≤ fuel
      → length (xor_loop fuel key counter nonce input) ≡ length input
  length-xor_loop zero counter [] h = unfold xor_loop in refl
  length-xor_loop zero counter (x ∷ xs) h = absurd (omega arith)
  length-xor_loop (suc fuel) counter input h =
      rw (round fuel counter input, length-append)
        (omega (
          arith,
          length-front counter input,
          length-drop (cut input) input,
          length-xor_loop fuel (u32 (counter + 1)) (drop (cut input) input)
              (omega (arith, length-drop (cut input) input)),
        ))

  xor_loop-twice :
      (fuel counter : ℕ) (input : Bytes)
      → length input ≤ fuel
      → xor_loop fuel key counter nonce (xor_loop fuel key counter nonce input) ≡ input
  xor_loop-twice zero counter [] h = unfold xor_loop in refl
  xor_loop-twice zero counter (x ∷ xs) h = absurd (omega arith)
  xor_loop-twice (suc fuel) counter input h =
      let block : Bytes = chacha20_block key counter nonce in
      let front : Bytes = xor_bytes (take (cut input) input) block in
      let back : Bytes = xor_loop fuel key (u32 (counter + 1)) nonce (drop (cut input) input) in
      let same : cut (xor_loop (suc fuel) key counter nonce input) ≡ cut input =
        ap (λ (t : ℕ). min t 64) (length-xor_loop (suc fuel) counter input h) in
      let long : length front ≡ cut input = length-front counter input in
      round fuel counter (xor_loop (suc fuel) key counter nonce input)
      ∙ rw
          (
            same,
            round fuel counter input,
            take_exact (cut input) front back long,
            drop_exact (cut input) front back long,
            xor_bytes-twice (take (cut input) input) block (
                omega
                  (arith, length-take (cut input) input, length-chacha20_block key counter nonce)),
            xor_loop-twice fuel (u32 (counter + 1)) (drop (cut input) input)
                (omega (arith, length-drop (cut input) input)),
          )
          (take-append-drop (cut input) input)

pub length-chacha20_xor :
    (key nonce : Bytes) (counter : ℕ) (input : Bytes)
    → length (chacha20_xor key nonce counter input) ≡ length input
unfolding chacha20_xor
length-chacha20_xor key nonce counter input =
    length-xor_loop (load_words 8 key) (load_words 3 nonce) (length input) counter input
      (omega arith)

-- ChaCha20 is its own inverse, on an input of any length.
pub chacha20_xor-twice :
    (key nonce : Bytes) (counter : ℕ) (input : Bytes)
    → chacha20_xor key nonce counter (chacha20_xor key nonce counter input) ≡ input
unfolding chacha20_xor
chacha20_xor-twice key nonce counter input =
    let k : List ℕ = load_words 8 key in
    let n : List ℕ = load_words 3 nonce in
    rw (length-xor_loop k n (length input) counter input (omega arith))
      (xor_loop-twice k n (length input) counter input (omega arith))
