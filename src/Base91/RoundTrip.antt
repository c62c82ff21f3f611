-- ===== src/Base91/RoundTrip.antt =====
-- Decoding gives back what was encoded.
use native.Mathlib.Nat.{mod-eq_of_lt, pow-le-pow_right}
use folder_buddies.Base91.Bits.{low8, push_bits, after}
use folder_buddies.Base91.Encode.{encode_digit, encode_queued, digit_lem, digit}
use folder_buddies.Base91.{
  encode_loop, base91_encode, base91_decode, encode_end, alphabet_at, decode_end, decode_loop,
}
use folder_buddies.Base.Bytes.{IsByte, le_bytes, Bytes}
use native.Mathlib.Decide.{dec_le}
use folder_buddies.Base.{
  suc-==-zero, suc, false, All, true, inr, ◌||◌, ltb, sym, ap, Bool-cases, append-nil, inl, ◌/◌,
  ◌∙◌, ◌*◌, append_assoc, ◌+◌, ◌%◌, arith, zero, [], some, ◌≤◌, ◌∷◌, ◌⊎◌, ◌≡◌, ◌^◌, ◌++◌, none, ◌<◌,
  ℕ,
}
use folder_buddies.Base91.Decode.{width_bounds, decode_first, decode_pair, behind, resume}
use folder_buddies.Base91.Queue.{
  digit_bytes, digit-Between, held-snoc, queued-Between, taken, digit_bits, bytes_out, with_byte,
  Between,
}

behind-digit :
    (out : Bytes) (b m q : ℕ)
    → behind out b m (digit q)
      ≡ after
          (bytes_out b m q (digit_bits q))
          out
          (taken b m q (digit_bits q))
          ((m + digit_bits q) % 8)
behind-digit out b m q = rw (digit_lem q).1

-- One digit moves whole bytes to the output.
decode_digit :
    {b m c n k : ℕ} (w : Between b m c n k) (byte : ℕ) (out text : Bytes)
    → decode_loop out none b m (
        alphabet_at (digit (with_byte c n byte) % 91)
        ∷ alphabet_at (digit (with_byte c n byte) / 91)
        ∷ text)
      ≡ resume
          (after
            (bytes_out b m (with_byte c n byte) (digit_bits (with_byte c n byte)))
            out
            (taken b m (with_byte c n byte) (digit_bits (with_byte c n byte)))
            ((m + digit_bits (with_byte c n byte)) % 8))
          text
decode_digit {b} {m} {c} {n} w byte out text =
    decode_pair (digit (with_byte c n byte)) out b m text (digit_lem (with_byte c n byte)).0 w.low
      w.few
    ∙ ap (λ t. resume t text) (behind-digit out b m (with_byte c n byte))

regroup :
    (out low high held rest : Bytes) (byte : ℕ)
    → held ++ (byte ∷ []) ≡ low ++ high
    → (out ++ low) ++ (high ++ rest) ≡ out ++ (held ++ byte ∷ rest)
regroup out low high held rest byte e =
    append_assoc out low (high ++ rest)
    ∙ ap (λ t. out ++ t)
        (sym (append_assoc low high rest) ∙ rw (← e) (append_assoc held (byte ∷ []) rest))

rest_none :
    {b m c k : ℕ} (w : Between b m c zero k) (out : Bytes)
    → decode_loop out none b m (encode_end c zero) ≡ some (out ++ le_bytes k (b + c * 2 ^ m))
unfolding decode_loop decode_end encode_end le_bytes
rest_none {b} {m} {c} {k} w out =
    let k0 : k ≡ 0 = omega (arith, w.whole, w.few) in rw (k0, append-nil)

large_bits : (c n : ℕ) → c < 2 ^ n → 90 < c → 7 ≤ n
large_bits c n h big = elim (dec_le n 6) [
  | yes few ↦ absurd (omega (arith, pow-le-pow_right {n = 2} (omega arith) few))
  | no many ↦ omega arith
]

-- The last two characters.
rest_two :
    {b m c n k : ℕ} (w : Between b m c n k) (out : Bytes)
    → 0 < n
    → 7 < n ⊎ 90 < c
    → resume (behind out b m c) [] ≡ some (out ++ le_bytes k (b + c * 2 ^ m))
unfolding decode_loop decode_end
rest_two {b} {m} {c} {n} {k} w out pos (inl h) =
    ap (λ (t : ℕ). some (out ++ le_bytes t (b + c * 2 ^ m)))
      (omega (arith, w.whole, w.few, w.room, width_bounds (c % 8192)))
rest_two {b} {m} {c} {n} {k} w out pos (inr h) =
    ap (λ (t : ℕ). some (out ++ le_bytes t (b + c * 2 ^ m)))
      (omega (arith, w.whole, w.few, w.room, width_bounds (c % 8192), large_bits c n w.high h))

-- One last character.
rest_one :
    {b m c n k : ℕ} (w : Between b m c n k) (out : Bytes)
    → 0 < n
    → n ≤ 7
    → c ≤ 90
    → decode_loop out (some c) b m [] ≡ some (out ++ le_bytes k (b + c * 2 ^ m))
unfolding decode_loop decode_end le_bytes
rest_one {b} {m} {c} {n} {k} w out pos few small =
    let k1 : k ≡ 1 = omega (arith, w.whole, w.few) in
    rw (k1, push_bits b c m w.low (omega (arith, w.few)) (omega arith), low8 (b + c * 2 ^ m))

end_two :
    (c n : ℕ)
    → (ltb 7 (suc n) || ltb 90 c) ≡ true
    → encode_end c (suc n) ≡ alphabet_at (c % 91) ∷ alphabet_at (c / 91) ∷ []
unfolding encode_end
end_two c n h = rw (suc-==-zero, h)

end_one :
    (c n : ℕ)
    → (ltb 7 (suc n) || ltb 90 c) ≡ false
    → encode_end c (suc n) ≡ alphabet_at (c % 91) ∷ []
unfolding encode_end
end_one c n h = rw (suc-==-zero, h)

two_cases : (c n : ℕ) → (ltb 7 n || ltb 90 c) ≡ true → 7 < n ⊎ 90 < c
two_cases c n h = ground arith

one_cases : (c n : ℕ) → (ltb 7 n || ltb 90 c) ≡ false → (n ≤ 7) × (c ≤ 90)
one_cases c n h = ground arith

digit_small : (c n : ℕ) → c < 2 ^ n → n ≤ 13 → c < 8281
digit_small c n h room = omega (arith, pow-le-pow_right {n = 2} (omega arith) room)

-- What is decoded from the last characters.
decode_rest :
    {b m c n k : ℕ} (w : Between b m c n k) (out : Bytes)
    → decode_loop out none b m (encode_end c n) ≡ some (out ++ le_bytes k (b + c * 2 ^ m))
decode_rest {n = zero} w out = rest_none w out
decode_rest {b} {m} {c} {n = suc n} w out = elim (Bool-cases (ltb 7 (suc n) || ltb 90 c)) [
  | inl two ↦
      ap (decode_loop out none b m) (end_two c n two)
      ∙ decode_pair c out b m [] (digit_small c (suc n) w.high w.room) w.low w.few
      ∙ rest_two w out (omega arith) (two_cases c (suc n) two)
  | inr one ↦
      let (few, small) = one_cases c (suc n) one in
      ap (decode_loop out none b m) (end_one c n one)
      ∙ decode_first (c % 91) out b m [] (omega arith)
      ∙ ap (λ (t : ℕ). decode_loop out (some t) b m []) (mod-eq_of_lt (omega arith))
      ∙ rest_one w out (omega arith) few small
]

-- The decoder on what the encoder puts out, from two queues that hold `k` bytes together.
decode_loop-encode_loop :
    (input out : Bytes) (b m c n k : ℕ)
    → Between b m c n k
    → All IsByte input
    → decode_loop out none b m (encode_loop c n input)
      ≡ some (out ++ (le_bytes k (b + c * 2 ^ m) ++ input))
decode_loop-encode_loop [] out b m c n k w h =
    unfold encode_loop in decode_rest w out ∙ ap (λ t. some (out ++ t)) (sym (append-nil _))
decode_loop-encode_loop (byte ∷ rest) out b m c n k w h = elim (dec_le n 5) [
  | yes few ↦
      ap (decode_loop out none b m) (encode_queued c n byte rest w.high few h.0)
      ∙ decode_loop-encode_loop rest out _ _ _ _ _ (queued-Between w byte h.0 few) h.1
      ∙ ap (λ t. some (out ++ t)) (rw (held-snoc w byte h.0) (append_assoc _ (byte ∷ []) rest))
  | no many ↦
      ap (decode_loop out none b m) (encode_digit c n byte rest w.high (omega arith) w.room h.0)
      ∙ decode_digit w byte out _
      ∙ decode_loop-encode_loop rest _ _ _ _ _ _ (digit-Between w byte h.0 (omega arith)) h.1
      ∙ ap some (regroup out _ _ _ rest byte (digit_bytes w byte h.0 (omega arith)))
]

-- `base91_decode` gives back the bytes that `base91_encode` was given, for any bytes.
pub base91_decode-base91_encode :
    (input : Bytes) → All IsByte input → base91_decode (base91_encode input) ≡ some input
unfolding base91_decode base91_encode le_bytes
base91_decode-base91_encode input h =
    decode_loop-encode_loop input [] 0 0 0 0 0
      (record {
        low = omega arith;
        high = omega arith;
        few = omega arith;
        room = omega arith;
        whole = omega arith;
      })
      h
