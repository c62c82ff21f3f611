-- ===== src/Crypto/Aead/Octets.antt =====
-- The numbers that encryption puts out are bytes.
use folder_buddies.Base.Bits.{bit_xor-lt}
use folder_buddies.Crypto.Poly.{poly_finish, Limbs, add_pad}
use folder_buddies.Base.{
  zero, All-drop, drop, ◌+◌, All-take, take, min, [], All-append, suc, length, List, ◌∷◌, arith, ℕ,
  All,
}
use folder_buddies.Crypto.Chacha.{
  u32, chacha20_xor, xor_loop, xor_bytes, chacha20_block, store_sums, store_le32,
}
use folder_buddies.Crypto.Aead.{poly_tag, aead_encrypt}
use folder_buddies.Base.Bytes.{IsByte, Bytes}

All-store_le32 : (v : ℕ) → All IsByte (store_le32 v)
unfolding store_le32
All-store_le32 v = (omega arith, (omega arith, (omega arith, (omega arith, tt))))

All-store_sums : (xs ss : List ℕ) → All IsByte (store_sums xs ss)
unfolding store_sums
All-store_sums [] ss = tt
All-store_sums (x ∷ xs) [] = tt
All-store_sums (x ∷ xs) (s ∷ ss) =
    All-append IsByte (store_le32 _) _ (All-store_le32 _) (All-store_sums xs ss)

All-chacha20_block :
    (key : List ℕ) (counter : ℕ) (nonce : List ℕ) → All IsByte (chacha20_block key counter nonce)
unfolding chacha20_block
All-chacha20_block key counter nonce = All-store_sums _ _

All-xor_bytes : (xs ks : Bytes) → All IsByte xs → All IsByte ks → All IsByte (xor_bytes xs ks)
unfolding xor_bytes
All-xor_bytes [] ks h k = tt
All-xor_bytes (x ∷ xs) [] h k = tt
All-xor_bytes (x ∷ xs) (y ∷ ks) h k = (bit_xor-lt 8 x y h.0 k.0, All-xor_bytes xs ks h.1 k.1)

All-xor_loop :
    (fuel : ℕ) (key : List ℕ) (counter : ℕ) (nonce : List ℕ) (input : Bytes)
    → All IsByte input
    → All IsByte (xor_loop fuel key counter nonce input)
unfolding xor_loop
All-xor_loop fuel key counter nonce [] h = tt
All-xor_loop zero key counter nonce (x ∷ xs) h = tt
All-xor_loop (suc fuel) key counter nonce (x ∷ xs) h =
    let n : ℕ = min (length (x ∷ xs)) 64 in
    All-append IsByte (xor_bytes (take n (x ∷ xs)) (chacha20_block key counter nonce)) _
      (All-xor_bytes (take n (x ∷ xs)) _ (All-take IsByte n (x ∷ xs) h)
        (All-chacha20_block key counter nonce))
      (All-xor_loop fuel key (u32 (counter + 1)) nonce (drop n (x ∷ xs))
        (All-drop IsByte n (x ∷ xs) h))

All-add_pad : (h : Limbs) (pad : List ℕ) → All IsByte (add_pad h pad)
unfolding add_pad
All-add_pad h pad = All-append IsByte (store_le32 _) _ (All-store_le32 _) (
    All-append IsByte (store_le32 _) _ (All-store_le32 _)
      (All-append IsByte (store_le32 _) _ (All-store_le32 _) (All-store_le32 _)))

All-poly_tag : (poly_key aad ct : Bytes) → All IsByte (poly_tag poly_key aad ct)
unfolding poly_tag poly_finish
All-poly_tag poly_key aad ct = All-add_pad _ _

pub All-aead_encrypt :
    (key nonce aad pt : Bytes)
    → All IsByte pt
    → All IsByte (aead_encrypt key nonce aad pt).0 × All IsByte (aead_encrypt key nonce aad pt).1
unfolding aead_encrypt chacha20_xor
All-aead_encrypt key nonce aad pt h = (All-xor_loop (length pt) _ 1 _ pt h, All-poly_tag _ aad _)
