-- ===== src/Crypto/Aead/Laws.antt =====
-- What decryption accepts.
use mathlib.Core.Path.{ap₂}
use folder_buddies.Crypto.Chacha.{chacha20_xor, store_le32}
use folder_buddies.Base.Bytes.{Bytes}
use folder_buddies.Crypto.Poly.{add_pad, poly_finish}
use folder_buddies.Base.{
  ◌∙◌, sym, ap, Bool-cases, inr, inl, [], false, bit_xor, bit_or, ◌⊎◌, ==_iff, zero, ◌∷◌, ◌↔◌, true,
  suc, some, arith, ◌≡◌, ◌≤◌, length, ℕ, refl,
}
use folder_buddies.Base.Bits.{bit_xor_self, eq_of_bit_xor, le-bit_or}
use folder_buddies.Crypto.Aead.{
  diff_bytes, ct_equal, poly_tag, make_poly_key, aead_encrypt, aead_decrypt,
}
use folder_buddies.Crypto.Chacha.Laws.{chacha20_xor-twice, length-chacha20_xor}

diff_bytes_self : (n : ℕ) (a : Bytes) → diff_bytes n a a 0 ≡ 0
unfolding diff_bytes
diff_bytes_self zero a = refl
diff_bytes_self (suc n) [] = refl
diff_bytes_self (suc n) (x ∷ a) = rw (bit_xor_self x) (diff_bytes_self n a)

le-diff_bytes : (n : ℕ) (a b : Bytes) (diff : ℕ) → diff ≤ diff_bytes n a b diff
unfolding diff_bytes
le-diff_bytes zero a b diff = omega arith
le-diff_bytes (suc n) [] b diff = omega arith
le-diff_bytes (suc n) (x ∷ a) [] diff = omega arith
le-diff_bytes (suc n) (x ∷ a) (y ∷ b) diff =
    omega (arith, le-diff_bytes n a b (bit_or diff (bit_xor x y)), le-bit_or diff (bit_xor x y))

eq_of_diff_bytes :
    (n : ℕ) (a b : Bytes) (diff : ℕ)
    → length a ≡ n
    → length b ≡ n
    → diff_bytes n a b diff ≡ 0
    → a ≡ b
unfolding diff_bytes
eq_of_diff_bytes zero [] [] diff ha hb h = refl
eq_of_diff_bytes zero [] (y ∷ b) diff ha hb h = absurd (omega arith)
eq_of_diff_bytes zero (x ∷ a) b diff ha hb h = absurd (omega arith)
eq_of_diff_bytes (suc n) [] b diff ha hb h = absurd (omega arith)
eq_of_diff_bytes (suc n) (x ∷ a) [] diff ha hb h = absurd (omega arith)
eq_of_diff_bytes (suc n) (x ∷ a) (y ∷ b) diff ha hb h =
    ap₂ ◌∷◌
      (eq_of_bit_xor x y (
        omega
          (arith, le-diff_bytes n a b (bit_or diff (bit_xor x y)), le-bit_or diff (bit_xor x y))))
      (eq_of_diff_bytes n a b (bit_or diff (bit_xor x y)) (omega arith) (omega arith) h)

-- The comparison in constant time is equality.
pub ct_equal_iff :
    (a b : Bytes) (n : ℕ) → length a ≡ n → length b ≡ n → (ct_equal a b n ≡ true) ↔ (a ≡ b)
unfolding ct_equal
ct_equal_iff a b n ha hb = (
  λ h. eq_of_diff_bytes n a b 0 ha hb ((==_iff (diff_bytes n a b 0) 0).0 h),
  λ e. (==_iff (diff_bytes n a b 0) 0).1 (rw (← e) (diff_bytes_self n a)),
)

pub length-poly_tag : (poly_key aad ct : Bytes) → length (poly_tag poly_key aad ct) ≡ 16
unfolding poly_tag poly_finish add_pad store_le32
length-poly_tag poly_key aad ct = refl

-- `aead_decrypt` returns a plaintext for exactly the ciphertext and 16-byte tag that `aead_encrypt`
-- makes of it under the same key, nonce and associated data; anything else is refused.
pub aead_decrypt_iff :
    (key nonce aad ct tag pt : Bytes)
    → length tag ≡ 16
    → (aead_decrypt key nonce aad ct tag ≡ some pt) ↔ (aead_encrypt key nonce aad pt ≡ (ct, tag))
unfolding aead_decrypt aead_encrypt
aead_decrypt_iff key nonce aad ct tag pt len = (opened (Bool-cases _), sealed)
  where
    stream : Bytes → Bytes
    stream = chacha20_xor key nonce 1

    mac : Bytes → Bytes
    mac = poly_tag (make_poly_key key nonce) aad

    same : (ct_equal (mac ct) tag 16 ≡ true) ↔ (mac ct ≡ tag)
    same = ct_equal_iff (mac ct) tag 16 (length-poly_tag _ aad ct) len

    opened :
        (ct_equal (mac ct) tag 16 ≡ true) ⊎ (ct_equal (mac ct) tag 16 ≡ false)
        → aead_decrypt key nonce aad ct tag ≡ some pt
        → aead_encrypt key nonce aad pt ≡ (ct, tag)
    opened (inl fits) h =
        let plain : stream ct ≡ pt = cc (rw fits at h) in
        let back : stream pt ≡ ct = ap stream (sym plain) ∙ chacha20_xor-twice key nonce 1 ct in
        ap₂ (λ (c t : Bytes). (c, t)) back (ap mac back ∙ same.0 fits)
    opened (inr wrong) h = cc (rw wrong at h)

    sealed : aead_encrypt key nonce aad pt ≡ (ct, tag) → aead_decrypt key nonce aad ct tag ≡ some pt
    sealed e =
        let text : stream pt ≡ ct = ap (λ q. q.0) e in
        let right : mac ct ≡ tag = ap mac (sym text) ∙ ap (λ q. q.1) e in
        rw (same.1 right) (ap some (ap stream (sym text) ∙ chacha20_xor-twice key nonce 1 pt))

pub length-aead_encrypt :
    (key nonce aad pt : Bytes)
    → (length (aead_encrypt key nonce aad pt).0 ≡ length pt)
      × (length (aead_encrypt key nonce aad pt).1 ≡ 16)
unfolding aead_encrypt
length-aead_encrypt key nonce aad pt =
    (length-chacha20_xor key nonce 1 pt, length-poly_tag (make_poly_key key nonce) aad _)

-- Decryption gives back what was encrypted.
pub aead_decrypt-aead_encrypt :
    (key nonce aad pt : Bytes)
    → aead_decrypt key nonce aad (aead_encrypt key nonce aad pt).0 (aead_encrypt key nonce aad pt).1
      ≡ some pt
aead_decrypt-aead_encrypt key nonce aad pt =
    (aead_decrypt_iff key nonce aad (aead_encrypt key nonce aad pt).0
        (aead_encrypt key nonce aad pt).1 pt (length-aead_encrypt key nonce aad pt).1).1
      refl
