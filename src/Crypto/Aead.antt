-- ===== src/Crypto/Aead.antt =====
-- The authenticated encryption of client/src/crypto/crypto.cpp.
pub mod Laws
pub mod Octets
use folder_buddies.Base.Bytes.{le_bytes, Bytes}
use folder_buddies.Base.{
  [], zero, ◌-◌, none, bit_xor, replicate, ◌%◌, some, bit_or, ◌++◌, if◌then◌else◌, ◌==◌, length,
  ◌∷◌, Bool, suc, Option, take, ℕ,
}
use folder_buddies.Crypto.Chacha.{load_words, chacha20_block, chacha20_xor}
use folder_buddies.Crypto.Poly.{Poly1305, poly_init, poly_update, poly_finish}

-- Zeros up to a multiple of 16 bytes.
unfoldable pub update_padded : Bytes → Poly1305 → Poly1305
update_padded m p =
    let q = poly_update m p in
    if length m % 16 == 0 then q else poly_update (replicate (16 - length m % 16) 0) q

unfoldable pub poly_tag : Bytes → Bytes → Bytes → Bytes
poly_tag poly_key aad ct = poly_finish (
    poly_update (le_bytes 8 (length aad) ++ le_bytes 8 (length ct))
      (update_padded ct (update_padded aad (poly_init poly_key))))

unfoldable pub make_poly_key : Bytes → Bytes → Bytes
make_poly_key key nonce = take 32 (chacha20_block (load_words 8 key) 0 (load_words 3 nonce))

-- The loop of `ct_equal`, with `diff` so far.
unfoldable pub diff_bytes : ℕ → Bytes → Bytes → ℕ → ℕ
diff_bytes zero a b diff = diff
diff_bytes (suc n) [] b diff = diff
diff_bytes (suc n) (x ∷ a) [] diff = diff
diff_bytes (suc n) (x ∷ a) (y ∷ b) diff = diff_bytes n a b (bit_or diff (bit_xor x y))

unfoldable pub ct_equal : Bytes → Bytes → ℕ → Bool
ct_equal a b n = diff_bytes n a b 0 == 0

-- The ciphertext and the tag.
unfoldable pub aead_encrypt : Bytes → Bytes → Bytes → Bytes → Bytes × Bytes
aead_encrypt key nonce aad pt =
    let ct = chacha20_xor key nonce 1 pt in (ct, poly_tag (make_poly_key key nonce) aad ct)

unfoldable pub aead_decrypt : Bytes → Bytes → Bytes → Bytes → Bytes → Option Bytes
aead_decrypt key nonce aad ct tag =
    let expect = poly_tag (make_poly_key key nonce) aad ct in
    if ct_equal expect tag 16 then some (chacha20_xor key nonce 1 ct) else none
