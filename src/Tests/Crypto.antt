-- ===== src/Tests/Crypto.antt =====
-- The self-test of client/src/crypto/crypto.cpp.
use folder_buddies.Crypto.Poly.{
  poly_finish, add_pad, select_reduced, final_carry, poly_pad, poly_update, update_rest,
  poly_blocks, block_loop, block_step, carry_limbs, mul_limbs, absorb_block, poly_init,
}
use folder_buddies.Crypto.Chacha.{
  chacha20_xor, load_words, xor_loop, xor_bytes, chacha20_block, store_sums, block_state, rounds,
  double_round, quarter, store_le32, load_le32, rotl32,
}
use folder_buddies.Crypto.Aead.{
  aead_decrypt, ct_equal, diff_bytes, make_poly_key, poly_tag, update_padded, aead_encrypt,
}
use folder_buddies.Base.Bytes.{le_bytes, codes, Bytes}
use folder_buddies.Base.{zero, ◌+◌, suc, [], ◌≡◌, ◌∷◌, take, ℕ, refl}

program : Unit {0}
unfolding rotl32 load_le32 store_le32 quarter double_round rounds block_state store_sums
    chacha20_block xor_bytes xor_loop load_words chacha20_xor poly_init absorb_block mul_limbs
    carry_limbs block_step block_loop poly_blocks update_rest poly_update poly_pad final_carry
    select_reduced add_pad poly_finish update_padded poly_tag make_poly_key diff_bytes ct_equal
    aead_encrypt aead_decrypt le_bytes
program = tt

abbrev key : Bytes
key = up_from 0x80 32
  where
    up_from : ℕ → ℕ → Bytes
    up_from a zero = []
    up_from a (suc n) = a ∷ up_from (a + 1) n

abbrev nonce : Bytes
nonce = 0x07 ∷ 0 ∷ 0 ∷ 0 ∷ 0x40 ∷ 0x41 ∷ 0x42 ∷ 0x43 ∷ 0x44 ∷ 0x45 ∷ 0x46 ∷ 0x47 ∷ []

abbrev aad : Bytes
aad = 0x50 ∷ 0x51 ∷ 0x52 ∷ 0x53 ∷ 0xc0 ∷ 0xc1 ∷ 0xc2 ∷ 0xc3 ∷ 0xc4 ∷ 0xc5 ∷ 0xc6 ∷ 0xc7 ∷ []

abbrev text : Bytes
text =
    codes
      "Ladies and Gentlemen of the class of '99: If I could offer you only one tip for the future, sunscreen would be it."

abbrev expect_tag : Bytes
expect_tag =
    0x1a ∷ 0xe1 ∷ 0x0b ∷ 0x59 ∷ 0x4f ∷ 0x09 ∷ 0xe2 ∷ 0x6a ∷ 0x7e ∷ 0x90 ∷ 0x2e ∷ 0xcb ∷ 0xd0 ∷ 0x60
    ∷ 0x06 ∷ 0x91 ∷ []

encrypts : (aead_encrypt key nonce aad text).1 ≡ expect_tag
unfolding program
encrypts = refl

encrypts_text :
    take 8 (aead_encrypt key nonce aad text).0
    ≡ 0xd3 ∷ 0x1a ∷ 0x8d ∷ 0x34 ∷ 0x64 ∷ 0x8e ∷ 0x60 ∷ 0xdb ∷ []
unfolding program
encrypts_text = refl
