-- ===== src/Crypto/Channel/Nonce.antt =====
-- The nonces of a channel: no counter value is used twice with the same nonce.
use folder_buddies.Base.{◌∙◌, take_exact, sym, ap, replicate, take, ◌≡◌, ℕ, ◌<◌, ◌^◌, ◌++◌}
use folder_buddies.Base.Bytes.{le_bytes, from_le, from_le-le_bytes, length-le_bytes}
use folder_buddies.Crypto.Channel.{nonce_from_counter}

-- Two counters of 64 bits with the same nonce are the same.
pub nonce_from_counter-injective :
    (a b : ℕ) → a < 2 ^ 64 → b < 2 ^ 64 → nonce_from_counter a ≡ nonce_from_counter b → a ≡ b
unfolding nonce_from_counter
nonce_from_counter-injective a b small_a small_b same =
    let low : take 8 (le_bytes 8 a ++ replicate 4 0) ≡ take 8 (le_bytes 8 b ++ replicate 4 0) =
      ap (take 8) same in
    let bytes : le_bytes 8 a ≡ le_bytes 8 b =
      sym (take_exact 8 (le_bytes 8 a) _ (length-le_bytes 8 a))
      ∙ low
      ∙ take_exact 8 (le_bytes 8 b) _ (length-le_bytes 8 b) in
    sym (from_le-le_bytes 8 a small_a) ∙ ap from_le bytes ∙ from_le-le_bytes 8 b small_b
