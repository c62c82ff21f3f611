-- ===== src/Crypto/Poly.antt =====
-- Poly1305 of client/src/crypto/crypto.cpp: five limbs of 26 bits, with the wraps of `uint32_t` and
-- `uint64_t` written out.
use folder_buddies.Base.Bytes.{Bytes}
use folder_buddies.Base.{
  ltb, min, false, take, true, ◌==◌, zero, ◌-◌, [], get_or, leb, replicate, length, bit_or,
  if◌then◌else◌, suc, ◌∷◌, drop, ◌^◌, ◌+◌, ◌*◌, ◌++◌, List, Bool, ◌%◌, ◌/◌, bit_and, ℕ,
}
use folder_buddies.Crypto.Chacha.{u32, load_le32, store_le32}

abbrev pub u64 : ℕ → ℕ
u64 x = x % 2 ^ 64

-- Five limbs, lowest first.
pub record Limbs : Type 0 where
  pub l0 : ℕ
  pub l1 : ℕ
  pub l2 : ℕ
  pub l3 : ℕ
  pub l4 : ℕ

-- `buffer` holds the `leftover` bytes that no block has taken yet.
pub record Poly1305 : Type 0 where
  pub r : Limbs
  pub h : Limbs
  pub pad : List ℕ
  pub buffer : Bytes
  pub final : Bool

unfoldable pub poly_init : Bytes → Poly1305
poly_init key = record {
  r = record {
    l0 = bit_and (load_le32 key) 0x3ffffff;
    l1 = bit_and (load_le32 (drop 3 key) / 2 ^ 2) 0x3ffff03;
    l2 = bit_and (load_le32 (drop 6 key) / 2 ^ 4) 0x3ffc0ff;
    l3 = bit_and (load_le32 (drop 9 key) / 2 ^ 6) 0x3f03fff;
    l4 = bit_and (load_le32 (drop 12 key) / 2 ^ 8) 0x00fffff;
  };
  h = record { l0 = 0; l1 = 0; l2 = 0; l3 = 0; l4 = 0 };
  pad =
      load_le32 (drop 16 key)
      ∷ load_le32 (drop 20 key)
      ∷ load_le32 (drop 24 key)
      ∷ load_le32 (drop 28 key)
      ∷ [];
  buffer = [];
  final = false;
}

-- `h += m` for one block of 16 bytes.
unfoldable pub absorb_block : Limbs → Bool → Bytes → Limbs
absorb_block h final m = record {
  l0 = u32 (h.l0 + bit_and (load_le32 m) 0x3ffffff);
  l1 = u32 (h.l1 + bit_and (load_le32 (drop 3 m) / 2 ^ 2) 0x3ffffff);
  l2 = u32 (h.l2 + bit_and (load_le32 (drop 6 m) / 2 ^ 4) 0x3ffffff);
  l3 = u32 (h.l3 + bit_and (load_le32 (drop 9 m) / 2 ^ 6) 0x3ffffff);
  l4 = u32 (h.l4 + bit_or (load_le32 (drop 12 m) / 2 ^ 8) (if final then 0 else 2 ^ 24));
}

-- `h *= r`, the products d0 to d4 before the carries.
unfoldable pub mul_limbs : Limbs → Limbs → Limbs
mul_limbs h r =
    let s1 = u32 (r.l1 * 5) in
    let s2 = u32 (r.l2 * 5) in
    let s3 = u32 (r.l3 * 5) in
    let s4 = u32 (r.l4 * 5) in
    record {
      l0 = u64 (h.l0 * r.l0 + h.l1 * s4 + h.l2 * s3 + h.l3 * s2 + h.l4 * s1);
      l1 = u64 (h.l0 * r.l1 + h.l1 * r.l0 + h.l2 * s4 + h.l3 * s3 + h.l4 * s2);
      l2 = u64 (h.l0 * r.l2 + h.l1 * r.l1 + h.l2 * r.l0 + h.l3 * s4 + h.l4 * s3);
      l3 = u64 (h.l0 * r.l3 + h.l1 * r.l2 + h.l2 * r.l1 + h.l3 * r.l0 + h.l4 * s4);
      l4 = u64 (h.l0 * r.l4 + h.l1 * r.l3 + h.l2 * r.l2 + h.l3 * r.l1 + h.l4 * r.l0);
    }

-- `uint32_t(d >> 26)` and `uint32_t(d) & 0x3ffffff`
abbrev pub carry : ℕ → ℕ
carry d = u32 (d / 2 ^ 26)

abbrev pub low26 : ℕ → ℕ
low26 d = bit_and (u32 d) 0x3ffffff

-- The carries from limb to limb, and from the top limb round to the lowest, times five.
unfoldable pub carry_limbs : Limbs → Limbs
carry_limbs d =
    let d1 = u64 (d.l1 + carry d.l0) in
    let d2 = u64 (d.l2 + carry d1) in
    let d3 = u64 (d.l3 + carry d2) in
    let d4 = u64 (d.l4 + carry d3) in
    let h0 = u32 (low26 d.l0 + u32 (carry d4 * 5)) in
    record {
      l0 = low26 h0;
      l1 = u32 (low26 d1 + h0 / 2 ^ 26);
      l2 = low26 d2;
      l3 = low26 d3;
      l4 = low26 d4;
    }

unfoldable pub block_step : Limbs → Bool → Limbs → Bytes → Limbs
block_step r final h m = carry_limbs (mul_limbs (absorb_block h final m) r)

-- `blocks(m, bytes)`: `n` is the number of whole blocks.
unfoldable pub block_loop : ℕ → Limbs → Bool → Limbs → Bytes → Limbs
block_loop zero r final h m = h
block_loop (suc n) r final h m = block_loop n r final (block_step r final h m) (drop 16 m)

unfoldable pub poly_blocks : Bytes → Poly1305 → Poly1305
poly_blocks m p = record p { h = block_loop (length m / 16) p.r p.final p.h m }

-- `update`, once the buffer is empty or was filled up: whole blocks, then the rest is buffered.
unfoldable pub update_rest : Bytes → Poly1305 → Poly1305
update_rest m p =
    let want = length m / 16 * 16 in
    let p' = if leb 16 (length m) then poly_blocks (take want m) p else p in
    record p' { buffer = p'.buffer ++ drop want m }

unfoldable pub poly_update : Bytes → Poly1305 → Poly1305
poly_update m p =
    if length p.buffer == 0
    then update_rest m p
    else let want = min (16 - length p.buffer) (length m) in
      let full = record p { buffer = p.buffer ++ take want m } in
      if ltb (length full.buffer) 16
      then full
      else update_rest (drop want m) (record (poly_blocks full.buffer full) { buffer = [] })

-- `finish` on a buffer that is not empty: a one, zeros, and the last block.
unfoldable pub poly_pad : Poly1305 → Poly1305
poly_pad p =
    let block = p.buffer ++ 1 ∷ replicate (15 - length p.buffer) 0 in
    if length p.buffer == 0
    then p
    else poly_blocks block (record p { buffer = block; final = true })

-- The last carries of `finish`.
unfoldable pub final_carry : Limbs → Limbs
final_carry h =
    let h2 = u32 (h.l2 + h.l1 / 2 ^ 26) in
    let h3 = u32 (h.l3 + h2 / 2 ^ 26) in
    let h4 = u32 (h.l4 + h3 / 2 ^ 26) in
    let h0 = u32 (h.l0 + u32 (h4 / 2 ^ 26 * 5)) in
    record {
      l0 = bit_and h0 0x3ffffff;
      l1 = u32 (bit_and h.l1 0x3ffffff + h0 / 2 ^ 26);
      l2 = bit_and h2 0x3ffffff;
      l3 = bit_and h3 0x3ffffff;
      l4 = bit_and h4 0x3ffffff;
    }

-- `mask` is all ones or zero: `g` if `h + 5 - 2 ^ 130` did not borrow, else `h`.
unfoldable pub select_reduced : Limbs → Limbs
select_reduced h =
    let g0 = u32 (h.l0 + 5) in
    let g1 = u32 (h.l1 + g0 / 2 ^ 26) in
    let g2 = u32 (h.l2 + g1 / 2 ^ 26) in
    let g3 = u32 (h.l3 + g2 / 2 ^ 26) in
    let g4 = u32 (h.l4 + g3 / 2 ^ 26 + 2 ^ 32 - 2 ^ 26) in
    let mask = u32 (g4 / 2 ^ 31 + 2 ^ 32 - 1) in
    let keep = 2 ^ 32 - 1 - mask in
    record {
      l0 = bit_or (bit_and h.l0 keep) (bit_and (bit_and g0 0x3ffffff) mask);
      l1 = bit_or (bit_and h.l1 keep) (bit_and (bit_and g1 0x3ffffff) mask);
      l2 = bit_or (bit_and h.l2 keep) (bit_and (bit_and g2 0x3ffffff) mask);
      l3 = bit_or (bit_and h.l3 keep) (bit_and (bit_and g3 0x3ffffff) mask);
      l4 = bit_or (bit_and h.l4 keep) (bit_and g4 mask);
    }

-- The limbs as four words, and the pad added to them.
unfoldable pub add_pad : Limbs → List ℕ → Bytes
add_pad h pad =
    let w0 = bit_or h.l0 (u32 (h.l1 * 2 ^ 26)) in
    let w1 = bit_or (h.l1 / 2 ^ 6) (u32 (h.l2 * 2 ^ 20)) in
    let w2 = bit_or (h.l2 / 2 ^ 12) (u32 (h.l3 * 2 ^ 14)) in
    let w3 = bit_or (h.l3 / 2 ^ 18) (u32 (h.l4 * 2 ^ 8)) in
    let f0 = u64 (w0 + get_or pad 0 0) in
    let f1 = u64 (w1 + get_or pad 1 0 + f0 / 2 ^ 32) in
    let f2 = u64 (w2 + get_or pad 2 0 + f1 / 2 ^ 32) in
    let f3 = u64 (w3 + get_or pad 3 0 + f2 / 2 ^ 32) in
    store_le32 (u32 f0) ++ (store_le32 (u32 f1) ++ (store_le32 (u32 f2) ++ store_le32 (u32 f3)))

unfoldable pub poly_finish : Poly1305 → Bytes
poly_finish p = let q = poly_pad p in add_pad (select_reduced (final_carry q.h)) q.pad
