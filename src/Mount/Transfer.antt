-- ===== src/Mount/Transfer.antt =====
-- The loops of a transfer end, client/src/fs/fuse_fs.cpp: `fs_read` and `fs_write`.
use folder_buddies.Base.{
  lt→ltb, true, ℕ, zero, suc, ◌+◌, ◌-◌, ◌%◌, ◌^◌, ◌≤◌, ◌<◌, min, false, [], ◌++◌, ◌≡◌, refl, sym,
  inl, inr, arith, Bool-cases, Option-cases, length, drop, ltb, ◌==◌, length-append, le→not-ltb,
}
use folder_buddies.Base.Bytes.{Bytes}
use folder_buddies.Wire.{get_pod, max_io}
use folder_buddies.Wire.Op.{Op, op_code}
use folder_buddies.Mount.{returns, to_count, read_request, write_request, read_chunks, write_chunks}

-- A count that an `int` holds.
pub to_count-returns : (n : ℕ) → n < 2 ^ 31 → to_count n ≡ returns n
unfolding to_count
to_count-returns n h =
    let same : n % 2 ^ 32 ≡ n = omega arith in
    let small : ltb n (2 ^ 31) ≡ true = lt→ltb n (2 ^ 31) h in rw (same, small) refl

-- A number that is neither refused nor zero, and not less than the chunk, is the chunk.
positive : (n : ℕ) → (n == 0) ≡ false → 0 < n
positive n h = ground arith

module _ {W : Type 0} (request : ℕ → Bytes → W → (ℕ × Bytes) × W) (fh off : ℕ) where
  read_over :
      (fuel size : ℕ) (buf : Bytes) (w : W)
      → ltb (length buf) size ≡ false
      → read_chunks request fuel fh off size buf w ≡ ((to_count (length buf), buf), w)
  unfolding read_chunks
  read_over zero size buf w over = refl
  read_over (suc fuel) size buf w over = rw over refl

  read_chunks-ends :
      (m n size : ℕ) (buf : Bytes) (w : W)
      → size - length buf ≤ m
      → size - length buf ≤ n
      → read_chunks request m fh off size buf w ≡ read_chunks request n fh off size buf w
  unfolding read_chunks
  read_chunks-ends zero n size buf w hm hn =
      sym (read_over n size buf w (le→not-ltb (length buf) size (omega arith)))
  read_chunks-ends (suc m) zero size buf w hm hn =
      read_over (suc m) size buf w (le→not-ltb (length buf) size (omega arith))
  read_chunks-ends (suc m) (suc n) size buf w hm hn =
      let chunk : ℕ = min (size - length buf) max_io in
      let ((status, resp), w') =
        request (op_code Op.read_op) (read_request fh ((off + length buf) % 2 ^ 64) chunk) w in
      elim (Bool-cases (ltb (length buf) size)) [
        | inr over ↦ rw over refl
        | inl going ↦ elim (Bool-cases (length resp == 0)) [
          | inl nothing ↦ rw (going, nothing) refl
          | inr some_bytes ↦
              let rest =
                read_chunks-ends m n size (buf ++ resp) w'
                  (omega (arith, length-append buf resp, positive (length resp) some_bytes))
                  (omega (arith, length-append buf resp, positive (length resp) some_bytes)) in
              rw (going, some_bytes, rest) refl
        ]
      ]

  pub write_over :
      (fuel : ℕ) (buf : Bytes) (t : ℕ) (w : W)
      → ltb t (length buf) ≡ false
      → write_chunks request fuel fh off buf t w ≡ (to_count t, w)
  unfolding write_chunks
  write_over zero buf t w over = refl
  write_over (suc fuel) buf t w over =
      let chunk : ℕ = min (length buf - t) max_io in
      let ((status, resp), w') =
        request (op_code Op.write_op) (write_request fh ((off + t) % 2 ^ 64) (drop t buf) chunk)
          w in
      elim (Option-cases (get_pod 4 resp).0) [
        | inl broken ↦ rw (broken, write_chunks, over) refl
        | inr (k, got) ↦ rw (got, write_chunks, over) refl
      ]

  write_chunks-ends :
      (m n : ℕ) (buf : Bytes) (t : ℕ) (w : W)
      → length buf - t ≤ m
      → length buf - t ≤ n
      → write_chunks request m fh off buf t w ≡ write_chunks request n fh off buf t w
  unfolding write_chunks
  write_chunks-ends zero n buf t w hm hn =
      sym (write_over n buf t w (le→not-ltb t (length buf) (omega arith)))
  write_chunks-ends (suc m) zero buf t w hm hn =
      write_over (suc m) buf t w (le→not-ltb t (length buf) (omega arith))
  write_chunks-ends (suc m) (suc n) buf t w hm hn =
      let chunk : ℕ = min (length buf - t) max_io in
      let ((status, resp), w') =
        request (op_code Op.write_op) (write_request fh ((off + t) % 2 ^ 64) (drop t buf) chunk)
          w in
      elim (Option-cases (get_pod 4 resp).0) [
        | inl broken ↦ rw (broken, write_chunks) refl
        | inr (k, got) ↦ elim (Bool-cases (k == 0)) [
          | inl nothing ↦ elim (Bool-cases (ltb chunk k)) [
            | inl big ↦ rw (got, write_chunks, big) refl
            | inr fits ↦ rw (got, write_chunks, fits, nothing) refl
          ]
          | inr some_bytes ↦ elim (Bool-cases (ltb t (length buf))) [
            | inr over ↦ rw (got, write_chunks, over) refl
            | inl going ↦
                let rest =
                  write_chunks-ends m n buf (t + k) w' (omega (arith, positive k some_bytes))
                    (omega (arith, positive k some_bytes)) in
                rw (got, write_chunks, rest) refl
          ]
        ]
      ]

  -- Whatever the host answers, the loops of a read and of a write end: rounds beyond one for each byte
  -- that is asked for change nothing.
  pub transfer-ends :
      (extra size : ℕ) (buf : Bytes) (w : W)
      → (read_chunks request (size + extra) fh off size [] w
          ≡ read_chunks request size fh off size [] w)
        × (write_chunks request (length buf + extra) fh off buf 0 w
            ≡ write_chunks request (length buf) fh off buf 0 w)
  transfer-ends extra size buf w = (
    read_chunks-ends (size + extra) size size [] w (omega arith) (omega arith),
    write_chunks-ends (length buf + extra) (length buf) buf 0 w (omega arith) (omega arith),
  )
