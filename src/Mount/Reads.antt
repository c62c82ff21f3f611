-- ===== src/Mount/Reads.antt =====
-- A read of the mounted file system is a read of the file, client/src/fs/fuse_fs.cpp: `fs_read`.
use folder_buddies.Mount.Transfer.{to_count-returns}
use folder_buddies.Base.{
  lt→not-leb, ℕ, zero, suc, ◌+◌, ◌-◌, ◌%◌, ◌^◌, ◌≤◌, ◌<◌, min, false, [], ◌∷◌, ◌++◌, ◌≡◌, refl, sym,
  ◌∙◌, ap, inl, inr, arith, Bool-cases, length, take, drop, ltb, ◌==◌, ==_iff, length-append,
  length-take, take_all, take_sum, drop-drop, append-nil, append_assoc, not-ltb→le, ltb→lt,
  le→not-ltb,
}
use folder_buddies.Base.Bytes.{Bytes}
use folder_buddies.Wire.{max_io}
use folder_buddies.Wire.Op.{Op, op_code}
use folder_buddies.Mount.{to_count, Return, returns, read_request, read_chunks, fs_read, negative}

take_nothing : (n : ℕ) → take {A = ℕ} n [] ≡ []
take_nothing zero = refl
take_nothing (suc n) = refl

empty_length : (xs : Bytes) → length xs ≡ 0 → xs ≡ []
empty_length [] h = refl
empty_length (x ∷ xs) h = absurd (omega arith)

-- The bytes that one chunk leaves to the others.
chunk_rest :
    (content buf : Bytes) (off size chunk : ℕ)
    → chunk ≤ size - length buf
    → length (take chunk (drop (off + length buf) content)) ≡ chunk
    → (buf ++ take chunk (drop (off + length buf) content))
        ++ take
            (size - length (buf ++ take chunk (drop (off + length buf) content)))
            (drop (off + length (buf ++ take chunk (drop (off + length buf) content))) content)
      ≡ buf ++ take (size - length buf) (drop (off + length buf) content)
chunk_rest content buf off size chunk fits full =
    let t : ℕ = length buf in
    let resp : Bytes = take chunk (drop (off + t) content) in
    let sum : length (buf ++ resp) ≡ t + chunk =
      length-append buf resp ∙ ap (λ (n : ℕ). t + n) full in
    let left : size - (t + chunk) ≡ size - t - chunk = omega arith in
    let place : off + (t + chunk) ≡ (off + t) + chunk = omega arith in
    let whole : chunk + (size - t - chunk) ≡ size - t = omega arith in
    rw (sum, left, place, ← drop-drop (off + t) chunk content)
      (append_assoc buf resp (take (size - t - chunk) (drop chunk (drop (off + t) content)))
        ∙ ap (λ (l : Bytes). buf ++ l)
            (sym (take_sum chunk (size - t - chunk) (drop (off + t) content))
              ∙ ap (λ (n : ℕ). take n (drop (off + t) content)) whole))

-- A chunk that is not full has all the bytes that are left.
short_chunk :
    (xs : Bytes) (chunk size : ℕ)
    → chunk ≤ size
    → length (take chunk xs) < chunk
    → take chunk xs ≡ take size xs
short_chunk xs chunk size fits short =
    let few : length xs ≤ chunk = omega (arith, length-take chunk xs) in
    take_all chunk xs few ∙ sym (take_all size xs (omega arith))

module _ {W : Type 0} (request : ℕ → Bytes → W → (ℕ × Bytes) × W) (fh : ℕ) (content : Bytes)
    (Served : W → Type 0) where
  -- While `Served` holds, the file system behind the mount answers OP_READ with these contents.
  abbrev pub ServesFile : Type 0
  ServesFile =
      (off len : ℕ) (w : W)
      → Served w
      → off < 2 ^ 63
      → len ≤ max_io
      → ((request (op_code Op.read_op) (read_request fh off len) w).0
          ≡ (0, take len (drop off content)))
        × Served (request (op_code Op.read_op) (read_request fh off len) w).1

  abbrev result : ℕ → ℕ → Bytes → Return × Bytes
  result off size buf =
      let out = buf ++ take (size - length buf) (drop (off + length buf) content) in
      (to_count (length out), out)

  read_chunks-whole :
      (serves : ServesFile) (fuel off size : ℕ) (buf : Bytes) (w : W)
      → Served w
      → off + size < 2 ^ 63
      → size - length buf ≤ fuel
      → (read_chunks request fuel fh off size buf w).0 ≡ result off size buf
  unfolding read_chunks
  read_chunks-whole serves zero off size buf w served small enough =
      let nothing : size - length buf ≡ 0 = omega arith in rw nothing (rw (append-nil buf) refl)
  read_chunks-whole serves (suc fuel) off size buf w served small enough =
      elim (Bool-cases (ltb (length buf) size)) [
        | inr over ↦
            let nothing : size - length buf ≡ 0 =
              omega (arith, not-ltb→le (length buf) size over) in
            rw (over, nothing) (rw (append-nil buf) refl)
        | inl going ↦
            let t : ℕ = length buf in
            let more_left : t < size = ltb→lt t size going in
            let chunk : ℕ = min (size - t) max_io in
            let o : (off + t) % 2 ^ 64 ≡ off + t = omega arith in
            let (answer, served') = serves (off + t) chunk w served (omega arith) (omega arith) in
            let xs : Bytes = drop (off + t) content in
            let resp : Bytes = take chunk xs in
            let fits : ltb chunk (length resp) ≡ false =
              le→not-ltb chunk (length resp) (omega (arith, length-take chunk xs)) in
            elim (Bool-cases (length resp == 0)) [
              | inl nothing ↦
                  let none_behind : xs ≡ [] =
                    empty_length xs
                      (omega (arith, length-take chunk xs, (==_iff (length resp) 0).0 nothing)) in
                  rw (going, o, answer, nothing, none_behind, take_nothing (size - t))
                    (rw (append-nil buf) refl)
              | inr some_bytes ↦ elim (Bool-cases (ltb (length resp) chunk)) [
                | inl short ↦
                    let same : resp ≡ take (size - t) xs =
                      short_chunk xs chunk (size - t) (omega arith)
                        (ltb→lt (length resp) chunk short) in
                    rw (going, o, answer, some_bytes, fits, short)
                      (rw (← length-append buf resp)
                        (ap (λ (l : Bytes). (to_count (length (buf ++ l)), buf ++ l)) same))
                | inr full ↦
                    let whole : length resp ≡ chunk =
                      omega (arith, length-take chunk xs, not-ltb→le (length resp) chunk full) in
                    rw (going, o, answer, some_bytes, fits, full)
                      (read_chunks-whole serves fuel off size (buf ++ resp) _ served' small
                          (omega (arith, length-append buf resp))
                        ∙ ap (λ (l : Bytes). (to_count (length l), l))
                            (chunk_rest content buf off size chunk (omega arith) whole))
              ]
            ]
      ]

  -- While the host answers each chunk with the file's own bytes, a read of less than 2 GiB whose end is
  -- below 2^63 puts the file's bytes at that offset into the buffer and returns their number: `size`,
  -- or as many as there are before the end of the file, however many chunks it takes.
  pub fs_read-whole :
      (serves : ServesFile) (off size : ℕ) (w : W)
      → Served w
      → off + size < 2 ^ 63
      → size < 2 ^ 31
      → (fs_read request fh off size w).0
        ≡ (returns (length (take size (drop off content))), take size (drop off content))
  unfolding fs_read
  fs_read-whole serves off size w served small int =
      let not_negative : negative off ≡ false = lt→not-leb (2 ^ 63) off (omega arith) in
      let out : Bytes = take size (drop off content) in
      let count : to_count (length out) ≡ returns (length out) =
        to_count-returns (length out) (omega (arith, length-take size (drop off content))) in
      let all : size - 0 ≡ size = omega arith in
      let start : off + 0 ≡ off = omega arith in
      rw not_negative (
        read_chunks-whole serves size off size [] w served small (omega arith)
        ∙ rw (all, start, count) refl)
