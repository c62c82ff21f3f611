-- ===== src/Mount/Writes.antt =====
-- What a write of the mounted file system leaves in the file, client/src/fs/fuse_fs.cpp: `fs_write`.
use mathlib.Core.Path.{fun_ext}
use folder_buddies.Client.{eio}
use folder_buddies.Mount.Transfer.{to_count-returns, write_over}
use mathlib.Core.Path.{subst}
use native.Mathlib.Nat.{suc-add, zero-add}
use folder_buddies.Base.{
  ℕ, zero, suc, ◌+◌, ◌-◌, ◌%◌, ◌^◌, ◌≤◌, ◌<◌, min, true, false, ◌&&◌, some, [], ◌∷◌, ◌≡◌, ◌≢◌, refl,
  sym, ◌∙◌, ap, inl, inr, arith, Bool-cases, Option-cases, length, drop, get_or, ltb, leb, ◌==◌,
  ==_iff, ltb→lt, le→not-ltb, lt→not-leb, if◌then◌else◌,
}
use folder_buddies.Base.Bytes.{Bytes}
use folder_buddies.Wire.{get_pod, max_io}
use folder_buddies.Wire.Op.{Op, op_code}
use folder_buddies.Mount.{
  to_count, Return, returns, fails, so_far, write_request, write_chunks, fs_write, negative,
}

-- A file, as the byte at each offset, with the first `n` bytes of a buffer at an offset.
abbrev pub patch : ℕ → Bytes → ℕ → (ℕ → ℕ) → ℕ → ℕ
patch off p n file i = if leb off i && ltb i (off + n) then get_or p (i - off) 0 else file i

abbrev pub transferred : Return → ℕ
transferred (returns n) = n
transferred (fails e) = 0

transferred-so_far : (t e : ℕ) → t < 2 ^ 31 → transferred (so_far t e) ≡ t
transferred-so_far t e h = elim (Bool-cases (t == 0)) [
  | inl nothing ↦ rw nothing (sym ((==_iff t 0).0 nothing))
  | inr some_bytes ↦ rw (some_bytes, to_count-returns t h) refl
]

get_or-drop : (t : ℕ) (p : Bytes) (j : ℕ) → get_or (drop t p) j 0 ≡ get_or p (t + j) 0
get_or-drop zero p j = rw zero-add refl
get_or-drop (suc t) [] j = refl
get_or-drop (suc t) (x ∷ p) j = rw suc-add (get_or-drop t p j)

patch_nothing : (off : ℕ) (p : Bytes) (file : ℕ → ℕ) (i : ℕ) → patch off p 0 file i ≡ file i
patch_nothing off p file i =
    let out : (leb off i && ltb i (off + 0)) ≡ false = ground arith in rw out refl

-- Two parts of a buffer, one behind the other.
patch-patch :
    (off t k : ℕ) (p : Bytes) (file : ℕ → ℕ) (i : ℕ)
    → patch (off + t) (drop t p) k (patch off p t file) i ≡ patch off p (t + k) file i
patch-patch off t k p file i = elim (Bool-cases (leb (off + t) i && ltb i (off + t + k))) [
  | inl second ↦
      let place : t + (i - (off + t)) ≡ i - off = ground (arith, second) in
      let inside : (leb off i && ltb i (off + (t + k))) ≡ true = ground (arith, second) in
      rw (second, inside) (get_or-drop t p (i - (off + t)) ∙ ap (λ (j : ℕ). get_or p j 0) place)
  | inr other ↦ elim (Bool-cases (leb off i && ltb i (off + t))) [
    | inl first ↦
        let inside : (leb off i && ltb i (off + (t + k))) ≡ true = ground (arith, first) in
        rw (other, first, inside) refl
    | inr outside ↦
        let beyond : (leb off i && ltb i (off + (t + k))) ≡ false =
          ground (arith, other, outside) in
        rw (other, outside, beyond) refl
  ]
]

patch_over :
    (off t k : ℕ) (p : Bytes) (before file : ℕ → ℕ)
    → ((i : ℕ) → file i ≡ patch off p t before i)
    → (i : ℕ) → patch (off + t) (drop t p) k file i ≡ patch off p (t + k) before i
patch_over off t k p before file has i = rw (fun_ext has) (patch-patch off t k p before i)

module _ {W : Type 0} (request : ℕ → Bytes → W → (ℕ × Bytes) × W) (fh : ℕ) (Served : W → Type 0)
    (byte_at : W → ℕ → ℕ) where
  -- What the file system behind the mount does with OP_WRITE: it refuses it and leaves the file as it
  -- is, or it answers with the number of bytes that it has written, at most as many as it was sent.
  pub data Wrote (off : ℕ) (p : Bytes) (chunk : ℕ) (w : W) (r : (ℕ × Bytes) × W) : Type 0 where
    refused : r.0.0 ≢ 0 → ((i : ℕ) → byte_at r.1 i ≡ byte_at w i) → Wrote off p chunk w r
    accepted :
        (k : ℕ)
        → r.0.0 ≡ 0
        → (get_pod 4 r.0.1).0 ≡ some k
        → k ≤ chunk
        → ((i : ℕ) → byte_at r.1 i ≡ patch off p k (byte_at w) i)
        → Wrote off p chunk w r

  -- While `Served` holds, that is what it does, and `Served` goes on to hold.
  abbrev pub Writes : Type 0
  Writes =
      (off : ℕ) (p : Bytes) (chunk : ℕ) (w : W)
      → Served w
      → off < 2 ^ 64
      → chunk ≤ max_io
      → Wrote off p chunk w (request (op_code Op.write_op) (write_request fh off p chunk) w)
        × Served (request (op_code Op.write_op) (write_request fh off p chunk) w).1

  -- The file has the first `n` bytes of the buffer at the offset.
  abbrev Has : ℕ → Bytes → W → ℕ → W → Type 0
  Has off buf w0 n w = (i : ℕ) → byte_at w i ≡ patch off buf n (byte_at w0) i

  abbrev Left : ℕ → Bytes → W → Return × W → Type 0
  Left off buf w0 r = Has off buf w0 (transferred r.0) r.1

  left :
      (off : ℕ) (buf : Bytes) (w0 : W) (x y : Return × W)
      → x ≡ y
      → Left off buf w0 y
      → Left off buf w0 x
  left off buf w0 x y e l = subst (Left off buf w0) (sym e) l

  -- The answer to a chunk that is sent for the offset `x`.
  abbrev answer_at : ℕ → Bytes → ℕ → W → (ℕ × Bytes) × W
  answer_at x buf t w =
      request (op_code Op.write_op) (write_request fh x (drop t buf) (min (length buf - t) max_io))
        w

  abbrev answer : ℕ → Bytes → ℕ → W → (ℕ × Bytes) × W
  answer off buf t w = answer_at ((off + t) % 2 ^ 64) buf t w

  write_refused :
      (fuel off : ℕ) (buf : Bytes) (t : ℕ) (w : W)
      → ltb t (length buf) ≡ true
      → ((answer off buf t w).0.0 == 0) ≡ false
      → write_chunks request (suc fuel) fh off buf t w
        ≡ (so_far t (answer off buf t w).0.0, (answer off buf t w).1)
  unfolding write_chunks
  write_refused fuel off buf t w going bad =
      elim (Option-cases (get_pod 4 (answer off buf t w).0.1).0) [
        | inl broken ↦ rw (broken, write_chunks, going, bad) refl
        | inr (k, got) ↦ rw (got, write_chunks, going, bad) refl
      ]

  -- A round in which `k` bytes are written.
  write_accepted-Has :
      (fuel off : ℕ) (buf : Bytes) (t k : ℕ) (w0 w : W)
      → ltb t (length buf) ≡ true
      → ((answer off buf t w).0.0 == 0) ≡ true
      → (get_pod 4 (answer off buf t w).0.1).0 ≡ some k
      → k ≤ min (length buf - t) max_io
      → length buf < 2 ^ 31
      → Has off buf w0 (t + k) (answer off buf t w).1
      → Left off buf w0 (write_chunks request fuel fh off buf (t + k) (answer off buf t w).1)
      → Left off buf w0 (write_chunks request (suc fuel) fh off buf t w)
  unfolding write_chunks
  write_accepted-Has fuel off buf t k w0 w going good got few int next rest =
      let chunk : ℕ = min (length buf - t) max_io in
      let w' : W = (answer off buf t w).1 in
      let now : Return × W = write_chunks request (suc fuel) fh off buf t w in
      let fits : ltb chunk k ≡ false = le→not-ltb chunk k few in
      elim (Bool-cases (k == 0)) [
        | inl nothing ↦
            let same : t + k ≡ t = omega (arith, (==_iff k 0).0 nothing) in
            left off buf w0 now (so_far t eio, w')
              (rw (got, write_chunks, going, good, fits, nothing) refl)
              (rw (transferred-so_far t eio (omega (arith, ltb→lt t (length buf) going)))
                (subst (λ (n : ℕ). Has off buf w0 n w') same next))
        | inr some_bytes ↦ elim (Bool-cases (ltb k chunk)) [
          | inl short ↦
              left off buf w0 now (to_count (t + k), w')
                (rw (got, write_chunks, going, good, fits, some_bytes, short) refl)
                (rw (to_count-returns (t + k) (omega (arith, few, ltb→lt t (length buf) going)))
                  next)
          | inr whole ↦
              left off buf w0 now (write_chunks request fuel fh off buf (t + k) w')
                (rw (got, write_chunks, going, good, fits, some_bytes, whole) refl) rest
        ]
      ]

  write_chunks-Has :
      (writes : Writes) (fuel off : ℕ) (buf : Bytes) (t : ℕ) (w0 w : W)
      → Served w
      → off + length buf < 2 ^ 64
      → length buf < 2 ^ 31
      → t ≤ length buf
      → Has off buf w0 t w
      → Left off buf w0 (write_chunks request fuel fh off buf t w)
  unfolding write_chunks
  write_chunks-Has writes zero off buf t w0 w served small int within has =
      rw (to_count-returns t (omega arith)) has
  write_chunks-Has writes (suc fuel) off buf t w0 w served small int within has =
      let chunk : ℕ = min (length buf - t) max_io in
      let now : Return × W = write_chunks request (suc fuel) fh off buf t w in
      let r : (ℕ × Bytes) × W = answer off buf t w in
      elim (Bool-cases (ltb t (length buf))) [
        | inr over ↦
            left off buf w0 now (to_count t, w) (write_over request fh off (suc fuel) buf t w over)
              (rw (to_count-returns t (omega arith)) has)
        | inl going ↦
            let o : (off + t) % 2 ^ 64 ≡ off + t = omega (arith, ltb→lt t (length buf) going) in
            let wrote : Wrote (off + t) (drop t buf) chunk w r × Served r.1 =
              subst
                (λ (x : ℕ).
                  Wrote (off + t) (drop t buf) chunk w (answer_at x buf t w)
                  × Served (answer_at x buf t w).1)
                (sym o)
                (writes (off + t) (drop t buf) chunk w served
                  (omega (arith, ltb→lt t (length buf) going)) (omega arith)) in
            elim wrote.0 [
              | refused bad same ↦
                  let no : (r.0.0 == 0) ≡ false = ground (arith, bad) in
                  left off buf w0 now (so_far t r.0.0, r.1)
                    (write_refused fuel off buf t w going no)
                    (rw (transferred-so_far t r.0.0 (omega arith)) (λ i. same i ∙ has i))
              | accepted k good got few written ↦
                  let next : Has off buf w0 (t + k) r.1 =
                    λ i. written i ∙ patch_over off t k buf (byte_at w0) (byte_at w) has i in
                  write_accepted-Has fuel off buf t k w0 w going ((==_iff r.0.0 0).1 good) got few
                    int next
                    (write_chunks-Has writes fuel off buf (t + k) w0 r.1 wrote.1 small int
                      (omega arith) next)
            ]
      ]

  -- A write puts into the file, at its offset, as many bytes of the buffer as it reports, and leaves
  -- every other byte as it was; a write that fails leaves all of them: when the file system behind the
  -- mount writes at most what it is sent, and the write is of less than 2 GiB and below 2^63.
  pub fs_write-Has :
      (writes : Writes) (buf : Bytes) (off : ℕ) (w : W) (i : ℕ)
      → Served w
      → off + length buf < 2 ^ 63
      → length buf < 2 ^ 31
      → byte_at (fs_write request fh buf off w).1 i
        ≡ patch off buf (transferred (fs_write request fh buf off w).0) (byte_at w) i
  unfolding fs_write
  fs_write-Has writes buf off w i served small int =
      let near : negative off ≡ false = lt→not-leb (2 ^ 63) off (omega arith) in
      rw near (
        write_chunks-Has writes (length buf) off buf 0 w w served (omega arith) int (omega arith)
          (λ j. sym (patch_nothing off buf (byte_at w) j)) i)
