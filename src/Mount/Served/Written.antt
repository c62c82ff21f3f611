-- ===== src/Mount/Served/Written.antt =====
-- A write of the mounted file system that the server carries out, client/src/fs/fuse_fs.cpp and
-- client/src/server/server.cpp.
use folder_buddies.Base.{
  ◌∙◌, length-take, is_empty, inr, ◌-◌, inl, zero, ap, ◌+◌, append-nil, append_assoc, ltb, ◌∷◌,
  length, suc, sym, true, ◌&&◌, ◌++◌, some, arith, leb, [], none, get_or, take, ◌^◌, Option, ◌≤◌,
  ◌<◌, ℕ, refl, ◌≡◌, Bool-cases,
}
use folder_buddies.Base.Bytes.{Bytes, le_bytes}
use folder_buddies.Base.Map.{nat_key, find}
use folder_buddies.Mount.{write_request, fs_write}
use folder_buddies.Mount.Served.{reply_to, serve}
use folder_buddies.Mount.Writes.{patch, transferred, Wrote, refused, accepted, fs_write-Has}
use folder_buddies.Server.Dispatch.{pair_of, dispatch, on_write, wrote}
use folder_buddies.Server.State.{Files, State}
use folder_buddies.Wire.{put_pod, put_raw, get_pod, max_io}
use folder_buddies.Wire.Op.{Op, op_of, op_code}
use folder_buddies.Wire.RoundTrip.{get_pod-append}

get_or-take : (n : ℕ) (p : Bytes) (j : ℕ) → j < n → get_or (take n p) j 0 ≡ get_or p j 0
get_or-take zero p j h = absurd (omega arith)
get_or-take (suc n) [] j h = refl
get_or-take (suc n) (x ∷ p) zero h = refl
get_or-take (suc n) (x ∷ p) (suc j) h = get_or-take n p j (omega arith)

-- The first bytes of a chunk are those of the buffer.
patch-take :
    (off chunk k : ℕ) (p : Bytes) (file : ℕ → ℕ) (i : ℕ)
    → k ≤ chunk
    → patch off (take chunk p) k file i ≡ patch off p k file i
patch-take off chunk k p file i few = elim (Bool-cases (leb off i && ltb i (off + k))) [
  | inl inside ↦
      let within : i - off < chunk = ground (arith, inside, few) in
      rw inside (get_or-take chunk p (i - off) within)
  | inr outside ↦ rw outside refl
]

-- `Reader` gets the handle and the offset of a write as `Writer` put them, and then the bytes.
write_fields :
    (id off chunk : ℕ) (p : Bytes)
    → id < 2 ^ 64
    → off < 2 ^ 64
    → pair_of (get_pod 8) (get_pod 8) (write_request id off p chunk)
      ≡ (some (id, off), take chunk p)
unfolding write_request put_pod put_raw
write_fields id off chunk p hid hoff =
    let three : (le_bytes 8 id ++ le_bytes 8 off) ++ take chunk p
        ≡ le_bytes 8 id ++ (le_bytes 8 off ++ take chunk p) =
      append_assoc (le_bytes 8 id) (le_bytes 8 off) (take chunk p) in
    rw three (
      rw
        (
          get_pod-append 8 id (le_bytes 8 off ++ take chunk p) hid,
          get_pod-append 8 off (take chunk p) hoff,
        )
        refl)

count_back : (n : ℕ) → n < 2 ^ 32 → (get_pod 4 (put_pod 4 n [])).0 ≡ some n
unfolding put_pod
count_back n h =
    rw (sym (append-nil (le_bytes 4 n)))
      (ap (λ (r : Option ℕ × Bytes). r.0) (get_pod-append 4 n [] h))

module _ {S H : Type 0} (files : Files S H) (root : Bytes) (h : H) (byte : S → ℕ → ℕ) where
  -- What `pwrite` does with an open file: it fails and leaves the bytes of the file, or it puts as many
  -- bytes as it reports at the offset.
  pub data Pwrote (bs : Bytes) (off : ℕ) (s : S) (r : Option ℕ × S) : Type 0 where
    failed : r.0 ≡ none → ((i : ℕ) → byte r.1 i ≡ byte s i) → Pwrote bs off s r
    put :
        (n : ℕ)
        → r.0 ≡ some n
        → n ≤ length bs
        → ((i : ℕ) → byte r.1 i ≡ patch off bs n (byte s) i)
        → Pwrote bs off s r

  abbrev pub PwritesFile : Type 0
  PwritesFile = (bs : Bytes) (off : ℕ) (s : S) → Pwrote bs off s (files.pwrite h bs off s)

  abbrev byte_of : State S H → ℕ → ℕ
  byte_of st = byte st.system

  abbrev Holds : ℕ → State S H → Type 0
  Holds id st = find id st.handles ≡ some h

  -- The reply to a write that put bytes into the file.
  put_reply :
      (id off : ℕ) (p : Bytes) (chunk : ℕ) (st : State S H) (m n : ℕ) (st' : State S H)
      → chunk ≤ max_io
      → some m ≡ some n
      → n ≤ length (take chunk p)
      → ((i : ℕ) → byte st'.system i ≡ patch off (take chunk p) n (byte st.system) i)
      → Wrote
          (serve files root true)
          id
          (Holds id)
          byte_of
          off
          p
          chunk
          st
          ((0, put_pod 4 m []), st')
  put_reply id off p chunk st m n st' few e fits patched =
      let same : m ≡ n = cc in
      let enough : n ≤ chunk = omega (arith, length-take chunk p, fits) in
      accepted n refl (count_back m (omega (arith, same, enough, few)) ∙ e) enough
        (λ i. patched i ∙ patch-take off chunk n p (byte st.system) i enough)

  -- The reply to a write that reached the file.
  reply-Wrote :
      (id off : ℕ) (p : Bytes) (chunk : ℕ) (st : State S H) (q : Option Bytes) (r : Option ℕ × S)
      → Holds id st
      → chunk ≤ max_io
      → Pwrote (take chunk p) off st.system r
      → Wrote
          (serve files root true)
          id
          (Holds id)
          byte_of
          off
          p
          chunk
          st
          (reply_to files root true (wrote files root q r st))
        × Holds id (reply_to files root true (wrote files root q r st)).1
  unfolding wrote
  reply-Wrote id off p chunk st q (none, s) has few (failed e same) =
      (refused (λ e. absurd (omega (arith, e))) same, has)
  reply-Wrote id off p chunk st q (none, s) has few (put n e fits patched) = cc
  reply-Wrote id off p chunk st q (some m, s) has few (failed e same) = cc
  reply-Wrote id off p chunk st none (some m, s) has few (put n e fits patched) =
      (put_reply id off p chunk st m n _ few e fits patched, has)
  reply-Wrote id off p chunk st (some path) (some m, s) has few (put n e fits patched) =
      elim (Bool-cases (is_empty path)) [
        | inl empty ↦ rw empty (put_reply id off p chunk st m n _ few e fits patched, has)
        | inr named ↦ rw named (put_reply id off p chunk st m n _ few e fits patched, has)
      ]

  write_served :
      (pwrites : PwritesFile) (id off : ℕ) (p : Bytes) (chunk : ℕ) (st : State S H)
      → id < 2 ^ 64
      → Holds id st
      → off < 2 ^ 64
      → serve files root true (op_code Op.write_op) (write_request id off p chunk) st
        ≡ reply_to files root true (
            wrote files root
              (find id st.handle_paths)
              (files.pwrite h (take chunk p) off st.system)
              st)
  unfolding serve dispatch on_write op_of op_code
  write_served pwrites id off p chunk st hid has hoff =
      let fields = write_fields id off chunk p hid hoff in
      rw (fields, on_write, has, ap (λ (x : Option (ℕ × ℕ) × Bytes). x.1) fields) refl

  -- A write of less than 2 GiB through the mounted file system to a file that a server with writes allowed has open puts into
  -- that file, at the offset, as many bytes of the buffer as it reports, and leaves its other bytes, when
  -- `pwrite` puts in what it reports; the handle is below 2^64 and the end of the write below 2^63.
  pub fs_write-served :
      (pwrites : PwritesFile) (id : ℕ) (buf : Bytes) (off : ℕ) (st : State S H) (i : ℕ)
      → id < 2 ^ 64
      → Holds id st
      → off + length buf < 2 ^ 63
      → length buf < 2 ^ 31
      → byte (fs_write (serve files root true) id buf off st).1.system i
        ≡ patch off buf
            (transferred (fs_write (serve files root true) id buf off st).0)
            (byte st.system)
            i
  fs_write-served pwrites id buf off st i hid has small int =
      fs_write-Has (serve files root true) id (Holds id) byte_of
        (λ off p chunk st served hoff hchunk.
          rw (write_served pwrites id off p chunk st hid served hoff) (
            reply-Wrote id off p chunk st (find id st.handle_paths)
              (files.pwrite h (take chunk p) off st.system) served hchunk
              (pwrites (take chunk p) off st.system)))
        buf off st i has small int
