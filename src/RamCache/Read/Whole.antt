-- ===== src/RamCache/Read/Whole.antt =====
-- A read over blocks of a file is a read of the file.
use folder_buddies.Wire.{max_io}
use folder_buddies.Base.Bytes.{Bytes}
use folder_buddies.Base.{
  ◌==◌, not, true, ltb→lt, take_sum, ◌^◌, not-leb→lt, append_assoc, take_all, ◌<◌, ◌||◌, ◌&&◌,
  leb→le, drop_all, zero, leb, not-ltb→le, Bool-cases, suc, drop-drop, length-drop, ◌∙◌, append-nil,
  length-take, take-drop-take, sym, arith, ap, ◌*◌, drop, ◌++◌, ◌+◌, ◌≤◌, ltb, min, ◌-◌, take, ◌/◌,
  ◌≡◌, length, ◌%◌, ℕ, refl, [], inl, inr,
}
use folder_buddies.RamCache.Read.{Fetched, read, read_loop, read_blocks}

-- The block of a file at an index.
abbrev pub file_block : Bytes → ℕ → Bytes
file_block content idx = take max_io (drop (idx * max_io) content)

-- The answers that are right for one content of the file, while a property of the state holds that
-- every answer keeps, for the blocks below a limit.
abbrev pub RightBelow : {S : Type 0} → ℕ → (ℕ → S → Fetched × S) → Bytes → (S → Type 0) → Type 0
RightBelow limit fetch content Holds =
    (idx : ℕ) (s : _)
    → idx < limit
    → Holds s
    → ((fetch idx s).0 ≡ record {
      status = 0;
      bytes = file_block content idx;
      eof = ltb (length (file_block content idx)) max_io;
    })
      × Holds (fetch idx s).1

-- Offsets are below 2^64.
abbrev pub RightFor : {S : Type 0} → (ℕ → S → Fetched × S) → Bytes → (S → Type 0) → Type 0
RightFor fetch content Holds = RightBelow (2 ^ 44) fetch content Holds

take_nil : (n : ℕ) → take {A = ℕ} n [] ≡ []
take_nil zero = refl
take_nil (suc n) = refl

-- The test that ends the loop behind a block that is not full.
ends :
    (len stop : ℕ)
    → (leb len stop && (ltb len max_io || ltb len max_io)) ≡ true
    → (len ≤ stop) × (len < max_io)
ends len stop h = (ground (arith, h), ground (arith, h))

last_part : (n m : ℕ) (xs : Bytes) → length xs ≤ n → n ≤ m → take n xs ≡ take m xs
last_part n m xs h k = take_all n xs h ∙ sym (take_all m xs (omega arith))

joined_parts :
    (out : Bytes) (n k m : ℕ) (xs ys : Bytes)
    → n + k ≡ m
    → drop n xs ≡ ys
    → (out ++ take n xs) ++ take k ys ≡ out ++ take m xs
joined_parts out n k m xs ys sum behind =
    append_assoc out (take n xs) (take k ys)
    ∙ ap (λ (t : Bytes). out ++ t)
        (ap (λ (t : Bytes). take n xs ++ take k t) (sym behind)
          ∙ sym (take_sum n k xs)
          ∙ ap (λ (t : ℕ). take t xs) sum)

module _ (content : Bytes) (cur : ℕ) where
  abbrev blk : Bytes
  blk = file_block content (cur / max_io)

  length-blk : length blk ≡ min max_io (length content - cur / max_io * max_io)
  length-blk = omega (
    arith,
    length-take max_io (drop (cur / max_io * max_io) content),
    length-drop (cur / max_io * max_io) content,
  )

  -- Bytes cut out of the block are bytes of the file.
  cut :
      (n : ℕ)
      → cur % max_io + n ≤ max_io
      → take n (drop (cur % max_io) blk) ≡ take n (drop cur content)
  cut n h =
      take-drop-take n (cur % max_io) max_io (drop (cur / max_io * max_io) content) h
      ∙ ap (take n) (
          drop-drop (cur / max_io * max_io) (cur % max_io) content
          ∙ ap (λ (t : ℕ). drop t content) place)
    where
      place : cur / max_io * max_io + cur % max_io ≡ cur
      place = omega arith

module _ {S : Type 0} (fetch : ℕ → S → Fetched × S) (content : Bytes) (Holds : S → Type 0)
    (limit : ℕ) (right : RightBelow limit fetch content Holds) where
  read_loop-whole :
      (fuel cur end : ℕ) (out : Bytes) (s : S)
      → end - cur ≤ fuel
      → end ≤ limit * max_io
      → Holds s
      → (read_loop fetch fuel cur end out s).0 ≡ read (out ++ take (end - cur) (drop cur content))
  unfolding read_loop
  read_loop-whole zero cur end out s enough below holds =
      let none_left : 0 ≡ end - cur = omega arith in
      ap read (sym (append-nil out) ∙ ap (λ (t : ℕ). out ++ take t (drop cur content)) none_left)
  read_loop-whole (suc fuel) cur end out s enough below holds =
      let len : ℕ = length (blk content cur) in
      let n : ℕ = min (end - cur) (len - cur % max_io) in
      let got : take n (drop (cur % max_io) (blk content cur)) ≡ take n (drop cur content) =
        cut content cur n (omega (arith, length-blk content cur)) in
      elim (Bool-cases (ltb cur end)) [
        | inr done ↦
            let none_left : 0 ≡ end - cur = omega (arith, not-ltb→le cur end done) in
            rw done (
              ap read
                (sym (append-nil out) ∙ ap (λ (t : ℕ). out ++ take t (drop cur content)) none_left))
        | inl going ↦
            let index : cur / max_io < limit = omega (arith, ltb→lt cur end going, below) in
            let (answer, kept) = right (cur / max_io) s index holds in
            elim (Bool-cases (leb len (cur % max_io))) [
              | inl past ↦
                  let nothing : drop cur content ≡ [] =
                    drop_all cur content
                      (omega (arith, leb→le len (cur % max_io) past, length-blk content cur)) in
                  rw (going, answer, past)
                    (ap read (
                      sym (append-nil out)
                      ∙ ap (λ (t : Bytes). out ++ t)
                          (sym (ap (take (end - cur)) nothing ∙ take_nil (end - cur)))))
              | inr more ↦
                  elim (Bool-cases
                    (leb len (cur % max_io + n) && (ltb len max_io || ltb len max_io))) [
                      | inl last ↦
                          let at_end : length content ≤ cur + n =
                            omega
                              (arith, ends len (cur % max_io + n) last, length-blk content cur) in
                          rw (going, answer, more, last, got)
                            (ap (λ (t : Bytes). read (out ++ t))
                              (last_part n (end - cur) (drop cur content)
                                (omega (arith, at_end, length-drop cur content)) (omega arith)))
                      | inr further ↦
                          let inside : cur % max_io < len = not-leb→lt len (cur % max_io) more in
                          let left : end - (cur + n) ≤ fuel = omega (arith, ltb→lt cur end going) in
                          rw (going, answer, more, further, got)
                            (read_loop-whole fuel (cur + n) end (out ++ take n (drop cur content)) _
                                left below kept
                              ∙ ap read (
                                  joined_parts out n (end - (cur + n)) (end - cur)
                                    (drop cur content) (drop (cur + n) content) (omega arith)
                                    (drop-drop cur n content)))
                    ]
            ]
      ]

read_loop-keeps :
    {S : Type 0} (fetch : ℕ → S → Fetched × S) (Holds : S → Type 0)
    → ((idx : ℕ) (s : S) → Holds s → Holds (fetch idx s).1)
    → (fuel cur end : ℕ) (out : Bytes) (s : S) → Holds s
    → Holds (read_loop fetch fuel cur end out s).1
unfolding read_loop
read_loop-keeps fetch Holds keeps zero cur end out s h = h
read_loop-keeps {S} fetch Holds keeps (suc fuel) cur end out s h =
    let (got, s') = fetch (cur / max_io) s in
    let kept : Holds s' = keeps (cur / max_io) s h in
    let n : ℕ = min (end - cur) (length got.bytes - cur % max_io) in
    let out' : Bytes = out ++ take n (drop (cur % max_io) got.bytes) in
    let more = read_loop-keeps fetch Holds keeps fuel (cur + n) end out' s' kept in
    elim (Bool-cases (not (ltb cur end))) [
      | inl done ↦ rw done h
      | inr going ↦ elim (Bool-cases (not (got.status == 0))) [
        | inl refused ↦ rw (going, refused) kept
        | inr fine ↦ elim (Bool-cases (leb (length got.bytes) (cur % max_io))) [
          | inl past ↦ rw (going, fine, past) kept
          | inr inside ↦
              elim (Bool-cases (
                leb (length got.bytes) (cur % max_io + n)
                && (got.eof || ltb (length got.bytes) max_io))) [
                  | inl last ↦ rw (going, fine, inside, last) kept
                  | inr further ↦ rw (going, fine, inside, further) more
                ]
        ]
      ]
    ]

pub read_blocks-whole_below :
    {S : Type 0} (fetch : ℕ → S → Fetched × S) (content : Bytes) (Holds : S → Type 0) (limit : ℕ)
    → RightBelow limit fetch content Holds
    → (off size : ℕ) (s : S) → Holds s
    → off + size < 2 ^ 64
    → off + size ≤ limit * max_io
    → (read_blocks fetch off size s).0 ≡ read (take size (drop off content))
unfolding read_blocks
read_blocks-whole_below fetch content Holds limit right off size s holds small below =
    let end : (off + size) % 2 ^ 64 ≡ off + size = omega arith in
    let amount : off + size - off ≡ size = omega arith in
    rw end (
      read_loop-whole fetch content Holds limit right size off (off + size) [] s (omega arith) below
        holds
      ∙ ap (λ (t : ℕ). read (take t (drop off content))) amount)

-- Over right blocks of a file, a read whose end does not pass 2^64 returns what the file has at that
-- offset: `size` bytes, or as many as there are before the end of the file.
pub read_blocks-whole :
    {S : Type 0} (fetch : ℕ → S → Fetched × S) (content : Bytes) (Holds : S → Type 0)
    → RightFor fetch content Holds
    → (off size : ℕ) (s : S) → Holds s
    → off + size < 2 ^ 64
    → (read_blocks fetch off size s).0 ≡ read (take size (drop off content))
read_blocks-whole fetch content Holds right off size s holds small =
    read_blocks-whole_below fetch content Holds (2 ^ 44) right off size s holds small (omega arith)

-- What every fetch keeps, a read keeps.
pub read_blocks-keeps :
    {S : Type 0} (fetch : ℕ → S → Fetched × S) (Holds : S → Type 0)
    → ((idx : ℕ) (s : S) → Holds s → Holds (fetch idx s).1)
    → (off size : ℕ) (s : S) → Holds s
    → Holds (read_blocks fetch off size s).1
unfolding read_blocks
read_blocks-keeps fetch Holds keeps off size s holds =
    read_loop-keeps fetch Holds keeps size off ((off + size) % 2 ^ 64) [] s holds
