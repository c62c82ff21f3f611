-- ===== src/Signaling/RoomCode/Draw.antt =====
-- What a drawn room code is made of.
use folder_buddies.Base91.Table.{table-alphabet, alphabet-not-space}
use folder_buddies.Base91.{base91_is_clean, alphabet_at}
use folder_buddies.Base.{
  is_some, false, ◌&&◌, not-ltb→le, ◌↔◌, true, Bool, lt→ltb, ==_iff, ◌∙◌, take_exact, ltb→lt, ◌==◌,
  ltb, append_assoc, le→not-ltb, zero, some, length-take, ap, length-append, ◌+◌, suc, ◌≤◌, arith,
  take_all, sym, ◌%◌, inr, inl, append-nil, leb, take, Bool-cases, ◌≡◌, if◌then◌else◌, ◌<◌, [], ◌∷◌,
  ◌++◌, length, List, ℕ, refl,
}
use folder_buddies.Base.Bytes.{Bytes}
use folder_buddies.Signaling.RoomCode.{
  code_split, clean_one_line, looks_like_room_code, push_draw, draw_code, random_room_code,
}

-- The symbols of the bytes below the limit, in order.
abbrev pub symbols : Bytes → Bytes
symbols [] = []
symbols (b ∷ rb) = let more = symbols rb in if leb 182 b then more else alphabet_at (b % 91) ∷ more

abbrev pub joined_draws : List Bytes → Bytes
joined_draws [] = []
joined_draws (rb ∷ draws) = rb ++ joined_draws draws

symbols-append : (xs ys : Bytes) → symbols (xs ++ ys) ≡ symbols xs ++ symbols ys
symbols-append [] ys = refl
symbols-append (b ∷ xs) ys = elim (Bool-cases (leb 182 b)) [
  | inl high ↦ rw (high, symbols-append xs ys) refl
  | inr low ↦ rw (low, symbols-append xs ys) refl
]

push_draw-symbols :
    (n : ℕ) (rb code : Bytes) → length code < n → push_draw n rb code ≡ take n (code ++ symbols rb)
unfolding push_draw
push_draw-symbols n [] code h = rw append-nil (sym (take_all n code (omega arith)))
push_draw-symbols n (b ∷ rb) code h = elim (Bool-cases (leb 182 b)) [
  | inl high ↦ rw (high) (push_draw-symbols n rb code h)
  | inr low ↦
      let code' : Bytes = code ++ (alphabet_at (b % 91) ∷ []) in
      let len : length code' ≡ length code + 1 = length-append code (alphabet_at (b % 91) ∷ []) in
      let regroup : code' ++ symbols rb ≡ code ++ (alphabet_at (b % 91) ∷ symbols rb) =
        append_assoc code (alphabet_at (b % 91) ∷ []) (symbols rb) in
      elim (Bool-cases (length code' == n)) [
        | inl full ↦
            rw (low, full)
              (sym (take_exact n code' (symbols rb) ((==_iff (length code') n).0 full))
                ∙ ap (take n) regroup)
        | inr part ↦
            rw (low, part)
              (push_draw-symbols n rb code' (ground (arith, len, ==_iff (length code') n))
                ∙ ap (take n) regroup)
      ]
]

length-push_draw : (n : ℕ) (rb code : Bytes) → length code < n → length (push_draw n rb code) ≤ n
length-push_draw n rb code h =
    rw (push_draw-symbols n rb code h) (omega (arith, length-take n (code ++ symbols rb)))

take-take_append : (n : ℕ) (xs ys : Bytes) → take n (take n xs ++ ys) ≡ take n (xs ++ ys)
take-take_append zero xs ys = refl
take-take_append (suc n) [] ys = refl
take-take_append (suc n) (x ∷ xs) ys = ap (◌∷◌ x) (take-take_append n xs ys)

take-push_draw :
    (n : ℕ) (rb code : Bytes) (draws : List Bytes)
    → length code < n
    → take n (push_draw n rb code ++ symbols (joined_draws draws))
      ≡ take n (code ++ symbols (rb ++ joined_draws draws))
take-push_draw n rb code draws h =
    let later : Bytes = symbols (joined_draws draws) in
    let regroup : (code ++ symbols rb) ++ later ≡ code ++ symbols (rb ++ joined_draws draws) =
      append_assoc code (symbols rb) later
      ∙ ap (λ (t : Bytes). code ++ t) (sym (symbols-append rb (joined_draws draws))) in
    rw (push_draw-symbols n rb code h)
      (take-take_append n (code ++ symbols rb) later ∙ ap (take n) regroup)

draw_code-symbols :
    (n : ℕ) (draws : List Bytes) (code : Bytes)
    → length code ≤ n
    → n ≤ length (code ++ symbols (joined_draws draws))
    → draw_code n draws code ≡ some (take n (code ++ symbols (joined_draws draws)))
unfolding draw_code
draw_code-symbols n [] code h enough =
    rw (le→not-ltb (length code) n (omega (arith, length-append code [])), append-nil)
      (ap some (sym (take_all n code h)))
draw_code-symbols n (rb ∷ draws) code h enough = elim (Bool-cases (ltb (length code) n)) [
  | inl short ↦
      let later : Bytes = symbols (joined_draws draws) in
      let same : take n (push_draw n rb code ++ later)
          ≡ take n (code ++ symbols (rb ++ joined_draws draws)) =
        take-push_draw n rb code draws (ltb→lt (length code) n short) in
      let long : n ≤ length (push_draw n rb code ++ later) = omega (
        arith,
        length-take n (push_draw n rb code ++ later),
        length-take n (code ++ symbols (rb ++ joined_draws draws)),
        ap length same,
      ) in
      rw short (
        draw_code-symbols n draws (push_draw n rb code)
          (length-push_draw n rb code (ltb→lt (length code) n short)) long
        ∙ ap some same)
  | inr full ↦
      rw full (ap some (sym (take_exact n code _ (ground (arith, lt→ltb (length code) n)))))
]

-- A code is drawn only from enough symbols.
draw_code_enough :
    (n : ℕ) (draws : List Bytes) (code c : Bytes)
    → draw_code n draws code ≡ some c
    → n ≤ length (code ++ symbols (joined_draws draws))
unfolding draw_code
draw_code_enough n [] code c h = elim (Bool-cases (ltb (length code) n)) [
  | inl short ↦ cc (rw short at h)
  | inr full ↦ omega (arith, not-ltb→le (length code) n full, length-append code [])
]
draw_code_enough n (rb ∷ draws) code c h = elim (Bool-cases (ltb (length code) n)) [
  | inl short ↦
      let rec : n ≤ length (push_draw n rb code ++ symbols (joined_draws draws)) =
        draw_code_enough n draws (push_draw n rb code) c (rw short at h) in
      omega (
        arith,
        length-take n (push_draw n rb code ++ symbols (joined_draws draws)),
        length-take n (code ++ symbols (rb ++ joined_draws draws)),
        ap length (take-push_draw n rb code draws (ltb→lt (length code) n short)),
      )
  | inr full ↦ omega (
    arith,
    not-ltb→le (length code) n full,
    length-append code (symbols (rb ++ joined_draws draws)),
  )
]

abbrev pub code_length : Bool → ℕ
code_length long_code = if long_code then 16 else 6

-- A room code is drawn exactly when enough of the random bytes are below the limit, and it is the
-- symbols of the first of them: 6 for a short code, 16 for a long one.
pub random_room_code_iff :
    (long_code : Bool) (draws : List Bytes) (code : Bytes)
    → (random_room_code long_code draws ≡ some code)
      ↔ (code_length long_code ≤ length (symbols (joined_draws draws)))
        × (code ≡ take (code_length long_code) (symbols (joined_draws draws)))
unfolding random_room_code
random_room_code_iff long_code draws code = (
  λ h.
      let enough : code_length long_code ≤ length (symbols (joined_draws draws)) =
        draw_code_enough (code_length long_code) draws [] code h in
      let drawn = draw_code-symbols (code_length long_code) draws [] (omega arith) enough in
      (enough, cc),
  λ p. draw_code-symbols (code_length long_code) draws [] (omega arith) p.0 ∙ ap some (sym p.1),
)

-- The symbols are clean.
clean-symbol :
    (d : ℕ) (text : Bytes)
    → d < 91
    → base91_is_clean text ≡ true
    → base91_is_clean (alphabet_at d ∷ text) ≡ true
unfolding base91_is_clean
clean-symbol d text small h = rw (alphabet-not-space d small, table-alphabet d small) h

clean-symbols : (n : ℕ) (rb : Bytes) → base91_is_clean (take n (symbols rb)) ≡ true
clean-symbols zero rb = unfold base91_is_clean in refl
clean-symbols (suc n) [] = unfold base91_is_clean in refl
clean-symbols (suc n) (b ∷ rb) = elim (Bool-cases (leb 182 b)) [
  | inl high ↦ rw high (clean-symbols (suc n) rb)
  | inr low ↦
      rw low (clean-symbol (b % 91) (take n (symbols rb)) (omega arith) (clean-symbols n rb))
]

clean_one_line-symbols :
    (n : ℕ) (rb : Bytes) → clean_one_line (take n (symbols rb)) ≡ take n (symbols rb)
unfolding clean_one_line
clean_one_line-symbols zero rb = refl
clean_one_line-symbols (suc n) [] = refl
clean_one_line-symbols (suc n) (b ∷ rb) = elim (Bool-cases (leb 182 b)) [
  | inl high ↦ rw high (clean_one_line-symbols (suc n) rb)
  | inr low ↦
      rw (low, alphabet-not-space (b % 91) (omega arith))
        (ap (◌∷◌ (alphabet_at (b % 91))) (clean_one_line-symbols n rb))
]

split-code_length :
    (long_code : Bool) → (is_some (code_split (code_length long_code)) && true) ≡ true
unfolding code_split
split-code_length true = refl
split-code_length false = refl

-- A drawn code is recognised as a room code.
pub looks_like_room_code-random_room_code :
    (long_code : Bool) (draws : List Bytes) (code : Bytes)
    → random_room_code long_code draws ≡ some code
    → looks_like_room_code code ≡ true
unfolding looks_like_room_code
looks_like_room_code-random_room_code long_code draws code h =
    let (enough, drawn) = (random_room_code_iff long_code draws code).0 h in
    let n : ℕ = code_length long_code in
    let text : Bytes = take n (symbols (joined_draws draws)) in
    let len : length text ≡ n = omega (arith, length-take n (symbols (joined_draws draws))) in
    rw
      (
        drawn,
        clean_one_line-symbols n (joined_draws draws),
        clean-symbols n (joined_draws draws),
        len,
      )
      (split-code_length long_code)
