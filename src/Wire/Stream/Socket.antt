-- ===== src/Wire/Stream/Socket.antt =====
-- `recv_all` and `send_all` of client/include/net/common.h and `SocketByteStream` of
-- client/src/net/stream.cpp. The system is a list of the pieces in which bytes arrive, and a list of
-- how many bytes it accepts at each `send`; an empty piece is the end of the stream or an error.
use folder_buddies.Base.Bytes.{Bytes}
use native.Mathlib.Decide.{dec_le}
use folder_buddies.Base.{
  ltb→lt, drop_all, tests, length-drop, take_all, pos→not-==-zero, length-take, le→not-ltb, lt→ltb,
  append_split, length-append, arith, inl, inr, Bool-cases, ◌≤◌, All, ◌<◌, zero, take-append-drop,
  ap, append_assoc, ◌∙◌, suc, suc-==-zero, ◌-◌, false≢true, append-nil, take, some, sym, drop, ◌+◌,
  true, ◌==◌, [], none, ◌++◌, ltb, length, false, ◌∷◌, Option, ◌≡◌, ℕ, if◌then◌else◌, Bool, List,
  refl,
}

abbrev pub joined : List Bytes → Bytes
joined [] = []
joined (c ∷ cs) = c ++ joined cs

-- The loop of `recv_all`, with `buf` received so far. The system hands out at most what is asked for
-- and keeps the rest of a piece, which then ends the loop.
unfoldable pub recv_loop : ℕ → Bytes → List Bytes → Option Bytes × List Bytes
recv_loop n buf [] = if ltb (length buf) n then (none, []) else (some buf, [])
recv_loop n buf (c ∷ cs) =
    let got = take (n - length buf) c in
    let left = drop (n - length buf) c in
    let more = recv_loop n (buf ++ got) cs in
    if ltb (length buf) n
    then (if length got == 0
        then (none, cs)
        else if length left == 0
        then more
        else (some (buf ++ got), left ∷ cs))
    else (some buf, c ∷ cs)

unfoldable pub recv_all : ℕ → List Bytes → Option Bytes × List Bytes
recv_all n chunks = recv_loop n [] chunks

-- The loop of `send_all`: what is left to send, and what has gone out.
unfoldable pub send_loop : Bytes → Bytes → List ℕ → Bool × Bytes × List ℕ
send_loop rest out [] = if length rest == 0 then (true, out, []) else (false, out, [])
send_loop rest out (r ∷ rs) =
    let more = send_loop (drop r rest) (out ++ take r rest) rs in
    if length rest == 0 then (true, out, r ∷ rs) else if r == 0 then (false, out, rs) else more

unfoldable pub send_all : Bytes → Bytes → List ℕ → Bool × Bytes × List ℕ
send_all p out accepts = send_loop p out accepts

-- `SocketByteStream`: `open` is false once the handle was exchanged for FB_BAD_SOCKET; `closes`
-- counts the calls of `close_socket`.
pub record Socket : Type 0 where
  pub is_open : Bool
  pub arriving : List Bytes
  pub out : Bytes
  pub accepts : List ℕ
  pub closes : ℕ

unfoldable pub socket_read : ℕ → Socket → Option Bytes × Socket
socket_read n s =
    let (got, left) = recv_all n s.arriving in
    if s.is_open then (got, record s { arriving = left }) else (none, s)

unfoldable pub socket_write : Bytes → Socket → Bool × Socket
socket_write p s =
    let (done, out, accepts) = send_all p s.out s.accepts in
    if s.is_open then (done, record s { out = out; accepts = accepts }) else (false, s)

unfoldable pub socket_close : Socket → Socket
socket_close s = if s.is_open then record s { is_open = false; closes = s.closes + 1 } else s

-- A send that succeeds has put out all the bytes; one that fails, a part from the front.
pub send_loop_out :
    (rest out : Bytes) (accepts : List ℕ)
    → (send_loop rest out accepts).0 ≡ true
    → (send_loop rest out accepts).1 ≡ out ++ rest
unfolding send_loop
send_loop_out [] out [] h = sym (append-nil out)
send_loop_out (x ∷ xs) out [] h = absurd (false≢true (rw suc-==-zero at h))
send_loop_out [] out (r ∷ rs) h = sym (append-nil out)
send_loop_out (x ∷ xs) out (zero ∷ rs) h = absurd (false≢true (rw suc-==-zero at h))
send_loop_out (x ∷ xs) out (suc r ∷ rs) h =
    rw (suc-==-zero, suc-==-zero)
      (send_loop_out (drop r xs) (out ++ x ∷ take r xs) rs (rw (suc-==-zero, suc-==-zero) at h)
        ∙ append_assoc out (x ∷ take r xs) (drop r xs)
        ∙ ap (λ t. out ++ x ∷ t) (take-append-drop r xs))

abbrev pub IsPiece : Bytes → Type 0
IsPiece c = 0 < length c

module _ (n : ℕ) where
  step_whole :
      (buf c : Bytes) (cs : List Bytes)
      → length buf < n
      → IsPiece c
      → length c ≤ n - length buf
      → recv_loop n buf (c ∷ cs) ≡ recv_loop n (buf ++ c) cs
  unfolding recv_loop
  step_whole buf c cs more piece fits = rw (
    lt→ltb (length buf) n more,
    take_all (n - length buf) c fits,
    drop_all (n - length buf) c fits,
    pos→not-==-zero (length c) piece,
  )

  step_cut :
      (buf c : Bytes) (cs : List Bytes)
      → length buf < n
      → n - length buf < length c
      → recv_loop n buf (c ∷ cs)
        ≡ (some (buf ++ take (n - length buf) c), drop (n - length buf) c ∷ cs)
  unfolding recv_loop
  step_cut buf c cs more long = rw (
    lt→ltb (length buf) n more,
    pos→not-==-zero (length (take (n - length buf) c))
        (omega (arith, length-take (n - length buf) c)),
    pos→not-==-zero (length (drop (n - length buf) c))
        (omega (arith, length-drop (n - length buf) c)),
  )

  recv_cut :
      (bs rest buf c : Bytes) (cs : List Bytes)
      → All IsPiece (c ∷ cs)
      → length bs ≡ n
      → length buf < n
      → n - length buf < length c
      → buf ++ joined (c ∷ cs) ≡ bs ++ rest
      → (left : List Bytes) × (recv_loop n buf (c ∷ cs) ≡ (some bs, left))
        × All IsPiece left
        × (joined left ≡ rest)
  recv_cut bs rest buf c cs pieces len more long e =
      let k : ℕ = n - length buf in
      let regroup : (buf ++ take k c) ++ (drop k c ++ joined cs) ≡ bs ++ rest =
        append_assoc buf (take k c) (drop k c ++ joined cs)
        ∙ ap (λ t. buf ++ t) (sym (append_assoc (take k c) (drop k c) (joined cs)))
        ∙ rw (take-append-drop k c) e in
      let (front, back) =
        append_split (buf ++ take k c) (drop k c ++ joined cs) bs rest
          (omega (arith, length-append buf (take k c), length-take k c)) regroup in
      (
        drop k c ∷ cs,
        step_cut buf c cs more long ∙ ap (λ t. (some t, drop k c ∷ cs)) front,
        (omega (arith, length-drop k c), pieces.1),
        back,
      )

  -- With `buf` received, and enough bytes to come, the loop returns the first `n` of all of them, in
  -- whatever pieces they come, and leaves the rest.
  recv_loop_exact :
      (bs rest buf : Bytes) (chunks : List Bytes)
      → All IsPiece chunks
      → length bs ≡ n
      → length buf ≤ n
      → buf ++ joined chunks ≡ bs ++ rest
      → (left : List Bytes) × (recv_loop n buf chunks ≡ (some bs, left))
        × All IsPiece left
        × (joined left ≡ rest)
  unfolding recv_loop
  recv_loop_exact bs rest buf [] pieces len room e =
      let same : length buf ≡ n =
        omega (arith, ap length e, length-append buf [], length-append bs rest) in
      let (whole, none_left) = append_split buf [] bs rest (same ∙ sym len) e in
      (
        [],
        rw (le→not-ltb (length buf) n (omega arith)) (ap (λ t. (some t, [])) whole),
        tt,
        none_left,
      )
  recv_loop_exact bs rest buf (c ∷ cs) pieces len room e = elim (Bool-cases (ltb (length buf) n)) [
    | inr full ↦
        let (whole, others) = append_split buf (c ++ joined cs) bs rest (ground arith) e in
        (c ∷ cs, rw full (ap (λ t. (some t, c ∷ cs)) whole), pieces, others)
    | inl more ↦ elim (dec_le (length c) (n - length buf)) [
      | yes fits ↦
          let (left, run, ok, others) =
            recv_loop_exact bs rest (buf ++ c) cs pieces.1 len (omega (tests, length-append buf c))
              (append_assoc buf c (joined cs) ∙ e) in
          (left, step_whole buf c cs (ltb→lt _ _ more) pieces.0 fits ∙ run, ok, others)
      | no long ↦ recv_cut bs rest buf c cs pieces len (ltb→lt _ _ more) (omega arith) e
    ]
  ]

-- Whatever the pieces in which the bytes arrive, a `recv_all` of `n` bytes returns the first `n` of
-- them, and the others stay to be received.
pub recv_all_exact :
    (n : ℕ) (bs rest : Bytes) (chunks : List Bytes)
    → All IsPiece chunks
    → length bs ≡ n
    → joined chunks ≡ bs ++ rest
    → (left : List Bytes) × (recv_all n chunks ≡ (some bs, left))
      × All IsPiece left
      × (joined left ≡ rest)
unfolding recv_all
recv_all_exact n bs rest chunks pieces len e =
    recv_loop_exact n bs rest [] chunks pieces len (omega arith) e

-- What one socket sends with success, whatever the numbers of bytes that the system accepts at a
-- time, the other socket reads by one `read` of as many bytes, whatever the pieces in which they
-- arrive.
pub socket_read-socket_write :
    (p : Bytes) (a b : Socket)
    → a.is_open ≡ true
    → b.is_open ≡ true
    → a.out ≡ []
    → (socket_write p a).0 ≡ true
    → All IsPiece b.arriving
    → joined b.arriving ≡ (socket_write p a).1.out
    → (socket_read (length p) b).0 ≡ some p
unfolding socket_read socket_write send_all
socket_read-socket_write p a b ha hb fresh sent pieces arrives =
    let done : (send_loop p a.out a.accepts).0 ≡ true = rw ha at sent in
    let whole : (send_loop p a.out a.accepts).1 ≡ p =
      send_loop_out p a.out a.accepts done ∙ ap (λ t. t ++ p) fresh in
    let (left, run, ok, others) =
      recv_all_exact (length p) p [] b.arriving pieces refl
        (arrives ∙ rw ha (whole ∙ sym (append-nil p))) in
    rw (hb, run)
