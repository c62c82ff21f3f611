-- ===== src/Client/Answers.antt =====
-- Whose reply a request gets, client/src/clients/client.cpp: the callers and the reader of a connection
-- as steps.
use folder_buddies.Base.{
  ℕ, Bool, true, false, ◌==◌, ==_iff, Option, none, some, List, [], ◌∷◌, ◌≡◌, ◌≢◌, ◌⊎◌, refl, sym,
  ap, inl, inr, Bool-cases, Option-cases, if◌then◌else◌,
}
use mathlib.Core.Path.{subst}
use folder_buddies.Base.Bytes.{Bytes}
use folder_buddies.Base.Map.{Map, find, insert, erase, nat_key, find-insert, find-erase}
use folder_buddies.Wire.{MsgHeader}
use folder_buddies.Wire.Op.{Op, op_code}
use folder_buddies.Client.{
  Pending, Conn, new_conn, register, forget, deliver, on_message, die, fail_all, finish, eio,
}

-- A connection, the messages that its reader has read, the latest first, and whether the reader has
-- failed the requests and ended.
pub record Net : Type 0 where
  pub conn : Conn
  pub log : List (MsgHeader × Bytes)
  pub ended : Bool

abbrev pub new_net : Net
new_net = record { conn = new_conn; log = []; ended = false }

-- A step of a caller or of the reader.
pub data NetStep (s : Net) : Net → Type 0 where
  asks : NetStep s (record s { conn = (register s.conn).1 })
  not_sent : (id : ℕ) → NetStep s (record s { conn = forget id s.conn })
  returns : (id : ℕ) → NetStep s (record s { conn = (finish id s.conn).1 })
  reads :
      (h : MsgHeader) (payload : Bytes)
      → s.ended ≡ false
      → NetStep s (record s { conn = (on_message h payload s.conn).1; log = (h, payload) ∷ s.log })
  dies : NetStep s (record s { conn = die s.conn })
  ends :
      s.conn.alive ≡ false
      → NetStep s (record s { conn = record s.conn { pend = fail_all s.conn.pend }; ended = true })

pub data NetReach (s : Net) : Net → Type 0 where
  here : NetReach s s
  next : {t u : Net} → NetReach s t → NetStep t u → NetReach s u

-- A message with the number of the request, and with this status and payload, has been read.
abbrev pub Answered : List (MsgHeader × Bytes) → ℕ → ℕ × Bytes → Type 0
Answered [] id answer = ⊥
Answered ((h, payload) ∷ ms) id answer =
    ((h.req_id ≡ id) × ((h.status, payload) ≡ answer)) ⊎ Answered ms id answer

-- What the entry of a request may hold.
abbrev Honest : List (MsgHeader × Bytes) → ℕ → Pending → Type 0
Honest log id p = p.completed ≡ true → (p.status ≡ eio) ⊎ Answered log id (p.status, p.content)

abbrev HonestAll : List (MsgHeader × Bytes) → Map ℕ Pending → Type 0
HonestAll log m = (id : ℕ) (p : Pending) → find id m ≡ some p → Honest log id p

HonestAll-erase :
    (log : List (MsgHeader × Bytes)) (x : ℕ) (m : Map ℕ Pending)
    → HonestAll log m
    → HonestAll log (erase x m)
HonestAll-erase log x m inv id p h = elim (Bool-cases (x == id)) [
  | inl hit ↦ cc (rw (find-erase x id m, hit) at h)
  | inr miss ↦ inv id p (rw (find-erase x id m, miss) at h)
]

HonestAll-insert :
    (log : List (MsgHeader × Bytes)) (x : ℕ) (q : Pending) (m : Map ℕ Pending)
    → Honest log x q
    → HonestAll log m
    → HonestAll log (insert x q m)
HonestAll-insert log x q m own inv id p h = elim (Bool-cases (x == id)) [
  | inl hit ↦
      let same : q ≡ p = cc (rw (find-insert x id q m, hit) at h) in
      subst (λ (p : Pending). Honest log id p) same
        (subst (λ (n : ℕ). Honest log n q) ((==_iff x id).0 hit) own)
  | inr miss ↦ inv id p (rw (find-insert x id q m, miss) at h)
]

HonestAll-more :
    (log : List (MsgHeader × Bytes)) (m : Map ℕ Pending) (msg : MsgHeader × Bytes)
    → HonestAll log m
    → HonestAll (msg ∷ log) m
HonestAll-more log m msg inv id p h completed = elim (inv id p h completed) [
  | inl failed ↦ inl failed
  | inr answered ↦ inr (inr answered)
]

HonestAll-fail_all :
    (log : List (MsgHeader × Bytes)) (m : Map ℕ Pending) → HonestAll log (fail_all m)
unfolding fail_all find
HonestAll-fail_all log [] id p h = cc h
HonestAll-fail_all log ((x, q) ∷ m) id p h = elim (Bool-cases (x == id)) [
  | inl hit ↦
      let same : record q { completed = true; status = eio } ≡ p = cc (rw hit at h) in
      λ c. inl (sym (ap (λ (p : Pending). p.status) same))
  | inr miss ↦ HonestAll-fail_all log m id p (rw miss at h)
]

-- Once the reader has ended, no entry is left without an outcome and none can come.
abbrev Settled : Net → Type 0
Settled s =
    s.ended ≡ true
    → (s.conn.alive ≡ false)
      × ((id : ℕ) (p : Pending) → find id s.conn.pend ≡ some p → p.completed ≡ true)

record NetInv (s : Net) : Type 0 where
  honest : HonestAll s.log s.conn.pend
  settled : Settled s

new_net-NetInv : NetInv new_net
unfolding find
new_net-NetInv = record { honest = λ id p h. cc h; settled = λ h. cc h }

forget-NetInv : (s : Net) (x : ℕ) → NetInv s → NetInv (record s { conn = forget x s.conn })
unfolding forget
forget-NetInv s x inv = record {
  honest = HonestAll-erase s.log x s.conn.pend inv.honest;
  settled = λ h. (
    (inv.settled h).0,
    λ id p e. elim (Bool-cases (x == id)) [
      | inl hit ↦ cc (rw (find-erase x id s.conn.pend, hit) at e)
      | inr miss ↦ (inv.settled h).1 id p (rw (find-erase x id s.conn.pend, miss) at e)
    ],
  );
}

finish-forget : (id : ℕ) (c : Conn) → (finish id c).1 ≡ forget id c
unfolding finish
finish-forget id c = elim (Option-cases (find id c.pend)) [
  | inl absent ↦ rw (absent, finish) refl
  | inr (p, present) ↦ rw (present, finish) refl
]

if_false {ℓ} : {A : Type ℓ} (b : Bool) (x y : A) → b ≡ false → (if b then x else y) ≡ y
if_false true x y h = cc h
if_false false x y h = refl

register-dead : (c : Conn) → c.alive ≡ false → register c ≡ (none, c)
unfolding register
register-dead c dead = if_false c.alive _ (none, c) dead

asks-NetInv : (s : Net) → NetInv s → NetInv (record s { conn = (register s.conn).1 })
unfolding register
asks-NetInv s inv = elim (Bool-cases s.conn.alive) [
  | inr dead ↦
      subst (λ (r : Option ℕ × Conn). NetInv (record s { conn = r.1 }))
        (sym (register-dead s.conn dead)) inv
  | inl alive ↦ rw alive (record {
    honest = HonestAll-insert s.log s.conn.next_id _ s.conn.pend (λ h. cc h) inv.honest;
    settled = λ h. cc (rw (inv.settled h).0 at alive);
  })
]

deliver-HonestAll :
    (log : List (MsgHeader × Bytes)) (h : MsgHeader) (payload : Bytes) (c : Conn)
    → HonestAll log c.pend
    → HonestAll ((h, payload) ∷ log) (deliver h payload c).pend
unfolding deliver
deliver-HonestAll log h payload c inv = elim (Option-cases (find h.req_id c.pend)) [
  | inl absent ↦ rw (absent, deliver) (HonestAll-more log c.pend (h, payload) inv)
  | inr (p, present) ↦
      rw (present, deliver)
        (HonestAll-insert ((h, payload) ∷ log) h.req_id _ c.pend (λ e. inr (inl (refl, refl)))
          (HonestAll-more log c.pend (h, payload) inv))
]

reads-NetInv :
    (s : Net) (h : MsgHeader) (payload : Bytes)
    → s.ended ≡ false
    → NetInv s
    → NetInv (record s { conn = (on_message h payload s.conn).1; log = (h, payload) ∷ s.log })
unfolding on_message
reads-NetInv s h payload going inv = elim (Bool-cases (h.op == op_code Op.invalidate)) [
  | inl change ↦ rw change (record {
    honest = HonestAll-more s.log s.conn.pend (h, payload) inv.honest;
    settled = inv.settled;
  })
  | inr reply ↦ rw reply (record {
    honest = deliver-HonestAll s.log h payload s.conn inv.honest;
    settled = λ e. cc (rw going at e);
  })
]

completed-fail_all :
    (m : Map ℕ Pending) (id : ℕ) (p : Pending) → find id (fail_all m) ≡ some p → p.completed ≡ true
unfolding fail_all find
completed-fail_all [] id p h = cc h
completed-fail_all ((x, q) ∷ m) id p h = elim (Bool-cases (x == id)) [
  | inl hit ↦
      let same : record q { completed = true; status = eio } ≡ p = cc (rw hit at h) in
      sym (ap (λ (p : Pending). p.completed) same)
  | inr miss ↦ completed-fail_all m id p (rw miss at h)
]

NetStep-NetInv : {s t : Net} → NetStep s t → NetInv s → NetInv t
unfolding die
NetStep-NetInv {s = s} asks inv = asks-NetInv s inv
NetStep-NetInv {s = s} (not_sent id) inv = forget-NetInv s id inv
NetStep-NetInv {s = s} (returns id) inv =
    subst (λ (c : Conn). NetInv (record s { conn = c })) (sym (finish-forget id s.conn))
      (forget-NetInv s id inv)
NetStep-NetInv {s = s} (reads h payload going) inv = reads-NetInv s h payload going inv
NetStep-NetInv dies inv = record { honest = inv.honest; settled = λ h. (refl, (inv.settled h).1) }
NetStep-NetInv {s = s} (ends dead) inv = record {
  honest = HonestAll-fail_all s.log s.conn.pend;
  settled = λ h. (dead, completed-fail_all s.conn.pend);
}

NetReach-NetInv : {s t : Net} → NetReach s t → NetInv s → NetInv t
NetReach-NetInv here inv = inv
NetReach-NetInv (next r st) inv = NetStep-NetInv st (NetReach-NetInv r inv)

-- However callers and reader interleave, a request that returns anything but EIO returns the status and
-- the payload of a message that was read with its own number.
pub finish-Answered :
    {t : Net} (id : ℕ)
    → NetReach new_net t
    → (finish id t.conn).0.0 ≢ eio
    → Answered t.log id (finish id t.conn).0
unfolding finish
finish-Answered {t} id r ok =
    let inv : NetInv t = NetReach-NetInv r new_net-NetInv in
    elim (Option-cases (find id t.conn.pend)) [
      | inl absent ↦ absurd (rw (absent, finish) at ok refl)
      | inr (p, present) ↦ elim (Bool-cases p.completed) [
        | inr open_still ↦ absurd (rw (present, finish, open_still) at ok refl)
        | inl completed ↦ elim (inv.honest id p present completed) [
          | inl failed ↦ absurd (rw (present, finish, completed) at ok failed)
          | inr answered ↦ rw (present, finish, completed) answered
        ]
      ]
    ]

-- Once the reader has ended, every request that is still waiting has its outcome, and a new request
-- is refused: none waits for a reply that cannot come.
pub ended-completed :
    {t : Net} (id : ℕ) (p : Pending)
    → NetReach new_net t
    → t.ended ≡ true
    → find id t.conn.pend ≡ some p
    → (p.completed ≡ true) × ((register t.conn).0 ≡ none)
ended-completed {t} id p r ended present =
    let inv : NetInv t = NetReach-NetInv r new_net-NetInv in
    let (dead, all) = inv.settled ended in (all id p present, rw (register-dead t.conn dead) refl)
