-- ===== src/Client.antt =====
-- Requests and their replies on one connection, `Client::request` and `Client::readerLoop` of
-- client/src/clients/client.cpp, and the choice of the connection.
pub mod Answers
use folder_buddies.Base.{
  ℕ, ◌+◌, ◌%◌, ◌^◌, Bool, true, false, not, ◌||◌, Option, none, some, List, [], ◌∷◌, length, get_or,
  ◌==◌, if◌then◌else◌, set,
}
use folder_buddies.Base.Bytes.{Bytes}
use folder_buddies.Base.Map.{Map, find, insert, erase, nat_key}
use folder_buddies.Wire.{MsgHeader, get_str}
use folder_buddies.Wire.Op.{Op, op_code}
use folder_buddies.Wire.Stream.{ByteStream}
use folder_buddies.Crypto.Channel.{SecureChannel, send}

abbrev pub eio : ℕ
eio = 5

pub record Pending : Type 0 where
  pub completed : Bool
  pub status : ℕ
  pub content : Bytes

-- `pend` has the reply of each request that is under way; the request's own reference to it is the
-- entry under its number.
pub record Conn : Type 0 where
  pub pend : Map ℕ Pending
  pub next_id : ℕ
  pub alive : Bool

abbrev pub new_conn : Conn
new_conn = record { pend = []; next_id = 1; alive = true }

-- The number of a new request, unless the connection is dead.
unfoldable pub register : Conn → Option ℕ × Conn
register c =
    let pend' = insert c.next_id (record { completed = false; status = 0; content = [] }) c.pend in
    if c.alive
    then (some c.next_id, record c { pend = pend'; next_id = (c.next_id + 1) % 2 ^ 64 })
    else (none, c)

unfoldable pub forget : ℕ → Conn → Conn
forget id c = record c { pend = erase id c.pend }

-- A reply goes to the request whose number it has; one that nobody waits for is dropped.
unfoldable pub deliver : MsgHeader → Bytes → Conn → Conn
deliver h payload c = elim (find h.req_id c.pend) [
  | none ↦ c
  | some p ↦ record c {
    pend =
        insert h.req_id (record { completed = true; status = h.status; content = payload }) c.pend;
  }
]

-- One round of the reader, with the path that a message invalidates.
unfoldable pub on_message : MsgHeader → Bytes → Conn → Option Bytes × Conn
unfolding deliver
on_message h payload c =
    if h.op == op_code Op.invalidate then ((get_str payload).0, c) else (none, deliver h payload c)

-- The end of the reader: first `alive` is reset, and then every request fails.
unfoldable pub die : Conn → Conn
die c = record c { alive = false }

unfoldable pub fail_all : Map ℕ Pending → Map ℕ Pending
fail_all [] = []
fail_all ((id, p) ∷ m) = (id, record p { completed = true; status = eio }) ∷ fail_all m

-- What a request returns when its wait is over, by a reply or by the time limit.
unfoldable pub finish : ℕ → Conn → (ℕ × Bytes) × Conn
unfolding forget
finish id c = elim (find id c.pend) [
  | none ↦ ((eio, []), forget id c)
  | some p ↦ (if p.completed then (p.status, p.content) else (eio, []), forget id c)
]

-- A connection with its stream and its channel, and whatever happens on it while a request waits.
module _ {S : Type 0} (stream : ByteStream S)
    (meanwhile : Conn × (SecureChannel × S) → Conn × (SecureChannel × S)) where
  unfoldable pub request_on :
      ℕ → Bytes → Conn × (SecureChannel × S) → (ℕ × Bytes) × (Conn × (SecureChannel × S))
  unfolding register forget finish
  request_on op payload (c, (chan, s)) =
      let (id, c') = register c in
      elim id [
        | none ↦ ((eio, []), (c, (chan, s)))
        | some id ↦
            let (sent, chan', s') = send stream op 0 id payload (length payload % 2 ^ 32) chan s in
            let (c2, rest) = meanwhile (c', (chan', s')) in
            let (answer, c3) = finish id c2 in
            if sent then (answer, (c3, rest)) else ((eio, []), (forget id c', (chan', s')))
      ]

  -- `Client::request`: the connections take turns.
  unfoldable pub client_request :
      Bool
      → ℕ
      → ℕ
      → Bytes
      → List (Conn × (SecureChannel × S))
      → Conn × (SecureChannel × S)
      → (ℕ × Bytes) × (ℕ × List (Conn × (SecureChannel × S)))
  unfolding request_on
  client_request connected rr op payload conns absent =
      let turn = rr % length conns in
      let (answer, c) = request_on op payload (get_or conns turn absent) in
      if not connected || length conns == 0
      then ((eio, []), (rr, conns))
      else (answer, ((rr + 1) % 2 ^ 32, set conns turn c))
