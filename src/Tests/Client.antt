-- ===== src/Tests/Client.antt =====
-- Two requests on one connection, whose replies come in the other order.
use folder_buddies.Base.{ℕ, ◌≡◌, ◌≢◌, refl, [], ◌∷◌, some, none, true}
use folder_buddies.Base.Map.{find, insert, erase, nat_key}
use folder_buddies.Wire.{MsgHeader}
use folder_buddies.Wire.Op.{op_code}
use folder_buddies.Client.{Pending, register, on_message, deliver, finish, die, fail_all, eio}
use folder_buddies.Client.Answers.{
  Net, NetReach, here, next, new_net, asks, reads, dies, ends, Answered, finish-Answered,
  ended-completed,
}

abbrev asked : Net
asked = record new_net { conn = (register (register new_net.conn).1).1 }

abbrev reply : ℕ → MsgHeader
reply id = record { magic = 0; op = 13; status = 0; req_id = id; len = 1 }

abbrev replied : Net
replied = record asked {
  conn = (on_message (reply 2) (9 ∷ []) asked.conn).1;
  log = (reply 2, 9 ∷ []) ∷ [];
}

replied_run : NetReach new_net replied
replied_run = next (next (next here asks) asks) (reads (reply 2) (9 ∷ []) refl)

not_eio : (finish 2 replied.conn).0.0 ≢ eio
unfolding finish on_message deliver find insert erase register op_code
not_eio h = cc h

finish-Answered_example : Answered replied.log 2 (finish 2 replied.conn).0
finish-Answered_example = finish-Answered 2 replied_run not_eio

abbrev lost : Net
lost = record replied { conn = die replied.conn }

abbrev over : Net
over = record lost { conn = record lost.conn { pend = fail_all lost.conn.pend }; ended = true }

over_run : NetReach new_net over
unfolding die
over_run = next (next replied_run dies) (ends refl)

abbrev failed_reply : Pending
failed_reply = record { completed = true; status = eio; content = [] }

first_failed : find 1 over.conn.pend ≡ some failed_reply
unfolding find fail_all die on_message deliver insert erase register op_code
first_failed = refl

ended-completed_example : (failed_reply.completed ≡ true) × ((register over.conn).0 ≡ none)
ended-completed_example = ended-completed 1 failed_reply over_run refl first_failed
