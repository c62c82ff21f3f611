-- ===== src/Server/Clients/Calls.antt =====
-- When `onClientsChanged` is called, client/src/server/server.cpp.
use mathlib.Core.Path.{subst}
use folder_buddies.Base.{
  ◌-◌, ==_iff, false≢true, ◌∙◌, none, arith, sym, true, leb, if◌then◌else◌, some, [], inl, ℕ, ◌+◌,
  inr, false, Bool, Option, refl, ◌≡◌, Bool-cases, Option-cases,
}
use folder_buddies.Base.Bytes.{Bytes, bytes_eq, bytes_eq_iff}
use folder_buddies.Base.Map.{find, find-insert, find_empty, bytes_key}
use folder_buddies.Server.Clients.{
  Sessions, Connections, ConnectionStep, launches, authenticates, rejects, leaves, ends, stops,
  clears, count_of, add_client, remove_client, launch_stream, serve_client, leave_client,
}
use folder_buddies.Server.Clients.Counts.{Counted, no_threads, serves}

-- Whether `sessions_` has an entry.
abbrev pub is_connected : Option ℕ → Bool
is_connected none = false
is_connected (some n) = true

add_client-silent :
    (id : Bytes) (m : Sessions) (c : Bytes)
    → (add_client id m).0 ≡ false
    → is_connected (find c (add_client id m).1) ≡ is_connected (find c m)
unfolding add_client
add_client-silent id m c quiet = elim (Bool-cases (bytes_eq id c)) [
  | inr other ↦ rw (find-insert id c (count_of id m + 1) m, other) refl
  | inl same ↦ elim (Option-cases (find id m)) [
    | inl new ↦
        let z : count_of id m ≡ 0 = rw (count_of, new) refl in
        absurd (false≢true (sym quiet ∙ (==_iff (count_of id m) 0).1 z))
    | inr (n, got) ↦
        let there : find c m ≡ some n =
          subst (λ (x : Bytes). find x m ≡ some n) ((bytes_eq_iff id c).0 same) got in
        rw (find-insert id c (count_of id m + 1) m, same, there) refl
  ]
]

remove_client-silent :
    (id : Bytes) (m : Sessions) (c : Bytes)
    → (remove_client id m).0 ≡ false
    → is_connected (find c (remove_client id m).1) ≡ is_connected (find c m)
unfolding remove_client
remove_client-silent id m c quiet = elim (Option-cases (find id m)) [
  | inl new ↦ rw (remove_client, new) refl
  | inr (n, got) ↦ elim (Bool-cases (leb n 1)) [
    | inl last ↦
        let called : (remove_client id m).0 ≡ true = rw (remove_client, got, last) refl in
        absurd (false≢true (sym quiet ∙ called))
    | inr more ↦ elim (Bool-cases (bytes_eq id c)) [
      | inr other ↦ rw (remove_client, got, more, find-insert id c (n - 1) m, other) refl
      | inl same ↦
          let there : find c m ≡ some n =
            subst (λ (x : Bytes). find x m ≡ some n) ((bytes_eq_iff id c).0 same) got in
          rw (remove_client, got, more, find-insert id c (n - 1) m, same, there) refl
    ]
  ]
]

no_call : (b : Bool) (n : ℕ) → (if b then n + 1 else n) ≡ n → b ≡ false
no_call true n h = absurd (omega (arith, h))
no_call false n h = refl

-- A step of a thread that does not call `onClientsChanged` leaves every client as it was, connected or
-- not.
pub step-silent :
    (s t : Connections)
    → Counted s
    → ConnectionStep s t
    → t.changes ≡ s.changes
    → (id : Bytes) → is_connected (find id t.sessions) ≡ is_connected (find id s.sessions)
unfolding launch_stream serve_client leave_client serves
step-silent s t counted (launches starts) quiet d = elim (Bool-cases s.running) [
  | inr stopped ↦ rw (launch_stream, stopped) refl
  | inl up ↦ elim (Bool-cases starts) [
    | inl begun ↦ rw (launch_stream, up, begun) refl
    | inr failed ↦ rw (launch_stream, up, failed) refl
  ]
]
step-silent s t counted (authenticates before after id at) quiet d =
    add_client-silent id s.sessions d (no_call (add_client id s.sessions).0 s.changes quiet)
step-silent s t counted (rejects before after at) quiet d = refl
step-silent s t counted (leaves before after id at) quiet d =
    remove_client-silent id s.sessions d (no_call (remove_client id s.sessions).0 s.changes quiet)
step-silent s t counted (ends before after at) quiet d = refl
step-silent s t counted stops quiet d = refl
step-silent s t counted (clears stopped over) quiet d =
    let none_left : s.threads ≡ [] = no_threads s.threads (sym counted.conns ∙ over) in
    let gone : find d s.sessions ≡ none = counted.clients d ∙ rw none_left refl in
    rw (find_empty d, gone) refl
