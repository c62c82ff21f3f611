-- ===== src/Server/Clients/Counts.antt =====
-- The counts of the server's connections, client/src/server/server.cpp: `connCount_` and `sessions_`.
use folder_buddies.Base.{
  ◌-◌, leb, ap, inr, ◌∙◌, false, ==_iff, sym, ◌∷◌, inl, ◌∷◌, true, some, [], none, arith, suc, ◌==◌,
  ◌+◌, if◌then◌else◌, ◌++◌, Option, length, ℕ, List, refl, ◌≡◌, Bool-cases,
}
use folder_buddies.Base.Bytes.{bytes_eq_iff, Bytes, bytes_eq}
use folder_buddies.Base.Map.{find, find-insert, find-erase, find_empty, bytes_key}
use folder_buddies.Server.Clients.{
  here, next, ConnectionReach, no_connections, Sessions, Phase, greeting, serving, leaving,
  Connections, ConnectionStep, launches, authenticates, rejects, leaves, ends, stops, clears,
  count_of, add_client, remove_client, launch_stream, serve_client, leave_client,
}

-- How many threads serve a client.
abbrev serves_one : Bytes → Phase → ℕ
serves_one id greeting = 0
serves_one id (serving c) = if bytes_eq c id then 1 else 0
serves_one id leaving = 0

unfoldable pub serves : Bytes → List Phase → ℕ
serves id [] = 0
serves id (t ∷ ts) = serves_one id t + serves id ts

serves_place :
    (id : Bytes) (before after : List Phase) (t : Phase)
    → serves id (before ++ (t ∷ after)) ≡ serves_one id t + serves id (before ++ after)
unfolding serves
serves_place id [] after t = refl
serves_place id (x ∷ before) after t = omega (arith, serves_place id before after t)

-- What the map has for a client with `n` connections.
abbrev pub entry : ℕ → Option ℕ
entry n = if n == 0 then none else some n

-- Every thread is counted, and every client's threads.
pub record Counted (s : Connections) : Type 0 where
  pub conns : s.conn_count ≡ length s.threads
  pub clients : (id : Bytes) → find id s.sessions ≡ entry (serves id s.threads)

count_of-entry : (id : Bytes) (m : Sessions) (n : ℕ) → find id m ≡ entry n → count_of id m ≡ n
unfolding count_of
count_of-entry id m n h = elim (Bool-cases (n == 0)) [
  | inl nothing ↦ rw (count_of, h, nothing) (sym ((==_iff n 0).0 nothing))
  | inr some_threads ↦ rw (count_of, h, some_threads) refl
]

entry-suc : (n : ℕ) → entry (suc n) ≡ some (suc n)
entry-suc n = let positive : (suc n == 0) ≡ false = ground arith in rw positive refl

add_client-entry :
    (id : Bytes) (m : Sessions) (count : Bytes → ℕ)
    → ((c : Bytes) → find c m ≡ entry (count c))
    → (c : Bytes)
    → find c (add_client id m).1 ≡ entry (if bytes_eq id c then suc (count c) else count c)
unfolding add_client
add_client-entry id m count h c = elim (Bool-cases (bytes_eq id c)) [
  | inl same ↦
      let e : id ≡ c = (bytes_eq_iff id c).0 same in
      let n : count_of id m + 1 ≡ suc (count c) =
        rw e (omega (arith, count_of-entry c m (count c) (h c))) in
      rw (find-insert id c (count_of id m + 1) m, same, n) (sym (entry-suc (count c)))
  | inr other ↦ rw (find-insert id c (count_of id m + 1) m, other) (h c)
]

remove_client-entry :
    (id : Bytes) (m : Sessions) (count : Bytes → ℕ)
    → ((c : Bytes) → find c m ≡ entry (if bytes_eq id c then suc (count c) else count c))
    → (c : Bytes) → find c (remove_client id m).1 ≡ entry (count c)
unfolding remove_client
remove_client-entry id m count h c =
    let own : bytes_eq id id ≡ true = (bytes_eq_iff id id).1 refl in
    let here : find id m ≡ some (suc (count id)) = h id ∙ rw own (entry-suc (count id)) in
    elim (Bool-cases (leb (suc (count id)) 1)) [
      | inl last ↦ elim (Bool-cases (bytes_eq id c)) [
        | inl same ↦
            let e : id ≡ c = (bytes_eq_iff id c).0 same in
            let none_left : (count c == 0) ≡ true = rw (← e) (ground (arith, last)) in
            rw (remove_client, here, last, find-erase id c m, same, none_left) refl
        | inr other ↦ rw (remove_client, here, last, find-erase id c m, other) (h c ∙ rw other refl)
      ]
      | inr more ↦ elim (Bool-cases (bytes_eq id c)) [
        | inl same ↦
            let e : id ≡ c = (bytes_eq_iff id c).0 same in
            let some_left : (count c == 0) ≡ false = rw (← e) (ground (arith, more)) in
            let left : suc (count id) - 1 ≡ count c = rw e (omega arith) in
            rw
              (
                remove_client,
                here,
                more,
                find-insert id c (suc (count id) - 1) m,
                same,
                some_left,
                left,
              )
              refl
        | inr other ↦
            rw (remove_client, here, more, find-insert id c (suc (count id) - 1) m, other)
              (h c ∙ rw other refl)
      ]
    ]

length_place :
    (before after : List Phase) (t : Phase)
    → length (before ++ (t ∷ after)) ≡ suc (length (before ++ after))
length_place [] after t = refl
length_place (x ∷ before) after t = ap suc (length_place before after t)

-- One thread among the others of a state.
conns_at :
    (s : Connections) (before after : List Phase) (t : Phase)
    → Counted s
    → s.threads ≡ before ++ (t ∷ after)
    → s.conn_count ≡ suc (length (before ++ after))
conns_at s before after t c at = c.conns ∙ ap length at ∙ length_place before after t

clients_at :
    (s : Connections) (before after : List Phase) (t : Phase)
    → Counted s
    → s.threads ≡ before ++ (t ∷ after)
    → (id : Bytes) → find id s.sessions ≡ entry (serves_one id t + serves id (before ++ after))
clients_at s before after t c at id =
    c.clients id ∙ ap entry (ap (serves id) at ∙ serves_place id before after t)

one_more :
    (id c : Bytes) (n : ℕ) → serves_one c (serving id) + n ≡ (if bytes_eq id c then suc n else n)
one_more id c n = ground arith

pub no_threads : (ts : List Phase) → length ts ≡ 0 → ts ≡ []
no_threads [] h = refl
no_threads (t ∷ ts) h = absurd (omega arith)

step-Counted : (s t : Connections) → ConnectionStep s t → Counted s → Counted t
unfolding launch_stream serve_client leave_client serves
step-Counted s t (launches starts) c = elim (Bool-cases s.running) [
  | inr stopped ↦ rw (launch_stream, stopped) record { conns = c.conns; clients = c.clients }
  | inl up ↦ elim (Bool-cases starts) [
    | inl begun ↦
        rw (launch_stream, up, begun)
          record {
            conns = omega (arith, c.conns);
            clients = λ d. c.clients d ∙ ap entry (omega arith);
          }
    | inr failed ↦
        rw (launch_stream, up, failed)
          record { conns = omega (arith, c.conns); clients = c.clients }
  ]
]
step-Counted s t (authenticates before after id at) c = record {
  conns = conns_at s before after greeting c at ∙ sym (length_place before after (serving id));
  clients = λ d.
      add_client-entry id s.sessions (λ e. serves e (before ++ after))
        (λ e. clients_at s before after greeting c at e ∙ ap entry (omega arith)) d
      ∙ ap entry (sym (serves_place d before after (serving id) ∙ one_more id d _));
}
step-Counted s t (rejects before after at) c = record {
  conns = conns_at s before after greeting c at ∙ sym (length_place before after leaving);
  clients = λ d.
      clients_at s before after greeting c at d
      ∙ ap entry (sym (serves_place d before after leaving));
}
step-Counted s t (leaves before after id at) c = record {
  conns = conns_at s before after (serving id) c at ∙ sym (length_place before after leaving);
  clients = λ d.
      remove_client-entry id s.sessions (λ e. serves e (before ++ after))
        (λ e. clients_at s before after (serving id) c at e ∙ ap entry (one_more id e _)) d
      ∙ ap entry (sym (serves_place d before after leaving ∙ omega arith));
}
step-Counted s t (ends before after at) c = record {
  conns = omega (arith, conns_at s before after leaving c at);
  clients = λ d. clients_at s before after leaving c at d ∙ ap entry (omega arith);
}
step-Counted s t stops c = record { conns = c.conns; clients = c.clients }
step-Counted s t (clears stopped over) c = record {
  conns = c.conns;
  clients = λ d.
      let none_left : s.threads ≡ [] = no_threads s.threads (sym c.conns ∙ over) in
      rw (find_empty d, none_left) refl;
}

no_connections-Counted : Counted no_connections
unfolding serves
no_connections-Counted = record { conns = refl; clients = λ id. find_empty id }

reach-Counted : {s t : Connections} → ConnectionReach s t → Counted s → Counted t
reach-Counted here c = c
reach-Counted (next {t = t} {u = u} r st) c = step-Counted t u st (reach-Counted r c)

-- However connections start, authenticate, are rejected and end, `connCount_` is the number of their
-- threads, and `sessions_` has for each client the number of threads that serve it, and no entry for a
-- client without one.
pub connections-Counted : {t : Connections} → ConnectionReach no_connections t → Counted t
connections-Counted r = reach-Counted r no_connections-Counted
