-- ===== src/Server/Clients.antt =====
-- The connections of the server and the clients that they belong to, client/src/server/server.cpp:
-- `launchStream`, and `handleStream` around its loop.
pub mod Counts
pub mod Calls
use folder_buddies.Base.{
  not, ℕ, suc, ◌+◌, ◌-◌, ◌≡◌, Bool, true, false, Option, none, some, List, [], ◌∷◌, ◌++◌, leb, ◌==◌,
  if◌then◌else◌, get_or, length,
}
use folder_buddies.Base.Bytes.{Bytes, bytes_eq}
use folder_buddies.Base.Map.{Map, find, insert, erase, bytes_key}

-- `sessions_`: how many connections each client has.
abbrev pub Sessions : Type 0
Sessions = Map Bytes ℕ

-- A number that `operator[]` makes is 0.
unfoldable pub count_of : Bytes → Sessions → ℕ
count_of id m = elim (find id m) [ none ↦ 0 | some n ↦ n ]

-- Whether the connection is the first of its client.
unfoldable pub add_client : Bytes → Sessions → Bool × Sessions
unfolding count_of
add_client id m = let n = count_of id m in (n == 0, insert id (n + 1) m)

-- Whether the connection was the last of its client.
unfoldable pub remove_client : Bytes → Sessions → Bool × Sessions
remove_client id m = elim (find id m) [
  | none ↦ (false, m)
  | some n ↦ if leb n 1 then (true, erase id m) else (false, insert id (n - 1) m)
]

-- A connection's thread: before its handshake, serving a client, or with no client any more, also
-- behind a handshake that failed.
pub data Phase : Type 0 where
  greeting : Phase
  serving : Bytes → Phase
  leaving : Phase

-- The shared state, the threads, and how often `onClientsChanged` was called.
pub record Connections : Type 0 where
  pub running : Bool
  pub conn_count : ℕ
  pub sessions : Sessions
  pub threads : List Phase
  pub changes : ℕ

-- `launchStream` of a stream, and whether the thread starts.
unfoldable pub launch_stream : Bool → Connections → Connections
launch_stream starts s =
    if not s.running
    then s
    else if starts
    then record s { conn_count = s.conn_count + 1; threads = greeting ∷ s.threads }
    else record s { conn_count = s.conn_count + 1 - 1 }

unfoldable pub serve_client : Bytes → Connections → Connections
unfolding add_client
serve_client id s =
    let (added, m) = add_client id s.sessions in
    record s { sessions = m; changes = if added then s.changes + 1 else s.changes }

unfoldable pub leave_client : Bytes → Connections → Connections
unfolding remove_client
leave_client id s =
    let (removed, m) = remove_client id s.sessions in
    record s { sessions = m; changes = if removed then s.changes + 1 else s.changes }

-- The locked parts of the threads, and of `stop`; `before` and `after` are the other threads.
pub data ConnectionStep (s : Connections) : Connections → Type 0 where
  launches : (starts : Bool) → ConnectionStep s (launch_stream starts s)
  authenticates :
      (before after : List Phase) (id : Bytes)
      → s.threads ≡ before ++ (greeting ∷ after)
      → ConnectionStep s (serve_client id (record s { threads = before ++ (serving id ∷ after) }))
  rejects :
      (before after : List Phase)
      → s.threads ≡ before ++ (greeting ∷ after)
      → ConnectionStep s (record s { threads = before ++ (leaving ∷ after) })
  leaves :
      (before after : List Phase) (id : Bytes)
      → s.threads ≡ before ++ (serving id ∷ after)
      → ConnectionStep s (leave_client id (record s { threads = before ++ (leaving ∷ after) }))
  ends :
      (before after : List Phase)
      → s.threads ≡ before ++ (leaving ∷ after)
      → ConnectionStep s (record s { conn_count = s.conn_count - 1; threads = before ++ after })
  stops : ConnectionStep s (record s { running = false })
  -- `stop` behind its wait
  clears : s.running ≡ false → s.conn_count ≡ 0 → ConnectionStep s (record s { sessions = [] })

-- The state of a server that has started.
abbrev pub no_connections : Connections
no_connections = record { running = true; conn_count = 0; sessions = []; threads = []; changes = 0 }

-- The states that the steps lead to.
pub data ConnectionReach (s : Connections) : Connections → Type 0 where
  here : ConnectionReach s s
  next : {t u : Connections} → ConnectionReach s t → ConnectionStep t u → ConnectionReach s u
