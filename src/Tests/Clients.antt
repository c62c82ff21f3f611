-- ===== src/Tests/Clients.antt =====
-- Connections of a client that come and go.
use folder_buddies.Base.{◌++◌, ◌∷◌, true, [], refl, ◌≡◌}
use folder_buddies.Base.Bytes.{Bytes, codes, bytes_eq}
use folder_buddies.Base.Map.{find, insert, erase, bytes_key}
use folder_buddies.Server.Clients.{
  serving, Connections, ConnectionStep, launches, authenticates, count_of, add_client,
  launch_stream, serve_client, no_connections, ConnectionReach, here, next,
}
use folder_buddies.Server.Clients.Counts.{Counted, connections-Counted}
use folder_buddies.Server.Clients.Calls.{is_connected, step-silent}

abbrev client : Bytes
client = codes "client"

-- One connection, and then a second one of the same client.
abbrev greeted : Connections
greeted = launch_stream true no_connections

abbrev one_served : Connections
one_served = serve_client client (record greeted { threads = [] ++ (serving client ∷ []) })

abbrev second_greets : Connections
second_greets = launch_stream true one_served

abbrev two_served : Connections
two_served =
    serve_client client
      (record second_greets { threads = [] ++ (serving client ∷ serving client ∷ []) })

served-ConnectionReach : ConnectionReach no_connections second_greets
unfolding launch_stream serve_client
served-ConnectionReach =
    next (next (next here (launches true)) (authenticates [] [] client refl)) (launches true)

connections-Counted_example : Counted second_greets
connections-Counted_example = connections-Counted served-ConnectionReach

quiet_second : two_served.changes ≡ second_greets.changes
unfolding serve_client launch_stream add_client count_of find insert erase bytes_eq
quiet_second = refl

second-ConnectionStep : ConnectionStep second_greets two_served
unfolding launch_stream serve_client
second-ConnectionStep = authenticates [] (serving client ∷ []) client refl

step-silent_example :
    is_connected (find client two_served.sessions)
    ≡ is_connected (find client second_greets.sessions)
step-silent_example =
    step-silent second_greets two_served (connections-Counted served-ConnectionReach)
      second-ConnectionStep quiet_second client
