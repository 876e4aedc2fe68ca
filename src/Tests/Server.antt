-- ===== src/Tests/Server.antt =====
-- src/ns.c on a registry with one server and one observer.
use qrtr.Base.{◌≡◌, refl, inr, none, some, [], ◌∷◌, arith}
use qrtr.Hash.{hash_u32}
use qrtr.Map.{map_get}
use qrtr.Map.Probe.{IsDistinct}
use qrtr.Map.Lookup.{get-Holds}
use qrtr.Packet.{port_ctrl}
use qrtr.Ns.Registry.{services_of, server_query, server_match, covers}
use qrtr.Ns.Control.{
  start, serve, ctrl_port_fn, ctrl_cmd_new_server, ctrl_cmd_hello, ctrl_cmd_del_server,
  ctrl_cmd_del_client, ctrl_cmd_bye, ctrl_cmd_new_lookup, lookup_filter,
}
use qrtr.Ns.Invariant.{IsRegistry}
use qrtr.Ns.Serve.{serve-start-IsRegistry, services_isolated}
use qrtr.Ns.Effects.{HasMemory, Registered, new_server-Registered}
use qrtr.Ns.Servers.{the_server}
use qrtr.Ns.Hello.{Sends, greeting_msgs, hello-Sends}
use qrtr.Ns.Withdrawals.{Withdrawn, del_server-Withdrawn}
use qrtr.Ns.Clients.{Disconnected, del_client-Disconnected}
use qrtr.Ns.Bye.{bye-none}
use qrtr.Ns.State.{ok}
use qrtr.Ns.Lookups.{
  matching, all_servers, server_query-matching, server_match-covers, answered, new_lookup-answered,
}
use qrtr.Tests.Data.{
  env, env-IsSane, single-IsValid, single-IsDistinct, remote, node2, watcher, busy, busy-IsRegistry,
  publish, leave,
}

serve-start-IsRegistry_example :
    IsRegistry (serve (start 1) ((env, some publish) ∷ (env, some leave) ∷ (env, none) ∷ []))
serve-start-IsRegistry_example =
    serve-start-IsRegistry 1 ((env, some publish) ∷ (env, some leave) ∷ (env, none) ∷ [])
      (omega arith) (env-IsSane, omega arith, (env-IsSane, omega arith, (env-IsSane, tt, tt)))

services_isolated_example :
    services_of (ctrl_port_fn env busy (some publish)) 2 ≡ services_of busy 2
services_isolated_example =
    services_isolated env busy publish 2 env-IsSane busy-IsRegistry (omega arith) (omega arith)
      (λ e. omega arith)

busy_node2 : map_get busy.nodes (hash_u32 2) ≡ some node2
busy_node2 =
    get-Holds busy.nodes (hash_u32 2) node2 (single-IsValid (hash_u32 2) node2)
      (single-IsDistinct (hash_u32 2) node2) (0, refl)

busy-HasMemory : HasMemory env busy 2
busy-HasMemory = record {
  server = refl;
  node = refl;
  nodes = inr refl;
  services = rw busy_node2 (inr refl);
}

new_server-Registered_example :
    Registered env busy
      (the_server 6 3 2 8)
      (ctrl_cmd_new_server env busy (record { node = 2; port = port_ctrl }) 6 3 2 8).0
new_server-Registered_example =
    new_server-Registered env busy (record { node = 2; port = port_ctrl }) 6 3 2 8 env-IsSane
      busy-IsRegistry (omega arith) refl (λ e. omega arith) (λ e. omega arith) busy-HasMemory

busy-IsDistinct : IsDistinct (services_of busy 2)
busy-IsDistinct = rw busy_node2 (single-IsDistinct (hash_u32 7) remote)

bye-none_example :
    map_get
      (services_of (ctrl_cmd_bye env busy (record { node = 2; port = port_ctrl })).0 2)
      (hash_u32 7)
    ≡ none
bye-none_example =
    bye-none env busy (record { node = 2; port = port_ctrl }) env-IsSane busy-IsRegistry
      (omega arith) busy-IsDistinct 7

hello-Sends_example :
    Sends busy
      (greeting_msgs env busy watcher (6 ∷ 0 ∷ []))
      (ctrl_cmd_hello env busy watcher (6 ∷ 0 ∷ [])).0
hello-Sends_example = hello-Sends env busy watcher (6 ∷ 0 ∷ []) env-IsSane busy-IsRegistry

server_query-matching_example :
    server_query busy (lookup_filter 5 0) ≡ matching (lookup_filter 5 0) (all_servers busy)
server_query-matching_example = server_query-matching busy busy-IsRegistry (lookup_filter 5 0)

server_match-covers_example :
    server_match remote (lookup_filter 5 0)
    ≡ covers (record { service = 5; inst = 0; sq = watcher }) 5 257
server_match-covers_example =
    server_match-covers remote (record { service = 5; inst = 0; sq = watcher }) (omega arith)

new_lookup-answered_example :
    ctrl_cmd_new_lookup env busy watcher 5 0 ≡ (answered env busy watcher 5 0, ok 0)
new_lookup-answered_example = new_lookup-answered env busy watcher 5 0 busy-IsRegistry

del_server-Withdrawn_example :
    Withdrawn env busy 2 7
      (ctrl_cmd_del_server env busy (record { node = 2; port = port_ctrl }) 5 257 2 7).0
del_server-Withdrawn_example =
    del_server-Withdrawn env busy (record { node = 2; port = port_ctrl }) 5 257 2 7 env-IsSane
      busy-IsRegistry (omega arith) refl

del_client-Disconnected_example :
    Disconnected env busy 1 40 (ctrl_cmd_del_client env busy watcher 1 40).0
del_client-Disconnected_example =
    del_client-Disconnected env busy watcher 1 40 env-IsSane busy-IsRegistry (omega arith) refl
      (λ e. refl)
