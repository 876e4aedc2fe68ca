-- ===== src/Ns/Registry.antt =====
-- The registry of src/ns.c: nodes and their servers.
use Prim.Native.Nat.{bit_and}
use qrtr.Base.{
  ℕ, ◌-◌, Bool, false, not, ◌&&◌, ◌||◌, Option, none, some, List, [], ◌∷◌, ◌++◌, ◌==◌,
  if◌then◌else◌, u32_mod,
}
use qrtr.Hash.{hash_u32}
use qrtr.Map.{
  Map, done, no_memory, out_of_fuel, map_create, map_get, map_put, map_reput, map_remove,
  map_update, map_for_each,
}
use qrtr.Packet.{Sockaddr}
use qrtr.Ns.State.{
  Server, Node, Lookup, ServerFilter, Ns, Env, Rc, ok, send_error, einval, enoent, bcast_sq,
  service_announce_new, service_announce_del, lookup_notify,
}

abbrev pub new_node : ℕ → Node
new_node node_id = record { id = node_id; services = map_create }

-- The state that `node_get` leaves, and the node, or `none` for NULL.
unfoldable pub node_get : Env → Ns → ℕ → Ns × Option Node
node_get env ns node_id = elim (map_get ns.nodes (hash_u32 node_id)) [
  | some node ↦ (ns, some node)
  | none ↦
      let put : Ns × Option Node =
        elim (map_put env.calloc_nodes ns.nodes (hash_u32 node_id) (some (new_node node_id))) [
          | done _ m ↦ (record ns { nodes = m }, some (new_node node_id))
          | no_memory m ↦ (record ns { nodes = m }, none)
          | out_of_fuel ↦ (ns, none)
        ] in
      if env.calloc_node node_id then put else (ns, none)
]

unfoldable pub server_match : Server → ServerFilter → Bool
server_match srv f =
    if not (f.service == 0) && not (srv.service == f.service)
    then false
    else bit_and srv.inst (if (f.ifilter == 0) && not (f.inst == 0) then u32_mod - 1 else f.ifilter)
      == f.inst

-- The inner loop of `server_query`.
unfoldable pub query_node : ServerFilter → Node → List Server → List Server
query_node f node list =
    map_for_each (λ _. node.services)
      (λ srv found. if server_match srv f then found ++ srv ∷ [] else found) list

-- The list of servers that the query replies with, in the order of the tables. The count that is
-- returned as well is not used by its callers and left out.
unfoldable pub server_query : Ns → ServerFilter → List Server
server_query ns f = map_for_each (λ _. ns.nodes) (query_node f) []

-- The services of a node that is in the map.
abbrev pub services_in : Option Node → Map Server
services_in none = map_create
services_in (some node) = node.services

abbrev pub services_of : Ns → ℕ → Map Server
services_of ns node_id = services_in (map_get ns.nodes (hash_u32 node_id))

-- A write to `node->services` through the node's pointer.
abbrev pub set_services : Ns → ℕ → Map Server → Ns
set_services ns node_id m = record ns {
  nodes = map_update ns.nodes (hash_u32 node_id) (λ node. record node { services = m });
}

-- One round of the loop of `annouce_servers`, which returns at the first announcement that fails.
unfoldable pub announce_next : Env → Sockaddr → Server → Ns × Rc → Ns × Rc
announce_next env sq srv (ns, ok n) =
    let (next, rc) = service_announce_new env ns sq srv in
    (next, elim rc [ ok _ ↦ ok 0 | send_error ↦ send_error | einval ↦ einval | enoent ↦ enoent ])
announce_next env sq srv (ns, send_error) = (ns, send_error)
announce_next env sq srv (ns, einval) = (ns, einval)
announce_next env sq srv (ns, enoent) = (ns, enoent)

unfoldable pub annouce_servers : Env → Ns → Sockaddr → Ns × Rc
annouce_servers env ns sq =
    let (ns', node) = node_get env ns ns.local_node in
    elim node [
      | none ↦ (ns', ok 0)
      | some n ↦ map_for_each (λ _. n.services) (announce_next env sq) (ns', ok 0)
    ]

-- The state that `server_add` leaves, and the new server, or `none` for NULL.
unfoldable pub server_add : Env → Ns → ℕ → ℕ → ℕ → ℕ → Ns × Option Server
server_add env ns service inst node_id port =
    let srv : Server = record { service = service; inst = inst; node = node_id; port = port } in
    let (ns', node) = node_get env ns node_id in
    let added : Ns × Option Server = elim node [
      | none ↦ (ns', none)
      | some n ↦ elim (map_reput env.calloc_services n.services (hash_u32 port) (some srv)) [
        | done _ m ↦ (set_services ns' node_id m, some srv)
        | no_memory m ↦ (set_services ns' node_id m, none)
        | out_of_fuel ↦ (ns', none)
      ]
    ] in
    if (service == 0) || (port == 0)
    then (ns, none)
    else if env.calloc_server
    then added
    else (ns, none)

-- An observer's lookup covers the server; 0 covers everything.
abbrev pub covers : Lookup → ℕ → ℕ → Bool
covers l service inst =
    not (not (l.service == 0) && not (l.service == service))
    && not (not (l.inst == 0) && not (l.inst == inst))

-- The loop over the lookups in `server_del` and `ctrl_cmd_new_server`.
unfoldable pub notify_observers : Env → Ns → Server → Bool → List Lookup → Ns
notify_observers env ns srv new [] = ns
notify_observers env ns srv new (l ∷ ls) =
    notify_observers env
      (if covers l srv.service srv.inst then (lookup_notify env ns l.sq (some srv) new).0 else ns)
      srv new ls

-- `node` is the node that the map holds for this id.
unfoldable pub server_del : Env → Ns → ℕ → ℕ → Ns × Rc
server_del env ns node_id port = elim (map_get (services_of ns node_id) (hash_u32 port)) [
  | none ↦ (ns, enoent)
  | some srv ↦
      let removed =
        set_services ns node_id (map_remove (services_of ns node_id) (hash_u32 port)).0 in
      let told =
        if srv.node == ns.local_node
        then (service_announce_del env removed bcast_sq srv).0
        else removed in
      (notify_observers env told srv false ns.lookups, ok 0)
]
