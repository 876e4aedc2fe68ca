-- ===== src/Ns/Effects.antt =====
-- NEW_SERVER in src/ns.c, where nothing stands in its way.
use qrtr.Base.{
  ℕ, ◌<◌, ◌≡◌, ◌≢◌, ap, ◌∙◌, inl, inr, true, false, ◌||◌, Option, none, some, List, ◌∷◌, ◌++◌,
  arith, ◌==◌, if◌then◌else◌, Bool-cases, Option-cases, u32_mod,
}
use qrtr.Hash.{hash_u32}
use qrtr.Map.{Map, done, map_get, map_put, map_reput}
use qrtr.Map.Probe.{Holds}
use qrtr.Map.Reput.{HasRoom, reput-Puts}
use qrtr.Packet.{Sockaddr, type_new_server}
use qrtr.Ns.State.{
  Server, Node, Message, Ns, Env, emit, announce_msg, bcast_sq, service_announce_new,
}
use qrtr.Ns.Registry.{new_node, node_get, services_of, server_add}
use qrtr.Ns.Control.{ctrl_cmd_new_server, claimed_node, claimed_port}
use qrtr.Ns.Notices.{sending, sending-emit, observer_msgs, notify_observers-sending}
use qrtr.Ns.Invariant.{IsRegistry, IsSane}
use qrtr.Ns.Acts.{got-services}
use qrtr.Ns.Servers.{the_server, server_add-Adds}

-- No allocation that the addition of a server may need fails.
pub record HasMemory (env : Env) (ns : Ns) (node_id : ℕ) : Type 0 where
  pub server : env.calloc_server ≡ true
  pub node : env.calloc_node node_id ≡ true
  pub nodes : HasRoom env.calloc_nodes ns.nodes
  pub services : HasRoom env.calloc_services (services_of ns node_id)

module _ (env : Env) (ns : Ns) (node_id : ℕ) (sane : IsSane env) (r : IsRegistry ns)
    (small : node_id < u32_mod) (memory : HasMemory env ns node_id) where
  node_get_found :
      (node : Node)
      → map_get ns.nodes (hash_u32 node_id) ≡ some node
      → (node_get env ns node_id).1 ≡ some node
  unfolding node_get
  node_get_found node e = rw (e, node_get)

  node_get_added :
      (old : Option Node) (m : Map Node)
      → map_get ns.nodes (hash_u32 node_id) ≡ none
      → map_reput env.calloc_nodes ns.nodes (hash_u32 node_id) (some (new_node node_id))
        ≡ done old m
      → (node_get env ns node_id).1 ≡ some (new_node node_id)
  unfolding node_get map_put
  node_get_added old m e f = rw (e, node_get, f, memory.node)

  -- With memory, `node_get` returns a node.
  node_get_succeeds : (n : Node) × ((node_get env ns node_id).1 ≡ some n)
  node_get_succeeds = elim (Option-cases (map_get ns.nodes (hash_u32 node_id))) [
    | inr (n, e) ↦ (n, node_get_found n e)
    | inl e ↦
        let (old, m, run, t) =
          reput-Puts env.calloc_nodes ns.nodes (hash_u32 node_id) (new_node node_id) sane.nodes
            r.valid memory.nodes in
        (new_node node_id, node_get_added old m e run)
  ]

  module _ (service inst port : ℕ) (has_service : service ≢ 0) (has_port : port ≢ 0) where
    abbrev srv : Server
    srv = the_server service inst node_id port

    add_run :
        (n : Node) (old : Option Server) (m : Map Server)
        → ((service == 0) || (port == 0)) ≡ false
        → (node_get env ns node_id).1 ≡ some n
        → map_reput env.calloc_services n.services
            (hash_u32 port)
            (some (the_server service inst node_id port))
          ≡ done old m
        → (server_add env ns service inst node_id port).1
          ≡ some (the_server service inst node_id port)
    unfolding server_add
    add_run n old m e f g = rw (e, f, g, memory.server)

    -- With memory, `server_add` accepts every server that has a service and a port.
    pub server_add_succeeds :
        (server_add env ns service inst node_id port).1
        ≡ some (the_server service inst node_id port)
    server_add_succeeds =
        let (n, e) = node_get_succeeds in
        let table = got-services env ns node_id n sane r small e in
        let good = r.servers node_id small in
        let (old, m, run, t) =
          reput-Puts env.calloc_services n.services (hash_u32 port)
            (the_server service inst node_id port) sane.services (rw table good.valid)
            (rw table memory.services) in
        add_run n old m (ground arith) e run

-- The packets that tell of a new server: a broadcast if it is local, and one to each observer whose
-- lookup covers it.
abbrev pub arrival_msgs : Env → Ns → Server → List Message
arrival_msgs env ns srv =
    let told = observer_msgs env srv true ns.lookups in
    if srv.node == ns.local_node then announce_msg env type_new_server bcast_sq srv ∷ told else told

module _ (env : Env) (ns : Ns) (from : Sockaddr) (service inst node_id port : ℕ) where
  new_server_run :
      (srv : Server)
      → (from.node == claimed_node ns from node_id) ≡ true
      → (server_add env ns service inst
          (claimed_node ns from node_id)
          (claimed_port ns from port)).1
        ≡ some srv
      → (ctrl_cmd_new_server env ns from service inst node_id port).0
        ≡ sending
            (server_add env ns service inst
              (claimed_node ns from node_id)
              (claimed_port ns from port)).0
            (arrival_msgs env ns srv)
  unfolding ctrl_cmd_new_server service_announce_new
  new_server_run srv e f =
      let s =
        (server_add env ns service inst (claimed_node ns from node_id)
          (claimed_port ns from port)).0 in
      rw (e, f, ctrl_cmd_new_server)
        (elim (Bool-cases (srv.node == ns.local_node)) [
          | inr g ↦ rw g (notify_observers-sending env s srv true ns.lookups)
          | inl g ↦
              let m = announce_msg env type_new_server bcast_sq srv in
              rw g (
                notify_observers-sending env (emit s m) srv true ns.lookups
                ∙ sending-emit s m (observer_msgs env srv true ns.lookups))
        ])

-- What a NEW_SERVER does that is accepted.
pub record Registered (env : Env) (ns : Ns) (srv : Server) (ns' : Ns) : Type 0 where
  pub held : Holds (services_of ns' srv.node) (hash_u32 srv.port) srv
  pub sent : ns'.sent ≡ ns.sent ++ arrival_msgs env ns srv
  pub lookups : ns'.lookups ≡ ns.lookups

-- In a valid registry, with memory for the server, its node and the tables, and with tables below 2
-- ^ 31 entries, a NEW_SERVER from a 32-bit node that names its own node, with a service and a port
-- that are not 0, puts the server under the hash of its port, keeps the lookups, and sends one
-- broadcast if the server is local and then one packet to each observer whose lookup covers it, in
-- order.
pub new_server-Registered :
    (env : Env) (ns : Ns) (from : Sockaddr) (service inst node_id port : ℕ)
    → IsSane env
    → IsRegistry ns
    → from.node < u32_mod
    → claimed_node ns from node_id ≡ from.node
    → service ≢ 0
    → claimed_port ns from port ≢ 0
    → HasMemory env ns (claimed_node ns from node_id)
    → Registered env ns
        (the_server service inst (claimed_node ns from node_id) (claimed_port ns from port))
        (ctrl_cmd_new_server env ns from service inst node_id port).0
new_server-Registered env ns from service inst node_id port sane r small same hs hp memory =
    let t = claimed_node ns from node_id in
    let p = claimed_port ns from port in
    let lt : t < u32_mod = rw same small in
    let ok_run = server_add_succeeds env ns t sane r lt memory service inst p hs hp in
    let a = server_add-Adds env ns service inst t p sane r lt in
    let (_, old, puts) = a.stored (the_server service inst t p) ok_run in
    rw
      (new_server_run env ns from service inst node_id port (the_server service inst t p)
        (ground arith) ok_run)
      (record {
        held = puts.self;
        sent = ap (λ ms. ms ++ arrival_msgs env ns (the_server service inst t p)) a.frame.sent;
        lookups = a.frame.lookups;
      })
