-- ===== src/Ns/Removals.antt =====
-- `server_del` of src/ns.c.
use qrtr.Base.{
  ℕ, ◌<◌, ◌≡◌, ◌≢◌, refl, sym, ap, ◌∙◌, inl, inr, false, none, some, List, ◌∷◌, ◌==◌, if◌then◌else◌,
  Bool-cases, Option-cases, u32_mod,
}
use qrtr.Hash.{hash_u32}
use qrtr.Map.{Map, map_create, map_get, map_remove}
use qrtr.Map.Remove.{remove-Removes, remove_missing, get_create}
use qrtr.Ns.State.{
  Server, Node, Ns, Env, ok, enoent, Message, bcast_sq, emit, announce_msg, service_announce_del,
}
use qrtr.Packet.{type_del_server}
use qrtr.Ns.Registry.{services_of, services_in, set_services, server_del}
use qrtr.Ns.Notices.{sending, sending-emit, observer_msgs, notify_observers-sending}
use qrtr.Ns.Invariant.{IsServices, IsRegistry}
use qrtr.Ns.Nodes.{set_services-Sets}

-- What `server_del` does: the table of the node loses the port, and nothing else changes but the
-- packets sent.
pub record Deletes (env : Env) (ns : Ns) (node_id port : ℕ) (ns' : Ns) : Type 0 where
  pub registry : IsRegistry ns'
  pub sock : ns'.sock ≡ ns.sock
  pub local_node : ns'.local_node ≡ ns.local_node
  pub lookups : ns'.lookups ≡ ns.lookups
  pub removed : services_of ns' node_id ≡ (map_remove (services_of ns node_id) (hash_u32 port)).0
  pub others : (j : ℕ) → j < u32_mod → j ≢ node_id → services_of ns' j ≡ services_of ns j

-- The packets that tell of the removal of a server: a broadcast if it is local, and one to each
-- observer whose lookup covers it.
abbrev pub removal_msgs : Env → Ns → Server → List Message
removal_msgs env ns srv =
    let told = observer_msgs env srv false ns.lookups in
    if srv.node == ns.local_node then announce_msg env type_del_server bcast_sq srv ∷ told else told

module _ (env : Env) (ns : Ns) (node_id port : ℕ) where
  pub del_missing :
      map_get (services_of ns node_id) (hash_u32 port) ≡ none
      → server_del env ns node_id port ≡ (ns, enoent)
  unfolding server_del
  del_missing e = rw (e, server_del)

  pub del_found :
      (srv : Server)
      → map_get (services_of ns node_id) (hash_u32 port) ≡ some srv
      → server_del env ns node_id port ≡ (
        sending
            (set_services ns node_id (map_remove (services_of ns node_id) (hash_u32 port)).0)
            (removal_msgs env ns srv),
        ok 0,
      )
  unfolding server_del service_announce_del
  del_found srv e =
      let kept = (map_remove (services_of ns node_id) (hash_u32 port)).0 in
      rw (e, server_del)
        (elim (Bool-cases (srv.node == ns.local_node)) [
          | inr f ↦ rw f (
              ap (λ n. (n, ok 0))
                (notify_observers-sending env (set_services ns node_id kept) srv false ns.lookups))
          | inl f ↦
              let m = announce_msg env type_del_server bcast_sq srv in
              rw f (
                ap (λ n. (n, ok 0))
                  (notify_observers-sending env (emit (set_services ns node_id kept) m) srv false
                      ns.lookups
                    ∙ sending-emit (set_services ns node_id kept) m
                        (observer_msgs env srv false ns.lookups)))
        ])

  remove-IsServices :
      (m : Map Server) (k : ℕ) → IsServices node_id m → IsServices node_id (map_remove m k).0
  remove-IsServices m k good =
      let t = remove-Removes m k good.valid in
      record { valid = t.valid; mine = λ q key s h. good.mine q key s (t.kept q key s h) }

  module _ (r : IsRegistry ns) (small : node_id < u32_mod) where
    found_node :
        (srv : Server)
        → map_get (services_of ns node_id) (hash_u32 port) ≡ some srv
        → (node : Node) × (map_get ns.nodes (hash_u32 node_id) ≡ some node)
    found_node srv e = elim (Option-cases (map_get ns.nodes (hash_u32 node_id))) [
      | inr h ↦ h
      | inl h ↦
          let void : services_of ns node_id ≡ map_create = ap services_in h in
          absurd (cc (rw void at e, get_create {A = Server} (hash_u32 port)))
    ]

    -- In a valid registry server_del on a 32-bit node removes the port from the table of that node,
    -- keeps the socket, the local node, the lookups and the tables of every other 32-bit node, and
    -- leaves a valid registry, whether the port was there or not.
    pub server_del-Deletes : Deletes env ns node_id port (server_del env ns node_id port).0
    server_del-Deletes = elim (Option-cases (map_get (services_of ns node_id) (hash_u32 port))) [
      | inl e ↦ rw (del_missing e) (record {
        registry = r;
        sock = refl;
        local_node = refl;
        lookups = refl;
        removed = sym (
            remove_missing (services_of ns node_id) (hash_u32 port) (r.servers node_id small).valid
              e);
        others = λ j h ne. refl;
      })
      | inr (srv, e) ↦
          let (node, held) = found_node srv e in
          let t =
            set_services-Sets ns node_id (map_remove (services_of ns node_id) (hash_u32 port)).0 r
              small node held
              (remove-IsServices (services_of ns node_id) (hash_u32 port)
                (r.servers node_id small)) in
          rw (del_found srv e) (record {
            registry = record {
              valid = t.registry.valid;
              distinct = t.registry.distinct;
              tombless = t.registry.tombless;
              ids = t.registry.ids;
              servers = t.registry.servers;
              observers = t.registry.observers;
              home = t.registry.home;
            };
            sock = refl;
            local_node = refl;
            lookups = refl;
            removed = t.set;
            others = t.others;
          })
    ]
