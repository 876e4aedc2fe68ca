-- ===== src/Ns/Withdrawals.antt =====
-- DEL_SERVER in src/ns.c: what it changes and what it sends.
use mathlib.Core.List.{append-nil}
use qrtr.Base.{
  ℕ, ◌<◌, ◌≡◌, ◌≢◌, refl, sym, ap, ◌∙◌, inl, inr, true, false, not, ◌&&◌, Option, none, some, List,
  [], ◌∷◌, ◌++◌, arith, ◌==◌, if◌then◌else◌, Bool-cases, Option-cases, u32_mod,
}
use qrtr.Hash.{hash_u32}
use qrtr.Map.{map_get, map_create, map_remove}
use qrtr.Map.Probe.{IsDistinct}
use qrtr.Map.Remove.{get-remove, get_create}
use qrtr.Packet.{Sockaddr, type_del_server}
use qrtr.Ns.State.{Server, Node, Lookup, Message, Ns, Env, Rc, enoent, bcast_sq, announce_msg}
use qrtr.Ns.Registry.{node_get, services_in, services_of, server_del}
use qrtr.Ns.Control.{ctrl_cmd_del_server, claimed_node, claimed_port}
use qrtr.Ns.Notices.{observer_msgs}
use qrtr.Ns.Invariant.{IsRegistry, IsSane, Frame}
use qrtr.Ns.Nodes.{Gets, node_get-Gets, run_found}
use qrtr.Ns.Removals.{removal_msgs, del_missing, del_found, server_del-Deletes}

-- The packets for what stood under a port.
abbrev pub withdrawal_msgs : Env → Ns → Option Server → List Message
withdrawal_msgs env ns none = []
withdrawal_msgs env ns (some srv) = removal_msgs env ns srv

server_del-sent :
    (env : Env) (ns : Ns) (node_id port : ℕ)
    → (server_del env ns node_id port).0.sent
      ≡ ns.sent ++ withdrawal_msgs env ns (map_get (services_of ns node_id) (hash_u32 port))
server_del-sent env ns node_id port =
    elim (Option-cases (map_get (services_of ns node_id) (hash_u32 port))) [
      | inl e ↦
          rw e (ap (λ p. p.0.sent) (del_missing env ns node_id port e) ∙ sym (append-nil ns.sent))
      | inr (srv, e) ↦ rw e (ap (λ p. p.0.sent) (del_found env ns node_id port srv e))
    ]

told_for : Env → Server → ℕ → List Lookup → List Message
told_for env srv n ls =
    let told = observer_msgs env srv false ls in
    if srv.node == n then announce_msg env type_del_server bcast_sq srv ∷ told else told

same_msgs :
    (env : Env) (s ns : Ns) (o : Option Server)
    → Frame ns s
    → withdrawal_msgs env s o ≡ withdrawal_msgs env ns o
unfolding told_for
same_msgs env s ns none f = refl
same_msgs env s ns (some srv) f =
    ap (λ n. told_for env srv n s.lookups) f.local_node
    ∙ ap (λ ls. told_for env srv ns.local_node ls) f.lookups

-- What a DEL_SERVER does that is accepted.
pub record Withdrawn (env : Env) (ns : Ns) (node_id port : ℕ) (ns' : Ns) : Type 0 where
  pub registry : IsRegistry ns'
  pub found :
      IsDistinct (services_of ns node_id)
      → (k : ℕ)
      → map_get (services_of ns' node_id) k
        ≡ (if k == hash_u32 port then none else map_get (services_of ns node_id) k)
  pub others : (j : ℕ) → j < u32_mod → j ≢ node_id → services_of ns' j ≡ services_of ns j
  pub lookups : ns'.lookups ≡ ns.lookups
  pub sent :
      ns'.sent
      ≡ ns.sent ++ withdrawal_msgs env ns (map_get (services_of ns node_id) (hash_u32 port))

module _ (env : Env) (ns : Ns) (node_id port : ℕ) (sane : IsSane env) (r : IsRegistry ns)
    (small : node_id < u32_mod) where
  -- Nothing stood under the port, and nothing was done.
  none-Withdrawn :
      (s : Ns) (o : Option Node)
      → Gets ns node_id s o
      → map_get (services_of ns node_id) (hash_u32 port) ≡ none
      → Withdrawn env ns node_id port s
  none-Withdrawn s o g e = record {
    registry = g.registry;
    found = λ d k. rw (g.same node_id) (elim (Bool-cases (k == hash_u32 port)) [
      | inl b ↦ let same : k ≡ hash_u32 port = ground arith in rw (b, same, e) refl
      | inr b ↦ rw b refl
    ]);
    others = λ j h ne. g.same j;
    lookups = g.frame.lookups;
    sent = rw e (g.frame.sent ∙ sym (append-nil ns.sent));
  }

  del-Withdrawn :
      (s : Ns) (o : Option Node)
      → Gets ns node_id s o
      → Withdrawn env ns node_id port (server_del env s node_id port).0
  del-Withdrawn s o g =
      let t = server_del-Deletes env s node_id port g.registry small in
      let here = g.same node_id in
      let table : services_of (server_del env s node_id port).0 node_id
          ≡ (map_remove (services_of ns node_id) (hash_u32 port)).0 =
        t.removed ∙ ap (λ m. (map_remove m (hash_u32 port)).0) here in
      record {
        registry = t.registry;
        found = λ d k.
            ap (λ m. map_get m k) table
            ∙ get-remove (services_of ns node_id) (hash_u32 port) k (r.servers node_id small).valid
                d;
        others = λ j h ne. t.others j h ne ∙ g.same j;
        lookups = t.lookups ∙ g.frame.lookups;
        sent =
            server_del-sent env s node_id port
            ∙ ap (λ m. s.sent ++ withdrawal_msgs env s (map_get m (hash_u32 port))) here
            ∙ ap (λ ms. s.sent ++ ms)
                (same_msgs env s ns (map_get (services_of ns node_id) (hash_u32 port)) g.frame)
            ∙ ap
                (λ old.
                  old ++ withdrawal_msgs env ns (map_get (services_of ns node_id) (hash_u32 port)))
                g.frame.sent;
      }

  -- A node that `node_get` does not return has no servers.
  pub void_services : (node_get env ns node_id).1 ≡ none → services_of ns node_id ≡ map_create
  void_services e = elim (Option-cases (map_get ns.nodes (hash_u32 node_id))) [
    | inl f ↦ ap services_in f
    | inr (n, f) ↦ absurd (cc (e, ap (λ p. p.1) (run_found env ns node_id r n f)))
  ]

  no_servers :
      (node_get env ns node_id).1 ≡ none → map_get (services_of ns node_id) (hash_u32 port) ≡ none
  no_servers e = rw (void_services e) (get_create {A = Server} (hash_u32 port))

  pub got-Withdrawn :
      let deleted : Ns × Rc = elim (node_get env ns node_id).1 [
        | none ↦ ((node_get env ns node_id).0, enoent)
        | some _ ↦ server_del env (node_get env ns node_id).0 node_id port
      ] in
      Withdrawn env ns node_id port deleted.0
  got-Withdrawn =
      let g = node_get-Gets env ns node_id r sane small in
      elim (Option-cases (node_get env ns node_id).1) [
        | inl e ↦ rw e (none-Withdrawn (node_get env ns node_id).0 _ g (no_servers e))
        | inr (n, e) ↦ rw e (del-Withdrawn (node_get env ns node_id).0 _ g)
      ]

-- In a valid registry, with tables below 2 ^ 31 entries, a DEL_SERVER from a 32-bit node that names
-- its own node removes what stands under its port and nothing else of that table, if no key stands
-- there twice, and keeps the tables of other nodes and the lookups; it sends nothing if nothing
-- stood there, and otherwise one broadcast if the server was local and then one packet to each
-- observer whose lookup covers it, in order. The port of a local client is that of its address.
pub del_server-Withdrawn :
    (env : Env) (ns : Ns) (from : Sockaddr) (service inst node_id port : ℕ)
    → IsSane env
    → IsRegistry ns
    → from.node < u32_mod
    → claimed_node ns from node_id ≡ from.node
    → Withdrawn env ns
        (claimed_node ns from node_id)
        (claimed_port ns from port)
        (ctrl_cmd_del_server env ns from service inst node_id port).0
unfolding ctrl_cmd_del_server
del_server-Withdrawn env ns from service inst node_id port sane r small same =
    let own : (from.node == claimed_node ns from node_id) ≡ true = ground (arith, same) in
    let lt : claimed_node ns from node_id < u32_mod = rw same small in
    rw (own, guard)
      (got-Withdrawn env ns (claimed_node ns from node_id) (claimed_port ns from port) sane r lt)
  where
    guard : ((from.node == ns.local_node) && not (from.port == claimed_port ns from port)) ≡ false
    guard = elim (Bool-cases (from.node == ns.local_node)) [
      | inl e ↦ rw e (ground arith)
      | inr e ↦ rw e refl
    ]
