-- ===== src/Ns/Servers.antt =====
-- `server_add` of src/ns.c.
use qrtr.Base.{
  ℕ, ◌<◌, ◌≡◌, ◌≢◌, refl, sym, ap, ◌∙◌, inl, inr, true, false, ◌||◌, Option, none, some, arith,
  ◌==◌, Bool-cases, Option-cases, u32_mod,
}
use qrtr.Hash.{hash_u32}
use qrtr.Map.{Map, done, no_memory, map_reput}
use qrtr.Map.Reput.{reput_cases, Puts}
use qrtr.Ns.State.{Server, Node, Ns, Env}
use qrtr.Ns.Registry.{node_get, services_of, services_in, set_services, server_add}
use qrtr.Ns.Invariant.{IsServices, IsRegistry, IsSane, Frame, Frame-refl}
use qrtr.Ns.Nodes.{Gets, node_get-Gets, set_services-Sets}

abbrev pub the_server : ℕ → ℕ → ℕ → ℕ → Server
the_server service inst node_id port = record {
  service = service;
  inst = inst;
  node = node_id;
  port = port;
}

-- What `server_add` does: only the table of the node changes, by a put under the hash of the port.
pub record Adds (ns : Ns) (srv : Server) (ns' : Ns) (o : Option Server) : Type 0 where
  pub registry : IsRegistry ns'
  pub frame : Frame ns ns'
  pub others : (j : ℕ) → j < u32_mod → j ≢ srv.node → services_of ns' j ≡ services_of ns j
  pub stored :
      (s : Server)
      → o ≡ some s
      → (s ≡ srv)
        × (old : Option Server) × Puts
            (services_of ns srv.node)
            (hash_u32 srv.port)
            srv
            old
            (services_of ns' srv.node)
  pub failed : o ≡ none → (j : ℕ) → j < u32_mod → services_of ns' j ≡ services_of ns j

Puts-IsServices :
    (node_id : ℕ) (m m' : Map Server) (srv : Server) (old : Option Server)
    → srv.service ≢ 0
    → srv.port ≢ 0
    → srv.node ≡ node_id
    → IsServices node_id m
    → Puts m (hash_u32 srv.port) srv old m'
    → IsServices node_id m'
Puts-IsServices node_id m m' srv old hs hp hn good t = record {
  valid = t.valid;
  mine = λ q key s h. elim (t.origin key s (q, h)) [
    | inl (e, f) ↦ rw (e, f) (record { keyed = refl; placed = hn; has_service = hs; has_port = hp })
    | inr (p, g) ↦ good.mine p key s g
  ];
}

module _ (env : Env) (ns : Ns) (service inst node_id port : ℕ) (sane : IsSane env)
    (r : IsRegistry ns) (small : node_id < u32_mod) where
  srv : Server
  srv = the_server service inst node_id port

  got : Gets ns node_id (node_get env ns node_id).0 (node_get env ns node_id).1
  got = node_get-Gets env ns node_id r sane small

  not_added :
      (ns' : Ns)
      → IsRegistry ns'
      → Frame ns ns'
      → ((j : ℕ) → j < u32_mod → services_of ns' j ≡ services_of ns j)
      → Adds ns (the_server service inst node_id port) ns' none
  not_added ns' r' f same = record {
    registry = r';
    frame = f;
    others = λ j h _. same j h;
    stored = λ s e. absurd (cc e);
    failed = λ _. same;
  }

  refused :
      ((service == 0) || (port == 0)) ≡ true
      → server_add env ns service inst node_id port ≡ (ns, none)
  unfolding server_add
  refused e = rw e

  no_server :
      ((service == 0) || (port == 0)) ≡ false
      → env.calloc_server ≡ false
      → server_add env ns service inst node_id port ≡ (ns, none)
  unfolding server_add
  no_server e f = rw (e, f)

  no_node :
      ((service == 0) || (port == 0)) ≡ false
      → env.calloc_server ≡ true
      → (node_get env ns node_id).1 ≡ none
      → server_add env ns service inst node_id port ≡ ((node_get env ns node_id).0, none)
  unfolding server_add
  no_node e f g = rw (e, g, f)

  no_room :
      (node : Node) (m : Map Server)
      → ((service == 0) || (port == 0)) ≡ false
      → env.calloc_server ≡ true
      → (node_get env ns node_id).1 ≡ some node
      → map_reput env.calloc_services node.services
          (hash_u32 port)
          (some (the_server service inst node_id port))
        ≡ no_memory m
      → server_add env ns service inst node_id port
        ≡ (set_services (node_get env ns node_id).0 node_id m, none)
  unfolding server_add
  no_room node m e f g h = rw (e, g, h, f)

  added :
      (node : Node) (old : Option Server) (m : Map Server)
      → ((service == 0) || (port == 0)) ≡ false
      → env.calloc_server ≡ true
      → (node_get env ns node_id).1 ≡ some node
      → map_reput env.calloc_services node.services
          (hash_u32 port)
          (some (the_server service inst node_id port))
        ≡ done old m
      → server_add env ns service inst node_id port ≡ (
        set_services (node_get env ns node_id).0 node_id m,
        some (the_server service inst node_id port),
      )
  unfolding server_add
  added node old m e f g h = rw (e, g, h, f)

  nonzero : (a b : ℕ) → ((a == 0) || (b == 0)) ≡ false → (a ≢ 0) × (b ≢ 0)
  nonzero a b e = (ground arith, ground arith)

  gained :
      (node : Node)
      → ((service == 0) || (port == 0)) ≡ false
      → env.calloc_server ≡ true
      → (node_get env ns node_id).1 ≡ some node
      → Adds ns
          (the_server service inst node_id port)
          (server_add env ns service inst node_id port).0
          (server_add env ns service inst node_id port).1
  gained node e f g =
      let ns' = (node_get env ns node_id).0 in
      let held = got.held node g in
      let table : services_of ns' node_id ≡ node.services = ap services_in held in
      let old_table : node.services ≡ services_of ns node_id = sym table ∙ got.same node_id in
      let good : IsServices node_id node.services = rw old_table (r.servers node_id small) in
      let put =
        reput_cases env.calloc_services node.services (hash_u32 port)
          (the_server service inst node_id port) sane.services good.valid in
      elim put [
        | inr (h, _) ↦
            let t = set_services-Sets ns' node_id node.services got.registry small node held good in
            rw (no_room node node.services e f g h) (
              not_added (set_services ns' node_id node.services) t.registry (then_frame t.frame)
                (λ j hj. elim (Bool-cases (j == node_id)) [
                  | inl q ↦ let x : j ≡ node_id = ground arith in rw x (t.set ∙ old_table)
                  | inr q ↦ t.others j hj (ground arith) ∙ got.same j
                ]))
        | inl (old, m, h, u) ↦
            let new =
              Puts-IsServices node_id node.services m (the_server service inst node_id port) old
                (nonzero service port e).0 (nonzero service port e).1 refl good u in
            let t = set_services-Sets ns' node_id m got.registry small node held new in
            rw (added node old m e f g h) (record {
              registry = t.registry;
              frame = then_frame t.frame;
              others = λ j hj ne. t.others j hj ne ∙ got.same j;
              stored = λ s q. (cc q, old, rw (← old_table, t.set) u);
              failed = λ q. absurd (cc q);
            })
      ]
    where
      then_frame : {ns'' : Ns} → Frame (node_get env ns node_id).0 ns'' → Frame ns ns''
      then_frame f = record {
        sock = f.sock ∙ got.frame.sock;
        local_node = f.local_node ∙ got.frame.local_node;
        lookups = f.lookups ∙ got.frame.lookups;
        sent = f.sent ∙ got.frame.sent;
      }

  -- In a valid registry, where the allocator gives no table of 2 ^ 31 entries, server_add on a
  -- 32-bit node leaves a valid registry and changes no packet, lookup or table of another 32-bit
  -- node; if it returns a server, that is the one asked for and it was put under the hash of its
  -- port into the table of the node, and if it returns none then no table changed.
  pub server_add-Adds :
      Adds ns
        (the_server service inst node_id port)
        (server_add env ns service inst node_id port).0
        (server_add env ns service inst node_id port).1
  server_add-Adds = elim (Bool-cases ((service == 0) || (port == 0))) [
    | inl e ↦ rw (refused e) (not_added ns r (Frame-refl ns) (λ j h. refl))
    | inr e ↦ elim (Bool-cases env.calloc_server) [
      | inr f ↦ rw (no_server e f) (not_added ns r (Frame-refl ns) (λ j h. refl))
      | inl f ↦ elim (Option-cases (node_get env ns node_id).1) [
        | inl g ↦
            rw (no_node e f g)
              (not_added (node_get env ns node_id).0 got.registry got.frame (λ j h. got.same j))
        | inr (node, g) ↦ gained node e f g
      ]
    ]
  ]
