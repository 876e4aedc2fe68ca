-- ===== src/Ns/Handlers.antt =====
-- What the handlers of src/ns.c do to the registry.
use mathlib.Core.Path.{subst}
use qrtr.Base.{
  ℕ, ◌<◌, ◌≡◌, inl, inr, Bool, true, false, not, ◌&&◌, Option, none, some, List, [], ◌∷◌, ◌++◌,
  arith, ◌==◌, if◌then◌else◌, Bool-cases, Option-cases, u32_mod,
}
use qrtr.Packet.{
  Sockaddr, CtrlPkt, le32_to_cpu, type_hello, type_bye, type_del_client, type_new_server,
  type_del_server, type_new_lookup, type_del_lookup,
}
use qrtr.Ns.State.{
  Node, Lookup, Ns, Env, Rc, enoent, notify_msg, service_announce_new, lookup_notify,
}
use qrtr.Ns.Registry.{node_get, server_add, server_query, server_del}
use qrtr.Ns.Control.{
  Datagram, ctrl_cmd_del_client, ctrl_cmd_new_server, ctrl_cmd_del_server, ctrl_cmd_new_lookup,
  ctrl_cmd_del_lookup, dispatch, del_client_pkt, remove_client_lookups, remove_lookups,
  claimed_node, claimed_port, lookup_filter,
}
use qrtr.Ns.Notices.{notify_observers-sending, notify_servers-sending, reply_msgs}
use qrtr.Ns.Invariant.{IsRegistry, IsSane}
use qrtr.Ns.Acts.{
  Acts, Acts-refl, Acts-trans, sending-Acts, lookups-Acts, get-Acts, add-Acts, del-Acts,
  client_lookups-AreLocal, lookups-AreLocal, append-AreLocal,
}
use qrtr.Ns.Greetings.{tell_local-Acts, hello-Acts, bye-Acts}

-- Both branches of a test act on one node.
either-Acts :
    (ns : Ns) (node_id : ℕ) (b : Bool) (x y : Ns × Rc)
    → Acts ns node_id x.0
    → Acts ns node_id y.0
    → Acts ns node_id (if b then x else y).0
either-Acts ns node_id true x y h g = h
either-Acts ns node_id false x y h g = g

-- What `server_del` does to the node that `node_get` found.
gone-Acts :
    (env : Env) (s : Ns) (o : Option Node) (node_id port : ℕ)
    → IsRegistry s
    → node_id < u32_mod
    → Acts s node_id (elim o as (λ _. Ns) [ none ↦ s | some _ ↦ (server_del env s node_id port).0 ])
gone-Acts env s none node_id port good small = Acts-refl s node_id good
gone-Acts env s (some n) node_id port good small = del-Acts env s node_id port good small

deleted-Acts :
    (env : Env) (s : Ns) (o : Option Node) (node_id port : ℕ)
    → IsRegistry s
    → node_id < u32_mod
    → Acts s node_id
        (elim o as (λ _. Ns × Rc) [ none ↦ (s, enoent) | some _ ↦ server_del env s node_id port ]).0
deleted-Acts env s none node_id port good small = Acts-refl s node_id good
deleted-Acts env s (some n) node_id port good small = del-Acts env s node_id port good small

module _ (env : Env) (ns : Ns) (sane : IsSane env) (r : IsRegistry ns) (from : Sockaddr)
    (small : from.node < u32_mod) where
  -- A handler that acts on the node that it was told of acts on the sender's.
  moved :
      (node_id : ℕ) (ns' : Ns) → node_id ≡ from.node → Acts ns node_id ns' → Acts ns from.node ns'
  moved node_id ns' e a = subst (λ j. Acts ns j ns') e a

  del_client-Acts :
      (node_id port : ℕ) → Acts ns from.node (ctrl_cmd_del_client env ns from node_id port).0
  unfolding ctrl_cmd_del_client
  del_client-Acts node_id port = elim (Bool-cases (not (from.node == node_id))) [
    | inl e ↦ rw e (Acts-refl ns from.node r)
    | inr e ↦ elim (Bool-cases ((from.node == ns.local_node) && not (from.port == port))) [
      | inl f ↦ rw (e, f) (Acts-refl ns from.node r)
      | inr f ↦
          let same : node_id ≡ from.node = ground arith in
          let lt : node_id < u32_mod = rw same small in
          let ls = remove_client_lookups node_id port ns.lookups in
          let s₀ = record ns { lookups = ls } in
          let a₀ =
            lookups-Acts ns node_id ls r
              (client_lookups-AreLocal node_id port ns.local_node ns.lookups r.observers) in
          let a₁ = get-Acts env s₀ node_id node_id sane a₀.registry lt in
          let s₁ = (node_get env s₀ node_id).0 in
          let a₂ = gone-Acts env s₁ (node_get env s₀ node_id).1 node_id port a₁.registry lt in
          let a₃ =
            tell_local-Acts env _ node_id ns.local_node (del_client_pkt env node_id port) sane
              a₂.registry r.home in
          rw (e, f)
            (moved node_id _ same (
              Acts-trans ns s₀ _ node_id a₀
                (Acts-trans s₀ s₁ _ node_id a₁ (Acts-trans s₁ _ _ node_id a₂ a₃))))
    ]
  ]

  new_server-Acts :
      (service inst node_id port : ℕ)
      → Acts ns from.node (ctrl_cmd_new_server env ns from service inst node_id port).0
  unfolding ctrl_cmd_new_server service_announce_new
  new_server-Acts service inst node_id port =
      let t = claimed_node ns from node_id in
      let p = claimed_port ns from port in
      elim (Bool-cases (not (from.node == t))) [
        | inl e ↦ rw e (Acts-refl ns from.node r)
        | inr e ↦
            let same : t ≡ from.node = ground arith in
            let lt : t < u32_mod = rw same small in
            let a = add-Acts env ns service inst t p sane r lt in
            let s = (server_add env ns service inst t p).0 in
            rw e (
              moved t _ same (elim (Option-cases (server_add env ns service inst t p).1) [
                | inl f ↦ rw (f, ctrl_cmd_new_server) a
                | inr (srv, f) ↦
                    rw (f, ctrl_cmd_new_server)
                      (elim (Bool-cases (srv.node == ns.local_node)) [
                        | inl g ↦ rw g (
                            rw (notify_observers-sending env _ srv true ns.lookups) (
                              Acts-trans ns s _ t a (
                                Acts-trans s _ _ t (sending-Acts s t _ a.registry)
                                  (sending-Acts _ t _ (sending-Acts s t _ a.registry).registry))))
                        | inr g ↦ rw g (
                            rw (notify_observers-sending env s srv true ns.lookups)
                              (Acts-trans ns s _ t a (sending-Acts s t _ a.registry)))
                      ])
              ]))
      ]

  del_server-Acts :
      (service inst node_id port : ℕ)
      → Acts ns from.node (ctrl_cmd_del_server env ns from service inst node_id port).0
  unfolding ctrl_cmd_del_server
  del_server-Acts service inst node_id port =
      let t = claimed_node ns from node_id in
      let p = claimed_port ns from port in
      elim (Bool-cases (not (from.node == t))) [
        | inl e ↦ rw e (Acts-refl ns from.node r)
        | inr e ↦ elim (Bool-cases ((from.node == ns.local_node) && not (from.port == p))) [
          | inl f ↦ rw (e, f) (Acts-refl ns from.node r)
          | inr f ↦
              let same : t ≡ from.node = ground arith in
              let lt : t < u32_mod = rw same small in
              let a = get-Acts env ns t t sane r lt in
              let s = (node_get env ns t).0 in
              rw (e, f)
                (moved t _ same (
                  Acts-trans ns s _ t a
                    (deleted-Acts env s (node_get env ns t).1 t p a.registry lt)))
        ]
      ]

  new_lookup-Acts :
      (service inst : ℕ) → Acts ns from.node (ctrl_cmd_new_lookup env ns from service inst).0
  unfolding ctrl_cmd_new_lookup lookup_notify
  new_lookup-Acts service inst = elim (Bool-cases (not (from.node == ns.local_node))) [
    | inl e ↦ rw e (Acts-refl ns from.node r)
    | inr e ↦
        let l : Lookup = record { service = service; inst = inst; sq = from } in
        let s = record ns { lookups = ns.lookups ++ l ∷ [] } in
        let a =
          lookups-Acts ns from.node (ns.lookups ++ l ∷ []) r
            (append-AreLocal ns.local_node ns.lookups l r.observers (ground arith)) in
        let b =
          sending-Acts s from.node
            (reply_msgs env from (server_query s (lookup_filter service inst))) a.registry in
        let c = sending-Acts _ from.node (notify_msg env from none true ∷ []) b.registry in
        rw e (
          rw (notify_servers-sending env s from (server_query s (lookup_filter service inst))) (
            either-Acts ns from.node env.calloc_lookup _ _
              (Acts-trans ns s _ from.node a (Acts-trans s _ _ from.node b c))
              (Acts-refl ns from.node r)))
  ]

  del_lookup-Acts :
      (service inst : ℕ) → Acts ns from.node (ctrl_cmd_del_lookup env ns from service inst).0
  unfolding ctrl_cmd_del_lookup
  del_lookup-Acts service inst =
      lookups-Acts ns from.node (remove_lookups from service inst ns.lookups) r
        (lookups-AreLocal from service inst ns.local_node ns.lookups r.observers)

  -- The command of a packet that is handled decides which handler runs.
  pub dispatch-Acts :
      (received : List ℕ) (msg : CtrlPkt)
      → let d : Datagram = record { from = from; received = received; msg = msg } in
        Acts ns from.node (dispatch env ns d).0
  unfolding dispatch
  dispatch-Acts received msg =
      let cmd = le32_to_cpu env.host msg.cmd in
      either-Acts ns from.node (cmd == type_hello) _ _
        (hello-Acts env ns sane r from small received)
        (either-Acts ns from.node (cmd == type_bye) _ _ (bye-Acts env ns sane r from small) (
          either-Acts ns from.node (cmd == type_del_client) _ _ (del_client-Acts _ _) (
            either-Acts ns from.node (cmd == type_new_server) _ _ (new_server-Acts _ _ _ _) (
              either-Acts ns from.node (cmd == type_del_server) _ _ (del_server-Acts _ _ _ _) (
                either-Acts ns from.node (cmd == type_new_lookup) _ _ (new_lookup-Acts _ _) (
                  either-Acts ns from.node (cmd == type_del_lookup) _ _ (del_lookup-Acts _ _)
                    (Acts-refl ns from.node r)))))))
