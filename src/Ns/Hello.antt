-- ===== src/Ns/Hello.antt =====
-- HELLO in src/ns.c: what it changes and what it sends.
use mathlib.Core.List.{append-nil, append_assoc}
use qrtr.Base.{
  ℕ, ◌≡◌, refl, sym, ap, ◌∙◌, inl, inr, none, some, List, [], ◌∷◌, ◌++◌, ltb, if◌then◌else◌,
  Bool-cases, Option-cases,
}
use qrtr.Map.{map_create, owners}
use qrtr.Map.Iterate.{visit_all, map_for_each-visit_all}
use qrtr.Packet.{Sockaddr, type_new_server}
use qrtr.Ns.State.{
  Server, Node, bytes, Message, Ns, Env, ok, send_error, emit, announce_msg, service_announce_new,
}
use qrtr.Ns.Registry.{node_get, services_of, announce_next, annouce_servers}
use qrtr.Ns.Control.{ctrl_cmd_hello}
use qrtr.Ns.Notices.{sending, sending-emit}
use qrtr.Ns.Invariant.{IsRegistry, IsSane}
use qrtr.Ns.Nodes.{node_get-Gets}
use qrtr.Ns.Acts.{got-services, got-IsServices, sending-Acts}
use qrtr.Ns.Withdrawals.{void_services}

-- The announcements to an address, up to the first that cannot be sent.
abbrev pub announced : Env → Sockaddr → List Server → List Message
announced env sq [] = []
announced env sq (srv ∷ ss) =
    let m = announce_msg env type_new_server sq srv in
    m ∷ elim (env.sendto m) [ none ↦ [] | some _ ↦ announced env sq ss ]

-- The packet itself goes back, and then every local server is announced.
abbrev pub greeting_msgs : Env → Ns → Sockaddr → List ℕ → List Message
greeting_msgs env ns sq buf =
    let m : Message = record { to = sq; payload = bytes buf } in
    let servers = announced env sq (owners (services_of ns ns.local_node).table) in
    m ∷ elim (env.sendto m) [ none ↦ [] | some n ↦ if ltb 0 n then servers else [] ]

stopped :
    (env : Env) (sq : Sockaddr) (ss : List Server) (s : Ns)
    → (visit_all (announce_next env sq) ss (s, send_error)).0 ≡ s
unfolding announce_next
stopped env sq [] s = refl
stopped env sq (srv ∷ ss) s = stopped env sq ss s

module _ (env : Env) (sq : Sockaddr) (srv : Server) (s : Ns) (n : ℕ) where
  next_fails :
      env.sendto (announce_msg env type_new_server sq srv) ≡ none
      → announce_next env sq srv (s, ok n)
        ≡ (emit s (announce_msg env type_new_server sq srv), send_error)
  unfolding announce_next service_announce_new
  next_fails e = rw (e, announce_next) refl

  next_succeeds :
      (k : ℕ)
      → env.sendto (announce_msg env type_new_server sq srv) ≡ some k
      → announce_next env sq srv (s, ok n)
        ≡ (emit s (announce_msg env type_new_server sq srv), ok 0)
  unfolding announce_next service_announce_new
  next_succeeds k e = rw (e, announce_next) refl

announcing :
    (env : Env) (sq : Sockaddr) (ss : List Server) (s : Ns) (n : ℕ)
    → (visit_all (announce_next env sq) ss (s, ok n)).0 ≡ sending s (announced env sq ss)
announcing env sq [] s n = ap (λ sent. record s { sent = sent }) (sym (append-nil s.sent))
announcing env sq (srv ∷ ss) s n =
    let m = announce_msg env type_new_server sq srv in
    elim (Option-cases (env.sendto m)) [
      | inl e ↦ rw e (
          ap (λ t. (visit_all (announce_next env sq) ss t).0) (next_fails env sq srv s n e)
          ∙ stopped env sq ss (emit s m))
      | inr (k, e) ↦ rw e (
          ap (λ t. (visit_all (announce_next env sq) ss t).0) (next_succeeds env sq srv s n k e)
          ∙ announcing env sq ss (emit s m) 0
          ∙ sending-emit s m (announced env sq ss))
    ]

-- Packets were sent: the servers of every node, the lookups, the local node and the socket are kept.
pub record Sends (ns : Ns) (ms : List Message) (ns' : Ns) : Type 0 where
  pub registry : IsRegistry ns'
  pub same : (j : ℕ) → services_of ns' j ≡ services_of ns j
  pub lookups : ns'.lookups ≡ ns.lookups
  pub local_node : ns'.local_node ≡ ns.local_node
  pub sock : ns'.sock ≡ ns.sock
  pub sent : ns'.sent ≡ ns.sent ++ ms

module _ (env : Env) (ns : Ns) (sq : Sockaddr) (sane : IsSane env) (r : IsRegistry ns) where
  none-Sends :
      (node_get env ns ns.local_node).1 ≡ none
      → Sends ns
          (announced env sq (owners (services_of ns ns.local_node).table))
          (node_get env ns ns.local_node).0
  unfolding owners map_create
  none-Sends e =
      let g = node_get-Gets env ns ns.local_node r sane r.home in
      record {
        registry = g.registry;
        same = g.same;
        lookups = g.frame.lookups;
        local_node = g.frame.local_node;
        sock = g.frame.sock;
        sent =
            g.frame.sent
            ∙ sym (
                ap (λ m. ns.sent ++ announced env sq (owners m.table))
                  (void_services env ns ns.local_node 0 sane r r.home e)
                ∙ append-nil ns.sent);
      }

  some-Sends :
      (n : Node)
      → (node_get env ns ns.local_node).1 ≡ some n
      → Sends ns
          (announced env sq (owners (services_of ns ns.local_node).table))
          (sending (node_get env ns ns.local_node).0 (announced env sq (owners n.services.table)))
  some-Sends n e =
      let g = node_get-Gets env ns ns.local_node r sane r.home in
      let table = got-services env ns ns.local_node n sane r r.home e in
      record {
        registry = (sending-Acts (node_get env ns ns.local_node).0 0 _ g.registry).registry;
        same = g.same;
        lookups = g.frame.lookups;
        local_node = g.frame.local_node;
        sock = g.frame.sock;
        sent =
            ap (λ m. (node_get env ns ns.local_node).0.sent ++ announced env sq (owners m.table))
              table
            ∙ ap (λ ms. ms ++ announced env sq (owners (services_of ns ns.local_node).table))
                g.frame.sent;
      }

  annouce_servers-Sends :
      Sends ns
        (announced env sq (owners (services_of ns ns.local_node).table))
        (annouce_servers env ns sq).0
  unfolding annouce_servers
  annouce_servers-Sends = elim (Option-cases (node_get env ns ns.local_node).1) [
    | inl e ↦ rw (e, annouce_servers) (none-Sends e)
    | inr (n, e) ↦
        let good = got-IsServices env ns ns.local_node n sane r r.home e in
        let s = (node_get env ns ns.local_node).0 in
        rw (e, annouce_servers)
          (rw
            (
              map_for_each-visit_all (λ _. n.services) (announce_next env sq) (λ a s. refl)
                  (s, ok 0) good.valid.width,
              announcing env sq (owners n.services.table) s 0,
            )
            (some-Sends n e))
  ]

Sends-emit :
    (ns : Ns) (m : Message) (ms : List Message) (ns' : Ns)
    → Sends (emit ns m) ms ns'
    → Sends ns (m ∷ ms) ns'
Sends-emit ns m ms ns' h = record {
  registry = h.registry;
  same = h.same;
  lookups = h.lookups;
  local_node = h.local_node;
  sock = h.sock;
  sent = h.sent ∙ append_assoc ns.sent (m ∷ []) ms;
}

-- In a valid registry, with tables below 2 ^ 31 entries, a HELLO leaves a valid registry and keeps
-- the servers of every node, the lookups, the local node and the socket, though it may add the local
-- node without servers to the map of nodes; the name server sends the packet back and then, if
-- sendto took it, announces each of its local servers to the sender, in the order of the table and
-- up to the first announcement that cannot be sent.
pub hello-Sends :
    (env : Env) (ns : Ns) (sq : Sockaddr) (buf : List ℕ)
    → IsSane env
    → IsRegistry ns
    → Sends ns (greeting_msgs env ns sq buf) (ctrl_cmd_hello env ns sq buf).0
unfolding ctrl_cmd_hello
hello-Sends env ns sq buf sane r =
    let m : Message = record { to = sq; payload = bytes buf } in
    let good = (sending-Acts ns 0 (m ∷ []) r).registry in
    let alone : Sends ns (m ∷ []) (emit ns m) = record {
      registry = good;
      same = λ j. refl;
      lookups = refl;
      local_node = refl;
      sock = refl;
      sent = refl;
    } in
    elim (Option-cases (env.sendto m)) [
      | inl e ↦ rw (e, ctrl_cmd_hello) alone
      | inr (n, e) ↦
          rw (e, ctrl_cmd_hello)
            (elim (Bool-cases (ltb 0 n)) [
              | inl f ↦
                  rw f (Sends-emit ns m _ _ (annouce_servers-Sends env (emit ns m) sq sane good))
              | inr f ↦ rw f alone
            ])
    ]
