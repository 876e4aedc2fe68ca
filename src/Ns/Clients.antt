-- ===== src/Ns/Clients.antt =====
-- DEL_CLIENT in src/ns.c: what it changes and what it sends.
use mathlib.Core.Path.{subst}
use mathlib.Core.List.{append-nil}
use qrtr.Base.{
  ℕ, ◌<◌, ◌≡◌, ◌≢◌, refl, sym, ap, ◌∙◌, inl, inr, Bool, true, false, not, ◌&&◌, Option, none, some,
  List, [], ◌∷◌, ◌++◌, arith, ◌==◌, if◌then◌else◌, Option-cases, u32_mod,
}
use qrtr.Hash.{hash_u32}
use qrtr.Map.{map_get, map_create, owners}
use qrtr.Map.Probe.{IsDistinct}
use qrtr.Packet.{Sockaddr, CtrlPkt}
use qrtr.Ns.State.{Node, Lookup, Ns, Env, Rc, enoent}
use qrtr.Ns.Registry.{node_get, services_of, server_del}
use qrtr.Ns.Control.{
  ctrl_cmd_del_client, remove_client_lookups, del_client_pkt, tell_local, tell_servers,
}
use qrtr.Ns.Notices.{server_msgs, tell_servers-sending}
use qrtr.Ns.Invariant.{IsRegistry, IsSane}
use qrtr.Ns.Nodes.{node_get-Gets}
use qrtr.Ns.Acts.{got-services, got-IsServices, client_lookups-AreLocal, lookups-Acts, sending-Acts}
use qrtr.Ns.Withdrawals.{withdrawal_msgs, Withdrawn, got-Withdrawn, void_services}

-- A packet to each local server changes nothing else.
record Told (s : Ns) (home : ℕ) (pkt : CtrlPkt) (s' : Ns) : Type 0 where
  registry : IsRegistry s'
  same : (j : ℕ) → services_of s' j ≡ services_of s j
  lookups : s'.lookups ≡ s.lookups
  sent : s'.sent ≡ s.sent ++ server_msgs pkt (owners (services_of s home).table)

module _ (env : Env) (s : Ns) (home : ℕ) (pkt : CtrlPkt) (sane : IsSane env) (r : IsRegistry s)
    (small : home < u32_mod) where
  none-Told : (node_get env s home).1 ≡ none → Told s home pkt (node_get env s home).0
  unfolding owners map_create
  none-Told e =
      let g = node_get-Gets env s home r sane small in
      record {
        registry = g.registry;
        same = g.same;
        lookups = g.frame.lookups;
        sent =
            g.frame.sent
            ∙ sym (
                ap (λ m. s.sent ++ server_msgs pkt (owners m.table))
                  (void_services env s home 0 sane r small e)
                ∙ append-nil s.sent);
      }

  some-Told :
      (n : Node)
      → (node_get env s home).1 ≡ some n
      → Told s home pkt (tell_servers (node_get env s home).0 pkt n.services)
  some-Told n e =
      let g = node_get-Gets env s home r sane small in
      let good = got-IsServices env s home n sane r small e in
      let table = got-services env s home n sane r small e in
      rw (tell_servers-sending (node_get env s home).0 pkt n.services good.valid.width) (record {
        registry = (sending-Acts (node_get env s home).0 home _ g.registry).registry;
        same = g.same;
        lookups = g.frame.lookups;
        sent =
            ap (λ m. (node_get env s home).0.sent ++ server_msgs pkt (owners m.table)) table
            ∙ ap (λ ms. ms ++ server_msgs pkt (owners (services_of s home).table)) g.frame.sent;
      })

  tell_local-Told : Told s home pkt (tell_local env s home pkt).0
  unfolding tell_local
  tell_local-Told = elim (Option-cases (node_get env s home).1) [
    | inl e ↦ rw (e, tell_local) (none-Told e)
    | inr (n, e) ↦ rw (e, tell_local) (some-Told n e)
  ]

-- The lookups of other clients.
abbrev pub of_others : ℕ → ℕ → List Lookup → List Lookup
of_others node_id port [] = []
of_others node_id port (l ∷ ls) =
    let rest = of_others node_id port ls in
    if (l.sq.node == node_id) && (l.sq.port == port) then rest else l ∷ rest

remove_lookups-of_others :
    (node_id port : ℕ) (ls : List Lookup)
    → remove_client_lookups node_id port ls ≡ of_others node_id port ls
unfolding remove_client_lookups
remove_lookups-of_others node_id port [] = refl
remove_lookups-of_others node_id port (l ∷ ls) =
    let rest = remove_lookups-of_others node_id port ls in
    by_tests (l.sq.node == node_id) (l.sq.port == port) _ _ rest
  where
    by_tests :
        (a b : Bool) (xs ys : List Lookup)
        → xs ≡ ys
        → (if not a then l ∷ xs else if not b then l ∷ xs else xs) ≡ (if a && b then ys else l ∷ ys)
    by_tests true true xs ys e = e
    by_tests true false xs ys e = ap (λ t. l ∷ t) e
    by_tests false b xs ys e = ap (λ t. l ∷ t) e

-- What a DEL_CLIENT does that is accepted.
pub record Disconnected (env : Env) (ns : Ns) (node_id port : ℕ) (ns' : Ns) : Type 0 where
  pub registry : IsRegistry ns'
  pub found :
      IsDistinct (services_of ns node_id)
      → (k : ℕ)
      → map_get (services_of ns' node_id) k
        ≡ (if k == hash_u32 port then none else map_get (services_of ns node_id) k)
  pub others : (j : ℕ) → j < u32_mod → j ≢ node_id → services_of ns' j ≡ services_of ns j
  pub lookups : ns'.lookups ≡ of_others node_id port ns.lookups
  pub sent :
      ns'.sent
      ≡ (ns.sent
          ++ withdrawal_msgs env
              (record ns { lookups = of_others node_id port ns.lookups })
              (map_get (services_of ns node_id) (hash_u32 port)))
        ++ server_msgs
            (del_client_pkt env node_id port)
            (owners (services_of ns' ns.local_node).table)

Told-Disconnected :
    (env : Env) (ns s₁ s₂ : Ns) (node_id port : ℕ)
    → Withdrawn env (record ns { lookups = of_others node_id port ns.lookups }) node_id port s₁
    → Told s₁ ns.local_node (del_client_pkt env node_id port) s₂
    → Disconnected env ns node_id port s₂
Told-Disconnected env ns s₁ s₂ node_id port w t = record {
  registry = t.registry;
  found = λ d k. ap (λ m. map_get m k) (t.same node_id) ∙ w.found d k;
  others = λ j h ne. t.same j ∙ w.others j h ne;
  lookups = t.lookups ∙ w.lookups;
  sent =
      t.sent
      ∙ ap
          (λ ms.
            ms
            ++ server_msgs (del_client_pkt env node_id port)
                (owners (services_of s₁ ns.local_node).table))
          w.sent
      ∙ ap
          (λ m.
            (ns.sent
              ++ withdrawal_msgs env (record ns { lookups = of_others node_id port ns.lookups })
                  (map_get (services_of ns node_id) (hash_u32 port)))
            ++ server_msgs (del_client_pkt env node_id port) (owners m.table))
          (sym (t.same ns.local_node));
}

module _ (env : Env) (ns : Ns) (node_id port : ℕ) (sane : IsSane env) (r : IsRegistry ns)
    (small : node_id < u32_mod) where
  abbrev remaining : Ns
  remaining = record ns { lookups = of_others node_id port ns.lookups }

  gone-Disconnected :
      (o : Option Node) (s : Ns)
      → (let deleted : Ns × Rc = elim o [
        | none ↦ (s, enoent)
        | some _ ↦ server_del env s node_id port
      ] in
          Withdrawn env remaining node_id port deleted.0)
      → (let gone : Ns = elim o [ none ↦ s | some _ ↦ (server_del env s node_id port).0 ] in
          Disconnected env ns node_id port
            (tell_local env gone ns.local_node (del_client_pkt env node_id port)).0)
  gone-Disconnected none s w =
      Told-Disconnected env ns s _ node_id port w (
        tell_local-Told env s ns.local_node (del_client_pkt env node_id port) sane w.registry
          r.home)
  gone-Disconnected (some n) s w =
      Told-Disconnected env ns (server_del env s node_id port).0 _ node_id port w (
        tell_local-Told env (server_del env s node_id port).0 ns.local_node
          (del_client_pkt env node_id port) sane w.registry r.home)

  run-Disconnected :
      (ls : List Lookup)
      → of_others node_id port ns.lookups ≡ ls
      → let kept = record ns { lookups = ls } in
        let (s, node) = node_get env kept node_id in
        let gone : Ns = elim node [ none ↦ s | some _ ↦ (server_del env s node_id port).0 ] in
        Disconnected env ns node_id port
          (tell_local env gone ns.local_node (del_client_pkt env node_id port)).0
  run-Disconnected ls e =
      let ls' = remove_lookups-of_others node_id port ns.lookups in
      let local =
        rw ls' at (client_lookups-AreLocal node_id port ns.local_node ns.lookups r.observers) in
      let r₀ : IsRegistry remaining =
        (lookups-Acts ns node_id (of_others node_id port ns.lookups) r local).registry in
      let run =
        gone-Disconnected (node_get env remaining node_id).1 (node_get env remaining node_id).0
          (got-Withdrawn env remaining node_id port sane r₀ small) in
      subst
        (λ ls.
          let kept = record ns { lookups = ls } in
          let (s, node) = node_get env kept node_id in
          let gone : Ns = elim node [ none ↦ s | some _ ↦ (server_del env s node_id port).0 ] in
          Disconnected env ns node_id port
            (tell_local env gone ns.local_node (del_client_pkt env node_id port)).0)
        e run

-- In a valid registry, with tables below 2 ^ 31 entries, a DEL_CLIENT from the 32-bit node of the
-- client, and from its own port if the node is local, removes the lookups of this client and no
-- other, and the server under its port and nothing else of its node's table, if no key stands there
-- twice, and keeps the tables of other nodes; it sends what a DEL_SERVER sends to the observers that
-- are left, and then one packet to each server of the local node that is left.
pub del_client-Disconnected :
    (env : Env) (ns : Ns) (from : Sockaddr) (node_id port : ℕ)
    → IsSane env
    → IsRegistry ns
    → from.node < u32_mod
    → from.node ≡ node_id
    → (from.node ≡ ns.local_node → from.port ≡ port)
    → Disconnected env ns node_id port (ctrl_cmd_del_client env ns from node_id port).0
unfolding ctrl_cmd_del_client
del_client-Disconnected env ns from node_id port sane r small own near =
    let a : not (from.node == node_id) ≡ false = ground arith in
    let b : ((from.node == ns.local_node) && not (from.port == port)) ≡ false = ground arith in
    let lt : node_id < u32_mod = rw (sym own) small in
    rw (a, b)
      (run-Disconnected env ns node_id port sane r lt
        (remove_client_lookups node_id port ns.lookups)
        (sym (remove_lookups-of_others node_id port ns.lookups)))
