-- ===== src/Ns/Acts.antt =====
-- What the parts of a handler of src/ns.c do to the registry.
use qrtr.Base.{
  ℕ, ◌<◌, ◌≡◌, ◌≢◌, refl, sym, ap, ◌∙◌, inl, inr, not, some, List, [], ◌∷◌, ◌++◌, ◌==◌, Bool-cases,
  Option-cases, u32_mod,
}
use qrtr.Hash.{hash_u32}
use qrtr.Map.{Map, owners}
use qrtr.Map.Iterate.{map_for_each_rule, visit_all, map_for_each-visit_all}
use qrtr.Map.Remove.{remove-Removes}
use qrtr.Packet.{Sockaddr}
use qrtr.Ns.State.{
  Server, Node, Lookup, Message, Ns, Env, Rc, ok, send_error, einval, enoent, service_announce_new,
}
use qrtr.Ns.Registry.{
  node_get, services_in, services_of, server_add, server_del, announce_next, annouce_servers,
}
use qrtr.Ns.Control.{remove_servers, remove_client_lookups, remove_lookups, is_cancelled}
use qrtr.Ns.Notices.{sending}
use qrtr.Ns.Invariant.{IsServices, IsRegistry, IsSane, AreLocal}
use qrtr.Ns.Nodes.{node_get-Gets}
use qrtr.Ns.Servers.{server_add-Adds}
use qrtr.Ns.Removals.{server_del-Deletes}

pub record Acts (ns : Ns) (node_id : ℕ) (ns' : Ns) : Type 0 where
  pub registry : IsRegistry ns'
  pub local_node : ns'.local_node ≡ ns.local_node
  pub others : (j : ℕ) → j < u32_mod → j ≢ node_id → services_of ns' j ≡ services_of ns j

pub Acts-refl : (ns : Ns) (node_id : ℕ) → IsRegistry ns → Acts ns node_id ns
Acts-refl ns node_id r = record { registry = r; local_node = refl; others = λ j h ne. refl }

pub Acts-trans :
    (ns ns₁ ns₂ : Ns) (node_id : ℕ)
    → Acts ns node_id ns₁
    → Acts ns₁ node_id ns₂
    → Acts ns node_id ns₂
Acts-trans ns ns₁ ns₂ node_id a b = record {
  registry = b.registry;
  local_node = b.local_node ∙ a.local_node;
  others = λ j h ne. b.others j h ne ∙ a.others j h ne;
}

-- Packets change nothing in the registry.
pub sending-Acts :
    (ns : Ns) (node_id : ℕ) (ms : List Message) → IsRegistry ns → Acts ns node_id (sending ns ms)
sending-Acts ns node_id ms r = record {
  registry = record {
    valid = r.valid;
    distinct = r.distinct;
    tombless = r.tombless;
    ids = r.ids;
    servers = r.servers;
    observers = r.observers;
    home = r.home;
  };
  local_node = refl;
  others = λ j h ne. refl;
}

pub lookups-Acts :
    (ns : Ns) (node_id : ℕ) (ls : List Lookup)
    → IsRegistry ns
    → AreLocal ns.local_node ls
    → Acts ns node_id (record ns { lookups = ls })
lookups-Acts ns node_id ls r h = record {
  registry = record {
    valid = r.valid;
    distinct = r.distinct;
    tombless = r.tombless;
    ids = r.ids;
    servers = r.servers;
    observers = h;
    home = r.home;
  };
  local_node = refl;
  others = λ j h ne. refl;
}

pub get-Acts :
    (env : Env) (ns : Ns) (node_id target : ℕ)
    → IsSane env
    → IsRegistry ns
    → target < u32_mod
    → Acts ns node_id (node_get env ns target).0
get-Acts env ns node_id target sane r small =
    let g = node_get-Gets env ns target r sane small in
    record { registry = g.registry; local_node = g.frame.local_node; others = λ j h ne. g.same j }

-- The table of a node that `node_get` returns is the one that the registry has for it.
pub got-services :
    (env : Env) (ns : Ns) (target : ℕ) (n : Node)
    → IsSane env
    → IsRegistry ns
    → target < u32_mod
    → (node_get env ns target).1 ≡ some n
    → n.services ≡ services_of ns target
got-services env ns target n sane r small e =
    let g = node_get-Gets env ns target r sane small in
    sym (ap services_in (g.held n e)) ∙ g.same target

pub got-IsServices :
    (env : Env) (ns : Ns) (target : ℕ) (n : Node)
    → IsSane env
    → IsRegistry ns
    → target < u32_mod
    → (node_get env ns target).1 ≡ some n
    → IsServices target n.services
got-IsServices env ns target n sane r small e =
    rw (got-services env ns target n sane r small e) (r.servers target small)

pub add-Acts :
    (env : Env) (ns : Ns) (service inst node_id port : ℕ)
    → IsSane env
    → IsRegistry ns
    → node_id < u32_mod
    → Acts ns node_id (server_add env ns service inst node_id port).0
add-Acts env ns service inst node_id port sane r small =
    let t = server_add-Adds env ns service inst node_id port sane r small in
    record { registry = t.registry; local_node = t.frame.local_node; others = t.others }

pub del-Acts :
    (env : Env) (ns : Ns) (node_id port : ℕ)
    → IsRegistry ns
    → node_id < u32_mod
    → Acts ns node_id (server_del env ns node_id port).0
del-Acts env ns node_id port r small =
    let t = server_del-Deletes env ns node_id port r small in
    record { registry = t.registry; local_node = t.local_node; others = t.others }

announce_next-Acts :
    (env : Env) (sq : Sockaddr) (srv : Server) (node_id : ℕ) (ns : Ns) (rc : Rc)
    → IsRegistry ns
    → Acts ns node_id (announce_next env sq srv (ns, rc)).0
unfolding announce_next service_announce_new
announce_next-Acts env sq srv node_id ns (ok n) r = sending-Acts ns node_id _ r
announce_next-Acts env sq srv node_id ns send_error r = Acts-refl ns node_id r
announce_next-Acts env sq srv node_id ns einval r = Acts-refl ns node_id r
announce_next-Acts env sq srv node_id ns enoent r = Acts-refl ns node_id r

announcing-Acts :
    (env : Env) (sq : Sockaddr) (node_id : ℕ) (ss : List Server) (s : Ns × Rc)
    → IsRegistry s.0
    → Acts s.0 node_id (visit_all (announce_next env sq) ss s).0
announcing-Acts env sq node_id [] s r = Acts-refl s.0 node_id r
announcing-Acts env sq node_id (srv ∷ ss) s r =
    let one = announce_next-Acts env sq srv node_id s.0 s.1 r in
    Acts-trans s.0 (announce_next env sq srv s).0 _ node_id one
      (announcing-Acts env sq node_id ss (announce_next env sq srv s) one.registry)

pub announce-Acts :
    (env : Env) (ns : Ns) (sq : Sockaddr) (node_id : ℕ)
    → IsSane env
    → IsRegistry ns
    → Acts ns node_id (annouce_servers env ns sq).0
unfolding annouce_servers
announce-Acts env ns sq node_id sane r = elim (Option-cases (node_get env ns ns.local_node).1) [
  | inl e ↦ rw (e, annouce_servers) (get-Acts env ns node_id ns.local_node sane r r.home)
  | inr (n, e) ↦
      let ns' = (node_get env ns ns.local_node).0 in
      let first = get-Acts env ns node_id ns.local_node sane r r.home in
      let good = got-IsServices env ns ns.local_node n sane r r.home e in
      rw (e, annouce_servers)
        (rw
          (map_for_each-visit_all (λ _. n.services) (announce_next env sq) (λ a s. refl) (ns', ok 0)
            good.valid.width)
          (Acts-trans ns ns' _ node_id first
            (announcing-Acts env sq node_id (owners n.services.table) (ns', ok 0) first.registry)))
]

-- The loop of `ctrl_cmd_bye` touches the one node only.
pub remove_servers-Acts :
    (env : Env) (ns : Ns) (node_id : ℕ)
    → IsRegistry ns
    → node_id < u32_mod
    → Acts ns node_id (remove_servers env ns node_id)
unfolding remove_servers
remove_servers-Acts env ns node_id r small =
    let n = (services_of ns node_id).size in
    let (acts, _) =
      map_for_each_rule (λ s. services_of s node_id)
        (λ srv s. (server_del env s node_id srv.port).0)
        (λ i s. Acts ns node_id s × ((services_of s node_id).size ≡ n)) n (λ i s (_, e). e)
        (λ i s h p _. p)
        (λ i s k srv h (a, e) there.
          let t = server_del-Deletes env s node_id srv.port a.registry small in
          let good = a.registry.servers node_id small in
          (
            Acts-trans ns s _ node_id a (del-Acts env s node_id srv.port a.registry small),
            ap (λ (m : Map Server). m.size) t.removed
                ∙ (remove-Removes (services_of s node_id) (hash_u32 srv.port) good.valid).size
                ∙ e,
          ))
        ns (Acts-refl ns node_id r, refl) in
    acts

pub client_lookups-AreLocal :
    (node_id port home : ℕ) (ls : List Lookup)
    → AreLocal home ls
    → AreLocal home (remove_client_lookups node_id port ls)
unfolding remove_client_lookups
client_lookups-AreLocal node_id port home [] h = tt
client_lookups-AreLocal node_id port home (l ∷ ls) h =
    let rest = client_lookups-AreLocal node_id port home ls h.1 in
    elim (Bool-cases (not (l.sq.node == node_id))) [
      | inl e ↦ rw e (h.0, rest)
      | inr e ↦ rw e (elim (Bool-cases (not (l.sq.port == port))) [
        | inl f ↦ rw f (h.0, rest)
        | inr f ↦ rw f rest
      ])
    ]

pub lookups-AreLocal :
    (from : Sockaddr) (service inst home : ℕ) (ls : List Lookup)
    → AreLocal home ls
    → AreLocal home (remove_lookups from service inst ls)
unfolding remove_lookups
lookups-AreLocal from service inst home [] h = tt
lookups-AreLocal from service inst home (l ∷ ls) h =
    let rest = lookups-AreLocal from service inst home ls h.1 in
    elim (Bool-cases (is_cancelled from service inst l)) [
      | inl e ↦ rw e rest
      | inr e ↦ rw e (h.0, rest)
    ]

pub append-AreLocal :
    (home : ℕ) (ls : List Lookup) (l : Lookup)
    → AreLocal home ls
    → l.sq.node ≡ home
    → AreLocal home (ls ++ l ∷ [])
append-AreLocal home [] l h e = (e, tt)
append-AreLocal home (k ∷ ls) l h e = (h.0, append-AreLocal home ls l h.1 e)
