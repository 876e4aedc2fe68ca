-- ===== src/Ns/Bye.antt =====
-- BYE in src/ns.c, with the loop that removes the servers of a node.
use qrtr.Base.{
  ℕ, ◌+◌, ◌<◌, ◌≡◌, ◌≢◌, refl, ap, ◌∙◌, inl, inr, true, Option, none, arith, ◌==◌, Bool-cases,
  Option-cases, u32_mod,
}
use qrtr.Hash.{hash_u32}
use qrtr.Map.{Map, Slot, empty, deleted, item, is_free, slot_at, map_get, map_create, map_remove}
use qrtr.Map.Probe.{Holds, IsDistinct, slot_in_range}
use qrtr.Map.Lookup.{Holds-of_get}
use qrtr.Map.Iterate.{map_for_each_rule}
use qrtr.Map.Remove.{remove-Removes}
use qrtr.Packet.{Sockaddr}
use qrtr.Ns.State.{Server, Node, Ns, Env}
use qrtr.Ns.Registry.{node_get, services_in, services_of, server_del}
use qrtr.Ns.Control.{remove_servers, ctrl_cmd_bye, bye_pkt}
use qrtr.Ns.Invariant.{IsRegistry, IsSane}
use qrtr.Ns.Nodes.{node_get-Gets, run_found}
use qrtr.Ns.Removals.{server_del-Deletes}
use qrtr.Ns.Acts.{Acts, Acts-refl, Acts-trans, del-Acts, remove_servers-Acts}
use qrtr.Ns.Greetings.{tell_local-Acts, bye-Acts}

-- The first entries of a table hold no server.
abbrev IsCleared : ℕ → Map Server → Type 0
IsCleared n m = (q k : ℕ) (b : Server) → q < n → slot_at m q ≢ item k b

not_item : (s : Slot Server) (k : ℕ) (b : Server) → is_free s ≡ true → s ≢ item k b
not_item empty k b f e = cc e
not_item deleted k b f e = cc e
not_item (item j a) k b f e = cc f

IsCleared-next :
    (m : Map Server) (i : ℕ)
    → IsCleared i m
    → ((k : ℕ) (b : Server) → slot_at m i ≢ item k b)
    → IsCleared (i + 1) m
IsCleared-next m i h here q k b lt e = elim (Bool-cases (q == i)) [
  | inl f ↦ let same : q ≡ i = ground arith in here k b (rw same at e)
  | inr f ↦ h q k b (ground arith) e
]

module _ (env : Env) (ns : Ns) (node_id : ℕ) (small : node_id < u32_mod) where
  -- What the loop keeps: the entries that it has passed are cleared.
  record Progress (n i : ℕ) (s : Ns) : Type 0 where
    acts : Acts ns node_id s
    size : (services_of s node_id).size ≡ n
    distinct : IsDistinct (services_of s node_id)
    cleared : IsCleared i (services_of s node_id)

  Progress-step :
      (n i k : ℕ) (s : Ns) (srv : Server)
      → Progress n i s
      → slot_at (services_of s node_id) i ≡ item k srv
      → Progress n (i + 1) (server_del env s node_id srv.port).0
  Progress-step n i k s srv p there =
      let good = p.acts.registry.servers node_id small in
      let t = server_del-Deletes env s node_id srv.port p.acts.registry small in
      let u = remove-Removes (services_of s node_id) (hash_u32 srv.port) good.valid in
      let keyed : k ≡ hash_u32 srv.port = (good.mine i k srv there).keyed in
      let m' = (map_remove (services_of s node_id) (hash_u32 srv.port)).0 in
      let was_here : (j : ℕ) (b : Server) → slot_at m' i ≢ item j b = λ j b e.
        let same : k ≡ j = cc (u.kept i j b e, there) in
        let gone : slot_at m' i ≡ item (hash_u32 srv.port) b = rw (← same, keyed) at e in
        u.gone p.distinct b (i, gone) in
      record {
        acts =
            Acts-trans ns s _ node_id p.acts
              (del-Acts env s node_id srv.port p.acts.registry small);
        size = ap (λ (m : Map Server). m.size) t.removed ∙ u.size ∙ p.size;
        distinct = rw t.removed (u.distinct p.distinct);
        cleared =
            rw t.removed
              (IsCleared-next m' i (λ q j b lt e. p.cleared q j b lt (u.kept q j b e)) was_here);
      }

  remove_servers-IsCleared :
      IsRegistry ns
      → IsDistinct (services_of ns node_id)
      → Progress
          (services_of ns node_id).size
          (services_of ns node_id).size
          (remove_servers env ns node_id)
  unfolding remove_servers
  remove_servers-IsCleared r d =
      let n = (services_of ns node_id).size in
      map_for_each_rule (λ s. services_of s node_id)
        (λ srv s. (server_del env s node_id srv.port).0) (λ i s. Progress n i s) n (λ i s p. p.size)
        (λ i s h p f. record {
          acts = p.acts;
          size = p.size;
          distinct = p.distinct;
          cleared = IsCleared-next (services_of s node_id) i p.cleared (λ k b. not_item _ k b f);
        })
        (λ i s k srv h p there. Progress-step n i k s srv p there) ns
        (record {
          acts = Acts-refl ns node_id r;
          size = refl;
          distinct = d;
          cleared = λ q k b lt e. absurd (omega arith);
        })

  pub remove_servers-none :
      IsRegistry ns
      → IsDistinct (services_of ns node_id)
      → (k : ℕ) (b : Server) → Holds (services_of (remove_servers env ns node_id) node_id) k b
      → ⊥
  remove_servers-none r d k b (q, e) =
      let p = remove_servers-IsCleared r d in
      let good = p.acts.registry.servers node_id small in
      let lt =
        slot_in_range (services_of (remove_servers env ns node_id) node_id) q k b good.valid.width
          e in
      p.cleared q k b (rw p.size at lt) e

create-not-Holds : (k : ℕ) (b : Server) → Holds map_create k b → ⊥
unfolding map_create
create-not-Holds k b (q, e) = cc e

module _ (env : Env) (ns : Ns) (from : Sockaddr) (sane : IsSane env) (r : IsRegistry ns)
    (small : from.node < u32_mod) where
  bye_missing :
      (node_get env ns from.node).1 ≡ none
      → (k : ℕ) (b : Server) → Holds (services_of ns from.node) k b
      → ⊥
  bye_missing e k b h = elim (Option-cases (map_get ns.nodes (hash_u32 from.node))) [
    | inr (n, f) ↦
        absurd (cc (e, ap (λ (x : Ns × Option Node). x.1) (run_found env ns from.node r n f)))
    | inl f ↦
        let void : services_of ns from.node ≡ map_create = ap services_in f in
        create-not-Holds k b (rw void at h)
  ]

  bye-not-Holds :
      IsDistinct (services_of ns from.node)
      → (k : ℕ) (b : Server) → Holds (services_of (ctrl_cmd_bye env ns from).0 from.node) k b
      → ⊥
  unfolding ctrl_cmd_bye
  bye-not-Holds d k b h =
      let g = node_get-Gets env ns from.node r sane small in
      let s₁ = (node_get env ns from.node).0 in
      elim (Option-cases (node_get env ns from.node).1) [
        | inl e ↦ bye_missing e k b (rw (e, ctrl_cmd_bye, g.same from.node) at h)
        | inr (n, e) ↦
            let s₂ = remove_servers env s₁ from.node in
            let a₂ = remove_servers-Acts env s₁ from.node g.registry small in
            let told =
              tell_local-Acts env s₂ (from.node + 1) ns.local_node (bye_pkt from.node) sane
                a₂.registry r.home in
            let d₁ : IsDistinct (services_of s₁ from.node) = rw (g.same from.node) d in
            remove_servers-none env s₁ from.node small g.registry d₁ k b
              (rw (e, ctrl_cmd_bye, told.others from.node small (omega arith)) at h)
      ]

  -- After a BYE of a 32-bit node no port is found in the server table of that node, if the registry
  -- was valid, no port had two servers in that table before, and the allocator gives no table of 2 ^
  -- 31 entries.
  pub bye-none :
      IsDistinct (services_of ns from.node)
      → (port : ℕ)
      → map_get (services_of (ctrl_cmd_bye env ns from).0 from.node) (hash_u32 port) ≡ none
  bye-none d port =
      let left = services_of (ctrl_cmd_bye env ns from).0 from.node in
      let good = (bye-Acts env ns sane r from small).registry.servers from.node small in
      elim (Option-cases (map_get left (hash_u32 port))) [
        | inl e ↦ e
        | inr (b, e) ↦
            absurd
              (bye-not-Holds d (hash_u32 port) b (Holds-of_get left (hash_u32 port) b good.valid e))
      ]
