-- ===== src/Ns/Nodes.antt =====
-- `node_get` of src/ns.c, and the write of a node's table.
use qrtr.Base.{
  ℕ, ◌<◌, ◌≡◌, ◌≢◌, refl, sym, ap, ◌∙◌, inl, inr, true, false, Option, none, some, arith, ◌==◌,
  Bool-cases, Option-cases, u32_mod,
}
use qrtr.Hash.{hash_u32, hash_u32_injective}
use qrtr.Map.{Map, done, no_memory, map_get, map_put, map_reput, map_update}
use qrtr.Map.Reput.{reput_cases, Puts-Updates, Updates}
use qrtr.Map.Update.{update-Changes}
use qrtr.Map.Round.{IsTombless}
use qrtr.Ns.State.{Server, Node, Ns, Env}
use qrtr.Ns.Registry.{new_node, node_get, services_in, services_of, set_services}
use qrtr.Ns.Invariant.{IsServices, IsRegistry, IsSane, Frame, Frame-refl}

-- What `node_get` does: no server of any node changes, and a node that is returned is in the map.
pub record Gets (ns : Ns) (node_id : ℕ) (ns' : Ns) (o : Option Node) : Type 0 where
  pub registry : IsRegistry ns'
  pub frame : Frame ns ns'
  pub same : (j : ℕ) → services_of ns' j ≡ services_of ns j
  pub held : (node : Node) → o ≡ some node → map_get ns'.nodes (hash_u32 node_id) ≡ some node

module _ (env : Env) (ns : Ns) (node_id : ℕ) (r : IsRegistry ns) where
  unchanged :
      (o : Option Node)
      → ((node : Node) → o ≡ some node → map_get ns.nodes (hash_u32 node_id) ≡ some node)
      → Gets ns node_id ns o
  unchanged o h = record { registry = r; frame = Frame-refl ns; same = λ j. refl; held = h }

  module _ (absent : map_get ns.nodes (hash_u32 node_id) ≡ none) (small : node_id < u32_mod)
      (m : Map Node) (u : Updates ns.nodes (hash_u32 node_id) (new_node node_id) m) where
    added : Ns
    added = record ns { nodes = m }

    added-same : (j : ℕ) → services_of (record ns { nodes = m }) j ≡ services_of ns j
    added-same j = elim (Bool-cases (hash_u32 j == hash_u32 node_id)) [
      | inl e ↦
          let same : hash_u32 j ≡ hash_u32 node_id = ground arith in
          rw (same, u.reads (hash_u32 node_id), absent)
            (let t : (hash_u32 node_id == hash_u32 node_id) ≡ true = ground arith in rw t)
      | inr e ↦ rw (u.reads (hash_u32 j), e)
    ]

    added-ids :
        (key : ℕ) (node : Node)
        → map_get m key ≡ some node
        → (node.id < u32_mod) × (key ≡ hash_u32 node.id)
    added-ids key node e = elim (Bool-cases (key == hash_u32 node_id)) [
      | inl f ↦
          let new : some (new_node node_id) ≡ some node = rw (u.reads key, f) at e in
          let same : new_node node_id ≡ node = cc in rw (← same) (small, ground arith)
      | inr f ↦ r.ids key node (rw (u.reads key, f) at e)
    ]

    added-Gets : IsTombless m → Gets ns node_id (record ns { nodes = m }) (some (new_node node_id))
    added-Gets t = record {
      registry = record {
        valid = u.valid;
        distinct = u.distinct;
        tombless = t;
        ids = added-ids;
        servers = λ j h. rw (added-same j) (r.servers j h);
        observers = r.observers;
        home = r.home;
      };
      frame = record { sock = refl; local_node = refl; lookups = refl; sent = refl };
      same = added-same;
      held = λ node e.
          let t : (hash_u32 node_id == hash_u32 node_id) ≡ true = ground arith in
          rw (u.reads (hash_u32 node_id), t) e;
    }

  pub run_found :
      (node : Node)
      → map_get ns.nodes (hash_u32 node_id) ≡ some node
      → node_get env ns node_id ≡ (ns, some node)
  unfolding node_get
  run_found node e = rw (e, node_get)

  run_no_memory :
      map_get ns.nodes (hash_u32 node_id) ≡ none
      → env.calloc_node node_id ≡ false
      → node_get env ns node_id ≡ (ns, none)
  unfolding node_get
  run_no_memory e f = rw (e, node_get, f)

  run_full :
      map_get ns.nodes (hash_u32 node_id) ≡ none
      → env.calloc_node node_id ≡ true
      → map_reput env.calloc_nodes ns.nodes (hash_u32 node_id) (some (new_node node_id))
        ≡ no_memory ns.nodes
      → node_get env ns node_id ≡ (ns, none)
  unfolding node_get map_put
  run_full e f g = rw (e, node_get, f, g)

  run_added :
      (old : Option Node) (m : Map Node)
      → map_get ns.nodes (hash_u32 node_id) ≡ none
      → env.calloc_node node_id ≡ true
      → map_reput env.calloc_nodes ns.nodes (hash_u32 node_id) (some (new_node node_id))
        ≡ done old m
      → node_get env ns node_id ≡ (record ns { nodes = m }, some (new_node node_id))
  unfolding node_get map_put
  run_added old m e f g = rw (e, node_get, f, g)

  -- `node_get` keeps the registry, whether it finds the node, adds it, or fails.
  pub node_get-Gets :
      IsSane env
      → node_id < u32_mod
      → Gets ns node_id (node_get env ns node_id).0 (node_get env ns node_id).1
  node_get-Gets sane small = elim (Option-cases (map_get ns.nodes (hash_u32 node_id))) [
    | inr (node, e) ↦ rw (run_found node e) (unchanged (some node) (λ n f. e ∙ f))
    | inl e ↦ elim (Bool-cases (env.calloc_node node_id)) [
      | inr f ↦ rw (run_no_memory e f) (unchanged none (λ n g. absurd (cc g)))
      | inl f ↦
          elim (reput_cases env.calloc_nodes ns.nodes (hash_u32 node_id) (new_node node_id)
            sane.nodes r.valid) [
              | inr (g, _) ↦ rw (run_full e f g) (unchanged none (λ n h. absurd (cc h)))
              | inl (old, m, g, t) ↦ rw (run_added old m e f g) (
                  added-Gets e small m
                    (Puts-Updates ns.nodes (hash_u32 node_id) (new_node node_id) old m r.valid
                      r.distinct (λ p h b _. r.tombless p h) t)
                    (t.tombless r.tombless))
            ]
    ]
  ]

-- The write of a table of servers through the pointer to its node.
pub record Sets (ns : Ns) (node_id : ℕ) (m : Map Server) (ns' : Ns) : Type 0 where
  pub registry : IsRegistry ns'
  pub frame : Frame ns ns'
  pub set : services_of ns' node_id ≡ m
  pub others : (j : ℕ) → j < u32_mod → j ≢ node_id → services_of ns' j ≡ services_of ns j

module _ (ns : Ns) (node_id : ℕ) (m : Map Server) (r : IsRegistry ns) (small : node_id < u32_mod)
    (node : Node) (held : map_get ns.nodes (hash_u32 node_id) ≡ some node) where
  key : ℕ
  key = hash_u32 node_id

  write : Node → Node
  write n = record n { services = m }

  read_self :
      map_get (map_update ns.nodes (hash_u32 node_id) write) (hash_u32 node_id) ≡ some (write node)
  read_self =
      let u = update-Changes ns.nodes (hash_u32 node_id) write r.valid r.distinct in
      let t : (hash_u32 node_id == hash_u32 node_id) ≡ true = ground arith in
      rw (u.reads (hash_u32 node_id), t, held)

  read_other :
      (k : ℕ)
      → k ≢ hash_u32 node_id
      → map_get (map_update ns.nodes (hash_u32 node_id) write) k ≡ map_get ns.nodes k
  read_other k ne =
      let u = update-Changes ns.nodes (hash_u32 node_id) write r.valid r.distinct in
      let t : (k == hash_u32 node_id) ≡ false = ground arith in rw (u.reads k, t)

  set-others :
      (j : ℕ)
      → j < u32_mod
      → j ≢ node_id
      → services_of (set_services ns node_id m) j ≡ services_of ns j
  unfolding write
  set-others j h ne =
      ap services_in (read_other (hash_u32 j) (λ e. ne (hash_u32_injective j node_id h small e)))

  set-ids :
      (k : ℕ) (n : Node)
      → map_get (map_update ns.nodes (hash_u32 node_id) write) k ≡ some n
      → (n.id < u32_mod) × (k ≡ hash_u32 n.id)
  unfolding write
  set-ids k n e = elim (Bool-cases (k == hash_u32 node_id)) [
    | inl f ↦
        let same : k ≡ hash_u32 node_id = ground arith in
        let new : some (write node) ≡ some n = sym read_self ∙ (rw same at e) in
        let old = r.ids (hash_u32 node_id) node held in
        let n_new : write node ≡ n = cc in rw (← n_new, same) old
    | inr f ↦ r.ids k n (sym (read_other k (ground arith)) ∙ e)
  ]

  pub set_services-Sets : IsServices node_id m → Sets ns node_id m (set_services ns node_id m)
  unfolding write
  set_services-Sets good =
      let u = update-Changes ns.nodes (hash_u32 node_id) write r.valid r.distinct in
      record {
        registry = record {
          valid = u.valid;
          distinct = u.distinct;
          tombless = u.tombless r.tombless;
          ids = set-ids;
          servers = λ j h. elim (Bool-cases (j == node_id)) [
            | inl e ↦ let same : j ≡ node_id = ground arith in rw (same, read_self) good
            | inr e ↦ rw (set-others j h (ground arith)) (r.servers j h)
          ];
          observers = r.observers;
          home = r.home;
        };
        frame = record { sock = refl; local_node = refl; lookups = refl; sent = refl };
        set = ap services_in read_self;
        others = set-others;
      }
