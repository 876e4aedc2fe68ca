-- ===== src/Ns/Lookups.antt =====
-- NEW_LOOKUP in src/ns.c, and the query behind it.
use mathlib.Core.List.{append-nil, append_assoc}
use Prim.Native.Nat.{bit_and}
use qrtr.Base.{
  ℕ, suc, ◌-◌, ◌<◌, ◌≡◌, ◌≢◌, refl, sym, ap, ◌∙◌, inl, inr, true, false, not, ◌&&◌, none, List, [],
  ◌∷◌, ◌++◌, arith, ◌==◌, if◌then◌else◌, Bool-cases, length, get_or, u32_mod, bit_and-zero,
  bit_and-ones,
}
use qrtr.Map.{Slot, empty, deleted, item, slot_at, owners}
use qrtr.Map.Lookup.{get-Holds}
use qrtr.Map.Iterate.{visit_all, map_for_each-visit_all}
use qrtr.Packet.{Sockaddr}
use qrtr.Ns.State.{
  Server, Node, Lookup, ServerFilter, Message, Ns, Env, ok, einval, notify_msg, lookup_notify, emit,
}
use qrtr.Ns.Registry.{server_match, query_node, server_query, services_of, services_in, covers}
use qrtr.Ns.Control.{lookup_filter, ctrl_cmd_new_lookup, notify_servers}
use qrtr.Ns.Notices.{sending, reply_msgs, notify_servers-sending}
use qrtr.Ns.Invariant.{IsRegistry}

-- The servers that the filter lets through.
abbrev pub matching : ServerFilter → List Server → List Server
matching f [] = []
matching f (s ∷ ss) = let rest = matching f ss in if server_match s f then s ∷ rest else rest

-- Every server, in the order of the tables.
abbrev pub servers_in : List Node → List Server
servers_in [] = []
servers_in (n ∷ ns) = owners n.services.table ++ servers_in ns

abbrev pub all_servers : Ns → List Server
all_servers ns = servers_in (owners ns.nodes.table)

module _ (f : ServerFilter) where
  matching-append : (xs ys : List Server) → matching f (xs ++ ys) ≡ matching f xs ++ matching f ys
  matching-append [] ys = refl
  matching-append (x ∷ xs) ys = elim (Bool-cases (server_match x f)) [
    | inl e ↦ rw e (ap (◌∷◌ x) (matching-append xs ys))
    | inr e ↦ rw e (matching-append xs ys)
  ]

  visit-matching :
      (ss found : List Server)
      → visit_all (λ srv found. if server_match srv f then found ++ srv ∷ [] else found) ss found
        ≡ found ++ matching f ss
  visit-matching [] found = sym (append-nil found)
  visit-matching (s ∷ ss) found = elim (Bool-cases (server_match s f)) [
    | inl e ↦
        rw e (visit-matching ss (found ++ s ∷ []) ∙ append_assoc found (s ∷ []) (matching f ss))
    | inr e ↦ rw e (visit-matching ss found)
  ]

  query_node-matching :
      (n : Node) (found : List Server)
      → length n.services.table ≡ n.services.size
      → query_node f n found ≡ found ++ matching f (owners n.services.table)
  unfolding query_node
  query_node-matching n found wide =
      map_for_each-visit_all (λ _. n.services)
        (λ srv found. if server_match srv f then found ++ srv ∷ [] else found) (λ srv found. refl)
        found wide
      ∙ visit-matching (owners n.services.table) found

  visit-query_node :
      (ss : List (Slot Node)) (found : List Server)
      → ((q key : ℕ) (n : Node)
          → get_or ss q empty ≡ item key n
          → length n.services.table ≡ n.services.size)
      → visit_all (query_node f) (owners ss) found ≡ found ++ matching f (servers_in (owners ss))
  unfolding owners
  visit-query_node [] found wide = sym (append-nil found)
  visit-query_node (empty ∷ ss) found wide = visit-query_node ss found (λ q. wide (suc q))
  visit-query_node (deleted ∷ ss) found wide = visit-query_node ss found (λ q. wide (suc q))
  visit-query_node (item k n ∷ ss) found wide =
      let here = owners n.services.table in
      let more = servers_in (owners ss) in
      let w = wide 0 k n refl in
      ap (visit_all (query_node f) (owners ss)) (query_node-matching n found w)
      ∙ visit-query_node ss (found ++ matching f here) (λ q. wide (suc q))
      ∙ append_assoc found (matching f here) (matching f more)
      ∙ ap (λ xs. found ++ xs) (sym (matching-append here more))

module _ (ns : Ns) (r : IsRegistry ns) where
  node_width :
      (q key : ℕ) (n : Node)
      → slot_at ns.nodes q ≡ item key n
      → length n.services.table ≡ n.services.size
  node_width q key n h =
      let got = get-Holds ns.nodes key n r.valid r.distinct (q, h) in
      let (small, e) = r.ids key n got in
      let good = (r.servers n.id small).valid in
      let same : services_of ns n.id ≡ n.services = ap services_in (rw e at got) in
      rw same at good.width

  -- In a valid registry server_query returns the list of all servers of all nodes, in the order of
  -- the tables, less those that do not match.
  pub server_query-matching : (f : ServerFilter) → server_query ns f ≡ matching f (all_servers ns)
  unfolding server_query
  server_query-matching f =
      map_for_each-visit_all (λ _. ns.nodes) (query_node f) (λ n found. refl) [] r.valid.width
      ∙ visit-query_node f ns.nodes.table [] node_width

-- An observer's view of the filter: 0 covers every service, and every instance.
match_covers :
    (s i service inst x : ℕ)
    → (i ≡ 0 → x ≡ 0)
    → (i ≢ 0 → x ≡ inst)
    → (if not (s == 0) && not (service == s) then false else x == i)
      ≡ not (not (s == 0) && not (s == service)) && not (not (i == 0) && not (i == inst))
match_covers s i service inst x h g = ground arith

masked : (inst : ℕ) → inst < u32_mod → bit_and inst (u32_mod - 1) ≡ inst
masked inst small = bit_and-ones 32 inst small

-- For a server whose instance fits 32 bits, the filter that a lookup is answered by lets it through
-- exactly when the lookup covers it as an observer is later notified.
pub server_match-covers :
    (srv : Server) (l : Lookup)
    → srv.inst < u32_mod
    → server_match srv (lookup_filter l.service l.inst) ≡ covers l srv.service srv.inst
unfolding server_match
server_match-covers srv l small =
    match_covers l.service l.inst srv.service srv.inst
      (bit_and srv.inst (if not (l.inst == 0) then u32_mod - 1 else 0))
      (λ e. let t : (l.inst == 0) ≡ true = ground arith in rw t (bit_and-zero srv.inst))
      (λ ne. let t : (l.inst == 0) ≡ false = ground arith in rw t (masked srv.inst small))

-- The state after a lookup is answered: the observer is registered, and it was sent one packet for
-- each server that matches and then the empty packet.
abbrev pub answered : Env → Ns → Sockaddr → ℕ → ℕ → Ns
answered env ns from service inst =
    let lookup : Lookup = record { service = service; inst = inst; sq = from } in
    let found = matching (lookup_filter service inst) (all_servers ns) in
    sending (record ns { lookups = ns.lookups ++ lookup ∷ [] })
      (reply_msgs env from found ++ notify_msg env from none true ∷ [])

module _ (env : Env) (ns : Ns) (from : Sockaddr) (service inst : ℕ) (r : IsRegistry ns) where
  query_watching :
      (ls : List Lookup) (f : ServerFilter)
      → server_query (record ns { lookups = ls }) f ≡ matching f (all_servers ns)
  unfolding server_query
  query_watching ls f = server_query-matching ns r f

  replies_sent :
      (lookup : Lookup) (m : Message)
      → emit
          (notify_servers env
            (record ns { lookups = ns.lookups ++ lookup ∷ [] })
            from
            (server_query
              (record ns { lookups = ns.lookups ++ lookup ∷ [] })
              (lookup_filter service inst)))
          m
        ≡ sending
            (record ns { lookups = ns.lookups ++ lookup ∷ [] })
            (reply_msgs env from (matching (lookup_filter service inst) (all_servers ns)) ++ m ∷ [])
  replies_sent lookup m =
      let w = record ns { lookups = ns.lookups ++ lookup ∷ [] } in
      let f = lookup_filter service inst in
      let found = matching f (all_servers ns) in
      ap (λ t. emit t m)
        (notify_servers-sending env w from (server_query w f)
          ∙ ap (λ q. sending w (reply_msgs env from q))
              (query_watching (ns.lookups ++ lookup ∷ []) f))
      ∙ ap (λ sent. record w { sent = sent })
          (append_assoc ns.sent (reply_msgs env from found) (m ∷ []))

-- In a valid registry a NEW_LOOKUP from a local client, if the lookup can be allocated, appends the
-- lookup to the observers and sends the client one packet for each server that matches, in the order
-- of the tables, and then the empty packet; any other NEW_LOOKUP is refused with EINVAL and changes
-- nothing.
pub new_lookup-answered :
    (env : Env) (ns : Ns) (from : Sockaddr) (service inst : ℕ)
    → IsRegistry ns
    → ctrl_cmd_new_lookup env ns from service inst ≡ (
        if (from.node == ns.local_node) && env.calloc_lookup
        then (answered env ns from service inst, ok 0)
        else (ns, einval))
unfolding ctrl_cmd_new_lookup lookup_notify
new_lookup-answered env ns from service inst r = elim (Bool-cases (from.node == ns.local_node)) [
  | inr e ↦ rw e refl
  | inl e ↦
      let lookup : Lookup = record { service = service; inst = inst; sq = from } in
      rw e (
        ap (λ t. if env.calloc_lookup then (t, ok 0) else (ns, einval))
          (replies_sent env ns from service inst r lookup (notify_msg env from none true)))
]
