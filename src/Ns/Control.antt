-- ===== src/Ns/Control.antt =====
-- The control port of src/ns.c: a handler for each command, and the dispatch.
use qrtr.Base.{
  ℕ, Bool, true, false, not, ◌&&◌, Option, none, some, List, [], ◌∷◌, ◌++◌, ltb, ◌==◌,
  if◌then◌else◌, length,
}
use qrtr.Map.{Map, map_create, map_for_each}
use qrtr.Packet.{
  Sockaddr, CtrlPkt, zero_pkt, le32_to_cpu, type_hello, type_bye, type_new_server, type_del_server,
  type_del_client, type_new_lookup, type_del_lookup,
}
use qrtr.Ns.State.{
  Server, Lookup, ServerFilter, ctrl, bytes, Message, Ns, Env, Rc, ok, send_error, einval, enoent,
  bcast_sq, emit, service_announce_new, lookup_notify,
}
use qrtr.Ns.Registry.{
  node_get, server_query, services_of, annouce_servers, server_add, notify_observers, server_del,
}

-- A received packet: its sender, its bytes, and the packet at the start of the buffer.
pub record Datagram : Type 0 where
  pub from : Sockaddr
  pub received : List ℕ
  pub msg : CtrlPkt

unfoldable pub ctrl_cmd_hello : Env → Ns → Sockaddr → List ℕ → Ns × Rc
ctrl_cmd_hello env ns sq buf =
    let m : Message = record { to = sq; payload = bytes buf } in
    elim (env.sendto m) [
      | none ↦ (emit ns m, send_error)
      | some n ↦ if ltb 0 n then annouce_servers env (emit ns m) sq else (emit ns m, ok 0)
    ]

-- A packet to every server of a table: the loops at the end of `ctrl_cmd_bye` and
-- `ctrl_cmd_del_client`.
abbrev pub server_msg : CtrlPkt → Server → Message
server_msg pkt srv = record { to = record { node = srv.node; port = srv.port }; payload = ctrl pkt }

unfoldable pub tell_servers : Ns → CtrlPkt → Map Server → Ns
tell_servers ns pkt services =
    map_for_each (λ _. services) (λ srv s. emit s (server_msg pkt srv)) ns

-- The end of both handlers: the packet goes to every local server.
unfoldable pub tell_local : Env → Ns → ℕ → CtrlPkt → Ns × Rc
tell_local env ns local_node pkt =
    let (end, node) = node_get env ns local_node in
    elim node [ none ↦ (end, ok 0) | some n ↦ (tell_servers end pkt n.services, ok 0) ]

-- The loop of `ctrl_cmd_bye` that removes every server of a node.
unfoldable pub remove_servers : Env → Ns → ℕ → Ns
remove_servers env ns node_id =
    map_for_each (λ s. services_of s node_id) (λ srv s. (server_del env s node_id srv.port).0) ns

abbrev pub bye_pkt : ℕ → CtrlPkt
bye_pkt node_id = record zero_pkt { cmd = type_bye; word0 = node_id }

unfoldable pub ctrl_cmd_bye : Env → Ns → Sockaddr → Ns × Rc
ctrl_cmd_bye env ns from =
    let (ns', node) = node_get env ns from.node in
    elim node [
      | none ↦ (ns', ok 0)
      | some _ ↦ tell_local env (remove_servers env ns' from.node) ns.local_node (bye_pkt from.node)
    ]

-- The lookups that a client leaves behind are removed.
unfoldable pub remove_client_lookups : ℕ → ℕ → List Lookup → List Lookup
remove_client_lookups node_id port [] = []
remove_client_lookups node_id port (l ∷ ls) =
    let rest = remove_client_lookups node_id port ls in
    if not (l.sq.node == node_id)
    then l ∷ rest
    else if not (l.sq.port == port)
    then l ∷ rest
    else rest

-- The code sends the whole packet, and sets only its first three words.
abbrev pub del_client_pkt : Env → ℕ → ℕ → CtrlPkt
del_client_pkt env node_id port = record {
  cmd = type_del_client;
  word0 = node_id;
  word1 = port;
  word2 = env.stack2;
  word3 = env.stack3;
}

unfoldable pub ctrl_cmd_del_client : Env → Ns → Sockaddr → ℕ → ℕ → Ns × Rc
ctrl_cmd_del_client env ns from node_id port =
    let kept = record ns { lookups = remove_client_lookups node_id port ns.lookups } in
    let (ns', node) = node_get env kept node_id in
    let gone : Ns = elim node [ none ↦ ns' | some _ ↦ (server_del env ns' node_id port).0 ] in
    let told = tell_local env gone ns.local_node (del_client_pkt env node_id port) in
    if not (from.node == node_id)
    then (ns, einval)
    else if (from.node == ns.local_node) && not (from.port == port)
    then (ns, einval)
    else told

-- Where a local client speaks, the node and the port of its address count.
abbrev pub claimed_node : Ns → Sockaddr → ℕ → ℕ
claimed_node ns from node_id = if from.node == ns.local_node then from.node else node_id

abbrev pub claimed_port : Ns → Sockaddr → ℕ → ℕ
claimed_port ns from port = if from.node == ns.local_node then from.port else port

unfoldable pub ctrl_cmd_new_server : Env → Ns → Sockaddr → ℕ → ℕ → ℕ → ℕ → Ns × Rc
ctrl_cmd_new_server env ns from service inst node_id port =
    let node_id' = claimed_node ns from node_id in
    let (ns', srv) = server_add env ns service inst node_id' (claimed_port ns from port) in
    let added : Ns × Rc = elim srv [
      | none ↦ (ns', einval)
      | some s ↦
          let (told, rc) =
            let announced = service_announce_new env ns' bcast_sq s in
            if s.node == ns.local_node then announced else (ns', ok 0) in
          (notify_observers env told s true ns.lookups, rc)
    ] in
    if not (from.node == node_id') then (ns, einval) else added

unfoldable pub ctrl_cmd_del_server : Env → Ns → Sockaddr → ℕ → ℕ → ℕ → ℕ → Ns × Rc
ctrl_cmd_del_server env ns from service inst node_id port =
    let node_id' = claimed_node ns from node_id in
    let port' = claimed_port ns from port in
    let (ns', node) = node_get env ns node_id' in
    let deleted : Ns × Rc = elim node [
      | none ↦ (ns', enoent)
      | some _ ↦ server_del env ns' node_id' port'
    ] in
    if not (from.node == node_id')
    then (ns, einval)
    else if (from.node == ns.local_node) && not (from.port == port')
    then (ns, einval)
    else deleted

abbrev pub lookup_filter : ℕ → ℕ → ServerFilter
lookup_filter service inst = record { service = service; inst = inst; ifilter = 0 }

-- The replies to a lookup, one packet for each server.
unfoldable pub notify_servers : Env → Ns → Sockaddr → List Server → Ns
notify_servers env ns to [] = ns
notify_servers env ns to (s ∷ ss) =
    notify_servers env (lookup_notify env ns to (some s) true).0 to ss

unfoldable pub ctrl_cmd_new_lookup : Env → Ns → Sockaddr → ℕ → ℕ → Ns × Rc
ctrl_cmd_new_lookup env ns from service inst =
    let lookup : Lookup = record { service = service; inst = inst; sq = from } in
    let watching = record ns { lookups = ns.lookups ++ lookup ∷ [] } in
    let replied =
      notify_servers env watching from (server_query watching (lookup_filter service inst)) in
    if not (from.node == ns.local_node)
    then (ns, einval)
    else if env.calloc_lookup
    then ((lookup_notify env replied from none true).0, ok 0)
    else (ns, einval)

-- The lookup is one that the client asks to remove.
abbrev pub is_cancelled : Sockaddr → ℕ → ℕ → Lookup → Bool
is_cancelled from service inst l =
    (l.sq.node == from.node)
    && (l.sq.port == from.port)
    && (l.service == service)
    && not (not (l.inst == 0) && not (l.inst == inst))

unfoldable pub remove_lookups : Sockaddr → ℕ → ℕ → List Lookup → List Lookup
remove_lookups from service inst [] = []
remove_lookups from service inst (l ∷ ls) =
    let rest = remove_lookups from service inst ls in
    if is_cancelled from service inst l then rest else l ∷ rest

unfoldable pub ctrl_cmd_del_lookup : Env → Ns → Sockaddr → ℕ → ℕ → Ns × Rc
ctrl_cmd_del_lookup env ns from service inst =
    (record ns { lookups = remove_lookups from service inst ns.lookups }, ok 0)

-- The `switch` of `ctrl_port_fn`.
unfoldable pub dispatch : Env → Ns → Datagram → Ns × Rc
dispatch env ns d =
    let cmd = le32_to_cpu env.host d.msg.cmd in
    let word0 = le32_to_cpu env.host d.msg.word0 in
    let word1 = le32_to_cpu env.host d.msg.word1 in
    let word2 = le32_to_cpu env.host d.msg.word2 in
    let word3 = le32_to_cpu env.host d.msg.word3 in
    if cmd == type_hello
    then ctrl_cmd_hello env ns d.from d.received
    else if cmd == type_bye
    then ctrl_cmd_bye env ns d.from
    else if cmd == type_del_client
    then ctrl_cmd_del_client env ns d.from word0 word1
    else if cmd == type_new_server
    then ctrl_cmd_new_server env ns d.from word0 word1 word2 word3
    else if cmd == type_del_server
    then ctrl_cmd_del_server env ns d.from word0 word1 word2 word3
    else if cmd == type_new_lookup
    then ctrl_cmd_new_lookup env ns d.from word0 word1
    else if cmd == type_del_lookup
    then ctrl_cmd_del_lookup env ns d.from word0 word1
    else (ns, ok 0)

-- `none` is an error of `recvfrom`; the server then closes its socket, as for a packet of no bytes.
unfoldable pub ctrl_port_fn : Env → Ns → Option Datagram → Ns
ctrl_port_fn env ns none = record ns { sock = false }
ctrl_port_fn env ns (some d) =
    if length d.received == 0
    then record ns { sock = false }
    else if ltb (length d.received) 4
    then ns
    else (dispatch env ns d).0

-- What `main` starts from: no lookups, no nodes, and an open socket.
unfoldable pub start : ℕ → Ns
start local_node = record {
  sock = true;
  local_node = local_node;
  lookups = [];
  nodes = map_create;
  sent = [];
}

-- The loop of `main`, over the packets that arrive: `while (ctx.sock >= 0)`.
unfoldable pub serve : Ns → List (Env × Option Datagram) → Ns
serve ns [] = ns
serve ns ((env, d) ∷ ds) =
    let rest = serve (ctrl_port_fn env ns d) ds in if ns.sock then rest else ns
