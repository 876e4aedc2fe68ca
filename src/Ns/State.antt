-- ===== src/Ns/State.antt =====
-- The state of src/ns.c, what it takes from its environment, and the packets that it sends.
use qrtr.Base.{ℕ, Bool, Option, none, some, List, [], ◌∷◌, ◌++◌, if◌then◌else◌}
use qrtr.Map.{Map}
use qrtr.Packet.{
  Host, Sockaddr, CtrlPkt, zero_pkt, cpu_to_le32, type_new_server, type_del_server, type_hello,
  node_bcast, port_ctrl,
}

pub record Server : Type 0 where
  pub service : ℕ
  pub inst : ℕ
  pub node : ℕ
  pub port : ℕ

pub record Node : Type 0 where
  pub id : ℕ
  pub services : Map Server

pub record Lookup : Type 0 where
  pub service : ℕ
  pub inst : ℕ
  pub sq : Sockaddr

pub record ServerFilter : Type 0 where
  pub service : ℕ
  pub inst : ℕ
  pub ifilter : ℕ

-- What `sendto` is given: a control packet, or the bytes of a received packet.
pub data Payload : Type 0 where
  ctrl : CtrlPkt → Payload
  bytes : List ℕ → Payload

pub record Message : Type 0 where
  pub to : Sockaddr
  pub payload : Payload

-- `struct context` with the global map of nodes. `sock` is false once the socket is closed, and
-- `sent` lists what was given to `sendto`, the oldest first.
pub record Ns : Type 0 where
  pub sock : Bool
  pub local_node : ℕ
  pub lookups : List Lookup
  pub nodes : Map Node
  pub sent : List Message

-- What the operating system decides while one packet is handled: whether each allocation succeeds,
-- what `sendto` returns (`none` for an error, or the number of bytes), and what the uninitialised
-- words of a packet on the stack hold. While a packet is handled, the same message or size gets the
-- same answer.
pub record Env : Type 0 where
  pub host : Host
  pub sendto : Message → Option ℕ
  pub calloc_node : ℕ → Bool
  pub calloc_nodes : ℕ → Bool
  pub calloc_server : Bool
  pub calloc_services : ℕ → Bool
  pub calloc_lookup : Bool
  pub stack2 : ℕ
  pub stack3 : ℕ

-- What a handler returns: a number that is not negative, or an error.
pub data Rc : Type 0 where
  ok : ℕ → Rc
  send_error : Rc
  einval : Rc
  enoent : Rc

abbrev pub bcast_sq : Sockaddr
bcast_sq = record { node = node_bcast; port = port_ctrl }

abbrev pub sent_rc : Option ℕ → Rc
sent_rc none = send_error
sent_rc (some n) = ok n

-- A message is recorded whether `sendto` succeeds or not.
abbrev pub emit : Ns → Message → Ns
emit ns m = record ns { sent = ns.sent ++ m ∷ [] }

-- The packet of `service_announce_new` and `service_announce_del`.
abbrev pub announce_pkt : Host → ℕ → Server → CtrlPkt
announce_pkt host cmd srv = record {
  cmd = cpu_to_le32 host cmd;
  word0 = cpu_to_le32 host srv.service;
  word1 = cpu_to_le32 host srv.inst;
  word2 = cpu_to_le32 host srv.node;
  word3 = cpu_to_le32 host srv.port;
}

abbrev pub announce_msg : Env → ℕ → Sockaddr → Server → Message
announce_msg env cmd dest srv = record { to = dest; payload = ctrl (announce_pkt env.host cmd srv) }

unfoldable pub service_announce_new : Env → Ns → Sockaddr → Server → Ns × Rc
service_announce_new env ns dest srv =
    let m = announce_msg env type_new_server dest srv in (emit ns m, sent_rc (env.sendto m))

unfoldable pub service_announce_del : Env → Ns → Sockaddr → Server → Ns × Rc
service_announce_del env ns dest srv =
    let m = announce_msg env type_del_server dest srv in (emit ns m, sent_rc (env.sendto m))

-- The command is stored in the byte order of the host, the other words are converted.
abbrev pub notify_pkt : Host → Option Server → Bool → CtrlPkt
notify_pkt host none new = record zero_pkt {
  cmd = if new then type_new_server else type_del_server;
}
notify_pkt host (some srv) new = record {
  cmd = if new then type_new_server else type_del_server;
  word0 = cpu_to_le32 host srv.service;
  word1 = cpu_to_le32 host srv.inst;
  word2 = cpu_to_le32 host srv.node;
  word3 = cpu_to_le32 host srv.port;
}

abbrev pub notify_msg : Env → Sockaddr → Option Server → Bool → Message
notify_msg env to srv new = record { to = to; payload = ctrl (notify_pkt env.host srv new) }

unfoldable pub lookup_notify : Env → Ns → Sockaddr → Option Server → Bool → Ns × Rc
lookup_notify env ns to srv new =
    let m = notify_msg env to srv new in (emit ns m, sent_rc (env.sendto m))

unfoldable pub say_hello : Env → Ns → Ns × Rc
say_hello env ns =
    let m : Message = record {
      to = bcast_sq;
      payload = ctrl (record zero_pkt { cmd = cpu_to_le32 env.host type_hello });
    } in
    (emit ns m, elim (env.sendto m) [ none ↦ send_error | some n ↦ ok 0 ])
