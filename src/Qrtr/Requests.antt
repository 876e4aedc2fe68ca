-- ===== src/Qrtr/Requests.antt =====
-- The requests of lib/qrtr.c at the control port of src/ns.c, and a service from its publication to a
-- client's decoder.
use qrtr.Base.{
  true, ◌==◌, ◌≢◌, ℕ, ◌+◌, ◌*◌, ◌/◌, ◌%◌, ◌^◌, ◌≤◌, ◌<◌, ◌≡◌, inl, refl, ◌∙◌, Option, some, List,
  arith, u32_mod, bit_or-shifted,
}
use qrtr.Packet.{
  Host, Sockaddr, CtrlPkt, le32_to_cpu, cpu_to_le32, port_ctrl, type_new_server, type_del_server,
  type_new_lookup, type_del_lookup,
}
use qrtr.Qrtr.{
  Packet, packed_instance, request_pkt, withdraw_pkt, qrtr_decode, Socket, Request, qrtr_new_server,
  qrtr_remove_server, qrtr_new_lookup, qrtr_remove_lookup, qrtr_getname, qrtr_sendto,
}
use qrtr.Qrtr.Calls.{Fits, decode-announce}
use qrtr.Ns.State.{Ns, Env, Rc, announce_pkt}
use qrtr.Ns.Servers.{the_server}
use qrtr.Ns.Invariant.{IsRegistry, IsSane}
use qrtr.Ns.Effects.{HasMemory, Registered, new_server-Registered}
use qrtr.Ns.Withdrawals.{Withdrawn, del_server-Withdrawn}
use qrtr.Ns.Control.{
  claimed_node, claimed_port, Datagram, dispatch, ctrl_cmd_new_server, ctrl_cmd_del_server,
  ctrl_cmd_new_lookup, ctrl_cmd_del_lookup,
}

packed_instance_lem :
    (version inst : ℕ) → version < 2 ^ 8 → packed_instance version inst ≡ inst * 2 ^ 8 + version
packed_instance_lem version inst h = bit_or-shifted 8 inst version h

-- The packet reaches the control port from the address that the socket has.
abbrev pub arriving : Sockaddr → List ℕ → CtrlPkt → Datagram
arriving sq received pkt = record { from = sq; received = received; msg = pkt }

-- The words of a packet are the little-endian forms of a command, a service and an instance.
pub record Names (host : Host) (pkt : CtrlPkt) (cmd service inst : ℕ) : Type 0 where
  pub command : le32_to_cpu host pkt.cmd ≡ cmd
  pub service_word : le32_to_cpu host pkt.word0 ≡ service
  pub instance_word : le32_to_cpu host pkt.word1 ≡ inst

-- The request names this command, service and instance and is sent to the control port of the node,
-- where the server does `effect`.
abbrev pub Reaches : Env → Ns → Sockaddr → List ℕ → ℕ → ℕ → ℕ → Option Request → Ns × Rc → Type 0
Reaches env ns sq received cmd service inst sent effect =
    (r : Request) × (sent ≡ some r)
    × (r.to ≡ record { node = sq.node; port = port_ctrl })
    × Names env.host r.pkt cmd service inst
    × (dispatch env ns (arriving sq received r.pkt) ≡ effect)

module _ (env : Env) (ns : Ns) (sq : Sockaddr) (received : List ℕ) (service version inst : ℕ)
    (fits : service < u32_mod) (low : version < 2 ^ 8) (short : inst < 2 ^ 16) where
  number : packed_instance version inst ≡ inst * 2 ^ 8 + version
  number = packed_instance_lem version inst low

  word : env.host.le32toh (env.host.htole32 (packed_instance version inst)) ≡ inst * 2 ^ 8 + version
  word = rw number (env.host.le32toh-htole32 (inst * 2 ^ 8 + version) (omega arith))

  new_server-dispatch :
      dispatch env ns
        (arriving sq received (request_pkt env.host type_new_server service version inst))
      ≡ ctrl_cmd_new_server env ns sq service (inst * 2 ^ 8 + version) 0 0
  unfolding dispatch
  new_server-dispatch =
      rw
        (
          dispatch,
          env.host.le32toh-htole32 type_new_server (omega arith),
          env.host.le32toh-htole32 service fits,
          word,
          env.host.le32toh-zero,
        )
        refl

  del_server-dispatch :
      sq.node < u32_mod
      → sq.port < u32_mod
      → dispatch env ns
          (arriving sq received (withdraw_pkt env.host type_del_server service version inst sq))
        ≡ ctrl_cmd_del_server env ns sq service (inst * 2 ^ 8 + version) sq.node sq.port
  unfolding dispatch
  del_server-dispatch n p =
      rw
        (
          dispatch,
          env.host.le32toh-htole32 type_del_server (omega arith),
          env.host.le32toh-htole32 service fits,
          word,
          env.host.le32toh-htole32 sq.node n,
          env.host.le32toh-htole32 sq.port p,
        )
        refl

  new_lookup-dispatch :
      dispatch env ns
        (arriving sq received (request_pkt env.host type_new_lookup service version inst))
      ≡ ctrl_cmd_new_lookup env ns sq service (inst * 2 ^ 8 + version)
  unfolding dispatch
  new_lookup-dispatch =
      rw
        (
          dispatch,
          env.host.le32toh-htole32 type_new_lookup (omega arith),
          env.host.le32toh-htole32 service fits,
          word,
        )
        refl

  del_lookup-dispatch :
      dispatch env ns
        (arriving sq received (withdraw_pkt env.host type_del_lookup service version inst sq))
      ≡ ctrl_cmd_del_lookup env ns sq service (inst * 2 ^ 8 + version)
  unfolding dispatch
  del_lookup-dispatch =
      rw
        (
          dispatch,
          env.host.le32toh-htole32 type_del_lookup (omega arith),
          env.host.le32toh-htole32 service fits,
          word,
        )
        refl

  named_words :
      (cmd : ℕ)
      → cmd < u32_mod
      → {w2 w3 : ℕ}
      → Names env.host
          (record {
            cmd = cpu_to_le32 env.host cmd;
            word0 = cpu_to_le32 env.host service;
            word1 = cpu_to_le32 env.host (packed_instance version inst);
            word2 = w2;
            word3 = w3;
          })
          cmd
          service
          (inst * 2 ^ 8 + version)
  named_words cmd small = record {
    command = env.host.le32toh-htole32 cmd small;
    service_word = env.host.le32toh-htole32 service fits;
    instance_word = word;
  }

  -- What the four calls send is read by the control port as the command that was meant.
  module _ (sock : Socket) (named : qrtr_getname sock ≡ some sq) (node : sq.node < u32_mod)
      (port : sq.port < u32_mod) where
    -- On a socket whose name is a 32-bit address, for a 32-bit service, an 8-bit version and a
    -- 16-bit instance, each of qrtr_new_server, qrtr_remove_server, qrtr_new_lookup and
    -- qrtr_remove_lookup sends one packet to the control port of its own node, which names that
    -- command, this service and instance * 256 + version, and which the name server on a machine of
    -- the same byte order handles as that command for them, and, for a removal of a server, for this
    -- address.
    pub calls-dispatch :
        Reaches env ns sq received type_new_server service
          (inst * 2 ^ 8 + version)
          (qrtr_new_server env.host sock service version inst).0
          (ctrl_cmd_new_server env ns sq service (inst * 2 ^ 8 + version) 0 0)
        × Reaches env ns sq received type_del_server service
            (inst * 2 ^ 8 + version)
            (qrtr_remove_server env.host sock service version inst).0
            (ctrl_cmd_del_server env ns sq service (inst * 2 ^ 8 + version) sq.node sq.port)
        × Reaches env ns sq received type_new_lookup service
            (inst * 2 ^ 8 + version)
            (qrtr_new_lookup env.host sock service version inst).0
            (ctrl_cmd_new_lookup env ns sq service (inst * 2 ^ 8 + version))
        × Reaches env ns sq received type_del_lookup service
            (inst * 2 ^ 8 + version)
            (qrtr_remove_lookup env.host sock service version inst).0
            (ctrl_cmd_del_lookup env ns sq service (inst * 2 ^ 8 + version))
    unfolding qrtr_new_server qrtr_remove_server qrtr_new_lookup qrtr_remove_lookup qrtr_sendto
    calls-dispatch = (
      (
        _,
        rw (named, qrtr_new_server) refl,
        refl,
        named_words type_new_server (omega arith),
        new_server-dispatch,
      ),
      (
        _,
        rw (named, qrtr_remove_server) refl,
        refl,
        named_words type_del_server (omega arith),
        del_server-dispatch node port,
      ),
      (
        _,
        rw (named, qrtr_new_lookup) refl,
        refl,
        named_words type_new_lookup (omega arith),
        new_lookup-dispatch,
      ),
      (
        _,
        rw (named, qrtr_remove_lookup) refl,
        refl,
        named_words type_del_lookup (omega arith),
        del_lookup-dispatch,
      ),
    )

local-Registered :
    (env : Env) (ns : Ns) (sq : Sockaddr) (service w : ℕ)
    → IsSane env
    → IsRegistry ns
    → sq.node < u32_mod
    → (sq.node == ns.local_node) ≡ true
    → service ≢ 0
    → sq.port ≢ 0
    → HasMemory env ns sq.node
    → Registered env ns
        (the_server service w sq.node sq.port)
        (ctrl_cmd_new_server env ns sq service w 0 0).0
local-Registered env ns sq service w sane r small e hs hp memory =
    let n : claimed_node ns sq 0 ≡ sq.node = rw e refl in
    let p : claimed_port ns sq 0 ≡ sq.port = rw e refl in
    let has_port : claimed_port ns sq 0 ≢ 0 = rw p hp in
    let room : HasMemory env ns (claimed_node ns sq 0) = rw n memory in
    rw (n, p) at (new_server-Registered env ns sq service w 0 0 sane r small n hs has_port room)

-- In a valid registry, with memory for the server, its node and the tables, and with tables below 2
-- ^ 31 entries, the packet that qrtr_new_server sends for a client of the local node with a 32-bit
-- address, a port and a 32-bit service that are not 0, an 8-bit version and a 16-bit instance makes
-- the name server hold that service with instance * 256 + version at the address of the client, keep
-- the lookups, and send the broadcast and then one packet to each observer whose lookup covers it.
pub published-Registered :
    (env : Env) (ns : Ns) (sq : Sockaddr) (received : List ℕ) (service version inst : ℕ)
    (sock : Socket)
    → qrtr_getname sock ≡ some sq
    → IsSane env
    → IsRegistry ns
    → sq.node < u32_mod
    → sq.port < u32_mod
    → sq.node ≡ ns.local_node
    → service < u32_mod
    → version < 2 ^ 8
    → inst < 2 ^ 16
    → service ≢ 0
    → sq.port ≢ 0
    → HasMemory env ns sq.node
    → (r : Request) × ((qrtr_new_server env.host sock service version inst).0 ≡ some r)
      × Registered env ns
          (the_server service (inst * 2 ^ 8 + version) sq.node sq.port)
          (dispatch env ns (arriving sq received r.pkt)).0
published-Registered env ns sq received service version inst sock named sane r node port home fits
      low short hs hp memory =
    let ((request, sent, _, _, effect), _, _, _) =
      calls-dispatch env ns sq received service version inst fits low short sock named node port in
    let held =
      local-Registered env ns sq service (inst * 2 ^ 8 + version) sane r node (ground arith) hs hp
        memory in
    (request, sent, rw effect held)

-- In a valid registry, with tables below 2 ^ 31 entries, the packet that qrtr_remove_server sends
-- for a client with a 32-bit address, for a 32-bit service, an 8-bit version and a 16-bit instance,
-- removes the server at that address, whatever service it names, with what a DEL_SERVER does and
-- sends, if the name server is that of the client's node.
pub removed-Withdrawn :
    (env : Env) (ns : Ns) (sq : Sockaddr) (received : List ℕ) (service version inst : ℕ)
    (sock : Socket)
    → qrtr_getname sock ≡ some sq
    → IsSane env
    → IsRegistry ns
    → sq.node < u32_mod
    → sq.port < u32_mod
    → sq.node ≡ ns.local_node
    → service < u32_mod
    → version < 2 ^ 8
    → inst < 2 ^ 16
    → (r : Request) × ((qrtr_remove_server env.host sock service version inst).0 ≡ some r)
      × Withdrawn env ns sq.node sq.port (dispatch env ns (arriving sq received r.pkt)).0
removed-Withdrawn env ns sq received service version inst sock named sane r node port home fits low
      short =
    let (_, (request, sent, _, _, effect), _, _) =
      calls-dispatch env ns sq received service version inst fits low short sock named node port in
    let e : (sq.node == ns.local_node) ≡ true = ground arith in
    let n : claimed_node ns sq sq.node ≡ sq.node = rw e refl in
    let p : claimed_port ns sq sq.port ≡ sq.port = rw e refl in
    let held =
      rw (n, p) at
        (del_server-Withdrawn env ns sq service (inst * 2 ^ 8 + version) sq.node sq.port sane r node
          n) in
    (request, sent, rw effect held)

-- A server announced with a 32-bit service, an 8-bit version and a 16-bit instance packed as
-- qrtr_new_server packs them, at a 32-bit address, is decoded from a control packet of at least 20
-- bytes with the same service, version, instance, node and port.
pub decode-published :
    (host : Host) (dest : Packet) (buf : List ℕ) (len : ℕ) (from sq : Sockaddr)
    (service version inst : ℕ)
    → service < u32_mod
    → version < 2 ^ 8
    → inst < 2 ^ 16
    → sq.node < u32_mod
    → sq.port < u32_mod
    → from.port ≡ port_ctrl
    → 20 ≤ len
    → qrtr_decode host dest buf
        (announce_pkt host type_new_server
          (the_server service (packed_instance version inst) sq.node sq.port))
        len
        from
      ≡ some (record dest {
        pkt_type = type_new_server;
        node = sq.node;
        port = sq.port;
        service = service;
        version = version;
        inst = inst;
      })
decode-published host dest buf len from sq service version inst fits low short node port e enough =
    let number = packed_instance_lem version inst low in
    let lower : packed_instance version inst % 256 ≡ version = omega (arith, number) in
    let upper : packed_instance version inst / 256 ≡ inst = omega (arith, number) in
    let small : packed_instance version inst < u32_mod = omega (arith, number) in
    let srv = the_server service (packed_instance version inst) sq.node sq.port in
    let fit : Fits srv = record { service = fits; inst = small; node = node; port = port } in
    decode-announce host dest buf len from type_new_server srv (inl refl) fit e enough
    ∙ rw (lower, upper) refl
