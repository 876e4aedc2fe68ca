-- ===== src/Qrtr/Calls.antt =====
-- qrtr_decode of lib/qrtr.c reads what src/ns.c sends, and the name server's control port reads
-- what lib/qrtr.c sends.
use qrtr.Base.{
  ℕ, ◌/◌, ◌%◌, ◌≤◌, ◌<◌, ◌≡◌, ◌⊎◌, inl, inr, refl, ap, false, some, List, arith, ltb, u32_mod,
  bit_and-255,
}
use qrtr.Packet.{Host, Sockaddr, CtrlPkt, le32_to_cpu, port_ctrl, type_new_server, type_del_server}
use qrtr.Qrtr.{Packet, decode_ctrl, qrtr_decode}
use qrtr.Ns.State.{Server, announce_pkt}

-- A packet whose words are the little-endian forms of a command and of a server.
record Carries (host : Host) (ctrl : CtrlPkt) (c s i n p : ℕ) : Type 0 where
  cmd : le32_to_cpu host ctrl.cmd ≡ c
  service : le32_to_cpu host ctrl.word0 ≡ s
  inst : le32_to_cpu host ctrl.word1 ≡ i
  node : le32_to_cpu host ctrl.word2 ≡ n
  port : le32_to_cpu host ctrl.word3 ≡ p

-- What the decoder makes of them.
abbrev pub server_packet : Packet → ℕ → ℕ → ℕ → ℕ → ℕ → Packet
server_packet dest cmd service inst node port = record dest {
  pkt_type = cmd;
  node = node;
  port = port;
  service = service;
  version = inst % 256;
  inst = inst / 256;
}

module _ (host : Host) (dest : Packet) (buf : List ℕ) (ctrl : CtrlPkt)
    (service inst node port : ℕ) where
  decode_ctrl-Carries :
      (cmd : ℕ)
      → (cmd ≡ type_new_server) ⊎ (cmd ≡ type_del_server)
      → Carries host ctrl cmd service inst node port
      → decode_ctrl host dest ctrl ≡ server_packet dest cmd service inst node port
  unfolding decode_ctrl
  decode_ctrl-Carries cmd h c = elim h [
    | inl e ↦ rw (c.cmd, c.service, c.inst, c.node, c.port, bit_and-255 inst, decode_ctrl, e) refl
    | inr e ↦ rw (c.cmd, c.service, c.inst, c.node, c.port, bit_and-255 inst, decode_ctrl, e) refl
  ]

  decode-Carries :
      (cmd len : ℕ) (sq : Sockaddr)
      → (cmd ≡ type_new_server) ⊎ (cmd ≡ type_del_server)
      → Carries host ctrl cmd service inst node port
      → sq.port ≡ port_ctrl
      → 20 ≤ len
      → qrtr_decode host dest buf ctrl len sq ≡ some (server_packet dest cmd service inst node port)
  unfolding qrtr_decode
  decode-Carries cmd len sq h c e enough =
      let long : ltb len 20 ≡ false = ground arith in
      rw (e, long) (ap some (decode_ctrl-Carries cmd h c))

-- The fields of a server fit their words.
pub record Fits (srv : Server) : Type 0 where
  pub service : srv.service < u32_mod
  pub inst : srv.inst < u32_mod
  pub node : srv.node < u32_mod
  pub port : srv.port < u32_mod

announce-Carries :
    (host : Host) (cmd : ℕ) (srv : Server)
    → cmd < u32_mod
    → Fits srv
    → Carries host (announce_pkt host cmd srv) cmd srv.service srv.inst srv.node srv.port
announce-Carries host cmd srv h f = record {
  cmd = host.le32toh-htole32 cmd h;
  service = host.le32toh-htole32 srv.service f.service;
  inst = host.le32toh-htole32 srv.inst f.inst;
  node = host.le32toh-htole32 srv.node f.node;
  port = host.le32toh-htole32 srv.port f.port;
}

-- A control packet of at least 20 bytes from the control port that announces the arrival or the
-- departure of a server with 32-bit fields is decoded by qrtr_decode to that type, service, node and
-- port, with the low byte of the instance word as the version and the rest as the instance; the
-- other fields stay.
pub decode-announce :
    (host : Host) (dest : Packet) (buf : List ℕ) (len : ℕ) (sq : Sockaddr) (cmd : ℕ) (srv : Server)
    → (cmd ≡ type_new_server) ⊎ (cmd ≡ type_del_server)
    → Fits srv
    → sq.port ≡ port_ctrl
    → 20 ≤ len
    → qrtr_decode host dest buf (announce_pkt host cmd srv) len sq
      ≡ some (server_packet dest cmd srv.service srv.inst srv.node srv.port)
decode-announce host dest buf len sq cmd srv h f e enough =
    let small : cmd < u32_mod = elim h [
      | inl q ↦ rw q (omega arith)
      | inr q ↦ rw q (omega arith)
    ] in
    decode-Carries host dest buf (announce_pkt host cmd srv) srv.service srv.inst srv.node srv.port
      cmd len sq h (announce-Carries host cmd srv small f) e enough
