-- ===== src/Qrtr.antt =====
-- lib/qrtr.c: the client's side of the control port, and the decoder of what a socket receives.
-- The sockets are the kernel's: a `Socket` holds what its calls answer. `qrtr_publish` and `qrtr_bye`
-- only call `qrtr_new_server` and `qrtr_remove_server`.
pub mod Calls
pub mod Requests
pub mod Sockets
use Prim.Native.Nat.{bit_and, bit_or}
use qrtr.Base.{
  ℕ, ◌*◌, ◌/◌, ◌^◌, Bool, true, false, not, ◌||◌, Option, none, some, List, [], ◌∷◌, ltb, ◌==◌,
  if◌then◌else◌,
}
use qrtr.Packet.{
  Host, Sockaddr, CtrlPkt, zero_pkt, cpu_to_le32, le32_to_cpu, port_ctrl, type_data, type_bye,
  type_new_server, type_del_server, type_del_client, type_new_lookup, type_del_lookup,
}

-- What `getsockname` stores: the family, the address and its length.
pub record SockName : Type 0 where
  pub family : ℕ
  pub sq : Sockaddr
  pub sl : ℕ

pub record Request : Type 0 where
  pub to : Sockaddr
  pub pkt : CtrlPkt

-- One socket, and two constants of the kernel's headers. `none` is an error.
pub record Socket : Type 0 where
  pub af_qipcrtr : ℕ
  pub sockaddr_size : ℕ
  pub getsockname : Option SockName
  pub sendto : Request → Option ℕ

-- 0 and -1.
pub data Status : Type 0 where
  success : Status
  failure : Status

unfoldable pub qrtr_getname : Socket → Option Sockaddr
qrtr_getname sock = elim sock.getsockname [
  | none ↦ none
  | some name ↦
      if not (name.family == sock.af_qipcrtr) || not (name.sl == sock.sockaddr_size)
      then none
      else some name.sq
]

-- What is given to the kernel, and the status.
unfoldable pub qrtr_sendto : Socket → ℕ → ℕ → CtrlPkt → Option Request × Status
qrtr_sendto sock node port pkt =
    let request : Request = record { to = record { node = node; port = port }; pkt = pkt } in
    (some request, elim (sock.sendto request) [ none ↦ failure | some _ ↦ success ])

-- `instance << 8 | version`, of two 16-bit numbers.
abbrev pub packed_instance : ℕ → ℕ → ℕ
packed_instance version inst = bit_or (inst * 2 ^ 8) version

-- The packet of `qrtr_new_server` and `qrtr_new_lookup`.
abbrev pub request_pkt : Host → ℕ → ℕ → ℕ → ℕ → CtrlPkt
request_pkt host cmd service version inst = record zero_pkt {
  cmd = cpu_to_le32 host cmd;
  word0 = cpu_to_le32 host service;
  word1 = cpu_to_le32 host (packed_instance version inst);
}

-- The packet of `qrtr_remove_server` and `qrtr_remove_lookup`.
abbrev pub withdraw_pkt : Host → ℕ → ℕ → ℕ → ℕ → Sockaddr → CtrlPkt
withdraw_pkt host cmd service version inst sq = record {
  cmd = cpu_to_le32 host cmd;
  word0 = cpu_to_le32 host service;
  word1 = cpu_to_le32 host (packed_instance version inst);
  word2 = cpu_to_le32 host sq.node;
  word3 = cpu_to_le32 host sq.port;
}

unfoldable pub qrtr_new_server : Host → Socket → ℕ → ℕ → ℕ → Option Request × Status
qrtr_new_server host sock service version inst = elim (qrtr_getname sock) [
  | none ↦ (none, failure)
  | some sq ↦
      qrtr_sendto sock sq.node port_ctrl (request_pkt host type_new_server service version inst)
]

unfoldable pub qrtr_remove_server : Host → Socket → ℕ → ℕ → ℕ → Option Request × Status
qrtr_remove_server host sock service version inst = elim (qrtr_getname sock) [
  | none ↦ (none, failure)
  | some sq ↦
      qrtr_sendto sock sq.node port_ctrl (withdraw_pkt host type_del_server service version inst sq)
]

unfoldable pub qrtr_new_lookup : Host → Socket → ℕ → ℕ → ℕ → Option Request × Status
qrtr_new_lookup host sock service version inst = elim (qrtr_getname sock) [
  | none ↦ (none, failure)
  | some sq ↦
      qrtr_sendto sock sq.node port_ctrl (request_pkt host type_new_lookup service version inst)
]

unfoldable pub qrtr_remove_lookup : Host → Socket → ℕ → ℕ → ℕ → Option Request × Status
qrtr_remove_lookup host sock service version inst = elim (qrtr_getname sock) [
  | none ↦ (none, failure)
  | some sq ↦
      qrtr_sendto sock sq.node port_ctrl (withdraw_pkt host type_del_lookup service version inst sq)
]

-- `struct qrtr_packet`
pub record Packet : Type 0 where
  pub pkt_type : ℕ
  pub node : ℕ
  pub port : ℕ
  pub service : ℕ
  pub inst : ℕ
  pub version : ℕ
  pub content : List ℕ
  pub data_len : ℕ

-- The `switch` of `qrtr_decode`, after the type is stored.
unfoldable pub decode_ctrl : Host → Packet → CtrlPkt → Packet
decode_ctrl host dest ctrl =
    let cmd = le32_to_cpu host ctrl.cmd in
    let word0 = le32_to_cpu host ctrl.word0 in
    let word1 = le32_to_cpu host ctrl.word1 in
    if cmd == type_bye
    then record dest { pkt_type = cmd; node = word0 }
    else if cmd == type_del_client
    then record dest { pkt_type = cmd; node = word0; port = word1 }
    else if (cmd == type_new_server) || (cmd == type_del_server)
    then record dest {
      pkt_type = cmd;
      node = le32_to_cpu host ctrl.word2;
      port = le32_to_cpu host ctrl.word3;
      service = word0;
      version = bit_and word1 0xff;
      inst = word1 / 2 ^ 8;
    }
    else record dest { pkt_type = 0 }

-- `buf` holds the bytes, and `ctrl` is the packet that they start with. `none` is -EMSGSIZE.
unfoldable pub qrtr_decode : Host → Packet → List ℕ → CtrlPkt → ℕ → Sockaddr → Option Packet
qrtr_decode host dest buf ctrl len sq =
    if sq.port == port_ctrl
    then if ltb len 20 then none else some (decode_ctrl host dest ctrl)
    else some (record dest {
      pkt_type = type_data;
      node = sq.node;
      port = sq.port;
      content = buf;
      data_len = len;
    })
