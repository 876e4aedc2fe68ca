-- ===== src/Packet.antt =====
-- include/libqrtr.h and include/ns.h: addresses, control packets and byte order. `htole32` and
-- `le32toh` belong to the C library, so a `Host` gives them with their documented behaviour.
use qrtr.Base.{ℕ, ◌<◌, ◌≡◌, u32_mod}

pub record Host : Type 0 where
  pub htole32 : ℕ → ℕ
  pub le32toh : ℕ → ℕ
  pub le32toh-htole32 : (x : ℕ) → x < u32_mod → le32toh (htole32 x) ≡ x
  pub le32toh-zero : le32toh 0 ≡ 0
  pub htole32-lt : (x : ℕ) → x < u32_mod → htole32 x < u32_mod

abbrev pub cpu_to_le32 : Host → ℕ → ℕ
cpu_to_le32 host x = host.htole32 x

abbrev pub le32_to_cpu : Host → ℕ → ℕ
le32_to_cpu host x = host.le32toh x

-- `struct sockaddr_qrtr`; its family is always AF_QIPCRTR.
pub record Sockaddr : Type 0 where
  pub node : ℕ
  pub port : ℕ

-- `struct qrtr_ctrl_pkt`: the command and the four words of the union, as they stand in memory.
-- `server` reads the words as service, instance, node and port, `client` the first two as node and
-- port.
pub record CtrlPkt : Type 0 where
  pub cmd : ℕ
  pub word0 : ℕ
  pub word1 : ℕ
  pub word2 : ℕ
  pub word3 : ℕ

-- `memset(&pkt, 0, sizeof(pkt))`
abbrev pub zero_pkt : CtrlPkt
zero_pkt = record { cmd = 0; word0 = 0; word1 = 0; word2 = 0; word3 = 0 }

abbrev pub node_bcast : ℕ
node_bcast = 0xffffffff

abbrev pub port_ctrl : ℕ
port_ctrl = 0xfffffffe

-- `enum qrtr_pkt_type`
abbrev pub type_data : ℕ
type_data = 1

abbrev pub type_hello : ℕ
type_hello = 2

abbrev pub type_bye : ℕ
type_bye = 3

abbrev pub type_new_server : ℕ
type_new_server = 4

abbrev pub type_del_server : ℕ
type_del_server = 5

abbrev pub type_del_client : ℕ
type_del_client = 6

abbrev pub type_resume_tx : ℕ
type_resume_tx = 7

abbrev pub type_exit : ℕ
type_exit = 8

abbrev pub type_ping : ℕ
type_ping = 9

abbrev pub type_new_lookup : ℕ
type_new_lookup = 10

abbrev pub type_del_lookup : ℕ
type_del_lookup = 11
