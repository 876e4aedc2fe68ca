-- ===== src/Addr.antt =====
-- src/addr.c: `qrtr_set_address`, which gives this node a number through a netlink socket.
pub mod Sets
use Prim.Native.Nat.{bit_or}
use qrtr.Base.{ℕ, ◌+◌, not, ◌&&◌, ◌==◌, if◌then◌else◌}
use qrtr.System.{Run, ran, left, failed, ◌>>=◌, or_exit, Headers, NetlinkRequest, Kernel}

-- The request; `nlmsg_len` first ends the fixed part, where the attribute is put, and then grows by it.
abbrev pub address_request : Headers → ℕ → NetlinkRequest
address_request h addr = record {
  nlmsg_len = h.nlmsg_space h.ifaddrmsg_size + h.rta_length 4;
  nlmsg_flags = bit_or h.nlm_f_request h.nlm_f_ack;
  nlmsg_type = h.rtm_newaddr;
  ifa_family = h.af_qipcrtr;
  attr_at = h.nlmsg_space h.ifaddrmsg_size;
  rta_type = h.ifa_local;
  rta_len = h.rta_length 4;
  rta_data = addr;
}

-- The part that configures the address.
unfoldable pub configure : {K : Type 0} → Headers → Kernel K → ℕ → K → Run K
configure h kernel addr k = do
  opened ← or_exit (kernel.socket h.af_netlink h.sock_dgram h.netlink_route k)
  let m = address_request h addr
  asked ← or_exit (kernel.send opened.0 m m.nlmsg_len opened.1)
  answer ← or_exit (kernel.recv opened.0 asked)
  if (answer.0.nlmsg_type == h.nlmsg_error) && not (answer.0.error == 0)
      then left failed
      else ran (kernel.close opened.0 answer.1)

unfoldable pub qrtr_set_address : {K : Type 0} → Headers → Kernel K → ℕ → K → Run K
qrtr_set_address h kernel addr k = do
  opened ← or_exit (kernel.socket h.af_qipcrtr h.sock_dgram 0 k)
  named ← or_exit (kernel.getsockname opened.0 opened.1)
  let k' = kernel.close opened.0 named.1
  if (named.0.sl == h.sockaddr_size) && (named.0.sq.node == addr)
      then ran k'
      else configure h kernel addr k'
