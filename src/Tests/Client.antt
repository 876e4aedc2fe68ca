-- ===== src/Tests/Client.antt =====
-- lib/qrtr.c and src/lookup.c on a local client.
use qrtr.Base.{◌≡◌, refl, inl, some, [], ◌∷◌, map, arith, none, inr, Option-cases}
use qrtr.Packet.{
  Sockaddr, port_ctrl, type_new_server, type_del_server, type_new_lookup, type_del_lookup,
}
use qrtr.Ns.State.{announce_pkt}
use qrtr.Ns.Control.{
  ctrl_cmd_new_server, ctrl_cmd_del_server, ctrl_cmd_new_lookup, ctrl_cmd_del_lookup, dispatch,
}
use qrtr.Ns.Servers.{the_server}
use qrtr.Qrtr.{
  qrtr_new_server, qrtr_remove_server, qrtr_new_lookup, qrtr_remove_lookup, Packet, Socket,
  packed_instance, qrtr_getname, qrtr_decode, Request,
}
use qrtr.Qrtr.Calls.{Fits, server_packet, decode-announce}
use qrtr.Qrtr.Requests.{
  Reaches, calls-dispatch, decode-published, arriving, published-Registered, removed-Withdrawn,
}
use qrtr.Ns.Withdrawals.{Withdrawn}
use qrtr.Lookup.{list_rows}
use qrtr.Lookup.Listing.{replies, row_of, list_rows-replies}
use qrtr.Hash.{hash_u32, hash_u32_injective}
use qrtr.Map.{map_get, map_create}
use qrtr.Ns.Effects.{HasMemory, Registered}
use qrtr.Tests.Data.{env-IsSane, busy_holds, busy-IsRegistry, little, env, remote, watcher, busy}

-- A socket of the client, and a packet that was not yet written.
abbrev socket : Socket
socket = record {
  af_qipcrtr = 42;
  sockaddr_size = 12;
  getsockname = some (record { family = 42; sq = watcher; sl = 12 });
  sendto = λ r. some 20;
}

socket_named : qrtr_getname socket ≡ some watcher
unfolding qrtr_getname
socket_named = refl

abbrev no_packet : Packet
no_packet = record {
  pkt_type = 0;
  node = 0;
  port = 0;
  service = 0;
  inst = 0;
  version = 0;
  content = [];
  data_len = 0;
}

abbrev ctrl_sq : Sockaddr
ctrl_sq = record { node = 1; port = port_ctrl }

decode-published_example :
    qrtr_decode little no_packet []
      (announce_pkt little type_new_server (the_server 9 (packed_instance 2 3) 1 40))
      20
      ctrl_sq
    ≡ some (record no_packet {
      pkt_type = type_new_server;
      node = 1;
      port = 40;
      service = 9;
      version = 2;
      inst = 3;
    })
decode-published_example =
    decode-published little no_packet [] 20 ctrl_sq watcher 9 2 3 (omega arith) (omega arith)
      (omega arith) (omega arith) (omega arith) refl (omega arith)

remote-Fits : Fits remote
remote-Fits = record {
  service = omega arith;
  inst = omega arith;
  node = omega arith;
  port = omega arith;
}

decode-announce_example :
    qrtr_decode little no_packet [] (announce_pkt little type_new_server remote) 20 ctrl_sq
    ≡ some (server_packet no_packet type_new_server 5 257 2 7)
decode-announce_example =
    decode-announce little no_packet [] 20 ctrl_sq type_new_server remote (inl refl) remote-Fits
      refl (omega arith)

list_rows-replies_example :
    list_rows little (replies little (remote ∷ [])) ≡ map row_of (remote ∷ [])
list_rows-replies_example =
    list_rows-replies little (remote ∷ []) refl ((λ e. omega arith), remote-Fits, tt)

calls-dispatch_example :
    Reaches env busy watcher [] type_new_server 9 770
      (qrtr_new_server little socket 9 2 3).0
      (ctrl_cmd_new_server env busy watcher 9 770 0 0)
    × Reaches env busy watcher [] type_del_server 9 770
        (qrtr_remove_server little socket 9 2 3).0
        (ctrl_cmd_del_server env busy watcher 9 770 1 40)
    × Reaches env busy watcher [] type_new_lookup 9 770
        (qrtr_new_lookup little socket 9 2 3).0
        (ctrl_cmd_new_lookup env busy watcher 9 770)
    × Reaches env busy watcher [] type_del_lookup 9 770
        (qrtr_remove_lookup little socket 9 2 3).0
        (ctrl_cmd_del_lookup env busy watcher 9 770)
calls-dispatch_example =
    calls-dispatch env busy watcher [] 9 2 3 (omega arith) (omega arith) (omega arith) socket
      socket_named (omega arith) (omega arith)

-- The local node has no entry yet.
busy_local : map_get busy.nodes (hash_u32 1) ≡ none
busy_local = elim (Option-cases (map_get busy.nodes (hash_u32 1))) [
  | inl e ↦ e
  | inr (n, e) ↦
      let (k, _) = busy_holds (hash_u32 1) n e in
      let same = hash_u32_injective 1 2 (omega arith) (omega arith) k in
      absurd (omega (arith, same))
]

local-HasMemory : HasMemory env busy 1
unfolding map_create
local-HasMemory = record {
  server = refl;
  node = refl;
  nodes = inr refl;
  services = rw busy_local (inr refl);
}

published-Registered_example :
    (r : Request) × ((qrtr_new_server little socket 9 2 3).0 ≡ some r)
    × Registered env busy (the_server 9 770 1 40) (dispatch env busy (arriving watcher [] r.pkt)).0
published-Registered_example =
    published-Registered env busy watcher [] 9 2 3 socket socket_named env-IsSane busy-IsRegistry
      (omega arith) (omega arith) refl (omega arith) (omega arith) (omega arith) (λ e. omega arith)
      (λ e. omega arith) local-HasMemory

removed-Withdrawn_example :
    (r : Request) × ((qrtr_remove_server little socket 9 2 3).0 ≡ some r)
    × Withdrawn env busy 1 40 (dispatch env busy (arriving watcher [] r.pkt)).0
removed-Withdrawn_example =
    removed-Withdrawn env busy watcher [] 9 2 3 socket socket_named env-IsSane busy-IsRegistry
      (omega arith) (omega arith) refl (omega arith) (omega arith) (omega arith)
