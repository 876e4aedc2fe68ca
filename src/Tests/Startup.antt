-- ===== src/Tests/Startup.antt =====
-- src/addr.c, src/cfg.c and `main` of src/ns.c on a kernel whose state is its node number.
use qrtr.Base.{
  ℕ, ◌+◌, ◌*◌, ◌%◌, ◌≡◌, refl, sym, ap, some, none, Option, List, [], ◌∷◌, true, false, u32_mod,
  arith,
}
use qrtr.System.{ran, ◌>>=◌, Text, NetlinkResponse, Headers, Kernel, bound}
use qrtr.System.Laws.{IsKernel}
use qrtr.Addr.{configure, qrtr_set_address}
use qrtr.Cfg as Tool
use qrtr.Waiter.{waiter_create, waiter_add_fd, waiter_add_null, pollset_create}
use qrtr.Qrtr.{SockName}
use qrtr.Qrtr.Sockets.{Sockets, qrtr_open, Balanced, open-Balanced}
use qrtr.Ns.State.{Ns, say_hello}
use qrtr.Ns.Control.{start, serve}
use qrtr.Ns.Invariant.{IsRegistry}
use qrtr.Ns.Main.{World, Options, arguments_from, read_options, set_node, open_control}
use qrtr.Ns.Main as Server
use qrtr.Ns.Main.Started.{Chosen, main-Started}
use qrtr.Tests.Data.{env, env-IsSane, publish}

abbrev headers : Headers
headers = record {
  af_qipcrtr = 42;
  af_netlink = 16;
  sock_dgram = 2;
  netlink_route = 0;
  nlm_f_request = 1;
  nlm_f_ack = 4;
  rtm_newaddr = 20;
  ifa_local = 2;
  nlmsg_error = 2;
  nlmsg_space = λ n. 16 + n;
  rta_length = λ n. 4 + n;
  sockaddr_size = 12;
  ifaddrmsg_size = 8;
}

abbrev number : ℕ → ℕ
number k = k % u32_mod

-- Every call succeeds, and a request is carried out when it is sent.
abbrev kernel : Kernel ℕ
kernel = record {
  socket = λ family kind protocol k. some (family, k);
  getsockname = λ fd k.
      some (record { family = fd; sq = record { node = number k; port = 16384 }; sl = 12 }, k);
  close = λ fd k. k;
  send = λ fd m len k. some m.rta_data;
  recv = λ fd k. some (record { nlmsg_type = 2; error = 0 }, k);
  bind = λ fd sq k. bound k;
}

named_node : Option (SockName × ℕ) → ℕ
named_node none = 0
named_node (some (name, k)) = name.sq.node

named_state : Option (SockName × ℕ) → ℕ
named_state none = 0
named_state (some (name, k)) = k

reply_type : Option (NetlinkResponse × ℕ) → ℕ
reply_type none = 0
reply_type (some (resp, k)) = resp.nlmsg_type

reply_state : Option (NetlinkResponse × ℕ) → ℕ
reply_state none = 0
reply_state (some (resp, k)) = k

kernel-IsKernel : IsKernel headers kernel number
unfolding named_node named_state reply_type reply_state
kernel-IsKernel = record {
  range = λ k. omega arith;
  socket = λ family kind protocol fd k k' e. let same : k ≡ k' = cc e in ap number (sym same);
  getsockname = λ kind protocol fd k₀ k k' name s e.
      let same : name.sq.node ≡ number k = ap named_node (sym e) in
      let kept : k ≡ k' = ap named_state e in (same, ap number (sym kept));
  close = λ fd k. refl;
  bind = λ fd sq k k' e. let same : k ≡ k' = cc e in ap number (sym same);
  acknowledged = λ fd len addr m k₀ k k₁ k₂ resp o new s r. ap reply_type (sym r);
  carried_out = λ fd len addr m k₀ k k₁ k₂ resp o small new s r ack fine.
      let sent : m.rta_data ≡ k₁ = cc s in
      let last : k₁ ≡ k₂ = ap reply_state r in
      let value = new.value in omega (arith, sent, last, value, small);
}

-- A text of decimal digits, without the sign and the spaces that strtoul skips.
abbrev digits : ℕ → Text → ℕ × Text
digits n [] = (n, [])
digits n (c ∷ cs) = digits (n * 10 + (c % 16)) cs

abbrev seven : Text
seven = b'7' ∷ []

-- Option f and the number 7.
abbrev world : World
world = record {
  strtoul = digits 0;
  getopt = λ argv. (b'f' ∷ [], 2, argv);
  waiter_memory = true;
  ticket = some 64;
  pollset_memory = true;
  in_parent = true;
  greeting = env;
  packets = (env, some publish) ∷ (env, none) ∷ [];
}

abbrev arguments : List Text
arguments = [] ∷ (b'-' ∷ b'f' ∷ []) ∷ seven ∷ []

abbrev in_foreground : Options
in_foreground = record { foreground = true; use_syslog = false; verbose_log = false }

abbrev served : Ns
served = serve (say_hello env (start 7)).0 world.packets

server_run : Server.main headers kernel world arguments 1 ≡ ran (in_foreground, served, 7)
unfolding Server.main read_options set_node open_control waiter_create waiter_add_fd waiter_add_null
    pollset_create qrtr_set_address configure say_hello ◌>>=◌
server_run = refl

main-Started_example :
    IsRegistry served × Chosen (digits 0) (arguments_from 2 arguments) 1 served.local_node
main-Started_example =
    main-Started headers kernel number kernel-IsKernel world arguments 1 7 in_foreground served
      (env-IsSane, omega arith, (env-IsSane, tt, tt)) server_run

-- A kernel that refuses the port.
abbrev sockets : Sockets
sockets = record { socket = some 3; setsockopt = λ fd. true; bind = λ fd sq. false }

open-Balanced_example : Balanced 9 (qrtr_open sockets 9)
open-Balanced_example = open-Balanced sockets 9
