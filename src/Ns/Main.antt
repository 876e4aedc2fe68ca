-- ===== src/Ns/Main.antt =====
-- `main` of src/ns.c: options, the node's number, the control socket, and the loop. `getopt` gives the
-- options in order, `optind`, and the arguments as it left them; a ticket's callback is `ctrl_port_fn`,
-- and the log is left out.
pub mod Started
use qrtr.Base.{
  ℕ, zero, suc, ◌%◌, Bool, true, false, not, ◌&&◌, Option, none, some, List, [], ◌∷◌, ◌==◌,
  if◌then◌else◌, u32_mod,
}
use qrtr.Packet.{Sockaddr, port_ctrl}
use qrtr.System.{
  Exit, usage, failed, dormant, parent, null_write, Run, ran, left, ◌>>=◌, or_exit, Text, Headers,
  Bound, bound, in_use, refused, Kernel,
}
use qrtr.Addr.{qrtr_set_address}
use qrtr.Cfg.{is_wrong}
use qrtr.Waiter.{Waiter, waiter_create, waiter_add_fd}
use qrtr.Ns.State.{Ns, Env, Rc, ok, send_error, einval, enoent, say_hello}
use qrtr.Ns.Control.{Datagram, start, serve}

pub record Options : Type 0 where
  pub foreground : Bool
  pub use_syslog : Bool
  pub verbose_log : Bool

-- The loop over `getopt(argc, argv, "fsv")`.
unfoldable pub read_options : List ℕ → Options → Run Options
read_options [] o = ran o
read_options (c ∷ cs) o =
    let f = read_options cs (record o { foreground = true }) in
    let s = read_options cs (record o { use_syslog = true }) in
    let v = read_options cs (record o { verbose_log = true }) in
    if c == b'f' then f else if c == b's' then s else if c == b'v' then v else left usage

-- `argv[n]`, and the arguments from there.
abbrev pub arguments_from : ℕ → List Text → List Text
arguments_from zero argv = argv
arguments_from (suc n) [] = []
arguments_from (suc n) (a ∷ argv) = arguments_from n argv

abbrev pub argument : List Text → Text
argument [] = []
argument (a ∷ argv) = a

-- The rest of the arguments. The text that is tested for being empty is the first argument, not the
-- one that is read.
unfoldable pub set_node :
    {K : Type 0} → Headers → Kernel K → (Text → ℕ × Text) → Text → List Text → K → Run K
set_node h kernel strtoul first [] k = ran k
set_node h kernel strtoul first (text ∷ rest) k = do
  k' ←
      let set = qrtr_set_address h kernel ((strtoul text).0 % u32_mod) k in
      if is_wrong first (strtoul text) then left usage else set
  elim rest [ [] ↦ ran k' | _ ∷ _ ↦ left usage ]

abbrev pub bound_or_exit : {K : Type 0} → Bound K → Run K
bound_or_exit (bound k) = ran k
bound_or_exit in_use = left dormant
bound_or_exit refused = left failed

-- The control socket with its descriptor, and the greeting, for the local node of the socket's name.
unfoldable pub open_control : {K : Type 0} → Headers → Kernel K → Env → K → Run (ℕ × Ns × K)
open_control h kernel env k = do
  opened ← or_exit (kernel.socket h.af_qipcrtr h.sock_dgram 0 k)
  named ← or_exit (kernel.getsockname opened.0 opened.1)
  k' ← bound_or_exit (kernel.bind opened.0 (record named.0.sq { port = port_ctrl }) named.1)
  let greeted = say_hello env (start named.0.sq.node)
  elim greeted.1 [ ok _ ↦ ran (opened.0, greeted.0, k') | _ ↦ left failed ]

-- What `main` is given by its environment: the C library, the memory of its waiter, of the ticket and of
-- the pollset, whether `fork` returns in the parent, and each packet that arrives.
pub record World : Type 0 where
  pub strtoul : Text → ℕ × Text
  pub getopt : List Text → List ℕ × ℕ × List Text
  pub waiter_memory : Bool
  pub ticket : Option ℕ
  pub pollset_memory : Bool
  pub in_parent : Bool
  pub greeting : Env
  pub packets : List (Env × Option Datagram)

-- The ticket for the control socket: `waiter_ticket_callback` writes through the pointer unchecked.
abbrev pub add_control : World → ℕ → Waiter → Run ℕ
add_control world fd w = elim (waiter_add_fd world.ticket world.pollset_memory fd w).1 [
  | none ↦ left null_write
  | some ticket ↦ ran ticket
]

-- The state of the name server after its loop.
unfoldable pub main :
    {K : Type 0} → Headers → Kernel K → World → List Text → K → Run (Options × Ns × K)
main h kernel world argv k = do
  let (options, optind, args) = world.getopt argv
  o ← read_options options (record { foreground = false; use_syslog = false; verbose_log = false })
  k₁ ←
      set_node h kernel world.strtoul (argument (arguments_from 1 args))
        (arguments_from optind args) k
  w ← or_exit (waiter_create world.waiter_memory)
  control ← open_control h kernel world.greeting k₁
  ticket ←
      let watched = add_control world control.0 w in
      if not o.foreground && world.in_parent then left parent else watched
  ran (o, serve control.1 world.packets, control.2)
