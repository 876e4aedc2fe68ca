-- ===== src/Ns/Main/Started.antt =====
-- The name server that `main` of src/ns.c runs.
use qrtr.Base.{
  ℕ, ◌%◌, ◌<◌, ◌≡◌, refl, ap, ◌∙◌, false, not, ◌&&◌, List, [], ◌∷◌, if◌then◌else◌, u32_mod,
}
use qrtr.Packet.{port_ctrl}
use qrtr.System.{
  ran, left, usage, failed, parent, ◌>>=◌, or_exit, Text, Headers, Bound, bound, in_use, refused,
  Kernel,
}
use qrtr.System.Laws.{IsKernel, >>=-ran, or_exit-ran}
use qrtr.Addr.{qrtr_set_address}
use qrtr.Cfg.{is_wrong}
use qrtr.Cfg.Argument.{Reads, argument-Sets}
use qrtr.Waiter.{waiter_create}
use qrtr.Ns.State.{Ns, Env, Rc, ok, send_error, einval, enoent, say_hello}
use qrtr.Ns.Control.{start, serve}
use qrtr.Ns.Invariant.{IsRegistry}
use qrtr.Ns.Serve.{AreSane, serve-IsRegistry, serve-local_node, start-IsRegistry}
use qrtr.Ns.Main.{
  Options, read_options, arguments_from, argument, set_node, bound_or_exit, open_control,
  add_control, World, main,
}

-- The node number that the arguments ask for: one argument is the number, and without one the number
-- is what it was.
abbrev pub Chosen : (Text → ℕ × Text) → List Text → ℕ → ℕ → Type 0
Chosen strtoul [] old new = new ≡ old
Chosen strtoul (text ∷ []) old new = Reads strtoul text new
Chosen strtoul (text ∷ more ∷ rest) old new = ⊥

-- A name server that has greeted its neighbours and nothing else.
pub greeted-IsRegistry :
    (env : Env) (node : ℕ) → node < u32_mod → IsRegistry (say_hello env (start node)).0
unfolding say_hello
greeted-IsRegistry env node small =
    let r = start-IsRegistry node small in
    record {
      valid = r.valid;
      distinct = r.distinct;
      tombless = r.tombless;
      ids = r.ids;
      servers = r.servers;
      observers = r.observers;
      home = r.home;
    }

greeted-local_node : (env : Env) (node : ℕ) → (say_hello env (start node)).0.local_node ≡ node
unfolding say_hello start
greeted-local_node env node = refl

module _ {K : Type 0} (h : Headers) (kernel : Kernel K) (current : K → ℕ)
    (laws : IsKernel h kernel current) where
  set_node-Chosen :
      (strtoul : Text → ℕ × Text) (first : Text) (rest : List Text) (k k' : K)
      → set_node h kernel strtoul first rest k ≡ ran k'
      → Chosen strtoul rest (current k) (current k')
  unfolding set_node ◌>>=◌
  set_node-Chosen strtoul first [] k k' r = ap current (let same : k' ≡ k = cc r in same)
  set_node-Chosen strtoul first (text ∷ []) k k' r =
      let (k₁, e, r₁) =
        >>=-ran
          (if is_wrong first (strtoul text)
            then left usage
            else qrtr_set_address h kernel ((strtoul text).0 % u32_mod) k)
          _ r in
      let (right, reads) = argument-Sets h kernel current laws strtoul first text k k₁ e in
      let same : k₁ ≡ k' = cc r₁ in rw same at reads
  set_node-Chosen strtoul first (text ∷ more ∷ rest) k k' r =
      let (k₁, e, r₁) =
        >>=-ran
          (if is_wrong first (strtoul text)
            then left usage
            else qrtr_set_address h kernel ((strtoul text).0 % u32_mod) k)
          _ r in
      absurd (cc r₁)

  bound-ran : (b : Bound K) {k : K} → bound_or_exit b ≡ ran k → b ≡ bound k
  bound-ran (bound k) e = cc e
  bound-ran in_use e = absurd (cc e)
  bound-ran refused e = absurd (cc e)

  -- The state of a name server that has greeted its neighbours.
  Opened : Env → K → ℕ × Ns × K → Type 0
  Opened env k opened =
      (current opened.2 ≡ current k) × (opened.1 ≡ (say_hello env (start (current k))).0)

  greeted-ran :
      (fd : ℕ) (greeted : Ns × Rc) (k' : K) (opened : ℕ × Ns × K)
      → elim greeted.1 [ ok _ ↦ ran (fd, greeted.0, k') | _ ↦ left failed ] ≡ ran opened
      → (opened.1 ≡ greeted.0) × (opened.2 ≡ k')
  greeted-ran fd (ns, ok n) k' opened e = (cc e, cc e)
  greeted-ran fd (ns, send_error) k' opened e = absurd (cc e)
  greeted-ran fd (ns, einval) k' opened e = absurd (cc e)
  greeted-ran fd (ns, enoent) k' opened e = absurd (cc e)

  open_control-Opened :
      (env : Env) (k : K) (opened : ℕ × Ns × K)
      → open_control h kernel env k ≡ ran opened
      → Opened env k opened
  unfolding open_control ◌>>=◌ Opened
  open_control-Opened env k opened r =
      let (sock, e₁, r₁) = >>=-ran (or_exit (kernel.socket h.af_qipcrtr h.sock_dgram 0 k)) _ r in
      let (named, e₂, r₂) = >>=-ran (or_exit (kernel.getsockname sock.0 sock.1)) _ r₁ in
      let (k₁, e₃, r₃) =
        >>=-ran
          (bound_or_exit (kernel.bind sock.0 (record named.0.sq { port = port_ctrl }) named.1)) _
          r₂ in
      let (state, last) = greeted-ran sock.0 (say_hello env (start named.0.sq.node)) k₁ opened r₃ in
      let first = laws.socket _ _ _ sock.0 k sock.1 (or_exit-ran _ e₁) in
      let (name, kept) =
        laws.getsockname _ _ sock.0 k sock.1 named.1 named.0 (or_exit-ran _ e₁)
          (or_exit-ran _ e₂) in
      let held = laws.bind sock.0 _ named.1 k₁ (bound-ran _ e₃) in
      (
        ap current last ∙ held ∙ kept ∙ first,
        state ∙ ap (λ n. (say_hello env (start n)).0) (name ∙ first),
      )

  -- Where the kernel has one 32-bit node number, which QRTR sockets have in their names, and a
  -- routing socket of netlink answers a well-formed RTM_NEWADDR request with an acknowledgement,
  -- whose error is 0 only if the number is now the one requested: a name server whose main reaches
  -- the end of its loop has a valid registry there, and its local node is the number of its
  -- argument, which strtoul read to its end and which is below UINT_MAX, or without an argument the
  -- kernel's number of before; for any packets with 32-bit senders and an allocator that gives no
  -- table of 2 ^ 31 entries.
  pub main-Started :
      (world : World) (argv : List Text) (k k' : K) (o : Options) (ns : Ns)
      → AreSane world.packets
      → main h kernel world argv k ≡ ran (o, ns, k')
      → IsRegistry ns
        × Chosen world.strtoul
            (arguments_from (world.getopt argv).1 (world.getopt argv).2)
            (current k)
            ns.local_node
  unfolding main ◌>>=◌ Opened
  main-Started world argv k k' o ns sane r =
      let args = (world.getopt argv).2 in
      let (o₁, e₁, r₁) =
        >>=-ran
          (read_options (world.getopt argv).0
            (record { foreground = false; use_syslog = false; verbose_log = false }))
          _ r in
      let (k₁, e₂, r₂) =
        >>=-ran
          (set_node h kernel world.strtoul (argument (arguments_from 1 args))
            (arguments_from (world.getopt argv).1 args) k)
          _ r₁ in
      let (w, e₃, r₃) = >>=-ran (or_exit (waiter_create world.waiter_memory)) _ r₂ in
      let (control, e₄, r₄) = >>=-ran (open_control h kernel world.greeting k₁) _ r₃ in
      let chosen = set_node-Chosen world.strtoul _ _ k k₁ e₂ in
      let (same, state) = open_control-Opened world.greeting k₁ control e₄ in
      let (ticket, e₅, r₅) =
        >>=-ran
          (let watched = add_control world control.0 w in
            if not o₁.foreground && world.in_parent then left parent else watched)
          _ r₄ in
      let last : ns ≡ serve control.1 world.packets = cc r₅ in
      let r₀ = greeted-IsRegistry world.greeting (current k₁) (laws.range k₁) in
      let registry : IsRegistry control.1 = rw state r₀ in
      let home : ns.local_node ≡ current k₁ =
        ap (λ n. n.local_node) last
        ∙ serve-local_node control.1 world.packets sane registry
        ∙ ap (λ n. n.local_node) state
        ∙ greeted-local_node world.greeting (current k₁) in
      (rw last (serve-IsRegistry control.1 world.packets sane registry), rw home chosen)
