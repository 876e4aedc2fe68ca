-- ===== src/Ns/Serve.antt =====
-- The control port and the main loop of src/ns.c, for one packet and for any number.
use qrtr.Base.{
  ℕ, ◌<◌, ◌≡◌, ◌≢◌, refl, ◌∙◌, inl, inr, Bool, true, false, Option, none, some, List, [], ◌∷◌,
  arith, ltb, ◌==◌, if◌then◌else◌, Bool-cases, length, u32_mod,
}
use qrtr.Hash.{hash_u32}
use qrtr.Map.{map_create}
use qrtr.Map.Remove.{get_create}
use qrtr.Map.Rehash.{blank-IsValid}
use qrtr.Ns.State.{Ns, Env, Node}
use qrtr.Ns.Registry.{services_of}
use qrtr.Ns.Control.{Datagram, ctrl_port_fn, start, serve}
use qrtr.Ns.Invariant.{IsServices, IsRegistry, IsSane}
use qrtr.Ns.Acts.{Acts, Acts-refl}
use qrtr.Ns.Handlers.{dispatch-Acts}

-- The socket is closed.
closed-Acts : (ns : Ns) (node_id : ℕ) → IsRegistry ns → Acts ns node_id (record ns { sock = false })
closed-Acts ns node_id r = record {
  registry = record {
    valid = r.valid;
    distinct = r.distinct;
    tombless = r.tombless;
    ids = r.ids;
    servers = r.servers;
    observers = r.observers;
    home = r.home;
  };
  local_node = refl;
  others = λ j h ne. refl;
}

port-Acts :
    (env : Env) (ns : Ns) (d : Datagram)
    → IsSane env
    → IsRegistry ns
    → d.from.node < u32_mod
    → Acts ns d.from.node (ctrl_port_fn env ns (some d))
unfolding ctrl_port_fn
port-Acts env ns d sane r small = elim (Bool-cases (length d.received == 0)) [
  | inl e ↦ rw e (closed-Acts ns d.from.node r)
  | inr e ↦ rw e (elim (Bool-cases (ltb (length d.received) 4)) [
    | inl f ↦ rw f (Acts-refl ns d.from.node r)
    | inr f ↦ rw f (dispatch-Acts env ns sane r d.from small d.received d.msg)
  ])
]

-- A node number is 32 bits wide.
abbrev pub IsAddressed : Option Datagram → Type 0
IsAddressed none = Unit {0}
IsAddressed (some d) = d.from.node < u32_mod

pub port_fn-IsRegistry :
    (env : Env) (ns : Ns) (d : Option Datagram)
    → IsSane env
    → IsAddressed d
    → IsRegistry ns
    → IsRegistry (ctrl_port_fn env ns d)
unfolding ctrl_port_fn
port_fn-IsRegistry env ns none sane h r = (closed-Acts ns 0 r).registry
port_fn-IsRegistry env ns (some d) sane h r = (port-Acts env ns d sane r h).registry

-- A packet from one 32-bit node leaves the server table of every other 32-bit node as it was,
-- whatever the packet says, if the registry was valid and the allocator gives no table of 2 ^ 31
-- entries.
pub services_isolated :
    (env : Env) (ns : Ns) (d : Datagram) (j : ℕ)
    → IsSane env
    → IsRegistry ns
    → d.from.node < u32_mod
    → j < u32_mod
    → j ≢ d.from.node
    → services_of (ctrl_port_fn env ns (some d)) j ≡ services_of ns j
services_isolated env ns d j sane r small h ne = (port-Acts env ns d sane r small).others j h ne

-- Every packet comes with a sane environment and a 32-bit address.
abbrev pub AreSane : List (Env × Option Datagram) → Type 0
AreSane [] = Unit {0}
AreSane ((env, d) ∷ ds) = IsSane env × IsAddressed d × AreSane ds

pub empty-IsServices : (node_id : ℕ) → IsServices node_id map_create
unfolding map_create
empty-IsServices node_id = record {
  valid = blank-IsValid 0 (omega arith);
  mine = λ q key srv h. absurd (cc h);
}

-- The name server starts with a valid registry.
pub start-IsRegistry : (local_node : ℕ) → local_node < u32_mod → IsRegistry (start local_node)
unfolding start map_create
start-IsRegistry local_node h = record {
  valid = blank-IsValid 0 (omega arith);
  distinct = λ k a b p q f g. absurd (cc f);
  tombless = λ p f. cc f;
  ids = λ key node f. absurd (cc (f, get_create {A = Node} key));
  servers = λ j hj. rw (get_create {A = Node} (hash_u32 j)) (empty-IsServices j);
  observers = tt;
  home = h;
}

if-IsRegistry :
    (b : Bool) (x y : Ns) → IsRegistry x → IsRegistry y → IsRegistry (if b then x else y)
if-IsRegistry true x y h g = h
if-IsRegistry false x y h g = g

pub serve-IsRegistry :
    (ns : Ns) (ds : List (Env × Option Datagram))
    → AreSane ds
    → IsRegistry ns
    → IsRegistry (serve ns ds)
unfolding serve
serve-IsRegistry ns [] h r = r
serve-IsRegistry ns ((env, d) ∷ ds) (sane, addressed, rest) r =
    if-IsRegistry ns.sock _ _
      (serve-IsRegistry (ctrl_port_fn env ns d) ds rest
        (port_fn-IsRegistry env ns d sane addressed r))
      r

port_fn-local_node :
    (env : Env) (ns : Ns) (d : Option Datagram)
    → IsSane env
    → IsAddressed d
    → IsRegistry ns
    → (ctrl_port_fn env ns d).local_node ≡ ns.local_node
unfolding ctrl_port_fn
port_fn-local_node env ns none sane h r = refl
port_fn-local_node env ns (some d) sane h r = (port-Acts env ns d sane r h).local_node

if-local_node :
    (b : Bool) (n : ℕ) (x y : Ns)
    → x.local_node ≡ n
    → y.local_node ≡ n
    → (if b then x else y).local_node ≡ n
if-local_node true n x y h g = h
if-local_node false n x y h g = g

pub serve-local_node :
    (ns : Ns) (ds : List (Env × Option Datagram))
    → AreSane ds
    → IsRegistry ns
    → (serve ns ds).local_node ≡ ns.local_node
unfolding serve
serve-local_node ns [] h r = refl
serve-local_node ns ((env, d) ∷ ds) (sane, addressed, rest) r =
    if-local_node ns.sock ns.local_node _ _
      (serve-local_node (ctrl_port_fn env ns d) ds rest
          (port_fn-IsRegistry env ns d sane addressed r)
        ∙ port_fn-local_node env ns d sane addressed r)
      refl

-- A name server that starts on a 32-bit node and handles any packets, in an environment that
-- allocates no table of 2 ^ 31 entries and with 32-bit sender nodes, keeps a valid registry: valid
-- tables, one node for each number, each server under the hash of its port on its own node with a
-- service and a port, and only local observers.
pub serve-start-IsRegistry :
    (local_node : ℕ) (ds : List (Env × Option Datagram))
    → local_node < u32_mod
    → AreSane ds
    → IsRegistry (serve (start local_node) ds)
serve-start-IsRegistry local_node ds h sane =
    serve-IsRegistry (start local_node) ds sane (start-IsRegistry local_node h)
