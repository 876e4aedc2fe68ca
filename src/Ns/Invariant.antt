-- ===== src/Ns/Invariant.antt =====
-- The invariant of the name server of src/ns.c.
use qrtr.Base.{ℕ, ◌<◌, ◌≡◌, ◌≢◌, List, [], ◌∷◌, refl, some, u32_mod}
use qrtr.Hash.{hash_u32}
use qrtr.Map.{Map, item, slot_at, map_get}
use qrtr.Map.Probe.{IsValid, IsDistinct}
use qrtr.Map.Round.{IsTombless}
use qrtr.Map.Rehash.{IsBounded}
use qrtr.Ns.State.{Server, Node, Lookup, Ns, Env}
use qrtr.Ns.Registry.{services_of}

-- A server stands under the hash of its port, on its node, with a service and a port.
pub record IsServer (node_id key : ℕ) (srv : Server) : Type 0 where
  pub keyed : key ≡ hash_u32 srv.port
  pub placed : srv.node ≡ node_id
  pub has_service : srv.service ≢ 0
  pub has_port : srv.port ≢ 0

-- A valid table of the servers of a node.
pub record IsServices (node_id : ℕ) (m : Map Server) : Type 0 where
  pub valid : IsValid m
  pub mine : (q key : ℕ) (srv : Server) → slot_at m q ≡ item key srv → IsServer node_id key srv

-- Observers are clients of the local node.
abbrev pub AreLocal : ℕ → List Lookup → Type 0
AreLocal node_id [] = Unit {0}
AreLocal node_id (l ∷ ls) = (l.sq.node ≡ node_id) × AreLocal node_id ls

pub record IsRegistry (ns : Ns) : Type 0 where
  pub valid : IsValid ns.nodes
  pub distinct : IsDistinct ns.nodes
  pub tombless : IsTombless ns.nodes
  pub ids :
      (key : ℕ) (node : Node)
      → map_get ns.nodes key ≡ some node
      → (node.id < u32_mod) × (key ≡ hash_u32 node.id)
  pub servers : (node_id : ℕ) → node_id < u32_mod → IsServices node_id (services_of ns node_id)
  pub observers : AreLocal ns.local_node ns.lookups
  pub home : ns.local_node < u32_mod

-- The allocator gives no table of 2 ^ 31 entries or more.
pub record IsSane (env : Env) : Type 0 where
  pub nodes : IsBounded env.calloc_nodes
  pub services : IsBounded env.calloc_services

-- Everything of the state but the servers' tables is the same.
pub record Frame (ns ns' : Ns) : Type 0 where
  pub sock : ns'.sock ≡ ns.sock
  pub local_node : ns'.local_node ≡ ns.local_node
  pub lookups : ns'.lookups ≡ ns.lookups
  pub sent : ns'.sent ≡ ns.sent

pub Frame-refl : (ns : Ns) → Frame ns ns
Frame-refl ns = record { sock = refl; local_node = refl; lookups = refl; sent = refl }
