-- ===== src/Tests/Data.antt =====
-- Concrete machines, tables, registries and packets.
use qrtr.Base.{
  ℕ, zero, suc, ◌^◌, ◌≡◌, refl, sym, ◌∙◌, inl, inr, Bool, true, some, [], ◌∷◌, arith, ltb,
  Option-cases, replicate,
}
use qrtr.Hash.{hash_u32, hash_u32_injective}
use qrtr.Map.{Map, item, slot_at, map_get}
use qrtr.Map.Probe.{IsValid, IsDistinct}
use qrtr.Map.Round.{IsTombless}
use qrtr.Map.Rehash.{IsBounded}
use qrtr.Map.Lookup.{Holds-of_get}
use qrtr.Packet.{Host, Sockaddr, zero_pkt, port_ctrl, type_bye}
use qrtr.Ns.State.{Server, Node, Ns, Env}
use qrtr.Ns.Control.{Datagram}
use qrtr.Ns.Invariant.{IsServices, IsRegistry, IsSane}
use qrtr.Ns.Serve.{empty-IsServices}
use qrtr.Ns.Servers.{the_server}

-- A little-endian machine whose memory ends at 2 ^ 31 bytes.
abbrev pub little : Host
little = record {
  htole32 = λ x. x;
  le32toh = λ x. x;
  le32toh-htole32 = λ x h. refl;
  le32toh-zero = refl;
  htole32-lt = λ x h. h;
}

abbrev pub calloc : ℕ → Bool
calloc n = ltb n (2 ^ 31)

pub calloc-IsBounded : IsBounded calloc
calloc-IsBounded n e = ground arith

abbrev pub env : Env
env = record {
  host = little;
  sendto = λ m. some 20;
  calloc_node = λ n. true;
  calloc_nodes = calloc;
  calloc_server = true;
  calloc_services = calloc;
  calloc_lookup = true;
  stack2 = 11;
  stack3 = 12;
}

pub env-IsSane : IsSane env
env-IsSane = record { nodes = calloc-IsBounded; services = calloc-IsBounded }

-- A table of one entry, which is used.
module _ {A : Type 0} (k : ℕ) (a : A) where
  abbrev pub single : Map A
  single = record { size = 1; count = 1; table = item k a ∷ [] }

  pub single_slot : (p j : ℕ) (b : A) → slot_at single p ≡ item j b → (p ≡ 0) × (j ≡ k) × (b ≡ a)
  single_slot zero j b h = (refl, cc h, cc h)
  single_slot (suc p) j b h = absurd (cc h)

  pub single-IsValid : IsValid single
  single-IsValid = record {
    width = refl;
    small = omega arith;
    counted = refl;
    reachable = λ j b i n hi hn h. absurd (omega arith);
  }

  pub single-IsDistinct : IsDistinct single
  single-IsDistinct j b c p q g h =
      let (e, _, _) = single_slot p j b g in let (f, _, _) = single_slot q j c h in e ∙ sym f

  pub single-IsTombless : IsTombless single
  single-IsTombless zero h = cc h
  single-IsTombless (suc p) h = cc h

-- A registry with one server, of node 2, and one observer on the local node 1.
abbrev pub remote : Server
remote = the_server 5 257 2 7

abbrev pub node2 : Node
node2 = record { id = 2; services = single (hash_u32 7) remote }

abbrev pub watcher : Sockaddr
watcher = record { node = 1; port = 40 }

abbrev pub busy : Ns
busy = record {
  sock = true;
  local_node = 1;
  lookups = record { service = 5; inst = 0; sq = watcher } ∷ [];
  nodes = single (hash_u32 2) node2;
  sent = [];
}

pub busy-IsServices : IsServices 2 node2.services
busy-IsServices = record {
  valid = single-IsValid (hash_u32 7) remote;
  mine = λ q key srv h.
      let (_, k, e) = single_slot (hash_u32 7) remote q key srv h in
      rw (k, e)
        (record {
          keyed = refl;
          placed = refl;
          has_service = λ b. omega arith;
          has_port = λ b. omega arith;
        });
}

pub busy_holds :
    (key : ℕ) (n : Node) → map_get busy.nodes key ≡ some n → (key ≡ hash_u32 2) × (n ≡ node2)
busy_holds key n e =
    let (q, h) = Holds-of_get busy.nodes key n (single-IsValid (hash_u32 2) node2) e in
    let (_, k, same) = single_slot (hash_u32 2) node2 q key n h in (k, same)

pub busy-IsRegistry : IsRegistry busy
busy-IsRegistry = record {
  valid = single-IsValid (hash_u32 2) node2;
  distinct = single-IsDistinct (hash_u32 2) node2;
  tombless = single-IsTombless (hash_u32 2) node2;
  ids = λ key n e. let (k, same) = busy_holds key n e in rw (k, same) (omega arith, refl);
  servers = λ j small. elim (Option-cases (map_get busy.nodes (hash_u32 j))) [
    | inl e ↦ rw e (empty-IsServices j)
    | inr (n, e) ↦
        let (k, same) = busy_holds (hash_u32 j) n e in
        let two : j ≡ 2 = hash_u32_injective j 2 small (omega arith) k in
        rw (e, same, two) busy-IsServices
  ];
  observers = (refl, tt);
  home = omega arith;
}

-- Packets: a client publishes service 9, and node 2 publishes service 6 and then leaves.
abbrev pub publish : Datagram
publish = record {
  from = watcher;
  received = replicate 20 0;
  msg = record { cmd = 4; word0 = 9; word1 = 3; word2 = 0; word3 = 0 };
}

abbrev pub leave : Datagram
leave = record {
  from = record { node = 2; port = port_ctrl };
  received = replicate 20 0;
  msg = record zero_pkt { cmd = type_bye };
}
