-- ===== src/Map/Round.antt =====
-- One round of `map_reput` of src/map.c: `map_hash` finds an entry in a map with room, and the item
-- is stored there.
use qrtr.Base.{
  ℕ, suc, ◌+◌, ◌%◌, ◌≤◌, ◌<◌, ◌≡◌, ◌↔◌, ◌⊎◌, refl, sym, ap, ◌∙◌, ◌≢◌, inl, inr, Bool, true, false,
  Option, none, some, arith, ◌==◌, Bool-cases, u32_mod,
}
use qrtr.Map.{
  Slot, empty, deleted, item, Map, at, done, slot_at, is_free, owner, map_hash, map_store,
  reput_loop, map_get,
}
use qrtr.Map.Probe.{
  pos, pos-zero, pos_onto, IsOther, home, IsValid, Holds, IsDistinct, free_slot, to_nat,
}
use qrtr.Map.Search.{visit, Between, HashSpec, exhausted, takes_free, takes_own, hash_loop-HashSpec}
use qrtr.Map.Store.{
  IsTarget, free, own, result, result-IsValid, Holds-other, Holds-self, result-IsDistinct,
  slot-result_self, slot-result_ne, alone,
}
use qrtr.Map.Lookup.{home-lt, get-Holds, find_cases, absent, present, get_absent}

module _ {ℓ} {A : Type ℓ} where
  -- No entry holds the marker of a removed item.
  abbrev pub IsTombless : Map A → Type ℓ
  IsTombless m = (p : ℕ) → slot_at m p ≢ deleted

  -- The table has no marker, or no item of the key: then a write makes no second item.
  abbrev pub IsFresh : Map A → ℕ → Type ℓ
  IsFresh m key = (p : ℕ) → slot_at m p ≡ deleted → (b : A) → Holds m key b → ⊥

  -- What a write of owner `a` under `key` does, in a table that keeps its size.
  pub record Stored (m : Map A) (key : ℕ) (a : A) (old : Option A) (m' : Map A) : Type ℓ where
    pub valid : IsValid m'
    pub size : m'.size ≡ m.size
    pub grows : m'.count ≤ m.count + 1
    pub self : Holds m' key a
    pub others : (k : ℕ) (b : A) → k ≢ key → Holds m' k b ↔ Holds m k b
    pub origin : (k : ℕ) (b : A) → Holds m' k b → ((k ≡ key) × (b ≡ a)) ⊎ Holds m k b
    pub distinct : IsDistinct m → IsFresh m key → IsDistinct m'
    pub tombless : IsTombless m → IsTombless m'
    pub replaces : IsDistinct m → IsFresh m key → old ≡ map_get m key

  room-HashSpec :
      (m : Map A) (key : ℕ) (start : home m key < m.size)
      → m.count < m.size
      → HashSpec m key start 0 (map_hash m key)
  unfolding map_hash
  room-HashSpec m key start room =
      let e : (m.count == m.size) ≡ false = ground arith in
      rw e (
        rw (pos-zero m.size (home m key) start) at
          (hash_loop-HashSpec m key start m.size 0 (omega arith)))

  other_not_free : (key : ℕ) (s : Slot A) → IsOther key s → is_free s ≡ true → ⊥
  other_not_free key empty h e = h
  other_not_free key deleted h e = h
  other_not_free key (item k a) h e = cc

  owner-free : (s : Slot A) → is_free s ≡ true → owner s ≡ none
  owner-free empty e = refl
  owner-free deleted e = refl
  owner-free (item k a) e = cc

  -- The outcome of `map_hash`, in the form that the write needs.
  pub record Hit (m : Map A) (key : ℕ) (start : home m key < m.size) : Type ℓ where
    pub visits : ℕ
    pub lt : visits < m.size
    pub before : Between m key start (IsOther key) 0 visits
    pub kind : IsTarget key (slot_at m (pos m.size (home m key) visits))
    pub count : ℕ
    pub counts : count ≡ m.count + to_nat (is_free (slot_at m (pos m.size (home m key) visits)))
    pub run : map_hash m key ≡ at (pos m.size (home m key) visits) (record m { count = count })

  HashSpec-Hit :
      (m : Map A) (key : ℕ) (start : home m key < m.size)
      → IsValid m
      → m.count < m.size
      → HashSpec m key start 0 (map_hash m key)
      → Hit m key start
  HashSpec-Hit m key start v room (exhausted e b) =
      let (p, lt, f) = free_slot m.table (rw (v.width, ← v.counted) room) in
      let (i, hi, there) = pos_onto m.size (home m key) p start (rw v.width at lt) in
      absurd (other_not_free key (visit m key start i) (b i (omega arith) hi) (rw there f))
  HashSpec-Hit m key start v room (takes_free j lo hi b f e) = record {
    visits = j;
    lt = hi;
    before = b;
    kind = free f;
    count = m.count + 1;
    counts = rw f;
    run =
        e ∙ ap (λ c. at (pos m.size (home m key) j) (record m { count = c })) (mod_small m v room);
  }
    where
      mod_small : (m : Map A) → IsValid m → m.count < m.size → (m.count + 1) % u32_mod ≡ m.count + 1
      mod_small m v room = let s = v.small in omega arith
  HashSpec-Hit m key start v room (takes_own j lo hi b a f e) = record {
    visits = j;
    lt = hi;
    before = b;
    kind = own a f;
    count = m.count;
    counts = rw f (omega arith);
    run = e;
  }

  pub find_target :
      (m : Map A) (key : ℕ) (start : home m key < m.size)
      → IsValid m
      → m.count < m.size
      → Hit m key start
  find_target m key start v room = HashSpec-Hit m key start v room (room-HashSpec m key start room)

module _ {ℓ} {A : Type ℓ} (m : Map A) (key : ℕ) (v : IsValid m) (room : m.count < m.size)
    (a : A) where
  start_lt : home m key < m.size
  start_lt = home-lt m key (omega arith)

  hit : Hit m key start_lt
  hit = find_target m key start_lt v room

  pub round_map : Map A
  round_map = result m key start_lt v hit.visits hit.lt hit.before a hit.count

  pub round_old : Option A
  round_old = owner (slot_at m (pos m.size (home m key) hit.visits))

  -- With room in the map one round is enough, whatever the allocator says.
  pub round_run :
      (calloc : ℕ → Bool) (fuel : ℕ)
      → reput_loop calloc (suc fuel) m key (some a) ≡ done round_old round_map
  unfolding reput_loop map_store round_map round_old
  round_run calloc fuel = rw (hit.run, reput_loop)

  abbrev spot : ℕ
  spot = pos m.size (home m key) hit.visits

  old_is_found :
      (s : IsTarget key (slot_at m spot))
      → IsDistinct m
      → IsFresh m key
      → owner (slot_at m spot) ≡ map_get m key
  old_is_found (own b e) d fresh = ap owner e ∙ sym (get-Holds m key b v d (spot, e))
  old_is_found (free f) d fresh = elim (find_cases m key v) [
    | absent g none_there ↦ owner-free _ f ∙ sym (get_absent m key g)
    | present p b g s ↦
        let same =
          alone m key start_lt v hit.visits hit.lt hit.before a hit.count (free f) d (fresh spot) p
            b s in
        let taken : slot_at m spot ≡ item key b = rw same s in absurd (cc (rw taken at f))
  ]

  pub round-Stored : Stored m key a round_old round_map
  unfolding round_map round_old
  round-Stored = record {
    valid =
        result-IsValid m key start_lt v hit.visits hit.lt hit.before a hit.count hit.kind
          hit.counts;
    size = refl;
    grows = count_le;
    self = Holds-self m key start_lt v hit.visits hit.lt hit.before a hit.count hit.kind;
    others = Holds-other m key start_lt v hit.visits hit.lt hit.before a hit.count hit.kind;
    origin = λ k b (q, h). elim (Bool-cases (spot == q)) [
      | inl f ↦
          let e = slot-result_self m key start_lt v hit.visits hit.lt hit.before a hit.count q f in
          inl (cc (e, h), cc (e, h))
      | inr f ↦ inr (
        q,
        sym (slot-result_ne m key start_lt v hit.visits hit.lt hit.before a hit.count q f) ∙ h,
      )
    ];
    distinct = λ d fresh.
        result-IsDistinct m key start_lt v hit.visits hit.lt hit.before a hit.count hit.kind d
          (fresh spot);
    tombless = λ none_there p e. elim (Bool-cases (spot == p)) [
      | inl f ↦
          cc (slot-result_self m key start_lt v hit.visits hit.lt hit.before a hit.count p f, e)
      | inr f ↦
          none_there p
            (sym (slot-result_ne m key start_lt v hit.visits hit.lt hit.before a hit.count p f) ∙ e)
    ];
    replaces = old_is_found hit.kind;
  }
    where
      count_le : hit.count ≤ m.count + 1
      count_le = rw hit.counts (elim (Bool-cases (is_free (slot_at m spot))) [
        | inl e ↦ rw e (omega arith)
        | inr e ↦ rw e (omega arith)
      ])
