-- ===== src/Map/Reput.antt =====
-- `map_reput` of src/map.c as an update of the abstract map that `map_get` reads.
use qrtr.Base.{
  ℕ, ◌+◌, ◌%◌, ◌≤◌, ◌<◌, ◌≡◌, ◌↔◌, ◌⊎◌, sym, ◌∙◌, ◌≢◌, inl, inr, Bool, true, false, Option, none,
  some, arith, ◌==◌, if◌then◌else◌, Bool-cases, Option-cases, u32_mod,
}
use qrtr.Map.{Map, Put, done, no_memory, map_hash, map_rehash, map_reput, reput_loop, map_get}
use qrtr.Map.Probe.{IsValid, Holds, IsDistinct, live-le-length}
use qrtr.Map.Lookup.{Holds-of_get, not-Holds-of_get, get-Holds}
use qrtr.Map.Round.{IsTombless, IsFresh, round_map, round_old, round_run, round-Stored}
use qrtr.Map.Rehash.{IsBounded, rehash-Rehashed}

module _ {ℓ} {A : Type ℓ} where
  -- The map has a free entry, or a larger table can be allocated.
  abbrev pub HasRoom : (ℕ → Bool) → Map A → Type 0
  HasRoom calloc m = (m.count < m.size) ⊎ (calloc (m.size + 256) ≡ true)

  -- What `map_reput` does where it succeeds.
  pub record Puts (m : Map A) (key : ℕ) (a : A) (old : Option A) (m' : Map A) : Type ℓ where
    pub valid : IsValid m'
    pub self : Holds m' key a
    pub others : IsDistinct m → (k : ℕ) (b : A) → k ≢ key → Holds m' k b ↔ Holds m k b
    pub origin : (k : ℕ) (b : A) → Holds m' k b → ((k ≡ key) × (b ≡ a)) ⊎ Holds m k b
    pub distinct : IsDistinct m → IsFresh m key → IsDistinct m'
    pub tombless : IsTombless m → IsTombless m'
    pub replaces : IsDistinct m → IsFresh m key → old ≡ map_get m key

  -- Maps that hold the same items read alike.
  pub get_congr :
      (m n : Map A) (k j : ℕ)
      → IsValid m
      → IsDistinct m
      → IsValid n
      → IsDistinct n
      → ((a : A) → Holds m k a ↔ Holds n j a)
      → map_get m k ≡ map_get n j
  get_congr m n k j v d w e same = elim (Option-cases (map_get n j)) [
    | inr (a, g) ↦ get-Holds m k a v d ((same a).1 (Holds-of_get n j a w g)) ∙ sym g
    | inl g ↦ elim (Option-cases (map_get m k)) [
      | inl f ↦ f ∙ sym g
      | inr (b, f) ↦ absurd (not-Holds-of_get n j b w g ((same b).0 (Holds-of_get m k b v f)))
    ]
  ]

  full-reput :
      (calloc : ℕ → Bool) (m m₁ : Map A) (key : ℕ) (a : A) (r : Put A)
      → m.count ≡ m.size
      → map_rehash calloc (reput_loop calloc 1) m ≡ done none m₁
      → reput_loop calloc 1 m₁ key (some a) ≡ r
      → map_reput calloc m key (some a) ≡ r
  unfolding map_reput reput_loop map_hash
  full-reput calloc m m₁ key a r e run last =
      let t : (m.count == m.size) ≡ true = ground arith in rw (t, reput_loop, run) last

  -- A full map whose table cannot grow is left as it was, and the code returns a negative code.
  pub full_no_memory :
      (calloc : ℕ → Bool) (m : Map A) (key : ℕ) (a : A)
      → m.count ≡ m.size
      → calloc ((m.size + 256) % u32_mod) ≡ false
      → map_reput calloc m key (some a) ≡ no_memory m
  unfolding map_reput reput_loop map_hash map_rehash
  full_no_memory calloc m key a e refused =
      let t : (m.count == m.size) ≡ true = ground arith in rw (t, reput_loop, map_rehash, refused)

  full-Puts :
      (calloc : ℕ → Bool) (m : Map A) (key : ℕ) (a : A)
      → IsBounded calloc
      → IsValid m
      → m.count ≡ m.size
      → calloc (m.size + 256) ≡ true
      → (old : Option A) × (m' : Map A) × (map_reput calloc m key (some a) ≡ done old m')
        × Puts m key a old m'
  full-Puts calloc m key a bounded v e granted =
      let (m₁, run, t) = rehash-Rehashed calloc 0 m bounded v granted in
      let st = round-Stored m₁ key t.valid t.room a in
      (
        round_old m₁ key t.valid t.room a,
        round_map m₁ key t.valid t.room a,
        full-reput calloc m m₁ key a _ e run (round_run m₁ key t.valid t.room a calloc 0),
        record {
          valid = st.valid;
          self = st.self;
          others = λ d k b ne. (
            λ h. (t.holds d k b).0 ((st.others k b ne).0 h),
            λ h. (st.others k b ne).1 ((t.holds d k b).1 h),
          );
          origin = λ k b h. elim (st.origin k b h) [ inl e ↦ inl e | inr g ↦ inr (t.origin k b g) ];
          distinct = λ d fresh. st.distinct t.distinct (λ p f b h. t.tombless p f);
          tombless = λ h. st.tombless t.tombless;
          replaces = λ d fresh.
              st.replaces t.distinct (λ p f b h. t.tombless p f)
              ∙ get_congr m₁ m key key t.valid t.distinct v d (t.holds d key);
        },
      )

  room-Puts :
      (calloc : ℕ → Bool) (m : Map A) (key : ℕ) (a : A) (v : IsValid m) (room : m.count < m.size)
      → Puts m key a (round_old m key v room a) (round_map m key v room a)
  room-Puts calloc m key a v room =
      let st = round-Stored m key v room a in
      record {
        valid = st.valid;
        self = st.self;
        others = λ d. st.others;
        origin = st.origin;
        distinct = st.distinct;
        tombless = st.tombless;
        replaces = st.replaces;
      }

  room-reput :
      (calloc : ℕ → Bool) (m : Map A) (key : ℕ) (a : A) (v : IsValid m) (room : m.count < m.size)
      → map_reput calloc m key (some a) ≡ done (round_old m key v room a) (round_map m key v room a)
  unfolding map_reput
  room-reput calloc m key a v room = round_run m key v room a calloc 1

  -- Where there is room, `map_reput` ends after at most two rounds, succeeds, and stores the item.
  pub reput-Puts :
      (calloc : ℕ → Bool) (m : Map A) (key : ℕ) (a : A)
      → IsBounded calloc
      → IsValid m
      → HasRoom calloc m
      → (old : Option A) × (m' : Map A) × (map_reput calloc m key (some a) ≡ done old m')
        × Puts m key a old m'
  reput-Puts calloc m key a bounded v room = elim (Bool-cases (m.count == m.size)) [
    | inl e ↦ full-Puts calloc m key a bounded v (ground arith) (growth room (ground arith))
    | inr e ↦
        let le : m.count ≤ m.size = omega (arith, live-le-length m.table, v.width, v.counted) in
        let lt : m.count < m.size = ground arith in
        (_, _, room-reput calloc m key a v lt, room-Puts calloc m key a v lt)
  ]
    where
      growth : HasRoom calloc m → m.count ≡ m.size → calloc (m.size + 256) ≡ true
      growth (inl lt) e = absurd (omega arith)
      growth (inr g) e = g

  -- The effect in terms of `map_get`: the old owner is returned, and one key is updated.
  pub record Updates (m : Map A) (key : ℕ) (a : A) (m' : Map A) : Type ℓ where
    pub valid : IsValid m'
    pub distinct : IsDistinct m'
    pub reads : (k : ℕ) → map_get m' k ≡ (if k == key then some a else map_get m k)

  pub Puts-Updates :
      (m : Map A) (key : ℕ) (a : A) (old : Option A) (m' : Map A)
      → IsValid m
      → IsDistinct m
      → IsFresh m key
      → Puts m key a old m'
      → Updates m key a m'
  Puts-Updates m key a old m' v d fresh t = record {
    valid = t.valid;
    distinct = t.distinct d fresh;
    reads = λ k. elim (Bool-cases (k == key)) [
      | inl e ↦
          let same : k ≡ key = ground arith in
          rw (e, same) (get-Holds m' key a t.valid (t.distinct d fresh) t.self)
      | inr e ↦
          let other : k ≢ key = ground arith in
          rw e (get_congr m' m k k t.valid (t.distinct d fresh) v d (λ b. t.others d k b other))
    ];
  }

  -- In a valid map with no key twice, where the key is absent or no entry is marked deleted, and
  -- which has a free entry or can be given a larger table of fewer than 2 ^ 31 entries, map_reput
  -- ends within two rounds, returns the owner that map_get gave for the key, and leaves a valid map
  -- with no key twice that reads as the old one but for the key, which reads as the new owner.
  pub reput-Updates :
      (calloc : ℕ → Bool) (m : Map A) (key : ℕ) (a : A)
      → IsBounded calloc
      → IsValid m
      → IsDistinct m
      → IsFresh m key
      → HasRoom calloc m
      → (m' : Map A) × (map_reput calloc m key (some a) ≡ done (map_get m key) m')
        × Updates m key a m'
  reput-Updates calloc m key a bounded v d fresh room =
      let (old, m', run, t) = reput-Puts calloc m key a bounded v room in
      (m', rw (t.replaces d fresh) at run, Puts-Updates m key a old m' v d fresh t)

  -- In a valid map, where no table of 2 ^ 31 entries can be allocated, map_reput always ends: it
  -- stores the item as an update, or it reports that it has no memory, and then the map was full and
  -- is as it was.
  pub reput_cases :
      (calloc : ℕ → Bool) (m : Map A) (key : ℕ) (a : A)
      → IsBounded calloc
      → IsValid m
      → ((old : Option A) × (m' : Map A) × (map_reput calloc m key (some a) ≡ done old m')
          × Puts m key a old m')
        ⊎ ((map_reput calloc m key (some a) ≡ no_memory m) × (m.count ≡ m.size))
  reput_cases calloc m key a bounded v = elim (Bool-cases (m.count == m.size)) [
    | inr e ↦
        let le : m.count ≤ m.size = omega (arith, live-le-length m.table, v.width, v.counted) in
        inl (reput-Puts calloc m key a bounded v (inl (ground arith)))
    | inl e ↦ elim (Bool-cases (calloc (m.size + 256))) [
      | inl granted ↦ inl (reput-Puts calloc m key a bounded v (inr granted))
      | inr refused ↦
          let small = v.small in
          let fits : (m.size + 256) % u32_mod ≡ m.size + 256 = omega arith in
          inr (full_no_memory calloc m key a (ground arith) (rw fits refused), ground arith)
    ]
  ]
