-- ===== src/Map/Abstract.antt =====
-- The operations of src/map.c as those of the abstract map that `map_get` reads.
use qrtr.Base.{ℕ, suc, ◌+◌, ◌<◌, ◌≡◌, ◌⊎◌, inl, inr, Bool, true, none, some, ◌==◌, if◌then◌else◌}
use qrtr.Map.{Map, done, no_memory, map_get, map_remove, map_rehash, map_reput, reput_loop}
use qrtr.Map.Probe.{IsValid, IsDistinct}
use qrtr.Map.Round.{IsTombless, IsFresh}
use qrtr.Map.Rehash.{IsBounded, rehash-Rehashed}
use qrtr.Map.Reput.{Updates, Puts-Updates, get_congr, reput_cases}
use qrtr.Map.Remove.{remove-Removes, get-remove}

module _ {ℓ} {A : Type ℓ} where
  -- The map without the key.
  pub record Erases (m : Map A) (key : ℕ) (m' : Map A) : Type ℓ where
    pub valid : IsValid m'
    pub distinct : IsDistinct m'
    pub size : m'.size ≡ m.size
    pub reads : (k : ℕ) → map_get m' k ≡ (if k == key then none else map_get m k)

  -- In a valid map with no key twice, map_remove leaves a valid map of the same size with no key
  -- twice, which reads nothing for the key removed and for every other key what it read before.
  pub remove-Erases :
      (m : Map A) (key : ℕ) → IsValid m → IsDistinct m → Erases m key (map_remove m key).0
  remove-Erases m key v d =
      let t = remove-Removes m key v in
      record {
        valid = t.valid;
        distinct = t.distinct d;
        size = t.size;
        reads = λ k. get-remove m key k v d;
      }

  -- The same map in a larger table without markers.
  pub record Grows (m m' : Map A) : Type ℓ where
    pub valid : IsValid m'
    pub distinct : IsDistinct m'
    pub tombless : IsTombless m'
    pub size : m'.size ≡ m.size + 256
    pub room : m'.count < m'.size
    pub reads : (k : ℕ) → map_get m' k ≡ map_get m k

  -- In a valid map with no key twice, where a table with 256 more entries can be allocated and none
  -- of 2 ^ 31, map_rehash succeeds with any positive fuel for the writes that it makes, and leaves a
  -- valid map of that size with no key twice, with a free entry and no deleted marker, which reads
  -- the same owner for every key.
  pub rehash-Grows :
      (calloc : ℕ → Bool) (fuel : ℕ) (m : Map A)
      → IsBounded calloc
      → IsValid m
      → IsDistinct m
      → calloc (m.size + 256) ≡ true
      → (m' : Map A) × (map_rehash calloc (reput_loop calloc (suc fuel)) m ≡ done none m')
        × Grows m m'
  rehash-Grows calloc fuel m bounded v d granted =
      let (m', run, t) = rehash-Rehashed calloc fuel m bounded v granted in
      (
        m',
        run,
        record {
          valid = t.valid;
          distinct = t.distinct;
          tombless = t.tombless;
          size = t.size;
          room = t.room;
          reads = λ k. get_congr m' m k k t.valid t.distinct v d (t.holds d k);
        },
      )

  -- In a valid map with no key twice, where the key is absent or no entry is marked deleted and no
  -- table of 2 ^ 31 entries can be allocated, map_reput always ends within two rounds: it returns
  -- the owner that was read before and leaves a valid map with no key twice that reads the new owner
  -- for the key and is otherwise the same, or it reports that it has no memory, and then the map was
  -- full and is as it was.
  pub reput_outcomes :
      (calloc : ℕ → Bool) (m : Map A) (key : ℕ) (a : A)
      → IsBounded calloc
      → IsValid m
      → IsDistinct m
      → IsFresh m key
      → ((m' : Map A) × (map_reput calloc m key (some a) ≡ done (map_get m key) m')
          × Updates m key a m')
        ⊎ ((map_reput calloc m key (some a) ≡ no_memory m) × (m.count ≡ m.size))
  reput_outcomes calloc m key a bounded v d fresh = elim (reput_cases calloc m key a bounded v) [
    | inl (old, m', run, t) ↦
        inl (m', rw (t.replaces d fresh) at run, Puts-Updates m key a old m' v d fresh t)
    | inr refused ↦ inr refused
  ]
