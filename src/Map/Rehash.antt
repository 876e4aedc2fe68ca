-- ===== src/Map/Rehash.antt =====
-- `map_rehash` of src/map.c: the items of the old table are put into a larger, empty one.
use qrtr.Base.{
  ℕ, zero, suc, ◌+◌, ◌%◌, ◌^◌, ◌≤◌, ◌<◌, ◌≡◌, ◌↔◌, ◌⊎◌, refl, sym, inl, inr, Bool, true, Option,
  none, arith, replicate, length-replicate, get_or-replicate, u32_mod,
}
use qrtr.Map.{empty, Map, Put, done, slot_at, move_entries, map_rehash, reput_loop}
use qrtr.Map.Probe.{pos, IsValid, Holds, IsDistinct, live, live-le-length}
use qrtr.Map.Round.{IsTombless}
use qrtr.Map.Move.{Listed, move_entries-Moved}

live-replicate {ℓ} : (A : Type ℓ) (n : ℕ) → live {A = A} (replicate n empty) ≡ 0
live-replicate A zero = refl
live-replicate A (suc n) = live-replicate A n

-- A table has fewer than 2 ^ 31 entries: allocating more fails.
abbrev pub IsBounded : (ℕ → Bool) → Type 0
IsBounded calloc = (n : ℕ) → calloc n ≡ true → n < 2 ^ 31

module _ {ℓ} {A : Type ℓ} where
  -- The table that `calloc` returns.
  abbrev pub blank : ℕ → Map A
  blank n = record { size = n; count = 0; table = replicate n empty }

  blank_slot : (n p : ℕ) → slot_at (blank n) p ≡ empty
  blank_slot n p = get_or-replicate n p empty

  pub blank-IsValid : (n : ℕ) → n < 2 ^ 31 → IsValid (blank n)
  blank-IsValid n h = record {
    width = length-replicate n empty;
    small = h;
    counted = sym (live-replicate _ n);
    reachable = λ k a i j hi hj there. absurd (cc (there, blank_slot n (pos n (k % n) i)));
  }

  pub blank-not-Holds : (n k : ℕ) (a : A) → Holds (blank n) k a → ⊥
  blank-not-Holds n k a (p, h) = cc (h, blank_slot n p)

  pub blank-IsTombless : (n : ℕ) → IsTombless (blank n)
  blank-IsTombless n p e = cc (e, blank_slot n p)

  blank-IsDistinct : (n : ℕ) → IsDistinct (blank n)
  blank-IsDistinct n k a b p q h g = cc (h, blank_slot n p)

  -- What `map_rehash` does to a map: 256 more entries, no markers, and the same items.
  pub record Rehashed (m m' : Map A) : Type ℓ where
    pub valid : IsValid m'
    pub size : m'.size ≡ m.size + 256
    pub room : m'.count < m'.size
    pub tombless : IsTombless m'
    pub distinct : IsDistinct m'
    pub origin : (k : ℕ) (a : A) → Holds m' k a → Holds m k a
    pub holds : IsDistinct m → (k : ℕ) (a : A) → Holds m' k a ↔ Holds m k a

  blank_sum : (n : ℕ) (P : Type ℓ) (k : ℕ) (a : A) → (Holds (blank n) k a ⊎ P) ↔ P
  blank_sum n P k a = (to, inr)
    where
      to : (Holds (blank n) k a ⊎ P) → P
      to (inl h) = absurd (blank-not-Holds n k a h)
      to (inr h) = h

  rehash_run :
      (calloc : ℕ → Bool) (put : Map A → ℕ → Option A → Put A) (m m' : Map A) (n : ℕ)
      → (m.size + 256) % u32_mod ≡ n
      → calloc n ≡ true
      → move_entries put m.table (blank n) ≡ done none m'
      → map_rehash calloc put m ≡ done none m'
  unfolding map_rehash
  rehash_run calloc put m m' n e granted run = rw (e, granted) run

  -- In a valid map, where a larger table of fewer than 2 ^ 31 entries can be allocated, map_rehash
  -- succeeds with a table that is valid, holds 256 more entries, has room, no deleted marker and no
  -- key twice, and holds only items that the old map held, and all of them where no key was twice.
  pub rehash-Rehashed :
      (calloc : ℕ → Bool) (fuel : ℕ) (m : Map A)
      → IsBounded calloc
      → IsValid m
      → calloc (m.size + 256) ≡ true
      → (m' : Map A) × (map_rehash calloc (reput_loop calloc (suc fuel)) m ≡ done none m')
        × Rehashed m m'
  rehash-Rehashed calloc fuel m bounded v granted =
      let n = m.size + 256 in
      let small = v.small in
      let fits : n % u32_mod ≡ n = omega arith in
      let le : live m.table ≤ m.size = omega (arith, live-le-length m.table, v.width) in
      let (m', run, t) =
        move_entries-Moved calloc fuel m.table (blank n) (blank-IsValid n (bounded n granted))
          (blank-IsTombless n) (blank-IsDistinct n) (omega arith) in
      (
        m',
        rehash_run calloc (reput_loop calloc (suc fuel)) m m' n fits granted run,
        record {
          valid = t.valid;
          size = t.size;
          room = omega (arith, t.grows, t.size);
          tombless = t.tombless;
          distinct = t.distinct;
          origin = λ k a h. (blank_sum n (Listed m.table k a) k a).0 (t.origin k a h);
          holds = λ d k a.
              let iff = t.holds d (λ j x y h _. blank-not-Holds n j x h) k a in
              let sum = blank_sum n (Listed m.table k a) k a in
              (λ h. sum.0 (iff.0 h), λ h. iff.1 (sum.1 h));
        },
      )
