-- ===== src/Map/Probe.antt =====
-- The probe sequence of src/map.c, the invariant of a table, and what the loops of `map_hash` and
-- `map_find` return.
use native.Mathlib.Nat.{mod-eq_of_lt, mod_self}
use qrtr.Base.{
  ℕ, zero, suc, ◌+◌, ◌-◌, ◌%◌, ◌^◌, ◌≤◌, ◌<◌, ◌≡◌, refl, ◌≢◌, inl, inr, Bool, true, false, List, [],
  ◌∷◌, arith, ltb, if◌then◌else◌, Bool-cases, length, get_or, set, get_or_past,
}
use qrtr.Map.{Slot, empty, deleted, item, Map, slot_at, is_free}

-- The i-th index that a probe from `start` visits in a table of n entries.
abbrev pub pos : ℕ → ℕ → ℕ → ℕ
pos n start i = if ltb (start + i) n then start + i else start + i - n

pub pos-lt : (n start i : ℕ) → start < n → i < n → pos n start i < n
pos-lt n start i hs hi = ground arith

pub pos-zero : (n start : ℕ) → start < n → pos n start 0 ≡ start
pos-zero n start hs = ground arith

next_index : (x n : ℕ) → x < n → (x + 1) % n ≡ (if ltb (x + 1) n then x + 1 else 0)
next_index x n h = elim (Bool-cases (ltb (x + 1) n)) [
  | inl e ↦ rw e (mod-eq_of_lt (ground arith))
  | inr e ↦ rw e (let t : x + 1 ≡ n = ground arith in rw t (mod_self n))
]

pub pos-suc : (n start i : ℕ) → start < n → i < n → (pos n start i + 1) % n ≡ pos n start (i + 1)
pos-suc n start i hs hi = ground (arith, next_index (pos n start i) n)

pub pos_injective :
    (n start i j : ℕ) → start < n → i < n → j < n → pos n start i ≡ pos n start j → i ≡ j
pos_injective n start i j hs hi hj e = ground arith

-- Every index is visited.
pub pos_onto : (n start p : ℕ) → start < n → p < n → (i : ℕ) × (i < n) × (pos n start i ≡ p)
pos_onto n start p hs hp = elim (Bool-cases (ltb p start)) [
  | inl e ↦ (p + n - start, ground arith, ground arith)
  | inr e ↦ (p - start, ground arith, ground arith)
]

abbrev pub to_nat : Bool → ℕ
to_nat true = 1
to_nat false = 0

module _ {ℓ} {A : Type ℓ} where
  -- How many entries hold an item.
  abbrev pub live : List (Slot A) → ℕ
  live [] = 0
  live (empty ∷ ss) = live ss
  live (deleted ∷ ss) = live ss
  live (item k a ∷ ss) = suc (live ss)

  -- The entry holds the item of another key, so a probe for `key` passes it.
  abbrev pub IsOther : ℕ → Slot A → Type 0
  IsOther key empty = ⊥
  IsOther key deleted = ⊥
  IsOther key (item k a) = k ≢ key

  -- A search for `key` goes on past the entry.
  abbrev pub IsPassed : ℕ → Slot A → Type 0
  IsPassed key empty = ⊥
  IsPassed key deleted = Unit {0}
  IsPassed key (item k a) = k ≢ key

  abbrev pub home : Map A → ℕ → ℕ
  home m key = key % m.size

  -- No NULL entry stands between an item and the place where the search for it starts.
  abbrev pub IsReachable : Map A → Type ℓ
  IsReachable m =
      (k : ℕ) (a : A) (i j : ℕ)
      → i < m.size
      → j < i
      → slot_at m (pos m.size (home m k) i) ≡ item k a
      → slot_at m (pos m.size (home m k) j) ≢ empty

  -- The indices are C ints, so a table has fewer than 2 ^ 31 entries.
  pub record IsValid (m : Map A) : Type ℓ where
    pub width : length m.table ≡ m.size
    pub small : m.size < 2 ^ 31
    pub counted : m.count ≡ live m.table
    pub reachable : IsReachable m

  -- The map has an item with this key and owner.
  abbrev pub Holds : Map A → ℕ → A → Type ℓ
  Holds m k a = (p : ℕ) × (slot_at m p ≡ item k a)

  -- No key has two items.
  abbrev pub IsDistinct : Map A → Type ℓ
  IsDistinct m =
      (k : ℕ) (a b : A) (p q : ℕ) → slot_at m p ≡ item k a → slot_at m q ≡ item k b → p ≡ q

  pub live-le-length : (ss : List (Slot A)) → live ss ≤ length ss
  live-le-length [] = omega arith
  live-le-length (empty ∷ ss) = omega (arith, live-le-length ss)
  live-le-length (deleted ∷ ss) = omega (arith, live-le-length ss)
  live-le-length (item k a ∷ ss) = omega (arith, live-le-length ss)

  -- A write changes the number of items by those that it adds and removes.
  pub live-set :
      (ss : List (Slot A)) (i : ℕ) (s : Slot A)
      → i < length ss
      → live (set ss i s) + to_nat (is_free s) ≡ live ss + to_nat (is_free (get_or ss i empty))
  live-set [] i s h = absurd (omega arith)
  live-set (x ∷ ss) zero s h = ground arith
  live-set (x ∷ ss) (suc i) s h = ground (arith, live-set ss i s)

  -- A table with fewer items than entries has a free entry.
  pub free_slot :
      (ss : List (Slot A))
      → live ss < length ss
      → (p : ℕ) × (p < length ss) × (is_free (get_or ss p empty) ≡ true)
  free_slot [] h = absurd (omega arith)
  free_slot (empty ∷ ss) h = (0, omega arith, refl)
  free_slot (deleted ∷ ss) h = (0, omega arith, refl)
  free_slot (item k a ∷ ss) h =
      let (p, lt, free) = free_slot ss (omega arith) in (suc p, omega arith, free)

  pub slot_in_range :
      (m : Map A) (p k : ℕ) (a : A) → length m.table ≡ m.size → slot_at m p ≡ item k a → p < m.size
  slot_in_range m p k a w e = ground (arith, get_or_past m.table p empty)
