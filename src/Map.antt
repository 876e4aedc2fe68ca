-- ===== src/Map.antt =====
-- src/map.c and src/map.h: a hash map with open addressing, linear probing and tombstones.
-- An entry's item pointer is NULL (`empty`), the marker `&deleted` (`deleted`), or the item
-- embedded in an owner `a`, with the item's key (`item`). `calloc n` says whether allocating a
-- table of n entries succeeds.
pub mod Probe
pub mod Search
pub mod Lookup
pub mod Store
pub mod Round
pub mod Move
pub mod Rehash
pub mod Reput
pub mod Remove
pub mod Iterate
pub mod Abstract
pub mod Update
use qrtr.Base.{
  ℕ, zero, suc, ◌+◌, ◌-◌, ◌%◌, Bool, true, false, Option, none, some, List, [], ◌∷◌, ◌==◌,
  if◌then◌else◌, get_or, set, replicate, u32_mod,
}

pub data Slot {ℓ} (A : Type ℓ) : Type ℓ where
  empty : Slot A
  deleted : Slot A
  item : ℕ → A → Slot A

-- `struct map`; `table` is the field `data`.
pub record Map {ℓ} (A : Type ℓ) : Type ℓ where
  pub size : ℕ
  pub count : ℕ
  pub table : List (Slot A)

-- What `map_hash` returns: -1, -2, or an index, with the map whose count it may have raised.
pub data Hashed {ℓ} (A : Type ℓ) : Type ℓ where
  full : Hashed A
  no_slot : Hashed A
  at : ℕ → Map A → Hashed A

-- What `map_reput` returns: 0 with `*old`, or a negative code. The map is the one left behind.
pub data Put {ℓ} (A : Type ℓ) : Type ℓ where
  done : Option A → Map A → Put A
  no_memory : Map A → Put A
  out_of_fuel : Put A

module _ {ℓ} {A : Type ℓ} where
  abbrev pub slot_at : Map A → ℕ → Slot A
  slot_at m i = get_or m.table i empty

  -- `!e->item || e->item == &deleted`
  abbrev pub is_free : Slot A → Bool
  is_free empty = true
  is_free deleted = true
  is_free (item k a) = false

  abbrev pub has_key : ℕ → Slot A → Bool
  has_key key empty = false
  has_key key deleted = false
  has_key key (item k a) = k == key

  -- The owner of the item in a slot, if there is one.
  abbrev pub owner : Slot A → Option A
  owner empty = none
  owner deleted = none
  owner (item k a) = some a

  unfoldable pub map_create : Map A
  map_create = record { size = 0; count = 0; table = [] }

  unfoldable pub owners : List (Slot A) → List A
  owners [] = []
  owners (empty ∷ ss) = owners ss
  owners (deleted ∷ ss) = owners ss
  owners (item k a ∷ ss) = a ∷ owners ss

  -- The map left behind, and the owners given to `release`, in order.
  unfoldable pub map_clear : Map A → Map A × List A
  unfolding owners
  map_clear m = (record m { count = 0; table = replicate m.size empty }, owners m.table)

  -- The loop of `map_hash`, with the rounds that are left.
  unfoldable pub hash_loop : ℕ → ℕ → ℕ → Map A → Hashed A
  hash_loop zero idx key m = no_slot
  hash_loop (suc rounds) idx key m =
      let next = hash_loop rounds ((idx + 1) % m.size) key m in
      if is_free (slot_at m idx)
      then at idx (record m { count = (m.count + 1) % u32_mod })
      else if has_key key (slot_at m idx)
      then at idx m
      else next

  unfoldable pub map_hash : Map A → ℕ → Hashed A
  map_hash m key = if m.count == m.size then full else hash_loop m.size (key % m.size) key m

  abbrev pub keyed : ℕ → Option A → Slot A
  keyed key none = empty
  keyed key (some a) = item key a

  -- The end of `map_reput`, once an index is found.
  unfoldable pub map_store : Map A → ℕ → ℕ → Option A → Put A
  map_store m idx key value =
      done (owner (slot_at m idx)) (record m { table = set m.table idx (keyed key value) })

  -- The loop of `map_rehash` over the old table; `put` is `map_put`.
  unfoldable pub move_entries : (Map A → ℕ → Option A → Put A) → List (Slot A) → Map A → Put A
  move_entries put [] m = done none m
  move_entries put (empty ∷ ss) m = move_entries put ss m
  move_entries put (deleted ∷ ss) m = move_entries put ss m
  move_entries put (item k a ∷ ss) m = elim (put m k (some a)) [
    | done _ m' ↦ move_entries put ss m'
    | no_memory m' ↦ no_memory m'
    | out_of_fuel ↦ out_of_fuel
  ]

  unfoldable pub map_rehash : (ℕ → Bool) → (Map A → ℕ → Option A → Put A) → Map A → Put A
  map_rehash calloc put m =
      let n = (m.size + 256) % u32_mod in
      let moved =
        move_entries put m.table (record { size = n; count = 0; table = replicate n empty }) in
      if calloc n then moved else no_memory m

  -- The loop of `map_reput`. The fuel bounds its rounds and the calls that `map_rehash` nests.
  unfoldable pub reput_loop : (ℕ → Bool) → ℕ → Map A → ℕ → Option A → Put A
  reput_loop calloc zero m key value = out_of_fuel
  reput_loop calloc (suc fuel) m key value =
      let again : Put A = elim (map_rehash calloc (reput_loop calloc fuel) m) [
        | done _ m' ↦ reput_loop calloc fuel m' key value
        | no_memory m' ↦ no_memory m'
        | out_of_fuel ↦ out_of_fuel
      ] in
      elim (map_hash m key) [
        | at idx m' ↦ map_store m' idx key value
        | full ↦ again
        | no_slot ↦ again
      ]

  -- Two rounds are enough for a valid map.
  unfoldable pub map_reput : (ℕ → Bool) → Map A → ℕ → Option A → Put A
  map_reput calloc m key value = reput_loop calloc 2 m key value

  -- `map_put` does not ask for the old item.
  unfoldable pub map_put : (ℕ → Bool) → Map A → ℕ → Option A → Put A
  unfolding map_reput
  map_put calloc m key value = elim (map_reput calloc m key value) [
    | done _ m' ↦ done none m'
    | no_memory m' ↦ no_memory m'
    | out_of_fuel ↦ out_of_fuel
  ]

  -- The loop of `map_find`: `break` at NULL, `continue` at the marker.
  unfoldable pub find_loop : ℕ → ℕ → ℕ → Map A → Option ℕ
  find_loop zero idx key m = none
  find_loop (suc rounds) idx key m =
      let next = find_loop rounds ((idx + 1) % m.size) key m in
      elim (slot_at m idx) [
        | empty ↦ none
        | deleted ↦ next
        | item k a ↦ if k == key then some idx else next
      ]

  unfoldable pub map_find : Map A → ℕ → Option ℕ
  unfolding find_loop
  map_find m key = if m.size == 0 then none else find_loop m.size (key % m.size) key m

  unfoldable pub map_contains : Map A → ℕ → Bool
  map_contains m key = elim (map_find m key) [ none ↦ false | some i ↦ true ]

  unfoldable pub map_get : Map A → ℕ → Option A
  map_get m key = elim (map_find m key) [ none ↦ none | some i ↦ owner (slot_at m i) ]

  -- The map left behind, and whether the key was found (the code returns 0 then).
  unfoldable pub map_remove : Map A → ℕ → Map A × Bool
  map_remove m key = elim (map_find m key) [
    | none ↦ (m, false)
    | some i ↦ (
      record m { count = (m.count + u32_mod - 1) % u32_mod; table = set m.table i deleted },
      true,
    )
  ]

  unfoldable pub map_length : Map A → ℕ
  map_length m = m.count

  -- The loop of `map_iter_from`, with the entries that are left.
  unfoldable pub iter_loop : ℕ → ℕ → Map A → Option ℕ
  iter_loop zero i m = none
  iter_loop (suc rounds) i m =
      let next = iter_loop rounds (i + 1) m in if is_free (slot_at m i) then next else some i

  unfoldable pub map_iter_from : Map A → ℕ → Option ℕ
  unfolding iter_loop
  map_iter_from m start = iter_loop (m.size - start) start m

  unfoldable pub map_iter_first : Map A → Option ℕ
  unfolding map_iter_from
  map_iter_first m = map_iter_from m 0

  unfoldable pub map_iter_next : Map A → ℕ → Option ℕ
  unfolding map_iter_from
  map_iter_next m iter = map_iter_from m (iter + 1)

  unfoldable pub map_iter_item : Map A → ℕ → Option A
  map_iter_item m iter = owner (slot_at m iter)

  -- The loop of `map_for_each` over a map that the body may change: `map_of` reads the map from the state.
  unfoldable pub for_each {κ} : {S : Type κ} → (S → Map A) → (A → S → S) → ℕ → Option ℕ → S → S
  unfolding map_iter_item map_iter_next
  for_each map_of body zero iter s = s
  for_each map_of body (suc fuel) none s = s
  for_each {S = S} map_of body (suc fuel) (some i) s =
      let s' : S = elim (map_iter_item (map_of s) i) [ none ↦ s | some a ↦ body a s ] in
      for_each map_of body fuel (map_iter_next (map_of s') i) s'

  -- No body makes the table larger, so its size bounds the rounds.
  unfoldable pub map_for_each {κ} : {S : Type κ} → (S → Map A) → (A → S → S) → S → S
  map_for_each map_of body s = for_each map_of body (map_of s).size (map_iter_first (map_of s)) s

  -- A write to an owner that the map holds, through its pointer.
  unfoldable pub map_update : Map A → ℕ → (A → A) → Map A
  map_update m key f = elim (map_find m key) [
    | none ↦ m
    | some i ↦ record m {
      table = elim (slot_at m i) [
        | empty ↦ m.table
        | deleted ↦ m.table
        | item k a ↦ set m.table i (item k (f a))
      ];
    }
  ]
