-- ===== src/Map/Lookup.antt =====
-- `map_find`, `map_get` and `map_contains` of src/map.c against the items that the table holds.
use native.Mathlib.Nat.{mod-lt}
use qrtr.Base.{ℕ, ◌<◌, ◌≡◌, ◌↔◌, inl, inr, true, false, none, some, arith, ltb, ◌==◌, Bool-cases}
use qrtr.Map.{Slot, empty, deleted, item, Map, slot_at, map_find, map_get, map_contains}
use qrtr.Map.Probe.{pos-zero, pos_onto, IsPassed, home, IsValid, Holds, IsDistinct, slot_in_range}
use qrtr.Map.Search.{visit, FindSpec, passed_all, stopped, found, find_loop-FindSpec}

module _ {ℓ} {A : Type ℓ} where
  -- What a search settles: no item has the key, or the index that is returned holds one.
  pub data Outcome (m : Map A) (key : ℕ) : Type ℓ where
    absent : map_find m key ≡ none → ((a : A) → Holds m key a → ⊥) → Outcome m key
    present : (p : ℕ) (a : A) → map_find m key ≡ some p → slot_at m p ≡ item key a → Outcome m key

  not_passed : (key : ℕ) (s : Slot A) (a : A) → s ≡ item key a → IsPassed key s → ⊥
  not_passed key empty a e h = cc
  not_passed key deleted a e h = cc
  not_passed key (item k b) a e h = ground arith

  pub home-lt : (m : Map A) (key : ℕ) → 0 < m.size → home m key < m.size
  home-lt m key h = mod-lt key h

  FindSpec-Outcome :
      (m : Map A) (key : ℕ) (start : home m key < m.size)
      → IsValid m
      → FindSpec m key start 0 (map_find m key)
      → Outcome m key
  FindSpec-Outcome m key start v (passed_all e b) = absent e λ a (p, at_p).
      let (i, lt, there) =
        pos_onto m.size (home m key) p start (slot_in_range m p key a v.width at_p) in
      not_passed key (visit m key start i) a (rw there at_p) (b i (omega arith) lt)
  FindSpec-Outcome m key start v (stopped j lo hi b void e) = absent e λ a (p, at_p).
      let (i, lt, there) =
        pos_onto m.size (home m key) p start (slot_in_range m p key a v.width at_p) in
      let here : visit m key start i ≡ item key a = rw there at_p in
      elim (Bool-cases (ltb i j)) [
        | inl before ↦
            not_passed key (visit m key start i) a here (b i (omega arith) (ground arith))
        | inr after ↦ elim (Bool-cases (i == j)) [
          | inl same ↦ let t : i ≡ j = ground arith in cc (void, t)
          | inr other ↦ v.reachable key a i j lt (ground arith) here void
        ]
      ]
  FindSpec-Outcome m key start v (found j lo hi b a here e) = present _ a e here

  search-Outcome :
      (m : Map A) (key : ℕ) → 0 < m.size → (m.size == 0) ≡ false → IsValid m → Outcome m key
  unfolding map_find
  search-Outcome m key h e v =
      let start = home-lt m key h in
      FindSpec-Outcome m key start v (
        rw e (
          rw (pos-zero m.size (home m key) start) at
            (find_loop-FindSpec m key start m.size 0 (omega arith))))

  pub find_cases : (m : Map A) (key : ℕ) → IsValid m → Outcome m key
  unfolding map_find
  find_cases m key v = elim (Bool-cases (m.size == 0)) [
    | inl e ↦ absent (rw e) λ a (p, at_p).
        absurd (let t : p < m.size = slot_in_range m p key a v.width at_p in ground arith)
    | inr e ↦ search-Outcome m key (ground arith) e v
  ]

  pub get_found :
      (m : Map A) (key p : ℕ) (a : A)
      → map_find m key ≡ some p
      → slot_at m p ≡ item key a
      → map_get m key ≡ some a
  unfolding map_get
  get_found m key p a e s = rw (e, map_get, s)

  pub get_absent : (m : Map A) (key : ℕ) → map_find m key ≡ none → map_get m key ≡ none
  unfolding map_get
  get_absent m key e = rw (e, map_get)

  -- What `map_get` returns is held under the key.
  pub Holds-of_get :
      (m : Map A) (key : ℕ) (a : A) → IsValid m → map_get m key ≡ some a → Holds m key a
  Holds-of_get m key a v e = elim (find_cases m key v) [
    | absent f _ ↦ cc (e, get_absent m key f)
    | present p b f s ↦ (p, cc (e, get_found m key p b f s, s))
  ]

  -- `map_get` returns NULL only if no item has the key.
  pub not-Holds-of_get :
      (m : Map A) (key : ℕ) (a : A) → IsValid m → map_get m key ≡ none → Holds m key a → ⊥
  not-Holds-of_get m key a v e h = elim (find_cases m key v) [
    | absent f none_there ↦ none_there a h
    | present p b f s ↦ cc (e, get_found m key p b f s)
  ]

  -- Where no key has two items, `map_get` returns the item that the table holds.
  pub get-Holds :
      (m : Map A) (key : ℕ) (a : A)
      → IsValid m
      → IsDistinct m
      → Holds m key a
      → map_get m key ≡ some a
  get-Holds m key a v d (p, s) = elim (find_cases m key v) [
    | absent f none_there ↦ absurd (none_there a (p, s))
    | present q b f t ↦
        let same : p ≡ q = d key a b p q s t in get_found m key q a f (rw (← same) s)
  ]

  -- In a valid map where no key has two items, map_get returns an owner for a key exactly when some
  -- entry of the table holds that key and owner.
  pub map_get-Holds_iff :
      (m : Map A) (key : ℕ) (a : A)
      → IsValid m
      → IsDistinct m
      → (map_get m key ≡ some a) ↔ Holds m key a
  map_get-Holds_iff m key a v d = (Holds-of_get m key a v, get-Holds m key a v d)

  pub contains-get :
      (m : Map A) (key : ℕ)
      → IsValid m
      → map_contains m key ≡ true
      → (a : A) × (map_get m key ≡ some a)
  unfolding map_contains
  contains-get m key v e = elim (find_cases m key v) [
    | absent f _ ↦ absurd (cc (rw (f, map_contains) at e))
    | present p b f s ↦ (b, get_found m key p b f s)
  ]
