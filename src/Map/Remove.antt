-- ===== src/Map/Remove.antt =====
-- `map_remove` of src/map.c.
use qrtr.Base.{
  ℕ, ◌+◌, ◌-◌, ◌%◌, ◌≤◌, ◌<◌, ◌≡◌, ◌↔◌, refl, sym, ◌∙◌, ◌≢◌, inl, inr, true, false, none, arith,
  ◌==◌, if◌then◌else◌, Bool-cases, u32_mod, length-set, set,
}
use qrtr.Map.{deleted, item, Map, slot_at, map_find, map_create, map_get, map_remove}
use qrtr.Map.Probe.{
  pos, home, IsValid, Holds, IsDistinct, live, live-set, slot_in_range, live-le-length,
}
use qrtr.Map.Lookup.{find_cases, absent, present, get_found, get_absent}
use qrtr.Map.Store.{written, slot-written}
use qrtr.Map.Reput.{get_congr}

module _ {ℓ} {A : Type ℓ} where
  module _ (m : Map A) (key : ℕ) (v : IsValid m) (p : ℕ) (a : A) (there : slot_at m p ≡ item key a)
      (count : ℕ) (counts : count + 1 ≡ m.count) where
    abbrev erased : Map A
    erased = written m count p deleted

    p-lt : p < m.size
    p-lt = slot_in_range m p key a v.width there

    slot_ne : (q : ℕ) → (p == q) ≡ false → slot_at erased q ≡ slot_at m q
    slot_ne q e = rw (slot-written m count p q deleted v p-lt, e)

    slot_self : (q : ℕ) → (p == q) ≡ true → slot_at erased q ≡ deleted
    slot_self q e = rw (slot-written m count p q deleted v p-lt, e)

    -- An item of the new table was one of the old.
    item_old : (q k : ℕ) (b : A) → slot_at erased q ≡ item k b → slot_at m q ≡ item k b
    item_old q k b h = elim (Bool-cases (p == q)) [
      | inl e ↦ absurd (cc (slot_self q e, h))
      | inr e ↦ sym (slot_ne q e) ∙ h
    ]

    erased-IsValid : IsValid erased
    erased-IsValid = record {
      width = length-set m.table p deleted ∙ v.width;
      small = v.small;
      counted =
          omega
            (arith, counts, v.counted, rw there at (live-set m.table p deleted (rw v.width p-lt)));
      reachable = λ k b i j hi hj h void. elim (Bool-cases (p == pos m.size (home m k) j)) [
        | inl e ↦ cc (slot_self _ e, void)
        | inr e ↦ v.reachable k b i j hi hj (item_old _ k b h) (sym (slot_ne _ e) ∙ void)
      ];
    }

    erased-IsDistinct : IsDistinct m → IsDistinct erased
    erased-IsDistinct d k x y q r h g = d k x y q r (item_old q k x h) (item_old r k y g)

    erased_others : (k : ℕ) (b : A) → k ≢ key → Holds erased k b ↔ Holds m k b
    erased_others k b ne = (λ (q, h). (q, item_old q k b h), from)
      where
        from : Holds m k b → Holds erased k b
        from (q, h) = elim (Bool-cases (p == q)) [
          | inl e ↦ let same : p ≡ q = ground arith in absurd (ne (cc (there, h, same)))
          | inr e ↦ (q, slot_ne q e ∙ h)
        ]

    erased_self : IsDistinct m → (b : A) → Holds erased key b → ⊥
    erased_self d b (q, h) =
        let same : p ≡ q = d key a b p q there (item_old q key b h) in
        cc (slot_self q (ground arith), h)

  -- What `map_remove` does: the key reads as absent, and every other key as before.
  pub record Removes (m : Map A) (key : ℕ) (m' : Map A) : Type ℓ where
    pub valid : IsValid m'
    pub distinct : IsDistinct m → IsDistinct m'
    pub others : (k : ℕ) (b : A) → k ≢ key → Holds m' k b ↔ Holds m k b
    pub gone : IsDistinct m → (b : A) → Holds m' key b → ⊥
    pub kept : (q k : ℕ) (b : A) → slot_at m' q ≡ item k b → slot_at m q ≡ item k b
    pub size : m'.size ≡ m.size

  live_positive :
      (m : Map A) (p k : ℕ) (a : A)
      → IsValid m
      → slot_at m p ≡ item k a
      → (n : ℕ) × (n + 1 ≡ m.count)
  live_positive m p k a v h =
      let e = live-set m.table p deleted (rw v.width (slot_in_range m p k a v.width h)) in
      (live (set m.table p deleted), omega (arith, v.counted, rw h at e))

  -- map_remove leaves a valid map of the same size whose count is right, which holds the items of
  -- all other keys as before, moves no item, keeps keys from being twice in the table, and, where no
  -- key was twice, holds no item of the key.
  pub remove-Removes : (m : Map A) (key : ℕ) → IsValid m → Removes m key (map_remove m key).0
  unfolding map_remove
  remove-Removes m key v = elim (find_cases m key v) [
    | absent f none_there ↦
        rw (f, map_remove)
          (record {
            valid = v;
            distinct = λ d. d;
            others = λ k b ne. (λ h. h, λ h. h);
            gone = λ d b h. none_there b h;
            kept = λ q k b h. h;
            size = refl;
          })
    | present p a f there ↦
        let (n, e) = live_positive m p key a v there in
        let small = v.small in
        let le : m.count ≤ m.size = omega (arith, live-le-length m.table, v.width, v.counted) in
        let wraps : (m.count + u32_mod - 1) % u32_mod ≡ n = omega arith in
        rw (f, map_remove, wraps)
          (record {
            valid = erased-IsValid m key v p a there n e;
            distinct = erased-IsDistinct m key v p a there n e;
            others = erased_others m key v p a there n e;
            gone = erased_self m key v p a there n e;
            kept = item_old m key v p a there n e;
            size = refl;
          })
  ]

  -- A key that is not found leaves the map as it was.
  pub remove_missing :
      (m : Map A) (key : ℕ) → IsValid m → map_get m key ≡ none → (map_remove m key).0 ≡ m
  unfolding map_remove
  remove_missing m key v e = elim (find_cases m key v) [
    | absent f _ ↦ rw (f, map_remove)
    | present p b f s ↦ absurd (cc (e, get_found m key p b f s))
  ]

  pub get_create : (key : ℕ) → map_get {A = A} map_create key ≡ none
  unfolding map_get map_find map_create
  get_create key = refl

  -- In a valid map where no key has two items, a read after map_remove returns nothing for the key
  -- removed and for every other key what it returned before.
  pub get-remove :
      (m : Map A) (key k : ℕ)
      → IsValid m
      → IsDistinct m
      → map_get (map_remove m key).0 k ≡ (if k == key then none else map_get m k)
  get-remove m key k v d =
      let t = remove-Removes m key v in
      elim (Bool-cases (k == key)) [
        | inl e ↦
            let same : k ≡ key = ground arith in
            rw (e, same)
              (elim (find_cases (map_remove m key).0 key t.valid) [
                | absent f _ ↦ get_absent (map_remove m key).0 key f
                | present p b f s ↦ absurd (t.gone d b (p, s))
              ])
        | inr e ↦
            let other : k ≢ key = ground arith in
            rw e (
              get_congr (map_remove m key).0 m k k t.valid (t.distinct d) v d
                (λ b. t.others k b other))
      ]
