-- ===== src/Map/Update.antt =====
-- A write to an owner that a map of src/map.c holds: the entries keep their places and keys.
use qrtr.Base.{
  ℕ, ◌<◌, ◌≡◌, refl, sym, ◌∙◌, ◌≢◌, inl, inr, true, false, arith, ◌==◌, if◌then◌else◌, Bool-cases,
  length-set,
}
use mathlib.Core.Option
use qrtr.Map.{item, Map, slot_at, map_get, map_update}
use qrtr.Map.Probe.{pos, home, IsValid, IsDistinct, live-set, slot_in_range}
use qrtr.Map.Lookup.{find_cases, absent, present, get-Holds, get_absent, get_found}
use qrtr.Map.Store.{written, slot-written}
use qrtr.Map.Round.{IsTombless}

module _ {ℓ} {A : Type ℓ} where
  -- What a write by `f` under `key` does, where no key has two items.
  pub record Changes (m : Map A) (key : ℕ) (f : A → A) (m' : Map A) : Type ℓ where
    pub valid : IsValid m'
    pub distinct : IsDistinct m'
    pub tombless : IsTombless m → IsTombless m'
    pub reads :
        (k : ℕ) → map_get m' k ≡ (if k == key then Option.map f (map_get m k) else map_get m k)
    pub size : m'.size ≡ m.size

  module _ (m : Map A) (key : ℕ) (f : A → A) (v : IsValid m) (d : IsDistinct m) (p : ℕ) (a : A)
      (there : slot_at m p ≡ item key a) where
    abbrev changed : Map A
    changed = written m m.count p (item key (f a))

    p-lt : p < m.size
    p-lt = slot_in_range m p key a v.width there

    slot_ne : (q : ℕ) → (p == q) ≡ false → slot_at changed q ≡ slot_at m q
    slot_ne q e = rw (slot-written m m.count p q (item key (f a)) v p-lt, e)

    slot_self : (q : ℕ) → (p == q) ≡ true → slot_at changed q ≡ item key (f a)
    slot_self q e = rw (slot-written m m.count p q (item key (f a)) v p-lt, e)

    -- Where an item stands now, an item of the same key stood.
    item_old : (q k : ℕ) (b : A) → slot_at changed q ≡ item k b → (c : A) × (slot_at m q ≡ item k c)
    item_old q k b h = elim (Bool-cases (p == q)) [
      | inl e ↦
          let same : p ≡ q = ground arith in
          let k_key : key ≡ k = cc (slot_self q e, h) in (a, cc (there, same, k_key))
      | inr e ↦ (b, sym (slot_ne q e) ∙ h)
    ]

    changed-IsValid : IsValid changed
    changed-IsValid = record {
      width = length-set m.table p (item key (f a)) ∙ v.width;
      small = v.small;
      counted =
          omega
            (arith, v.counted, rw there at (live-set m.table p (item key (f a)) (rw v.width p-lt)));
      reachable = λ k b i j hi hj h void.
          let (c, was) = item_old _ k b h in
          elim (Bool-cases (p == pos m.size (home m k) j)) [
            | inl e ↦ cc (slot_self _ e, void)
            | inr e ↦ v.reachable k c i j hi hj was (sym (slot_ne _ e) ∙ void)
          ];
    }

    changed-IsDistinct : IsDistinct changed
    changed-IsDistinct k x y q r h g =
        let (x', hx) = item_old q k x h in let (y', hy) = item_old r k y g in d k x' y' q r hx hy

    changed_reads :
        (k : ℕ) → map_get changed k ≡ (if k == key then Option.map f (map_get m k) else map_get m k)
    changed_reads k = elim (Bool-cases (k == key)) [
      | inl e ↦
          let same : k ≡ key = ground arith in
          rw (e, same, get-Holds m key a v d (p, there))
            (get-Holds changed key (f a) changed-IsValid changed-IsDistinct
              (p, slot_self p (ground arith)))
      | inr e ↦ rw e (elim (find_cases m k v) [
        | present q b g h ↦
            let apart : (p == q) ≡ false =
              let ne : p ≢ q = λ s. let t : k ≡ key = cc (there, h, s) in ground arith in
              ground arith in
            rw (get_found m k q b g h)
              (get-Holds changed k b changed-IsValid changed-IsDistinct (q, slot_ne q apart ∙ h))
        | absent g none_there ↦ rw (get_absent m k g) (elim (find_cases changed k changed-IsValid) [
          | absent g' _ ↦ get_absent changed k g'
          | present q b g' h ↦ let (c, was) = item_old q k b h in absurd (none_there c (q, was))
        ])
      ])
    ]

    changed-IsTombless : IsTombless m → IsTombless changed
    changed-IsTombless t q h = elim (Bool-cases (p == q)) [
      | inl e ↦ cc (slot_self q e, h)
      | inr e ↦ t q (sym (slot_ne q e) ∙ h)
    ]

  pub update-Changes :
      (m : Map A) (key : ℕ) (f : A → A)
      → IsValid m
      → IsDistinct m
      → Changes m key f (map_update m key f)
  unfolding map_update
  update-Changes m key f v d = elim (find_cases m key v) [
    | absent g none_there ↦
        rw (g, map_update)
          (record {
            valid = v;
            distinct = d;
            tombless = λ t. t;
            reads = λ k. elim (Bool-cases (k == key)) [
              | inl e ↦ let same : k ≡ key = ground arith in rw (e, same, get_absent m key g)
              | inr e ↦ rw e
            ];
            size = refl;
          })
    | present p a g there ↦
        rw (g, map_update, there)
          (record {
            valid = changed-IsValid m key f v d p a there;
            distinct = changed-IsDistinct m key f v d p a there;
            tombless = changed-IsTombless m key f v d p a there;
            reads = changed_reads m key f v d p a there;
            size = refl;
          })
  ]
