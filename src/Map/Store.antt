-- ===== src/Map/Store.antt =====
-- What `map_reput` of src/map.c does to the table once `map_hash` has found an index.
use qrtr.Base.{
  ℕ, ◌+◌, ◌<◌, ◌≡◌, ◌↔◌, refl, ◌∙◌, ◌≢◌, inl, inr, true, false, arith, ltb, ◌==◌, if◌then◌else◌,
  Bool-cases, set, length-set, get_or-set,
}
use qrtr.Map.{Slot, empty, deleted, item, Map, slot_at, is_free}
use qrtr.Map.Probe.{
  pos, pos-lt, pos_onto, pos_injective, IsOther, home, IsValid, IsReachable, Holds, IsDistinct,
  live-set, to_nat, slot_in_range,
}
use qrtr.Map.Search.{Between}

module _ {ℓ} {A : Type ℓ} where
  -- The entry is free or holds an item of `key`: what `map_hash` stops at.
  pub data IsTarget (key : ℕ) (s : Slot A) : Type ℓ where
    free : is_free s ≡ true → IsTarget key s
    own : (b : A) → s ≡ item key b → IsTarget key s

  -- The map that a write of `s` at index p leaves, with its new count.
  abbrev pub written : Map A → ℕ → ℕ → Slot A → Map A
  written m count p s = record { size = m.size; count = count; table = set m.table p s }

  pub slot-written :
      (m : Map A) (count p q : ℕ) (s : Slot A)
      → IsValid m
      → p < m.size
      → slot_at (written m count p s) q ≡ (if p == q then s else slot_at m q)
  slot-written m count p q s v h = get_or-set m.table p q s empty (rw v.width h)

  pub other_not_empty : (key : ℕ) (s : Slot A) → IsOther key s → s ≢ empty
  other_not_empty key empty h e = h
  other_not_empty key deleted h e = h
  other_not_empty key (item k a) h e = cc

  other_not_own : (key : ℕ) (s : Slot A) (a : A) → IsOther key s → s ≡ item key a → ⊥
  other_not_own key empty a h e = h
  other_not_own key deleted a h e = h
  other_not_own key (item k b) a h e = ground arith

module _ {ℓ} {A : Type ℓ} (m : Map A) (key : ℕ) (start : home m key < m.size) (v : IsValid m)
    (j : ℕ) (lt : j < m.size) (before : Between m key start (IsOther key) 0 j) (a : A)
    (count : ℕ) where
  abbrev pub target : ℕ
  target = pos m.size (home m key) j

  abbrev pub result : Map A
  result = written m count target (item key a)

  pub target-lt : target < m.size
  target-lt = pos-lt m.size (home m key) j start lt

  pub slot-result : (q : ℕ) → slot_at result q ≡ (if target == q then item key a else slot_at m q)
  slot-result q = slot-written m count target q (item key a) v target-lt

  pub slot-result_ne : (q : ℕ) → (target == q) ≡ false → slot_at result q ≡ slot_at m q
  slot-result_ne q e = rw (slot-result q, e)

  pub slot-result_self : (q : ℕ) → (target == q) ≡ true → slot_at result q ≡ item key a
  slot-result_self q e = rw (slot-result q, e)

  -- The index of the new item is reached by no other visit of its own probe.
  same_visit : (i : ℕ) → i < m.size → (target == pos m.size (home m key) i) ≡ true → j ≡ i
  same_visit i hi e = pos_injective m.size (home m key) j i start lt hi (ground arith)

  -- The entries that were passed keep the new item reachable, and no other item loses its way.
  result-IsReachable : IsReachable result
  result-IsReachable k b i l hi hl there =
      let q = pos m.size (home m k) i in
      let r = pos m.size (home m k) l in
      elim (Bool-cases (target == r)) [
        | inl e ↦ λ void. cc (slot-result_self r e, void)
        | inr e ↦ rw (slot-result_ne r e) (elim (Bool-cases (target == q)) [
          | inl f ↦
              let k_key : key ≡ k = cc (slot-result_self q f, there) in
              rw (← k_key) (
                let f' : (target == pos m.size (home m key) i) ≡ true = rw (← k_key) at f in
                let s : j ≡ i = same_visit i hi f' in
                other_not_empty key _ (before l (omega arith) (omega arith)))
          | inr f ↦ v.reachable k b i l hi hl (rw (slot-result_ne q f) at there)
        ])
      ]

  module _ (kind : IsTarget key (slot_at m target)) where
    pub result-IsValid : count ≡ m.count + to_nat (is_free (slot_at m target)) → IsValid result
    result-IsValid e = record {
      width = length-set m.table target (item key a) ∙ v.width;
      small = v.small;
      counted =
          omega (arith, live-set m.table target (item key a) (rw v.width target-lt), v.counted);
      reachable = result-IsReachable;
    }

    pub Holds-other : (k : ℕ) (b : A) → k ≢ key → Holds result k b ↔ Holds m k b
    Holds-other k b ne = (to, from)
      where
        to : Holds result k b → Holds m k b
        to (q, h) = elim (Bool-cases (target == q)) [
          | inl e ↦ absurd (ne (cc (slot-result_self q e, h)))
          | inr e ↦ (q, rw (slot-result_ne q e) at h)
        ]

        clash : (q : ℕ) → slot_at m q ≡ item k b → target ≡ q → ⊥
        clash q h e = elim kind [
          | free f ↦ let g : slot_at m target ≡ item k b = rw e h in cc (rw g at f)
          | own c f ↦ let g : slot_at m target ≡ item k b = rw e h in ne (cc (g, f))
        ]

        from : Holds m k b → Holds result k b
        from (q, h) = elim (Bool-cases (target == q)) [
          | inl e ↦ absurd (clash q h (ground arith))
          | inr e ↦ (q, rw (slot-result_ne q e) h)
        ]

    pub Holds-self : Holds result key a
    Holds-self = (target, slot-result_self target (ground arith))

    -- Unless a tombstone is taken while the key has an item further on, no second item arises.
    module _ (d : IsDistinct m)
        (fresh : slot_at m target ≡ deleted → (b : A) → Holds m key b → ⊥) where
      pub alone : (q : ℕ) (b : A) → slot_at m q ≡ item key b → target ≡ q
      alone q b h =
          let (i, hi, there) =
            pos_onto m.size (home m key) q start (slot_in_range m q key b v.width h) in
          alone_visit i hi (slot_at m target) refl (rw there h) ∙ there
        where
          alone_visit :
              (i : ℕ)
              → i < m.size
              → (s : Slot A) → slot_at m target ≡ s
              → slot_at m (pos m.size (home m key) i) ≡ item key b
              → target ≡ pos m.size (home m key) i
          alone_visit i hi (item k c) e g = elim kind [
            | free f ↦ absurd (cc (rw e at f))
            | own c' f ↦ d key c' b target _ f g
          ]
          alone_visit i hi deleted e g = absurd (fresh e b (_, g))
          alone_visit i hi empty e g = elim (Bool-cases (ltb i j)) [
            | inl f ↦ absurd (other_not_own key _ b (before i (omega arith) (ground arith)) g)
            | inr f ↦ elim (Bool-cases (j == i)) [
              | inl s ↦ let t : j ≡ i = ground arith in rw t
              | inr s ↦ absurd (v.reachable key b i j hi (ground arith) g e)
            ]
          ]

      pub result-IsDistinct : IsDistinct result
      result-IsDistinct k x y p q hp hq = elim (Bool-cases (target == p)) [
        | inl e ↦ elim (Bool-cases (target == q)) [
          | inl f ↦ ground arith
          | inr f ↦
              let k_key : key ≡ k = cc (slot-result_self p e, hp) in
              let h : slot_at m q ≡ item key y = cc (slot-result_ne q f, hq, k_key) in
              absurd (let t = alone q y h in ground arith)
        ]
        | inr e ↦ elim (Bool-cases (target == q)) [
          | inl f ↦
              let k_key : key ≡ k = cc (slot-result_self q f, hq) in
              let h : slot_at m p ≡ item key x = cc (slot-result_ne p e, hp, k_key) in
              absurd (let t = alone p x h in ground arith)
          | inr f ↦ d k x y p q (rw (slot-result_ne p e) at hp) (rw (slot-result_ne q f) at hq)
        ]
      ]
