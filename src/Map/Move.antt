-- ===== src/Map/Move.antt =====
-- The loop of `map_rehash` in src/map.c, which puts the items of the old table into the new one.
use qrtr.Base.{
  ℕ, zero, suc, ◌+◌, ◌≤◌, ◌<◌, ◌≡◌, ◌↔◌, ◌⊎◌, refl, ◌∙◌, ◌≢◌, inl, inr, Bool, Option, none, some,
  List, [], ◌∷◌, arith, ◌==◌, Bool-cases, get_or,
}
use qrtr.Map.{Slot, empty, deleted, item, Map, Put, done, slot_at, move_entries, reput_loop}
use qrtr.Map.Probe.{IsValid, Holds, IsDistinct, live}
use qrtr.Map.Round.{IsTombless, Stored, round_map, round_run, round-Stored}

module _ {ℓ} {A : Type ℓ} where
  -- An entry of the old table holds the item.
  abbrev pub Listed : List (Slot A) → ℕ → A → Type ℓ
  Listed ss k a = (p : ℕ) × (get_or ss p empty ≡ item k a)

  abbrev pub IsDistinctList : List (Slot A) → Type ℓ
  IsDistinctList ss =
      (k : ℕ) (a b : A) (p q : ℕ)
      → get_or ss p empty ≡ item k a
      → get_or ss q empty ≡ item k b
      → p ≡ q

  abbrev IsApart : Map A → List (Slot A) → Type ℓ
  IsApart m ss = (k : ℕ) (a b : A) → Holds m k a → Listed ss k b → ⊥

  -- What a run of the loop over `ss` does to the new map.
  pub record Moved (ss : List (Slot A)) (m m' : Map A) : Type ℓ where
    pub valid : IsValid m'
    pub size : m'.size ≡ m.size
    pub grows : m'.count ≤ m.count + live ss
    pub tombless : IsTombless m'
    pub distinct : IsDistinct m'
    pub origin : (k : ℕ) (a : A) → Holds m' k a → Holds m k a ⊎ Listed ss k a
    pub holds :
        IsDistinctList ss
        → IsApart m ss
        → (k : ℕ) (a : A) → Holds m' k a ↔ (Holds m k a ⊎ Listed ss k a)

  Listed-tail :
      (s : Slot A) (ss : List (Slot A)) (k : ℕ) (a : A) → Listed ss k a → Listed (s ∷ ss) k a
  Listed-tail s ss k a (p, h) = (suc p, h)

  IsDistinct_tail : (s : Slot A) (ss : List (Slot A)) → IsDistinctList (s ∷ ss) → IsDistinctList ss
  IsDistinct_tail s ss d k a b p q h g =
      let e : suc p ≡ suc q = d k a b (suc p) (suc q) h g in omega arith

  -- An entry with no item adds nothing.
  skip_entry :
      (s : Slot A) (ss : List (Slot A)) (m m' : Map A)
      → ((k : ℕ) (a : A) → s ≢ item k a)
      → live (s ∷ ss) ≡ live ss
      → Moved ss m m'
      → Moved (s ∷ ss) m m'
  skip_entry s ss m m' none_here e t = record {
    valid = t.valid;
    size = t.size;
    grows = rw e t.grows;
    tombless = t.tombless;
    distinct = t.distinct;
    origin = λ k a h. widen k a (t.origin k a h);
    holds = λ d apart k a.
        let iff =
          t.holds (IsDistinct_tail s ss d) (λ j x y h l. apart j x y h (Listed-tail s ss j y l)) k
            a in
        (λ h. widen k a (iff.0 h), λ h. iff.1 (narrow k a h));
  }
    where
      widen : (k : ℕ) (a : A) → (Holds m k a ⊎ Listed ss k a) → (Holds m k a ⊎ Listed (s ∷ ss) k a)
      widen k a (inl h) = inl h
      widen k a (inr l) = inr (Listed-tail s ss k a l)

      narrow : (k : ℕ) (a : A) → (Holds m k a ⊎ Listed (s ∷ ss) k a) → (Holds m k a ⊎ Listed ss k a)
      narrow k a (inl h) = inl h
      narrow k a (inr (zero, h)) = absurd (none_here k a h)
      narrow k a (inr (suc p, h)) = inr (p, h)

  -- An item that is put into the map, and then the rest of the entries.
  put_entry :
      (key : ℕ) (x : A) (ss : List (Slot A)) (m m₁ m' : Map A) (old : Option A)
      → IsTombless m
      → IsDistinct m
      → Stored m key x old m₁
      → Moved ss m₁ m'
      → Moved (item key x ∷ ss) m m'
  put_entry key x ss m m₁ m' old no_tombs once st t = record {
    valid = t.valid;
    size = t.size ∙ st.size;
    grows = omega (arith, t.grows, st.grows);
    tombless = t.tombless;
    distinct = t.distinct;
    origin = λ k a h. older k a (t.origin k a h);
    holds = λ d apart k a.
        let iff = t.holds (IsDistinct_tail _ ss d) (apart_rest d apart) k a in
        (λ h. to k a (iff.0 h), λ h. iff.1 (from d apart k a h));
  }
    where
      older :
          (k : ℕ) (a : A)
          → (Holds m₁ k a ⊎ Listed ss k a)
          → (Holds m k a ⊎ Listed (item key x ∷ ss) k a)
      older k a (inr l) = inr (Listed-tail _ ss k a l)
      older k a (inl h) = elim (st.origin k a h) [ inl (e, f) ↦ inr (0, rw (e, f)) | inr g ↦ inl g ]

      once₁ : IsDistinct m₁
      once₁ = st.distinct once (λ p e b h. no_tombs p e)

      apart_rest : IsDistinctList (item key x ∷ ss) → IsApart m (item key x ∷ ss) → IsApart m₁ ss
      apart_rest d apart k a b h (p, l) = elim (Bool-cases (k == key)) [
        | inl e ↦
            let same : key ≡ k = ground arith in
            let clash : suc p ≡ 0 = d k b x (suc p) 0 l (rw same) in absurd (omega arith)
        | inr e ↦ apart k a b ((st.others k a (ground arith)).0 h) (suc p, l)
      ]

      to :
          (k : ℕ) (a : A)
          → (Holds m₁ k a ⊎ Listed ss k a)
          → (Holds m k a ⊎ Listed (item key x ∷ ss) k a)
      to k a (inr l) = inr (Listed-tail _ ss k a l)
      to k a (inl (p, h)) = elim (Bool-cases (k == key)) [
        | inl e ↦
            let same : k ≡ key = ground arith in
            let h' : slot_at m₁ p ≡ item key a = rw same at h in
            let there = once₁ key a x p st.self.0 h' st.self.1 in
            inr (0, cc (h, h', rw there at h', st.self.1))
        | inr e ↦ inl ((st.others k a (ground arith)).0 (p, h))
      ]

      from :
          IsDistinctList (item key x ∷ ss)
          → IsApart m (item key x ∷ ss)
          → (k : ℕ) (a : A) → (Holds m k a ⊎ Listed (item key x ∷ ss) k a)
          → (Holds m₁ k a ⊎ Listed ss k a)
      from d apart k a (inr (suc p, h)) = inr (p, h)
      from d apart k a (inr (zero, h)) = inl (st.self.0, st.self.1 ∙ h)
      from d apart k a (inl h) = elim (Bool-cases (k == key)) [
        | inl e ↦ let same : key ≡ k = ground arith in absurd (apart k a x h (0, rw same))
        | inr e ↦ inl ((st.others k a (ground arith)).1 h)
      ]

  move_item :
      (put : Map A → ℕ → Option A → Put A) (k : ℕ) (x : A) (ss : List (Slot A)) (m m₁ : Map A)
      (old : Option A) (r : Put A)
      → put m k (some x) ≡ done old m₁
      → move_entries put ss m₁ ≡ r
      → move_entries put (item k x ∷ ss) m ≡ r
  unfolding move_entries
  move_item put k x ss m m₁ old r e h = rw (e, move_entries) h

  -- With room for all of them, the loop puts every item and does not fail.
  pub move_entries-Moved :
      (calloc : ℕ → Bool) (fuel : ℕ) (ss : List (Slot A)) (m : Map A)
      → IsValid m
      → IsTombless m
      → IsDistinct m
      → m.count + live ss ≤ m.size
      → (m' : Map A) × (move_entries (reput_loop calloc (suc fuel)) ss m ≡ done none m')
        × Moved ss m m'
  unfolding move_entries
  move_entries-Moved calloc fuel [] m v no_tombs once room = (
    m,
    refl,
    record {
      valid = v;
      size = refl;
      grows = omega arith;
      tombless = no_tombs;
      distinct = once;
      origin = λ k a. inl;
      holds = λ d apart k a. (inl, only_left k a);
    },
  )
    where
      only_left : (k : ℕ) (a : A) → (Holds m k a ⊎ Listed [] k a) → Holds m k a
      only_left k a (inl h) = h
      only_left k a (inr (p, h)) = absurd (cc h)
  move_entries-Moved calloc fuel (empty ∷ ss) m v no_tombs once room =
      let (m', run, t) = move_entries-Moved calloc fuel ss m v no_tombs once room in
      (m', run, skip_entry empty ss m m' (λ k a e. cc e) refl t)
  move_entries-Moved calloc fuel (deleted ∷ ss) m v no_tombs once room =
      let (m', run, t) = move_entries-Moved calloc fuel ss m v no_tombs once room in
      (m', run, skip_entry deleted ss m m' (λ k a e. cc e) refl t)
  move_entries-Moved calloc fuel (item k x ∷ ss) m v no_tombs once room =
      let more : m.count < m.size = omega arith in
      let st = round-Stored m k v more x in
      let m₁ = round_map m k v more x in
      let (m', run, t) =
        move_entries-Moved calloc fuel ss m₁ st.valid (st.tombless no_tombs)
          (st.distinct once (λ p e b h. no_tombs p e)) (omega (arith, st.grows, st.size)) in
      (
        m',
        move_item (reput_loop calloc (suc fuel)) k x ss m m₁ _ _
            (round_run m k v more x calloc fuel) run,
        put_entry k x ss m m₁ m' _ no_tombs once st t,
      )
