-- ===== src/Map/Iterate.antt =====
-- `map_for_each` of src/map.h: an invariant rule for a body that may change the map, and what a
-- body that does not sees.
use qrtr.Base.{
  ℕ, zero, suc, ◌+◌, ◌-◌, ◌≤◌, ◌<◌, ◌≡◌, refl, ap, ◌∙◌, true, List, [], ◌∷◌, arith, length, get_or,
}
use qrtr.Map.{
  Slot, empty, deleted, item, Map, slot_at, is_free, owners, iter_loop, map_iter_from,
  map_iter_first, for_each, map_for_each,
}

module _ {ℓ κ μ} {A : Type ℓ} {S : Type κ} (map_of : S → Map A) (body : A → S → S)
    (P : ℕ → S → Type μ) (n : ℕ) (sized : (i : ℕ) (s : S) → P i s → (map_of s).size ≡ n)
    (skip : (i : ℕ) (s : S) → i < n → P i s → is_free (slot_at (map_of s) i) ≡ true → P (i + 1) s)
    (step : (i : ℕ) (s : S) (k : ℕ) (a : A)
      → i < n
      → P i s
      → slot_at (map_of s) i ≡ item k a
      → P (i + 1) (body a s)) where
  for_each_round :
      (sl : Slot A) (fuel rounds i : ℕ) (s : S)
      → slot_at (map_of s) i ≡ sl
      → i + suc rounds ≡ n
      → rounds < fuel
      → P i s
      → ((f : ℕ) (t : S)
          → rounds ≤ f
          → P (i + 1) t
          → P n (for_each map_of body f (iter_loop rounds (i + 1) (map_of t)) t))
      → P n (for_each map_of body fuel (iter_loop (suc rounds) i (map_of s)) s)
  unfolding for_each iter_loop
  for_each_round empty fuel rounds i s e sum lt p rest =
      rw e (rest fuel s (omega arith) (skip i s (omega arith) p (rw e)))
  for_each_round deleted fuel rounds i s e sum lt p rest =
      rw e (rest fuel s (omega arith) (skip i s (omega arith) p (rw e)))
  for_each_round (item k a) zero rounds i s e sum lt p rest = absurd (omega arith)
  for_each_round (item k a) (suc fuel) rounds i s e sum lt p rest =
      let q = step i s k a (omega arith) p e in
      let left : (map_of (body a s)).size - (i + 1) ≡ rounds =
        omega (arith, sized (i + 1) (body a s) q) in
      rw e (rw (e, left) (rest fuel (body a s) (omega arith) q))

  for_each_from :
      (rounds fuel i : ℕ) (s : S)
      → i + rounds ≡ n
      → rounds ≤ fuel
      → P i s
      → P n (for_each map_of body fuel (iter_loop rounds i (map_of s)) s)
  unfolding for_each iter_loop
  for_each_from zero zero i s e le p = let t : i ≡ n = omega arith in rw (← t) p
  for_each_from zero (suc fuel) i s e le p = let t : i ≡ n = omega arith in rw (← t) p
  for_each_from (suc rounds) fuel i s e le p =
      for_each_round (slot_at (map_of s) i) fuel rounds i s refl e (omega arith) p
        (λ f t le' q. for_each_from rounds f (i + 1) t (omega arith) le' q)

  -- The rule: what every step keeps holds at the end of the table.
  pub map_for_each_rule : (s : S) → P 0 s → P n (map_for_each map_of body s)
  unfolding map_for_each map_iter_first map_iter_from
  map_for_each_rule s p =
      let e : (map_of s).size - 0 ≡ (map_of s).size = omega arith in
      rw e (
        for_each_from (map_of s).size (map_of s).size 0 s (omega (arith, sized 0 s p)) (omega arith)
          p)

-- The body, run on every owner of a list in turn.
abbrev pub visit_all {ℓ κ} : {A : Type ℓ} {S : Type κ} → (A → S → S) → List A → S → S
visit_all body [] s = s
visit_all body (a ∷ rest) s = visit_all body rest (body a s)

module _ {ℓ} {A : Type ℓ} where
  -- The owners in the entries from index i on.
  owners_from : (m : Map A) (rounds i : ℕ) → List A
  owners_from m zero i = []
  owners_from m (suc rounds) i =
      let rest = owners_from m rounds (i + 1) in
      elim (slot_at m i) [ empty ↦ rest | deleted ↦ rest | item k a ↦ a ∷ rest ]

  abbrev AreFrom : Map A → ℕ → List (Slot A) → Type ℓ
  AreFrom m i ss = (q : ℕ) → slot_at m (i + q) ≡ get_or ss q empty

  head_slot :
      (m : Map A) (i : ℕ) (s : Slot A) (ss : List (Slot A)) → AreFrom m i (s ∷ ss) → slot_at m i ≡ s
  head_slot m i s ss h = let e : i + 0 ≡ i = omega arith in rw e at (h 0)

  tail_slots :
      (m : Map A) (i : ℕ) (s : Slot A) (ss : List (Slot A))
      → AreFrom m i (s ∷ ss)
      → AreFrom m (i + 1) ss
  tail_slots m i s ss h q = let e : i + suc q ≡ i + 1 + q = omega arith in rw e at (h (suc q))

  owners_from-owners :
      (m : Map A) (ss : List (Slot A)) (i : ℕ)
      → AreFrom m i ss
      → owners_from m (length ss) i ≡ owners ss
  unfolding owners_from owners
  owners_from-owners m [] i h = refl
  owners_from-owners m (empty ∷ ss) i h =
      rw (head_slot m i empty ss h, owners_from)
        (owners_from-owners m ss (i + 1) (tail_slots m i empty ss h))
  owners_from-owners m (deleted ∷ ss) i h =
      rw (head_slot m i deleted ss h, owners_from)
        (owners_from-owners m ss (i + 1) (tail_slots m i deleted ss h))
  owners_from-owners m (item k a ∷ ss) i h =
      rw (head_slot m i (item k a) ss h, owners_from)
        (ap (◌∷◌ a) (owners_from-owners m ss (i + 1) (tail_slots m i (item k a) ss h)))

  owners_from_free :
      (m : Map A) (rounds i : ℕ)
      → is_free (slot_at m i) ≡ true
      → owners_from m (suc rounds) i ≡ owners_from m rounds (i + 1)
  unfolding owners_from
  owners_from_free m rounds i e = by_slot (slot_at m i) refl e
    where
      by_slot :
          (s : Slot A)
          → slot_at m i ≡ s
          → is_free s ≡ true
          → owners_from m (suc rounds) i ≡ owners_from m rounds (i + 1)
      by_slot empty h f = rw (h, owners_from)
      by_slot deleted h f = rw (h, owners_from)
      by_slot (item k a) h f = absurd (cc f)

  owners_from_item :
      (m : Map A) (rounds i k : ℕ) (a : A)
      → slot_at m i ≡ item k a
      → owners_from m (suc rounds) i ≡ a ∷ owners_from m rounds (i + 1)
  unfolding owners_from
  owners_from_item m rounds i k a e = rw (e, owners_from)

-- A loop over a map whose table has as many entries as its size says, and whose body leaves the map
-- alone, runs the body once on the owner of each item, in the order of the table.
pub map_for_each-visit_all {ℓ κ} :
    {A : Type ℓ} {S : Type κ} (map_of : S → Map A) (body : A → S → S)
    → ((a : A) (s : S) → map_of (body a s) ≡ map_of s)
    → (s : S) → length (map_of s).table ≡ (map_of s).size
    → map_for_each map_of body s ≡ visit_all body (owners (map_of s).table) s
unfolding owners_from
map_for_each-visit_all {A = A} {S = S} map_of body same s width =
    let m : Map A = map_of s in
    let left : ℕ → List A = λ i. owners_from m (m.size - i) i in
    let rest : (i : ℕ) → i < m.size → m.size - i ≡ suc (m.size - (i + 1)) = λ i h. omega arith in
    let none_left : m.size - m.size ≡ 0 = omega arith in
    let (_, finished) =
      map_for_each_rule map_of body
        (λ i t. (map_of t ≡ m) × (visit_all body (left i) t ≡ visit_all body (left 0) s)) m.size
        (λ i t (e, _). ap (λ (n : Map A). n.size) e)
        (λ i t h (e, run) free.
          (e, rw (rest i h, owners_from_free m (m.size - (i + 1)) i (rw e at free)) at run))
        (λ i t k a h (e, run) there. (
          same a t ∙ e,
          rw (rest i h, owners_from_item m (m.size - (i + 1)) i k a (rw e at there)) at run,
        ))
        s (refl, refl) in
    let all : m.size - 0 ≡ length m.table = rw width (omega arith) in
    let zero_add : (q : ℕ) → 0 + q ≡ q = λ q. omega arith in
    let listed : owners_from m (length m.table) 0 ≡ owners m.table =
      owners_from-owners m m.table 0 (λ q. rw (zero_add q)) in
    let all_listed : owners_from m (m.size - 0) 0 ≡ owners m.table = rw all listed in
    rw none_left at finished ∙ ap (λ xs. visit_all body xs s) all_listed
