-- ===== src/Map/Search.antt =====
-- What the loops of `map_hash` and `map_find` in src/map.c return.
use qrtr.Base.{
  ℕ, zero, suc, ◌+◌, ◌%◌, ◌≤◌, ◌<◌, ◌≡◌, refl, ◌≢◌, inl, inr, true, Option, none, some, arith, ◌==◌,
  Bool-cases, u32_mod,
}
use qrtr.Map.{
  Slot, empty, deleted, item, Map, Hashed, no_slot, at, slot_at, is_free, hash_loop, find_loop,
}
use qrtr.Map.Probe.{pos, pos-suc, IsOther, IsPassed, home}

module _ {ℓ} {A : Type ℓ} (m : Map A) (key : ℕ) (start : home m key < m.size) where
  abbrev pub visit : ℕ → Slot A
  visit j = slot_at m (pos m.size (home m key) j)

  abbrev pub Between : (Slot A → Type 0) → ℕ → ℕ → Type 0
  Between P i j = (l : ℕ) → i ≤ l → l < j → P (visit l)

  Between-extend :
      (P : Slot A → Type 0) (i j : ℕ) → P (visit i) → Between P (i + 1) j → Between P i j
  Between-extend P i j h rest l hi hj = elim (Bool-cases (i == l)) [
    | inl e ↦ let t : l ≡ i = ground arith in rw t h
    | inr e ↦ rest l (ground arith) hj
  ]

  -- The outcomes of `map_hash`'s loop from the i-th visit.
  pub data HashSpec (i : ℕ) (r : Hashed A) : Type ℓ where
    exhausted : r ≡ no_slot → Between (IsOther key) i m.size → HashSpec i r
    takes_free :
        (j : ℕ)
        → i ≤ j
        → j < m.size
        → Between (IsOther key) i j
        → is_free (visit j) ≡ true
        → r ≡ at (pos m.size (home m key) j) (record m { count = (m.count + 1) % u32_mod })
        → HashSpec i r
    takes_own :
        (j : ℕ)
        → i ≤ j
        → j < m.size
        → Between (IsOther key) i j
        → (a : A) → visit j ≡ item key a
        → r ≡ at (pos m.size (home m key) j) m
        → HashSpec i r

  HashSpec-extend :
      (i : ℕ) (r : Hashed A) → IsOther key (visit i) → HashSpec (i + 1) r → HashSpec i r
  HashSpec-extend i r h (exhausted e b) = exhausted e (Between-extend (IsOther key) i m.size h b)
  HashSpec-extend i r h (takes_free j lo hi b f e) =
      takes_free j (omega arith) hi (Between-extend (IsOther key) i j h b) f e
  HashSpec-extend i r h (takes_own j lo hi b a f e) =
      takes_own j (omega arith) hi (Between-extend (IsOther key) i j h b) a f e

  pub nothing-Between : (P : Slot A → Type 0) (i : ℕ) → Between P i i
  nothing-Between P i l lo hi = absurd (omega arith)

  hash_step-HashSpec :
      (s : Slot A) (rounds i : ℕ)
      → visit i ≡ s
      → i < m.size
      → HashSpec (i + 1) (hash_loop rounds ((pos m.size (home m key) i + 1) % m.size) key m)
      → HashSpec i (hash_loop (suc rounds) (pos m.size (home m key) i) key m)
  unfolding hash_loop
  hash_step-HashSpec empty rounds i h lt rest =
      takes_free i (omega arith) lt (nothing-Between (IsOther key) i) (rw h) (rw h)
  hash_step-HashSpec deleted rounds i h lt rest =
      takes_free i (omega arith) lt (nothing-Between (IsOther key) i) (rw h) (rw h)
  hash_step-HashSpec (item k a) rounds i h lt rest = elim (Bool-cases (k == key)) [
    | inl e ↦
        let same : k ≡ key = ground arith in
        takes_own i (omega arith) lt (nothing-Between (IsOther key) i) a (rw (h, same)) (rw (h, e))
    | inr e ↦
        let other : k ≢ key = ground arith in rw (h, e) (HashSpec-extend i _ (rw h other) rest)
  ]

  pub hash_loop-HashSpec :
      (rounds i : ℕ)
      → i + rounds ≡ m.size
      → HashSpec i (hash_loop rounds (pos m.size (home m key) i) key m)
  unfolding hash_loop
  hash_loop-HashSpec zero i e = exhausted refl λ l lo hi. absurd (omega arith)
  hash_loop-HashSpec (suc rounds) i e = hash_step-HashSpec (visit i) rounds i refl (omega arith) (
      rw (pos-suc m.size (home m key) i start (omega arith))
        (hash_loop-HashSpec rounds (i + 1) (omega arith)))

  -- The outcomes of `map_find`'s loop from the i-th visit.
  pub data FindSpec (i : ℕ) (r : Option ℕ) : Type ℓ where
    passed_all : r ≡ none → Between (IsPassed key) i m.size → FindSpec i r
    stopped :
        (j : ℕ)
        → i ≤ j
        → j < m.size
        → Between (IsPassed key) i j
        → visit j ≡ empty
        → r ≡ none
        → FindSpec i r
    found :
        (j : ℕ)
        → i ≤ j
        → j < m.size
        → Between (IsPassed key) i j
        → (a : A) → visit j ≡ item key a
        → r ≡ some (pos m.size (home m key) j)
        → FindSpec i r

  FindSpec-extend :
      (i : ℕ) (r : Option ℕ) → IsPassed key (visit i) → FindSpec (i + 1) r → FindSpec i r
  FindSpec-extend i r h (passed_all e b) = passed_all e (Between-extend (IsPassed key) i m.size h b)
  FindSpec-extend i r h (stopped j lo hi b f e) =
      stopped j (omega arith) hi (Between-extend (IsPassed key) i j h b) f e
  FindSpec-extend i r h (found j lo hi b a f e) =
      found j (omega arith) hi (Between-extend (IsPassed key) i j h b) a f e

  find_step-FindSpec :
      (s : Slot A) (rounds i : ℕ)
      → visit i ≡ s
      → i < m.size
      → FindSpec (i + 1) (find_loop rounds ((pos m.size (home m key) i + 1) % m.size) key m)
      → FindSpec i (find_loop (suc rounds) (pos m.size (home m key) i) key m)
  unfolding find_loop
  find_step-FindSpec empty rounds i h lt rest =
      stopped i (omega arith) lt (nothing-Between (IsPassed key) i) h (rw (h, find_loop))
  find_step-FindSpec deleted rounds i h lt rest =
      rw (h, find_loop) (FindSpec-extend i _ (rw h tt) rest)
  find_step-FindSpec (item k a) rounds i h lt rest = elim (Bool-cases (k == key)) [
    | inl e ↦
        let same : k ≡ key = ground arith in
        found i (omega arith) lt (nothing-Between (IsPassed key) i) a (rw (h, same))
          (rw (h, find_loop, e))
    | inr e ↦
        let other : k ≢ key = ground arith in
        rw (h, find_loop, e) (FindSpec-extend i _ (rw h other) rest)
  ]

  pub find_loop-FindSpec :
      (rounds i : ℕ)
      → i + rounds ≡ m.size
      → FindSpec i (find_loop rounds (pos m.size (home m key) i) key m)
  unfolding find_loop
  find_loop-FindSpec zero i e = passed_all refl λ l lo hi. absurd (omega arith)
  find_loop-FindSpec (suc rounds) i e = find_step-FindSpec (visit i) rounds i refl (omega arith) (
      rw (pos-suc m.size (home m key) i start (omega arith))
        (find_loop-FindSpec rounds (i + 1) (omega arith)))
