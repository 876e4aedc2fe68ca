-- ===== src/LinkedList/Prepend.antt =====
-- `list_prepend` of src/list.h, and a removal after it.
use qrtr.Base.{
  ℕ, suc, ◌≡◌, ◌≢◌, refl, sym, ap, ◌∙◌, inl, inr, false, none, some, List, [], ◌∷◌, ◌==◌,
  if◌then◌else◌, arith, Bool-cases, length,
}
use qrtr.LinkedList.{Links, update, list_prepend, list_remove, list_for_each}
use qrtr.LinkedList.Segments.{first_or, Lacks, Segment, Represents, update_same, update_other}
use qrtr.LinkedList.Writes.{
  then_none, then_to, set_next_null, then_ok, if_false, set_next_ok, set_prev_ok, maybe_prev,
}
use qrtr.LinkedList.Runs.{for_each_step}

-- The links after `list_prepend` to a list that is not empty.
abbrev prepended : Links → ℕ → Links
prepended s x = record s { head = x; next = update s.next x s.head; prev = update s.prev x 0 }

prepend_run : (s : Links) (x : ℕ) → x ≢ 0 → s.head ≢ 0 → list_prepend x s ≡ some (prepended s x)
unfolding list_prepend
prepend_run s x n h =
    let b : (s.head == 0) ≡ false = ground arith in
    let s₁ = record s { prev = update s.prev x 0 } in
    then_ok _ _
      (then_ok _ _ (then_ok _ _ (set_prev_ok x 0 s n) (set_next_ok x s.head s₁ n))
        (if_false _ _ b refl))
      refl

-- Items of which none is the one that was written.
for_each_after :
    (s : Links) (xs : List ℕ) (before x : ℕ)
    → Lacks x xs
    → Segment s.next s.prev before xs 0
    → list_for_each (suc (length xs)) (prepended s x) (first_or xs 0) ≡ some xs
unfolding list_for_each
for_each_after s [] before x l h = refl
for_each_after s (y ∷ xs) before x (a, l) (n, p, e, h) =
    for_each_step (suc (length xs)) (prepended s x) y xs n (
      ap (list_for_each (suc (length xs)) (prepended s x)) (update_other s.next x s.head y a ∙ e)
      ∙ for_each_after s xs y x l h)

-- A removal of an item that is not the first and has a null prev.
remove_fault :
    (s : Links) (y : ℕ) → s.head ≢ y → s.prev y ≡ 0 → s.next y ≢ y → list_remove y s ≡ none
unfolding list_remove
remove_fault s y h p o =
    let N = s.next y in
    let b : (s.head == y) ≡ false = ground arith in
    let s₁ = record s { prev = if N == 0 then s.prev else update s.prev N (s.prev y) } in
    let k : s₁.prev y ≡ 0 = elim (Bool-cases (N == 0)) [
      | inl c ↦ rw c p
      | inr c ↦ rw c (update_other s.prev N (s.prev y) y (λ e. o (sym e)) ∙ p)
    ] in
    then_none _ _ (
      then_none _ _ (
        then_to _ _ (maybe_prev N (s.prev y) s)
          (if_false _ _ b (then_none _ _ (set_next_null (s₁.prev y) N s₁ k)))))

first_or-ne : (y : ℕ) (ys : List ℕ) → y ≢ 0 → Lacks y ys → first_or ys 0 ≢ y
first_or-ne y [] n l e = n (sym e)
first_or-ne y (z ∷ ys) n (a, l) e = a e

-- After list_prepend of a new item to a list that is not empty, list_for_each visits the new item
-- and then the others in order, but list_remove of the item that was first writes through NULL.
pub prepend_then_remove :
    (s : Links) (x y : ℕ) (ys : List ℕ)
    → Represents s (y ∷ ys)
    → x ≢ 0
    → Lacks x (y ∷ ys)
    → (s' : Links) × (list_prepend x s ≡ some s')
      × (list_for_each (suc (suc (suc (length ys)))) s' s'.head ≡ some (x ∷ y ∷ ys))
      × (list_remove y s' ≡ none)
prepend_then_remove s x y ys r n l =
    let (some_y, p, e, rest) = r.linked in
    let s' = prepended s x in
    let head_at : s.head ≡ y = r.head_at in
    let apart : y ≢ x = l.0 in
    let alone : first_or ys 0 ≢ y = first_or-ne y ys some_y r.distinct.0 in
    let walk : list_for_each (suc (suc (length ys))) s' y ≡ some (y ∷ ys) =
      for_each_after s (y ∷ ys) 0 x l r.linked in
    (
      s',
      prepend_run s x n (λ k. some_y (sym head_at ∙ k)),
      for_each_step (suc (suc (length ys))) s' x (y ∷ ys) n (
          ap (list_for_each (suc (suc (length ys))) s') (update_same s.next x s.head ∙ head_at)
          ∙ walk),
      remove_fault s' y (λ k. apart (sym k)) (update_other s.prev x 0 y apart ∙ p)
          (λ k. alone (sym e ∙ sym (update_other s.next x s.head y apart) ∙ k)),
    )
