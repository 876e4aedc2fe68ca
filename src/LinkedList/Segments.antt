-- ===== src/LinkedList/Segments.antt =====
-- Segments of the links of src/list.h: which items stand in a row, and what a write to a link leaves.
use qrtr.Base.{ℕ, ◌≡◌, ◌≢◌, refl, sym, ◌∙◌, List, [], ◌∷◌, ◌++◌, arith}
use qrtr.LinkedList.{Links, update}

abbrev pub first_or : List ℕ → ℕ → ℕ
first_or [] d = d
first_or (x ∷ xs) d = x

abbrev pub last_or : List ℕ → ℕ → ℕ
last_or [] d = d
last_or (x ∷ xs) d = last_or xs x

abbrev pub Lacks : ℕ → List ℕ → Type 0
Lacks x [] = Unit {0}
Lacks x (y ∷ ys) = (y ≢ x) × Lacks x ys

abbrev pub IsDistinct : List ℕ → Type 0
IsDistinct [] = Unit {0}
IsDistinct (x ∷ xs) = Lacks x xs × IsDistinct xs

-- The items stand in a row, the first after `before` and the last before `after`.
abbrev pub Segment : (ℕ → ℕ) → (ℕ → ℕ) → ℕ → List ℕ → ℕ → Type 0
Segment next prev before [] after = Unit {0}
Segment next prev before (x ∷ xs) after =
    (x ≢ 0) × (prev x ≡ before) × (next x ≡ first_or xs after) × Segment next prev x xs after

-- The links are those of a list of items.
pub record Represents (s : Links) (xs : List ℕ) : Type 0 where
  pub head_at : s.head ≡ first_or xs 0
  pub tail_at : s.tail ≡ last_or xs 0
  pub linked : Segment s.next s.prev 0 xs 0
  pub distinct : IsDistinct xs

pub update_same : (f : ℕ → ℕ) (p v : ℕ) → update f p v p ≡ v
update_same f p v = ground arith

pub update_other : (f : ℕ → ℕ) (p v a : ℕ) → a ≢ p → update f p v a ≡ f a
update_other f p v a h = ground arith

pub last_or-append : (xs ys : List ℕ) (d : ℕ) → last_or (xs ++ ys) d ≡ last_or ys (last_or xs d)
last_or-append [] ys d = refl
last_or-append (x ∷ xs) ys d = last_or-append xs ys x

pub first_or-append : (xs ys : List ℕ) (d : ℕ) → first_or (xs ++ ys) d ≡ first_or xs (first_or ys d)
first_or-append [] ys d = refl
first_or-append (x ∷ xs) ys d = refl

pub Lacks-append : (x : ℕ) (xs ys : List ℕ) → Lacks x xs → Lacks x ys → Lacks x (xs ++ ys)
Lacks-append x [] ys h g = g
Lacks-append x (y ∷ xs) ys (a, h) g = (a, Lacks-append x xs ys h g)

pub Lacks-left : (x : ℕ) (xs ys : List ℕ) → Lacks x (xs ++ ys) → Lacks x xs
Lacks-left x [] ys h = tt
Lacks-left x (y ∷ xs) ys (a, h) = (a, Lacks-left x xs ys h)

pub Lacks-right : (x : ℕ) (xs ys : List ℕ) → Lacks x (xs ++ ys) → Lacks x ys
Lacks-right x [] ys h = h
Lacks-right x (y ∷ xs) ys (a, h) = Lacks-right x xs ys h

-- An item among others that are distinct.
pub IsDistinct-without :
    (x : ℕ) (ys zs : List ℕ)
    → IsDistinct (ys ++ x ∷ zs)
    → Lacks x (ys ++ zs) × IsDistinct (ys ++ zs)
IsDistinct-without x [] zs h = h
IsDistinct-without x (y ∷ ys) zs (l, h) =
    let (out, d) = IsDistinct-without x ys zs h in
    let (apart, rest) = Lacks-right y ys (x ∷ zs) l in
    let lacks = Lacks-append y ys zs (Lacks-left y ys (x ∷ zs) l) rest in
    (((λ e. apart (sym e)), out), (lacks, d))

pub IsDistinct-with :
    (x : ℕ) (ys zs : List ℕ)
    → Lacks x (ys ++ zs)
    → IsDistinct (ys ++ zs)
    → IsDistinct (ys ++ x ∷ zs)
IsDistinct-with x [] zs h d = (h, d)
IsDistinct-with x (y ∷ ys) zs (a, h) (l, d) = (
  Lacks-append y ys (x ∷ zs) (Lacks-left y ys zs l) ((λ e. a (sym e)), Lacks-right y ys zs l),
  IsDistinct-with x ys zs h d,
)

pub Lacks-insert :
    (y x : ℕ) (ys : List ℕ) (a : ℕ) (zs : List ℕ)
    → x ≢ y
    → Lacks y (ys ++ a ∷ zs)
    → Lacks y (ys ++ a ∷ x ∷ zs)
Lacks-insert y x [] a zs n (h, l) = (h, (n, l))
Lacks-insert y x (w ∷ ys) a zs n (h, l) = (h, Lacks-insert y x ys a zs n l)

pub IsDistinct-insert :
    (x : ℕ) (ys : List ℕ) (a : ℕ) (zs : List ℕ)
    → Lacks x (ys ++ a ∷ zs)
    → IsDistinct (ys ++ a ∷ zs)
    → IsDistinct (ys ++ a ∷ x ∷ zs)
IsDistinct-insert x [] a zs (n, l) (m, d) = (((λ e. n (sym e)), m), (l, d))
IsDistinct-insert x (y ∷ ys) a zs (n, l) (m, d) =
    (Lacks-insert y x ys a zs (λ e. n (sym e)) m, IsDistinct-insert x ys a zs l d)

pub Lacks-last : (y : ℕ) (ys zs : List ℕ) → IsDistinct (y ∷ ys ++ zs) → Lacks (last_or ys y) zs
Lacks-last y [] zs (l, d) = l
Lacks-last y (x ∷ ys) zs (l, d) = Lacks-last x ys zs d

-- The last of a row is not one that the row lacks.
pub last_or-ne : (x y : ℕ) (ys : List ℕ) → Lacks x (y ∷ ys) → last_or ys y ≢ x
last_or-ne x y [] (a, h) = a
last_or-ne x y (z ∷ ys) (a, h) = last_or-ne x z ys h

module _ (next prev : ℕ → ℕ) where
  pub Segment-append :
      (before : ℕ) (xs ys : List ℕ) (after : ℕ)
      → Segment next prev before xs (first_or ys after)
      → Segment next prev (last_or xs before) ys after
      → Segment next prev before (xs ++ ys) after
  Segment-append before [] ys after h g = g
  Segment-append before (x ∷ xs) ys after (n, p, e, h) g =
      (n, p, e ∙ sym (first_or-append xs ys after), Segment-append x xs ys after h g)

  pub Segment-split :
      (before : ℕ) (xs ys : List ℕ) (after : ℕ)
      → Segment next prev before (xs ++ ys) after
      → Segment next prev before xs (first_or ys after)
        × Segment next prev (last_or xs before) ys after
  Segment-split before [] ys after h = (tt, h)
  Segment-split before (x ∷ xs) ys after (n, p, e, h) =
      let (a, b) = Segment-split x xs ys after h in ((n, p, e ∙ first_or-append xs ys after, a), b)

  pub last_or-ne-null :
      (before x : ℕ) (xs : List ℕ) (after : ℕ)
      → Segment next prev before (x ∷ xs) after
      → last_or xs x ≢ 0
  last_or-ne-null before x [] after (n, p, e, h) = n
  last_or-ne-null before x (y ∷ xs) after (n, p, e, h) = last_or-ne-null x y xs after h

  -- Writes to other items.
  pub Segment-next :
      (before : ℕ) (xs : List ℕ) (after q v : ℕ)
      → Lacks q xs
      → Segment next prev before xs after
      → Segment (update next q v) prev before xs after
  Segment-next before [] after q v l h = tt
  Segment-next before (x ∷ xs) after q v (a, l) (n, p, e, h) =
      (n, p, update_other next q v x a ∙ e, Segment-next x xs after q v l h)

  pub Segment-prev :
      (before : ℕ) (xs : List ℕ) (after q v : ℕ)
      → Lacks q xs
      → Segment next prev before xs after
      → Segment next (update prev q v) before xs after
  Segment-prev before [] after q v l h = tt
  Segment-prev before (x ∷ xs) after q v (a, l) (n, p, e, h) =
      (n, update_other prev q v x a ∙ p, e, Segment-prev x xs after q v l h)

  -- A write to the first item, and one to the last.
  pub Segment-first :
      (before x : ℕ) (xs : List ℕ) (after v : ℕ)
      → Lacks x xs
      → Segment next prev before (x ∷ xs) after
      → Segment next (update prev x v) v (x ∷ xs) after
  Segment-first before x xs after v l (n, p, e, h) =
      (n, update_same prev x v, e, Segment-prev x xs after x v l h)

  pub Segment-last :
      (before x : ℕ) (xs : List ℕ) (after v : ℕ)
      → IsDistinct (x ∷ xs)
      → Segment next prev before (x ∷ xs) after
      → Segment (update next (last_or xs x) v) prev before (x ∷ xs) v
  Segment-last before x [] after v d (n, p, e, h) = (n, p, update_same next x v, tt)
  Segment-last before x (y ∷ xs) after v (l, d) (n, p, e, h) = (
    n,
    p,
    update_other next (last_or xs y) v x (λ k. last_or-ne x y xs l (sym k)) ∙ e,
    Segment-last x y xs after v d h,
  )
