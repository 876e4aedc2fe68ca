-- ===== src/LinkedList/Removal.antt =====
-- `list_remove` of src/list.h on the links of a list.
use qrtr.Base.{ℕ, ◌≡◌, ◌≢◌, refl, sym, ◌∙◌, true, false, List, [], ◌∷◌, ◌++◌, ◌==◌, arith}
use qrtr.LinkedList.{Links, update, list_remove}
use qrtr.LinkedList.Segments.{
  last_or, Lacks, IsDistinct, Segment, Represents, last_or-append, Lacks-left, Lacks-right,
  IsDistinct-without, Lacks-last, last_or-ne, Segment-append, Segment-split, last_or-ne-null,
  Segment-next, Segment-prev, Segment-first, Segment-last,
}
use qrtr.LinkedList.Writes.{removed_first, remove_first_run, removed_later, remove_later_run}
use qrtr.LinkedList.Edits.{Distinct_left, Leaves}

pub remove-Leaves :
    (s : Links) (ys zs : List ℕ) (x : ℕ)
    → Represents s (ys ++ x ∷ zs)
    → Leaves (list_remove x) s (ys ++ zs)
remove-Leaves s [] [] x r =
    let (n, p, e, rest) = r.linked in
    (
      removed_first s x (s.next x),
      remove_first_run s x n r.head_at,
      rw e (record { head_at = refl; tail_at = refl; linked = tt; distinct = tt }),
    )
remove-Leaves s [] (z ∷ zs) x r =
    let (n, p, e, rest) = r.linked in
    let (l, d) = r.distinct in
    let some_z : z ≢ 0 = rest.0 in
    let c : (z == 0) ≡ false = ground arith in
    (
      removed_first s x (s.next x),
      remove_first_run s x n r.head_at,
      rw (e, c, p)
          (record {
            head_at = refl;
            tail_at = r.tail_at;
            linked = Segment-prev (update s.next x 0) (update s.prev z 0) 0 (z ∷ zs) 0 x 0 l (
                Segment-first (update s.next x 0) s.prev x z zs 0 0 d.0
                  (Segment-next s.next s.prev x (z ∷ zs) 0 x 0 l rest));
            distinct = d;
          }),
    )
remove-Leaves s (y ∷ ys) zs x r = later zs r
  where
    P : ℕ
    P = last_or ys y

    -- The row before the item, linked to what follows the item.
    row :
        (zs : List ℕ) (F : ℕ) (prev : ℕ → ℕ)
        → Segment s.next prev 0 (y ∷ ys) x
        → IsDistinct (y ∷ ys)
        → Lacks x (y ∷ ys)
        → Segment (update (update s.next P F) x 0) (update prev x 0) 0 (y ∷ ys) F
    row zs F prev h d l = Segment-prev (update (update s.next P F) x 0) prev 0 (y ∷ ys) F x 0 l (
        Segment-next (update s.next P F) prev 0 (y ∷ ys) F x 0 l
          (Segment-last s.next prev 0 y ys x F d h))

    later :
        (zs : List ℕ) → Represents s (y ∷ ys ++ x ∷ zs) → Leaves (list_remove x) s (y ∷ ys ++ zs)
    later [] r =
        let (before, (n, p, e, rest)) =
          Segment-split s.next s.prev 0 (y ∷ ys) (x ∷ []) 0 r.linked in
        let (l, d) = IsDistinct-without x (y ∷ ys) [] r.distinct in
        let ly = Lacks-left x (y ∷ ys) [] l in
        let head_at : s.head ≡ y = r.head_at in
        let tail_at : s.tail ≡ x = r.tail_at ∙ last_or-append (y ∷ ys) (x ∷ []) 0 in
        let some_P : P ≢ 0 = last_or-ne-null s.next s.prev 0 y ys x before in
        let b : (x == x) ≡ true = ground arith in
        (
          removed_later s x (s.next x) (s.prev x),
          remove_later_run s x n (λ k. ly.0 (sym head_at ∙ k)) (λ k. some_P (sym p ∙ k))
              (λ k. n (sym k ∙ e)),
          rw (e, p, tail_at, b)
              (record {
                head_at = head_at;
                tail_at = sym (last_or-append (y ∷ ys) [] 0);
                linked =
                    Segment-append _ _ 0 (y ∷ ys) [] 0
                      (row [] 0 s.prev before (Distinct_left (y ∷ ys) [] d) ly) tt;
                distinct = d;
              }),
        )
    later (z ∷ zs) r =
        let (before, (n, p, e, rest)) =
          Segment-split s.next s.prev 0 (y ∷ ys) (x ∷ z ∷ zs) 0 r.linked in
        let (l, d) = IsDistinct-without x (y ∷ ys) (z ∷ zs) r.distinct in
        let ly = Lacks-left x (y ∷ ys) (z ∷ zs) l in
        let lz = Lacks-right x (y ∷ ys) (z ∷ zs) l in
        let (out, d') = IsDistinct-without z (y ∷ ys) zs d in
        let before_z = Lacks-left z (y ∷ ys) zs out in
        let after_z = Lacks-right z (y ∷ ys) zs out in
        let head_at : s.head ≡ y = r.head_at in
        let last = last_or zs z in
        let tail_at : s.tail ≡ last = r.tail_at ∙ last_or-append (y ∷ ys) (x ∷ z ∷ zs) 0 in
        let last_other : last ≢ x = last_or-ne x z zs lz in
        let some_P : P ≢ 0 = last_or-ne-null s.next s.prev 0 y ys x before in
        let some_z : z ≢ 0 = rest.0 in
        let b : (last == x) ≡ false = ground arith in
        let c : (z == 0) ≡ false = ground arith in
        let p₁ = update s.prev z P in
        let n₁ = update s.next P z in
        (
          removed_later s x (s.next x) (s.prev x),
          remove_later_run s x n (λ k. ly.0 (sym head_at ∙ k)) (λ k. some_P (sym p ∙ k))
              (λ k. lz.0 (sym e ∙ k)),
          rw (e, p, tail_at, b, c)
              (record {
                head_at = head_at;
                tail_at = sym (last_or-append (y ∷ ys) (z ∷ zs) 0);
                linked =
                    Segment-append (update n₁ x 0) (update p₁ x 0) 0 (y ∷ ys) (z ∷ zs) 0
                      (row zs z p₁ (Segment-prev s.next s.prev 0 (y ∷ ys) x z P before_z before)
                        (Distinct_left (y ∷ ys) (z ∷ zs) d) ly)
                      (Segment-prev (update n₁ x 0) p₁ P (z ∷ zs) 0 x 0 lz (
                        Segment-next n₁ p₁ P (z ∷ zs) 0 x 0 lz (
                          Segment-first n₁ s.prev x z zs 0 P after_z (
                            Segment-next s.next s.prev x (z ∷ zs) 0 P z (Lacks-last y ys (z ∷ zs) d)
                              rest))));
                distinct = d;
              }),
        )
