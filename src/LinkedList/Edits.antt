-- ===== src/LinkedList/Edits.antt =====
-- Each operation of src/list.h on the links of a list.
use qrtr.Base.{
  ℕ, ◌≡◌, ◌≢◌, refl, sym, ◌∙◌, true, false, some, List, [], ◌∷◌, ◌++◌, ◌==◌, if◌then◌else◌, arith,
}
use qrtr.LinkedList.{Links, Command, update, list_append, list_insert}
use qrtr.LinkedList.Segments.{
  last_or, Lacks, IsDistinct, Represents, update_same, update_other, last_or-append,
  first_or-append, Lacks-append, Lacks-left, Lacks-right, IsDistinct-without, IsDistinct-insert,
  last_or-ne, Segment-append, Segment-split, last_or-ne-null, Segment-next, Segment-prev,
  Segment-first, Segment-last,
}
use qrtr.LinkedList.Writes.{appended, append_run, inserted, insert_run}

Distinct_head : (ys zs : List ℕ) (z : ℕ) → IsDistinct (ys ++ z ∷ zs) → Lacks z zs
Distinct_head ys zs z d = Lacks-right z ys zs (IsDistinct-without z ys zs d).0

pub Distinct_left : (xs ys : List ℕ) → IsDistinct (xs ++ ys) → IsDistinct xs
Distinct_left [] ys d = tt
Distinct_left (x ∷ xs) ys (l, d) = (Lacks-left x xs ys l, Distinct_left xs ys d)

-- The command succeeds and leaves a list of these items.
abbrev pub Leaves : Command → Links → List ℕ → Type 0
Leaves f s xs = (s' : Links) × (f s ≡ some s') × Represents s' xs

IsDistinct-append : (x : ℕ) (xs : List ℕ) → Lacks x xs → IsDistinct xs → IsDistinct (xs ++ x ∷ [])
IsDistinct-append x [] l d = (tt, tt)
IsDistinct-append x (y ∷ ys) (a, l) (k, d) =
    (Lacks-append y ys (x ∷ []) k ((λ e. a (sym e)), tt), IsDistinct-append x ys l d)

pub append-Leaves :
    (s : Links) (xs : List ℕ) (x : ℕ)
    → Represents s xs
    → x ≢ 0
    → Lacks x xs
    → Leaves (list_append x) s (xs ++ x ∷ [])
append-Leaves s [] x r n l =
    let tail_at = r.tail_at in
    (
      appended s x (if s.tail == 0 then x else s.head) s.tail,
      append_run s x n,
      rw tail_at (record {
        head_at = refl;
        tail_at = refl;
        linked = (n, update_same s.prev x 0, update_same s.next x 0, tt);
        distinct = (tt, tt);
      }),
    )
append-Leaves s (y ∷ ys) x r n l =
    let last = last_or ys y in
    let tail_at = r.tail_at in
    let some_last : last ≢ 0 = last_or-ne-null s.next s.prev 0 y ys 0 r.linked in
    let c : (last == 0) ≡ false = ground arith in
    let other : last ≢ x = last_or-ne x y ys l in
    let n₁ = update s.next x 0 in
    let p₁ = update s.prev x last in
    let row =
      Segment-prev n₁ s.prev 0 (y ∷ ys) 0 x last l
        (Segment-next s.next s.prev 0 (y ∷ ys) 0 x 0 l r.linked) in
    let lacks = Lacks-append x (y ∷ ys) [] l tt in
    (
      appended s x (if s.tail == 0 then x else s.head) s.tail,
      append_run s x n,
      rw (tail_at, c)
          (record {
            head_at = r.head_at;
            tail_at = sym (last_or-append (y ∷ ys) (x ∷ []) 0);
            linked =
                Segment-append (update n₁ last x) p₁ 0 (y ∷ ys) (x ∷ []) 0
                  (Segment-last n₁ p₁ 0 y ys 0 x r.distinct row)
                  (
                    n,
                    update_same s.prev x last,
                    update_other n₁ last x x (λ k. other (sym k)) ∙ update_same s.next x 0,
                    tt,
                  );
            distinct = IsDistinct-append x (y ∷ ys) l r.distinct;
          }),
    )

pub insert-Leaves :
    (s : Links) (ys zs : List ℕ) (a x : ℕ)
    → Represents s (ys ++ a ∷ zs)
    → x ≢ 0
    → Lacks x (ys ++ a ∷ zs)
    → Leaves (list_insert a x) s (ys ++ a ∷ x ∷ zs)
insert-Leaves s ys [] a x r n l =
    let (row, (na, pa, ea, rest)) = Segment-split s.next s.prev 0 ys (a ∷ []) 0 r.linked in
    let (other, gone) = Lacks-right x ys (a ∷ []) l in
    let (la, d) = IsDistinct-without a ys [] r.distinct in
    let lx = Lacks-left x ys (a ∷ []) l in
    let tail_at : s.tail ≡ a = r.tail_at ∙ last_or-append ys (a ∷ []) 0 in
    let b : (a == a) ≡ true = ground arith in
    let n₁ = update s.next x 0 in
    let p₁ = update s.prev x a in
    (
      inserted s a x (s.next a),
      insert_run s a x na n (λ e. other (sym e)),
      rw (ea, tail_at, b)
          (record {
            head_at =
                r.head_at ∙ first_or-append ys (a ∷ []) 0 ∙ sym (first_or-append ys (a ∷ x ∷ []) 0);
            tail_at = sym (last_or-append ys (a ∷ x ∷ []) 0);
            linked =
                Segment-append (update n₁ a x) p₁ 0 ys (a ∷ x ∷ []) 0
                  (Segment-next n₁ p₁ 0 ys a a x (Lacks-left a ys [] la) (
                    Segment-prev n₁ s.prev 0 ys a x a lx
                      (Segment-next s.next s.prev 0 ys a x 0 lx row)))
                  (
                    na,
                    update_other s.prev x a a other ∙ pa,
                    update_same n₁ a x,
                    (
                      n,
                      update_same s.prev x a,
                      update_other n₁ a x x (λ e. other (sym e)) ∙ update_same s.next x 0,
                      tt,
                    ),
                  );
            distinct = IsDistinct-insert x ys a [] l r.distinct;
          }),
    )
insert-Leaves s ys (z ∷ zs) a x r n l =
    let (row, (na, pa, ea, rest)) = Segment-split s.next s.prev 0 ys (a ∷ z ∷ zs) 0 r.linked in
    let (other, (apart, gone)) = Lacks-right x ys (a ∷ z ∷ zs) l in
    let (la, d) = IsDistinct-without a ys (z ∷ zs) r.distinct in
    let after_a = Lacks-right a ys (z ∷ zs) la in
    let lx = Lacks-left x ys (a ∷ z ∷ zs) l in
    let (lz, d') = IsDistinct-without z ys zs d in
    let last = last_or zs z in
    let tail_at : s.tail ≡ last = r.tail_at ∙ last_or-append ys (a ∷ z ∷ zs) 0 in
    let last_other : last ≢ a = last_or-ne a z zs after_a in
    let b : (last == a) ≡ false = ground arith in
    let some_z : z ≢ 0 = rest.0 in
    let c : (z == 0) ≡ false = ground arith in
    let n₁ = update s.next x z in
    let n₂ = update n₁ a x in
    let p₁ = update s.prev x a in
    (
      inserted s a x (s.next a),
      insert_run s a x na n (λ e. other (sym e)),
      rw (ea, tail_at, b, c)
          (record {
            head_at =
                r.head_at
                ∙ first_or-append ys (a ∷ z ∷ zs) 0
                ∙ sym (first_or-append ys (a ∷ x ∷ z ∷ zs) 0);
            tail_at = sym (last_or-append ys (a ∷ x ∷ z ∷ zs) 0);
            linked =
                Segment-append n₂ (update p₁ z x) 0 ys (a ∷ x ∷ z ∷ zs) 0
                  (Segment-prev n₂ p₁ 0 ys a z x (Lacks-left z ys zs lz) (
                    Segment-next n₁ p₁ 0 ys a a x (Lacks-left a ys (z ∷ zs) la) (
                      Segment-prev n₁ s.prev 0 ys a x a lx
                        (Segment-next s.next s.prev 0 ys a x z lx row))))
                  (
                    na,
                    update_other p₁ z x a (λ e. after_a.0 (sym e))
                        ∙ update_other s.prev x a a other
                        ∙ pa,
                    update_same n₁ a x,
                    (
                      n,
                      update_other p₁ z x x (λ e. apart (sym e)) ∙ update_same s.prev x a,
                      update_other n₁ a x x (λ e. other (sym e)) ∙ update_same s.next x z,
                      Segment-first n₂ p₁ a z zs 0 x (Distinct_head ys zs z d) (
                          Segment-next n₁ p₁ a (z ∷ zs) 0 a x after_a (
                            Segment-prev n₁ s.prev a (z ∷ zs) 0 x a (apart, gone)
                              (Segment-next s.next s.prev a (z ∷ zs) 0 x z (apart, gone) rest))),
                    ),
                  );
            distinct = IsDistinct-insert x ys a (z ∷ zs) l r.distinct;
          }),
    )
