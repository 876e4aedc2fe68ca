-- ===== src/LinkedList/Writes.antt =====
-- The links that each operation of src/list.h leaves.
use qrtr.Base.{
  ℕ, ◌≡◌, ◌≢◌, refl, sym, ap, ◌∙◌, inl, inr, Bool, true, false, not, Option, none, some, ◌==◌,
  if◌then◌else◌, arith, Bool-cases,
}
use qrtr.LinkedList.{
  Links, Command, ◌>>◌, skip, set_head, set_tail, update, set_next, set_prev, list_append,
  list_insert, list_remove,
}
use qrtr.LinkedList.Segments.{update_same, update_other}

pub then_ok :
    (f g : Command) {s s₁ s₂ : Links} → f s ≡ some s₁ → g s₁ ≡ some s₂ → (f >> g) s ≡ some s₂
unfolding ◌>>◌
then_ok f g e k = rw (◌>>◌, e) k

pub then_to :
    (f g : Command) {s s₁ : Links} {r : Option Links} → f s ≡ some s₁ → g s₁ ≡ r → (f >> g) s ≡ r
unfolding ◌>>◌
then_to f g e k = rw (◌>>◌, e) k

pub then_none : (f g : Command) {s : Links} → f s ≡ none → (f >> g) s ≡ none
unfolding ◌>>◌
then_none f g e = rw (◌>>◌, e) refl

pub set_next_null : (p v : ℕ) (s : Links) → p ≡ 0 → set_next p v s ≡ none
unfolding set_next
set_next_null p v s h = let b : (p == 0) ≡ true = ground arith in rw b refl

pub set_next_ok :
    (p v : ℕ) (s : Links) → p ≢ 0 → set_next p v s ≡ some (record s { next = update s.next p v })
unfolding set_next
set_next_ok p v s h = let b : (p == 0) ≡ false = ground arith in rw b refl

pub set_prev_ok :
    (p v : ℕ) (s : Links) → p ≢ 0 → set_prev p v s ≡ some (record s { prev = update s.prev p v })
unfolding set_prev
set_prev_ok p v s h = let b : (p == 0) ≡ false = ground arith in rw b refl

pub if_false :
    (f g : Command) {c : Bool} {s : Links} {o : Option Links}
    → c ≡ false
    → g s ≡ o
    → (if c then f else g) s ≡ o
if_false f g e k = rw e k

pub if_true :
    (f g : Command) {c : Bool} {s : Links} {o : Option Links}
    → c ≡ true
    → f s ≡ o
    → (if c then f else g) s ≡ o
if_true f g e k = rw e k

pub maybe_prev :
    (q v : ℕ) (s : Links)
    → (if q == 0 then skip else set_prev q v) s
      ≡ some (record s { prev = if q == 0 then s.prev else update s.prev q v })
maybe_prev q v s = elim (Bool-cases (q == 0)) [
  | inl b ↦ rw b refl
  | inr b ↦ rw b (set_prev_ok q v s (ground (arith, b)))
]

maybe_tail :
    (a v : ℕ) (s : Links)
    → (if s.tail == a then set_tail v else skip) s
      ≡ some (record s { tail = if s.tail == a then v else s.tail })
maybe_tail a v s = elim (Bool-cases (s.tail == a)) [ inl b ↦ rw b refl | inr b ↦ rw b refl ]

clear_tail :
    (s : Links)
    → (if s.head == 0 then set_tail 0 else skip) s
      ≡ some (record s { tail = if s.head == 0 then 0 else s.tail })
clear_tail s = elim (Bool-cases (s.head == 0)) [ inl b ↦ rw b refl | inr b ↦ rw b refl ]

-- The links after `list_append`.
abbrev pub appended : Links → ℕ → ℕ → ℕ → Links
appended s x head last = record {
  head = head;
  tail = x;
  next = if last == 0 then update s.next x 0 else update (update s.next x 0) last x;
  prev = update s.prev x last;
}

pub append_run :
    (s : Links) (x : ℕ)
    → x ≢ 0
    → list_append x s ≡ some (appended s x (if s.tail == 0 then x else s.head) s.tail)
unfolding list_append
append_run s x n =
    let e₁ = set_next_ok x 0 s n in
    let e₂ = set_prev_ok x s.tail (record s { next = update s.next x 0 }) n in
    elim (Bool-cases (s.tail == 0)) [
      | inl b ↦
          then_ok _ _ (then_ok _ _ (then_ok _ _ e₁ e₂) (if_false _ _ (ap not b) refl)) (rw b refl)
      | inr b ↦
          let e₃ =
            set_next_ok s.tail x
              (record s { next = update s.next x 0; prev = update s.prev x s.tail })
              (ground (arith, b)) in
          then_ok _ _ (then_ok _ _ (then_ok _ _ e₁ e₂) (if_true _ _ (ap not b) e₃)) (rw b refl)
    ]

-- The links after `list_insert` in the middle.
abbrev pub inserted : Links → ℕ → ℕ → ℕ → Links
inserted s a x follows = record {
  head = s.head;
  tail = if s.tail == a then x else s.tail;
  next = update (update s.next x follows) a x;
  prev = if follows == 0 then update s.prev x a else update (update s.prev x a) follows x;
}

pub insert_run :
    (s : Links) (a x : ℕ)
    → a ≢ 0
    → x ≢ 0
    → x ≢ a
    → list_insert a x s ≡ some (inserted s a x (s.next a))
unfolding list_insert
insert_run s a x n m other =
    let b : (a == 0) ≡ false = ground arith in
    let F = s.next a in
    let s₁ = record s { prev = update s.prev x a } in
    let s₂ = record s₁ { next = update s.next x F } in
    let s₃ = record s₂ { next = update (update s.next x F) a x } in
    let e₁ = set_prev_ok x a s m in
    let e₂ = set_next_ok x F s₁ m in
    let e₃ = set_next_ok a x s₂ n in
    let k : s₃.next x ≡ F = update_other (update s.next x F) a x x other ∙ update_same s.next x F in
    let s₄ = record s₃ {
      prev = if s₃.next x == 0 then s₃.prev else update s₃.prev (s₃.next x) x;
    } in
    rw b (
      then_ok _ _ (then_ok _ _ (then_ok _ _ (then_ok _ _ e₁ e₂) e₃) (maybe_prev (s₃.next x) x s₃))
        (maybe_tail a x s₄)
      ∙ ap
          (λ q. some (record s₃ {
            tail = if s.tail == a then x else s.tail;
            prev = if q == 0 then s₃.prev else update s₃.prev q x;
          }))
          k)

-- The links after `list_remove` of the first item.
abbrev pub removed_first : Links → ℕ → ℕ → Links
removed_first s x follows = record {
  head = follows;
  tail = if follows == 0 then 0 else s.tail;
  next = update s.next x 0;
  prev = update (if follows == 0 then s.prev else update s.prev follows (s.prev x)) x 0;
}

pub remove_first_run :
    (s : Links) (x : ℕ) → x ≢ 0 → s.head ≡ x → list_remove x s ≡ some (removed_first s x (s.next x))
unfolding list_remove
remove_first_run s x n h =
    let N = s.next x in
    let s₁ = record s { prev = if N == 0 then s.prev else update s.prev N (s.prev x) } in
    let s₂ = record s₁ { head = N } in
    let s₃ = record s₂ { tail = if N == 0 then 0 else s.tail } in
    let b : (s.head == x) ≡ true = ground (arith, h) in
    let cut = then_ok (set_head N) _ {s = s₁} {s₁ = s₂} refl (clear_tail s₂) in
    then_ok _ _
      (then_ok _ _ (then_ok _ _ (maybe_prev N (s.prev x) s) (if_true _ _ b cut))
        (set_next_ok x 0 s₃ n))
      (set_prev_ok x 0 (record s₃ { next = update s.next x 0 }) n)

-- The links after `list_remove` of a later item.
abbrev pub removed_later : Links → ℕ → ℕ → ℕ → Links
removed_later s x follows precedes = record {
  head = s.head;
  tail = if s.tail == x then precedes else s.tail;
  next = update (update s.next precedes follows) x 0;
  prev = update (if follows == 0 then s.prev else update s.prev follows precedes) x 0;
}

pub remove_later_run :
    (s : Links) (x : ℕ)
    → x ≢ 0
    → s.head ≢ x
    → s.prev x ≢ 0
    → s.next x ≢ x
    → list_remove x s ≡ some (removed_later s x (s.next x) (s.prev x))
unfolding list_remove
remove_later_run s x n h p other =
    let N = s.next x in
    let P = s.prev x in
    let b : (s.head == x) ≡ false = ground arith in
    let s₁ = record s { prev = if N == 0 then s.prev else update s.prev N P } in
    let k : s₁.prev x ≡ P = elim (Bool-cases (N == 0)) [
      | inl c ↦ rw c refl
      | inr c ↦ rw c (update_other s.prev N P x (λ e. other (sym e)))
    ] in
    let s₂ = record s₁ { next = update s.next (s₁.prev x) N } in
    let s₃ = record s₂ { tail = if s.tail == x then s₁.prev x else s.tail } in
    let cut =
      then_ok _ _ (set_next_ok (s₁.prev x) N s₁ (λ e. p (sym k ∙ e)))
        (maybe_tail x (s₁.prev x) s₂) in
    then_ok _ _
      (then_ok _ _ (then_ok _ _ (maybe_prev N P s) (if_false _ _ b cut)) (set_next_ok x 0 s₃ n))
      (set_prev_ok x 0 (record s₃ { next = update s₂.next x 0 }) n)
    ∙ ap
        (λ q. some (record s₁ {
          tail = if s.tail == x then q else s.tail;
          next = update (update s.next q N) x 0;
          prev = update s₁.prev x 0;
        }))
        k
