-- ===== src/LinkedList/Runs.antt =====
-- Sequences of calls of src/list.h, against the list of items that they are to keep.
use qrtr.Base.{
  ℕ, suc, ◌≡◌, ◌≢◌, refl, sym, ap, ◌∙◌, true, false, Option, none, some, List, [], ◌∷◌, ◌++◌, ◌==◌,
  arith, length,
}
use qrtr.LinkedList.{
  Links, Command, list_init, list_append, list_insert, list_remove, list_pop, list_for_each,
  list_last,
}
use qrtr.LinkedList.Segments.{first_or, last_or, Lacks, Segment, Represents}
use qrtr.LinkedList.Edits.{Leaves, append-Leaves, insert-Leaves}
use qrtr.LinkedList.Removal.{remove-Leaves}

pub data Call : Type 0 where
  append : ℕ → Call
  insert : ℕ → ℕ → Call
  remove : ℕ → Call
  pop : Call

abbrev answering : Option Links → Option (Links × ℕ)
answering none = none
answering (some s) = some (s, 0)

-- A call, and what it returns; 0 where it returns nothing.
abbrev pub run_call : Call → Links → Option (Links × ℕ)
run_call (append x) s = answering (list_append x s)
run_call (insert a x) s = answering (list_insert a x s)
run_call (remove x) s = answering (list_remove x s)
run_call pop s = list_pop s

-- The calls in order, and their answers.
unfoldable pub run_calls : List Call → Links → Option (Links × List ℕ)
run_calls [] s = some (s, [])
run_calls (call ∷ calls) s = elim (run_call call s) [
  | none ↦ none
  | some (s', answer) ↦ elim (run_calls calls s') [
    | none ↦ none
    | some (s'', answers) ↦ some (s'', answer ∷ answers)
  ]
]

-- What a call is to do to a list of items: append a new item, put a new item after another, take an
-- item out, or take the first one.
pub data Edit (xs : List ℕ) (call : Call) (xs' : List ℕ) (answer : ℕ) : Type 0 where
  appends :
      (x : ℕ)
      → call ≡ append x
      → x ≢ 0
      → Lacks x xs
      → xs' ≡ xs ++ x ∷ []
      → answer ≡ 0
      → Edit xs call xs' answer
  inserts :
      (ys zs : List ℕ) (a x : ℕ)
      → call ≡ insert a x
      → xs ≡ ys ++ a ∷ zs
      → x ≢ 0
      → Lacks x xs
      → xs' ≡ ys ++ a ∷ x ∷ zs
      → answer ≡ 0
      → Edit xs call xs' answer
  removes :
      (ys zs : List ℕ) (x : ℕ)
      → call ≡ remove x
      → xs ≡ ys ++ x ∷ zs
      → xs' ≡ ys ++ zs
      → answer ≡ 0
      → Edit xs call xs' answer
  pops : (x : ℕ) → call ≡ pop → xs ≡ x ∷ xs' → answer ≡ x → Edit xs call xs' answer
  pops_nothing : call ≡ pop → xs ≡ [] → xs' ≡ [] → answer ≡ 0 → Edit xs call xs' answer

abbrev pub Edits : List ℕ → List Call → List ℕ → List ℕ → Type 0
Edits xs [] xs' answers = (xs ≡ xs') × (answers ≡ [])
Edits xs (call ∷ calls) xs' answers =
    (mid : List ℕ) × (answer : ℕ) × (rest : List ℕ) × (Edit xs call mid answer)
    × (answers ≡ answer ∷ rest)
    × Edits mid calls xs' rest

-- The links of the items, and the answer.
abbrev Gives : List ℕ → ℕ → Option (Links × ℕ) → Type 0
Gives xs answer none = ⊥
Gives xs answer (some (s, a)) = Represents s xs × (a ≡ answer)

Gives-answering :
    (f : Command) (s : Links) (xs : List ℕ) → Leaves f s xs → Gives xs 0 (answering (f s))
Gives-answering f s xs (s', e, r) = rw e (r, refl)

pop_item :
    (s s' : Links) → s.head ≢ 0 → list_remove s.head s ≡ some s' → list_pop s ≡ some (s', s.head)
unfolding list_pop
pop_item s s' n e = let b : (s.head == 0) ≡ false = ground arith in rw (b, e) refl

pop_nothing : (s : Links) → s.head ≡ 0 → list_pop s ≡ some (s, 0)
unfolding list_pop
pop_nothing s e = let b : (s.head == 0) ≡ true = ground arith in rw b refl

pop-Gives : (s : Links) (x : ℕ) (xs : List ℕ) → Represents s (x ∷ xs) → Gives xs x (list_pop s)
pop-Gives s x xs r =
    let (s', e, r') = remove-Leaves s [] xs x r in
    let run =
      pop_item s s' (λ k. r.linked.0 (sym r.head_at ∙ k))
        (ap (λ h. list_remove h s) r.head_at ∙ e) in
    rw run (r', r.head_at)

Edit-Gives :
    (s : Links) (xs : List ℕ) (call : Call) (xs' : List ℕ) (answer : ℕ)
    → Represents s xs
    → Edit xs call xs' answer
    → Gives xs' answer (run_call call s)
Edit-Gives s xs call xs' answer r (appends x c n l e a) =
    rw (c, e, a) (Gives-answering (list_append x) s (xs ++ x ∷ []) (append-Leaves s xs x r n l))
Edit-Gives s xs call xs' answer r (inserts ys zs b x c k n l e a) =
    rw (c, e, a)
      (Gives-answering (list_insert b x) s (ys ++ b ∷ x ∷ zs)
        (insert-Leaves s ys zs b x (rw (sym k) r) n (rw (sym k) l)))
Edit-Gives s xs call xs' answer r (removes ys zs x c k e a) =
    rw (c, e, a)
      (Gives-answering (list_remove x) s (ys ++ zs) (remove-Leaves s ys zs x (rw (sym k) r)))
Edit-Gives s xs call xs' answer r (pops x c k a) = rw (c, a) (pop-Gives s x xs' (rw (sym k) r))
Edit-Gives s xs call xs' answer r (pops_nothing c k e a) =
    let empty : Represents s [] = rw (sym k) r in
    rw (c, e, a, pop_nothing s empty.head_at) (empty, refl)

pub for_each_step :
    (fuel : ℕ) (s : Links) (item : ℕ) (items : List ℕ)
    → item ≢ 0
    → list_for_each fuel s (s.next item) ≡ some items
    → list_for_each (suc fuel) s item ≡ some (item ∷ items)
unfolding list_for_each
for_each_step fuel s item items n e = let b : (item == 0) ≡ false = ground arith in rw (b, e) refl

for_each-Segment :
    (s : Links) (before : ℕ) (xs : List ℕ)
    → Segment s.next s.prev before xs 0
    → list_for_each (suc (length xs)) s (first_or xs 0) ≡ some xs
unfolding list_for_each
for_each-Segment s before [] h = refl
for_each-Segment s before (x ∷ xs) (n, p, e, h) =
    for_each_step (suc (length xs)) s x xs n
      (ap (list_for_each (suc (length xs)) s) e ∙ for_each-Segment s x xs h)

-- The links after calls are those of the items, which a loop visits in order and of which the tail is
-- the last, and the answers are right.
abbrev pub Yields : List ℕ → List ℕ → Option (Links × List ℕ) → Type 0
Yields xs answers none = ⊥
Yields xs answers (some (s, given)) =
    (list_for_each (suc (length xs)) s s.head ≡ some xs)
    × (list_last s ≡ last_or xs 0)
    × (given ≡ answers)

runs-Yields :
    (calls : List Call) (s : Links) (xs xs' answers : List ℕ)
    → Represents s xs
    → Edits xs calls xs' answers
    → Yields xs' answers (run_calls calls s)
unfolding run_calls
runs-Yields [] s xs xs' answers r (e, a) =
    let r' : Represents s xs' = rw (sym e) r in
    (
      ap (list_for_each (suc (length xs')) s) r'.head_at ∙ for_each-Segment s 0 xs' r'.linked,
      r'.tail_at,
      sym a,
    )
runs-Yields (call ∷ calls) s xs xs' answers r (mid, answer, rest, edit, a, more) =
    by_call (run_call call s) (Edit-Gives s xs call mid answer r edit)
      (λ s' r'. runs-Yields calls s' mid xs' rest r' more)
  where
    by_rest :
        (b : ℕ)
        → b ≡ answer
        → (o : Option (Links × List ℕ)) → Yields xs' rest o
        → Yields xs' answers (elim o [ none ↦ none | some (s'', given) ↦ some (s'', b ∷ given) ])
    by_rest b e none y = y
    by_rest b e (some (s'', given)) (walk, last, k) =
        (walk, last, ap (λ t. b ∷ t) k ∙ ap (λ t. t ∷ rest) e ∙ sym a)

    by_call :
        (o : Option (Links × ℕ))
        → Gives mid answer o
        → ((s' : Links) → Represents s' mid → Yields xs' rest (run_calls calls s'))
        → Yields xs' answers (elim o [
          | none ↦ none
          | some (s', b) ↦ elim (run_calls calls s') [
            | none ↦ none
            | some (s'', given) ↦ some (s'', b ∷ given)
          ]
        ])
    by_call none g rec = g
    by_call (some (s', b)) (r', e) rec = by_rest b e (run_calls calls s') (rec s' r')

-- From an empty list, calls that each do to a list of items what they are to do (append an item that
-- is not NULL and not in the list, put such an item after one that is, take out one that is, or pop)
-- never write through NULL, return the right answers, and leave links of which the tail is the last
-- item and along which list_for_each visits the items in order.
pub run_calls-Yields :
    (next prev : ℕ → ℕ) (calls : List Call) (xs answers : List ℕ)
    → Edits [] calls xs answers
    → Yields xs answers (run_calls calls (list_init next prev))
run_calls-Yields next prev calls xs answers e =
    runs-Yields calls (list_init next prev) [] xs answers
      (record { head_at = refl; tail_at = refl; linked = tt; distinct = tt }) e
