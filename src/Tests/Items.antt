-- ===== src/Tests/Items.antt =====
-- src/list.h on the items 5, 6 and 7.
use qrtr.Base.{ℕ, ◌≡◌, refl, some, none, [], ◌∷◌, arith}
use qrtr.LinkedList.{Links, list_init, list_prepend, list_remove, list_for_each}
use qrtr.LinkedList.Segments.{Represents}
use qrtr.LinkedList.Runs.{
  append, insert, remove, pop, appends, inserts, removes, pops, run_calls, Yields, run_calls-Yields,
}
use qrtr.LinkedList.Prepend.{prepend_then_remove}

abbrev zeros : ℕ → ℕ
zeros a = 0

run_calls-Yields_example :
    Yields
      (6 ∷ [])
      (0 ∷ 0 ∷ 0 ∷ 0 ∷ 5 ∷ [])
      (run_calls (append 5 ∷ append 7 ∷ insert 5 6 ∷ remove 7 ∷ pop ∷ []) (list_init zeros zeros))
run_calls-Yields_example =
    run_calls-Yields zeros zeros (append 5 ∷ append 7 ∷ insert 5 6 ∷ remove 7 ∷ pop ∷ []) (6 ∷ [])
      (0 ∷ 0 ∷ 0 ∷ 0 ∷ 5 ∷ [])
      (
        5 ∷ [],
        0,
        _,
        appends 5 refl (λ e. omega arith) tt refl refl,
        refl,
        (
          5 ∷ 7 ∷ [],
          0,
          _,
          appends 7 refl (λ e. omega arith) ((λ e. omega arith), tt) refl refl,
          refl,
          (
            5 ∷ 6 ∷ 7 ∷ [],
            0,
            _,
            inserts [] (7 ∷ []) 5 6 refl refl (λ e. omega arith)
                ((λ e. omega arith), ((λ e. omega arith), tt)) refl refl,
            refl,
            (
              5 ∷ 6 ∷ [],
              0,
              _,
              removes (5 ∷ 6 ∷ []) [] 7 refl refl refl refl,
              refl,
              (6 ∷ [], 5, [], pops 5 refl refl refl, refl, (refl, refl)),
            ),
          ),
        ),
      )

-- A list of the item 5.
abbrev one_item : Links
one_item = record { head = 5; tail = 5; next = zeros; prev = zeros }

one_item-Represents : Represents one_item (5 ∷ [])
one_item-Represents = record {
  head_at = refl;
  tail_at = refl;
  linked = ((λ e. omega arith), refl, refl, tt);
  distinct = (tt, tt);
}

prepend_then_remove_example :
    (s' : Links) × (list_prepend 6 one_item ≡ some s')
    × (list_for_each 3 s' s'.head ≡ some (6 ∷ 5 ∷ []))
    × (list_remove 5 s' ≡ none)
prepend_then_remove_example =
    prepend_then_remove one_item 6 5 [] one_item-Represents (λ e. omega arith)
      ((λ e. omega arith), tt)
