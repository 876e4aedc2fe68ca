-- ===== src/LinkedList.antt =====
-- src/list.h: the operations of the intrusive list on the links in memory. An address is a number,
-- NULL is 0, and every other address that an operation is given is that of an item.
pub mod Segments
pub mod Writes
pub mod Edits
pub mod Removal
pub mod Runs
pub mod Prepend
use qrtr.Base.{ℕ, zero, suc, Bool, not, Option, none, some, List, [], ◌∷◌, ◌==◌, if◌then◌else◌}

-- `struct list`, and the fields of the items in memory.
pub record Links : Type 0 where
  pub head : ℕ
  pub tail : ℕ
  pub next : ℕ → ℕ
  pub prev : ℕ → ℕ

-- `none` is a write through NULL.
abbrev pub Command : Type 0
Command = Links → Option Links

infixl 5 ◌>>◌
unfoldable pub ◌>>◌ : Command → Command → Command
◌>>◌ f g s = elim (f s) [ none ↦ none | some s' ↦ g s' ]

-- A command that reads the links first.
abbrev pub reading : (Links → Command) → Command
reading f s = f s s

abbrev pub skip : Command
skip s = some s

abbrev pub update : (ℕ → ℕ) → ℕ → ℕ → ℕ → ℕ
update f p v a = if a == p then v else f a

-- `p->next = v`
unfoldable pub set_next : ℕ → ℕ → Command
set_next p v s = if p == 0 then none else some (record s { next = update s.next p v })

-- `p->prev = v`
unfoldable pub set_prev : ℕ → ℕ → Command
set_prev p v s = if p == 0 then none else some (record s { prev = update s.prev p v })

abbrev pub set_head : ℕ → Command
set_head v s = some (record s { head = v })

abbrev pub set_tail : ℕ → Command
set_tail v s = some (record s { tail = v })

abbrev pub list_init : (ℕ → ℕ) → (ℕ → ℕ) → Links
list_init next prev = record { head = 0; tail = 0; next = next; prev = prev }

unfoldable pub list_append : ℕ → Command
list_append item =
    set_next item 0
    >> reading (λ s. set_prev item s.tail)
    >> reading (λ s. if not (s.tail == 0) then set_next s.tail item else set_head item)
    >> set_tail item

unfoldable pub list_prepend : ℕ → Command
list_prepend item =
    set_prev item 0
    >> reading (λ s. set_next item s.head)
    >> reading (λ s. if s.head == 0 then set_tail item else skip)
    >> set_head item

-- `after` is an item or NULL.
unfoldable pub list_insert : ℕ → ℕ → Command
list_insert after item =
    let inserted =
      set_prev item after
      >> reading (λ s. set_next item (s.next after))
      >> set_next after item
      >> reading (λ s. if s.next item == 0 then skip else set_prev (s.next item) item)
      >> reading (λ s. if s.tail == after then set_tail item else skip) in
    if after == 0 then list_prepend item else inserted

unfoldable pub list_remove : ℕ → Command
list_remove item =
    reading (λ s. if s.next item == 0 then skip else set_prev (s.next item) (s.prev item))
    >> reading (λ s.
      if s.head == item
      then set_head (s.next item) >> reading (λ s'. if s'.head == 0 then set_tail 0 else skip)
      else set_next (s.prev item) (s.next item)
        >> reading (λ s'. if s'.tail == item then set_tail (s'.prev item) else skip))
    >> set_next item 0
    >> set_prev item 0

-- The item that is returned, 0 for none.
unfoldable pub list_pop : Links → Option (Links × ℕ)
list_pop s =
    let removed : Option (Links × ℕ) = elim (list_remove s.head s) [
      | none ↦ none
      | some s' ↦ some (s', s.head)
    ] in
    if s.head == 0 then some (s, 0) else removed

abbrev pub list_last : Links → ℕ
list_last s = s.tail

abbrev pub list_first : Links → ℕ
list_first s = s.head

abbrev pub list_next : Links → ℕ → ℕ
list_next s item = s.next item

-- `list_for_each` from an item on: the items that it visits, or `none` without fuel.
unfoldable pub list_for_each : ℕ → Links → ℕ → Option (List ℕ)
list_for_each zero s item = none
list_for_each (suc fuel) s item =
    let rest : Option (List ℕ) = elim (list_for_each fuel s (s.next item)) [
      | none ↦ none
      | some items ↦ some (item ∷ items)
    ] in
    if item == 0 then some [] else rest
