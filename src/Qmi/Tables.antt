-- ===== src/Qmi/Tables.antt =====
-- Tables of lib/qmi.c that end: the walks over them never leave them.
use qrtr.Base.{
  ℕ, suc, ◌+◌, ◌≤◌, ◌≡◌, ◌≢◌, ◌⊎◌, refl, inl, inr, Bool, true, false, ltb, ◌==◌, arith, Bool-cases,
}
use qrtr.Qmi.{
  eoti, data_len, struct, Info, Elems, stop, elem, Outcome, done, failed, past_table, out_of_fuel,
  skip_loop, skip_to_next_elem,
}

abbrev pub NotEnd : Elems → Type 0
NotEnd stop = ⊥
NotEnd (elem e sub next) = e.data_type ≢ eoti

-- The table has an end element, a length is followed by an element, a structure has a table that
-- ends. At the first level the end element is not of the type t of the element before it, so that a
-- skip stops there.
abbrev pub IsEnded : Bool → ℕ → Elems → Type 0
IsEnded first t stop = ⊥
IsEnded first t (elem e sub next) =
    ((e.data_type ≡ eoti) × (first ≡ true → t ≢ e.tlv_type))
    ⊎ ((e.data_type ≢ eoti)
        × (e.data_type ≡ data_len → NotEnd next)
        × (e.data_type ≡ struct → IsEnded false 0 sub)
        × IsEnded first e.tlv_type next)

-- The elements of a table and of the tables inside.
abbrev pub rank : Elems → ℕ
rank stop = 0
rank (elem e sub next) = suc (rank sub + rank next)

-- The walk returned.
abbrev pub Ends : Outcome → Type 0
Ends (done n m) = Unit {0}
Ends (failed errno m) = Unit {0}
Ends past_table = ⊥
Ends out_of_fuel = ⊥

-- A suffix of a table that a walk may go on with.
abbrev pub Rest : Bool → ℕ → Elems → Type 0
Rest first bound at = (t : ℕ) × IsEnded first t at × (rank at ≤ bound)

skip_loop-Rest : (t : ℕ) (at : Elems) → IsEnded true t at → Rest true (rank at) (skip_loop t at)
unfolding skip_loop
skip_loop-Rest t stop h = absurd h
skip_loop-Rest t (elem e sub next) (inl (k, apart)) =
    let ne : t ≢ e.tlv_type = apart refl in
    let b : (t == e.tlv_type) ≡ false = ground arith in rw b (t, inl (k, apart), omega arith)
skip_loop-Rest t (elem e sub next) (inr (k, len, inner, more)) =
    elim (Bool-cases (t == e.tlv_type)) [
      | inl b ↦ rw b (let (t', h, le) = skip_loop-Rest e.tlv_type next more in (t', h, omega arith))
      | inr b ↦ rw b (t, inr (k, len, inner, more), omega arith)
    ]

-- A skip from an element that is not the end.
pub skip-Rest :
    (first : Bool) (level t : ℕ) (e : Info) (sub next : Elems)
    → (ltb 1 level ≡ false → first ≡ true)
    → e.data_type ≢ eoti
    → IsEnded first t (elem e sub next)
    → Rest first (rank next) (skip_to_next_elem (elem e sub next) level)
unfolding skip_to_next_elem
skip-Rest first level t e sub next l ne (inl (k, apart)) = absurd (ne k)
skip-Rest false level t e sub next l ne (inr (_, len, inner, more)) =
    elim (Bool-cases (ltb 1 level)) [
      | inl b ↦ rw b (e.tlv_type, more, omega arith)
      | inr b ↦ absurd (cc (l b))
    ]
skip-Rest true level t e sub next l ne (inr (_, len, inner, more)) =
    elim (Bool-cases (ltb 1 level)) [
      | inl b ↦ rw b (e.tlv_type, more, omega arith)
      | inr b ↦ rw b (skip_loop-Rest e.tlv_type next more)
    ]

-- A skip from the element after a length.
pub skip_next-Rest :
    (first : Bool) (level t : ℕ) (at : Elems)
    → (ltb 1 level ≡ false → first ≡ true)
    → NotEnd at
    → IsEnded first t at
    → Rest first (rank at) (skip_to_next_elem at level)
skip_next-Rest first level t stop l ne h = absurd h
skip_next-Rest first level t (elem e sub next) l ne h =
    let (t', h', le) = skip-Rest first level t e sub next l ne h in (t', h', omega arith)
