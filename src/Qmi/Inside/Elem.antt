-- ===== src/Qmi/Inside/Elem.antt =====
-- One element in `qmi_decode` of lib/qmi.c: what is written for it lies in the structure.
use native.Mathlib.Nat.{mul-le-mul_right}
use qrtr.Base.{ℕ, ◌+◌, ◌*◌, ◌≤◌, ◌≡◌, ◌≢◌, refl, arith}
use qrtr.Qmi.{
  Mem, bytes_of, read_into, ElemType, eoti, opt_flag, data_len, struct, string, Info, Elems, stop,
  elem, Outcome, done, failed, past_table, out_of_fuel, decode_basic_elem, data_len_sz,
}
use qrtr.Qmi.Memory.{decode_basic_elem_wrap}
use qrtr.Qmi.Bounds.{Agrees, Agrees-memcpy}
use qrtr.Qmi.Decode.{
  DecodeVars, Step, go, exit, Nested, update_decode, after_call, decode_flag, decode_data_len,
  decode_struct_elem, decode_elem,
}
use qrtr.Qmi.Inside.{
  capacity, LiesIn, Describes, Keeps, NestedKeeps, Keeps-inner, struct_loop-Keeps, string-Keeps,
}

abbrev pub PairInside : ℕ → Mem → ℕ → Elems × DecodeVars → Type 0
PairInside size out base (at, st) = Describes size at × Agrees out st.out base (base + size)

abbrev pub StepInside : ℕ → Mem → ℕ → Step → Type 0
StepInside size out base (go at st) = Describes size at × Agrees out st.out base (base + size)
StepInside size out base (exit o) = Keeps out base (base + size) o

after_call-Inside :
    (size : ℕ) (out : Mem) (base : ℕ) (st : DecodeVars) (next : Elems) (o : Outcome)
    → Describes size next
    → Keeps out base (base + size) o
    → StepInside size out base (after_call st next o)
after_call-Inside size out base st next (done rc m) h k = (h, k)
after_call-Inside size out base st next (failed errno m) h k = k
after_call-Inside size out base st next past_table h k = k
after_call-Inside size out base st next out_of_fuel h k = tt

-- The tests for a flag and for a length.
flag_test :
    (size : ℕ) (out : Mem) (base : ℕ) (k : ElemType) (x y : Elems × DecodeVars)
    → (k ≡ opt_flag → PairInside size out base x)
    → PairInside size out base y
    → PairInside size out base (elim k [ opt_flag ↦ x | _ ↦ y ])
flag_test size out base opt_flag x y h g = h refl
flag_test size out base _ x y h g = g

length_test :
    (size : ℕ) (out : Mem) (base : ℕ) (k : ElemType) (x y : Elems × DecodeVars)
    → (k ≡ data_len → PairInside size out base x)
    → PairInside size out base y
    → PairInside size out base (elim k [ data_len ↦ x | _ ↦ y ])
length_test size out base data_len x y h g = h refl
length_test size out base _ x y h g = g

module _ (nested : Nested) (level : ℕ) (src : Mem) (base size : ℕ) (out : Mem) where
  pub flag-Inside :
      (at : Elems) (st : DecodeVars)
      → Describes size at
      → Agrees out st.out base (base + size)
      → PairInside size out base (decode_flag nested level src base at st)
  unfolding decode_flag
  flag-Inside stop st h same = absurd h
  flag-Inside (elem e sub next) st (l, s, n) same =
      flag_test size out base e.data_type _ _
        (λ k.
          let room = l.flag_room k in
          (
            n (λ z. cc (z, k)),
            Agrees-memcpy out st.out base (base + size) (base + e.offset) (λ a. 1) 0 1 same
                (omega arith) (omega arith),
          ))
        ((l, s, n), same)

  pub length-Inside :
      (at : Elems) (st : DecodeVars)
      → Describes size at
      → Agrees out st.out base (base + size)
      → PairInside size out base (decode_data_len nested level src base at st)
  unfolding decode_data_len
  length-Inside stop st h same = absurd h
  length-Inside (elem e sub next) st (l, s, n) same =
      length_test size out base e.data_type _ _
        (λ k.
          let room = l.length_room k in
          (
            n (λ z. cc (z, k)),
            Agrees-memcpy out st.out base (base + size) (base + e.offset)
                (bytes_of (read_into st.data_len_value src st.buf_src (data_len_sz e))) 0 4 same
                (omega arith) (omega arith),
          ))
        ((l, s, n), same)

  module _ (e : Info) (sub next : Elems) (st : DecodeVars) (l : LiesIn size e)
      (n : e.data_type ≢ eoti → Describes size next) (few : st.data_len_value ≤ capacity e)
      (same : Agrees out st.out base (base + size))
      (w : e.data_type ≡ struct → NestedKeeps nested e.elem_size sub) where
    few_bytes : st.data_len_value * e.elem_size ≤ capacity e * e.elem_size
    few_bytes = mul-le-mul_right e.elem_size few

    basic-Inside :
        e.data_type ≢ eoti
        → StepInside size out base (
            let (m, rc) =
              decode_basic_elem st.out
                (base + e.offset)
                src
                st.buf_src
                st.data_len_value
                e.elem_size in
            go next (update_decode (record st { out = m }) rc))
    basic-Inside ne =
        let room = l.array_room in
        rw
          (decode_basic_elem_wrap st.out (base + e.offset) src st.buf_src st.data_len_value
            e.elem_size)
          (
            n ne,
            Agrees-memcpy out st.out base (base + size) (base + e.offset) src st.buf_src
                (st.data_len_value * e.elem_size) same (omega arith) (omega (arith, few_bytes)),
          )

    pub elem-Inside :
        (k : ElemType)
        → e.data_type ≡ k
        → StepInside size out base (decode_elem nested level src base e sub next st)
    unfolding decode_elem decode_struct_elem
    elem-Inside eoti k = rw (k, decode_elem) same
    elem-Inside opt_flag k = rw (k, decode_elem) same
    elem-Inside data_len k = rw (k, decode_elem) same
    elem-Inside struct k =
        let room = l.array_room in
        rw (k, decode_elem)
          (after_call-Inside size out base st next _ (n (λ z. cc (z, k))) (
            Keeps-inner out st.out base (base + size) (base + e.offset)
              (base + e.offset + st.data_len_value * e.elem_size) _ same (omega arith)
              (omega (arith, few_bytes))
              (struct_loop-Keeps nested (level + 1) st.tlv_len e.elem_size sub (w k)
                st.data_len_value st.buf_src (base + e.offset) 0 st.out)))
    elem-Inside string k =
        let (one, room) = l.string_room k in
        rw (k, decode_elem)
          (after_call-Inside size out base st next _ (n (λ z. cc (z, k))) (
            Keeps-inner out st.out base (base + size) (base + e.offset)
              (base + e.offset + e.elem_len + 1) _ same (omega arith) (omega arith)
              (string-Keeps e (base + e.offset) src st.buf_src st.tlv_len level st.out one)))
    elem-Inside _ k = rw (k, decode_elem) (basic-Inside (λ z. cc (z, k)))
