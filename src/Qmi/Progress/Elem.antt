-- ===== src/Qmi/Progress/Elem.antt =====
-- One element in `qmi_decode` of lib/qmi.c: it returns, or goes on behind the element.
use native.Mathlib.Nat.{mul-le-mul}
use qrtr.Base.{ℕ, ◌+◌, ◌*◌, ◌%◌, ◌^◌, ◌≤◌, ◌<◌, ◌≡◌, ◌≢◌, refl, inl, inr, arith, u32_mod}
use qrtr.Qmi.{
  Mem, memcpy, ElemType, eoti, opt_flag, data_len, struct, string, Info, Elems, stop, elem, Outcome,
  done, failed, past_table, out_of_fuel, decode_basic_elem, data_len_sz,
}
use qrtr.Qmi.Memory.{decode_basic_elem_wrap}
use qrtr.Qmi.Decode.{
  DecodeVars, Step, go, exit, Nested, update_decode, after_call, decode_flag, decode_data_len,
  decode_struct_elem, decode_elem,
}
use qrtr.Qmi.Inside.{capacity}
use qrtr.Qmi.Tables.{rank}
use qrtr.Qmi.Progress.{IsWhole, span, Spans, NestedSpans, struct_loop-Spans, string-Spans}

-- On the way to an element nothing is lost of what the table spans.
abbrev pub Moves : Elems → ℕ → Elems × DecodeVars → Type 0
Moves at decoded (at', st') =
    IsWhole at'
    × (rank at' ≤ rank at)
    × (decoded ≤ st'.decoded_bytes)
    × (st'.decoded_bytes + span at' ≤ decoded + span at)

abbrev pub Fails : Outcome → Type 0
Fails (failed errno m) = Unit {0}
Fails _ = ⊥

-- After an element fewer are left, or the call fails.
abbrev pub Advances : Elems → ℕ → Step → Type 0
Advances at decoded (go at' st') =
    IsWhole at'
    × (rank at' < rank at)
    × (decoded ≤ st'.decoded_bytes)
    × (st'.decoded_bytes + span at' ≤ decoded + span at)
Advances at decoded (exit o) = Fails o

module _ (at : Elems) (decoded : ℕ) where
  flag_test :
      (k : ElemType) (x y : Elems × DecodeVars)
      → (k ≡ opt_flag → Moves at decoded x)
      → Moves at decoded y
      → Moves at decoded (elim k [ opt_flag ↦ x | _ ↦ y ])
  flag_test opt_flag x y h g = h refl
  flag_test _ x y h g = g

  length_test :
      (k : ElemType) (x y : Elems × DecodeVars)
      → (k ≡ data_len → Moves at decoded x)
      → Moves at decoded y
      → Moves at decoded (elim k [ data_len ↦ x | _ ↦ y ])
  length_test data_len x y h g = h refl
  length_test _ x y h g = g

-- The `switch` of `qmi_decode`.
switch :
    (P : Step → Type 0) (k : ElemType) (a b c d f x : Step)
    → P a
    → P b
    → P c
    → (k ≡ struct → P d)
    → (k ≡ string → P f)
    → (k ≢ eoti → P x)
    → P (elim k [ eoti ↦ a | opt_flag ↦ b | data_len ↦ c | struct ↦ d | string ↦ f | _ ↦ x ])
switch P eoti a b c d f x pa pb pc pd pf px = pa
switch P opt_flag a b c d f x pa pb pc pd pf px = pb
switch P data_len a b c d f x pa pb pc pd pf px = pc
switch P struct a b c d f x pa pb pc pd pf px = pd refl
switch P string a b c d f x pa pb pc pd pf px = pf refl
switch P _ a b c d f x pa pb pc pd pf px = px (λ z. cc z)

next-IsWhole :
    (e : Info) (sub next : Elems) → e.data_type ≢ eoti → IsWhole (elem e sub next) → IsWhole next
next-IsWhole e sub next ne (inl k) = absurd (ne k)
next-IsWhole e sub next ne (inr (m, s, n)) = n

module _ (nested : Nested) (level : ℕ) (src : Mem) (base : ℕ) where
  pub flag-Moves :
      (at : Elems) (st : DecodeVars)
      → IsWhole at
      → Moves at st.decoded_bytes (decode_flag nested level src base at st)
  unfolding decode_flag
  flag-Moves stop st h = absurd h
  flag-Moves (elem e sub next) st h =
      flag_test (elem e sub next) st.decoded_bytes e.data_type _ _
        (λ k. (next-IsWhole e sub next (λ z. cc (z, k)) h, omega arith, omega arith, omega arith))
        (h, omega arith, omega arith, omega arith)

  pub length-Moves :
      (at : Elems) (st : DecodeVars)
      → IsWhole at
      → st.decoded_bytes + span at < 2 ^ 31
      → Moves at st.decoded_bytes (decode_data_len nested level src base at st)
  unfolding decode_data_len
  length-Moves stop st h small = absurd h
  length-Moves (elem e sub next) st h small =
      let narrow : data_len_sz e ≤ 2 = ground arith in
      let wraps : (st.decoded_bytes + data_len_sz e) % u32_mod ≡ st.decoded_bytes + data_len_sz e =
        omega (arith, narrow, small) in
      length_test (elem e sub next) st.decoded_bytes e.data_type _ _
        (λ k. (
          next-IsWhole e sub next (λ z. cc (z, k)) h,
          omega arith,
          omega (arith, wraps),
          omega (arith, wraps, narrow),
        ))
        (h, omega arith, omega arith, omega arith)

  module _ (e : Info) (sub next : Elems) (st : DecodeVars) (h : IsWhole (elem e sub next))
      (few : st.data_len_value ≤ capacity e)
      (small : st.decoded_bytes + span (elem e sub next) < 2 ^ 31) (two : 2 ≤ level + 1)
      (w : e.data_type ≡ struct → NestedSpans nested sub) where
    -- An element that was read from rc bytes.
    read-Advances :
        (m : Mem) (rc : ℕ)
        → e.data_type ≢ eoti
        → rc ≤ 4 + span sub + (e.elem_len + capacity e) * (e.elem_size + span sub)
        → Advances
            (elem e sub next)
            st.decoded_bytes
            (go next (update_decode (record st { out = m }) rc))
    read-Advances m rc ne le =
        let wraps : (st.decoded_bytes + rc) % u32_mod ≡ st.decoded_bytes + rc =
          omega (arith, le, small) in
        (next-IsWhole e sub next ne h, omega arith, omega (arith, wraps), omega (arith, wraps, le))

    call-Advances :
        (o : Outcome)
        → e.data_type ≢ eoti
        → Spans (4 + span sub + (e.elem_len + capacity e) * (e.elem_size + span sub)) o
        → Advances (elem e sub next) st.decoded_bytes (after_call st next o)
    call-Advances (done rc m) ne k = read-Advances m rc ne k
    call-Advances (failed errno m) ne k = tt
    call-Advances past_table ne k = k
    call-Advances out_of_fuel ne k = k

    Spans-more : (a b : ℕ) (o : Outcome) → a ≤ b → Spans a o → Spans b o
    Spans-more a b (done rc m) le k = omega (arith, le, k)
    Spans-more a b (failed errno m) le k = tt
    Spans-more a b past_table le k = k
    Spans-more a b out_of_fuel le k = k

    basic-Advances :
        e.data_type ≢ eoti
        → Advances (elem e sub next) st.decoded_bytes (
            let (m, rc) =
              decode_basic_elem st.out
                (base + e.offset)
                src
                st.buf_src
                st.data_len_value
                e.elem_size in
            go next (update_decode (record st { out = m }) rc))
    basic-Advances ne =
        let fewer : st.data_len_value * e.elem_size
            ≤ (e.elem_len + capacity e) * (e.elem_size + span sub) =
          mul-le-mul (omega (arith, few)) (omega arith) in
        rw
          (decode_basic_elem_wrap st.out (base + e.offset) src st.buf_src st.data_len_value
            e.elem_size)
          (read-Advances
            (memcpy st.out (base + e.offset) src st.buf_src (st.data_len_value * e.elem_size)) _ ne
            (omega (arith, fewer)))

    pub elem-Advances :
        Advances
          (elem e sub next)
          st.decoded_bytes
          (decode_elem nested level src base e sub next st)
    unfolding decode_elem decode_struct_elem
    elem-Advances =
        let width = 4 + span sub + (e.elem_len + capacity e) * (e.elem_size + span sub) in
        let texts : e.elem_len * e.elem_size
            ≤ (e.elem_len + capacity e) * (e.elem_size + span sub) =
          mul-le-mul (omega arith) (omega arith) in
        let structs : st.data_len_value * span sub
            ≤ (e.elem_len + capacity e) * (e.elem_size + span sub) =
          mul-le-mul (omega (arith, few)) (omega arith) in
        switch (Advances (elem e sub next) st.decoded_bytes) e.data_type _ _ _ _ _ _ tt tt tt
          (λ k.
            call-Advances _ (λ z. cc (z, k))
              (struct_loop-Spans nested (level + 1) st.tlv_len e.elem_size sub two (w k)
                st.data_len_value st.buf_src (base + e.offset) 0 width st.out
                (omega (arith, structs))))
          (λ k.
            call-Advances _ (λ z. cc (z, k))
              (Spans-more (2 + e.elem_len * e.elem_size) width _ (omega (arith, texts))
                (string-Spans e (base + e.offset) src st.buf_src st.tlv_len level st.out)))
          (λ ne. basic-Advances ne)
