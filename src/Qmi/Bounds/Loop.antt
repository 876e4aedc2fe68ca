-- ===== src/Qmi/Bounds/Loop.antt =====
-- `qmi_encode` and `qmi_encode_message` write only into the buffer that they are given.
use qrtr.Base.{ℕ, ◌*◌, ◌^◌, ◌≤◌, ◌<◌, ◌≡◌, refl, Bool, false, Option, none, some, ◌==◌}
use qrtr.Qmi.{
  ElemType, einval, Mem, Info, eoti, opt_flag, data_len, struct, string, Elems, stop, elem, Outcome,
  failed,
}
use qrtr.Qmi.Encode.{
  EncodeVars, Step, go, exit, Nested, encode_len, encode_elem, close_tlv, encode_round,
}
use qrtr.Qmi.Bounds.{WritesWithin, Fits, IsTable, Room, StepWithin, close-Room}
use qrtr.Qmi.Bounds.Calls.{NestedWithin, encode_len-small}
use qrtr.Qmi.Bounds.Cases.{flag-Within, basic-Within, data_len-Within, struct-Within, string-Within}

module _ (dst len : ℕ) (out : Mem) (small : len < 2 ^ 31) (flat : Bool) (level : ℕ)
    (levels : (level == 1) ≡ flat) (one : 1 ≤ level) (src : Mem) (base : ℕ) (nested : Nested)
    (w : NestedWithin nested) where
  -- The `switch`.
  elem-Within :
      (k : ElemType) (e : Info) (sub next : Elems) (st : EncodeVars)
      → e.data_type ≡ k
      → Fits flat e
      → IsTable false sub
      → IsTable flat next
      → Room flat dst len out st
      → st.data_len_value * e.elem_size < 2 ^ 31
      → StepWithin flat dst len out (encode_elem nested level len src base e sub next st)
  unfolding encode_elem
  elem-Within opt_flag e sub next st k f ts t r few =
      rw (k, encode_elem)
        (flag-Within dst len out small flat level levels src base nested e sub next st f ts t r)
  elem-Within data_len e sub next st k f ts t r few =
      rw (k, encode_elem)
        (data_len-Within dst len out small flat level levels src base nested e sub next st f ts t r)
  elem-Within struct e sub next st k f ts t r few =
      rw (k, encode_elem)
        (struct-Within dst len out small flat level levels src base nested e sub next st f ts t r w
          one k)
  elem-Within string e sub next st k f ts t r few =
      rw (k, encode_elem)
        (string-Within dst len out small flat level levels src base nested e sub next st f ts t r k)
  elem-Within eoti e sub next st k f ts t r few = rw (k, encode_elem) r.agrees
  elem-Within _ e sub next st k f ts t r few =
      rw (k, encode_elem)
        (basic-Within dst len out small flat level levels src base nested e sub next st f ts t r
          few)

  module _ (loop : Elems → EncodeVars → Outcome)
      (rest : (at : Elems) (st : EncodeVars)
        → IsTable flat at
        → Room flat dst len out st
        → WritesWithin out dst len (loop at st)) where
    -- The end of a round, and the rounds that follow.
    closed_step : ℕ → Step → Outcome
    closed_step t step = elim step [ go at st ↦ loop at (close_tlv level t st) | exit end ↦ end ]

    closed_step-Within :
        (t : ℕ) (step : Step)
        → StepWithin flat dst len out step
        → WritesWithin out dst len (closed_step t step)
    unfolding closed_step
    closed_step-Within t (go at st) (table, r) =
        rest at (close_tlv level t st) table (close-Room dst len out small flat level t st levels r)
    closed_step-Within t (exit end) h = h

    round_body : (e : Info) (sub next : Elems) (st : EncodeVars) → Outcome
    unfolding closed_step
    round_body e sub next st = elim (encode_len e st.data_len_value) [
      | none ↦ failed einval st.out
      | some n ↦
          closed_step e.tlv_type
            (encode_elem nested level len src base e sub next (record st { data_len_value = n }))
    ]

    sized-Within :
        (e : Info) (sub next : Elems) (st : EncodeVars) (o : Option ℕ)
        → encode_len e st.data_len_value ≡ o
        → IsTable flat (elem e sub next)
        → Room flat dst len out st
        → WritesWithin out dst len (round_body e sub next st)
    unfolding round_body closed_step
    sized-Within e sub next st none h (f, ts, t) r = rw (h, round_body) r.agrees
    sized-Within e sub next st (some n) h (f, ts, t) r =
        let r' : Room flat dst len out (record st { data_len_value = n }) = record {
          placed = r.placed;
          fits = r.fits;
          after = r.after;
          before = r.before;
          closing = r.closing;
          agrees = r.agrees;
        } in
        rw (h, round_body)
          (closed_step-Within e.tlv_type
            (encode_elem nested level len src base e sub next (record st { data_len_value = n }))
            (elem-Within e.data_type e sub next (record st { data_len_value = n }) refl f ts t r'
              (encode_len-small flat e st.data_len_value n f h)))

    pub round-Within :
        (at : Elems) (st : EncodeVars)
        → IsTable flat at
        → Room flat dst len out st
        → WritesWithin out dst len (encode_round nested loop level len src base at st)
    unfolding encode_round round_body closed_step
    round-Within stop st t r = tt
    round-Within (elem e sub next) st t r =
        by_type e.data_type refl
          (sized-Within e sub next st (encode_len e st.data_len_value) refl t r)
      where
        by_type :
            (k : ElemType)
            → e.data_type ≡ k
            → WritesWithin out dst len (round_body e sub next st)
            → WritesWithin out dst len
                (encode_round nested loop level len src base (elem e sub next) st)
        by_type eoti k h = rw (k, encode_round) (r.fits, r.agrees)
        by_type _ k h = rw (k, encode_round) h
