-- ===== src/Qmi/Bounds/Cases.antt =====
-- Each case of the `switch` of `qmi_encode` of lib/qmi.c keeps the room.
use qrtr.Base.{
  ℕ, ◌+◌, ◌-◌, ◌*◌, ◌%◌, ◌^◌, ◌≤◌, ◌<◌, ◌≡◌, refl, sym, ap, ◌∙◌, inl, inr, Bool, true, false, ltb,
  ◌==◌, if◌then◌else◌, arith, u32_mod, Bool-cases,
}
use qrtr.Qmi.{
  Mem, memcpy, bytes_of, read_into, Info, struct, string, Elems, elem, Outcome, done, failed,
  past_table, out_of_fuel, data_len_sz, string_len_sz, sub_u32,
}
use qrtr.Qmi.Memory.{encode_basic_elem_lem}
use qrtr.Qmi.Encode.{
  EncodeVars, Step, Nested, after_call, strlen, encode_struct_elem, encode_string_elem, encode_flag,
  encode_data_len, encode_basic, encode_struct, encode_string,
}
use qrtr.Qmi.Bounds.{
  Agrees, WritesWithin, Fits, IsTable, skip-IsTable, Agrees-memcpy, Agrees-inner, header, Room,
  StepWithin, update-Room,
}
use qrtr.Qmi.Bounds.Calls.{
  sub_u32_lem, header_le, test_room, NestedWithin, struct_loop-Within, CallWithin,
}

module _ (dst len : ℕ) (out : Mem) (small : len < 2 ^ 31) (flat : Bool) where
  after_call-Within :
      (st : EncodeVars) (next : Elems) (o : Outcome)
      → IsTable flat next
      → Room flat dst len out st
      → CallWithin flat dst len out st o
      → StepWithin flat dst len out (after_call st next o)
  after_call-Within st next (done n m) t r (fits, same) =
      (t, update-Room dst len out small flat st m n r fits same)
  after_call-Within st next (failed errno m) t r same = same
  after_call-Within st next past_table t r w = tt
  after_call-Within st next out_of_fuel t r w = tt

  open-Room :
      (st : EncodeVars)
      → Room flat dst len out st
      → Room flat dst len out (record st { encode_tlv = false })
  open-Room st r = record {
    placed = r.placed;
    fits = r.fits;
    after = r.after;
    before = r.before;
    closing = λ e. absurd (cc e);
    agrees = r.agrees;
  }

  if-StepWithin :
      (c : Bool) (x y : Step)
      → StepWithin flat dst len out x
      → StepWithin flat dst len out y
      → StepWithin flat dst len out (if c then x else y)
  if-StepWithin true x y h g = h
  if-StepWithin false x y h g = g

  module _ (level : ℕ) (levels : (level == 1) ≡ flat) (src : Mem) (base : ℕ) (nested : Nested)
      (e : Info) (sub next : Elems) (st : EncodeVars) (f : Fits flat e) (ts : IsTable false sub)
      (t : IsTable flat next) (r : Room flat dst len out st) where
    pub flag-Within :
        StepWithin flat dst len out (encode_flag nested level len src base e sub next st)
    unfolding encode_flag
    flag-Within = elim (Bool-cases (src (base + e.offset) % 256 == 0)) [
      | inl b ↦ rw b (skip-IsTable flat level (elem e sub next) (f, ts, t), r)
      | inr b ↦ rw b (t, r)
    ]

    -- A copy into the room that is left.
    copied :
        (m : Mem) (s n : ℕ)
        → st.encoded_bytes + n + header flat ≤ len
        → Agrees out (memcpy st.out st.buf_dst m s n) dst (dst + len)
    copied m s n fits =
        let placed = r.placed in
        Agrees-memcpy out st.out dst (dst + len) st.buf_dst m s n r.agrees (omega arith)
          (omega arith)

    len-Room : (v : ℕ) → Room flat dst len out (record st { data_len_value = v })
    len-Room v = record {
      placed = r.placed;
      fits = r.fits;
      after = r.after;
      before = r.before;
      closing = r.closing;
      agrees = r.agrees;
    }

    pub basic-Within :
        st.data_len_value * e.elem_size < 2 ^ 31
        → StepWithin flat dst len out (encode_basic nested level len src base e sub next st)
    unfolding encode_basic
    basic-Within few =
        let n = st.data_len_value in
        elim (Bool-cases (ltb len ((n * e.elem_size + st.encoded_bytes) % u32_mod + 3))) [
          | inl b ↦ rw b r.agrees
          | inr b ↦
              let fits = test_room flat len (n * e.elem_size) st.encoded_bytes few small r.fits b in
              rw
                (
                  b,
                  encode_basic_elem_lem st.out st.buf_dst src (base + e.offset) n e.elem_size
                      (omega arith),
                )
                (
                  t,
                  update-Room dst len out small flat st
                      (memcpy st.out st.buf_dst src (base + e.offset) (n * e.elem_size))
                      (n * e.elem_size) r fits
                      (copied src (base + e.offset) (n * e.elem_size) fits),
                )
        ]

    pub data_len-Within :
        StepWithin flat dst len out (encode_data_len nested level len src base e sub next st)
    unfolding encode_data_len
    data_len-Within =
        let value = read_into st.data_len_value src (base + e.offset) e.elem_size in
        let sz = data_len_sz e in
        let m = memcpy st.out st.buf_dst (bytes_of value) 0 (1 * sz) in
        let few : sz ≤ 2 = ground arith in
        elim (Bool-cases (ltb len ((sz + st.encoded_bytes) % u32_mod + 3))) [
          | inl b ↦ rw b r.agrees
          | inr b ↦
              let room = test_room flat len sz st.encoded_bytes (omega arith) small r.fits b in
              let fits : st.encoded_bytes + 1 * sz + header flat ≤ len = omega arith in
              let st' = record st { data_len_value = value } in
              let r' =
                update-Room dst len out small flat st' m (1 * sz) (len-Room value) fits
                  (copied (bytes_of value) 0 (1 * sz) fits) in
              rw (b, encode_basic_elem_lem st.out st.buf_dst (bytes_of value) 0 1 sz (omega arith))
                (if-StepWithin (value == 0) _ _ (skip-IsTable flat level next t, r')
                  (t, open-Room _ r'))
        ]

    -- A nested call, which gets all the room that is left.
    inner-CallWithin :
        (o : Outcome)
        → flat ≡ false
        → WritesWithin st.out st.buf_dst (sub_u32 len st.encoded_bytes) o
        → CallWithin flat dst len out st o
    inner-CallWithin (done n m) bare (le, same) =
        let placed = r.placed in
        let none_left : header flat ≡ 0 = ap header bare in
        let left = sub_u32_lem len st.encoded_bytes r.fits small in
        let fits = r.fits in
        (
          omega arith,
          Agrees-inner out st.out m dst (dst + len) st.buf_dst
              (st.buf_dst + sub_u32 len st.encoded_bytes) r.agrees same (omega arith) (omega arith),
        )
    inner-CallWithin (failed errno m) bare same =
        let placed = r.placed in
        let none_left : header flat ≡ 0 = ap header bare in
        let left = sub_u32_lem len st.encoded_bytes r.fits small in
        let fits = r.fits in
        Agrees-inner out st.out m dst (dst + len) st.buf_dst
          (st.buf_dst + sub_u32 len st.encoded_bytes) r.agrees same (omega arith) (omega arith)
    inner-CallWithin past_table bare w = tt
    inner-CallWithin out_of_fuel bare w = tt

    pub struct-Within :
        NestedWithin nested
        → 1 ≤ level
        → e.data_type ≡ struct
        → StepWithin flat dst len out (encode_struct nested level len src base e sub next st)
    unfolding encode_struct encode_struct_elem
    struct-Within w one k =
        let left = sub_u32_lem len st.encoded_bytes r.fits small in
        let not_flat : flat ≡ false = elim (Bool-cases flat) [
          | inl b ↦ absurd (f.plain b k)
          | inr b ↦ b
        ] in
        let start : st.buf_dst + 0 ≡ st.buf_dst = omega arith in
        let inner =
          struct_loop-Within nested (level + 1) (sub_u32 len st.encoded_bytes) e.elem_size sub w
            (ground arith) (omega arith) ts (omega arith) st.data_len_value st.buf_dst
            (base + e.offset) 0 st.out st.out (omega arith) (λ a o. refl) in
        after_call-Within st next _ t r (inner-CallWithin _ not_flat (rw start at inner))

    string-CallWithin :
        e.data_type ≡ string
        → CallWithin flat dst len out st (
            encode_string_elem e st.buf_dst src
              (base + e.offset)
              (sub_u32 len st.encoded_bytes)
              level
              st.out)
    unfolding encode_string_elem
    string-CallWithin k =
        let s = base + e.offset in
        let n = strlen (e.elem_len + 1) src s in
        let sz = string_len_sz e in
        let few : sz ≤ 2 = ground arith in
        let left = sub_u32_lem len st.encoded_bytes r.fits small in
        let fits = r.fits in
        let total = f.total in
        let bytes : n * e.elem_size ≡ n = ap (λ c. n * c) (f.chars k) ∙ omega arith in
        let most : e.elem_len * e.elem_size ≡ e.elem_len =
          ap (λ c. e.elem_len * c) (f.chars k) ∙ omega arith in
        elim (Bool-cases (ltb e.elem_len n)) [
          | inl b ↦ rw b r.agrees
          | inr b ↦
              let le : n ≤ e.elem_len = ground (arith, b) in
              elim (Bool-cases (level == 1)) [
                | inl l ↦ elim (Bool-cases (ltb (sub_u32 len st.encoded_bytes) (n + 3))) [
                  | inl c ↦ rw (b, l, c) r.agrees
                  | inr c ↦
                      let h = header_le flat in
                      let room : n + 3 ≤ len - st.encoded_bytes = ground (arith, c) in
                      let space : st.encoded_bytes + n * e.elem_size + header flat ≤ len =
                        omega arith in
                      rw
                        (
                          b,
                          l,
                          c,
                          encode_basic_elem_lem st.out st.buf_dst src s n e.elem_size (omega arith),
                        )
                        (space, copied src s (n * e.elem_size) space)
                ]
                | inr l ↦
                    elim (Bool-cases (ltb (sub_u32 len st.encoded_bytes) ((n + sz) % u32_mod))) [
                      | inl c ↦ rw (b, l, c) r.agrees
                      | inr c ↦
                          let none_left : header flat ≡ 0 = ap header (sym levels ∙ l) in
                          let wraps : (n + sz) % u32_mod ≡ n + sz = omega arith in
                          let room : n + sz ≤ len - st.encoded_bytes =
                            ground (arith, rw wraps at c) in
                          let m = memcpy st.out st.buf_dst (bytes_of n) 0 (1 * sz) in
                          let placed = r.placed in
                          let first : st.encoded_bytes + 1 * sz + header flat ≤ len = omega arith in
                          rw
                            (
                              b,
                              l,
                              c,
                              encode_basic_elem_lem st.out st.buf_dst (bytes_of n) 0 1 sz
                                  (omega arith),
                              encode_basic_elem_lem m (st.buf_dst + 1 * sz) src s n e.elem_size
                                  (omega arith),
                            )
                            (
                              omega arith,
                              Agrees-memcpy out m dst (dst + len) (st.buf_dst + 1 * sz) src s
                                  (n * e.elem_size) (copied (bytes_of n) 0 (1 * sz) first)
                                  (omega arith) (omega arith),
                            )
                    ]
              ]
        ]

    pub string-Within :
        e.data_type ≡ string
        → StepWithin flat dst len out (encode_string nested level len src base e sub next st)
    unfolding encode_string
    string-Within k = after_call-Within st next _ t r (string-CallWithin k)
