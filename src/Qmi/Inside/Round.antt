-- ===== src/Qmi/Inside/Round.antt =====
-- The rounds of `qmi_decode` of lib/qmi.c: whatever the message, only the structure is written.
use qrtr.Base.{
  ℕ, zero, suc, ◌+◌, ◌*◌, ◌%◌, ◌^◌, ◌≡◌, refl, Bool, true, false, not, ◌&&◌, Option, none, some,
  ltb, leb, ◌==◌, if◌then◌else◌,
}
use qrtr.Qmi.{Mem, Elems, stop, elem, einval, Outcome, failed, find_ei, sub_u32}
use qrtr.Qmi.Bounds.{Agrees}
use qrtr.Qmi.Decode.{
  DecodeVars, Step, go, exit, Nested, update_decode, decode_len, decode_flag, decode_data_len,
  decode_elem, decode_sized, decode_one, open_tlv, is_eoti, decode_start, decode_round, decode_loop,
}
use qrtr.Qmi.Message.{qmi_decode}
use qrtr.Qmi.Inside.{if-Keeps, Describes, Keeps, NestedKeeps, find-Describes, decode_len-fits}
use qrtr.Qmi.Inside.Elem.{StepInside, PairInside, flag-Inside, length-Inside, elem-Inside}

module _ (nested : Nested) (level : ℕ) (src : Mem) (base size : ℕ) (out : Mem)
    (w : (inner : ℕ) (sub : Elems) → Describes inner sub → NestedKeeps nested inner sub) where
  sized-Inside :
      (at : Elems) (st : DecodeVars)
      → Describes size at
      → Agrees out st.out base (base + size)
      → StepInside size out base (decode_sized nested level src base at st)
  unfolding decode_sized
  sized-Inside stop st h same = absurd h
  sized-Inside (elem e sub next) st (l, s, n) same = by_len (decode_len e st.data_len_value) refl
    where
      by_len :
          (o : Option ℕ)
          → decode_len e st.data_len_value ≡ o
          → StepInside size out base (elim o [
            | none ↦ exit (failed einval st.out)
            | some n ↦
                decode_elem nested level src base e sub next (record st { data_len_value = n })
          ])
      by_len none k = same
      by_len (some n₀) k =
          elem-Inside nested level src base size out e sub next (record st { data_len_value = n₀ })
            l n (decode_len-fits e st.data_len_value n₀ k) same (λ b. w e.elem_size sub (s b))
            e.data_type refl

  one-Inside :
      (at : Elems) (st : DecodeVars)
      → Describes size at
      → Agrees out st.out base (base + size)
      → StepInside size out base (decode_one nested level src base at st)
  unfolding decode_one
  one-Inside at st h same =
      after_flag (decode_flag nested level src base at st)
        (flag-Inside nested level src base size out at st h same)
    where
      after_length :
          (p : Elems × DecodeVars)
          → PairInside size out base p
          → StepInside size out base
              (let (at₂, st₂) = p in decode_sized nested level src base at₂ st₂)
      after_length (at₂, st₂) (h₂, same₂) = sized-Inside at₂ st₂ h₂ same₂

      after_flag :
          (p : Elems × DecodeVars)
          → PairInside size out base p
          → StepInside size out base (
              let (at₁, st₁) = p in
              let (at₂, st₂) = decode_data_len nested level src base at₁ st₁ in
              decode_sized nested level src base at₂ st₂)
      after_flag (at₁, st₁) (h₁, same₁) =
          after_length (decode_data_len nested level src base at₁ st₁)
            (length-Inside nested level src base size out at₁ st₁ h₁ same₁)

  open-Inside :
      (ei at : Elems) (st : DecodeVars)
      → Describes size ei
      → Describes size at
      → Agrees out st.out base (base + size)
      → StepInside size out base (open_tlv src ei at st (decode_one nested level src base))
  unfolding open_tlv
  open-Inside ei at st all h same = by_find (find_ei ei (src st.buf_src % 256)) refl
    where
      T : ℕ
      T = src (st.buf_src + 1) % 256 + src (st.buf_src + 2) % 256 * 2 ^ 8

      by_test :
          (c : Bool)
          → StepInside size out base (
              if c
              then exit (failed einval st.out)
              else go at (update_decode (record (update_decode st 3) { tlv_len = T }) T))
      by_test true = same
      by_test false = (h, same)

      by_find :
          (o : Option Elems)
          → find_ei ei (src st.buf_src % 256) ≡ o
          → StepInside size out base (elim o [
            | some e ↦
                decode_one nested level src base e (record (update_decode st 3) { tlv_len = T })
            | none ↦
                if ltb (src st.buf_src % 256) 0x10
                then exit (failed einval st.out)
                else go at (update_decode (record (update_decode st 3) { tlv_len = T }) T)
          ])
      by_find (some e) k =
          one-Inside e (record (update_decode st 3) { tlv_len = T })
            (find-Describes size ei _ e all k) same
      by_find none k = by_test (ltb (src st.buf_src % 256) 0x10)

  module _ (loop : Elems → DecodeVars → Outcome)
      (rest : (at : Elems) (st : DecodeVars)
        → Describes size at
        → Agrees out st.out base (base + size)
        → Keeps out base (base + size) (loop at st)) where
    step_end :
        (step : Step)
        → StepInside size out base step
        → Keeps out base (base + size) (elim step [ go at st ↦ loop at st | exit end ↦ end ])
    step_end (go at st) (h, same) = rest at st h same
    step_end (exit end) h = h

    if_Inside :
        (c : Bool) (x y : Step)
        → StepInside size out base x
        → StepInside size out base y
        → StepInside size out base (if c then x else y)
    if_Inside true x y h g = h
    if_Inside false x y h g = g

    pub round-Keeps :
        (len : ℕ) (ei at : Elems) (st : DecodeVars)
        → Describes size ei
        → Describes size at
        → Agrees out st.out base (base + size)
        → Keeps out base (base + size) (decode_round nested loop level len src base ei at st)
    unfolding decode_round
    round-Keeps len ei at st all h same =
        if-Keeps (not (ltb st.decoded_bytes len)) out base (base + size) _ _ same (
          if-Keeps (leb 2 level && is_eoti at) out base (base + size) _ _ same (
            step_end _ (
              if_Inside (level == 1) _ _ (open-Inside ei at st all h same)
                (one-Inside at (record st { tlv_len = sub_u32 len st.decoded_bytes }) h same))))

-- The loop, and the loops of the calls that it nests.
loop-Keeps :
    (fuel : ℕ) (src : Mem) (level len base size : ℕ) (out : Mem) (ei at : Elems) (st : DecodeVars)
    → Describes size ei
    → Describes size at
    → Agrees out st.out base (base + size)
    → Keeps out base (base + size) (decode_loop fuel src level len base ei at st)
unfolding decode_loop
loop-Keeps zero src level len base size out ei at st all h same = tt
loop-Keeps (suc fuel) src level len base size out ei at st all h same =
    round-Keeps
      (λ level' len s d sub m. decode_loop fuel src level' len d sub sub (decode_start s m)) level
      src base size out
      (λ inner sub k level' len' s d m.
        loop-Keeps fuel src level' len' d inner m sub sub (decode_start s m) k k (λ a o. refl))
      (decode_loop fuel src level len base ei)
      (λ at st h same. loop-Keeps fuel src level len base size out ei at st all h same) len ei at st
      all h same

-- For a table with an end element whose elements, those of its inner tables in the structures of
-- their elements, lie in a structure of a given size (a flag has a byte, a length has four, a string
-- of characters has room for its terminator), qmi_decode writes only into the structure that it is
-- given, whatever bytes the message has and whatever its length says, at any level and also when it
-- fails, and it never goes past the end of a table.
pub decode-Keeps :
    (fuel : ℕ) (src : Mem) (ei : Elems) (out_c_struct size in_buf in_buf_len level : ℕ) (out : Mem)
    → Describes size ei
    → Keeps out out_c_struct
        (out_c_struct + size)
        (qmi_decode fuel src ei out_c_struct in_buf in_buf_len level out)
unfolding qmi_decode
decode-Keeps fuel src ei out_c_struct size in_buf in_buf_len level out h =
    loop-Keeps fuel src level in_buf_len out_c_struct size out ei ei (decode_start in_buf out) h h
      (λ a o. refl)
