-- ===== src/Qmi/Decode.antt =====
-- `qmi_decode` of lib/qmi.c. A position in the message is an address of the source memory, and the
-- structure that is filled in stands in the output memory.
use qrtr.Base.{
  ℕ, zero, suc, ◌+◌, ◌*◌, ◌%◌, ◌^◌, Bool, true, false, not, ◌&&◌, ◌||◌, Option, none, some, ltb,
  leb, ◌==◌, if◌then◌else◌, u32_mod,
}
use qrtr.Qmi.{
  Mem, memcpy, bytes_of, read_into, eoti, opt_flag, data_len, struct, string, no_array,
  static_array, var_len_array, Info, Elems, stop, elem, einval, efault, Outcome, done, failed,
  past_table, out_of_fuel, find_ei, decode_basic_elem, data_len_sz, string_len_sz, sub_u32,
}

-- The variables of `qmi_decode` and the memory of the structure.
pub record DecodeVars : Type 0 where
  pub buf_src : ℕ
  pub decoded_bytes : ℕ
  pub tlv_len : ℕ
  pub data_len_value : ℕ
  pub out : Mem

pub data Step : Type 0 where
  go : Elems → DecodeVars → Step
  exit : Outcome → Step

-- `UPDATE_DECODE_VARIABLES`
abbrev pub update_decode : DecodeVars → ℕ → DecodeVars
update_decode st rc = record st {
  buf_src = st.buf_src + rc;
  decoded_bytes = (st.decoded_bytes + rc) % u32_mod;
}

-- `none` is an invalid length.
unfoldable pub decode_len : Info → ℕ → Option ℕ
decode_len e before = elim e.array_type [
  | no_array ↦ some 1
  | static_array ↦ some e.elem_len
  | var_len_array ↦ if ltb e.elem_len before then none else some before
]

-- A nested call: level, bytes to read, the address to read, the structure to write, the table, the
-- memory.
abbrev pub Nested : Type 0
Nested = ℕ → ℕ → ℕ → ℕ → Elems → Mem → Outcome

-- The loop of `qmi_decode_struct_elem`, and the check after it; n elements are left.
unfoldable pub decode_struct_loop : Nested → ℕ → ℕ → ℕ → Elems → ℕ → ℕ → ℕ → ℕ → Mem → Outcome
decode_struct_loop nested level tlv_len elem_size sub zero s d decoded out =
    if (leb level 2 && not (decoded == tlv_len)) || (ltb 2 level && ltb tlv_len decoded)
    then failed efault out
    else done decoded out
decode_struct_loop nested level tlv_len elem_size sub (suc n) s d decoded out =
    let round : Outcome = elim (nested level (sub_u32 tlv_len decoded) s d sub out) [
      | done rc out' ↦
          decode_struct_loop nested level tlv_len elem_size sub n (s + rc) (d + elem_size)
            (decoded + rc) out'
      | failed errno out' ↦ failed errno out'
      | past_table ↦ past_table
      | out_of_fuel ↦ out_of_fuel
    ] in
    let short : Outcome =
      if (leb level 2 && not (decoded == tlv_len)) || ltb 2 level
      then failed efault out
      else done decoded out in
    if ltb decoded tlv_len then round else short

unfoldable pub decode_struct_elem : Nested → Info → Elems → ℕ → ℕ → ℕ → ℕ → ℕ → Mem → Outcome
decode_struct_elem nested e sub d s elem_len tlv_len level out =
    decode_struct_loop nested level tlv_len e.elem_size sub elem_len s d 0 out

unfoldable pub decode_string_elem : Info → ℕ → Mem → ℕ → ℕ → ℕ → Mem → Outcome
decode_string_elem e d src s tlv_len level out =
    let sz = if level == 1 then 0 else string_len_sz e in
    let string_len = if level == 1 then tlv_len else read_into 0 src s sz in
    let (out', rc) = decode_basic_elem out d src (s + sz) string_len e.elem_size in
    if ltb e.elem_len string_len
    then failed einval out
    else if ltb tlv_len string_len
    then failed efault out
    else done (sz + rc) (memcpy out' (d + string_len) (λ a. 0) 0 1)

abbrev pub after_call : DecodeVars → Elems → Outcome → Step
after_call st next (done rc out) = go next (update_decode (record st { out = out }) rc)
after_call st next (failed errno out) = exit (failed errno out)
after_call st next past_table = exit past_table
after_call st next out_of_fuel = exit out_of_fuel

module _ (nested : Nested) (level : ℕ) (src : Mem) (base : ℕ) where
  -- `if (temp_ei->data_type == QMI_OPT_FLAG)`
  unfoldable pub decode_flag : Elems → DecodeVars → Elems × DecodeVars
  decode_flag stop st = (stop, st)
  decode_flag (elem e sub next) st =
      let flag : Elems × DecodeVars =
        (next, record st { out = memcpy st.out (base + e.offset) (λ a. 1) 0 1 }) in
      elim e.data_type [ opt_flag ↦ flag | _ ↦ (elem e sub next, st) ]

  -- `if (temp_ei->data_type == QMI_DATA_LEN)`
  unfoldable pub decode_data_len : Elems → DecodeVars → Elems × DecodeVars
  decode_data_len stop st = (stop, st)
  decode_data_len (elem e sub next) st =
      let sz = data_len_sz e in
      let value = read_into st.data_len_value src st.buf_src sz in
      let read = record st {
        data_len_value = value;
        out = memcpy st.out (base + e.offset) (bytes_of value) 0 4;
        tlv_len = sub_u32 st.tlv_len sz;
      } in
      elim e.data_type [ data_len ↦ (next, update_decode read sz) | _ ↦ (elem e sub next, st) ]

  -- The `switch`.
  unfoldable pub decode_elem : Info → Elems → Elems → DecodeVars → Step
  decode_elem e sub next st =
      let d = base + e.offset in
      let n = st.data_len_value in
      let basic : Step =
        let (out, rc) = decode_basic_elem st.out d src st.buf_src n e.elem_size in
        go next (update_decode (record st { out = out }) rc) in
      elim e.data_type [
        | eoti ↦ exit (failed einval st.out)
        | opt_flag ↦ exit (failed einval st.out)
        | data_len ↦ exit (failed einval st.out)
        | struct ↦
            after_call st next
              (decode_struct_elem nested e sub d st.buf_src n st.tlv_len (level + 1) st.out)
        | string ↦
            after_call st next (decode_string_elem e d src st.buf_src st.tlv_len level st.out)
        | _ ↦ basic
      ]

  -- The length of the array, and the `switch`.
  unfoldable pub decode_sized : Elems → DecodeVars → Step
  decode_sized stop st = exit past_table
  decode_sized (elem e sub next) st = elim (decode_len e st.data_len_value) [
    | none ↦ exit (failed einval st.out)
    | some n ↦ decode_elem e sub next (record st { data_len_value = n })
  ]

  -- The part of a round that follows the choice of the element.
  unfoldable pub decode_one : Elems → DecodeVars → Step
  decode_one at st =
      let (at₁, st₁) = decode_flag at st in
      let (at₂, st₂) = decode_data_len at₁ st₁ in decode_sized at₂ st₂

-- The start of a round at the first level: the header of a TLV is read and its element is looked for.
-- `continue` is a step too.
unfoldable pub open_tlv : Mem → Elems → Elems → DecodeVars → (Elems → DecodeVars → Step) → Step
open_tlv src ei_array at st body =
    let tlv_type = src st.buf_src % 256 in
    let tlv_len = src (st.buf_src + 1) % 256 + src (st.buf_src + 2) % 256 * 2 ^ 8 in
    let st' = record (update_decode st 3) { tlv_len = tlv_len } in
    elim (find_ei ei_array tlv_type) [
      | some e ↦ body e st'
      | none ↦
          if ltb tlv_type 0x10
          then exit (failed einval st.out)
          else go at (update_decode st' tlv_len)
    ]

abbrev pub is_eoti : Elems → Bool
is_eoti stop = false
is_eoti (elem e sub next) = elim e.data_type [ eoti ↦ true | _ ↦ false ]

-- One round of the loop of `qmi_decode`; `loop` is the rest of the loop.
unfoldable pub decode_round :
    Nested → (Elems → DecodeVars → Outcome) → ℕ → ℕ → Mem → ℕ → Elems → Elems → DecodeVars → Outcome
decode_round nested loop level in_buf_len src base ei_array at st =
    let step : Step =
      if level == 1
      then open_tlv src ei_array at st (decode_one nested level src base)
      else decode_one nested level src base at
          (record st { tlv_len = sub_u32 in_buf_len st.decoded_bytes }) in
    let round : Outcome = elim step [ go at' st' ↦ loop at' st' | exit end ↦ end ] in
    if not (ltb st.decoded_bytes in_buf_len)
    then done st.decoded_bytes st.out
    else if leb 2 level && is_eoti at
    then done st.decoded_bytes st.out
    else round

abbrev pub decode_start : ℕ → Mem → DecodeVars
decode_start s out = record {
  buf_src = s;
  decoded_bytes = 0;
  tlv_len = 0;
  data_len_value = 0;
  out = out;
}

-- The loop of `qmi_decode`. The fuel bounds its rounds and the calls that structures nest.
unfoldable pub decode_loop : ℕ → Mem → ℕ → ℕ → ℕ → Elems → Elems → DecodeVars → Outcome
decode_loop zero src level in_buf_len base ei_array at st = out_of_fuel
decode_loop (suc fuel) src level in_buf_len base ei_array at st =
    decode_round
      (λ level' len s d sub out. decode_loop fuel src level' len d sub sub (decode_start s out))
      (decode_loop fuel src level in_buf_len base ei_array) level in_buf_len src base ei_array at st
