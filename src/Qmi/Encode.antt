-- ===== src/Qmi/Encode.antt =====
-- `qmi_encode` of lib/qmi.c. A position in the buffer is an address of the output memory.
use qrtr.Base.{
  ℕ, zero, suc, ◌+◌, ◌-◌, ◌*◌, ◌%◌, Bool, true, false, ◌&&◌, ◌||◌, Option, none, some, ltb, ◌==◌,
  if◌then◌else◌, u32_mod,
}
use qrtr.Qmi.{
  Mem, memcpy, bytes_of, read_into, eoti, opt_flag, data_len, struct, string, no_array,
  static_array, var_len_array, Info, Elems, stop, elem, einval, Outcome, done, failed, past_table,
  out_of_fuel, skip_to_next_elem, encode_basic_elem, data_len_sz, string_len_sz, sub_u32,
}

-- The variables of `qmi_encode` and the output memory.
pub record EncodeVars : Type 0 where
  pub buf_dst : ℕ
  pub tlv_pointer : ℕ
  pub tlv_len : ℕ
  pub encoded_bytes : ℕ
  pub data_len_value : ℕ
  pub encode_tlv : Bool
  pub out : Mem

-- After one element: the next element and the variables, or the end.
pub data Step : Type 0 where
  go : Elems → EncodeVars → Step
  exit : Outcome → Step

-- The array length of an element, from the length before; `none` is an invalid length.
unfoldable pub encode_len : Info → ℕ → Option ℕ
encode_len e before = elim e.array_type [
  | no_array ↦ some 1
  | static_array ↦ some e.elem_len
  | var_len_array ↦ if (before == 0) || ltb e.elem_len before then none else some before
]

-- `UPDATE_ENCODE_VARIABLES` but for the element pointer.
abbrev pub update_encode : EncodeVars → ℕ → EncodeVars
update_encode st rc = record st {
  buf_dst = st.buf_dst + rc;
  encoded_bytes = (st.encoded_bytes + rc) % u32_mod;
  tlv_len = (st.tlv_len + rc) % u32_mod;
  encode_tlv = true;
}

-- `strlen`, which the code compares with a bound: no more than `bound` bytes are looked at.
unfoldable pub strlen : ℕ → Mem → ℕ → ℕ
strlen zero src s = 0
strlen (suc bound) src s = let rest = strlen bound src (s + 1) in if src s == 0 then 0 else rest + 1

-- A nested call: level, space, the address to write, the structure to read, the table, the memory.
abbrev pub Nested : Type 0
Nested = ℕ → ℕ → ℕ → ℕ → Elems → Mem → Outcome

-- The loop of `qmi_encode_struct_elem`.
unfoldable pub encode_struct_loop : Nested → ℕ → ℕ → ℕ → Elems → ℕ → ℕ → ℕ → ℕ → Mem → Outcome
encode_struct_loop nested level out_buf_len elem_size sub zero dst s encoded out = done encoded out
encode_struct_loop nested level out_buf_len elem_size sub (suc n) dst s encoded out =
    elim (nested level (sub_u32 out_buf_len encoded) dst s sub out) [
      | done rc out' ↦
          encode_struct_loop nested level out_buf_len elem_size sub n (dst + rc) (s + elem_size)
            (encoded + rc) out'
      | failed errno out' ↦ failed errno out'
      | past_table ↦ past_table
      | out_of_fuel ↦ out_of_fuel
    ]

unfoldable pub encode_struct_elem : Nested → Info → Elems → ℕ → ℕ → ℕ → ℕ → ℕ → Mem → Outcome
encode_struct_elem nested e sub dst s elem_len out_buf_len level out =
    encode_struct_loop nested level out_buf_len e.elem_size sub elem_len dst s 0 out

unfoldable pub encode_string_elem : Info → ℕ → Mem → ℕ → ℕ → ℕ → Mem → Outcome
encode_string_elem e dst src s out_buf_len level out =
    let string_len = strlen (e.elem_len + 1) src s in
    let sz = string_len_sz e in
    let (short, rc) = encode_basic_elem out dst src s string_len e.elem_size in
    let (counted, rc₀) = encode_basic_elem out dst (bytes_of string_len) 0 1 sz in
    let (long, rc₁) = encode_basic_elem counted (dst + rc₀) src s string_len e.elem_size in
    if ltb e.elem_len string_len
    then failed einval out
    else if level == 1
    then if ltb out_buf_len (string_len + 3) then failed einval out else done rc short
    else if ltb out_buf_len ((string_len + sz) % u32_mod)
    then failed einval out
    else done (rc₀ + rc₁) long

-- What follows a call that encoded an element.
abbrev pub after_call : EncodeVars → Elems → Outcome → Step
after_call st next (done rc out) = go next (update_encode (record st { out = out }) rc)
after_call st next (failed errno out) = exit (failed errno out)
after_call st next past_table = exit past_table
after_call st next out_of_fuel = exit out_of_fuel

module _ (nested : Nested) (level out_buf_len : ℕ) (src : Mem) (base : ℕ) (e : Info)
    (sub next : Elems) (st : EncodeVars) where
  abbrev pub buf_src : ℕ
  buf_src = base + e.offset

  -- `case QMI_OPT_FLAG`
  unfoldable pub encode_flag : Step
  encode_flag =
      if src buf_src % 256 == 0
      then go (skip_to_next_elem (elem e sub next) level) st
      else go next st

  -- `case QMI_DATA_LEN`
  unfoldable pub encode_data_len : Step
  encode_data_len =
      let value = read_into st.data_len_value src buf_src e.elem_size in
      let sz = data_len_sz e in
      let (out, rc) = encode_basic_elem st.out st.buf_dst (bytes_of value) 0 1 sz in
      let st' = update_encode (record st { data_len_value = value; out = out }) rc in
      if ltb out_buf_len ((sz + st.encoded_bytes) % u32_mod + 3)
      then exit (failed einval st.out)
      else if value == 0
      then go (skip_to_next_elem next level) st'
      else go next (record st' { encode_tlv = false })

  -- The cases of the basic types.
  unfoldable pub encode_basic : Step
  encode_basic =
      let n = st.data_len_value in
      let (out, rc) = encode_basic_elem st.out st.buf_dst src buf_src n e.elem_size in
      if ltb out_buf_len ((n * e.elem_size + st.encoded_bytes) % u32_mod + 3)
      then exit (failed einval st.out)
      else go next (update_encode (record st { out = out }) rc)

  -- `case QMI_STRUCT`
  unfoldable pub encode_struct : Step
  encode_struct = after_call st next (
      encode_struct_elem nested e sub st.buf_dst buf_src st.data_len_value
        (sub_u32 out_buf_len st.encoded_bytes) (level + 1) st.out)

  -- `case QMI_STRING`
  unfoldable pub encode_string : Step
  encode_string = after_call st next (
      encode_string_elem e st.buf_dst src buf_src (sub_u32 out_buf_len st.encoded_bytes) level
        st.out)

  -- The `switch`.
  unfoldable pub encode_elem : Step
  encode_elem = elim e.data_type [
    | opt_flag ↦ encode_flag
    | data_len ↦ encode_data_len
    | struct ↦ encode_struct
    | string ↦ encode_string
    | eoti ↦ exit (failed einval st.out)
    | _ ↦ encode_basic
  ]

-- `QMI_ENCDEC_ENCODE_TLV`: the type, and the length in two bytes.
abbrev pub tlv_header : ℕ → ℕ → Mem
tlv_header tlv_type tlv_len a = if a == 0 then tlv_type % 256 else bytes_of tlv_len (a - 1)

-- The end of a round at the first level: the header of the TLV is written before it.
abbrev pub closed_tlv : ℕ → EncodeVars → EncodeVars
closed_tlv tlv_type st = record {
  buf_dst = st.buf_dst + 3;
  tlv_pointer = st.buf_dst;
  tlv_len = 0;
  encoded_bytes = (st.encoded_bytes + 3) % u32_mod;
  data_len_value = st.data_len_value;
  encode_tlv = false;
  out = memcpy st.out st.tlv_pointer (tlv_header tlv_type st.tlv_len) 0 3;
}

unfoldable pub close_tlv : ℕ → ℕ → EncodeVars → EncodeVars
close_tlv level tlv_type st = if st.encode_tlv && level == 1 then closed_tlv tlv_type st else st

-- The variables at the start of `qmi_encode`.
abbrev pub encode_start : ℕ → ℕ → Mem → EncodeVars
encode_start level dst out = record {
  buf_dst = if level == 1 then dst + 3 else dst;
  tlv_pointer = dst;
  tlv_len = 0;
  encoded_bytes = 0;
  data_len_value = 0;
  encode_tlv = false;
  out = out;
}

-- One round of the loop of `qmi_encode`; `loop` is the rest of the loop.
unfoldable pub encode_round :
    Nested → (Elems → EncodeVars → Outcome) → ℕ → ℕ → Mem → ℕ → Elems → EncodeVars → Outcome
encode_round nested loop level out_buf_len src base stop st = past_table
encode_round nested loop level out_buf_len src base (elem e sub next) st =
    let round : Outcome = elim (encode_len e st.data_len_value) [
      | none ↦ failed einval st.out
      | some n ↦
          elim (encode_elem nested level out_buf_len src base e sub next
            (record st { data_len_value = n })) [
              | go at st' ↦ loop at (close_tlv level e.tlv_type st')
              | exit end ↦ end
            ]
    ] in
    elim e.data_type [ eoti ↦ done st.encoded_bytes st.out | _ ↦ round ]

-- The call of `qmi_encode`, from its loop.
unfoldable pub encode_call : (ℕ → ℕ → ℕ → Elems → EncodeVars → Outcome) → Nested
encode_call loop level out_buf_len dst base stop out = done 0 out
encode_call loop level out_buf_len dst base (elem e sub next) out =
    loop level out_buf_len base (elem e sub next) (encode_start level dst out)

-- The loop of `qmi_encode`. The fuel bounds its rounds and the calls that structures nest.
unfoldable pub encode_loop : ℕ → Mem → ℕ → ℕ → ℕ → Elems → EncodeVars → Outcome
encode_loop zero src level out_buf_len base ei st = out_of_fuel
encode_loop (suc fuel) src level out_buf_len base ei st =
    encode_round (encode_call (encode_loop fuel src)) (encode_loop fuel src level out_buf_len base)
      level out_buf_len src base ei st
