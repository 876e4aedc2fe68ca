-- ===== src/Qmi/Flat/Decoded.antt =====
-- `qmi_decode` of lib/qmi.c on the encoding of a table of fields.
use qrtr.Base.{
  ℕ, zero, suc, ◌+◌, ◌-◌, ◌%◌, ◌^◌, ◌≤◌, ◌<◌, ◌≡◌, ◌≢◌, refl, sym, ◌∙◌, inl, inr, true, false, some,
  if◌then◌else◌, ltb, ◌==◌, arith, u32_mod, lt_or_le,
}
use qrtr.Qmi.{
  ElemType, eoti, opt_flag, data_len, struct, string, ArrayType, no_array, static_array,
  var_len_array, Mem, memcpy, Info, Elems, stop, elem, Outcome, done, find_ei,
}
use qrtr.Qmi.Memory.{Mem-ext, memcpy_at, memcpy_out, decode_basic_elem_lem}
use qrtr.Qmi.Tables.{rank}
use qrtr.Qmi.Decode.{
  DecodeVars, go, Nested, decode_len, decode_flag, decode_data_len, decode_elem, decode_sized,
  decode_one, open_tlv, decode_round, decode_loop,
}
use qrtr.Qmi.Message.{qmi_decode}
use qrtr.Qmi.Flat.{
  IsBasic, count, size, IsField, IsFlat, Lacks, wire_len, IsTlv, IsLaid, fields, basic-NotEoti,
  wire_len_field, fields_field,
}

-- Every field of the table is found by its type.
abbrev pub IsFound : Elems → Elems → Type 0
IsFound ei stop = Unit {0}
IsFound ei (elem e sub next) =
    (e.data_type ≢ eoti → find_ei ei e.tlv_type ≡ some (elem e sub next)) × IsFound ei next

-- The branch that a basic type takes.
no_end : {A : Type 0} (k : ElemType) (x y : A) → IsBasic k → elim k [ eoti ↦ y | _ ↦ x ] ≡ x
no_end eoti x y h = absurd h
no_end opt_flag x y h = absurd h
no_end data_len x y h = absurd h
no_end struct x y h = absurd h
no_end string x y h = absurd h
no_end _ x y h = refl

no_flag : {A : Type 0} (k : ElemType) (x y : A) → IsBasic k → elim k [ opt_flag ↦ y | _ ↦ x ] ≡ x
no_flag eoti x y h = absurd h
no_flag opt_flag x y h = absurd h
no_flag data_len x y h = absurd h
no_flag struct x y h = absurd h
no_flag string x y h = absurd h
no_flag _ x y h = refl

no_length : {A : Type 0} (k : ElemType) (x y : A) → IsBasic k → elim k [ data_len ↦ y | _ ↦ x ] ≡ x
no_length eoti x y h = absurd h
no_length opt_flag x y h = absurd h
no_length data_len x y h = absurd h
no_length struct x y h = absurd h
no_length string x y h = absurd h
no_length _ x y h = refl

basic_only :
    {A : Type 0} (k : ElemType) (x a b c d e : A)
    → IsBasic k
    → elim k [ eoti ↦ a | opt_flag ↦ b | data_len ↦ c | struct ↦ d | string ↦ e | _ ↦ x ] ≡ x
basic_only eoti x a b c d e h = absurd h
basic_only opt_flag x a b c d e h = absurd h
basic_only data_len x a b c d e h = absurd h
basic_only struct x a b c d e h = absurd h
basic_only string x a b c d e h = absurd h
basic_only _ x a b c d e h = refl

find_ei_field :
    (e : Info) (sub next : Elems) (t : ℕ)
    → IsBasic e.data_type
    → find_ei (elem e sub next) t
      ≡ (if e.tlv_type == t % 256 then some (elem e sub next) else find_ei next t)
unfolding find_ei
find_ei_field e sub next t h = no_end e.data_type _ _ h

later-IsFound :
    (e : Info) (sub next : Elems)
    → IsField e
    → (at : Elems) → IsFlat at
    → Lacks e.tlv_type at
    → IsFound next at
    → IsFound (elem e sub next) at
later-IsFound e sub next f stop flat lacks found = tt
later-IsFound e sub next f (elem a inner rest) (inl (k, last)) (apart, lacks) (here, found) =
    (λ ne. absurd (ne k), rw last tt)
later-IsFound e sub next f (elem a inner rest) (inr (g, own, flat)) (apart, lacks) (here, found) = (
  λ ne.
      let differs = apart ne in
      let typed = g.typed in
      let b : (e.tlv_type == a.tlv_type % 256) ≡ false = ground arith in
      find_ei_field e sub next a.tlv_type f.basic ∙ rw b (here ne),
  later-IsFound e sub next f rest flat lacks found,
)

pub flat-IsFound : (ei : Elems) → IsFlat ei → IsFound ei ei
flat-IsFound stop flat = tt
flat-IsFound (elem e sub next) (inl (k, last)) = (λ ne. absurd (ne k), rw last tt)
flat-IsFound (elem e sub next) (inr (f, lacks, flat)) = (
  λ ne.
      let typed = f.typed in
      let b : (e.tlv_type == e.tlv_type % 256) ≡ true = ground arith in
      find_ei_field e sub next e.tlv_type f.basic ∙ rw b refl,
  later-IsFound e sub next f next flat lacks (flat-IsFound next flat),
)

decode_len_field :
    (e : Info) (v : ℕ) → e.array_type ≢ var_len_array → decode_len e v ≡ some (count e)
unfolding decode_len
decode_len_field e v h = by_array e.array_type refl
  where
    by_array : (a : ArrayType) → e.array_type ≡ a → decode_len e v ≡ some (count e)
    by_array no_array k = rw (k, decode_len) refl
    by_array static_array k = rw (k, decode_len) refl
    by_array var_len_array k = absurd (h k)

-- A copy of the same bytes from another place.
memcpy_same :
    (dst : Mem) (d : ℕ) (src src' : Mem) (s s' n : ℕ)
    → ((j : ℕ) → j < n → src (s + j) ≡ src' (s' + j))
    → memcpy dst d src s n ≡ memcpy dst d src' s' n
memcpy_same dst d src src' s s' n same = Mem-ext (λ a. elim (lt_or_le a d) [
  | inl h ↦ memcpy_out dst d src s n a (inl h) ∙ sym (memcpy_out dst d src' s' n a (inl h))
  | inr low ↦ elim (lt_or_le a (d + n)) [
    | inl h ↦
        memcpy_at dst d src s n a low h
        ∙ same (a - d) (omega arith)
        ∙ sym (memcpy_at dst d src' s' n a low h)
    | inr h ↦ memcpy_out dst d src s n a (inr h) ∙ sym (memcpy_out dst d src' s' n a (inr h))
  ]
])

module _ (nested : Nested) (src : Mem) (base : ℕ) (e : Info) (sub next : Elems) (f : IsField e)
    (st : DecodeVars) (small : st.decoded_bytes < 2 ^ 31) where
  -- The variables after a field.
  abbrev field_read : DecodeVars
  field_read = record st {
    buf_src = st.buf_src + size e;
    decoded_bytes = st.decoded_bytes + size e;
    data_len_value = count e;
    out = memcpy st.out (base + e.offset) src st.buf_src (size e);
  }

  one_flag : decode_flag nested 1 src base (elem e sub next) st ≡ (elem e sub next, st)
  unfolding decode_flag
  one_flag = no_flag e.data_type _ _ f.basic

  one_length : decode_data_len nested 1 src base (elem e sub next) st ≡ (elem e sub next, st)
  unfolding decode_data_len
  one_length = no_length e.data_type _ _ f.basic

  one_elem :
      decode_elem nested 1 src base e sub next (record st { data_len_value = count e })
      ≡ go next field_read
  unfolding decode_elem
  one_elem =
      let short = f.short in
      let wraps : (st.decoded_bytes + size e) % u32_mod ≡ st.decoded_bytes + size e = omega arith in
      basic_only e.data_type _ _ _ _ _ _ f.basic
      ∙ rw
          (
            decode_basic_elem_lem st.out (base + e.offset) src st.buf_src (count e) e.elem_size
                (omega arith),
            wraps,
          )
          refl

  one_sized : decode_sized nested 1 src base (elem e sub next) st ≡ go next field_read
  unfolding decode_sized
  one_sized = rw (decode_sized, decode_len_field e st.data_len_value f.fixed) one_elem

  one_field : decode_one nested 1 src base (elem e sub next) st ≡ go next field_read
  unfolding decode_one
  one_field = rw (one_flag, one_length) one_sized

-- The variables of `qmi_decode` between the rounds.
abbrev pub reading : ℕ → ℕ → ℕ → ℕ → Mem → DecodeVars
reading s decoded t v out = record {
  buf_src = s;
  decoded_bytes = decoded;
  tlv_len = t;
  data_len_value = v;
  out = out;
}

module _ (nested : Nested) (src cs : Mem) (base cbase : ℕ) (ei : Elems) (e : Info)
    (sub next : Elems) (f : IsField e) (found : find_ei ei e.tlv_type ≡ some (elem e sub next))
    (s decoded t v : ℕ) (out : Mem) (laid : IsTlv cs cbase src s e) where
  opened_field :
      decoded + 3 < 2 ^ 31
      → open_tlv src ei (elem e sub next) (reading s decoded t v out) (decode_one nested 1 src base)
        ≡ go next (
            reading
              (s + 3 + size e)
              (decoded + 3 + size e)
              (size e)
              (count e)
              (memcpy out (base + e.offset) cs (cbase + e.offset) (size e)))
  unfolding open_tlv
  opened_field low =
      let wraps : (decoded + 3) % u32_mod ≡ decoded + 3 = omega arith in
      rw (open_tlv, laid.type_at, found, wraps, laid.len_at)
        (one_field nested src base e sub next f (reading (s + 3) (decoded + 3) (size e) v out) low
          ∙ rw
              (memcpy_same out (base + e.offset) src cs (s + 3) (cbase + e.offset) (size e)
                laid.value_at)
              refl)

  round_field :
      (loop : Elems → DecodeVars → Outcome) (in_buf_len : ℕ)
      → decoded + 3 < 2 ^ 31
      → decoded < in_buf_len
      → decode_round nested loop 1 in_buf_len src base ei
          (elem e sub next)
          (reading s decoded t v out)
        ≡ loop next (
            reading
              (s + 3 + size e)
              (decoded + 3 + size e)
              (size e)
              (count e)
              (memcpy out (base + e.offset) cs (cbase + e.offset) (size e)))
  unfolding decode_round
  round_field loop in_buf_len low more =
      let b : ltb decoded in_buf_len ≡ true = ground arith in rw (opened_field low, b) refl

-- The loop, from the first field of the encoding that is left.
loop_lem :
    (fuel : ℕ) (src cs : Mem) (base cbase in_buf_len : ℕ) (ei : Elems)
    → in_buf_len < 2 ^ 31
    → (at : Elems) (s decoded t v : ℕ) (out : Mem) → IsFlat at
    → IsFound ei at
    → rank at ≤ fuel
    → IsLaid cs cbase src s at
    → decoded + wire_len at ≡ in_buf_len
    → decode_loop fuel src 1 in_buf_len base ei at (reading s decoded t v out)
      ≡ done in_buf_len (fields cs cbase base at out)
unfolding decode_loop decode_round
loop_lem fuel src cs base cbase in_buf_len ei small stop s decoded t v out flat found low laid
      fits =
    absurd flat
loop_lem zero src cs base cbase in_buf_len ei small (elem e sub next) s decoded t v out flat found
      low laid fits =
    absurd (omega arith)
loop_lem (suc fuel) src cs base cbase in_buf_len ei small (elem e sub next) s decoded t v out
      (inl (k, last)) found low laid fits =
    at_end (rw k at fits)
  where
    at_end :
        decoded + 0 ≡ in_buf_len
        → decode_loop
            (suc fuel)
            src
            1
            in_buf_len
            base
            ei
            (elem e sub next)
            (reading s decoded t v out)
          ≡ done in_buf_len (fields cs cbase base (elem e sub next) out)
    at_end all =
        let b : ltb decoded in_buf_len ≡ false = ground arith in
        let same : decoded ≡ in_buf_len = omega arith in
        rw (k, decode_loop, decode_round, b, same) refl
loop_lem (suc fuel) src cs base cbase in_buf_len ei small (elem e sub next) s decoded t v out
      (inr (f, lacks, flat)) (here, found) low (tlv, laid) fits =
    let ne = basic-NotEoti e.data_type f.basic in
    let all : decoded + (3 + size e + wire_len next) ≡ in_buf_len =
      rw (sym (wire_len_field e sub next f.basic)) fits in
    round_field _ src cs base cbase ei e sub next f (here ne) s decoded t v out (tlv ne)
      (decode_loop fuel src 1 in_buf_len base ei) in_buf_len (omega arith) (omega arith)
    ∙ loop_lem fuel src cs base cbase in_buf_len ei small next (s + 3 + size e)
        (decoded + 3 + size e) (size e) (count e)
        (memcpy out (base + e.offset) cs (cbase + e.offset) (size e)) flat found (omega arith)
        (laid ne) (omega arith)
    ∙ rw (fields_field cs cbase base e sub next out f.basic) refl

pub decode_laid :
    (fuel : ℕ) (src cs : Mem) (ei : Elems) (out_c_struct in_buf cbase : ℕ) (out : Mem)
    → IsFlat ei
    → rank ei ≤ fuel
    → wire_len ei < 2 ^ 31
    → IsLaid cs cbase src in_buf ei
    → qmi_decode fuel src ei out_c_struct in_buf (wire_len ei) 1 out
      ≡ done (wire_len ei) (fields cs cbase out_c_struct ei out)
unfolding qmi_decode
decode_laid fuel src cs ei out_c_struct in_buf cbase out flat low small laid =
    loop_lem fuel src cs out_c_struct cbase (wire_len ei) ei small ei in_buf 0 0 0 out flat
      (flat-IsFound ei flat) low laid (omega arith)
