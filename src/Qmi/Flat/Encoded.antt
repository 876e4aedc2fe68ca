-- ===== src/Qmi/Flat/Encoded.antt =====
-- `qmi_encode` of lib/qmi.c on a table of fields.
use qrtr.Base.{
  ℕ, zero, suc, ◌+◌, ◌-◌, ◌*◌, ◌%◌, ◌^◌, ◌≤◌, ◌<◌, ◌≡◌, ◌≢◌, ◌⊎◌, refl, sym, ◌∙◌, inl, inr, false,
  some, ltb, arith, u32_mod,
}
use qrtr.Qmi.{
  ElemType, eoti, opt_flag, data_len, struct, string, ArrayType, no_array, static_array,
  var_len_array, Mem, memcpy, Info, Elems, stop, elem, Outcome, done,
}
use qrtr.Qmi.Memory.{memcpy_at, memcpy_out, encode_basic_elem_lem}
use qrtr.Qmi.Tables.{rank}
use qrtr.Qmi.Bounds.{Agrees}
use qrtr.Qmi.Encode.{
  EncodeVars, go, Nested, update_encode, encode_len, encode_basic, encode_elem, tlv_header,
  close_tlv, encode_round, encode_call, encode_loop,
}
use qrtr.Qmi.Message.{qmi_encode}
use qrtr.Qmi.Flat.{IsBasic, count, size, IsField, IsFlat, wire_len, IsTlv, IsLaid, wire_len_field}

-- The variables of `qmi_encode` between the rounds.
abbrev pub between : ℕ → ℕ → ℕ → Mem → EncodeVars
between p encoded v out = record {
  buf_dst = p + 3;
  tlv_pointer = p;
  tlv_len = 0;
  encoded_bytes = encoded;
  data_len_value = v;
  encode_tlv = false;
  out = out;
}

pub encode_len_field :
    (e : Info) (v : ℕ) → e.array_type ≢ var_len_array → encode_len e v ≡ some (count e)
unfolding encode_len
encode_len_field e v h = by_array e.array_type refl
  where
    by_array : (a : ArrayType) → e.array_type ≡ a → encode_len e v ≡ some (count e)
    by_array no_array k = rw (k, encode_len) refl
    by_array static_array k = rw (k, encode_len) refl
    by_array var_len_array k = absurd (h k)

-- The memory after the round of one field.
abbrev pub tlv_written : Mem → ℕ → Info → ℕ → Mem → Mem
tlv_written src base e p out =
    memcpy (memcpy out (p + 3) src (base + e.offset) (size e)) p (tlv_header e.tlv_type (size e)) 0
      3

module _ (nested : Nested) (len : ℕ) (small : len < 2 ^ 31) (src : Mem) (base : ℕ) (e : Info)
    (sub next : Elems) (f : IsField e) (p encoded : ℕ) (out : Mem)
    (fits : encoded + size e + 3 ≤ len) where
  basic_step :
      encode_basic nested 1 len src base e sub next (between p encoded (count e) out)
      ≡ go next (
          update_encode
            (between p encoded (count e) (memcpy out (p + 3) src (base + e.offset) (size e)))
            (size e))
  unfolding encode_basic
  basic_step =
      let short = f.short in
      let b : ltb len ((count e * e.elem_size + encoded) % u32_mod + 3) ≡ false = ground arith in
      rw
        (
          encode_basic_elem_lem out (p + 3) src (base + e.offset) (count e) e.elem_size
              (omega arith),
          b,
        )
        refl

  elem_step :
      (k : ElemType)
      → e.data_type ≡ k
      → IsBasic k
      → encode_elem nested 1 len src base e sub next (between p encoded (count e) out)
        ≡ go next (
            update_encode
              (between p encoded (count e) (memcpy out (p + 3) src (base + e.offset) (size e)))
              (size e))
  unfolding encode_elem
  elem_step eoti k h = absurd h
  elem_step opt_flag k h = absurd h
  elem_step data_len k h = absurd h
  elem_step struct k h = absurd h
  elem_step string k h = absurd h
  elem_step _ k h = rw (k, encode_elem) basic_step

  close_step :
      close_tlv 1 e.tlv_type (
        update_encode
          (between p encoded (count e) (memcpy out (p + 3) src (base + e.offset) (size e)))
          (size e))
      ≡ between (p + 3 + size e) (encoded + size e + 3) (count e) (tlv_written src base e p out)
  unfolding close_tlv
  close_step =
      let short = f.short in
      let wraps : ((encoded + size e) % u32_mod + 3) % u32_mod ≡ encoded + size e + 3 =
        omega arith in
      let own : (0 + size e) % u32_mod ≡ size e = omega arith in rw (wraps, own) refl

  module _ (loop : Elems → EncodeVars → Outcome) (v : ℕ) where
    pub round_field :
        encode_round nested loop 1 len src base (elem e sub next) (between p encoded v out)
        ≡ loop next (
            between
              (p + 3 + size e)
              (encoded + size e + 3)
              (count e)
              (tlv_written src base e p out))
    unfolding encode_round
    round_field = by_type e.data_type refl f.basic
      where
        by_type :
            (k : ElemType)
            → e.data_type ≡ k
            → IsBasic k
            → encode_round nested loop 1 len src base (elem e sub next) (between p encoded v out)
              ≡ loop next (
                  between
                    (p + 3 + size e)
                    (encoded + size e + 3)
                    (count e)
                    (tlv_written src base e p out))
        by_type eoti k h = absurd h
        by_type opt_flag k h = absurd h
        by_type data_len k h = absurd h
        by_type struct k h = absurd h
        by_type string k h = absurd h
        by_type _ k h =
            rw
              (
                k,
                encode_round,
                encode_len_field e v f.fixed,
                elem_step e.data_type refl f.basic,
                close_step,
              )
              refl

-- The TLV of a field.
tlv_written-IsTlv :
    (src : Mem) (base : ℕ) (e : Info) (p : ℕ) (out : Mem)
    → IsField e
    → IsTlv src base (tlv_written src base e p out) p e
tlv_written-IsTlv src base e p out f =
    let typed = f.typed in
    let short = f.short in
    let value = memcpy out (p + 3) src (base + e.offset) (size e) in
    let head = tlv_header e.tlv_type (size e) in
    let first : 0 + (p - p) ≡ 0 = omega arith in
    let second : 0 + (p + 1 - p) ≡ 1 = omega arith in
    let third : 0 + (p + 2 - p) ≡ 2 = omega arith in
    record {
      type_at = rw (memcpy_at value p head 0 3 p (omega arith) (omega arith), first) (omega arith);
      len_at =
          rw
            (
              memcpy_at value p head 0 3 (p + 1) (omega arith) (omega arith),
              memcpy_at value p head 0 3 (p + 2) (omega arith) (omega arith),
              second,
              third,
            )
            (omega arith);
      value_at = λ j h.
          let away : p + 3 + j - (p + 3) ≡ j = omega arith in
          memcpy_out value p head 0 3 (p + 3 + j) (inr (omega arith))
          ∙ memcpy_at out (p + 3) src (base + e.offset) (size e) (p + 3 + j) (omega arith)
              (omega arith)
          ∙ rw away refl;
    }

-- A TLV stays where nothing is written.
IsTlv-keep :
    (src : Mem) (base : ℕ) (m m' : Mem) (p : ℕ) (e : Info) (high : ℕ)
    → Agrees m m' (p + 3 + size e) high
    → IsTlv src base m p e
    → IsTlv src base m' p e
IsTlv-keep src base m m' p e high same t = record {
  type_at = rw (same p (inl (omega arith))) t.type_at;
  len_at = rw (same (p + 1) (inl (omega arith)), same (p + 2) (inl (omega arith))) t.len_at;
  value_at = λ j h. same (p + 3 + j) (inl (omega arith)) ∙ t.value_at j h;
}

tlv_written-Agrees :
    (src : Mem) (base : ℕ) (e : Info) (p : ℕ) (out : Mem) (a : ℕ)
    → (a < p) ⊎ (p + 3 + size e ≤ a)
    → tlv_written src base e p out a ≡ out a
tlv_written-Agrees src base e p out a (inl o) =
    memcpy_out _ p (tlv_header e.tlv_type (size e)) 0 3 a (inl o)
    ∙ memcpy_out out (p + 3) src (base + e.offset) (size e) a (inl (omega arith))
tlv_written-Agrees src base e p out a (inr o) =
    memcpy_out _ p (tlv_header e.tlv_type (size e)) 0 3 a (inr (omega arith))
    ∙ memcpy_out out (p + 3) src (base + e.offset) (size e) a (inr (omega arith))

-- How the loop ends: the encoding stands from p on, and nothing else was written.
abbrev pub Laid : Mem → ℕ → ℕ → Elems → ℕ → Mem → Outcome → Type 0
Laid src base p at encoded out o =
    (m : Mem) × (o ≡ done (encoded + wire_len at) m)
    × IsLaid src base m p at
    × Agrees out m p (p + wire_len at)

field-Laid :
    (src : Mem) (base p : ℕ) (e : Info) (sub next : Elems) (encoded : ℕ) (out : Mem) (o : Outcome)
    → IsField e
    → Laid src base (p + 3 + size e) next (encoded + size e + 3) (tlv_written src base e p out) o
    → Laid src base p (elem e sub next) encoded out o
field-Laid src base p e sub next encoded out o f (m, ends, laid, same) =
    let w = wire_len_field e sub next f.basic in
    let total : encoded + size e + 3 + wire_len next ≡ encoded + (3 + size e + wire_len next) =
      omega arith in
    (
      m,
      ends ∙ rw (w, total) refl,
      (
        λ ne.
            IsTlv-keep src base (tlv_written src base e p out) m p e
              (p + 3 + size e + wire_len next) same (tlv_written-IsTlv src base e p out f),
        λ ne. laid,
      ),
      rw w (outside m same),
    )
  where
    outside :
        (m : Mem)
        → Agrees (tlv_written src base e p out) m (p + 3 + size e) (p + 3 + size e + wire_len next)
        → Agrees out m p (p + (3 + size e + wire_len next))
    outside m same a (inl h) =
        same a (inl (omega arith)) ∙ tlv_written-Agrees src base e p out a (inl h)
    outside m same a (inr h) =
        same a (inr (omega arith)) ∙ tlv_written-Agrees src base e p out a (inr (omega arith))

loop-Laid :
    (fuel : ℕ) (src : Mem) (len base : ℕ)
    → len < 2 ^ 31
    → (at : Elems) (p encoded v : ℕ) (out : Mem) → IsFlat at
    → rank at ≤ fuel
    → encoded + wire_len at ≤ len
    → Laid src base p at encoded out (encode_loop fuel src 1 len base at (between p encoded v out))
unfolding encode_loop encode_round
loop-Laid zero src len base small stop p encoded v out h low fits = absurd h
loop-Laid zero src len base small (elem e sub next) p encoded v out h low fits =
    absurd (omega arith)
loop-Laid (suc fuel) src len base small stop p encoded v out h low fits = absurd h
loop-Laid (suc fuel) src len base small (elem e sub next) p encoded v out (inl (k, last)) low fits =
    let nothing : encoded + 0 ≡ encoded = omega arith in
    (
      out,
      rw (k, encode_round, nothing) refl,
      (λ ne. absurd (ne k), λ ne. absurd (ne k)),
      λ a o. refl,
    )
loop-Laid (suc fuel) src len base small (elem e sub next) p encoded v out (inr (f, lacks, flat)) low
      fits =
    let w = wire_len_field e sub next f.basic in
    let room : encoded + (3 + size e + wire_len next) ≤ len = rw (sym w) fits in
    let round =
      round_field (encode_call (encode_loop fuel src)) len small src base e sub next f p encoded out
        (omega arith) (encode_loop fuel src 1 len base) v in
    rw round (
      field-Laid src base p e sub next encoded out _ f (
        loop-Laid fuel src len base small next (p + 3 + size e) (encoded + size e + 3) (count e)
          (tlv_written src base e p out) flat (omega arith) (omega arith)))

-- The whole encoding of a table of fields.
pub encode-Laid :
    (fuel : ℕ) (src : Mem) (ei : Elems) (out_buf in_c_struct out_buf_len : ℕ) (out : Mem)
    → IsFlat ei
    → rank ei ≤ fuel
    → wire_len ei ≤ out_buf_len
    → out_buf_len < 2 ^ 31
    → Laid src in_c_struct out_buf ei 0 out
        (qmi_encode fuel src ei out_buf in_c_struct out_buf_len 1 out)
unfolding qmi_encode encode_call
encode-Laid fuel src stop out_buf in_c_struct out_buf_len out flat low fits small = absurd flat
encode-Laid fuel src (elem e sub next) out_buf in_c_struct out_buf_len out flat low fits small =
    loop-Laid fuel src out_buf_len in_c_struct small (elem e sub next) out_buf 0 0 out flat low
      (omega arith)
