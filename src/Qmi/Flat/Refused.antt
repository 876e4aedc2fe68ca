-- ===== src/Qmi/Flat/Refused.antt =====
-- `qmi_encode` and `qmi_encode_message` of lib/qmi.c on a table of fields that does not fit.
use qrtr.Base.{
  ℕ, zero, suc, ◌+◌, ◌-◌, ◌*◌, ◌%◌, ◌^◌, ◌≤◌, ◌<◌, ◌≡◌, refl, sym, ◌∙◌, inl, inr, true, false, some,
  ltb, arith, u32_mod, lt_or_le,
}
use qrtr.Qmi.{
  ElemType, eoti, opt_flag, data_len, struct, string, Mem, Info, Elems, stop, elem, einval, Outcome,
  failed,
}
use qrtr.Qmi.Tables.{rank}
use qrtr.Qmi.Encode.{
  EncodeVars, exit, Nested, encode_basic, encode_elem, encode_round, encode_call, encode_loop,
}
use qrtr.Qmi.Message.{MsgPacket, header_size, qmi_encode, qmi_encode_message, after_encode}
use qrtr.Qmi.Flat.{IsBasic, count, size, IsField, IsFlat, wire_len, wire_len_field}
use qrtr.Qmi.Flat.Encoded.{between, encode_len_field, tlv_written, round_field}

module _ (nested : Nested) (len : ℕ) (src : Mem) (base : ℕ) (e : Info) (sub next : Elems)
    (f : IsField e) (p encoded : ℕ) (out : Mem) (small : encoded < 2 ^ 31)
    (full : len < encoded + size e + 3) where
  basic_full :
      encode_basic nested 1 len src base e sub next (between p encoded (count e) out)
      ≡ exit (failed einval out)
  unfolding encode_basic
  basic_full =
      let short = f.short in
      let b : ltb len ((count e * e.elem_size + encoded) % u32_mod + 3) ≡ true = ground arith in
      rw b refl

  elem_full :
      (k : ElemType)
      → e.data_type ≡ k
      → IsBasic k
      → encode_elem nested 1 len src base e sub next (between p encoded (count e) out)
        ≡ exit (failed einval out)
  unfolding encode_elem
  elem_full eoti k h = absurd h
  elem_full opt_flag k h = absurd h
  elem_full data_len k h = absurd h
  elem_full struct k h = absurd h
  elem_full string k h = absurd h
  elem_full _ k h = rw (k, encode_elem) basic_full

  round_full :
      (loop : Elems → EncodeVars → Outcome) (v : ℕ)
      → encode_round nested loop 1 len src base (elem e sub next) (between p encoded v out)
        ≡ failed einval out
  unfolding encode_round
  round_full loop v = by_type e.data_type refl f.basic
    where
      by_type :
          (k : ElemType)
          → e.data_type ≡ k
          → IsBasic k
          → encode_round nested loop 1 len src base (elem e sub next) (between p encoded v out)
            ≡ failed einval out
      by_type eoti k h = absurd h
      by_type opt_flag k h = absurd h
      by_type data_len k h = absurd h
      by_type struct k h = absurd h
      by_type string k h = absurd h
      by_type _ k h =
          rw (k, encode_round, encode_len_field e v f.fixed, elem_full e.data_type refl f.basic)
            refl

abbrev Refused : Outcome → Type 0
Refused o = (m : Mem) × (o ≡ failed einval m)

loop-Refused :
    (fuel : ℕ) (src : Mem) (len base : ℕ)
    → len < 2 ^ 31
    → (at : Elems) (p encoded v : ℕ) (out : Mem) → IsFlat at
    → rank at ≤ fuel
    → encoded ≤ len
    → len < encoded + wire_len at
    → Refused (encode_loop fuel src 1 len base at (between p encoded v out))
unfolding encode_loop
loop-Refused fuel src len base small stop p encoded v out h low le full = absurd h
loop-Refused zero src len base small (elem e sub next) p encoded v out h low le full =
    absurd (omega arith)
loop-Refused (suc fuel) src len base small (elem e sub next) p encoded v out (inl (k, last)) low le
      full =
    absurd (let none_left : len < encoded + 0 = rw k at full in omega arith)
loop-Refused (suc fuel) src len base small (elem e sub next) p encoded v out (inr (f, lacks, flat))
      low le full =
    let more : len < encoded + (3 + size e + wire_len next) =
      rw (sym (wire_len_field e sub next f.basic)) full in
    elim (lt_or_le len (encoded + size e + 3)) [
      | inl h ↦ (
        out,
        round_full (encode_call (encode_loop fuel src)) len src base e sub next f p encoded out
            (omega arith) h (encode_loop fuel src 1 len base) v,
      )
      | inr h ↦
          let round =
            round_field (encode_call (encode_loop fuel src)) len small src base e sub next f p
              encoded out (omega arith) (encode_loop fuel src 1 len base) v in
          let (m, ends) =
            loop-Refused fuel src len base small next (p + 3 + size e) (encoded + size e + 3)
              (count e) (tlv_written src base e p out) flat (omega arith) (omega arith)
              (omega arith) in
          (m, round ∙ ends)
    ]

-- An error, and the packet as it was.
abbrev pub RefusesMessage : MsgPacket → MsgPacket × Outcome → Type 0
RefusesMessage pkt (pkt', failed einval m) = pkt' ≡ pkt
RefusesMessage pkt (pkt', _) = ⊥

-- For a table of fields of basic types and fixed lengths with TLV types of their own, fuel for the
-- elements, and a packet buffer below 2 ^ 31 bytes that has room for the header but not for the
-- header and the encoding, qmi_encode_message returns -EINVAL and leaves the packet as it was.
pub encode_message-Refuses :
    (fuel : ℕ) (src : Mem) (pkt : MsgPacket) (type msg_id txn_id c_struct : ℕ) (ei : Elems)
    (out : Mem)
    → IsFlat ei
    → rank ei ≤ fuel
    → header_size ≤ pkt.data_len
    → pkt.data_len < header_size + wire_len ei
    → pkt.data_len < 2 ^ 31
    → RefusesMessage pkt (qmi_encode_message fuel src pkt type msg_id txn_id (some c_struct) ei out)
unfolding qmi_encode_message qmi_encode encode_call after_encode
encode_message-Refuses fuel src pkt type msg_id txn_id c_struct stop out flat low room full small =
    absurd flat
encode_message-Refuses fuel src pkt type msg_id txn_id c_struct (elem e sub next) out flat low room
      full small =
    let body = (pkt.data_len - header_size) % u32_mod in
    let b : ltb pkt.data_len header_size ≡ false = ground arith in
    let (m, ends) =
      loop-Refused fuel src body c_struct (omega arith) (elem e sub next)
        (pkt.content + header_size) 0 0 out flat low (omega arith) (omega arith) in
    rw (b, ends) refl
