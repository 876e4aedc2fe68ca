-- ===== src/Qmi/Flat/RoundTrip.antt =====
-- Round trips of lib/qmi.c: a message that is encoded and then decoded.
use qrtr.Base.{
  ℕ, ◌+◌, ◌-◌, ◌%◌, ◌^◌, ◌≤◌, ◌<◌, ◌≡◌, ◌≢◌, refl, sym, ap, ◌∙◌, inr, Bool, true, false, none, some,
  if◌then◌else◌, ltb, ◌==◌, arith, u32_mod,
}
use qrtr.Packet.{type_data}
use qrtr.Qmi.{
  Mem, memcpy, bytes_of, read_le, Elems, stop, elem, Outcome, done, failed, past_table, out_of_fuel,
}
use qrtr.Qmi.Memory.{memcpy_at, memcpy_out}
use qrtr.Qmi.Tables.{rank}
use qrtr.Qmi.Message.{
  MsgPacket, header_size, header_bytes, header_type, header_txn_id, header_msg_id, header_msg_len,
  finish_message, after_encode, body_len, qmi_encode, qmi_decode, qmi_encode_message,
  qmi_decode_header, qmi_decode_message,
}
use qrtr.Qmi.Flat.{size, IsFlat, wire_len, IsLaid, fields}
use qrtr.Qmi.Flat.Encoded.{encode-Laid}
use qrtr.Qmi.Flat.Decoded.{decode_laid}

-- What an encoding decodes to, when it is read from its place and nothing is missing.
abbrev pub DecodesTo : ℕ → Elems → ℕ → ℕ → Mem → Mem → Outcome → Type 0
DecodesTo fuel ei buf c_struct before after (done n m) =
    qmi_decode fuel m ei c_struct buf n 1 before ≡ done n after
DecodesTo fuel ei buf c_struct before after (failed errno m) = ⊥
DecodesTo fuel ei buf c_struct before after past_table = ⊥
DecodesTo fuel ei buf c_struct before after out_of_fuel = ⊥

-- For a table of fields of basic types and fixed lengths with TLV types of their own, a space that
-- holds their encoding and is below 2 ^ 31 bytes, and fuel for the elements, qmi_encode succeeds,
-- and qmi_decode of the bytes that it wrote reads them all and copies each field of the encoded
-- structure, and nothing else, to its place.
pub decode-encode :
    (fuel : ℕ) (src : Mem) (ei : Elems) (buf in_c_struct out_c_struct len : ℕ) (out before : Mem)
    → IsFlat ei
    → rank ei ≤ fuel
    → wire_len ei ≤ len
    → len < 2 ^ 31
    → DecodesTo fuel ei buf out_c_struct before
        (fields src in_c_struct out_c_struct ei before)
        (qmi_encode fuel src ei buf in_c_struct len 1 out)
decode-encode fuel src ei buf in_c_struct out_c_struct len out before flat low fits small =
    let (m, ends, laid, same) =
      encode-Laid fuel src ei buf in_c_struct len out flat low fits small in
    let nothing : 0 + wire_len ei ≡ wire_len ei = omega arith in
    rw (ends, nothing)
      (decode_laid fuel m src ei out_c_struct buf in_c_struct before flat low (omega arith) laid)

-- The encoding stays where nothing is written.
IsLaid-keep :
    (src : Mem) (base : ℕ) (m m' : Mem) (p : ℕ) (at : Elems)
    → ((a : ℕ) → p ≤ a → m' a ≡ m a)
    → IsLaid src base m p at
    → IsLaid src base m' p at
IsLaid-keep src base m m' p stop same h = tt
IsLaid-keep src base m m' p (elem e sub next) same (tlv, laid) = (
  λ ne.
      let t = tlv ne in
      record {
        type_at = rw (same p (omega arith)) t.type_at;
        len_at = rw (same (p + 1) (omega arith), same (p + 2) (omega arith)) t.len_at;
        value_at = λ j h. same (p + 3 + j) (omega arith) ∙ t.value_at j h;
      },
  λ ne. IsLaid-keep src base m m' (p + 3 + size e) next (λ a h. same a (omega arith)) (laid ne),
)

-- What a header says, read from memory.
pub record HasHeader (m : Mem) (p type txn_id msg_id msg_len : ℕ) : Type 0 where
  pub has_type : header_type m p ≡ type
  pub has_txn_id : header_txn_id m p ≡ txn_id
  pub has_msg_id : header_msg_id m p ≡ msg_id
  pub has_msg_len : header_msg_len m p ≡ msg_len

module _ (m : Mem) (p type txn_id msg_id msg_len : ℕ) where
  abbrev written : Mem
  written = memcpy m p (header_bytes type txn_id msg_id msg_len) 0 header_size

  written_at :
      (k : ℕ) → k < header_size → written (p + k) ≡ header_bytes type txn_id msg_id msg_len k
  written_at k h =
      let place : 0 + (p + k - p) ≡ k = omega arith in
      memcpy_at m p (header_bytes type txn_id msg_id msg_len) 0 header_size (p + k) (omega arith)
        (omega arith)
      ∙ ap (header_bytes type txn_id msg_id msg_len) place

  -- A number of two bytes.
  written_two :
      (k v : ℕ)
      → k + 1 < header_size
      → v < 2 ^ 16
      → header_bytes type txn_id msg_id msg_len k ≡ bytes_of v 0
      → header_bytes type txn_id msg_id msg_len (k + 1) ≡ bytes_of v 1
      → read_le written (p + k) 2 ≡ v
  unfolding read_le
  written_two k v h small low high =
      let place : p + k + 1 ≡ p + (k + 1) = omega arith in
      rw (place, written_at k (omega arith), written_at (k + 1) h, low, high) (omega arith)

  written-HasHeader :
      type < 256
      → txn_id < 2 ^ 16
      → msg_id < 2 ^ 16
      → msg_len < 2 ^ 16
      → HasHeader written p type txn_id msg_id msg_len
  written-HasHeader t x i l =
      let start : p + 0 ≡ p = omega arith in
      record {
        has_type =
            ap (λ a. written a % 256) (sym start) ∙ rw (written_at 0 (omega arith)) (omega arith);
        has_txn_id = written_two 1 txn_id (omega arith) x refl refl;
        has_msg_id = written_two 3 msg_id (omega arith) i refl refl;
        has_msg_len = written_two 5 msg_len (omega arith) l refl refl;
      }

-- The packet of an encoded message is read back: its message id, and the structure and the transaction
-- id, which is stored where there is a place for it.
abbrev pub ReadsBack : ℕ → ℕ → ℕ → ℕ → ℕ → Elems → Mem → Mem → MsgPacket × Outcome → Type 0
ReadsBack fuel type msg_id txn_id c_struct ei before after (pkt, done n m) =
    (qmi_decode_header m pkt ≡ some msg_id)
    × ((txn : Bool)
        → qmi_decode_message fuel m c_struct txn pkt type msg_id ei before
          ≡ (done (n - header_size) after, if txn then some txn_id else none))
ReadsBack fuel type msg_id txn_id c_struct ei before after (pkt, failed errno m) = ⊥
ReadsBack fuel type msg_id txn_id c_struct ei before after (pkt, past_table) = ⊥
ReadsBack fuel type msg_id txn_id c_struct ei before after (pkt, out_of_fuel) = ⊥

module _ (m : Mem) (pkt : MsgPacket) (type txn_id msg_id n : ℕ)
    (h : HasHeader m pkt.content type txn_id msg_id n) (long : pkt.data_len ≡ header_size + n)
    (small : n < 2 ^ 31) where
  body_len_lem : body_len pkt ≡ n
  body_len_lem = rw long (omega arith)

  header_read : qmi_decode_header m pkt ≡ some msg_id
  unfolding qmi_decode_header
  header_read =
      let b : (header_msg_len m pkt.content == body_len pkt) ≡ true =
        rw (h.has_msg_len, body_len_lem) (ground arith) in
      rw b (ap some h.has_msg_id)

  message_read :
      (fuel c_struct : ℕ) (ei : Elems) (before after : Mem)
      → IsFlat ei
      → c_struct ≢ 0
      → pkt.content ≢ 0
      → qmi_decode fuel m ei c_struct (pkt.content + header_size) n 1 before ≡ done n after
      → (txn : Bool)
      → qmi_decode_message fuel m c_struct txn pkt type msg_id ei before
        ≡ (done n after, if txn then some txn_id else none)
  unfolding qmi_decode_message
  message_read fuel c_struct stop before after flat c p run txn = absurd flat
  message_read fuel c_struct (elem e sub next) before after flat c p run txn =
      let b₀ : (c_struct == 0) ≡ false = ground arith in
      let b₁ : (pkt.content == 0) ≡ false = ground arith in
      let b₂ : (pkt.data_len == 0) ≡ false = ground arith in
      let b₃ : (header_type m pkt.content == type) ≡ true = rw h.has_type (ground arith) in
      let b₄ : (header_msg_id m pkt.content == msg_id) ≡ true = rw h.has_msg_id (ground arith) in
      let fits : n % u32_mod ≡ n = omega arith in
      rw (b₀, b₁, b₂, b₃, b₄, body_len_lem, fits, run, h.has_txn_id) refl

-- For a table of fields of basic types and fixed lengths with TLV types of their own, a packet
-- buffer that has an address and room for the header and the encoding and is below 2 ^ 31 bytes, an
-- encoding below 2 ^ 16 bytes, an 8-bit message type, 16-bit message and transaction ids, a
-- structure to write that has an address, and fuel for the elements, qmi_encode_message succeeds; in
-- the packet that it leaves qmi_decode_header finds the message id, and qmi_decode_message for this
-- type and id returns the length of the body, stores the transaction id if there is a place for it,
-- and copies each field of the encoded structure, and nothing else, to its place.
pub decode_message-encode_message :
    (fuel : ℕ) (src : Mem) (pkt : MsgPacket) (type msg_id txn_id in_c_struct out_c_struct : ℕ)
    (ei : Elems) (out before : Mem)
    → IsFlat ei
    → rank ei ≤ fuel
    → header_size + wire_len ei ≤ pkt.data_len
    → pkt.data_len < 2 ^ 31
    → wire_len ei < 2 ^ 16
    → type < 256
    → msg_id < 2 ^ 16
    → txn_id < 2 ^ 16
    → pkt.content ≢ 0
    → out_c_struct ≢ 0
    → ReadsBack fuel type msg_id txn_id out_c_struct ei before
        (fields src in_c_struct out_c_struct ei before)
        (qmi_encode_message fuel src pkt type msg_id txn_id (some in_c_struct) ei out)
unfolding qmi_encode_message after_encode finish_message
decode_message-encode_message fuel src pkt type msg_id txn_id in_c_struct out_c_struct ei out before
      flat low room small short t i x p c =
    let body = (pkt.data_len - header_size) % u32_mod in
    let (m, ends, laid, same) =
      encode-Laid fuel src ei (pkt.content + header_size) in_c_struct body out flat low
        (omega arith) (omega arith) in
    let n = wire_len ei in
    let b : ltb pkt.data_len header_size ≡ false = ground arith in
    let nothing : 0 + n ≡ n = omega arith in
    let back : header_size + n - header_size ≡ n = omega arith in
    let pkt' = record pkt { pkt_type = type_data; data_len = header_size + n } in
    let m' = written m pkt.content type txn_id msg_id n in
    let h = written-HasHeader m pkt.content type txn_id msg_id n t x i short in
    let kept =
      IsLaid-keep src in_c_struct m m' (pkt.content + header_size) ei
        (λ a above.
          memcpy_out m pkt.content (header_bytes type txn_id msg_id n) 0 header_size a (inr above))
        laid in
    let run =
      decode_laid fuel m' src ei out_c_struct (pkt.content + header_size) in_c_struct before flat
        low (omega arith) kept in
    rw (b, ends, nothing, back)
      (
        header_read m' pkt' type txn_id msg_id n h refl (omega arith),
        message_read m' pkt' type txn_id msg_id n h refl (omega arith) fuel out_c_struct ei before
            (fields src in_c_struct out_c_struct ei before) flat c p run,
      )
