-- ===== src/Qmi/Message.antt =====
-- The messages of lib/qmi.c: the minimum length of a table, the header, and the calls of a client.
use qrtr.Base.{
  ℕ, zero, suc, ◌+◌, ◌-◌, ◌*◌, ◌%◌, ◌^◌, Bool, not, ◌||◌, Option, none, some, ltb, ◌==◌,
  if◌then◌else◌, u32_mod,
}
use qrtr.Packet.{type_data}
use qrtr.Qmi.{
  Mem, memcpy, bytes_of, read_le, eoti, opt_flag, data_len, signed_2_byte_enum, struct, string,
  no_array, Info, Elems, stop, elem, Errno, einval, emsgsize, Outcome, done, failed, past_table,
  out_of_fuel, skip_to_next_elem, data_len_sz, string_len_sz,
}
use qrtr.Qmi.Encode.{encode_loop, encode_call}
use qrtr.Qmi.Decode.{decode_loop, decode_start}

-- How `qmi_calc_min_msg_len` ends.
pub data Calc : Type 0 where
  sum : ℕ → Calc
  no_table : Calc
  no_fuel : Calc

-- The loop of `qmi_calc_min_msg_len`, with `min_msg_len` so far.
unfoldable pub calc_loop : ℕ → ℕ → Elems → ℕ → Calc
calc_loop zero level at min_msg_len = no_fuel
calc_loop (suc fuel) level stop min_msg_len = no_table
calc_loop (suc fuel) level (elem e sub next) min_msg_len =
    let tlv = if level == 1 then 3 else 0 in
    let skipped = calc_loop fuel level (skip_to_next_elem (elem e sub next) level) min_msg_len in
    let counted = calc_loop fuel level next ((min_msg_len + data_len_sz e) % u32_mod) in
    let size = e.elem_len * e.elem_size in
    let basic = calc_loop fuel level next ((min_msg_len + size + tlv) % u32_mod) in
    let text =
      calc_loop fuel level next
        ((min_msg_len + (if ltb 1 level then string_len_sz e else 0) + size + tlv) % u32_mod) in
    let walked = calc_loop fuel (level + 1) sub 0 in
    let inner : Calc = elim sub [ stop ↦ sum 0 | elem _ _ _ ↦ walked ] in
    let nested : Calc = elim inner [
      | sum n ↦ calc_loop fuel level next ((min_msg_len + n + tlv) % u32_mod)
      | no_table ↦ no_table
      | no_fuel ↦ no_fuel
    ] in
    elim e.data_type [
      | eoti ↦ sum min_msg_len
      | opt_flag ↦ skipped
      | data_len ↦ counted
      | struct ↦ nested
      | string ↦ text
      | _ ↦ basic
    ]

unfoldable pub qmi_calc_min_msg_len : ℕ → Elems → ℕ → Calc
qmi_calc_min_msg_len fuel stop level = sum 0
qmi_calc_min_msg_len fuel (elem e sub next) level = calc_loop fuel level (elem e sub next) 0

unfoldable pub qmi_encode : ℕ → Mem → Elems → ℕ → ℕ → ℕ → ℕ → Mem → Outcome
qmi_encode fuel src ei out_buf in_c_struct out_buf_len level out =
    encode_call (encode_loop fuel src) level out_buf_len out_buf in_c_struct ei out

unfoldable pub qmi_decode : ℕ → Mem → Elems → ℕ → ℕ → ℕ → ℕ → Mem → Outcome
qmi_decode fuel src ei out_c_struct in_buf in_buf_len level out =
    decode_loop fuel src level in_buf_len out_c_struct ei ei (decode_start in_buf out)

-- `struct qrtr_packet`, as far as the messages use it; `content` is the address `data`.
pub record MsgPacket : Type 0 where
  pub pkt_type : ℕ
  pub content : ℕ
  pub data_len : ℕ

-- `struct qmi_header`, packed: 7 bytes.
abbrev pub header_size : ℕ
header_size = 7

abbrev pub header_bytes : ℕ → ℕ → ℕ → ℕ → Mem
header_bytes type txn_id msg_id msg_len a =
    if a == 0
    then type % 256
    else if ltb a 3
    then bytes_of txn_id (a - 1)
    else if ltb a 5
    then bytes_of msg_id (a - 3)
    else bytes_of msg_len (a - 5)

abbrev pub header_type : Mem → ℕ → ℕ
header_type m p = m p % 256

abbrev pub header_txn_id : Mem → ℕ → ℕ
header_txn_id m p = read_le m (p + 1) 2

abbrev pub header_msg_id : Mem → ℕ → ℕ
header_msg_id m p = read_le m (p + 3) 2

abbrev pub header_msg_len : Mem → ℕ → ℕ
header_msg_len m p = read_le m (p + 5) 2

-- The end of `qmi_encode_message`: the header is written, and the packet gets its type and length.
unfoldable pub finish_message : MsgPacket → ℕ → ℕ → ℕ → ℕ → Mem → MsgPacket × Outcome
finish_message pkt type msg_id txn_id msglen out = (
  record pkt { pkt_type = type_data; data_len = header_size + msglen },
  done (header_size + msglen)
      (memcpy out pkt.content (header_bytes type txn_id msg_id msglen) 0 header_size),
)

abbrev pub refuse : MsgPacket → Errno → Mem → MsgPacket × Outcome
refuse pkt errno out = (pkt, failed errno out)

-- What follows the call of `qmi_encode`.
unfoldable pub after_encode : MsgPacket → ℕ → ℕ → ℕ → Outcome → MsgPacket × Outcome
after_encode pkt type msg_id txn_id (done msglen out) =
    finish_message pkt type msg_id txn_id msglen out
after_encode pkt type msg_id txn_id (failed errno out) = refuse pkt errno out
after_encode pkt type msg_id txn_id past_table = (pkt, past_table)
after_encode pkt type msg_id txn_id out_of_fuel = (pkt, out_of_fuel)

-- `c_struct` is `none` for NULL, and `src` is the memory that it points into.
unfoldable pub qmi_encode_message :
    ℕ → Mem → MsgPacket → ℕ → ℕ → ℕ → Option ℕ → Elems → Mem → MsgPacket × Outcome
qmi_encode_message fuel src pkt type msg_id txn_id none ei out =
    let empty : MsgPacket × Outcome =
      if ltb pkt.data_len header_size
      then refuse pkt emsgsize out
      else finish_message pkt type msg_id txn_id 0 out in
    elim (qmi_calc_min_msg_len fuel ei 1) [
      | sum n ↦ if n == 0 then empty else refuse pkt einval out
      | no_table ↦ (pkt, past_table)
      | no_fuel ↦ (pkt, out_of_fuel)
    ]
qmi_encode_message fuel src pkt type msg_id txn_id (some c_struct) ei out =
    let encoded = after_encode pkt type msg_id txn_id (
      qmi_encode fuel src ei (pkt.content + header_size) c_struct
        ((pkt.data_len - header_size) % u32_mod) 1 out) in
    if ltb pkt.data_len header_size then refuse pkt emsgsize out else encoded

-- `pkt->data_len - sizeof(*hdr)`, of 64-bit words.
abbrev pub body_len : MsgPacket → ℕ
body_len pkt = (pkt.data_len + 2 ^ 64 - header_size) % 2 ^ 64

-- The message id, or `none` for -EINVAL.
unfoldable pub qmi_decode_header : Mem → MsgPacket → Option ℕ
qmi_decode_header m pkt =
    if header_msg_len m pkt.content == body_len pkt
    then some (header_msg_id m pkt.content)
    else none

-- The outcome, and the transaction id if it was stored. A pointer is an address and NULL is 0, but a
-- table of NULL is `stop`; `txn` says whether there is a place for the transaction id.
unfoldable pub qmi_decode_message :
    ℕ → Mem → ℕ → Bool → MsgPacket → ℕ → ℕ → Elems → Mem → Outcome × Option ℕ
qmi_decode_message fuel m c_struct txn pkt type id stop out = (failed einval out, none)
qmi_decode_message fuel m c_struct txn pkt type id (elem e sub next) out =
    let p = pkt.content in
    if (c_struct == 0) || (p == 0) || (pkt.data_len == 0)
    then (failed einval out, none)
    else if not (header_type m p == type)
    then (failed einval out, none)
    else if not (header_msg_id m p == id)
    then (failed einval out, none)
    else (
      qmi_decode fuel m (elem e sub next) c_struct (p + header_size) (body_len pkt % u32_mod) 1 out,
      (if txn then some (header_txn_id m p) else none),
    )

-- `qmi_response_type_v01_ei`; the offsets are those of two 16-bit fields.
abbrev pub response_elem : ℕ → Info
response_elem offset = record {
  data_type = signed_2_byte_enum;
  elem_len = 1;
  elem_size = 2;
  array_type = no_array;
  tlv_type = 0;
  offset = offset;
}

abbrev pub end_elem : Info
end_elem = record {
  data_type = eoti;
  elem_len = 0;
  elem_size = 0;
  array_type = no_array;
  tlv_type = 0;
  offset = 0;
}

abbrev pub qmi_response_type_v01_ei : Elems
qmi_response_type_v01_ei =
    elem (response_elem 0) stop (elem (response_elem 2) stop (elem end_elem stop stop))
