-- ===== src/Qmi/Bounds/Message.antt =====
-- `qmi_encode` and `qmi_encode_message` of lib/qmi.c write only into the buffer that they are given.
use qrtr.Base.{
  ℕ, zero, suc, ◌+◌, ◌-◌, ◌%◌, ◌^◌, ◌≤◌, ◌<◌, ◌≡◌, refl, inl, inr, Bool, true, false, some, ltb,
  ◌==◌, arith, u32_mod, Bool-cases,
}
use qrtr.Qmi.{Mem, Info, Elems, stop, elem, Outcome, done, failed, past_table, out_of_fuel}
use qrtr.Qmi.Encode.{EncodeVars, encode_start, encode_call, encode_loop}
use qrtr.Qmi.Message.{
  MsgPacket, header_size, header_bytes, qmi_encode, qmi_encode_message, finish_message,
  after_encode,
}
use qrtr.Qmi.Bounds.{Agrees, WritesWithin, IsTable, Room, Agrees-memcpy, Agrees-inner}
use qrtr.Qmi.Bounds.Loop.{round-Within}
use qrtr.Qmi.Tables.{IsEnded, rank, Ends}
use qrtr.Qmi.Finish.{any-Ends}

start-Room :
    (flat : Bool) (level dst len : ℕ) (out : Mem)
    → (level == 1) ≡ flat
    → Room flat dst len out (encode_start level dst out)
start-Room true level dst len out l = record {
  placed = rw l (omega arith);
  fits = omega arith;
  after = omega arith;
  before = omega arith;
  closing = λ e. absurd (cc e);
  agrees = λ a o. refl;
}
start-Room false level dst len out l = record {
  placed = rw l (omega arith);
  fits = omega arith;
  after = omega arith;
  before = omega arith;
  closing = λ e. absurd (cc e);
  agrees = λ a o. refl;
}

-- A call, given its loop.
call-Within-of :
    (loop : ℕ → ℕ → ℕ → Elems → EncodeVars → Outcome) (level len dst base : ℕ) (m : Mem)
    (flat : Bool) (at : Elems)
    → ((e : Info) (sub next : Elems)
        → IsTable flat (elem e sub next)
        → WritesWithin m dst len (loop level len base (elem e sub next) (encode_start level dst m)))
    → IsTable flat at
    → WritesWithin m dst len (encode_call loop level len dst base at m)
unfolding encode_call
call-Within-of loop level len dst base m flat stop h t = (omega arith, λ a o. refl)
call-Within-of loop level len dst base m flat (elem e sub next) h t = h e sub next t

loop-Within :
    (fuel : ℕ) (src : Mem) (flat : Bool) (level len dst base : ℕ) (out : Mem)
    → len < 2 ^ 31
    → (level == 1) ≡ flat
    → 1 ≤ level
    → (at : Elems) (st : EncodeVars) → IsTable flat at
    → Room flat dst len out st
    → WritesWithin out dst len (encode_loop fuel src level len base at st)
unfolding encode_loop
loop-Within zero src flat level len dst base out small l one at st t r = tt
loop-Within (suc fuel) src flat level len dst base out small l one at st t r =
    round-Within dst len out small flat level l one src base (encode_call (encode_loop fuel src))
      (λ level' len' dst' s sub m l' one' t' small'.
        call-Within-of (encode_loop fuel src) level' len' dst' s m false sub
          (λ e inner next t.
            loop-Within fuel src false level' len' dst' s m small' l' one' (elem e inner next)
              (encode_start level' dst' m) t (start-Room false level' dst' len' m l'))
          t')
      (encode_loop fuel src level len base)
      (λ at st t r. loop-Within fuel src flat level len dst base out small l one at st t r) at st t
      r

call-WritesWithin :
    (fuel : ℕ) (src : Mem) (flat : Bool) (ei : Elems) (out_buf in_c_struct out_buf_len level : ℕ)
    (out : Mem)
    → out_buf_len < 2 ^ 31
    → (level == 1) ≡ flat
    → 1 ≤ level
    → IsTable flat ei
    → WritesWithin out out_buf out_buf_len
        (qmi_encode fuel src ei out_buf in_c_struct out_buf_len level out)
unfolding qmi_encode
call-WritesWithin fuel src flat ei out_buf in_c_struct out_buf_len level out small l one t =
    call-Within-of (encode_loop fuel src) level out_buf_len out_buf in_c_struct out flat ei
      (λ e sub next t.
        loop-Within fuel src flat level out_buf_len out_buf in_c_struct out small l one
          (elem e sub next) (encode_start level out_buf out) t
          (start-Room flat level out_buf out_buf_len out l))
      t

-- At any level, for a space below 2 ^ 31 bytes and a table whose element sizes are below 2 ^ 31,
-- with strings of characters, lengths of at most four bytes and no structures in a first level,
-- which has an end element, where a length is followed by an element, each structure has a table
-- that ends too and in a first level the end element has another TLV type than the element before
-- it: qmi_encode with fuel for the elements writes only into the space that it is given and returns
-- an error or no more bytes than that, and never goes past the end of a table.
pub encode-WritesWithin :
    (fuel : ℕ) (src : Mem) (flat : Bool) (ei : Elems) (out_buf in_c_struct out_buf_len level : ℕ)
    (t : ℕ) (out : Mem)
    → out_buf_len < 2 ^ 31
    → (level == 1) ≡ flat
    → 1 ≤ level
    → IsTable flat ei
    → IsEnded flat t ei
    → rank ei ≤ fuel
    → WritesWithin out out_buf out_buf_len
        (qmi_encode fuel src ei out_buf in_c_struct out_buf_len level out)
      × Ends (qmi_encode fuel src ei out_buf in_c_struct out_buf_len level out)
encode-WritesWithin fuel src flat ei out_buf in_c_struct out_buf_len level t out small l one safe h
      low =
    (
      call-WritesWithin fuel src flat ei out_buf in_c_struct out_buf_len level out small l one safe,
      any-Ends fuel src flat ei out_buf in_c_struct out_buf_len level t out l one h low,
    )

-- The packet that is returned, and the outcome: no byte outside of the packet's buffer is written, and
-- a message is as long as the packet then says, no longer than the buffer.
abbrev pub FitsPacket : Mem → MsgPacket → MsgPacket × Outcome → Type 0
FitsPacket out pkt (pkt', done n m) =
    (pkt'.data_len ≡ n)
    × (n ≤ pkt.data_len)
    × (pkt'.content ≡ pkt.content)
    × Agrees out m pkt.content (pkt.content + pkt.data_len)
FitsPacket out pkt (pkt', failed errno m) =
    (pkt' ≡ pkt) × Agrees out m pkt.content (pkt.content + pkt.data_len)
FitsPacket out pkt (pkt', past_table) = ⊥
FitsPacket out pkt (pkt', out_of_fuel) = ⊥

finish-FitsPacket :
    (pkt : MsgPacket) (type msg_id txn_id n : ℕ) (out m : Mem)
    → header_size + n ≤ pkt.data_len
    → Agrees out m pkt.content (pkt.content + pkt.data_len)
    → FitsPacket out pkt (finish_message pkt type msg_id txn_id n m)
unfolding finish_message
finish-FitsPacket pkt type msg_id txn_id n out m fits same = (
  refl,
  fits,
  refl,
  Agrees-memcpy out m pkt.content (pkt.content + pkt.data_len) pkt.content
      (header_bytes type txn_id msg_id n) 0 header_size same (omega arith) (omega arith),
)

after-FitsPacket :
    (pkt : MsgPacket) (type msg_id txn_id room : ℕ) (out : Mem) (o : Outcome)
    → header_size + room ≤ pkt.data_len
    → WritesWithin out (pkt.content + header_size) room o
    → Ends o
    → FitsPacket out pkt (after_encode pkt type msg_id txn_id o)
unfolding after_encode
after-FitsPacket pkt type msg_id txn_id room out (done n m) fits (le, same) ends =
    finish-FitsPacket pkt type msg_id txn_id n out m (omega arith) (
      Agrees-inner out out m pkt.content (pkt.content + pkt.data_len) (pkt.content + header_size)
        (pkt.content + header_size + room) (λ a o. refl) same (omega arith) (omega arith))
after-FitsPacket pkt type msg_id txn_id room out (failed errno m) fits same ends = (
  refl,
  Agrees-inner out out m pkt.content (pkt.content + pkt.data_len) (pkt.content + header_size)
      (pkt.content + header_size + room) (λ a o. refl) same (omega arith) (omega arith),
)
after-FitsPacket pkt type msg_id txn_id room out past_table fits w ends = ends
after-FitsPacket pkt type msg_id txn_id room out out_of_fuel fits w ends = ends

-- For a table whose element sizes are below 2 ^ 31, with strings of characters, lengths of at most
-- four bytes and no structures in its first level, which has an end element of another TLV type than
-- the element before it, where a length is followed by an element and each structure has a table
-- that ends too, and a packet with a buffer below 2 ^ 31 bytes: qmi_encode_message of a structure
-- with fuel for the elements writes only into that buffer and returns a message or an error; a
-- message is as long as the packet then says and no longer than the buffer, and after an error the
-- packet is as before.
pub encode_message-FitsPacket :
    (fuel : ℕ) (src : Mem) (pkt : MsgPacket) (type msg_id txn_id c_struct t : ℕ) (ei : Elems)
    (out : Mem)
    → pkt.data_len < 2 ^ 31
    → IsTable true ei
    → IsEnded true t ei
    → rank ei ≤ fuel
    → FitsPacket out pkt (qmi_encode_message fuel src pkt type msg_id txn_id (some c_struct) ei out)
unfolding qmi_encode_message
encode_message-FitsPacket fuel src pkt type msg_id txn_id c_struct t ei out small safe h low =
    elim (Bool-cases (ltb pkt.data_len header_size)) [
      | inl b ↦ rw b (refl, λ a o. refl)
      | inr b ↦
          let room = (pkt.data_len - header_size) % u32_mod in
          let enough : header_size ≤ pkt.data_len = ground (arith, b) in
          let (within, ends) =
            encode-WritesWithin fuel src true ei (pkt.content + header_size) c_struct room 1 t out
              (omega arith) refl (omega arith) safe h low in
          rw b (
            after-FitsPacket pkt type msg_id txn_id room out
              (qmi_encode fuel src ei (pkt.content + header_size) c_struct room 1 out) (omega arith)
              within ends)
    ]
