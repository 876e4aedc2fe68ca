-- ===== src/Tests/Messages.antt =====
-- Messages of lib/qmi.c: the theorems at concrete tables and buffers.
use qrtr.Base.{ℕ, ◌+◌, ◌*◌, ◌%◌, refl, inl, inr, true, some, arith}
use qrtr.Qmi.{
  opt_flag, data_len, unsigned_1_byte, unsigned_4_byte, struct, string, no_array, static_array,
  var_len_array, Mem, Info, Elems, stop, elem,
}
use qrtr.Qmi.Message.{MsgPacket, end_elem, qmi_encode, qmi_decode, qmi_encode_message}
use qrtr.Qmi.Tables.{IsEnded, Ends}
use qrtr.Qmi.Progress.{IsWhole}
use qrtr.Qmi.Progress.Outer.{decode-Ends}
use qrtr.Qmi.Finish.{encode-Ends}
use qrtr.Qmi.Bounds.{WritesWithin, IsTable}
use qrtr.Qmi.Bounds.Message.{FitsPacket, encode-WritesWithin, encode_message-FitsPacket}
use qrtr.Qmi.Inside.{LiesIn, Describes, Keeps}
use qrtr.Qmi.Inside.Round.{decode-Keeps}
use qrtr.Qmi.Flat.{IsFlat, fields}
use qrtr.Qmi.Flat.Refused.{RefusesMessage, encode_message-Refuses}
use qrtr.Qmi.Flat.RoundTrip.{DecodesTo, decode-encode, ReadsBack, decode_message-encode_message}

abbrev port_elem : Info
port_elem = record {
  data_type = unsigned_4_byte;
  elem_len = 1;
  elem_size = 4;
  array_type = no_array;
  tlv_type = 1;
  offset = 0;
}

abbrev name_elem : Info
name_elem = record {
  data_type = unsigned_1_byte;
  elem_len = 3;
  elem_size = 1;
  array_type = static_array;
  tlv_type = 0x10;
  offset = 4;
}

-- A port and a name of three bytes.
abbrev fields_table : Elems
fields_table = elem port_elem stop (elem name_elem stop (elem end_elem stop stop))

fields_table-IsFlat : IsFlat fields_table
fields_table-IsFlat = inr (
  record { basic = tt; fixed = λ e. cc e; typed = omega arith; short = omega arith },
  (λ ne e. absurd (omega arith), (λ ne. absurd (ne refl), tt)),
  inr (
    record { basic = tt; fixed = λ e. cc e; typed = omega arith; short = omega arith },
    (λ ne. absurd (ne refl), tt),
    inl (refl, refl),
  ),
)

-- Some structure in memory, and memory of zeros.
abbrev structure : Mem
structure a = a * 37 % 256

abbrev blank : Mem
blank a = 0

decode-encode_example :
    DecodesTo 3 fields_table 100 200 blank
      (fields structure 0 200 fields_table blank)
      (qmi_encode 3 structure fields_table 100 0 13 1 blank)
decode-encode_example =
    decode-encode 3 structure fields_table 100 0 200 13 blank blank fields_table-IsFlat
      (omega arith) (omega arith) (omega arith)

abbrev packet : MsgPacket
packet = record { pkt_type = 0; content = 100; data_len = 20 }

decode_message-encode_message_example :
    ReadsBack 3 2 0x22 7 200 fields_table blank
      (fields structure 0 200 fields_table blank)
      (qmi_encode_message 3 structure packet 2 0x22 7 (some 0) fields_table blank)
decode_message-encode_message_example =
    decode_message-encode_message 3 structure packet 2 0x22 7 0 200 fields_table blank blank
      fields_table-IsFlat (omega arith) (omega arith) (omega arith) (omega arith) (omega arith)
      (omega arith) (omega arith) (λ e. absurd (omega arith)) (λ e. absurd (omega arith))

abbrev string_elem : Info
string_elem = record {
  data_type = string;
  elem_len = 8;
  elem_size = 1;
  array_type = no_array;
  tlv_type = 2;
  offset = 12;
}

abbrev count_elem : Info
count_elem = record {
  data_type = data_len;
  elem_len = 1;
  elem_size = 1;
  array_type = no_array;
  tlv_type = 3;
  offset = 0;
}

abbrev pair_elem : Info
pair_elem = record {
  data_type = struct;
  elem_len = 2;
  elem_size = 4;
  array_type = var_len_array;
  tlv_type = 3;
  offset = 4;
}

-- A counted array of structures, and a string.
abbrev nested_table : Elems
nested_table = elem count_elem stop (
    elem pair_elem (elem port_elem stop (elem end_elem stop stop))
      (elem string_elem stop (elem end_elem stop stop)))

end_elem-LiesIn : (size : ℕ) → LiesIn size end_elem
end_elem-LiesIn size = record {
  array_room = omega arith;
  flag_room = λ k. cc k;
  length_room = λ k. cc k;
  string_room = λ k. cc k;
}

nested_table-Describes : Describes 21 nested_table
nested_table-Describes = (
  record {
    array_room = omega arith;
    flag_room = λ k. cc k;
    length_room = λ k. omega arith;
    string_room = λ k. cc k;
  },
  λ k. cc k,
  λ ne. (
    record {
      array_room = omega arith;
      flag_room = λ k. cc k;
      length_room = λ k. cc k;
      string_room = λ k. cc k;
    },
    λ k. (
      record {
        array_room = omega arith;
        flag_room = λ k. cc k;
        length_room = λ k. cc k;
        string_room = λ k. cc k;
      },
      λ k. cc k,
      λ ne. (end_elem-LiesIn 4, λ k. cc k, λ ne. absurd (ne refl)),
    ),
    λ ne. (
      record {
        array_room = omega arith;
        flag_room = λ k. cc k;
        length_room = λ k. cc k;
        string_room = λ k. (refl, omega arith);
      },
      λ k. cc k,
      λ ne. (end_elem-LiesIn 21, λ k. cc k, λ ne. absurd (ne refl)),
    ),
  ),
)

decode-Keeps_example :
    Keeps blank 200 (200 + 21) (qmi_decode 40 structure nested_table 200 0 30 1 blank)
decode-Keeps_example =
    decode-Keeps 40 structure nested_table 200 21 0 30 1 blank nested_table-Describes

nested_table-IsEnded : IsEnded true 0 nested_table
nested_table-IsEnded = inr (
  (λ k. cc k),
  (λ k e. cc e),
  (λ k. cc k),
  inr (
    (λ k. cc k),
    (λ k. cc k),
    (λ k. inr ((λ k. cc k), (λ k. cc k), (λ k. cc k), inl (refl, λ k. cc k))),
    inr ((λ k. cc k), (λ k. cc k), (λ k. cc k), inl (refl, λ k e. absurd (omega arith))),
  ),
)

encode-Ends_example : Ends (qmi_encode 6 structure nested_table 100 0 64 1 blank)
encode-Ends_example =
    encode-Ends 6 structure nested_table 100 0 64 0 blank nested_table-IsEnded (omega arith)

-- A flag, a counted array and a string.
abbrev plain_table : Elems
plain_table =
    elem (record count_elem { data_type = opt_flag }) stop
      (elem (record count_elem { offset = 1 }) stop
        (elem (record name_elem { array_type = var_len_array }) stop
          (elem string_elem stop (elem end_elem stop stop))))

plain_table-IsTable : IsTable true plain_table
plain_table-IsTable = (
  record {
    total = omega arith;
    single = omega arith;
    count = λ k. omega arith;
    chars = λ k. cc k;
    plain = λ k e. cc e;
  },
  tt,
  (
    record {
      total = omega arith;
      single = omega arith;
      count = λ k. omega arith;
      chars = λ k. cc k;
      plain = λ k e. cc e;
    },
    tt,
    (
      record {
        total = omega arith;
        single = omega arith;
        count = λ k. omega arith;
        chars = λ k. cc k;
        plain = λ k e. cc e;
      },
      tt,
      (
        record {
          total = omega arith;
          single = omega arith;
          count = λ k. omega arith;
          chars = λ k. refl;
          plain = λ k e. cc e;
        },
        tt,
        (
          record {
            total = omega arith;
            single = omega arith;
            count = λ k. omega arith;
            chars = λ k. cc k;
            plain = λ k e. cc e;
          },
          tt,
          tt,
        ),
      ),
    ),
  ),
)

plain_table-IsEnded : IsEnded true 1 plain_table
plain_table-IsEnded = inr (
  (λ k. cc k),
  (λ k. cc k),
  (λ k. cc k),
  inr (
    (λ k. cc k),
    (λ k e. cc e),
    (λ k. cc k),
    inr (
      (λ k. cc k),
      (λ k. cc k),
      (λ k. cc k),
      inr ((λ k. cc k), (λ k. cc k), (λ k. cc k), inl (refl, λ k e. absurd (omega arith))),
    ),
  ),
)

encode-WritesWithin_example :
    WritesWithin blank 100 12 (qmi_encode 6 structure plain_table 100 0 12 1 blank)
    × Ends (qmi_encode 6 structure plain_table 100 0 12 1 blank)
encode-WritesWithin_example =
    encode-WritesWithin 6 structure true plain_table 100 0 12 1 1 blank (omega arith) refl
      (omega arith) plain_table-IsTable plain_table-IsEnded (omega arith)

encode_message-FitsPacket_example :
    FitsPacket blank packet
      (qmi_encode_message 6 structure packet 0 0x22 1 (some 0) plain_table blank)
encode_message-FitsPacket_example =
    encode_message-FitsPacket 6 structure packet 0 0x22 1 0 1 plain_table blank (omega arith)
      plain_table-IsTable plain_table-IsEnded (omega arith)

-- A buffer that is one byte too short for the fields.
abbrev short_packet : MsgPacket
short_packet = record packet { data_len = 19 }

encode_message-Refuses_example :
    RefusesMessage short_packet
      (qmi_encode_message 3 structure short_packet 2 0x22 7 (some 0) fields_table blank)
encode_message-Refuses_example =
    encode_message-Refuses 3 structure short_packet 2 0x22 7 0 fields_table blank
      fields_table-IsFlat (omega arith) (omega arith) (omega arith) (omega arith)

nested_table-IsWhole : IsWhole nested_table
nested_table-IsWhole = inr (
  (λ e. cc e),
  (λ e. absurd (cc e)),
  inr (
    (λ e. cc e),
    (λ e. inr ((λ k. cc k), (λ k. absurd (cc k)), inl refl)),
    inr ((λ e. cc e), (λ e. absurd (cc e)), inl refl),
  ),
)

decode-Ends_example : Ends (qmi_decode 40 structure nested_table 200 0 30 1 blank)
decode-Ends_example =
    decode-Ends 40 structure nested_table 200 0 30 blank nested_table-IsWhole (omega arith)
      (omega arith)
