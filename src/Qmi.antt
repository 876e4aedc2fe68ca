-- ===== src/Qmi.antt =====
-- lib/qmi.c and the element tables of include/libqrtr.h: memory, the table that describes a message,
-- and the walks over it. Memory is a function from addresses to bytes, and the machine is
-- little-endian with 32-bit `unsigned int` and 64-bit `size_t`, on which the messages rely.
pub mod Encode
pub mod Decode
pub mod Message
pub mod Tables
pub mod Finish
pub mod Flat
pub mod Memory
pub mod Bounds
pub mod Inside
pub mod Progress
use qrtr.Base.{
  ℕ, zero, suc, ◌+◌, ◌-◌, ◌*◌, ◌/◌, ◌%◌, ◌^◌, ◌≡◌, Bool, true, false, ◌&&◌, Option, none, some, ltb,
  leb, ◌==◌, if◌then◌else◌, u32_mod,
}

abbrev pub Mem : Type 0
Mem = ℕ → ℕ

-- `memcpy(dst + d, src + s, n)`
unfoldable pub memcpy : Mem → ℕ → Mem → ℕ → ℕ → Mem
memcpy dst d src s n a = if leb d a && ltb a (d + n) then src (s + (a - d)) else dst a

-- The bytes of a variable in memory, the lowest first.
abbrev pub bytes_of : ℕ → Mem
bytes_of v a = v / 256 ^ a % 256

-- The number that n bytes hold.
unfoldable pub read_le : Mem → ℕ → ℕ → ℕ
read_le src s zero = 0
read_le src s (suc n) = src s % 256 + read_le src (s + 1) n * 256

-- `memcpy(&v, src + s, n)` into a 32-bit variable: its upper bytes stay for n below 4. Where n is above
-- 4 the code writes past the variable, and only the variable is modelled.
unfoldable pub read_into : ℕ → Mem → ℕ → ℕ → ℕ
read_into v src s n =
    let part = read_le src s n + v / 256 ^ n * 256 ^ n in if ltb 4 n then read_le src s 4 else part

-- `enum qmi_elem_type`
pub data ElemType : Type 0 where
  eoti : ElemType
  opt_flag : ElemType
  data_len : ElemType
  unsigned_1_byte : ElemType
  unsigned_2_byte : ElemType
  unsigned_4_byte : ElemType
  unsigned_8_byte : ElemType
  signed_1_byte_enum : ElemType
  signed_2_byte_enum : ElemType
  signed_4_byte_enum : ElemType
  struct : ElemType
  string : ElemType

-- `enum qmi_array_type`
pub data ArrayType : Type 0 where
  no_array : ArrayType
  static_array : ArrayType
  var_len_array : ArrayType

-- `struct qmi_elem_info` but for `ei_array`
pub record Info : Type 0 where
  pub data_type : ElemType
  pub elem_len : ℕ
  pub elem_size : ℕ
  pub array_type : ArrayType
  pub tlv_type : ℕ
  pub offset : ℕ

-- A pointer into a table: the element there, its `ei_array` and the elements that follow. `stop` is
-- NULL, and what stands past the end of a table, which nothing may read.
pub data Elems : Type 0 where
  stop : Elems
  elem : Info → Elems → Elems → Elems

pub data Errno : Type 0 where
  einval : Errno
  efault : Errno
  emsgsize : Errno

-- How a walk ends: with a number of bytes or an error, and the memory that was written; by a read past
-- the end of the table; or without fuel.
pub data Outcome : Type 0 where
  done : ℕ → Mem → Outcome
  failed : Errno → Mem → Outcome
  past_table : Outcome
  out_of_fuel : Outcome

-- The loop of `skip_to_next_elem`.
unfoldable pub skip_loop : ℕ → Elems → Elems
skip_loop tlv_type stop = stop
skip_loop tlv_type (elem e sub next) =
    let on = skip_loop e.tlv_type next in if tlv_type == e.tlv_type then on else elem e sub next

unfoldable pub skip_to_next_elem : Elems → ℕ → Elems
skip_to_next_elem stop level = stop
skip_to_next_elem (elem e sub next) level = if ltb 1 level then next else skip_loop e.tlv_type next

-- `none` is NULL. A table without an end element gives `stop`.
unfoldable pub find_ei : Elems → ℕ → Option Elems
find_ei stop tlv_type = some stop
find_ei (elem e sub next) tlv_type =
    let rest = find_ei next tlv_type in
    let here : Option Elems =
      if e.tlv_type == tlv_type % 256 then some (elem e sub next) else rest in
    elim e.data_type [ eoti ↦ none | _ ↦ here ]

-- The loop over elements of `qmi_encode_basic_elem` and of `qmi_decode_basic_elem`, with `rc`.
unfoldable pub basic_loop : ℕ → ℕ → Mem → ℕ → Mem → ℕ → ℕ → Mem × ℕ
basic_loop zero elem_size dst d src s rc = (dst, rc)
basic_loop (suc n) elem_size dst d src s rc =
    basic_loop n elem_size (memcpy dst d src s elem_size) (d + elem_size) src (s + elem_size)
      ((rc + elem_size) % u32_mod)

unfoldable pub encode_basic_elem : Mem → ℕ → Mem → ℕ → ℕ → ℕ → Mem × ℕ
encode_basic_elem dst d src s elem_len elem_size = basic_loop elem_len elem_size dst d src s 0

unfoldable pub decode_basic_elem : Mem → ℕ → Mem → ℕ → ℕ → ℕ → Mem × ℕ
decode_basic_elem dst d src s elem_len elem_size = basic_loop elem_len elem_size dst d src s 0

-- The width of a length: `elem_size == sizeof(uint8_t) ? sizeof(uint8_t) : sizeof(uint16_t)`.
abbrev pub data_len_sz : Info → ℕ
data_len_sz e = if e.elem_size == 1 then 1 else 2

-- `elem_len <= 256 ? sizeof(uint8_t) : sizeof(uint16_t)`
abbrev pub string_len_sz : Info → ℕ
string_len_sz e = if leb e.elem_len 256 then 1 else 2

-- Unsigned subtraction of 32-bit words.
abbrev pub sub_u32 : ℕ → ℕ → ℕ
sub_u32 a b = (a + u32_mod - b) % u32_mod
