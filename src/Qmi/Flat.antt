-- ===== src/Qmi/Flat.antt =====
-- Messages of lib/qmi.c without structures, strings, options and counted arrays: their tables, and
-- what their encoding looks like in memory.
pub mod Encoded
pub mod Decoded
pub mod RoundTrip
pub mod Refused
use qrtr.Base.{
  ℕ, zero, suc, ◌+◌, ◌-◌, ◌*◌, ◌/◌, ◌%◌, ◌^◌, ◌≤◌, ◌<◌, ◌≡◌, ◌≢◌, ◌⊎◌, refl, sym, ap, ◌∙◌, inl, inr,
  Bool, true, false, Option, none, some, if◌then◌else◌, ◌==◌, arith, Bool-cases,
}
use qrtr.Qmi.{
  ElemType, eoti, opt_flag, data_len, struct, string, ArrayType, no_array, static_array,
  var_len_array, Mem, memcpy, Info, Elems, stop, elem, find_ei,
}

abbrev pub IsBasic : ElemType → Type 0
IsBasic eoti = ⊥
IsBasic opt_flag = ⊥
IsBasic data_len = ⊥
IsBasic struct = ⊥
IsBasic string = ⊥
IsBasic _ = Unit {0}

-- The number of elements that the table fixes.
abbrev pub count : Info → ℕ
count e = elim e.array_type [ no_array ↦ 1 | static_array ↦ e.elem_len | var_len_array ↦ 0 ]

abbrev pub size : Info → ℕ
size e = count e * e.elem_size

-- One field, whose TLV has a length of 16 bits.
pub record IsField (e : Info) : Type 0 where
  pub basic : IsBasic e.data_type
  pub fixed : e.array_type ≢ var_len_array
  pub typed : e.tlv_type < 256
  pub short : size e < 2 ^ 16

-- No element of the table has the type.
abbrev pub Lacks : ℕ → Elems → Type 0
Lacks t stop = Unit {0}
Lacks t (elem e sub next) = (e.data_type ≢ eoti → e.tlv_type ≢ t) × Lacks t next

-- A table of fields with types of their own, and an end element.
abbrev pub IsFlat : Elems → Type 0
IsFlat stop = ⊥
IsFlat (elem e sub next) =
    ((e.data_type ≡ eoti) × (next ≡ stop)) ⊎ (IsField e × Lacks e.tlv_type next × IsFlat next)

-- The bytes of the encoding.
abbrev pub wire_len : Elems → ℕ
wire_len stop = 0
wire_len (elem e sub next) = elim e.data_type [ eoti ↦ 0 | _ ↦ 3 + size e + wire_len next ]

-- The memory holds the encoding of the structure, from an address on.
pub record IsTlv (src : Mem) (base : ℕ) (m : Mem) (p : ℕ) (e : Info) : Type 0 where
  pub type_at : m p % 256 ≡ e.tlv_type
  pub len_at : m (p + 1) % 256 + m (p + 2) % 256 * 2 ^ 8 ≡ size e
  pub value_at : (j : ℕ) → j < size e → m (p + 3 + j) ≡ src (base + e.offset + j)

abbrev pub IsLaid : Mem → ℕ → Mem → ℕ → Elems → Type 0
IsLaid src base m p stop = Unit {0}
IsLaid src base m p (elem e sub next) =
    (e.data_type ≢ eoti → IsTlv src base m p e)
    × (e.data_type ≢ eoti → IsLaid src base m (p + 3 + size e) next)

-- The structure that a decoder makes of another: each field is copied.
abbrev pub fields : Mem → ℕ → ℕ → Elems → Mem → Mem
fields src base to stop m = m
fields src base to (elem e sub next) m = elim e.data_type [
  | eoti ↦ m
  | _ ↦ fields src base to next (memcpy m (to + e.offset) src (base + e.offset) (size e))
]

pub basic-NotEoti : (k : ElemType) → IsBasic k → k ≢ eoti
basic-NotEoti eoti h e = h
basic-NotEoti opt_flag h e = h
basic-NotEoti data_len h e = h
basic-NotEoti struct h e = h
basic-NotEoti string h e = h
basic-NotEoti _ h e = cc e

-- A case of the walks on a field is the case of the basic types.
pub wire_len_field :
    (e : Info) (sub next : Elems)
    → IsBasic e.data_type
    → wire_len (elem e sub next) ≡ 3 + size e + wire_len next
wire_len_field e sub next h = by_type e.data_type refl h
  where
    by_type :
        (k : ElemType)
        → e.data_type ≡ k
        → IsBasic k
        → wire_len (elem e sub next) ≡ 3 + size e + wire_len next
    by_type eoti k h = absurd h
    by_type opt_flag k h = absurd h
    by_type data_len k h = absurd h
    by_type struct k h = absurd h
    by_type string k h = absurd h
    by_type _ k h = rw k refl

pub fields_field :
    (src : Mem) (base to : ℕ) (e : Info) (sub next : Elems) (m : Mem)
    → IsBasic e.data_type
    → fields src base to (elem e sub next) m
      ≡ fields src base to next (memcpy m (to + e.offset) src (base + e.offset) (size e))
fields_field src base to e sub next m h = by_type e.data_type refl h
  where
    by_type :
        (k : ElemType)
        → e.data_type ≡ k
        → IsBasic k
        → fields src base to (elem e sub next) m
          ≡ fields src base to next (memcpy m (to + e.offset) src (base + e.offset) (size e))
    by_type eoti k h = absurd h
    by_type opt_flag k h = absurd h
    by_type data_len k h = absurd h
    by_type struct k h = absurd h
    by_type string k h = absurd h
    by_type _ k h = rw k refl
