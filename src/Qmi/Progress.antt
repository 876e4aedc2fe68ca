-- ===== src/Qmi/Progress.antt =====
-- `qmi_decode` of lib/qmi.c returns: each round reads on in the message or goes on in the table, and the
-- number of bytes does not wrap.
pub mod Elem
pub mod One
pub mod Rounds
pub mod Outer
use native.Mathlib.Nat.{mul-le-mul_right, mul-le-mul}
use qrtr.Base.{
  ℕ, zero, suc, ◌+◌, ◌-◌, ◌*◌, ◌%◌, ◌^◌, ◌≤◌, ◌<◌, ◌≡◌, ◌≢◌, ◌⊎◌, refl, sym, ap, ◌∙◌, inl, inr,
  Bool, true, false, not, ◌&&◌, ◌||◌, Option, none, some, ltb, leb, ◌==◌, if◌then◌else◌, arith,
  u32_mod, Bool-cases,
}
use qrtr.Qmi.{
  Mem, memcpy, bytes_of, read_into, ElemType, eoti, opt_flag, data_len, struct, string, Info, Elems,
  stop, elem, Errno, einval, efault, Outcome, done, failed, past_table, out_of_fuel, find_ei,
  sub_u32, decode_basic_elem, data_len_sz, string_len_sz,
}
use qrtr.Qmi.Memory.{decode_basic_elem_wrap}
use qrtr.Qmi.Decode.{
  DecodeVars, Step, go, exit, Nested, update_decode, after_call, decode_len, decode_flag,
  decode_data_len, decode_struct_loop, decode_struct_elem, decode_string_elem, decode_elem,
  decode_sized, decode_one,
}
use qrtr.Qmi.Inside.{capacity, decode_len-fits}
use qrtr.Qmi.Tables.{rank, Ends}

-- The table, and each table inside, has an end element.
abbrev pub IsWhole : Elems → Type 0
IsWhole stop = ⊥
IsWhole (elem e sub next) =
    (e.data_type ≡ eoti)
    ⊎ ((e.data_type ≢ eoti) × (e.data_type ≡ struct → IsWhole sub) × IsWhole next)

-- A bound of the bytes that the elements of a table are decoded from.
abbrev pub span : Elems → ℕ
span stop = 0
span (elem e sub next) =
    4 + span sub + (e.elem_len + capacity e) * (e.elem_size + span sub) + span next

-- A call for a structure returns, and read no more than its table spans.
abbrev pub Spans : ℕ → Outcome → Type 0
Spans bound (done n m) = n ≤ bound
Spans bound (failed errno m) = Unit {0}
Spans bound past_table = ⊥
Spans bound out_of_fuel = ⊥

abbrev pub NestedSpans : Nested → Elems → Type 0
NestedSpans nested sub =
    (level len s d : ℕ) (m : Mem) → 2 ≤ level → Spans (span sub) (nested level len s d sub m)

pub if-Spans :
    (c : Bool) (bound : ℕ) (x y : Outcome)
    → Spans bound x
    → Spans bound y
    → Spans bound (if c then x else y)
if-Spans true bound x y h g = h
if-Spans false bound x y h g = g

pub struct_loop-Spans :
    (nested : Nested) (level tlv_len size : ℕ) (sub : Elems)
    → 2 ≤ level
    → NestedSpans nested sub
    → (n s d decoded bound : ℕ) (m : Mem) → decoded + n * span sub ≤ bound
    → Spans bound (decode_struct_loop nested level tlv_len size sub n s d decoded m)
unfolding decode_struct_loop
struct_loop-Spans nested level tlv_len size sub two w zero s d decoded bound m h =
    if-Spans ((leb level 2 && not (decoded == tlv_len)) || (ltb 2 level && ltb tlv_len decoded))
      bound _ _ tt (omega arith)
struct_loop-Spans nested level tlv_len size sub two w (suc n) s d decoded bound m h =
    if-Spans (ltb decoded tlv_len) bound _ _
      (by_call (nested level (sub_u32 tlv_len decoded) s d sub m)
        (w level (sub_u32 tlv_len decoded) s d m two)
        (λ rc m' k.
          struct_loop-Spans nested level tlv_len size sub two w n (s + rc) (d + size) (decoded + rc)
            bound m' k))
      (if-Spans ((leb level 2 && not (decoded == tlv_len)) || ltb 2 level) bound _ _ tt
        (omega arith))
  where
    more : suc n * span sub ≡ span sub + n * span sub
    more = omega arith

    by_call :
        (o : Outcome)
        → Spans (span sub) o
        → ((rc : ℕ) (m' : Mem)
            → decoded + rc + n * span sub ≤ bound
            → Spans bound (
                decode_struct_loop nested level tlv_len size sub n
                  (s + rc)
                  (d + size)
                  (decoded + rc)
                  m'))
        → Spans bound (elim o [
          | done rc m' ↦
              decode_struct_loop nested level tlv_len size sub n
                (s + rc)
                (d + size)
                (decoded + rc)
                m'
          | failed errno m' ↦ failed errno m'
          | past_table ↦ past_table
          | out_of_fuel ↦ out_of_fuel
        ])
    by_call (done rc m') k rest = rest rc m' (omega (arith, k, h, more))
    by_call (failed errno m') k rest = tt
    by_call past_table k rest = k
    by_call out_of_fuel k rest = k

pub string-Spans :
    (e : Info) (d : ℕ) (src : Mem) (s tlv_len level : ℕ) (m : Mem)
    → Spans (2 + e.elem_len * e.elem_size) (decode_string_elem e d src s tlv_len level m)
unfolding decode_string_elem
string-Spans e d src s tlv_len level m =
    by_len (if level == 1 then 0 else string_len_sz e)
      (if level == 1
        then tlv_len
        else read_into 0 src s (if level == 1 then 0 else string_len_sz e))
      (ground arith)
  where
    by_len :
        (sz string_len : ℕ)
        → sz ≤ 2
        → Spans (2 + e.elem_len * e.elem_size) (
            if ltb e.elem_len string_len
            then failed einval m
            else if ltb tlv_len string_len
            then failed efault m
            else let (m', rc) = decode_basic_elem m d src (s + sz) string_len e.elem_size in
              done (sz + rc) (memcpy m' (d + string_len) (λ a. 0) 0 1))
    by_len sz string_len small = elim (Bool-cases (ltb e.elem_len string_len)) [
      | inl b ↦ rw b tt
      | inr b ↦
          let short : string_len ≤ e.elem_len = ground (arith, b) in
          let fewer = mul-le-mul_right e.elem_size short in
          rw (b, decode_basic_elem_wrap m d src (s + sz) string_len e.elem_size)
            (if-Spans (ltb tlv_len string_len) (2 + e.elem_len * e.elem_size) _ _ tt
              (omega (arith, fewer, small)))
    ]
