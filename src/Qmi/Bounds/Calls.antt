-- ===== src/Qmi/Bounds/Calls.antt =====
-- What `qmi_encode` of lib/qmi.c calls for an array, a structure or a string keeps to its space.
use native.Mathlib.Nat.{mul-le-mul_right}
use qrtr.Base.{
  ℕ, zero, suc, ◌+◌, ◌-◌, ◌*◌, ◌%◌, ◌^◌, ◌≤◌, ◌<◌, ◌≡◌, refl, inl, inr, Bool, true, false, ◌||◌,
  some, ltb, ◌==◌, arith, u32_mod, Bool-cases,
}
use qrtr.Qmi.{
  ArrayType, Mem, Info, no_array, static_array, var_len_array, Elems, Outcome, done, failed,
  past_table, out_of_fuel, sub_u32,
}
use qrtr.Qmi.Encode.{EncodeVars, Nested, encode_len, encode_struct_loop}
use qrtr.Qmi.Bounds.{Agrees, WritesWithin, Fits, IsTable, Agrees-inner, header}

pub header_le : (flat : Bool) → header flat ≤ 3
header_le true = omega arith
header_le false = omega arith

-- The number of elements keeps the size of the whole small.
pub len_by_type :
    (flat : Bool) (e : Info) (before n : ℕ) (a : ArrayType)
    → Fits flat e
    → e.array_type ≡ a
    → encode_len e before ≡ some n
    → n * e.elem_size < 2 ^ 31
unfolding encode_len
len_by_type flat e before n no_array f p h =
    let one : 1 ≡ n = cc (rw (p, encode_len) at h) in
    let single = f.single in rw (← one) (omega arith)
len_by_type flat e before n static_array f p h =
    let same : e.elem_len ≡ n = cc (rw (p, encode_len) at h) in rw (← same) f.total
len_by_type flat e before n var_len_array f p h =
    let tested = rw (p, encode_len) at h in
    elim (Bool-cases ((before == 0) || ltb e.elem_len before)) [
      | inl b ↦ absurd (cc (rw b at tested))
      | inr b ↦
          let same : before ≡ n = cc (rw b at tested) in
          let le : before ≤ e.elem_len = ground (arith, b) in
          let total = f.total in rw (← same) (omega (arith, mul-le-mul_right e.elem_size le))
    ]

pub encode_len-small :
    (flat : Bool) (e : Info) (before n : ℕ)
    → Fits flat e
    → encode_len e before ≡ some n
    → n * e.elem_size < 2 ^ 31
encode_len-small flat e before n f h = len_by_type flat e before n e.array_type f refl h

-- The test before a copy leaves room for the copy and for a header.
pub test_room :
    (flat : Bool) (len k encoded : ℕ)
    → k < 2 ^ 31
    → len < 2 ^ 31
    → encoded ≤ len
    → ltb len ((k + encoded) % u32_mod + 3) ≡ false
    → encoded + k + header flat ≤ len
test_room flat len k encoded small_k small le test =
    let h = header_le flat in
    let wraps : (k + encoded) % u32_mod ≡ k + encoded = omega arith in
    ground (arith, rw wraps at test)

-- Calls of `qmi_encode` for the structures inside.
abbrev pub NestedWithin : Nested → Type 0
NestedWithin nested =
    (level len dst s : ℕ) (sub : Elems) (m : Mem)
    → (level == 1) ≡ false
    → 1 ≤ level
    → IsTable false sub
    → len < 2 ^ 31
    → WritesWithin m dst len (nested level len dst s sub m)

pub sub_u32_lem : (a b : ℕ) → b ≤ a → a < 2 ^ 31 → sub_u32 a b ≡ a - b
sub_u32_lem a b h small = omega arith

-- One structure, given what the rest of the loop does.
pub struct_step-Within :
    (nested : Nested) (level room size : ℕ) (sub : Elems) (n d s encoded : ℕ) (m₀ m : Mem)
    (o : Outcome)
    → room < 2 ^ 31
    → encoded ≤ room
    → Agrees m₀ m d (d + room)
    → nested level (sub_u32 room encoded) (d + encoded) s sub m ≡ o
    → WritesWithin m (d + encoded) (sub_u32 room encoded) o
    → ((rc : ℕ) (m' : Mem)
        → encoded + rc ≤ room
        → Agrees m₀ m' d (d + room)
        → WritesWithin m₀ d room (
            encode_struct_loop nested level room size sub n
              (d + (encoded + rc))
              (s + size)
              (encoded + rc)
              m'))
    → WritesWithin m₀ d room
        (encode_struct_loop nested level room size sub (suc n) (d + encoded) s encoded m)
unfolding encode_struct_loop
struct_step-Within nested level room size sub n d s encoded m₀ m (done rc m') small le same e
      (fits, kept) more =
    let left = sub_u32_lem room encoded le small in
    let at : d + encoded + rc ≡ d + (encoded + rc) = omega arith in
    let same' =
      Agrees-inner m₀ m m' d (d + room) (d + encoded) (d + encoded + sub_u32 room encoded) same kept
        (omega arith) (omega arith) in
    rw (e, encode_struct_loop, at) (more rc m' (omega arith) same')
struct_step-Within nested level room size sub n d s encoded m₀ m (failed errno m') small le same e
      kept more =
    let left = sub_u32_lem room encoded le small in
    rw (e, encode_struct_loop)
      (Agrees-inner m₀ m m' d (d + room) (d + encoded) (d + encoded + sub_u32 room encoded) same
        kept (omega arith) (omega arith))
struct_step-Within nested level room size sub n d s encoded m₀ m past_table small le same e kept
      more =
    rw (e, encode_struct_loop) tt
struct_step-Within nested level room size sub n d s encoded m₀ m out_of_fuel small le same e kept
      more =
    rw (e, encode_struct_loop) tt

pub struct_loop-Within :
    (nested : Nested) (level room size : ℕ) (sub : Elems)
    → NestedWithin nested
    → (level == 1) ≡ false
    → 1 ≤ level
    → IsTable false sub
    → room < 2 ^ 31
    → (n d s encoded : ℕ) (m₀ m : Mem) → encoded ≤ room
    → Agrees m₀ m d (d + room)
    → WritesWithin m₀ d room
        (encode_struct_loop nested level room size sub n (d + encoded) s encoded m)
unfolding encode_struct_loop
struct_loop-Within nested level room size sub w l one t small zero d s encoded m₀ m le same =
    (le, same)
struct_loop-Within nested level room size sub w l one t small (suc n) d s encoded m₀ m le same =
    let left = sub_u32_lem room encoded le small in
    struct_step-Within nested level room size sub n d s encoded m₀ m
      (nested level (sub_u32 room encoded) (d + encoded) s sub m) small le same refl
      (w level (sub_u32 room encoded) (d + encoded) s sub m l one t (omega arith))
      (λ rc m' fits same'.
        struct_loop-Within nested level room size sub w l one t small n d (s + size) (encoded + rc)
          m₀ m' fits same')

-- How much a call of an element may write, seen from the loop.
abbrev pub CallWithin : Bool → ℕ → ℕ → Mem → EncodeVars → Outcome → Type 0
CallWithin flat dst len out st (done n m) =
    (st.encoded_bytes + n + header flat ≤ len) × Agrees out m dst (dst + len)
CallWithin flat dst len out st (failed errno m) = Agrees out m dst (dst + len)
CallWithin flat dst len out st past_table = Unit {0}
CallWithin flat dst len out st out_of_fuel = Unit {0}
