-- ===== src/Qmi/Inside.antt =====
-- Where `qmi_decode` of lib/qmi.c writes: whatever the message, into the structure that its table
-- describes.
pub mod Elem
pub mod Round
use qrtr.Base.{
  ℕ, zero, suc, ◌+◌, ◌-◌, ◌*◌, ◌%◌, ◌^◌, ◌≤◌, ◌<◌, ◌≡◌, ◌≢◌, ◌⊎◌, refl, sym, ap, ◌∙◌, inl, inr,
  Bool, true, false, not, ◌&&◌, ◌||◌, Option, none, some, ltb, leb, ◌==◌, if◌then◌else◌, arith,
  u32_mod, Bool-cases, lt_or_le,
}
use native.Mathlib.Nat.{mul-le-mul_right}
use qrtr.Qmi.{
  Mem, memcpy, bytes_of, read_into, ElemType, eoti, opt_flag, data_len, struct, string, ArrayType,
  no_array, static_array, var_len_array, Info, Elems, stop, elem, Errno, einval, efault, Outcome,
  done, failed, past_table, out_of_fuel, find_ei, sub_u32, decode_basic_elem, data_len_sz,
  string_len_sz,
}
use qrtr.Qmi.Memory.{decode_basic_elem_wrap}
use qrtr.Qmi.Bounds.{Agrees, Agrees-memcpy, Agrees-inner}
use qrtr.Qmi.Decode.{
  DecodeVars, Step, go, exit, Nested, update_decode, after_call, decode_len, decode_flag,
  decode_data_len, decode_struct_loop, decode_struct_elem, decode_string_elem, decode_elem,
  decode_sized, decode_one, open_tlv, is_eoti, decode_start, decode_round, decode_loop,
}
use qrtr.Qmi.Message.{qmi_decode}

-- The number of elements that the structure has room for.
abbrev pub capacity : Info → ℕ
capacity e = elim e.array_type [
  | no_array ↦ 1
  | static_array ↦ e.elem_len
  | var_len_array ↦ e.elem_len
]

-- An element lies in a structure of a size: an array, the byte of a flag, the four bytes of a length
-- (of type uint32_t), and a string with its terminator.
pub record LiesIn (size : ℕ) (e : Info) : Type 0 where
  pub array_room : e.offset + capacity e * e.elem_size ≤ size
  pub flag_room : e.data_type ≡ opt_flag → e.offset + 1 ≤ size
  pub length_room : e.data_type ≡ data_len → e.offset + 4 ≤ size
  pub string_room : e.data_type ≡ string → (e.elem_size ≡ 1) × (e.offset + e.elem_len + 1 ≤ size)

-- A table describes a structure of a size: its elements lie in it, and it has an end element.
abbrev pub Describes : ℕ → Elems → Type 0
Describes size stop = ⊥
Describes size (elem e sub next) =
    LiesIn size e
    × (e.data_type ≡ struct → Describes e.elem_size sub)
    × (e.data_type ≢ eoti → Describes size next)

-- A walk wrote only there, whether it succeeded or not, and read no element past the end of a table.
abbrev pub Keeps : Mem → ℕ → ℕ → Outcome → Type 0
Keeps out low high (done n m) = Agrees out m low high
Keeps out low high (failed errno m) = Agrees out m low high
Keeps out low high past_table = ⊥
Keeps out low high out_of_fuel = Unit {0}

pub find-Describes :
    (size : ℕ) (at : Elems) (t : ℕ) (found : Elems)
    → Describes size at
    → find_ei at t ≡ some found
    → Describes size found
unfolding find_ei
find-Describes size at t found h k = rw k at (by_table at h)
  where
    Holds : Option Elems → Type 0
    Holds none = Unit {0}
    Holds (some x) = Describes size x

    by_type :
        (k : ElemType) (x : Option Elems)
        → (k ≢ eoti → Holds x)
        → Holds (elim k [ eoti ↦ none | _ ↦ x ])
    by_type eoti x h = tt
    by_type _ x h = h (λ e. cc e)

    by_test : (c : Bool) (x y : Option Elems) → Holds x → Holds y → Holds (if c then x else y)
    by_test true x y h g = h
    by_test false x y h g = g

    by_table : (at : Elems) → Describes size at → Holds (find_ei at t)
    by_table stop h = absurd h
    by_table (elem e sub next) (l, s, n) =
        by_type e.data_type _
          (λ ne. by_test (e.tlv_type == t % 256) _ _ (l, s, n) (by_table next (n ne)))

-- A nested call for a structure of a size keeps to it.
abbrev pub NestedKeeps : Nested → ℕ → Elems → Type 0
NestedKeeps nested size sub =
    (level len s d : ℕ) (m : Mem) → Keeps m d (d + size) (nested level len s d sub m)

pub if-Keeps :
    (c : Bool) (out : Mem) (low high : ℕ) (x y : Outcome)
    → Keeps out low high x
    → Keeps out low high y
    → Keeps out low high (if c then x else y)
if-Keeps true out low high x y h g = h
if-Keeps false out low high x y h g = g

pub check-Keeps :
    (c : Bool) (m : Mem) (low high : ℕ) (errno : Errno) (n : ℕ)
    → Keeps m low high (if c then failed errno m else done n m)
check-Keeps true m low high errno n = λ a o. refl
check-Keeps false m low high errno n = λ a o. refl

pub Keeps-inner :
    (out m : Mem) (low high l r : ℕ) (o : Outcome)
    → Agrees out m low high
    → low ≤ l
    → r ≤ high
    → Keeps m l r o
    → Keeps out low high o
Keeps-inner out m low high l r (done n m') h a b g = Agrees-inner out m m' low high l r h g a b
Keeps-inner out m low high l r (failed errno m') h a b g =
    Agrees-inner out m m' low high l r h g a b
Keeps-inner out m low high l r past_table h a b g = g
Keeps-inner out m low high l r out_of_fuel h a b g = tt

pub decode_len-fits : (e : Info) (before n : ℕ) → decode_len e before ≡ some n → n ≤ capacity e
unfolding decode_len
decode_len-fits e before n h = by_array e.array_type h
  where
    by_test :
        (c : Bool)
        → ltb e.elem_len before ≡ c
        → (if c then none else some before) ≡ some n
        → n ≤ e.elem_len
    by_test true b k = absurd (cc k)
    by_test false b k = let same : before ≡ n = cc k in ground (arith, b, same)

    by_array :
        (a : ArrayType)
        → elim a [
          | no_array ↦ some 1
          | static_array ↦ some e.elem_len
          | var_len_array ↦ if ltb e.elem_len before then none else some before
        ]
          ≡ some n
        → n ≤ elim a [ no_array ↦ 1 | static_array ↦ e.elem_len | var_len_array ↦ e.elem_len ]
    by_array no_array k = let same : 1 ≡ n = cc k in omega arith
    by_array static_array k = let same : e.elem_len ≡ n = cc k in omega arith
    by_array var_len_array k = by_test (ltb e.elem_len before) refl k

pub struct_loop-Keeps :
    (nested : Nested) (level tlv_len size : ℕ) (sub : Elems)
    → NestedKeeps nested size sub
    → (n s d decoded : ℕ) (m : Mem)
    → Keeps m d (d + n * size) (decode_struct_loop nested level tlv_len size sub n s d decoded m)
unfolding decode_struct_loop
struct_loop-Keeps nested level tlv_len size sub w zero s d decoded m =
    check-Keeps ((leb level 2 && not (decoded == tlv_len)) || (ltb 2 level && ltb tlv_len decoded))
      m d (d + 0 * size) efault decoded
struct_loop-Keeps nested level tlv_len size sub w (suc n) s d decoded m =
    if-Keeps (ltb decoded tlv_len) m d (d + suc n * size) _ _
      (by_call (nested level (sub_u32 tlv_len decoded) s d sub m)
        (w level (sub_u32 tlv_len decoded) s d m)
        (λ rc m'.
          struct_loop-Keeps nested level tlv_len size sub w n (s + rc) (d + size) (decoded + rc)
            m'))
      (check-Keeps ((leb level 2 && not (decoded == tlv_len)) || ltb 2 level) m d (d + suc n * size)
        efault decoded)
  where
    more : suc n * size ≡ size + n * size
    more = omega arith

    by_call :
        (o : Outcome)
        → Keeps m d (d + size) o
        → ((rc : ℕ) (m' : Mem)
            → Keeps m' (d + size) (d + size + n * size) (
                decode_struct_loop nested level tlv_len size sub n
                  (s + rc)
                  (d + size)
                  (decoded + rc)
                  m'))
        → Keeps m d (d + suc n * size) (elim o [
          | done rc m' ↦
              decode_struct_loop nested level tlv_len size sub n
                (s + rc)
                (d + size)
                (decoded + rc)
                m'
          | failed errno m' ↦ failed errno m'
          | past_table ↦ past_table
          | out_of_fuel ↦ out_of_fuel
        ])
    by_call (done rc m') k rest =
        Keeps-inner m m' d (d + suc n * size) (d + size) (d + size + n * size) _
          (Agrees-inner m m m' d (d + suc n * size) d (d + size) (λ a o. refl) k (omega arith)
            (omega arith))
          (omega arith) (rw more (omega arith)) (rest rc m')
    by_call (failed errno m') k rest =
        Agrees-inner m m m' d (d + suc n * size) d (d + size) (λ a o. refl) k (omega arith)
          (rw more (omega arith))
    by_call past_table k rest = k
    by_call out_of_fuel k rest = tt

pub string-Keeps :
    (e : Info) (d : ℕ) (src : Mem) (s tlv_len level : ℕ) (m : Mem)
    → e.elem_size ≡ 1
    → Keeps m d (d + e.elem_len + 1) (decode_string_elem e d src s tlv_len level m)
unfolding decode_string_elem
string-Keeps e d src s tlv_len level m one =
    by_len (if level == 1 then 0 else string_len_sz e) (
      if level == 1 then tlv_len else read_into 0 src s (if level == 1 then 0 else string_len_sz e))
  where
    by_len :
        (sz string_len : ℕ)
        → Keeps m d (d + e.elem_len + 1) (
            if ltb e.elem_len string_len
            then failed einval m
            else if ltb tlv_len string_len
            then failed efault m
            else let (m', rc) = decode_basic_elem m d src (s + sz) string_len e.elem_size in
              done (sz + rc) (memcpy m' (d + string_len) (λ a. 0) 0 1))
    by_len sz string_len = elim (Bool-cases (ltb e.elem_len string_len)) [
      | inl b ↦ rw b (λ a o. refl)
      | inr b ↦
          let short : string_len ≤ e.elem_len = ground (arith, b) in
          let width : string_len * e.elem_size ≡ string_len = rw one (omega arith) in
          let high = d + e.elem_len + 1 in
          rw (b, decode_basic_elem_wrap m d src (s + sz) string_len e.elem_size, width)
            (if-Keeps (ltb tlv_len string_len) m d high _ _ (λ a o. refl)
              (Agrees-memcpy m (memcpy m d src (s + sz) string_len) d high (d + string_len) (λ a. 0)
                0 1
                (Agrees-memcpy m m d high d src (s + sz) string_len (λ a o. refl) (omega arith)
                  (omega arith))
                (omega arith) (omega arith)))
    ]
