-- ===== src/Qmi/Finish.antt =====
-- `qmi_encode` of lib/qmi.c returns, with as much fuel as its table has elements.
use qrtr.Base.{
  ℕ, zero, suc, sym, ◌∙◌, ◌+◌, ◌%◌, ◌≤◌, ◌≡◌, ◌≢◌, refl, inl, inr, Bool, true, false, Option, none,
  some, ltb, ◌==◌, if◌then◌else◌, arith, Bool-cases,
}
use qrtr.Qmi.{
  ElemType, eoti, opt_flag, data_len, struct, string, Mem, Info, Elems, stop, elem, einval, Outcome,
  done, failed, past_table, out_of_fuel, sub_u32, read_into,
}
use qrtr.Qmi.Tables.{NotEnd, IsEnded, rank, Ends, Rest, skip-Rest, skip_next-Rest}
use qrtr.Qmi.Encode.{
  EncodeVars, Step, go, exit, Nested, after_call, encode_len, encode_struct_loop,
  encode_struct_elem, encode_string_elem, encode_flag, encode_data_len, encode_basic, encode_struct,
  encode_string, encode_elem, close_tlv, encode_start, encode_round, encode_call, encode_loop,
}
use qrtr.Qmi.Message.{qmi_encode}

abbrev StepEnds : Bool → ℕ → Step → Type 0
StepEnds first bound (go at st) = Rest first bound at
StepEnds first bound (exit o) = Ends o

-- The calls for the structures of one element return.
abbrev NestedEnds : Nested → Elems → Type 0
NestedEnds nested sub =
    (level len dst s : ℕ) (m : Mem) → 2 ≤ level → Ends (nested level len dst s sub m)

if-Ends : (c : Bool) (x y : Outcome) → Ends x → Ends y → Ends (if c then x else y)
if-Ends true x y h g = h
if-Ends false x y h g = g

module _ (first : Bool) (bound : ℕ) where
  if-StepEnds :
      (c : Bool) (x y : Step)
      → StepEnds first bound x
      → StepEnds first bound y
      → StepEnds first bound (if c then x else y)
  if-StepEnds true x y h g = h
  if-StepEnds false x y h g = g

  after_call-Ends :
      (st : EncodeVars) (next : Elems) (o : Outcome)
      → Rest first bound next
      → Ends o
      → StepEnds first bound (after_call st next o)
  after_call-Ends st next (done n m) h e = h
  after_call-Ends st next (failed errno m) h e = tt
  after_call-Ends st next past_table h e = e
  after_call-Ends st next out_of_fuel h e = e

struct_loop-Ends :
    (nested : Nested) (level room size : ℕ) (sub : Elems)
    → 2 ≤ level
    → NestedEnds nested sub
    → (n d s encoded : ℕ) (m : Mem)
    → Ends (encode_struct_loop nested level room size sub n d s encoded m)
unfolding encode_struct_loop
struct_loop-Ends nested level room size sub l w zero d s encoded m = tt
struct_loop-Ends nested level room size sub l w (suc n) d s encoded m =
    by_call (nested level (sub_u32 room encoded) d s sub m) refl
      (w level (sub_u32 room encoded) d s m l)
      (λ rc m'.
        struct_loop-Ends nested level room size sub l w n (d + rc) (s + size) (encoded + rc) m')
  where
    by_call :
        (o : Outcome)
        → nested level (sub_u32 room encoded) d s sub m ≡ o
        → Ends o
        → ((rc : ℕ) (m' : Mem)
            → Ends (
                encode_struct_loop nested level room size sub n
                  (d + rc)
                  (s + size)
                  (encoded + rc)
                  m'))
        → Ends (encode_struct_loop nested level room size sub (suc n) d s encoded m)
    by_call (done rc m') k e more = rw (k, encode_struct_loop) (more rc m')
    by_call (failed errno m') k e more = rw (k, encode_struct_loop) tt
    by_call past_table k e more = absurd e
    by_call out_of_fuel k e more = absurd e

string-Ends :
    (e : Info) (d : ℕ) (src : Mem) (s room level : ℕ) (m : Mem)
    → Ends (encode_string_elem e d src s room level m)
unfolding encode_string_elem
string-Ends e d src s room level m =
    if-Ends (ltb e.elem_len _) _ _ tt
      (if-Ends (level == 1) _ _ (if-Ends (ltb room _) _ _ tt tt) (if-Ends (ltb room _) _ _ tt tt))

module _ (first : Bool) (level : ℕ) (one : 1 ≤ level) (top : ltb 1 level ≡ false → first ≡ true)
    (len : ℕ) (src : Mem) (base : ℕ) (nested : Nested) where
  module _ (t : ℕ) (e : Info) (sub next : Elems) (st : EncodeVars) (ne : e.data_type ≢ eoti)
      (counted : e.data_type ≡ data_len → NotEnd next)
      (inner : e.data_type ≡ struct → IsEnded false 0 sub) (more : IsEnded first e.tlv_type next)
      (w : e.data_type ≡ struct → NestedEnds nested sub) where
    on : Rest first (rank next) next
    on = (e.tlv_type, more, omega arith)

    elem-Ends :
        (k : ElemType)
        → e.data_type ≡ k
        → StepEnds first (rank next) (encode_elem nested level len src base e sub next st)
    unfolding encode_elem encode_flag encode_data_len encode_basic encode_struct encode_string
        encode_struct_elem
    elem-Ends eoti k = absurd (ne k)
    elem-Ends opt_flag k =
        rw (k, encode_elem)
          (if-StepEnds first (rank next) (src (base + e.offset) % 256 == 0) _ _
            (skip-Rest first level t e sub next top ne (inr (ne, counted, inner, more))) on)
    elem-Ends data_len k =
        rw (k, encode_elem)
          (if-StepEnds first (rank next) (ltb len _) _ _ tt
            (elim (Bool-cases
              (read_into st.data_len_value src (base + e.offset) e.elem_size == 0)) [
                | inl b ↦ rw b (skip_next-Rest first level e.tlv_type next top (counted k) more)
                | inr b ↦ rw b on
              ]))
    elem-Ends struct k =
        rw (k, encode_elem)
          (after_call-Ends first (rank next) st next _ on (
            struct_loop-Ends nested (level + 1) (sub_u32 len st.encoded_bytes) e.elem_size sub
              (omega arith) (w k) st.data_len_value st.buf_dst (base + e.offset) 0 st.out))
    elem-Ends string k =
        rw (k, encode_elem)
          (after_call-Ends first (rank next) st next _ on (
            string-Ends e st.buf_dst src (base + e.offset) (sub_u32 len st.encoded_bytes) level
              st.out))
    elem-Ends _ k = rw (k, encode_elem) (if-StepEnds first (rank next) (ltb len _) _ _ tt on)

  module _ (loop : Elems → EncodeVars → Outcome) (bound : ℕ)
      (rest : (at : Elems) (st : EncodeVars) → Rest first bound at → Ends (loop at st)) where
    closed_step : ℕ → Step → Outcome
    closed_step t step = elim step [ go at st ↦ loop at (close_tlv level t st) | exit end ↦ end ]

    closed_step-Ends : (t : ℕ) (step : Step) → StepEnds first bound step → Ends (closed_step t step)
    unfolding closed_step
    closed_step-Ends t (go at st) h = rest at (close_tlv level t st) h
    closed_step-Ends t (exit end) h = h

    round_body : (e : Info) (sub next : Elems) (st : EncodeVars) → Outcome
    unfolding closed_step
    round_body e sub next st = elim (encode_len e st.data_len_value) [
      | none ↦ failed einval st.out
      | some n ↦
          closed_step e.tlv_type
            (encode_elem nested level len src base e sub next (record st { data_len_value = n }))
    ]

    pub round-Ends :
        (t : ℕ) (at : Elems) (st : EncodeVars)
        → IsEnded first t at
        → rank at ≤ suc bound
        → ((sub : Elems) → IsEnded false 0 sub → rank sub ≤ bound → NestedEnds nested sub)
        → Ends (encode_round nested loop level len src base at st)
    unfolding encode_round round_body closed_step
    round-Ends t stop st h le w = absurd h
    round-Ends t (elem e sub next) st (inl (k, apart)) le w = rw (k, encode_round) tt
    round-Ends t (elem e sub next) st (inr (ne, counted, inner, more)) le w =
        by_type e.data_type refl (by_len (encode_len e st.data_len_value) refl)
      where
        by_len :
            (o : Option ℕ) → encode_len e st.data_len_value ≡ o → Ends (round_body e sub next st)
        by_len none h = rw (h, round_body) tt
        by_len (some n) h =
            let nested_ends = λ (k : e.data_type ≡ struct). w sub (inner k) (omega arith) in
            let st' = record st { data_len_value = n } in
            let step =
              elem-Ends t e sub next st' ne counted inner more nested_ends e.data_type refl in
            rw (h, round_body)
              (closed_step-Ends e.tlv_type (encode_elem nested level len src base e sub next st')
                (weaken (encode_elem nested level len src base e sub next st') step))
          where
            weaken : (step : Step) → StepEnds first (rank next) step → StepEnds first bound step
            weaken (go at st) (t, h, low) = (t, h, omega arith)
            weaken (exit end) h = h

        by_type :
            (k : ElemType)
            → e.data_type ≡ k
            → Ends (round_body e sub next st)
            → Ends (encode_round nested loop level len src base (elem e sub next) st)
        by_type eoti k h = absurd (ne k)
        by_type _ k h = rw (k, encode_round) h

-- The loop returns with fuel for the elements that are left.
loop-Ends :
    (fuel : ℕ) (src : Mem) (first : Bool) (level len base t : ℕ)
    → 1 ≤ level
    → (ltb 1 level ≡ false → first ≡ true)
    → (at : Elems) (st : EncodeVars) → IsEnded first t at
    → rank at ≤ fuel
    → Ends (encode_loop fuel src level len base at st)
unfolding encode_loop encode_call
loop-Ends zero src first level len base t one top stop st h le = absurd h
loop-Ends zero src first level len base t one top (elem e sub next) st h le = absurd (omega arith)
loop-Ends (suc fuel) src first level len base t one top at st h le =
    round-Ends first level one top len src base (encode_call (encode_loop fuel src))
      (encode_loop fuel src level len base) fuel
      (λ at st (t, h, low). loop-Ends fuel src first level len base t one top at st h low) t at st h
      le
      (λ sub h low level' len' dst' s m two.
        call-Ends sub h low level' len' dst' s m two (λ e inner next st h low.
          loop-Ends fuel src false level' len' s 0 (omega arith)
            (λ b. absurd (ground (arith, b, two))) (elem e inner next) st h low))
  where
    call-Ends :
        (sub : Elems)
        → IsEnded false 0 sub
        → rank sub ≤ fuel
        → (level' len' dst' s : ℕ) (m : Mem) → 2 ≤ level'
        → ((e : Info) (inner next : Elems) (st : EncodeVars)
            → IsEnded false 0 (elem e inner next)
            → rank (elem e inner next) ≤ fuel
            → Ends (encode_loop fuel src level' len' s (elem e inner next) st))
        → Ends (encode_call (encode_loop fuel src) level' len' dst' s sub m)
    call-Ends stop h low level' len' dst' s m two run = tt
    call-Ends (elem e inner next) h low level' len' dst' s m two run =
        run e inner next (encode_start level' dst' m) h low

-- A call at any level.
pub any-Ends :
    (fuel : ℕ) (src : Mem) (first : Bool) (ei : Elems) (out_buf in_c_struct out_buf_len level t : ℕ)
    (out : Mem)
    → (level == 1) ≡ first
    → 1 ≤ level
    → IsEnded first t ei
    → rank ei ≤ fuel
    → Ends (qmi_encode fuel src ei out_buf in_c_struct out_buf_len level out)
unfolding qmi_encode encode_call
any-Ends fuel src first stop out_buf in_c_struct out_buf_len level t out l one h le = absurd h
any-Ends fuel src first (elem e sub next) out_buf in_c_struct out_buf_len level t out l one h le =
    loop-Ends fuel src first level out_buf_len in_c_struct t one
      (λ b. sym l ∙ ground (arith, b, one)) (elem e sub next) (encode_start level out_buf out) h le

-- For a table with an end element, where a length is followed by an element, each structure has a
-- table that ends too, and the end element has another TLV type than the element before it,
-- qmi_encode at the first level returns a length or an error with as many rounds of fuel as the
-- table and its inner tables have elements, and never goes past the end of a table.
pub encode-Ends :
    (fuel : ℕ) (src : Mem) (ei : Elems) (out_buf in_c_struct out_buf_len t : ℕ) (out : Mem)
    → IsEnded true t ei
    → rank ei ≤ fuel
    → Ends (qmi_encode fuel src ei out_buf in_c_struct out_buf_len 1 out)
encode-Ends fuel src ei out_buf in_c_struct out_buf_len t out h le =
    any-Ends fuel src true ei out_buf in_c_struct out_buf_len 1 t out refl (omega arith) h le
