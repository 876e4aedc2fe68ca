-- ===== src/Qmi/Progress/One.antt =====
-- A round behind the choice of its element in `qmi_decode` of lib/qmi.c: the steps of Elem.antt in order.
use qrtr.Base.{ℕ, ◌+◌, ◌^◌, ◌≤◌, ◌<◌, ◌≡◌, refl, inl, inr, Option, none, some, arith}
use qrtr.Qmi.{Mem, struct, Elems, stop, elem, einval, failed}
use qrtr.Qmi.Decode.{
  DecodeVars, Step, go, exit, Nested, decode_len, decode_flag, decode_data_len, decode_elem,
  decode_sized, decode_one,
}
use qrtr.Qmi.Inside.{decode_len-fits}
use qrtr.Qmi.Tables.{rank}
use qrtr.Qmi.Progress.{IsWhole, span, NestedSpans}
use qrtr.Qmi.Progress.Elem.{Moves, Advances, flag-Moves, length-Moves, elem-Advances}

-- The length of the array, and the element.
sized-Advances :
    (nested : Nested) (level : ℕ) (src : Mem) (base : ℕ) (at : Elems) (st : DecodeVars)
    → IsWhole at
    → st.decoded_bytes + span at < 2 ^ 31
    → 2 ≤ level + 1
    → ((sub : Elems)
        → IsWhole sub
        → rank sub < rank at
        → span sub ≤ span at
        → NestedSpans nested sub)
    → Advances at st.decoded_bytes (decode_sized nested level src base at st)
unfolding decode_sized
sized-Advances nested level src base stop st h small two w = absurd h
sized-Advances nested level src base (elem e sub next) st h small two w =
    by_len (decode_len e st.data_len_value) refl
  where
    inner : IsWhole (elem e sub next) → e.data_type ≡ struct → NestedSpans nested sub
    inner (inl k) z = absurd (cc (k, z))
    inner (inr (m, s, n)) z = w sub (s z) (omega arith) (omega arith)

    by_len :
        (o : Option ℕ)
        → decode_len e st.data_len_value ≡ o
        → Advances (elem e sub next) st.decoded_bytes (elim o [
          | none ↦ exit (failed einval st.out)
          | some n ↦ decode_elem nested level src base e sub next (record st { data_len_value = n })
        ])
    by_len none k = tt
    by_len (some n) k =
        elem-Advances nested level src base e sub next (record st { data_len_value = n }) h
          (decode_len-fits e st.data_len_value n k) small two (inner h)

-- Moves before an advance.
moved-Advances :
    (at at' : Elems) (decoded : ℕ) (st' : DecodeVars) (step : Step)
    → Moves at decoded (at', st')
    → Advances at' st'.decoded_bytes step
    → Advances at decoded step
moved-Advances at at' decoded st' (go b s) (h, r, d, p) (h', r', d', p') =
    (h', omega (arith, r, r'), omega (arith, d, d'), omega (arith, p, p'))
moved-Advances at at' decoded st' (exit o) m k = k

pub one-Advances :
    (nested : Nested) (level : ℕ) (src : Mem) (base : ℕ) (at : Elems) (st : DecodeVars)
    → IsWhole at
    → st.decoded_bytes + span at < 2 ^ 31
    → 2 ≤ level + 1
    → ((sub : Elems)
        → IsWhole sub
        → rank sub < rank at
        → span sub ≤ span at
        → NestedSpans nested sub)
    → Advances at st.decoded_bytes (decode_one nested level src base at st)
unfolding decode_one
one-Advances nested level src base at st h small two w =
    after_flag (decode_flag nested level src base at st) (flag-Moves nested level src base at st h)
  where
    after_length :
        (at₁ : Elems) (st₁ : DecodeVars) (p : Elems × DecodeVars)
        → Moves at st.decoded_bytes (at₁, st₁)
        → Moves at₁ st₁.decoded_bytes p
        → Advances at st.decoded_bytes
            (let (at₂, st₂) = p in decode_sized nested level src base at₂ st₂)
    after_length at₁ st₁ (at₂, st₂) (h₁, r₁, d₁, p₁) (h₂, r₂, d₂, p₂) =
        moved-Advances at at₂ st.decoded_bytes st₂ (decode_sized nested level src base at₂ st₂)
          (h₂, omega (arith, r₁, r₂), omega (arith, d₁, d₂), omega (arith, p₁, p₂))
          (sized-Advances nested level src base at₂ st₂ h₂ (omega (arith, p₁, p₂, small)) two
            (λ sub k r p. w sub k (omega (arith, r, r₁, r₂)) (omega (arith, p, p₁, p₂, d₁, d₂))))

    after_flag :
        (p : Elems × DecodeVars)
        → Moves at st.decoded_bytes p
        → Advances at st.decoded_bytes (
            let (at₁, st₁) = p in
            let (at₂, st₂) = decode_data_len nested level src base at₁ st₁ in
            decode_sized nested level src base at₂ st₂)
    after_flag (at₁, st₁) (h₁, r₁, d₁, p₁) =
        after_length at₁ st₁ (decode_data_len nested level src base at₁ st₁) (h₁, r₁, d₁, p₁)
          (length-Moves nested level src base at₁ st₁ h₁ (omega (arith, p₁, small)))
