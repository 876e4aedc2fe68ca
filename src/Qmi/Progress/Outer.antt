-- ===== src/Qmi/Progress/Outer.antt =====
-- The loop of `qmi_decode` of lib/qmi.c over the TLVs of a message returns.
use qrtr.Base.{
  ℕ, zero, suc, ◌+◌, ◌-◌, ◌*◌, ◌%◌, ◌^◌, ◌≤◌, ◌<◌, ◌≡◌, ◌≢◌, refl, inl, inr, Bool, true, false, not,
  Option, none, some, ltb, ◌==◌, if◌then◌else◌, arith, u32_mod,
}
use qrtr.Qmi.{
  Mem, ElemType, eoti, Elems, stop, elem, einval, Outcome, done, failed, past_table, out_of_fuel,
  find_ei,
}
use qrtr.Qmi.Decode.{DecodeVars, Step, go, exit, Nested, update_decode, decode_one}
use qrtr.Qmi.Tables.{rank, Ends}
use qrtr.Qmi.Decode.{open_tlv, decode_start, decode_round, decode_loop}
use qrtr.Qmi.Message.{qmi_decode}
use qrtr.Qmi.Progress.Rounds.{continued, inner-Spans}
use qrtr.Qmi.Progress.{IsWhole, span, NestedSpans}
use qrtr.Qmi.Progress.Elem.{Fails, Advances}
use qrtr.Qmi.Progress.One.{one-Advances}

-- A part of a table that is no longer than the table.
abbrev Part : Elems → Option Elems → Type 0
Part ei none = Unit {0}
Part ei (some x) = IsWhole x × (rank x ≤ rank ei) × (span x ≤ span ei)

Part-more :
    (a b : Elems) (o : Option Elems) → rank a ≤ rank b → span a ≤ span b → Part a o → Part b o
Part-more a b none r s h = tt
Part-more a b (some x) r s (h, r', s') = (h, omega (arith, r, r'), omega (arith, s, s'))

find-Part : (ei : Elems) (t : ℕ) → IsWhole ei → Part ei (find_ei ei t)
unfolding find_ei
find-Part stop t h = absurd h
find-Part (elem e sub next) t h = by_type e.data_type _ (λ ne.
    by_test (e.tlv_type == t % 256) _ _ (h, omega arith, omega arith)
      (Part-more next (elem e sub next) _ (omega arith) (omega arith)
        (find-Part next t (rest ne h))))
  where
    by_type :
        (k : ElemType) (x : Option Elems)
        → (k ≢ eoti → Part (elem e sub next) x)
        → Part (elem e sub next) (elim k [ eoti ↦ none | _ ↦ x ])
    by_type eoti x h = tt
    by_type _ x h = h (λ z. cc z)

    by_test :
        (c : Bool) (x y : Option Elems)
        → Part (elem e sub next) x
        → Part (elem e sub next) y
        → Part (elem e sub next) (if c then x else y)
    by_test true x y h g = h
    by_test false x y h g = g

    rest : e.data_type ≢ eoti → IsWhole (elem e sub next) → IsWhole next
    rest ne (inl k) = absurd (ne k)
    rest ne (inr (m, s, n)) = n

Ends-of_Fails : (o : Outcome) → Fails o → Ends o
Ends-of_Fails (failed errno m) h = tt
Ends-of_Fails (done n m) h = absurd h
Ends-of_Fails past_table h = absurd h
Ends-of_Fails out_of_fuel h = absurd h

-- A round reads three bytes at least, or fails.
abbrev Reads : ℕ → Step → Type 0
Reads decoded (go at st) = decoded + 3 ≤ st.decoded_bytes
Reads decoded (exit o) = Fails o

open-Reads :
    (nested : Nested) (src : Mem) (base : ℕ) (ei at : Elems) (st : DecodeVars)
    → IsWhole ei
    → st.decoded_bytes + span ei < 2 ^ 30
    → ((sub : Elems)
        → IsWhole sub
        → rank sub < rank ei
        → span sub ≤ span ei
        → NestedSpans nested sub)
    → Reads st.decoded_bytes (open_tlv src ei at st (decode_one nested 1 src base))
unfolding open_tlv
open-Reads nested src base ei at st whole few w =
    by_find (find_ei ei (src st.buf_src % 256)) (find-Part ei (src st.buf_src % 256) whole)
  where
    T : ℕ
    T = src (st.buf_src + 1) % 256 + src (st.buf_src + 2) % 256 * 2 ^ 8

    three : (st.decoded_bytes + 3) % u32_mod ≡ st.decoded_bytes + 3
    three = omega (arith, few)

    opened : DecodeVars
    opened = record (update_decode st 3) { tlv_len = T }

    advanced :
        (at' : Elems) (step : Step)
        → Advances at' opened.decoded_bytes step
        → Reads st.decoded_bytes step
    advanced at' (go at₂ st₂) (h, r, d, p) = omega (arith, d, three)
    advanced at' (exit o) h = h

    skipped : st.decoded_bytes + 3 ≤ ((st.decoded_bytes + 3) % u32_mod + T) % u32_mod
    skipped = omega (arith, three, few)

    by_test :
        (c : Bool)
        → Reads st.decoded_bytes
            (if c then exit (failed einval st.out) else go at (update_decode opened T))
    by_test true = tt
    by_test false = skipped

    by_find :
        (o : Option Elems)
        → Part ei o
        → Reads st.decoded_bytes (elim o [
          | some e ↦ decode_one nested 1 src base e opened
          | none ↦
              if ltb (src st.buf_src % 256) 0x10
              then exit (failed einval st.out)
              else go at (update_decode opened T)
        ])
    by_find none h = by_test (ltb (src st.buf_src % 256) 0x10)
    by_find (some e) (h, r, s) = advanced e _ (
        one-Advances nested 1 src base e opened h (omega (arith, three, few, s)) (omega arith)
          (λ sub k r' s'. w sub k (omega (arith, r, r')) (omega (arith, s, s'))))

if-Ends : (c : Bool) (x y : Outcome) → Ends x → (c ≡ false → Ends y) → Ends (if c then x else y)
if-Ends true x y h g = h
if-Ends false x y h g = g refl

outer-Ends :
    (fuel : ℕ) (src : Mem) (len base : ℕ) (ei at : Elems) (st : DecodeVars)
    → IsWhole ei
    → (len - st.decoded_bytes) + rank ei ≤ fuel
    → len + span ei < 2 ^ 30
    → Ends (decode_loop fuel src 1 len base ei at st)
unfolding decode_loop decode_round
outer-Ends zero src len base stop at st h low short = absurd h
outer-Ends zero src len base (elem e sub next) at st h low short = absurd (omega arith)
outer-Ends (suc fuel) src len base ei at st h low short =
    let nested = λ (level' len s d : ℕ) (sub : Elems) (m : Mem).
      decode_loop fuel src level' len d sub sub (decode_start s m) in
    if-Ends (not (ltb st.decoded_bytes len)) _ _ tt (λ k.
      let more : st.decoded_bytes < len = ground (arith, k) in
      go_on more
        (λ at' st' r. outer-Ends fuel src len base ei at' st' h (omega (arith, r, low, more)) short)
        _
        (open-Reads nested src base ei at st h (omega (arith, more, short))
          (λ sub whole r s level' len' p d m two.
            inner-Spans fuel src level' len' d sub sub (decode_start p m) (span sub) two whole
              (omega (arith, r, low, more)) (omega arith) (omega (arith, s, short)))))
  where
    go_on :
        st.decoded_bytes < len
        → ((at' : Elems) (st' : DecodeVars)
            → st.decoded_bytes + 3 ≤ st'.decoded_bytes
            → Ends (decode_loop fuel src 1 len base ei at' st'))
        → (step : Step) → Reads st.decoded_bytes step
        → Ends (continued (decode_loop fuel src 1 len base ei) step)
    go_on more rest (go at' st') r = rest at' st' r
    go_on more rest (exit o) r = Ends-of_Fails o r

-- For a table that has an end element, and whose inner tables have one, qmi_decode returns: it
-- reports the number of bytes or an error, whatever bytes the message has, with as many rounds as
-- the message has bytes and the table elements, the message and what the table spans fewer than 2 ^
-- 30 bytes together.
pub decode-Ends :
    (fuel : ℕ) (src : Mem) (ei : Elems) (out_c_struct in_buf in_buf_len : ℕ) (out : Mem)
    → IsWhole ei
    → in_buf_len + rank ei ≤ fuel
    → in_buf_len + span ei < 2 ^ 30
    → Ends (qmi_decode fuel src ei out_c_struct in_buf in_buf_len 1 out)
unfolding qmi_decode
decode-Ends fuel src ei out_c_struct in_buf in_buf_len out h low short =
    outer-Ends fuel src in_buf_len out_c_struct ei ei (decode_start in_buf out) h
      (omega (arith, low)) short
