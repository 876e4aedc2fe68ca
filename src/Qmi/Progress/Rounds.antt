-- ===== src/Qmi/Progress/Rounds.antt =====
-- The loop of `qmi_decode` of lib/qmi.c returns, with as much fuel as the message has bytes and its table
-- has elements.
use qrtr.Base.{ℕ, zero, suc, ◌+◌, ◌^◌, ◌≤◌, ◌<◌, ◌≡◌, false, not, ◌&&◌, ltb, leb, ◌==◌, arith}
use qrtr.Qmi.{Mem, Elems, stop, elem, Outcome, done, failed, past_table, out_of_fuel, sub_u32}
use qrtr.Qmi.Decode.{DecodeVars, Step, go, exit, decode_one}
use qrtr.Qmi.Tables.{rank}
use qrtr.Qmi.Decode.{is_eoti, decode_start, decode_round, decode_loop}
use qrtr.Qmi.Progress.{IsWhole, span, Spans, if-Spans}
use qrtr.Qmi.Progress.Elem.{Fails, Advances}
use qrtr.Qmi.Progress.One.{one-Advances}

-- The end of a round.
abbrev pub continued : (Elems → DecodeVars → Outcome) → Step → Outcome
continued loop step = elim step [ go at' st' ↦ loop at' st' | exit end ↦ end ]

Spans-of_Fails : (bound : ℕ) (o : Outcome) → Fails o → Spans bound o
Spans-of_Fails bound (failed errno m) h = tt
Spans-of_Fails bound (done n m) h = absurd h
Spans-of_Fails bound past_table h = absurd h
Spans-of_Fails bound out_of_fuel h = absurd h

-- The loop in a structure.
pub inner-Spans :
    (fuel : ℕ) (src : Mem) (level len base : ℕ) (ei at : Elems) (st : DecodeVars) (bound : ℕ)
    → 2 ≤ level
    → IsWhole at
    → rank at ≤ fuel
    → st.decoded_bytes + span at ≤ bound
    → bound < 2 ^ 31
    → Spans bound (decode_loop fuel src level len base ei at st)
unfolding decode_loop decode_round
inner-Spans zero src level len base ei stop st bound two h low fits small = absurd h
inner-Spans zero src level len base ei (elem e sub next) st bound two h low fits small =
    absurd (omega arith)
inner-Spans (suc fuel) src level len base ei at st bound two h low fits small =
    let b : (level == 1) ≡ false = ground arith in
    let nested = λ (level' len s d : ℕ) (sub : Elems) (m : Mem).
      decode_loop fuel src level' len d sub sub (decode_start s m) in
    let st₁ = record st { tlv_len = sub_u32 len st.decoded_bytes } in
    let step =
      one-Advances nested level src base at st₁ h (omega (arith, fits, small)) (omega (arith, two))
        (λ sub k r p level' len' s d m two'.
          inner-Spans fuel src level' len' d sub sub (decode_start s m) (span sub) two' k
            (omega (arith, r, low)) (omega arith) (omega (arith, p, fits, small))) in
    rw b (
      if-Spans (not (ltb st.decoded_bytes len)) bound _ _ (omega (arith, fits)) (
        if-Spans (leb 2 level && is_eoti at) bound _ _ (omega (arith, fits)) (
          go_on (decode_one nested level src base at st₁) step (λ at' st' h' low' fits'.
            inner-Spans fuel src level len base ei at' st' bound two h' low' fits' small))))
  where
    go_on :
        (step : Step)
        → Advances at st.decoded_bytes step
        → ((at' : Elems) (st' : DecodeVars)
            → IsWhole at'
            → rank at' ≤ fuel
            → st'.decoded_bytes + span at' ≤ bound
            → Spans bound (decode_loop fuel src level len base ei at' st'))
        → Spans bound (continued (decode_loop fuel src level len base ei) step)
    go_on (go at' st') (h', r, d, p) rest =
        rest at' st' h' (omega (arith, r, low)) (omega (arith, p, fits))
    go_on (exit o) e rest = Spans-of_Fails bound o e
