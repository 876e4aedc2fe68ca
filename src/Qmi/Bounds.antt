-- ===== src/Qmi/Bounds.antt =====
-- Where `qmi_encode` of lib/qmi.c writes: the tables that it is safe for, and what one round of its
-- loop keeps.
pub mod Calls
pub mod Cases
pub mod Loop
pub mod Message
use qrtr.Base.{
  ℕ, zero, suc, ◌+◌, ◌-◌, ◌*◌, ◌%◌, ◌^◌, ◌≤◌, ◌<◌, ◌≡◌, ◌≢◌, ◌⊎◌, refl, sym, ap, ◌∙◌, inl, inr,
  Bool, true, false, ◌&&◌, ltb, leb, ◌==◌, if◌then◌else◌, arith, u32_mod, Bool-cases, lt_or_le,
}
use qrtr.Qmi.{
  Mem, memcpy, Info, data_len, struct, string, Elems, stop, elem, Outcome, done, failed, past_table,
  out_of_fuel, skip_loop, skip_to_next_elem,
}
use qrtr.Qmi.Memory.{memcpy_out}
use qrtr.Qmi.Encode.{EncodeVars, Step, go, exit, update_encode, tlv_header, closed_tlv, close_tlv}

-- The memories are the same outside of some addresses.
abbrev pub Agrees : Mem → Mem → ℕ → ℕ → Type 0
Agrees m m' low high = (a : ℕ) → (a < low) ⊎ (high ≤ a) → m' a ≡ m a

-- A call writes only into its part of the buffer, and reports no more bytes than that.
abbrev pub WritesWithin : Mem → ℕ → ℕ → Outcome → Type 0
WritesWithin out dst len (done n m) = (n ≤ len) × Agrees out m dst (dst + len)
WritesWithin out dst len (failed errno m) = Agrees out m dst (dst + len)
WritesWithin out dst len past_table = Unit {0}
WritesWithin out dst len out_of_fuel = Unit {0}

-- The sizes of an element are those of a C structure, a length fits the variable that it is read into,
-- a string is made of bytes, and the first level has no structures.
pub record Fits (flat : Bool) (e : Info) : Type 0 where
  pub total : e.elem_len * e.elem_size < 2 ^ 31
  pub single : e.elem_size < 2 ^ 31
  pub count : e.data_type ≡ data_len → e.elem_size ≤ 4
  pub chars : e.data_type ≡ string → e.elem_size ≡ 1
  pub plain : flat ≡ true → e.data_type ≢ struct

abbrev pub IsTable : Bool → Elems → Type 0
IsTable flat stop = Unit {0}
IsTable flat (elem e sub next) = Fits flat e × IsTable false sub × IsTable flat next

skip_loop-IsTable :
    (flat : Bool) (t : ℕ) (at : Elems) → IsTable flat at → IsTable flat (skip_loop t at)
unfolding skip_loop
skip_loop-IsTable flat t stop h = h
skip_loop-IsTable flat t (elem e sub next) (f, s, n) = elim (Bool-cases (t == e.tlv_type)) [
  | inl b ↦ rw b (skip_loop-IsTable flat e.tlv_type next n)
  | inr b ↦ rw b (f, s, n)
]

pub skip-IsTable :
    (flat : Bool) (level : ℕ) (at : Elems)
    → IsTable flat at
    → IsTable flat (skip_to_next_elem at level)
unfolding skip_to_next_elem
skip-IsTable flat level stop h = h
skip-IsTable flat level (elem e sub next) (f, s, n) = elim (Bool-cases (ltb 1 level)) [
  | inl b ↦ rw b n
  | inr b ↦ rw b (skip_loop-IsTable flat e.tlv_type next n)
]

pub Agrees-memcpy :
    (out m : Mem) (low high d : ℕ) (src : Mem) (s n : ℕ)
    → Agrees out m low high
    → low ≤ d
    → d + n ≤ high
    → Agrees out (memcpy m d src s n) low high
Agrees-memcpy out m low high d src s n h l r a (inl o) =
    memcpy_out m d src s n a (inl (omega arith)) ∙ h a (inl o)
Agrees-memcpy out m low high d src s n h l r a (inr o) =
    memcpy_out m d src s n a (inr (omega arith)) ∙ h a (inr o)

pub Agrees-inner :
    (out m m' : Mem) (low high l r : ℕ)
    → Agrees out m low high
    → Agrees m m' l r
    → low ≤ l
    → r ≤ high
    → Agrees out m' low high
Agrees-inner out m m' low high l r h g hl hr a (inl o) = g a (inl (omega arith)) ∙ h a (inl o)
Agrees-inner out m m' low high l r h g hl hr a (inr o) = g a (inr (omega arith)) ∙ h a (inr o)

-- The room for the header of a TLV.
abbrev pub header : Bool → ℕ
header true = 3
header false = 0

-- What holds between the rounds of the loop.
pub record Room (flat : Bool) (dst len : ℕ) (out : Mem) (st : EncodeVars) : Type 0 where
  pub placed : st.buf_dst ≡ dst + st.encoded_bytes + header flat
  pub fits : st.encoded_bytes ≤ len
  pub after : dst ≤ st.tlv_pointer
  pub before : st.tlv_pointer ≤ dst + st.encoded_bytes
  pub closing : st.encode_tlv ≡ true → st.encoded_bytes + header flat ≤ len
  pub agrees : Agrees out st.out dst (dst + len)

abbrev pub StepWithin : Bool → ℕ → ℕ → Mem → Step → Type 0
StepWithin flat dst len out (go at st) = IsTable flat at × Room flat dst len out st
StepWithin flat dst len out (exit o) = WritesWithin out dst len o

module _ (dst len : ℕ) (out : Mem) (small : len < 2 ^ 31) where
  -- An element of rc bytes was written.
  pub update-Room :
      (flat : Bool) (st : EncodeVars) (m : Mem) (rc : ℕ)
      → Room flat dst len out st
      → st.encoded_bytes + rc + header flat ≤ len
      → Agrees out m dst (dst + len)
      → Room flat dst len out (update_encode (record st { out = m }) rc)
  update-Room flat st m rc r h g =
      let placed = r.placed in
      let before = r.before in
      let fits = r.fits in
      let wraps : (st.encoded_bytes + rc) % u32_mod ≡ st.encoded_bytes + rc = omega arith in
      record {
        placed = rw wraps (omega arith);
        fits = rw wraps (omega arith);
        after = r.after;
        before = rw wraps (omega arith);
        closing = λ e. rw wraps (omega arith);
        agrees = g;
      }

  if-Room :
      (flat c : Bool) (x y : EncodeVars)
      → (c ≡ true → Room flat dst len out x)
      → Room flat dst len out y
      → Room flat dst len out (if c then x else y)
  if-Room flat true x y h g = h refl
  if-Room flat false x y h g = g

  -- The header of a TLV goes where room was left for it.
  header-Room :
      (t : ℕ) (st : EncodeVars)
      → st.encode_tlv ≡ true
      → Room true dst len out st
      → Room true dst len out (closed_tlv t st)
  header-Room t st e r =
      let placed = r.placed in
      let before = r.before in
      let room = r.closing e in
      let wraps : (st.encoded_bytes + 3) % u32_mod ≡ st.encoded_bytes + 3 = omega arith in
      record {
        placed = rw wraps (omega arith);
        fits = rw wraps room;
        after = omega arith;
        before = rw wraps (omega arith);
        closing = λ c. absurd (cc c);
        agrees =
            Agrees-memcpy out st.out dst (dst + len) st.tlv_pointer (tlv_header t st.tlv_len) 0 3
              r.agrees r.after (omega arith);
      }

  closed-Room :
      (flat : Bool) (level t : ℕ) (st : EncodeVars)
      → (level == 1) ≡ flat
      → Room flat dst len out st
      → (st.encode_tlv && level == 1) ≡ true
      → Room flat dst len out (closed_tlv t st)
  closed-Room false level t st l r c = absurd (ground (arith, c, l))
  closed-Room true level t st l r c = header-Room t st (ground (arith, c)) r

  pub close-Room :
      (flat : Bool) (level t : ℕ) (st : EncodeVars)
      → (level == 1) ≡ flat
      → Room flat dst len out st
      → Room flat dst len out (close_tlv level t st)
  unfolding close_tlv
  close-Room flat level t st l r =
      if-Room flat (st.encode_tlv && level == 1) (closed_tlv t st) st
        (closed-Room flat level t st l r) r
