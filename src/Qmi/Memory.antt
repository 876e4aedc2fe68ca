-- ===== src/Qmi/Memory.antt =====
-- Copies and numbers in the memory of lib/qmi.c.
use qrtr.Base.{
  ℕ, zero, suc, ◌+◌, ◌-◌, ◌*◌, ◌%◌, ◌≤◌, ◌<◌, ◌≡◌, ◌⊎◌, refl, sym, ap, ◌∙◌, inl, inr, true, false,
  ltb, leb, arith, u32_mod, Bool-cases, lt_or_le,
}
use qrtr.Qmi.{Mem, memcpy, basic_loop, encode_basic_elem, decode_basic_elem}

pub Mem-ext : {m m' : Mem} → ((a : ℕ) → m a ≡ m' a) → m ≡ m'
Mem-ext h = λ i a. h a i

-- Inside and outside the copy.
pub memcpy_at :
    (dst : Mem) (d : ℕ) (src : Mem) (s n a : ℕ)
    → d ≤ a
    → a < d + n
    → memcpy dst d src s n a ≡ src (s + (a - d))
unfolding memcpy
memcpy_at dst d src s n a low high =
    let t : leb d a ≡ true = ground arith in
    let u : ltb a (d + n) ≡ true = ground arith in rw (t, u) refl

pub memcpy_out :
    (dst : Mem) (d : ℕ) (src : Mem) (s n a : ℕ)
    → (a < d) ⊎ (d + n ≤ a)
    → memcpy dst d src s n a ≡ dst a
unfolding memcpy
memcpy_out dst d src s n a (inl h) = let t : leb d a ≡ false = ground arith in rw t refl
memcpy_out dst d src s n a (inr h) = elim (Bool-cases (leb d a)) [
  | inl e ↦ let t : ltb a (d + n) ≡ false = ground arith in rw (e, t) refl
  | inr e ↦ rw e refl
]

pub memcpy_zero : (dst : Mem) (d : ℕ) (src : Mem) (s : ℕ) → memcpy dst d src s 0 ≡ dst
memcpy_zero dst d src s = Mem-ext (λ a. elim (lt_or_le a d) [
  | inl h ↦ memcpy_out dst d src s 0 a (inl h)
  | inr h ↦ memcpy_out dst d src s 0 a (inr (omega arith))
])

-- Two copies that follow one another are one.
memcpy_twice :
    (dst : Mem) (d : ℕ) (src : Mem) (s n k : ℕ)
    → memcpy (memcpy dst d src s n) (d + n) src (s + n) k ≡ memcpy dst d src s (n + k)
memcpy_twice dst d src s n k =
    let first = memcpy dst d src s n in
    Mem-ext (λ a. elim (lt_or_le a d) [
      | inl h ↦
          memcpy_out first (d + n) src (s + n) k a (inl (omega arith))
          ∙ memcpy_out dst d src s n a (inl h)
          ∙ sym (memcpy_out dst d src s (n + k) a (inl h))
      | inr low ↦ elim (lt_or_le a (d + n)) [
        | inl h ↦
            memcpy_out first (d + n) src (s + n) k a (inl h)
            ∙ memcpy_at dst d src s n a low h
            ∙ sym (memcpy_at dst d src s (n + k) a low (omega arith))
        | inr mid ↦ elim (lt_or_le a (d + n + k)) [
          | inl h ↦
              let same : s + n + (a - (d + n)) ≡ s + (a - d) = omega arith in
              memcpy_at first (d + n) src (s + n) k a mid h
              ∙ ap src same
              ∙ sym (memcpy_at dst d src s (n + k) a low (omega arith))
          | inr h ↦
              memcpy_out first (d + n) src (s + n) k a (inr h)
              ∙ memcpy_out dst d src s n a (inr mid)
              ∙ sym (memcpy_out dst d src s (n + k) a (inr (omega arith)))
        ]
      ]
    ])

-- The loop over the elements is one copy.
basic_loop_lem :
    (n size : ℕ) (dst : Mem) (d : ℕ) (src : Mem) (s rc : ℕ)
    → rc < u32_mod
    → basic_loop n size dst d src s rc ≡ (memcpy dst d src s (n * size), (rc + n * size) % u32_mod)
unfolding basic_loop
basic_loop_lem zero size dst d src s rc h =
    let e : (rc + 0) % u32_mod ≡ rc = omega arith in
    let none_left : 0 * size ≡ 0 = omega arith in rw (none_left, memcpy_zero dst d src s, e) refl
basic_loop_lem (suc n) size dst d src s rc h =
    let rest =
      basic_loop_lem n size (memcpy dst d src s size) (d + size) src (s + size)
        ((rc + size) % u32_mod) (omega arith) in
    let e : ((rc + size) % u32_mod + n * size) % u32_mod ≡ (rc + (size + n * size)) % u32_mod =
      omega arith in
    let more : suc n * size ≡ size + n * size = omega arith in
    rest ∙ rw (more, memcpy_twice dst d src s size (n * size), e) refl

pub encode_basic_elem_lem :
    (dst : Mem) (d : ℕ) (src : Mem) (s n size : ℕ)
    → n * size < u32_mod
    → encode_basic_elem dst d src s n size ≡ (memcpy dst d src s (n * size), n * size)
unfolding encode_basic_elem
encode_basic_elem_lem dst d src s n size h =
    let e : (0 + n * size) % u32_mod ≡ n * size = omega arith in
    basic_loop_lem n size dst d src s 0 (omega arith) ∙ rw e refl

pub decode_basic_elem_lem :
    (dst : Mem) (d : ℕ) (src : Mem) (s n size : ℕ)
    → n * size < u32_mod
    → decode_basic_elem dst d src s n size ≡ (memcpy dst d src s (n * size), n * size)
unfolding decode_basic_elem
decode_basic_elem_lem dst d src s n size h =
    let e : (0 + n * size) % u32_mod ≡ n * size = omega arith in
    basic_loop_lem n size dst d src s 0 (omega arith) ∙ rw e refl

-- Whatever the size, the loop is one copy, and the number of bytes wraps.
pub decode_basic_elem_wrap :
    (dst : Mem) (d : ℕ) (src : Mem) (s n size : ℕ)
    → decode_basic_elem dst d src s n size ≡ (memcpy dst d src s (n * size), (n * size) % u32_mod)
unfolding decode_basic_elem
decode_basic_elem_wrap dst d src s n size =
    let e : (0 + n * size) % u32_mod ≡ n * size % u32_mod = omega arith in
    basic_loop_lem n size dst d src s 0 (omega arith) ∙ rw e refl
