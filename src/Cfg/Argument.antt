-- ===== src/Cfg/Argument.antt =====
-- The argument of src/cfg.c.
use qrtr.Base.{
  ℕ, ◌%◌, ◌<◌, ◌≡◌, ◌≢◌, refl, ap, Bool, true, false, not, ◌||◌, List, [], ◌∷◌, leb, if◌then◌else◌,
  u32_mod, arith, inl, inr, Bool-cases,
}
use qrtr.System.{Run, ran, left, usage, failed, dormant, parent, null_write, Text, Headers, Kernel}
use qrtr.System.Laws.{IsKernel}
use qrtr.Addr.{qrtr_set_address}
use qrtr.Addr.Sets.{set_address-Sets}
use qrtr.Cfg.{is_empty, uint_max, is_wrong}

-- A text that `strtoul` reads as a number to its end.
pub record Reads (strtoul : Text → ℕ × Text) (text : Text) (n : ℕ) : Type 0 where
  pub number : strtoul text ≡ (n, [])
  pub small : n < uint_max

by_empty : (t : Text) → is_empty t ≡ true → t ≡ []
by_empty [] h = cc h
by_empty (c ∷ cs) h = absurd (cc h)

by_tests : (a b c : Bool) → (a || not b || c) ≡ false → (b ≡ true) × (c ≡ false)
by_tests true b c h = absurd (cc h)
by_tests false false c h = absurd (cc h)
by_tests false true c h = (refl, h)

pub Reads-of_right :
    (strtoul : Text → ℕ × Text) (tested text : Text)
    → is_wrong tested (strtoul text) ≡ false
    → Reads strtoul text (strtoul text).0
Reads-of_right strtoul tested text h = by_read (strtoul text) refl h
  where
    by_read :
        (read : ℕ × Text)
        → strtoul text ≡ read
        → is_wrong tested read ≡ false
        → Reads strtoul text read.0
    by_read (n, ep) e w =
        let (full, small) = by_tests (is_empty tested) (is_empty ep) (leb uint_max n) w in
        record {
          number = rw e (ap (λ t. (n, t)) (by_empty ep full));
          small = ground (arith, small);
        }

module _ {K : Type 0} (h : Headers) (kernel : Kernel K) (current : K → ℕ)
    (laws : IsKernel h kernel current) (strtoul : Text → ℕ × Text) where
  -- Where an argument is read and set.
  pub argument-Sets :
      (tested text : Text) (k k' : K)
      → (if is_wrong tested (strtoul text)
          then left usage
          else qrtr_set_address h kernel ((strtoul text).0 % u32_mod) k)
        ≡ ran k'
      → (is_wrong tested (strtoul text) ≡ false) × Reads strtoul text (current k')
  argument-Sets tested text k k' r = elim (Bool-cases (is_wrong tested (strtoul text))) [
    | inl b ↦ absurd (cc (rw b at r))
    | inr b ↦
        let reads = Reads-of_right strtoul tested text b in
        let set =
          set_address-Sets h kernel current laws ((strtoul text).0 % u32_mod) (omega arith) k k'
            (rw b at r) in
        let narrow : (strtoul text).0 % u32_mod ≡ (strtoul text).0 = omega (arith, reads.small) in
        (b, rw (set, narrow) reads)
  ]

  -- How the tool ends: it has set the number of its one argument, it was not given one argument that
  -- is a number, or it was and a call failed.
  abbrev pub Outcome : List Text → Run K → Type 0
  Outcome argv (ran k) =
      (name : Text) × (arg : Text) × (argv ≡ name ∷ arg ∷ [])
      × (arg ≢ [])
      × Reads strtoul arg (current k)
  Outcome argv (left usage) =
      (name arg : Text) (n : ℕ) → argv ≡ name ∷ arg ∷ [] → arg ≢ [] → Reads strtoul arg n → ⊥
  Outcome argv (left failed) =
      (name : Text) × (arg : Text) × (n : ℕ) × (argv ≡ name ∷ arg ∷ [])
      × (arg ≢ [])
      × Reads strtoul arg n
  Outcome argv (left dormant) = ⊥
  Outcome argv (left parent) = ⊥
  Outcome argv (left null_write) = ⊥
