-- ===== src/Base/Bits.antt =====
-- `&` with a mask of ones, from the recursion over binary digits that the native operation has.
use Prim.Native.Nat.{
  ℕ, zero, suc, ◌+◌, ◌*◌, ◌/◌, ◌%◌, ◌^◌, ◌≤◌, ◌<◌, min, max, bit_and, bit_or, digits,
  bit_and-bitwise, bit_or-bitwise,
}
use mathlib.Core.Path.{◌≡◌, refl}
use native.Mathlib.Nat.{pow-suc}
use native.Mathlib.Omega.{arith}

-- The digits of a conjunction, with fuel.
abbrev conj : ℕ → ℕ → ℕ → ℕ
conj fuel a b = digits (λ _. zero) min fuel a b

conj_enough : (f g a b : ℕ) → a ≤ f → a ≤ g → conj f a b ≡ conj g a b
conj_enough (suc f) (suc g) (suc a) b p q =
    omega (arith, conj_enough f g (suc a / 2) (b / 2) (omega arith) (omega arith))
conj_enough zero g (suc a) b p q = absurd (omega arith)
conj_enough (suc f) zero (suc a) b p q = absurd (omega arith)
conj_enough zero zero zero b p q = refl
conj_enough zero (suc g) zero b p q = refl
conj_enough (suc f) zero zero b p q = refl
conj_enough (suc f) (suc g) zero b p q = refl

none_and : (b : ℕ) → bit_and 0 b ≡ 0
none_and b = bit_and-bitwise 0 b

-- The lowest digit, and the rest.
and_halves : (a b : ℕ) → bit_and a b ≡ bit_and (a / 2) (b / 2) * 2 + min (a % 2) (b % 2)
and_halves (suc a) b =
    let rest = conj_enough a (suc a / 2) (suc a / 2) (b / 2) (omega arith) (omega arith) in
    omega (arith, bit_and-bitwise (suc a) b, bit_and-bitwise (suc a / 2) (b / 2), rest)
and_halves zero b = omega (arith, none_and b, none_and (b / 2))

and_none_upto : (f a : ℕ) → a ≤ f → bit_and a 0 ≡ 0
and_none_upto f zero h = none_and 0
and_none_upto zero (suc a) h = absurd (omega arith)
and_none_upto (suc f) (suc a) h =
    omega (arith, and_halves (suc a) 0, and_none_upto f (suc a / 2) (omega arith))

pub bit_and-zero : (a : ℕ) → bit_and a 0 ≡ 0
bit_and-zero a = and_none_upto a a (omega arith)

-- The mask of k ones.
abbrev pub ones : ℕ → ℕ
ones zero = 0
ones (suc k) = ones k * 2 + 1

-- A mask that is wide enough changes nothing.
pub bit_and-ones : (k a : ℕ) → a < 2 ^ k → bit_and a (ones k) ≡ a
bit_and-ones zero a h = let e : a ≡ 0 = omega arith in omega (arith, bit_and-zero a)
bit_and-ones (suc k) a h =
    let wide : a < 2 ^ k * 2 = rw pow-suc at h in
    let half : ones (suc k) / 2 ≡ ones k = omega arith in
    let fits = bit_and-ones k (a / 2) (omega arith) in
    omega (arith, and_halves a (ones (suc k)), rw (← half) at fits)

-- The low byte.
and_three : (a : ℕ) → bit_and a 3 ≡ a % 4
and_three a = omega (arith, and_halves a 3, and_halves (a / 2) 1, bit_and-zero (a / 2 / 2))

and_fifteen : (a : ℕ) → bit_and a 15 ≡ a % 16
and_fifteen a = omega (arith, and_halves a 15, and_halves (a / 2) 7, and_three (a / 2 / 2))

and_63 : (a : ℕ) → bit_and a 63 ≡ a % 64
and_63 a = omega (arith, and_halves a 63, and_halves (a / 2) 31, and_fifteen (a / 2 / 2))

pub bit_and-255 : (a : ℕ) → bit_and a 255 ≡ a % 256
bit_and-255 a = omega (arith, and_halves a 255, and_halves (a / 2) 127, and_63 (a / 2 / 2))

-- The digits of a disjunction, with fuel.
abbrev disj : ℕ → ℕ → ℕ → ℕ
disj fuel a b = digits (λ b. b) max fuel a b

disj_enough : (f g a b : ℕ) → a ≤ f → a ≤ g → disj f a b ≡ disj g a b
disj_enough (suc f) (suc g) (suc a) b p q =
    omega (arith, disj_enough f g (suc a / 2) (b / 2) (omega arith) (omega arith))
disj_enough zero g (suc a) b p q = absurd (omega arith)
disj_enough (suc f) zero (suc a) b p q = absurd (omega arith)
disj_enough zero zero zero b p q = refl
disj_enough zero (suc g) zero b p q = refl
disj_enough (suc f) zero zero b p q = refl
disj_enough (suc f) (suc g) zero b p q = refl

none_or : (b : ℕ) → bit_or 0 b ≡ b
none_or b = bit_or-bitwise 0 b

or_halves : (a b : ℕ) → bit_or a b ≡ bit_or (a / 2) (b / 2) * 2 + max (a % 2) (b % 2)
or_halves (suc a) b =
    let rest = disj_enough a (suc a / 2) (suc a / 2) (b / 2) (omega arith) (omega arith) in
    omega (arith, bit_or-bitwise (suc a) b, bit_or-bitwise (suc a / 2) (b / 2), rest)
or_halves zero b = omega (arith, none_or b, none_or (b / 2))

or_none_upto : (f a : ℕ) → a ≤ f → bit_or a 0 ≡ a
or_none_upto f zero h = none_or 0
or_none_upto zero (suc a) h = absurd (omega arith)
or_none_upto (suc f) (suc a) h =
    omega (arith, or_halves (suc a) 0, or_none_upto f (suc a / 2) (omega arith))

or_double : (x b : ℕ) → bit_or x (b / 2) ≡ x + b / 2 → bit_or (x * 2) b ≡ x * 2 + b
or_double x b h =
    let half : x * 2 / 2 ≡ x = omega arith in
    let split : bit_or (x * 2) b ≡ bit_or x (b / 2) * 2 + max (x * 2 % 2) (b % 2) =
      rw half at (or_halves (x * 2) b) in
    omega (arith, split, h)

-- Two numbers whose digits do not overlap are added.
pub bit_or-shifted : (k a b : ℕ) → b < 2 ^ k → bit_or (a * 2 ^ k) b ≡ a * 2 ^ k + b
bit_or-shifted zero a b h =
    let e : b ≡ 0 = omega arith in
    rw e (omega (arith, or_none_upto (a * 2 ^ 0) (a * 2 ^ 0) (omega arith)))
bit_or-shifted (suc k) a b h =
    let wide : b < 2 ^ k * 2 = rw pow-suc at h in
    let twice : a * 2 ^ suc k ≡ a * 2 ^ k * 2 = rw (pow-suc 2 k) (omega arith) in
    rw twice (or_double (a * 2 ^ k) b (bit_or-shifted k a (b / 2) (omega arith)))
