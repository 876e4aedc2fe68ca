-- ===== src/Hash.antt =====
-- src/hash.c: the hash functions. `unsigned int` is 32 bits wide, a pointer 64.
use Prim.Native.Nat.{bit_xor}
use qrtr.Base.{ℕ, ◌*◌, ◌/◌, ◌%◌, ◌^◌, ◌<◌, ◌≡◌, sym, ap, ◌∙◌, List, [], ◌∷◌, arith, u32_mod, length}

-- The loop of `hash_mem`, over the bytes that are left.
hash_bytes : ℕ → List ℕ → ℕ
hash_bytes h [] = h
hash_bytes h (b ∷ bs) = hash_bytes (bit_xor (bit_xor (h / 2 ^ 27) ((h * 2 ^ 5) % u32_mod)) b) bs

unfoldable pub hash_mem : List ℕ → ℕ
unfolding hash_bytes
hash_mem bytes = hash_bytes (length bytes % u32_mod) bytes

-- The low 32 bits of the product are the same for either width of `unsigned long`.
unfoldable pub hash_u32 : ℕ → ℕ
hash_u32 value = (value * 2654435761) % u32_mod

unfoldable pub hash_u64 : ℕ → ℕ
unfolding hash_u32
hash_u64 value = bit_xor (hash_u32 (value % 2 ^ 32)) (hash_u32 (value / 2 ^ 32 % u32_mod))

unfoldable pub hash_pointer : ℕ → ℕ
unfolding hash_u64
hash_pointer value = hash_u64 value

pub hash_u32-lt : (v : ℕ) → hash_u32 v < u32_mod
unfolding hash_u32
hash_u32-lt v = omega arith

-- Multiplying by the inverse of the odd multiplier takes a hash back to its word.
pub hash_u32_inverse : (v : ℕ) → v < u32_mod → (hash_u32 v * 244002641) % u32_mod ≡ v
unfolding hash_u32
hash_u32_inverse v h = omega arith

-- Two 32-bit words with the same hash_u32 are equal.
pub hash_u32_injective : (a b : ℕ) → a < u32_mod → b < u32_mod → hash_u32 a ≡ hash_u32 b → a ≡ b
hash_u32_injective a b ha hb e =
    sym (hash_u32_inverse a ha) ∙ ap (λ h. (h * 244002641) % u32_mod) e ∙ hash_u32_inverse b hb
