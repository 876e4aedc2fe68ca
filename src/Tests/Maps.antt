-- ===== src/Tests/Maps.antt =====
-- src/map.c and src/hash.c on a table of one entry.
use qrtr.Base.{ℕ, ◌≡◌, ◌⊎◌, refl, inr, false, none, some, [], ◌∷◌, arith}
use qrtr.Hash.{hash_u32_injective}
use qrtr.Map.{
  Map, item, done, no_memory, map_get, map_remove, map_reput, map_rehash, map_for_each, owners,
  deleted, empty, reput_loop, map_hash, hash_loop, map_store, map_find, find_loop,
}
use qrtr.Map.Probe.{Holds}
use qrtr.Map.Reput.{Updates, reput-Updates}
use qrtr.Map.Lookup.{map_get-Holds_iff}
use qrtr.Map.Iterate.{visit_all, map_for_each-visit_all}
use qrtr.Map.Abstract.{Erases, remove-Erases, Grows, rehash-Grows, reput_outcomes}
use qrtr.Tests.Data.{
  calloc, calloc-IsBounded, single, single-IsValid, single-IsDistinct, single-IsTombless,
}

abbrev one : Map ℕ
one = single 3 7

map_get-Holds_iff_example :
    ((map_get one 3 ≡ some 7) → Holds one 3 7) × (Holds one 3 7 → (map_get one 3 ≡ some 7))
map_get-Holds_iff_example = map_get-Holds_iff one 3 7 (single-IsValid 3 7) (single-IsDistinct 3 7)

-- The full table of one entry grows.
reput-Updates_example :
    (m' : Map ℕ) × (map_reput calloc one 4 (some 9) ≡ done (map_get one 4) m') × Updates one 4 9 m'
reput-Updates_example =
    reput-Updates calloc one 4 9 calloc-IsBounded (single-IsValid 3 7) (single-IsDistinct 3 7)
      (λ p h b g. single-IsTombless 3 7 p h) (inr refl)

map_for_each-visit_all_example :
    map_for_each (λ s. one) (λ a s. a ∷ s) [] ≡ visit_all (λ a s. a ∷ s) (owners one.table) []
map_for_each-visit_all_example =
    map_for_each-visit_all (λ s. one) (λ a s. a ∷ s) (λ a s. refl) [] refl

abbrev five : ℕ
five = 5

hash_u32_injective_example : five ≡ five
hash_u32_injective_example = hash_u32_injective 5 5 (omega arith) (omega arith) refl

-- A deleted entry stands before the item of key 3: the write takes it and the old item stays behind.
abbrev tomb : Map ℕ
tomb = record { size = 3; count = 1; table = deleted ∷ item 3 7 ∷ empty ∷ [] }

abbrev twice : Map ℕ
twice = record { size = 3; count = 2; table = item 3 9 ∷ item 3 7 ∷ empty ∷ [] }

tomb_reput : map_reput calloc tomb 3 (some 9) ≡ done none twice
unfolding map_reput reput_loop map_hash hash_loop map_store
tomb_reput = refl

twice_remove : map_get (map_remove twice 3).0 3 ≡ some 7
unfolding map_get map_remove map_find find_loop
twice_remove = refl

remove-Erases_example : Erases one 3 (map_remove one 3).0
remove-Erases_example = remove-Erases one 3 (single-IsValid 3 7) (single-IsDistinct 3 7)

rehash-Grows_example :
    (m' : Map ℕ) × (map_rehash calloc (reput_loop calloc 1) one ≡ done none m') × Grows one m'
rehash-Grows_example =
    rehash-Grows calloc 0 one calloc-IsBounded (single-IsValid 3 7) (single-IsDistinct 3 7) refl

reput_outcomes_example :
    ((m' : Map ℕ) × (map_reput (λ n. false) one 4 (some 9) ≡ done (map_get one 4) m')
      × Updates one 4 9 m')
    ⊎ ((map_reput (λ n. false) one 4 (some 9) ≡ no_memory one) × (one.count ≡ one.size))
reput_outcomes_example =
    reput_outcomes (λ n. false) one 4 9 (λ n e. absurd (cc e)) (single-IsValid 3 7)
      (single-IsDistinct 3 7) (λ p h b g. single-IsTombless 3 7 p h)
