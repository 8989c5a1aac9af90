-- ===== src/Text/Pairs.antt =====
-- Searches for the two-byte separators `sep` and `eor`, which do not overlap themselves.
use cppami.Prelude.{
  ℕ, suc, ◌+◌, ◌≤◌, ◌≡◌, ◌≢◌, ◌⊎◌, inl, inr, refl, none, some, [], ◌∷◌, ◌++◌, arith, length,
  Bool-cases,
}
use cppami.Text.Search.{index_of_miss, index_of-Hit, here, later}
use cppami.Text.{Bytes, starts_with, index_of, sep, eor}

-- A key or value that holds no separator ends at the separator that follows it.
pub index_of-append_pair :
    (a b : ℕ) (k r : Bytes)
    → a ≢ b
    → index_of (a ∷ b ∷ []) k ≡ none
    → index_of (a ∷ b ∷ []) (k ++ (a ∷ b ∷ r)) ≡ some (length k)
unfolding index_of
index_of-append_pair a b [] r ne h = ground arith
index_of-append_pair a b (c ∷ []) r ne h = ground (arith, index_of_miss (a ∷ b ∷ []) c [] h)
index_of-append_pair a b (c ∷ d ∷ k) r ne h =
    ground (arith, index_of_miss (a ∷ b ∷ []) c (d ∷ k) h, index_of-append_pair a b (d ∷ k) r ne)

-- In a text that ends with `eor` a separator stands before that end.
pub index_of-sep_before : (x : Bytes) (i : ℕ) → index_of sep (x ++ eor) ≡ some i → i + 2 ≤ length x
unfolding index_of starts_with
index_of-sep_before [] i h = cc
index_of-sep_before (c ∷ []) i h = absurd (ground arith)
index_of-sep_before (c ∷ d ∷ x) i h = elim (index_of-Hit sep c (d ∷ (x ++ eor)) i h) [
  | here t e ↦ omega (arith, e)
  | later j f k e ↦ omega (arith, index_of-sep_before (d ∷ x) j k, e)
]

-- In such a text `eor` is found, either as that end or wholly before it.
pub index_of-eor_found :
    (x : Bytes)
    → (j : ℕ) × (index_of eor (x ++ eor) ≡ some j) × ((j ≡ length x) ⊎ (j + 2 ≤ length x))
unfolding index_of starts_with
index_of-eor_found [] = (0, refl, inl refl)
index_of-eor_found (c ∷ []) = elim (Bool-cases (starts_with eor (c ∷ eor))) [
  | inl t ↦ absurd (ground arith)
  | inr f ↦ (1, ground arith, inl refl)
]
index_of-eor_found (c ∷ d ∷ x) =
    let (j, h, b) = index_of-eor_found (d ∷ x) in
    elim (Bool-cases (starts_with eor (c ∷ d ∷ (x ++ eor)))) [
      | inl t ↦ (0, ground arith, inr (omega arith))
      | inr f ↦ (suc j, ground arith, ground arith)
    ]
