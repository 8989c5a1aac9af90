-- ===== src/Text/Search.antt =====
-- Laws of `index_of`.
use mathlib.Core.Option
use native.Mathlib.Nat.{zero-add}
use mathlib.Core.List.{append-nil}
use mathlib.Core.Path.{subst}
use cppami.Prelude.{
  ℕ, zero, suc, ◌+◌, ◌≤◌, ◌≡◌, inl, inr, refl, ap, ◌∙◌, true, false, none, some, [], ◌∷◌, ◌++◌,
  arith, length, take, drop, take-append-drop, length-take-le, ◌<◌, Bool-cases, Option-cases,
  suc-add,
}
use cppami.Text.{Bytes, starts_with, index_of}

pub starts_with_split : (p s : Bytes) → starts_with p s ≡ true → p ++ drop (length p) s ≡ s
unfolding starts_with
starts_with_split [] s h = refl
starts_with_split (c ∷ p) [] h = cc
starts_with_split (c ∷ p) (d ∷ s) h = ground (arith, starts_with_split p s)

starts_with-append_self : (p s : Bytes) → starts_with p (p ++ s) ≡ true
unfolding starts_with
starts_with-append_self [] s = refl
starts_with-append_self (c ∷ p) s = ground (arith, starts_with-append_self p s)

-- What follows the first `length p` bytes does not matter.
starts_with-append :
    (p s t : Bytes) → length p ≤ length s → starts_with p (s ++ t) ≡ starts_with p s
unfolding starts_with
starts_with-append [] s t h = refl
starts_with-append (c ∷ p) [] t h = elim h [ ]
starts_with-append (c ∷ p) (d ∷ s) t h = ground (arith, starts_with-append p s t (omega arith))

starts_with-le : (p s : Bytes) → starts_with p s ≡ true → length p ≤ length s
unfolding starts_with
starts_with-le [] s h = omega arith
starts_with-le (c ∷ p) [] h = cc
starts_with-le (c ∷ p) (d ∷ s) h = ground (arith, starts_with-le p s)

-- The two ways in which a search of a non-empty text succeeds.
pub data Hit (p : Bytes) (c : ℕ) (s : Bytes) (i : ℕ) : Type 0 where
  here : starts_with p (c ∷ s) ≡ true → i ≡ 0 → Hit p c s i
  later : (j : ℕ) → starts_with p (c ∷ s) ≡ false → index_of p s ≡ some j → i ≡ suc j → Hit p c s i

pub index_of-Hit :
    (p : Bytes) (c : ℕ) (s : Bytes) (i : ℕ) → index_of p (c ∷ s) ≡ some i → Hit p c s i
unfolding index_of
index_of-Hit p c s i h = elim (Bool-cases (starts_with p (c ∷ s))) [
  | inl t ↦ here t (ground arith)
  | inr f ↦ elim (Option-cases (index_of p s)) [
    | inl e ↦ absurd (ground arith)
    | inr (j, e) ↦ later j f e (ground arith)
  ]
]

-- A search of a non-empty text fails if it fails at the first byte and behind it.
pub index_of_miss :
    (p : Bytes) (c : ℕ) (s : Bytes)
    → index_of p (c ∷ s) ≡ none
    → (starts_with p (c ∷ s) ≡ false) × (index_of p s ≡ none)
unfolding index_of
index_of_miss p c s h = ground arith

-- A hit lies inside the text, and the text splits around it.
pub index_of-le : (p s : Bytes) (i : ℕ) → index_of p s ≡ some i → i + length p ≤ length s
unfolding index_of
index_of-le p [] i h = ground (arith, starts_with-le p [])
index_of-le p (c ∷ s) i h = elim (index_of-Hit p c s i h) [
  | here t e ↦ omega (arith, starts_with-le p (c ∷ s) t, e)
  | later j f k e ↦ omega (arith, index_of-le p s j k, e)
]

drop-suc : (n m c : ℕ) (s : Bytes) → drop (suc n + m) (c ∷ s) ≡ drop (n + m) s
drop-suc n m c s = rw suc-add

pub index_of_split :
    (p s : Bytes) (i : ℕ) → index_of p s ≡ some i → take i s ++ (p ++ drop (i + length p) s) ≡ s
unfolding index_of starts_with
index_of_split [] [] i h = ground arith
index_of_split (c ∷ p) [] i h = cc
index_of_split p (c ∷ s) i h = elim (index_of-Hit p c s i h) [
  | here t e ↦ rw (e, zero-add) (starts_with_split p (c ∷ s) t)
  | later j f k e ↦ rw e (rw drop-suc (ap (◌∷◌ c) (index_of_split p s j k)))
]

index_of-nil : (s : Bytes) → index_of [] s ≡ some 0
unfolding index_of starts_with
index_of-nil [] = refl
index_of-nil (c ∷ s) = refl

-- A hit in a text is the hit in any longer text.
pub index_of-append_some :
    (p s t : Bytes) (i : ℕ) → index_of p s ≡ some i → index_of p (s ++ t) ≡ some i
unfolding index_of starts_with
index_of-append_some [] [] t i h = index_of-nil t ∙ h
index_of-append_some (c ∷ p) [] t i h = cc
index_of-append_some p (c ∷ s) t i h = elim (index_of-Hit p c s i h) [
  | here q e ↦ ground (arith, starts_with-append p (c ∷ s) t, starts_with-le p (c ∷ s) q)
  | later j f k e ↦ ground (
    arith,
    starts_with-append p (c ∷ s) t,
    index_of-le p (c ∷ s) i h,
    index_of-append_some p s t j k,
  )
]

length-eq_zero : (p : Bytes) → length p ≡ 0 → index_of p [] ≡ some 0
unfolding index_of starts_with
length-eq_zero [] h = refl
length-eq_zero (c ∷ p) h = absurd (omega arith)

-- After a miss in `s`, the search of `s ++ t` may start at any `k` that leaves less than the
-- length of `p` of `s` unread.
pub index_of_restart :
    (k : ℕ) (p s t : Bytes)
    → index_of p s ≡ none
    → k + length p ≤ suc (length s)
    → index_of p (s ++ t) ≡ Option.map (λ i. k + i) (index_of p (drop k (s ++ t)))
unfolding index_of
index_of_restart zero p s t h b = elim (Option-cases (index_of p (s ++ t))) [
  | inl e ↦ rw e
  | inr (i, e) ↦ rw (e, zero-add)
]
index_of_restart (suc k) p [] t h b = absurd (ground (arith, length-eq_zero p))
index_of_restart (suc k) p (c ∷ s) t h b = elim (Option-cases (index_of p (drop k (s ++ t)))) [
  | inl e ↦
      ground
        (arith, index_of_miss p c s h, starts_with-append p (c ∷ s) t, index_of_restart k p s t, e)
  | inr (i, e) ↦
      ground
        (arith, index_of_miss p c s h, starts_with-append p (c ∷ s) t, index_of_restart k p s t, e)
]

-- Nothing is found before the first hit.
pub index_of-take :
    (p s : Bytes) (i : ℕ) → 0 < length p → index_of p s ≡ some i → index_of p (take i s) ≡ none
index_of-take p s i pos h = elim (Option-cases (index_of p (take i s))) [
  | inl e ↦ e
  | inr (j, e) ↦
      let again = rw (take-append-drop i s) at (index_of-append_some p (take i s) (drop i s) j e) in
      absurd (ground (arith, again, index_of-le p (take i s) j e, length-take-le i s))
]

-- A text that ends with `p` holds `p`.
pub index_of_ends : (p x : Bytes) → (j : ℕ) × (index_of p (x ++ p) ≡ some j)
unfolding index_of
index_of_ends [] [] = (0, index_of-nil [])
index_of_ends (c ∷ p) [] = (
  0,
  ground (
    arith,
    subst (λ s. starts_with (c ∷ p) s ≡ true) (append-nil (c ∷ p))
        (starts_with-append_self (c ∷ p) []),
  ),
)
index_of_ends p (d ∷ x) =
    let (j, e) = index_of_ends p x in
    elim (Bool-cases (starts_with p (d ∷ (x ++ p)))) [
      | inl t ↦ (0, rw t)
      | inr f ↦ (suc j, rw (f, e))
    ]
