-- ===== src/UnorderedMap/Laws.antt =====
-- What `find` sees after each change of a map.
use cppami.Prelude.{◌≡◌, refl, Option, none, some, List, [], ◌∷◌, ite, arith}
use cppami.UnorderedMap.{find, assign, emplace, erase}

-- The older answer, if there is one.
abbrev pub or_else {ℓ} : {A : Type ℓ} → Option A → Option A → Option A
or_else (some a) o = some a
or_else none o = o

module _ {ℓ} {K V : Type ℓ} (dec : Discrete K) where
  pub find-assign :
      (k q : K) (v : V) (m : List (K × V))
      → find dec q (assign dec k v m) ≡ ite (dec k q) (some v) (find dec q m)
  unfolding find assign
  find-assign k q v [] = refl
  find-assign k q v ((j, w) ∷ m) = ground (arith, find-assign k q v m)

  pub find-emplace :
      (k q : K) (v : V) (m : List (K × V))
      → find dec q (emplace dec k v m)
        ≡ ite (dec k q) (or_else (find dec q m) (some v)) (find dec q m)
  unfolding find emplace
  find-emplace k q v [] = ground arith
  find-emplace k q v ((j, w) ∷ m) = ground (arith, find-emplace k q v m)

  pub find-erase :
      (k q : K) (m : List (K × V)) → find dec q (erase dec k m) ≡ ite (dec k q) none (find dec q m)
  unfolding find erase
  find-erase k q [] = ground arith
  find-erase k q ((j, w) ∷ m) = ground (arith, find-erase k q m)

  -- For `grind`.
  pub ruleset map_laws = (arith, find-assign, find-emplace, find-erase)

  -- Every key has one entry.
  abbrev pub AreUnique : List (K × V) → Type ℓ
  AreUnique [] = Unit
  AreUnique ((k, v) ∷ m) = (find dec k m ≡ none) × AreUnique m

  pub emplace-AreUnique :
      (k : K) (v : V) (m : List (K × V)) → AreUnique m → AreUnique (emplace dec k v m)
  unfolding find emplace
  emplace-AreUnique k v [] u = (refl, tt)
  emplace-AreUnique k v ((j, w) ∷ m) u =
      elim (dec j k) as (λ d. AreUnique (ite d ((j, w) ∷ m) ((j, w) ∷ emplace dec k v m))) [
        | yes same ↦ u
        | no differ ↦
            (ground (arith, differ, u.0, find-emplace k j v m), emplace-AreUnique k v m u.1)
      ]

  pub erase-AreUnique : (k : K) (m : List (K × V)) → AreUnique m → AreUnique (erase dec k m)
  unfolding find erase
  erase-AreUnique k [] u = tt
  erase-AreUnique k ((j, w) ∷ m) u =
      elim (dec j k) as (λ d. AreUnique (ite d (erase dec k m) ((j, w) ∷ erase dec k m))) [
        | yes same ↦ erase-AreUnique k m u.1
        | no differ ↦ (ground (arith, differ, u.0, find-erase k j m), erase-AreUnique k m u.1)
      ]
