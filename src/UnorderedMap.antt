-- ===== src/UnorderedMap.antt =====
-- `std::unordered_map` as the sources use it: an association list with one entry for a key.
-- The program never depends on the order of the entries but where it walks the whole map.
pub mod Laws
pub mod Contents
use cppami.Prelude.{Option, none, some, List, [], ◌∷◌, ite, map}

module _ {ℓ} {K V : Type ℓ} where
  abbrev pub keys : List (K × V) → List K
  keys = map (λ e. e.0)

module _ {ℓ} {K V : Type ℓ} (dec : Discrete K) where
  -- `find`; `none` is `end()`.
  unfoldable pub find : K → List (K × V) → Option V
  find k [] = none
  find k ((j, v) ∷ m) = ite (dec j k) (some v) (find k m)

  -- `m[k] = v`: the entry is replaced, or added.
  unfoldable pub assign : K → V → List (K × V) → List (K × V)
  assign k v [] = (k, v) ∷ []
  assign k v ((j, w) ∷ m) = ite (dec j k) ((j, v) ∷ m) ((j, w) ∷ assign k v m)

  -- `emplace`: an entry that is there stays.
  unfoldable pub emplace : K → V → List (K × V) → List (K × V)
  emplace k v [] = (k, v) ∷ []
  emplace k v ((j, w) ∷ m) = ite (dec j k) ((j, w) ∷ m) ((j, w) ∷ emplace k v m)

  -- `erase(k)`
  unfoldable pub erase : K → List (K × V) → List (K × V)
  erase k [] = []
  erase k ((j, w) ∷ m) = ite (dec j k) (erase k m) ((j, w) ∷ erase k m)
