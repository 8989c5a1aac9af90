-- ===== src/ScopeGuard.antt =====
-- include/c++ami/util/ScopeGuard.hpp, src/util/ScopeGuard.cpp. A callback is what calling it does,
-- as a list of effects; the callback that a moved-from guard is left with does nothing.
use cppami.Prelude.{ℕ, zero, suc, List, [], ◌∷◌, ◌++◌, ◌≡◌, refl, ap, ◌∙◌, map, concat}
use mathlib.Core.List.{append-nil}

pub record ScopeGuard {ℓ} (Effect : Type ℓ) : Type ℓ where
  pub callback : List Effect

module _ {ℓ} {Effect : Type ℓ} where
  -- `ScopeGuard(func)`
  abbrev pub guard : List Effect → ScopeGuard Effect
  guard func = record { callback = func }

  -- `~ScopeGuard`
  abbrev pub destroy : ScopeGuard Effect → List Effect
  destroy g = g.callback

  -- `left = std::move(right)`: `left` and `right` afterwards. The callback that `left` had is
  -- replaced, and does not run.
  unfoldable pub move_assign :
      ScopeGuard Effect → ScopeGuard Effect → ScopeGuard Effect × ScopeGuard Effect
  move_assign left right = (record { callback = right.callback }, record { callback = [] })

  -- `ScopeGuard(std::move(right))`: the members are empty before the assignment.
  unfoldable pub move_construct : ScopeGuard Effect → ScopeGuard Effect × ScopeGuard Effect
  unfolding move_assign
  move_construct right = move_assign (record { callback = [] }) right

  -- A guard handed on through `n` moves: the guards that there are then, the last one first.
  unfoldable pub hand_over : ℕ → ScopeGuard Effect → List (ScopeGuard Effect)
  unfolding move_construct
  hand_over zero g = g ∷ []
  hand_over (suc n) g = let (fresh, old) = move_construct g in hand_over n fresh ++ old ∷ []

  destroy-snoc :
      (gs : List (ScopeGuard Effect))
      → concat (map destroy (gs ++ record { callback = [] } ∷ [])) ≡ concat (map destroy gs)
  destroy-snoc [] = refl
  destroy-snoc (g ∷ gs) = ap (◌++◌ g.callback) (destroy-snoc gs)

  -- However often a guard is moved on, the destruction of all the guards runs its callback once.
  pub hand_over-once :
      (n : ℕ) (g : ScopeGuard Effect) → concat (map destroy (hand_over n g)) ≡ g.callback
  unfolding hand_over move_construct move_assign
  hand_over-once zero g = append-nil g.callback
  hand_over-once (suc n) g =
      destroy-snoc (hand_over n (record { callback = g.callback }))
      ∙ hand_over-once n (record { callback = g.callback })
