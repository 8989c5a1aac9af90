-- ===== src/UnorderedMap/Contents.antt =====
-- Two maps with the same contents have the same entries, in whatever order they keep them.
use mathlib.Core.List.{Permᴰ}
use mathlib.Core.List as List
use mathlib.Core.Path.{ap₂}
use cppami.Prelude.{◌≡◌, refl, sym, ap, ◌∙◌, none, some, List, [], ◌∷◌, ite, map, arith}
use cppami.UnorderedMap.{find, erase}
use cppami.UnorderedMap.Laws.{map_laws, AreUnique, erase-AreUnique}

some_inj {ℓ} : {A : Type ℓ} {x y : A} → some x ≡ some y → x ≡ y
some_inj h = cc

pub map-Permᴰ {ℓ κ} :
    {A : Type ℓ} {B : Type κ} (f : A → B) {xs ys : List A}
    → Permᴰ xs ys
    → Permᴰ (map f xs) (map f ys)
map-Permᴰ f List.Permᴰ.nil = List.Permᴰ.nil
map-Permᴰ f (List.Permᴰ.cons e p) = List.Permᴰ.cons (ap f e) (map-Permᴰ f p)
map-Permᴰ f (List.Permᴰ.swap e g) = List.Permᴰ.swap (ap f e) (ap f g)
map-Permᴰ f (List.Permᴰ.trans p q) = List.Permᴰ.trans (map-Permᴰ f p) (map-Permᴰ f q)

module _ {ℓ} {K V : Type ℓ} (dec : Discrete K) where
  abbrev pub SameContents : List (K × V) → List (K × V) → Type ℓ
  SameContents m n = (k : K) → find dec k m ≡ find dec k n

  pub erase-absent : (k : K) (m : List (K × V)) → find dec k m ≡ none → erase dec k m ≡ m
  unfolding find erase
  erase-absent k [] h = refl
  erase-absent k ((j, w) ∷ m) h = ground (arith, h, erase-absent k m)

  -- An entry can be taken to the front.
  erase-Permᴰ :
      (k : K) (v : V) (m : List (K × V))
      → AreUnique dec m
      → find dec k m ≡ some v
      → Permᴰ m ((k, v) ∷ erase dec k m)
  unfolding find erase
  erase-Permᴰ k v [] u h = cc
  erase-Permᴰ k v ((j, w) ∷ m) u h =
      (elim (dec j k)
          as (λ d.
            ite d (some w) (find dec k m) ≡ some v
            → Permᴰ ((j, w) ∷ m) ((k, v) ∷ ite d (erase dec k m) ((j, w) ∷ erase dec k m))) [
              | yes same ↦ λ e.
                  let gone = erase-absent k m (ap (λ q. find dec q m) (sym same) ∙ u.0) in
                  List.Permᴰ.cons (ap₂ (λ a b. (a, b)) same (some_inj e))
                    (rw gone (List.Permᴰ.refl m))
              | no other ↦ λ e.
                  List.Permᴰ.trans (List.Permᴰ.cons refl (erase-Permᴰ k v m u.1 e))
                    (List.Permᴰ.swap refl refl)
            ])
        h

  find-head : (k : K) (v : V) (m : List (K × V)) → find dec k ((k, v) ∷ m) ≡ some v
  unfolding find
  find-head k v m = ground arith

  find-behind :
      (k : K) (v : V) (m n : List (K × V))
      → AreUnique dec ((k, v) ∷ m)
      → SameContents ((k, v) ∷ m) n
      → SameContents m (erase dec k n)
  unfolding find
  find-behind k v m n u same q = elim (dec k q) [
    | yes here ↦ grind (map_laws, here, u.0)
    | no other ↦ grind (map_laws, other, same q)
  ]

  pub SameContents-Permᴰ :
      (m n : List (K × V)) → AreUnique dec m → AreUnique dec n → SameContents m n → Permᴰ m n
  unfolding find
  SameContents-Permᴰ [] [] u w same = List.Permᴰ.nil
  SameContents-Permᴰ [] ((k, v) ∷ n) u w same = let there = same k ∙ find-head k v n in cc
  SameContents-Permᴰ ((k, v) ∷ m) n u w same =
      let there = sym (same k) ∙ find-head k v m in
      List.Permᴰ.trans
        (List.Permᴰ.cons refl (
          SameContents-Permᴰ m (erase dec k n) u.1 (erase-AreUnique dec k n w)
            (find-behind k v m n u same)))
        (List.Permᴰ.symm (erase-Permᴰ k v n w there))
