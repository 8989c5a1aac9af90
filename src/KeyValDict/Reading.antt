-- ===== src/KeyValDict/Reading.antt =====
-- The loop of `set_message` against the fields of the text.
use mathlib.Core.List.{append_assoc, append-nil}
use cppami.KeyValDict.Fields.{Field, render, IsField, AreFields, first_value}
use cppami.KeyValDict.Walk.{walk}
use cppami.KeyValDict.{KeyValDict, add_field, get_value}
use cppami.Outcome.{ok, err, undefined, out_of_fuel}
use cppami.Prelude.{
  ℕ, zero, suc, ◌+◌, ◌<◌, ◌≡◌, ◌≢◌, refl, sym, ◌∙◌, inl, inr, Option-cases, none, List, [], ◌∷◌,
  ◌++◌, arith, length, take, drop, take-append_left, drop-append_add, length-drop, drop-append_le,
}
use cppami.Text.Pairs.{index_of-append_pair, index_of-sep_before, index_of-eor_found}
use cppami.Text.Search.{index_of_split, index_of-take, index_of-le}
use cppami.Text.{Bytes, index_of, starts_with, sep, eor}
use cppami.UnorderedMap.Laws.{map_laws, or_else}
use cppami.UnorderedMap.{keys, find}

abbrev pub add_fields : KeyValDict → List Field → KeyValDict
add_fields d [] = d
add_fields d ((k, v) ∷ fs) = add_fields (add_field d k v) fs

pub ordered_keys-add_fields :
    (fs : List Field) (d : KeyValDict) → (add_fields d fs).ordered_keys ≡ d.ordered_keys ++ keys fs
unfolding add_field
ordered_keys-add_fields [] d = sym (append-nil d.ordered_keys)
ordered_keys-add_fields ((k, v) ∷ fs) d =
    ordered_keys-add_fields fs (add_field d k v) ∙ append_assoc d.ordered_keys (k ∷ []) (keys fs)

-- A value that is there stays; otherwise the first field with the key gives it.
pub get_value-add_fields :
    (fs : List Field) (d : KeyValDict) (key : Bytes)
    → get_value (add_fields d fs) key ≡ or_else (get_value d key) (first_value key fs)
unfolding add_field find
get_value-add_fields [] d key = ground arith
get_value-add_fields ((k, v) ∷ fs) d key =
    grind (map_laws, get_value-add_fields fs (add_field d k v) key)

-- One round of the loop, on a text that begins with a field.
walk_field :
    (fuel : ℕ) (k v r : Bytes) (d : KeyValDict)
    → IsField (k, v)
    → walk (suc fuel) (k ++ (sep ++ (v ++ (eor ++ r)))) d ≡ walk fuel r (add_field d k v)
unfolding walk
walk_field fuel k v r d (hk, hv) = ground (
  arith,
  index_of-append_pair b':' b' ' k (v ++ (eor ++ r)) (omega arith) hk,
  drop-append_add 2 k (sep ++ (v ++ (eor ++ r))),
  take-append_left k (sep ++ (v ++ (eor ++ r))),
  index_of-append_pair b'\r' b'\n' v r (omega arith) hv,
  drop-append_add 2 v (eor ++ r),
  take-append_left v (eor ++ r),
)

-- The loop reads fields to their end.
pub walk-render :
    (fuel : ℕ) (fs : List Field) (tail : Bytes) (d : KeyValDict)
    → AreFields fs
    → index_of sep tail ≡ none
    → length fs < fuel
    → walk fuel (render fs ++ tail) d ≡ ok (add_fields d fs)
walk-render zero fs tail d h t b = absurd (omega arith)
walk-render (suc fuel) [] tail d h t b = unfold walk in rw (t, walk)
walk-render (suc fuel) ((k, v) ∷ fs) tail d h t b = simp append_assoc (
    walk_field fuel k v (render fs ++ tail) d h.0
    ∙ walk-render fuel fs tail (add_field d k v) h.1 t (omega arith))

join_field :
    (k v : Bytes) {r : Bytes} (after rest : Bytes) (fs : List Field) (tail : Bytes)
    → r ≡ k ++ (sep ++ after)
    → after ≡ v ++ (eor ++ rest)
    → rest ≡ render fs ++ tail
    → r ≡ render ((k, v) ∷ fs) ++ tail
join_field k v after rest fs tail p q e = rw (p, q, e) (simp append_assoc)

-- Whatever the loop reads is fields, and a rest with no separator.
pub walk_inv :
    (fuel : ℕ) (r : Bytes) (d d' : KeyValDict)
    → walk fuel r d ≡ ok d'
    → (fs : List Field) × (tail : Bytes) × (r ≡ render fs ++ tail)
      × AreFields fs
      × (index_of sep tail ≡ none)
      × (d' ≡ add_fields d fs)
unfolding walk
walk_inv zero r d d' h = cc
walk_inv (suc fuel) r d d' h = elim (Option-cases (index_of sep r)) [
  | inl e ↦ ([], r, refl, tt, e, ground arith)
  | inr (i, e) ↦ elim (Option-cases (index_of eor (drop (i + 2) r))) [
    | inl n ↦ absurd (ground arith)
    | inr (j, n) ↦
        let after = drop (i + 2) r in
        let (fs, tail, split, fields, rest, made) =
          walk_inv fuel (drop (j + 2) after) (add_field d (take i r) (take j after)) d'
            (ground arith) in
        (
          (take i r, take j after) ∷ fs,
          tail,
          join_field (take i r) (take j after) after _ fs tail (sym (index_of_split sep r i e))
              (sym (index_of_split eor after j n)) split,
          (
            (index_of-take sep r i (omega arith) e, index_of-take eor after j (omega arith) n),
            fields,
          ),
          rest,
          made,
        )
  ]
]

walk-nil : (fuel : ℕ) (d : KeyValDict) → 0 < fuel → walk fuel [] d ≡ ok d
unfolding walk index_of starts_with
walk-nil zero d h = absurd (omega arith)
walk-nil (suc fuel) d h = refl

-- On a text that ends with a line break no round runs out of the buffer.
pub walk-total :
    (fuel : ℕ) (x : Bytes) (d : KeyValDict)
    → length x < fuel
    → (d' : KeyValDict) × (walk fuel (x ++ eor) d ≡ ok d')
unfolding walk
walk-total zero x d h = absurd (omega arith)
walk-total (suc fuel) x d h = elim (Option-cases (index_of sep (x ++ eor))) [
  | inl e ↦ (d, ground (arith, e))
  | inr (i, e) ↦
      let inside = index_of-sep_before x i e in
      let x' = drop (i + 2) x in
      let after = drop-append_le (i + 2) x eor inside in
      let (j, n, place) = index_of-eor_found x' in
      let d'' = add_field d (take i (x ++ eor)) (take j (x' ++ eor)) in
      elim place [
        | inl end ↦
            (d'', ground (arith, e, n, after, drop-append_add 2 x' eor, walk-nil fuel d'', inside))
        | inr before ↦
            let (d', read) =
              walk-total fuel (drop (j + 2) x') d''
                (omega (arith, length-drop (j + 2) x', length-drop (i + 2) x)) in
            (d', ground (arith, e, n, after, drop-append_le (j + 2) x' eor before, read))
      ]
]

-- Each round reads some of the text, so more rounds than bytes are never used up.
pub walk-bounded :
    (fuel : ℕ) (r : Bytes) (d : KeyValDict) → length r < fuel → walk fuel r d ≢ err out_of_fuel
unfolding walk
walk-bounded zero r d h = absurd (omega arith)
walk-bounded (suc fuel) r d h = elim (Option-cases (index_of sep r)) [
  | inl e ↦ ground (arith, e)
  | inr (i, e) ↦ elim (Option-cases (index_of eor (drop (i + 2) r))) [
    | inl n ↦ ground (arith, e, n)
    | inr (j, n) ↦
        let after = drop (i + 2) r in
        ground (
          arith,
          e,
          n,
          index_of-le sep r i e,
          length-drop (i + 2) r,
          length-drop (j + 2) after,
          walk-bounded fuel (drop (j + 2) after) (add_field d (take i r) (take j after)),
        )
  ]
]

pub walk_overrun :
    (fuel : ℕ) (fs : List Field) (k v : Bytes) (d : KeyValDict)
    → AreFields fs
    → IsField (k, v)
    → length fs < fuel
    → walk fuel (render fs ++ (k ++ (sep ++ v))) d ≡ err undefined
unfolding walk
walk_overrun zero fs k v d h l b = absurd (omega arith)
walk_overrun (suc fuel) [] k v d h (hk, hv) b =
    ground
      (arith, index_of-append_pair b':' b' ' k v (omega arith) hk, drop-append_add 2 k (sep ++ v))
walk_overrun (suc fuel) ((q, w) ∷ fs) k v d h l b = simp append_assoc (
    walk_field fuel q w (render fs ++ (k ++ (sep ++ v))) d h.0
    ∙ walk_overrun fuel fs k v (add_field d q w) h.1 l (omega arith))
