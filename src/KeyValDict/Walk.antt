-- ===== src/KeyValDict/Walk.antt =====
-- The loop of `set_message` with the bytes behind `key_beg` in place of the buffer.
use cppami.KeyValDict.{KeyValDict, add_field, read_fields}
use cppami.Outcome.{Result, ok, err, undefined, out_of_fuel}
use cppami.Prelude.{
  ℕ, zero, suc, ◌+◌, ◌-◌, ◌≡◌, refl, ap, inl, inr, Bool-cases, Option-cases, none, some, arith, ltb,
  length, take, drop, drop-drop, drop-all,
}
use cppami.Text.{Bytes, index_of, starts_with, sep, eor}

unfoldable pub walk : ℕ → Bytes → KeyValDict → Result KeyValDict
walk zero r d = err out_of_fuel
walk (suc fuel) r d = elim (index_of sep r) [
  | none ↦ ok d
  | some i ↦ elim (index_of eor (drop (i + 2) r)) [
    | none ↦ err undefined
    | some j ↦
        walk fuel (drop (j + 2) (drop (i + 2) r)) (add_field d (take i r) (take j (drop (i + 2) r)))
  ]
]

shift : (beg i : ℕ) → beg + i + 2 ≡ beg + (i + 2)
shift beg i = omega arith

shift_twice : (beg i j : ℕ) → beg + i + 2 + j + 2 ≡ beg + (i + 2 + (j + 2))
shift_twice beg i j = omega arith

add-sub_left : (a b : ℕ) → a + b - a ≡ b
add-sub_left a b = omega arith

pub read_fields-walk :
    (fuel : ℕ) (buf : Bytes) (beg : ℕ) (d : KeyValDict)
    → read_fields fuel buf beg d ≡ walk fuel (drop beg buf) d
unfolding read_fields walk index_of starts_with
read_fields-walk zero buf beg d = refl
read_fields-walk (suc fuel) buf beg d = elim (Bool-cases (ltb beg (length buf))) [
  | inl t ↦ elim (Option-cases (index_of sep (drop beg buf))) [
    | inl e ↦ ground (arith, e)
    | inr (i, e) ↦
        let here = drop-drop (i + 2) beg buf in
        let behind = ap (λ (k : ℕ). drop k buf) (shift beg i) in
        elim (Option-cases (index_of eor (drop (i + 2) (drop beg buf)))) [
          | inl n ↦ ground (arith, t, e, n, here, behind)
          | inr (j, n) ↦ ground (
            arith,
            t,
            e,
            n,
            here,
            behind,
            drop-drop (j + 2) (i + 2) (drop beg buf),
            drop-drop (i + 2 + (j + 2)) beg buf,
            ap (λ (k : ℕ). drop k buf) (shift_twice beg i j),
            read_fields-walk fuel buf (beg + i + 2 + j + 2)
                (add_field d (take i (drop beg buf)) (take j (drop (i + 2) (drop beg buf)))),
          )
        ]
  ]
  | inr f ↦ ground (arith, drop-all beg buf)
]
