-- ===== src/KeyValDict/Access.antt =====
-- Reading and writing the values of a dictionary.
use cppami.KeyValDict.Fields.{Field, first_value}
use cppami.KeyValDict.Message.{set_message_inv}
use cppami.KeyValDict.Printing.{to_string-ext}
use cppami.KeyValDict.{
  KeyValDict, from_keys, get_value, has_key, contains, or_empty, at, at_const, set_value,
  set_message, to_string,
}
use cppami.Outcome.{ok, err, unknown_key, map_ok}
use cppami.Prelude.{
  ◌⊎◌, ◌≡◌, refl, sym, ap, ◌∙◌, inl, inr, true, false, some, List, [], ◌∷◌, ite, arith, Bool-cases,
}
use cppami.Text.{Bytes, bytes_discrete}
use cppami.UnorderedMap.Laws.{map_laws, find-assign}
use cppami.UnorderedMap
use cppami.UnorderedMap.{keys, find}

-- Every key with a value is one of the keys.
abbrev pub IsValid : KeyValDict → Type 0
IsValid d = (key v : Bytes) → get_value d key ≡ some v → has_key d key ≡ true

-- `set_value` refuses a key that the dictionary does not have. On one that it has, only the value
-- of that key changes.
pub set_value_lem :
    (d : KeyValDict) (key val : Bytes)
    → ((has_key d key ≡ false) × (set_value d key val ≡ err (unknown_key key)))
      ⊎ ((d' : KeyValDict) × (has_key d key ≡ true)
          × (set_value d key val ≡ ok d')
          × (d'.ordered_keys ≡ d.ordered_keys)
          × ((q : Bytes) → get_value d' q ≡ ite (bytes_discrete key q) (some val) (get_value d q)))
unfolding set_value
set_value_lem d key val = elim (Bool-cases (has_key d key)) [
  | inl h ↦ inr (
    record d { values = UnorderedMap.assign bytes_discrete key val d.values },
    h,
    rw h,
    refl,
    λ q. find-assign bytes_discrete key q val d.values,
  )
  | inr h ↦ inl (h, rw h)
]

set_value-IsValid :
    (d : KeyValDict) (key val : Bytes) (d' : KeyValDict)
    → set_value d key val ≡ ok d'
    → IsValid d
    → IsValid d'
unfolding set_value
set_value-IsValid d key val d' h valid q v e = grind (map_laws, valid q v)

emplace_empty :
    (key k : Bytes) (m : List Field)
    → or_empty (find bytes_discrete k m)
      ≡ or_empty (find bytes_discrete k (UnorderedMap.emplace bytes_discrete key [] m))
unfolding or_empty
emplace_empty key k m = grind map_laws

-- Reading through the non-const `operator[]` gives what the const one gives, and fails where it
-- fails. It may add an empty value, which `to_string` does not show.
at-at_const :
    (d : KeyValDict) (key : Bytes)
    → (map_ok (λ r. r.0) (at d key) ≡ at_const d key)
      × (map_ok (λ r. to_string r.1) (at d key) ≡ map_ok (λ _. to_string d) (at_const d key))
unfolding at at_const
at-at_const d key = elim (Bool-cases (has_key d key)) [
  | inl h ↦ (rw h, rw h (ap ok (sym (to_string-ext d _ refl (λ k. emplace_empty key k d.values)))))
  | inr h ↦ (rw h, rw h)
]

at-IsValid :
    (d : KeyValDict) (key : Bytes) (val : Bytes) (d' : KeyValDict)
    → at d key ≡ ok (val, d')
    → IsValid d
    → IsValid d'
unfolding at
at-IsValid d key val d' h valid q v e = grind (map_laws, valid q v)

contains-first_value :
    (fs : List Field) (key v : Bytes) → first_value key fs ≡ some v → contains (keys fs) key ≡ true
unfolding find contains
contains-first_value [] key v h = cc
contains-first_value ((k, w) ∷ fs) key v h = ground (arith, contains-first_value fs key v)

set_message-IsValid : (m : Bytes) (d : KeyValDict) → set_message m ≡ ok d → IsValid d
set_message-IsValid m d h key v e =
    let (fs, tail, _, _, _, holds) = set_message_inv m d h in
    rw holds.in_order (contains-first_value fs key v (sym (holds.first_wins key) ∙ e))

-- The dictionaries that the program can make: a constructor, and then writes and reads.
pub data Made : KeyValDict → Type 0 where
  of_keys : (ks : List Bytes) → Made (from_keys ks)
  of_message : (m : Bytes) {d : KeyValDict} → set_message m ≡ ok d → Made d
  written : {d d' : KeyValDict} (key val : Bytes) → Made d → set_value d key val ≡ ok d' → Made d'
  read : {d d' : KeyValDict} (key val : Bytes) → Made d → at d key ≡ ok (val, d') → Made d'

-- No dictionary that the program makes has a value for a key that is not among its keys.
pub Made-IsValid : (d : KeyValDict) → Made d → IsValid d
unfolding find
Made-IsValid d (of_keys ks) = λ key v e. cc
Made-IsValid d (of_message m h) = set_message-IsValid m d h
Made-IsValid d (written {d = d₀} key val m h) = set_value-IsValid d₀ key val d h (Made-IsValid d₀ m)
Made-IsValid d (read {d = d₀} key val m h) = at-IsValid d₀ key val d h (Made-IsValid d₀ m)
