-- ===== src/KeyValDict.antt =====
-- include/c++ami/util/KeyValDict.hpp, src/util/KeyValDict.cpp: the dictionary that an AMI message
-- is read into. An `std::string_view` is the bytes that it shows; a view that leaves its buffer is
-- `err undefined`. `assert` is checked, as in a build that does not define NDEBUG.
pub mod Fields
pub mod Walk
pub mod Reading
pub mod Message
pub mod Printing
pub mod Access
use cppami.Outcome.{Error, unknown_key, assertion, undefined, out_of_fuel, Result, ok, err, ◌>>=◌}
use cppami.Prelude.{
  ℕ, zero, suc, ◌+◌, ◌-◌, Bool, true, false, not, ◌||◌, Option, none, some, List, [], ◌∷◌, ◌++◌,
  ltb, ite, length, if◌then◌else◌,
}
use cppami.Text.{Bytes, bytes_discrete, same, sep, eor, find, substr, index_of}
use cppami.UnorderedMap

pub record KeyValDict : Type 0 where
  pub ordered_keys : List Bytes
  pub values : List (Bytes × Bytes)

abbrev pub get_value : KeyValDict → Bytes → Option Bytes
get_value d key = UnorderedMap.find bytes_discrete key d.values

-- `explicit KeyValDict(std::vector<std::string> ordered_keys)`
abbrev pub from_keys : List Bytes → KeyValDict
from_keys ordered_keys = record { ordered_keys = ordered_keys; values = [] }

abbrev pub count : KeyValDict → ℕ
count d = length d.ordered_keys

-- `std::find(first, last, key) != last`
unfoldable pub contains : List Bytes → Bytes → Bool
contains [] key = false
contains (k ∷ ks) key = same k key || contains ks key

abbrev pub has_key : KeyValDict → Bytes → Bool
has_key d key = contains d.ordered_keys key

unfoldable pub or_empty : Option Bytes → Bytes
or_empty (some v) = v
or_empty none = []

-- The non-const `operator[]` hands out the place of the value, and makes an empty one at need: the
-- value there, and the dictionary with that place.
unfoldable pub at : KeyValDict → Bytes → Result (Bytes × KeyValDict)
unfolding or_empty
at d key =
    if not (has_key d key)
    then err (unknown_key key)
    else ok (
      or_empty (get_value d key),
      record d { values = UnorderedMap.emplace bytes_discrete key [] d.values },
    )

-- The const `operator[]`.
unfoldable pub at_const : KeyValDict → Bytes → Result Bytes
unfolding or_empty
at_const d key =
    if not (has_key d key) then err (unknown_key key) else ok (or_empty (get_value d key))

unfoldable pub set_value : KeyValDict → Bytes → Bytes → Result KeyValDict
set_value d key val =
    if not (has_key d key)
    then err (unknown_key key)
    else ok (record d { values = UnorderedMap.assign bytes_discrete key val d.values })

-- The two `emplace` calls of one round of `set_message`.
unfoldable pub add_field : KeyValDict → Bytes → Bytes → KeyValDict
add_field d key val = record {
  ordered_keys = d.ordered_keys ++ key ∷ [];
  values = UnorderedMap.emplace bytes_discrete key val d.values;
}

-- The loop of `set_message` from `key_beg` on.
unfoldable pub read_fields : ℕ → Bytes → ℕ → KeyValDict → Result KeyValDict
read_fields zero event_buf key_beg d = err out_of_fuel
read_fields (suc fuel) event_buf key_beg d = elim (ltb key_beg (length event_buf)) [
  | false ↦ ok d
  | true ↦ elim (find event_buf sep key_beg) [
    | none ↦ ok d
    | some key_end ↦ elim (find event_buf eor (key_end + 2)) [
      | none ↦ err undefined
      | some val_end ↦ read_fields fuel event_buf (val_end + 2) (
          add_field d (substr event_buf key_beg (key_end - key_beg))
            (substr event_buf (key_end + 2) (val_end - (key_end + 2))))
    ]
  ]
]

-- `set_message`, which the constructor from a text calls; each round of the loop reads four bytes
-- at least.
unfoldable pub set_message : Bytes → Result KeyValDict
set_message [] = err assertion
set_message (c ∷ cs) = read_fields (suc (length (c ∷ cs))) (c ∷ cs) 0 (from_keys [])

append_fields : Bytes → List Bytes → List (Bytes × Bytes) → Bytes
append_fields action_string [] values = action_string
append_fields action_string (key ∷ rest) values =
    append_fields
      (action_string
        ++ (key ++ (sep ++ (or_empty (UnorderedMap.find bytes_discrete key values) ++ eor))))
      rest values

unfoldable pub to_string : KeyValDict → Bytes
unfolding append_fields or_empty
to_string d = append_fields [] d.ordered_keys d.values ++ eor
