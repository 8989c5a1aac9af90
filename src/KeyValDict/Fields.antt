-- ===== src/KeyValDict/Fields.antt =====
-- A message as a list of fields, and the dictionary that such a list makes.
use cppami.Prelude.{◌≡◌, Option, none, List, [], ◌∷◌, ◌++◌}
use cppami.Text.{Bytes, bytes_discrete, sep, eor, index_of}
use cppami.UnorderedMap

abbrev pub Field : Type 0
Field = Bytes × Bytes

-- `key: value`, ended by a line break.
abbrev pub line : Field → Bytes
line (k, v) = k ++ (sep ++ (v ++ eor))

abbrev pub render : List Field → Bytes
render [] = []
render ((k, v) ∷ fs) = k ++ (sep ++ (v ++ (eor ++ render fs)))

-- A key holds no separator, and a value no line break.
abbrev pub IsField : Field → Type 0
IsField (k, v) = (index_of sep k ≡ none) × (index_of eor v ≡ none)

abbrev pub AreFields : List Field → Type 0
AreFields [] = Unit {0}
AreFields (f ∷ fs) = IsField f × AreFields fs

-- The value of the first field with this key.
abbrev pub first_value : Bytes → List Field → Option Bytes
first_value = UnorderedMap.find bytes_discrete
