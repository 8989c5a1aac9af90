-- ===== src/Tests/Messages.antt =====
-- KeyValDict at messages as the server sends them; the first is that of
-- tests/src/ami_message_tests.cpp.
use cppami.KeyValDict.Access.{IsValid, of_message, Made-IsValid}
use cppami.KeyValDict.Fields.{Field, render, AreFields}
use cppami.KeyValDict.Message.{
  Holds, set_message-render, set_message_inv, set_message-total, set_message_overrun,
}
use cppami.KeyValDict.Printing.{to_string-set_message_distinct, set_message-to_string}
use cppami.KeyValDict.{
  KeyValDict, from_keys, get_value, has_key, contains, or_empty, at, at_const, set_value,
  set_message, read_fields, add_field, to_string,
}
use cppami.Outcome.{ok, err, undefined, map_ok}
use cppami.Prelude.{◌≡◌, refl, true, none, some, List, [], ◌∷◌, ◌++◌, ℕ_discrete}
use cppami.Text.{Bytes, bytes_discrete, codes, sep, eor, index_of, starts_with}
use cppami.UnorderedMap.{find, emplace, assign}

program : Unit {0}
unfolding set_message read_fields add_field to_string index_of starts_with find emplace assign
    bytes_discrete contains at at_const set_value
program = tt

abbrev letters : Bytes
letters = codes "a: b\r\nc: d\r\ne: f\r\n\r\n"

-- `message_parse_test`
message_parse_test : map_ok to_string (set_message letters) ≡ ok letters
unfolding program
message_parse_test = refl

abbrev fields : List Field
fields = (codes "Response", codes "Success") ∷ (codes "Message", codes "ok: done") ∷ []

fields-AreFields : AreFields fields
unfolding index_of starts_with
fields-AreFields = ((refl, refl), ((refl, refl), tt))

-- A line that has no separator becomes part of the next key.
line_without_separator :
    map_ok (λ d. d.ordered_keys) (set_message (codes "Output\r\nActionID: 1\r\n\r\n"))
    ≡ ok (codes "Output\r\nActionID" ∷ [])
unfolding program
line_without_separator = refl

-- A key that stands twice keeps its first value.
key_twice :
    map_ok to_string (set_message (codes "Variable: a\r\nVariable: b\r\n\r\n"))
    ≡ ok (codes "Variable: a\r\nVariable: a\r\n\r\n")
unfolding program
key_twice = refl

set_message-render_example :
    (d : KeyValDict) × (set_message (render fields ++ eor) ≡ ok d) × Holds fields d
unfolding index_of starts_with
set_message-render_example = set_message-render fields eor fields-AreFields refl (λ e. cc)

abbrev letters_dict : KeyValDict
letters_dict = record {
  ordered_keys = codes "a" ∷ codes "c" ∷ codes "e" ∷ [];
  values = (codes "a", codes "b") ∷ (codes "c", codes "d") ∷ (codes "e", codes "f") ∷ [];
}

set_message-letters : set_message letters ≡ ok letters_dict
unfolding program
set_message-letters = refl

set_message_inv_example :
    (fs : List Field) × (tail : Bytes) × (letters ≡ render fs ++ tail)
    × AreFields fs
    × (index_of sep tail ≡ none)
    × Holds fs letters_dict
set_message_inv_example = set_message_inv letters letters_dict set_message-letters

set_message-total_example : (d : KeyValDict) × (set_message (codes "Event: X" ++ eor) ≡ ok d)
set_message-total_example = set_message-total (codes "Event: X")

set_message_overrun_example :
    set_message (render fields ++ (codes "Key" ++ (sep ++ codes "val"))) ≡ err undefined
unfolding index_of starts_with
set_message_overrun_example =
    set_message_overrun fields (codes "Key") (codes "val") fields-AreFields (refl, refl)

to_string-set_message_distinct_example :
    map_ok to_string (set_message (render fields ++ eor)) ≡ ok (render fields ++ eor)
unfolding find bytes_discrete ℕ_discrete
to_string-set_message_distinct_example =
    to_string-set_message_distinct fields fields-AreFields (refl, (refl, tt))

set_message-to_string_example :
    (d' : KeyValDict) × (set_message (to_string letters_dict) ≡ ok d')
    × (d'.ordered_keys ≡ letters_dict.ordered_keys)
    × ((key : Bytes)
        → has_key letters_dict key ≡ true
        → get_value d' key ≡ some (or_empty (get_value letters_dict key)))
unfolding program
set_message-to_string_example =
    set_message-to_string letters_dict ((refl, refl), ((refl, refl), ((refl, refl), tt)))

abbrev login : KeyValDict
login = from_keys (codes "Username" ∷ codes "Secret" ∷ [])

Made-IsValid_example : IsValid letters_dict
Made-IsValid_example = Made-IsValid letters_dict (of_message letters set_message-letters)
