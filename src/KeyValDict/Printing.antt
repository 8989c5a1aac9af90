-- ===== src/KeyValDict/Printing.antt =====
-- `to_string`, and reading back what it writes.
use mathlib.Core.List.{append_assoc, append-nil}
use cppami.KeyValDict.Fields.{Field, render, AreFields, first_value}
use cppami.KeyValDict.Message.{Holds, set_message-render}
use cppami.KeyValDict.{
  KeyValDict, get_value, has_key, contains, or_empty, append_fields, set_message, to_string,
}
use cppami.Outcome.{ok, map_ok}
use cppami.Prelude.{
  ◌≡◌, ◌≢◌, refl, sym, ap, ◌∙◌, true, Option, none, some, List, [], ◌∷◌, ◌++◌, ite, arith,
}
use cppami.Text.{Bytes, bytes_discrete, index_of, starts_with, eor}
use cppami.UnorderedMap.{keys, find}

-- What is printed for the keys `ks` when `value` is the value of each.
abbrev pub shown : (Bytes → Option Bytes) → List Bytes → List Field
shown value [] = []
shown value (k ∷ ks) = (k, or_empty (value k)) ∷ shown value ks

append_fields-render :
    (ks : List Bytes) (acc : Bytes) (values : List Field)
    → append_fields acc ks values ≡ acc ++ render (shown (λ k. find bytes_discrete k values) ks)
unfolding append_fields
append_fields-render [] acc values = sym (append-nil acc)
append_fields-render (k ∷ ks) acc values = append_fields-render ks _ values ∙ simp append_assoc

-- The text of a dictionary is a field for each key in order, with the key's value or nothing, and
-- an empty line.
pub to_string-render :
    (d : KeyValDict) → to_string d ≡ render (shown (get_value d) d.ordered_keys) ++ eor
unfolding to_string
to_string-render d = ap (λ t. t ++ eor) (append_fields-render d.ordered_keys [] d.values)

shown-ext :
    (f g : Bytes → Option Bytes) (ks : List Bytes)
    → ((k : Bytes) → or_empty (f k) ≡ or_empty (g k))
    → shown f ks ≡ shown g ks
shown-ext f g [] h = refl
shown-ext f g (k ∷ ks) h = rw (h k, shown-ext f g ks h)

-- The text shows no more of a dictionary than its keys and their values, an absent one as empty.
pub to_string-ext :
    (d d' : KeyValDict)
    → d.ordered_keys ≡ d'.ordered_keys
    → ((k : Bytes) → or_empty (get_value d k) ≡ or_empty (get_value d' k))
    → to_string d ≡ to_string d'
to_string-ext d d' e h =
    to_string-render d
    ∙ rw (e, shown-ext (get_value d) (get_value d') d'.ordered_keys h) (sym (to_string-render d'))

to_string-Holds :
    (fs : List Field) (d : KeyValDict)
    → Holds fs d
    → to_string d ≡ render (shown (λ k. first_value k fs) (keys fs)) ++ eor
to_string-Holds fs d h =
    to_string-render d
    ∙ rw (
      h.in_order,
      shown-ext (get_value d) (λ k. first_value k fs) (keys fs) (λ k. ap or_empty (h.first_wins k)),
    )

append-eor-ne-nil : (x : Bytes) → x ++ eor ≢ []
append-eor-ne-nil [] = λ e. cc
append-eor-ne-nil (c ∷ x) = λ e. cc

-- Printing a message that was read gives it back, but that a key which stands in it more than once
-- has its first value each time.
pub to_string-set_message :
    (fs : List Field)
    → AreFields fs
    → map_ok to_string (set_message (render fs ++ eor))
      ≡ ok (render (shown (λ k. first_value k fs) (keys fs)) ++ eor)
unfolding index_of starts_with
to_string-set_message fs fields =
    let (d, read, holds) = set_message-render fs eor fields refl (append-eor-ne-nil (render fs)) in
    rw read (ap ok (to_string-Holds fs d holds))

-- No key stands twice.
abbrev pub AreDistinct : List Field → Type 0
AreDistinct [] = Unit {0}
AreDistinct ((k, v) ∷ fs) = (first_value k fs ≡ none) × AreDistinct fs

abbrev Agrees : (Bytes → Option Bytes) → List Field → Type 0
Agrees value [] = Unit {0}
Agrees value ((k, v) ∷ fs) = (value k ≡ some v) × Agrees value fs

Agrees-cons :
    (value : Bytes → Option Bytes) (j w : Bytes) (fs : List Field)
    → value j ≡ none
    → Agrees value fs
    → Agrees (λ k. ite (bytes_discrete j k) (some w) (value k)) fs
Agrees-cons value j w [] h a = tt
Agrees-cons value j w ((k, v) ∷ fs) h a = (ground (arith, h, a.0), Agrees-cons value j w fs h a.1)

Agrees-first_value : (fs : List Field) → AreDistinct fs → Agrees (λ k. first_value k fs) fs
unfolding find
Agrees-first_value [] h = tt
Agrees-first_value ((k, v) ∷ fs) h =
    (ground arith, Agrees-cons (λ q. first_value q fs) k v fs h.0 (Agrees-first_value fs h.1))

shown-Agrees :
    (value : Bytes → Option Bytes) (fs : List Field) → Agrees value fs → shown value (keys fs) ≡ fs
unfolding or_empty
shown-Agrees value [] a = refl
shown-Agrees value ((k, v) ∷ fs) a = rw (a.0, shown-Agrees value fs a.1)

-- A message that is made up of fields, each a key without a separator and a value without a line
-- break, and of an empty line behind them, is given back byte for byte when what was read of it is
-- printed, if no key stands in it twice.
pub to_string-set_message_distinct :
    (fs : List Field)
    → AreFields fs
    → AreDistinct fs
    → map_ok to_string (set_message (render fs ++ eor)) ≡ ok (render fs ++ eor)
to_string-set_message_distinct fs fields distinct =
    to_string-set_message fs fields
    ∙ ap (λ gs. ok (render gs ++ eor)) (shown-Agrees _ fs (Agrees-first_value fs distinct))

-- A dictionary that can be written: no key holds a separator, and no value a line break.
abbrev pub IsPrintable : KeyValDict → Type 0
IsPrintable d = AreFields (shown (get_value d) d.ordered_keys)

keys-shown : (value : Bytes → Option Bytes) (ks : List Bytes) → keys (shown value ks) ≡ ks
keys-shown value [] = refl
keys-shown value (k ∷ ks) = ap (◌∷◌ k) (keys-shown value ks)

first_value-shown :
    (value : Bytes → Option Bytes) (ks : List Bytes) (key : Bytes)
    → contains ks key ≡ true
    → first_value key (shown value ks) ≡ some (or_empty (value key))
unfolding find contains
first_value-shown value [] key h = cc
first_value-shown value (k ∷ ks) key h = ground (arith, first_value-shown value ks key)

-- If no key of a dictionary holds a separator and none of the values shown a line break, then reading
-- back what `to_string` writes gives the same keys in the same order, each with its value, or with
-- the empty text where it had none.
pub set_message-to_string :
    (d : KeyValDict)
    → IsPrintable d
    → (d' : KeyValDict) × (set_message (to_string d) ≡ ok d')
      × (d'.ordered_keys ≡ d.ordered_keys)
      × ((key : Bytes)
          → has_key d key ≡ true
          → get_value d' key ≡ some (or_empty (get_value d key)))
unfolding index_of starts_with
set_message-to_string d fields =
    let fs = shown (get_value d) d.ordered_keys in
    let (d', read, holds) = set_message-render fs eor fields refl (append-eor-ne-nil (render fs)) in
    (
      d',
      rw (to_string-render d) read,
      holds.in_order ∙ keys-shown (get_value d) d.ordered_keys,
      λ key has. holds.first_wins key ∙ first_value-shown (get_value d) d.ordered_keys key has,
    )
