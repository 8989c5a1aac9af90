-- ===== src/KeyValDict/Message.antt =====
-- What `set_message` makes of every text.
use mathlib.Core.List.{append_assoc}
use cppami.KeyValDict.Fields.{Field, render, IsField, AreFields, first_value}
use cppami.KeyValDict.Reading.{
  add_fields, ordered_keys-add_fields, get_value-add_fields, walk-render, walk_inv, walk-total,
  walk_overrun, walk-bounded,
}
use cppami.KeyValDict.Walk.{walk, read_fields-walk}
use cppami.KeyValDict.{KeyValDict, from_keys, get_value, set_message}
use cppami.Outcome.{ok, err, undefined, out_of_fuel}
use cppami.Prelude.{
  suc, ◌≤◌, ◌≡◌, ◌≢◌, refl, sym, subst, ◌∙◌, none, List, [], ◌∷◌, ◌++◌, arith, length,
  length-append,
}
use cppami.Text.{Bytes, index_of, sep, eor}
use cppami.UnorderedMap.{keys, find}

-- The dictionary of a list of fields.
abbrev pub of_fields : List Field → KeyValDict
of_fields fs = add_fields (from_keys []) fs

-- It holds the keys in their order, and for each key the value of the first field with it.
pub record Holds (fs : List Field) (d : KeyValDict) : Type 0 where
  pub in_order : d.ordered_keys ≡ keys fs
  pub first_wins : (key : Bytes) → get_value d key ≡ first_value key fs

pub of_fields-Holds : (fs : List Field) → Holds fs (of_fields fs)
unfolding find
of_fields-Holds fs = record {
  in_order = ordered_keys-add_fields fs (from_keys []);
  first_wins = λ key. get_value-add_fields fs (from_keys []) key;
}

set_message-walk : (m : Bytes) → m ≢ [] → set_message m ≡ walk (suc (length m)) m (from_keys [])
unfolding set_message
set_message-walk [] h = absurd (h refl)
set_message-walk (c ∷ cs) h = read_fields-walk (suc (length (c ∷ cs))) (c ∷ cs) 0 (from_keys [])

length-render_le : (fs : List Field) (tail : Bytes) → length fs ≤ length (render fs ++ tail)
length-render_le [] tail = omega arith
length-render_le ((k, v) ∷ fs) tail =
    simp (append_assoc, length-append)
      (omega (arith, length-render_le fs tail, length-append (render fs) tail))

module _ (fs : List Field) (tail : Bytes) (fields : AreFields fs) (rest : index_of sep tail ≡ none)
    (some_text : render fs ++ tail ≢ []) where
  pub set_message-of_fields : set_message (render fs ++ tail) ≡ ok (of_fields fs)
  set_message-of_fields =
      set_message-walk (render fs ++ tail) some_text
      ∙ walk-render _ fs tail (from_keys []) fields rest (omega (arith, length-render_le fs tail))

  -- A text of fields, with any rest that holds no separator, is read as those fields: the keys in
  -- their order, and for each key the value of the first field with it.
  pub set_message-render : (d : KeyValDict) × (set_message (render fs ++ tail) ≡ ok d) × Holds fs d
  set_message-render = (of_fields fs, set_message-of_fields, of_fields-Holds fs)

-- Whatever `set_message` accepts is a list of fields with a rest that holds no separator, and the
-- dictionary holds just those fields.
pub set_message_inv :
    (m : Bytes) (d : KeyValDict)
    → set_message m ≡ ok d
    → (fs : List Field) × (tail : Bytes) × (m ≡ render fs ++ tail)
      × AreFields fs
      × (index_of sep tail ≡ none)
      × Holds fs d
unfolding set_message
set_message_inv [] d h = cc
set_message_inv (c ∷ cs) d h =
    let (fs, tail, split, fields, rest, made) =
      walk_inv _ (c ∷ cs) (from_keys []) d (sym (set_message-walk (c ∷ cs) (λ e. cc)) ∙ h) in
    (fs, tail, split, fields, rest, subst (Holds fs) (sym made) (of_fields-Holds fs))

eor-ne-nil : eor ≢ []
eor-ne-nil = λ e. cc

append-ne-nil : (x y : Bytes) → y ≢ [] → x ++ y ≢ []
append-ne-nil [] y h = h
append-ne-nil (c ∷ x) y h = λ e. cc

-- Every text that ends with a line break is read: no assertion fails, and no view leaves the
-- buffer.
pub set_message-total : (x : Bytes) → (d : KeyValDict) × (set_message (x ++ eor) ≡ ok d)
set_message-total x =
    let (d, read) = walk-total _ x (from_keys []) (omega (arith, length-append x eor)) in
    (d, set_message-walk (x ++ eor) (append-ne-nil x eor eor-ne-nil) ∙ read)

-- The bound on the rounds is never met.
pub set_message-bounded : (m : Bytes) → set_message m ≢ err out_of_fuel
unfolding set_message
set_message-bounded [] = λ e. cc
set_message-bounded (c ∷ cs) =
    rw (read_fields-walk (suc (length (c ∷ cs))) (c ∷ cs) 0 (from_keys []))
      (walk-bounded _ (c ∷ cs) (from_keys []) (omega arith))

-- A text whose last field has no line break behind its value makes the view of that value run past
-- the end of the buffer, whatever fields stand before it.
pub set_message_overrun :
    (fs : List Field) (k v : Bytes)
    → AreFields fs
    → IsField (k, v)
    → set_message (render fs ++ (k ++ (sep ++ v))) ≡ err undefined
set_message_overrun fs k v fields last =
    set_message-walk _ (append-ne-nil (render fs) _ (append-ne-nil k (sep ++ v) (λ e. cc)))
    ∙ walk_overrun _ fs k v (from_keys []) fields last
        (omega (arith, length-render_le fs (k ++ (sep ++ v))))
