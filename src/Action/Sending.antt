-- ===== src/Action/Sending.antt =====
-- The text of an action, and what a reader of it gets.
use mathlib.Core.List.{append_assoc, append-nil}
use cppami.Action.{Action, create_uuid, to_string}
use cppami.KeyValDict.Fields.{Field, render, AreFields, first_value}
use cppami.KeyValDict.Message.{set_message-render}
use cppami.KeyValDict.Printing.{shown, to_string-render}
use cppami.KeyValDict.{KeyValDict, get_value, set_message}
use cppami.Outcome.{ok}
use cppami.Prelude.{
  ℕ, List, [], ◌∷◌, ◌++◌, ◌≡◌, refl, arith, ◌∙◌, ◌-◌, ap, some, length, take, drop-all, replicate,
  length-append, take-append_left,
}
use cppami.Text.{Bytes, codes, eor, index_of, starts_with, bytes_discrete}
use cppami.UnorderedMap.{keys, find}

-- The fields that are sent: the name and the id of the action, then the dictionary's.
abbrev pub sent : Action → List Field
sent a =
    (codes "Action", a.action)
    ∷ (codes "ActionID", a.action_id)
    ∷ shown (get_value a.dict) a.dict.ordered_keys

pub to_string-sent : (a : Action) → to_string a ≡ render (sent a) ++ eor
unfolding to_string
to_string-sent a = rw (to_string-render a.dict) (simp append_assoc refl)

-- If no value that an action sends holds a line break and no key a separator, then whoever reads
-- its text by `set_message` gets the name and the id of the action under "Action" and "ActionID",
-- and all the keys in the order of sending, each with the first value sent for it.
pub set_message-to_string_action :
    (a : Action)
    → AreFields (sent a)
    → (d : KeyValDict) × (set_message (to_string a) ≡ ok d)
      × (get_value d (codes "Action") ≡ some a.action)
      × (get_value d (codes "ActionID") ≡ some a.action_id)
      × (d.ordered_keys ≡ keys (sent a))
      × ((key : Bytes) → get_value d key ≡ first_value key (sent a))
unfolding index_of starts_with find bytes_discrete
set_message-to_string_action a fields =
    let (d, read, holds) = set_message-render (sent a) eor fields refl (λ e. cc) in
    (
      d,
      rw (to_string-sent a) read,
      holds.first_wins (codes "Action"),
      holds.first_wins (codes "ActionID"),
      holds.in_order,
      holds.first_wins,
    )

-- All bytes but the last.
but_last : (text : Bytes) (c : ℕ) → take (length (text ++ c ∷ []) - 1) (text ++ c ∷ []) ≡ text
but_last text c =
    ap (λ n. take n (text ++ c ∷ [])) (omega (arith, length-append text (c ∷ [])))
    ∙ take-append_left text (c ∷ [])

-- Of the 36 characters and the zero byte that `uuid_unparse_lower` writes, the id has just the
-- characters.
create_uuid_lem : (text : Bytes) → length text ≡ 36 → create_uuid (text ++ 0 ∷ []) ≡ text
unfolding create_uuid
create_uuid_lem text h =
    let long =
      drop-all {A = ℕ} (length (text ++ 0 ∷ [])) (replicate 37 0)
        (omega (arith, length-append text (0 ∷ []), h)) in
    rw (long, append-nil (text ++ 0 ∷ [])) (but_last text 0)
