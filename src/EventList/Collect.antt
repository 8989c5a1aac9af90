-- ===== src/EventList/Collect.antt =====
-- The text of a list of events.
use mathlib.Core.List.{append_assoc, append-nil, map-append}
use cppami.EventList.{EventList, list_to_string, append_events}
use cppami.KeyValDict.{to_string}
use cppami.Prelude.{
  ◌≡◌, sym, ◌∙◌, inl, inr, none, some, List, [], ◌∷◌, ◌++◌, concat, concat-append, map,
  Option-cases,
}
use cppami.Reaction.{Event}
use cppami.Text.{Bytes}

-- The events as they were received.
abbrev pub received : EventList → List Event
received l = elim l.tail [ none ↦ l.head ∷ l.events | some last ↦ l.head ∷ (l.events ++ last ∷ []) ]

abbrev texts : List Event → List Bytes
texts = map (λ e. to_string e.dict)

append_events-concat :
    (es : List Event) (result : Bytes) → append_events result es ≡ result ++ concat (texts es)
unfolding append_events
append_events-concat [] result = sym (append-nil result)
append_events-concat (e ∷ es) result =
    append_events-concat es (result ++ to_string e.dict)
    ∙ append_assoc result (to_string e.dict) (concat (texts es))

-- The text of a list is the texts of its events one after the other: the first, the items in the
-- order in which they came, and the last, if there is one.
pub list_to_string-concat :
    (l : EventList) → list_to_string l ≡ concat (map (λ e. to_string e.dict) (received l))
unfolding list_to_string
list_to_string-concat l = elim (Option-cases l.tail) [
  | inl e ↦ rw (e, list_to_string) (append_events-concat l.events (to_string l.head.dict))
  | inr (last, e) ↦
      rw (e, list_to_string)
        (rw
          (
            append_events-concat l.events (to_string l.head.dict),
            map-append (λ (x : Event). to_string x.dict) l.events (last ∷ []),
            concat-append,
            append-nil,
          )
          (append_assoc (to_string l.head.dict) (concat (texts l.events)) (to_string last.dict)))
]
