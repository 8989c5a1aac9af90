-- ===== src/EventList.antt =====
-- include/c++ami/reaction/EventList.hpp, src/reaction/EventList.cpp: the events that answer one
-- action, from the one that starts the list to the one that completes it. The `unique_ptr` to the
-- last event is an option.
pub mod Collect
use cppami.KeyValDict.{KeyValDict, get_value, to_string}
use cppami.Outcome.{Result, ok, err, undefined, assertion}
use cppami.Prelude.{
  ℕ, zero, suc, Bool, true, false, ◌||◌, ◌&&◌, Option, none, some, List, [], ◌∷◌, ◌++◌, ltb, length,
  if◌then◌else◌,
}
use cppami.Reaction.{Event, status_is_success}
use cppami.Text.{Bytes, codes, same}

pub record EventList : Type 0 where
  pub head : Event
  pub tail : Option Event
  pub events : List Event

-- `explicit EventList(event::Event event)`
unfoldable pub from_event : Event → EventList
from_event event = record { head = event; tail = none; events = [] }

-- `explicit EventList(util::KeyValDict dict)`
unfoldable pub from_dict : KeyValDict → EventList
from_dict dict = record { head = record { dict = dict }; tail = none; events = [] }

-- The copy constructor, which reads through the pointer to the last event.
unfoldable pub copy : EventList → Result EventList
copy right = elim right.tail [
  | none ↦ err undefined
  | some last ↦ ok (record { head = right.head; tail = some last; events = right.events })
]

-- `operator=(EventList const &)`: `head_` is assigned before the pointer is read.
unfoldable pub copy_assign : EventList → EventList → Result EventList
copy_assign self right = elim right.tail [
  | none ↦ err undefined
  | some last ↦ ok (record self { head = right.head; tail = some last; events = right.events })
]

unfoldable pub is_success : EventList → Bool
is_success l = elim (get_value l.head.dict (codes "Response")) [
  | some response ↦ status_is_success response
  | none ↦ false
]

unfoldable pub is_list_complete : Bytes → Bool
is_list_complete event_list_val =
    same event_list_val (codes "Complete") || same event_list_val (codes "cancelled")

unfoldable pub completes : Event → Bool
unfolding is_list_complete
completes event = elim (get_value event.dict (codes "EventList")) [
  | some val ↦ is_list_complete val
  | none ↦ false
]

-- `add_event(event::Event)`: the list, and whether it is complete now.
unfoldable pub add_event : EventList → Event → EventList × Bool
add_event l event =
    if completes event
    then (record l { tail = some event }, true)
    else (record l { events = l.events ++ event ∷ [] }, false)

-- `add_event(util::KeyValDict)`
unfoldable pub add_dict : EventList → KeyValDict → EventList × Bool
unfolding add_event
add_dict l dict = add_event l (record { dict = dict })

append_events : Bytes → List Event → Bytes
append_events result [] = result
append_events result (e ∷ es) = append_events (result ++ to_string e.dict) es

unfoldable pub list_to_string : EventList → Bytes
unfolding append_events
list_to_string l =
    let result = append_events (to_string l.head.dict) l.events in
    elim l.tail [ none ↦ result | some last ↦ result ++ to_string last.dict ]

abbrev pub event_count : EventList → ℕ
event_count l = length l.events

nth : List Event → ℕ → Result Event
nth [] i = err assertion
nth (e ∷ es) zero = ok e
nth (e ∷ es) (suc i) = nth es i

-- `get_event`: the assertion refuses an index out of range.
unfoldable pub get_event : EventList → ℕ → Result Event
unfolding nth
get_event l event_idx = nth l.events event_idx
