-- ===== src/Reaction.antt =====
-- include/c++ami/reaction/Reaction.hpp, Event.hpp and include/c++ami/event/Event.hpp with their
-- sources: the events that answer an action or notify of something. Both are dictionaries; the
-- class hierarchy is the data type `Reaction` of EventDispatcher.
use cppami.KeyValDict.{KeyValDict, get_value, to_string}
use cppami.Prelude.{Bool, true, ◌||◌, none, some}
use cppami.Text.{Bytes, codes, same}

-- `Reaction::is_success(status)`
unfoldable pub status_is_success : Bytes → Bool
status_is_success status = same status (codes "Success") || same status (codes "Goodbye")

-- `event::Event`
pub record Event : Type 0 where
  pub dict : KeyValDict

-- `reaction::Event`
pub record ResponseEvent : Type 0 where
  pub dict : KeyValDict

unfoldable pub event_is_success : ResponseEvent → Bool
event_is_success e = elim (get_value e.dict (codes "Response")) [
  | some response ↦ status_is_success response
  | none ↦ true
]

unfoldable pub event_to_string : ResponseEvent → Bytes
event_to_string e = to_string e.dict
