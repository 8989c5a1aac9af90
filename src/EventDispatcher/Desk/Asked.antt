-- ===== src/EventDispatcher/Desk/Asked.antt =====
-- The actions that callers asked for, and what an answer to an action is.
use cppami.EventDispatcher.Serving.{Call, get_pipe, force, arrive}
use cppami.EventDispatcher.{Reaction, event, event_list, Answer, value, exception}
use cppami.EventList.{EventList}
use cppami.KeyValDict.{KeyValDict, get_value}
use cppami.Prelude.{◌≡◌, none, some, List, [], ◌∷◌}
use cppami.Reaction.{Event}
use cppami.Text.{Bytes, codes}

-- The actions that were asked for, in order: the pipe `n` is that of the n-th.
abbrev pub asked_for : List Call → List Bytes
asked_for [] = []
asked_for (get_pipe a ∷ cs) = a ∷ asked_for cs
asked_for (force a x ∷ cs) = asked_for cs
asked_for (arrive dict ∷ cs) = asked_for cs

-- An event carries the id of the action.
abbrev pub IsFor : Bytes → KeyValDict → Type 0
IsFor a dict = get_value dict (codes "ActionID") ≡ some a

abbrev pub AreFor : Bytes → List Event → Type 0
AreFor a [] = Unit {0}
AreFor a (e ∷ es) = IsFor a e.dict × AreFor a es

abbrev pub IsListFor : Bytes → EventList → Type 0
IsListFor a l =
    IsFor a l.head.dict × AreFor a l.events × ((e : Event) → l.tail ≡ some e → IsFor a e.dict)

abbrev pub IsAnswerFor : Bytes → Reaction → Type 0
IsAnswerFor a (event e) = IsFor a e.dict
IsAnswerFor a (event_list l) = IsListFor a l

-- A caller shuts a pipe with an exception or a null pointer.
abbrev pub IsEmptyHanded : Answer → Type 0
IsEmptyHanded (value none) = Unit
IsEmptyHanded (value (some r)) = ⊥
IsEmptyHanded (exception e) = Unit

abbrev pub AreEmptyHanded : List Call → Type 0
AreEmptyHanded [] = Unit {0}
AreEmptyHanded (force a x ∷ cs) = IsEmptyHanded x × AreEmptyHanded cs
AreEmptyHanded (get_pipe a ∷ cs) = AreEmptyHanded cs
AreEmptyHanded (arrive dict ∷ cs) = AreEmptyHanded cs
