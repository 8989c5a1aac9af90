-- ===== src/EventDispatcher/Desk.antt =====
-- What the dispatcher is to its callers: every action has one slot, whatever maps keep it and in
-- whatever order. This is the specification of include/c++ami/EventDispatcher.hpp.
pub mod Refinement
pub mod Asked
pub mod Correlated
pub mod Correlation
use cppami.EventDispatcher.Invariant.{Inv, closed}
use cppami.EventDispatcher.Serving.{
  Served, taken, notified, dispatch_dict-Served, Call, get_pipe, force, arrive, run_call, run_calls,
  run_call-Inv,
}
use cppami.EventDispatcher.Steps.{
  Response, unclaimed, single, started, refused, item, last, begins_list, with_item, close_pipe_lem,
}
use cppami.EventDispatcher.{
  EventDispatcher, event, event_list, Answer, value, exception, find_pipe, find_list, forget_list,
  update, get_event_pipe, set_on_pipe,
}
use cppami.EventList
use cppami.EventList.{EventList}
use cppami.KeyValDict.{KeyValDict, get_value}
use cppami.Outcome.{ok, ok_inj, broken_promise}
use cppami.Prelude.{
  ℕ, suc, ◌≡◌, ◌≢◌, inl, inr, refl, sym, ap, ◌∙◌, Bool, true, false, Option, none, some, List, [],
  ◌∷◌, ◌++◌, ite, arith, Option-cases, if◌then◌else◌,
}
use cppami.Reaction.{Event}
use cppami.Text.{Bytes, bytes_discrete, codes}
use cppami.UnorderedMap
use cppami.UnorderedMap.Laws.{find-emplace, find-assign, find-erase}

-- No caller waits; a caller waits for the first event; it waits for the rest of a list.
pub data Slot : Type 0 where
  idle : Slot
  waiting : ℕ → Slot
  collecting : ℕ → EventList → Slot

pub record Desk : Type 0 where
  pub slot : Bytes → Slot
  pub next_pipe : ℕ
  pub answers : ℕ → Option Answer
  pub dispatched : List Event

abbrev pub slot_of : Option ℕ → Option EventList → Slot
slot_of none l = idle
slot_of (some p) none = waiting p
slot_of (some p) (some l) = collecting p l

abbrev pub view : EventDispatcher → Desk
view d = record {
  slot = λ a. slot_of (find_pipe d a) (find_list d a);
  next_pipe = d.next_pipe;
  answers = d.answers;
  dispatched = d.dispatched;
}

abbrev pub put : Bytes → Slot → (Bytes → Slot) → Bytes → Slot
put a s slot b = ite (bytes_discrete a b) s (slot b)

abbrev pub give : Bytes → ℕ → Answer → Desk → Desk
give a p x k = record k { slot = put a idle k.slot; answers = update k.answers p x }

abbrev pub note : KeyValDict → Desk → Desk
note dict k = record k { dispatched = k.dispatched ++ record { dict = dict } ∷ [] }

-- An action that has a caller has no second one: the new pipe is broken at once.
abbrev pub ask : Bytes → Desk → Slot → Desk
ask a k idle = record k { slot = put a (waiting k.next_pipe) k.slot; next_pipe = suc k.next_pipe }
ask a k (waiting p) = record k {
  next_pipe = suc k.next_pipe;
  answers = update k.answers k.next_pipe (exception broken_promise);
}
ask a k (collecting p l) = record k {
  next_pipe = suc k.next_pipe;
  answers = update k.answers k.next_pipe (exception broken_promise);
}

abbrev pub shut : Bytes → Answer → Desk → Slot → Desk
shut a x k idle = k
shut a x k (waiting p) = give a p x k
shut a x k (collecting p l) = give a p x k

-- What the first event of an answer is, and what a later one makes of the list.
abbrev pub begin : Bytes → ℕ → KeyValDict → Desk → Desk
begin a p dict k =
    let list = EventList.from_dict dict in
    if begins_list dict
    then (if EventList.is_success list
        then record k { slot = put a (collecting p list) k.slot }
        else give a p (value (some (event_list list))) k)
    else give a p (value (some (event (record { dict = dict })))) k

abbrev pub collect : Bytes → ℕ → EventList × Bool → Desk → Desk
collect a p (list, complete) k =
    if complete
    then give a p (value (some (event_list list))) k
    else record k { slot = put a (collecting p list) k.slot }

abbrev pub reply : Bytes → KeyValDict → Desk → Slot → Desk
reply a dict k idle = note dict k
reply a dict k (waiting p) = begin a p dict k
reply a dict k (collecting p l) = collect a p (EventList.add_dict l dict) k

abbrev pub hear : KeyValDict → Desk → Option Bytes → Desk
hear dict k none = note dict k
hear dict k (some a) = reply a dict k (k.slot a)

unfoldable pub serve : Desk → Call → Desk
serve k (get_pipe a) = ask a k (k.slot a)
serve k (force a x) = shut a x k (k.slot a)
serve k (arrive dict) = hear dict k (get_value dict (codes "ActionID"))

unfoldable pub serve_all : Desk → List Call → Desk
serve_all k [] = k
serve_all k (c ∷ cs) = serve_all (serve k c) cs
