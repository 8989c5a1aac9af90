-- ===== src/EventDispatcher.antt =====
-- include/c++ami/EventDispatcher.hpp, src/EventDispatcher.cpp: events go to the caller that waits
-- for them, or to the notification callback. A pipe is a number; `answers` is the shared state of
-- its promise and future. Each member function holds its mutexes from the first access to the last,
-- so each is one step.
pub mod Invariant
pub mod Steps
pub mod Serving
pub mod Answers
pub mod Collecting
pub mod Owners
pub mod Entries
pub mod Cleanup
pub mod Desk
use cppami.EventList
use cppami.EventList.{EventList}
use cppami.KeyValDict.{KeyValDict, get_value, has_key, set_message}
use cppami.Outcome.{
  Error, already_satisfied, broken_promise, assertion, Result, ok, err, ◌>>=◌, ◌>>◌, map_ok,
}
use cppami.Prelude.{
  ℕ, suc, Bool, true, false, not, ◌||◌, Option, none, some, List, [], ◌∷◌, ◌++◌, ◌==◌,
  if◌then◌else◌,
}
use cppami.Reaction.{Event, ResponseEvent}
use cppami.Text.{Bytes, bytes_discrete, codes}
use cppami.UnorderedMap

-- The classes that derive from `reaction::Reaction`.
pub data Reaction : Type 0 where
  event : ResponseEvent → Reaction
  event_list : EventList → Reaction

-- What `future::get` returns or throws; `value none` is a null pointer.
pub data Answer : Type 0 where
  value : Option Reaction → Answer
  exception : Error → Answer

pub record EventDispatcher : Type 0 where
  pub promise_map : List (Bytes × ℕ)
  pub event_map : List (Bytes × EventList)
  pub next_pipe : ℕ
  pub answers : ℕ → Option Answer
  -- the events handed to `dispatch_`, oldest first
  pub dispatched : List Event

abbrev pub initial : EventDispatcher
initial = record {
  promise_map = [];
  event_map = [];
  next_pipe = 0;
  answers = λ _. none;
  dispatched = [];
}

abbrev pub find_pipe : EventDispatcher → Bytes → Option ℕ
find_pipe d action_id = UnorderedMap.find bytes_discrete action_id d.promise_map

abbrev pub find_list : EventDispatcher → Bytes → Option EventList
find_list d action_id = UnorderedMap.find bytes_discrete action_id d.event_map

abbrev pub update : (ℕ → Option Answer) → ℕ → Answer → ℕ → Option Answer
update answers pipe a i = if pipe == i then some a else answers i

-- `promise::set_value` and `set_exception`: a second call throws.
unfoldable pub satisfy : EventDispatcher → ℕ → Answer → Result EventDispatcher
satisfy d pipe a = elim (d.answers pipe) [
  | some _ ↦ err already_satisfied
  | none ↦ ok (record d { answers = update d.answers pipe a })
]

abbrev pub forget_pipe : Bytes → EventDispatcher → EventDispatcher
forget_pipe action_id d = record d {
  promise_map = UnorderedMap.erase bytes_discrete action_id d.promise_map;
}

abbrev pub forget_list : Bytes → EventDispatcher → EventDispatcher
forget_list action_id d = record d {
  event_map = UnorderedMap.erase bytes_discrete action_id d.event_map;
}

-- The pipe is satisfied and its promise erased.
unfoldable pub close_pipe : EventDispatcher → Bytes → ℕ → Answer → Result EventDispatcher
unfolding satisfy
close_pipe d action_id pipe a = map_ok (forget_pipe action_id) (satisfy d pipe a)

-- The first event of an answer.
unfoldable pub first_response : EventDispatcher → Bytes → ℕ → KeyValDict → Result EventDispatcher
unfolding close_pipe
first_response d action_id pipe dict =
    if not (has_key dict (codes "EventList"))
    then close_pipe d action_id pipe (value (some (event (record { dict = dict }))))
    else (let list = EventList.from_dict dict in
        if EventList.is_success list
        then ok (record d {
          event_map = UnorderedMap.emplace bytes_discrete action_id list d.event_map;
        })
        else close_pipe d action_id pipe (value (some (event_list list))))

-- A later event of an answer that is a list.
unfoldable pub next_response :
    EventDispatcher → Bytes → ℕ → EventList → KeyValDict → Result EventDispatcher
unfolding close_pipe
next_response d action_id pipe list dict =
    let (list', complete) = EventList.add_dict list dict in
    if complete
    then map_ok (forget_list action_id)
        (close_pipe d action_id pipe (value (some (event_list list'))))
    else ok
        (record d { event_map = UnorderedMap.assign bytes_discrete action_id list' d.event_map })

-- `dispatch_event(action_id, dict)`: whether a pipe took the event.
unfoldable pub dispatch_response :
    EventDispatcher → Bytes → KeyValDict → Result (Bool × EventDispatcher)
unfolding first_response next_response
dispatch_response d action_id dict = elim (find_pipe d action_id) [
  | none ↦ ok (false, d)
  | some pipe ↦
      map_ok (λ d'. (true, d'))
        (elim (find_list d action_id) [
          | none ↦ first_response d action_id pipe dict
          | some list ↦ next_response d action_id pipe list dict
        ])
]

abbrev pub notify : EventDispatcher → KeyValDict → EventDispatcher
notify d dict = record d { dispatched = d.dispatched ++ record { dict = dict } ∷ [] }

-- `dispatch_event(event_buf)` behind the reading of the text.
unfoldable pub dispatch_dict : EventDispatcher → KeyValDict → Result EventDispatcher
dispatch_dict d dict = elim (get_value dict (codes "ActionID")) [
  | none ↦ ok (notify d dict)
  | some action_id ↦
      map_ok (λ (taken, d'). if taken then d' else notify d' dict)
        (dispatch_response d action_id dict)
]

-- `dispatch_event(event_buf)`
unfoldable pub dispatch_event : EventDispatcher → Bytes → Result EventDispatcher
dispatch_event d event_buf = do dict ← set_message event_buf; dispatch_dict d dict

-- The `for` loops of `work_thread` over a batch of events.
unfoldable pub dispatch_events : EventDispatcher → List Bytes → Result EventDispatcher
dispatch_events d [] = ok d
dispatch_events d (event_buf ∷ rest) = do d' ← dispatch_event d event_buf; dispatch_events d' rest

-- `get_event_pipe`: the new pipe. If the action has a pipe already then `emplace` leaves the map as
-- it is, and the new promise is destroyed unsatisfied.
unfoldable pub get_event_pipe : EventDispatcher → Bytes → EventDispatcher × ℕ
get_event_pipe d action_id =
    let pipe = d.next_pipe in
    (
      elim (find_pipe d action_id) [
        | none ↦ record d {
          promise_map = UnorderedMap.emplace bytes_discrete action_id pipe d.promise_map;
          next_pipe = suc pipe;
        }
        | some _ ↦ record d {
          next_pipe = suc pipe;
          answers = update d.answers pipe (exception broken_promise);
        }
      ],
      pipe,
    )

-- `set_exception_on_pipe` and `set_null_on_pipe` differ in the answer alone.
unfoldable pub set_on_pipe : EventDispatcher → Bytes → Answer → Result EventDispatcher
unfolding close_pipe
set_on_pipe d action_id a =
    map_ok (forget_list action_id)
      (elim (find_pipe d action_id) [ none ↦ ok d | some pipe ↦ close_pipe d action_id pipe a ])

unfoldable pub set_exception_on_pipe : EventDispatcher → Bytes → Error → Result EventDispatcher
unfolding set_on_pipe
set_exception_on_pipe d action_id e = set_on_pipe d action_id (exception e)

unfoldable pub set_null_on_pipe : EventDispatcher → Bytes → Result EventDispatcher
unfolding set_on_pipe
set_null_on_pipe d action_id = set_on_pipe d action_id (value none)

abbrev pub is_empty {ℓ} : {A : Type ℓ} → List A → Bool
is_empty [] = true
is_empty (x ∷ xs) = false

-- `assert`, which a build with NDEBUG leaves out.
abbrev assert_that : Bool → Bool → Result (Unit {0})
assert_that ndebug test = if ndebug || test then ok tt else err assertion

null_pipes : List (Bytes × ℕ) → EventDispatcher → Result EventDispatcher
null_pipes [] d = ok d
null_pipes ((_, pipe) ∷ rest) d = do d' ← satisfy d pipe (value none); null_pipes rest d'

unfoldable pub cleanup_object : Bool → EventDispatcher → Result EventDispatcher
unfolding null_pipes satisfy
cleanup_object ndebug d = do
  assert_that ndebug (is_empty d.promise_map)
  d' ← null_pipes d.promise_map d
  assert_that ndebug (is_empty d'.event_map)
  ok d'
