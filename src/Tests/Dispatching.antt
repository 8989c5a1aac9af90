-- ===== src/Tests/Dispatching.antt =====
-- EventDispatcher with a caller that waits for a list, and EventList.
use cppami.EventDispatcher.Answers.{Keeps}
use cppami.EventDispatcher.Cleanup.{cleanup_object_lem}
use cppami.EventDispatcher.Desk.Refinement.{run_calls-serve_all}
use cppami.EventDispatcher.Desk.{view, serve_all}
use cppami.EventDispatcher.Entries.{IsUnique}
use cppami.EventDispatcher.Collecting.{
  more, complete, pass, AnswersList, begin, wait, GivesAnswer, as_event, AnswersList-answer,
}
use cppami.EventDispatcher.Invariant.{Inv, get_event_pipe-Inv, initial-Inv}
use cppami.EventDispatcher.Serving.{Call, arrive, get_pipe, run_calls, run_calls-initial}
use cppami.EventDispatcher.{
  EventDispatcher, event_list, Answer, value, exception, initial, find_pipe, cleanup_object,
  is_empty, get_event_pipe,
}
use cppami.EventList
use cppami.EventList.Collect.{list_to_string-concat}
use cppami.EventList.{list_to_string}
use cppami.EventList.{EventList, completes}
use cppami.KeyValDict.{KeyValDict, to_string, contains}
use cppami.Outcome.{ok, err, assertion, timed_out, undefined}
use cppami.Prelude.{
  concat, map, ℕ, ◌<◌, if◌then◌else◌, ◌≡◌, refl, true, false, none, some, List, [], ◌∷◌, arith,
  ℕ_discrete,
}
use cppami.Reaction.{status_is_success}
use cppami.Text.{Bytes, bytes_discrete, codes}
use cppami.UnorderedMap.{find, emplace}

program : Unit {0}
unfolding get_event_pipe find emplace bytes_discrete ℕ_discrete contains completes
    EventList.is_success EventList.from_dict status_is_success
program = tt

abbrev message : Bytes → Bytes → Bytes → KeyValDict
message id key val = record {
  ordered_keys = codes "ActionID" ∷ key ∷ [];
  values = (codes "ActionID", id) ∷ (key, val) ∷ [];
}

abbrev head : KeyValDict
head = record {
  ordered_keys = codes "Response" ∷ codes "ActionID" ∷ codes "EventList" ∷ [];
  values =
      (codes "Response", codes "Success")
      ∷ (codes "ActionID", codes "7")
      ∷ (codes "EventList", codes "start")
      ∷ [];
}

abbrev item : KeyValDict
item = message (codes "7") (codes "Event") (codes "ParkedCall")

abbrev final : KeyValDict
final = message (codes "7") (codes "EventList") (codes "Complete")

abbrev stranger : KeyValDict
stranger = message (codes "8") (codes "Event") (codes "Hangup")

-- A dispatcher on which the action "7" waits at the pipe 0.
abbrev waiting : EventDispatcher
waiting = (get_event_pipe initial (codes "7")).0

waiting-Inv : Inv waiting
waiting-Inv = get_event_pipe-Inv initial-Inv (codes "7")

abbrev calls : List Call
calls =
    arrive stranger
    ∷ arrive head
    ∷ arrive item
    ∷ get_pipe (codes "8")
    ∷ arrive final
    ∷ arrive item
    ∷ []

calls-AnswersList : AnswersList (codes "7") calls head (item ∷ []) final
unfolding program
calls-AnswersList = wait (arrive stranger) (ground arith) (
    begin head refl refl refl
      (more item refl refl (pass (get_pipe (codes "8")) (ground arith) (complete final refl refl))))

AnswersList-answer_example : GivesAnswer waiting calls 0 (
    value (
      some (
        event_list (record {
          head = as_event head;
          tail = some (as_event final);
          events = as_event item ∷ [];
        }))))
unfolding program
AnswersList-answer_example = AnswersList-answer calls-AnswersList 0 waiting-Inv refl refl

run_calls-initial_example : (d : EventDispatcher) × (run_calls initial calls ≡ ok d) × Inv d
run_calls-initial_example = run_calls-initial calls

abbrev late : Answer
late = exception (timed_out (codes "7"))

abbrev started : EventList
started = record { head = as_event head; tail = none; events = [] }

-- A list without its last event can not be copied.
started_copied :
    (EventList.copy started ≡ err undefined)
    × (EventList.copy_assign started started ≡ err undefined)
unfolding EventList.copy EventList.copy_assign
started_copied = (refl, refl)

list_to_string-concat_example :
    list_to_string (record started { tail = some (as_event final) })
    ≡ concat (map (λ e. to_string e.dict) (as_event head ∷ as_event final ∷ []))
list_to_string-concat_example =
    list_to_string-concat (record started { tail = some (as_event final) })

waiting-IsUnique : IsUnique waiting
unfolding program
waiting-IsUnique = (refl, tt)

cleanup_object_lem_example :
    (d' : EventDispatcher) × (cleanup_object true waiting ≡ ok d')
    × ((a : Bytes) (p : ℕ) → find_pipe waiting a ≡ some p → d'.answers p ≡ some (value none))
    × ((p : ℕ) → p < waiting.next_pipe → (x : Answer) × (d'.answers p ≡ some x))
    × Keeps waiting d'
    × (cleanup_object false waiting
        ≡ (if is_empty waiting.promise_map then ok d' else err assertion))
cleanup_object_lem_example = cleanup_object_lem waiting-Inv waiting-IsUnique

run_calls-serve_all_example :
    (d' : EventDispatcher) × (run_calls waiting calls ≡ ok d')
    × (view d' ≡ serve_all (view waiting) calls)
run_calls-serve_all_example = run_calls-serve_all calls waiting-Inv
