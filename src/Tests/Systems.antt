-- ===== src/Tests/Systems.antt =====
-- A connection from its start to its end: a caller asks, the server sends its version and the
-- answer, and the connection is destroyed.
use cppami.SocketReader.Arrivals.{in_hand}
use cppami.EventDispatcher.Answers.{Keeps}
use cppami.EventDispatcher
use cppami.EventDispatcher.Collecting.{as_event, begin, complete}
use cppami.EventDispatcher.Serving.{arrive}
use cppami.EventList
use cppami.KeyValDict.{KeyValDict}
use cppami.Reaction.{status_is_success}
use cppami.System.Ending.Finish.{Reach-ends}
use cppami.System.Callers.{Reach-answer, Reach-cleanup_object}
use cppami.System.History.{Means, at_end, hears}
use cppami.EventDispatcher.{
  EventDispatcher, update, Answer, value, event_list, cleanup_object, next_response, get_event_pipe,
  dispatch_event, dispatch_dict, dispatch_response, first_response, close_pipe, satisfy,
}
use cppami.KeyValDict.{set_message, read_fields, add_field, contains}
use cppami.Outcome.{ok}
use cppami.Prelude.{
  ℕ, ◌<◌, ◌≡◌, refl, true, none, some, List, [], ◌∷◌, ◌++◌, concat, arith, ℕ_discrete,
}
use cppami.SocketReader.{turn}
use cppami.StreamParser.Framing.{Framing}
use cppami.StreamParser.{dispatch, process_chunk, process_chunks, parse_events}
use cppami.StreamParser
use cppami.System.Callbacks.{messages, last_version}
use cppami.System.Delivery.{Reach-dispatches, Reach-sequential, joined-Framing}
use cppami.System.History.{replay, told_messages}
use cppami.System.{
  System, Entry, told, start, parse, Step, reads, hands, parses, reports, adds, turns, dispatches,
  asks, stops_reader, stops_parser, notifies_parser, stops_dispatcher, notifies_dispatcher, Reach,
  here, step,
}
use cppami.TcpSocket.{TcpSocket, Os, ready, read, receive, clamp, timeout_ms, to_int}
use cppami.Text.{Bytes, bytes_discrete, codes, eor, index_of, starts_with}
use cppami.UnorderedMap.{find, emplace, erase}
use cppami.Worker.{work, next_item, notified, finished}

abbrev pub third : TcpSocket
third = record { sock_fd = some 3 }

abbrev pub delivers : Bytes → Os
delivers bytes = record {
  socket = some 3;
  getaddrinfo = λ _. none;
  connect = λ _ _ _. true;
  poll = λ _ _. ready 1;
  recv = λ _ _. some bytes;
  send = λ _ _. none;
}

record RunFrom (first : System) : Type 0 where
  last : System
  reach : Reach first last

abbrev Run : Type 0
Run = RunFrom (start third)

abbrev and_then : {first : System} (r : RunFrom first) {t : System} → Step r.last t → RunFrom first
and_then r {t} s = record { last = t; reach = step r.reach s }

unfoldable pub program : Unit {0}
unfolding turn read receive clamp timeout_ms to_int work next_item parse process_chunk parse_events
    StreamParser.dispatch_events index_of starts_with set_message read_fields add_field find emplace
    erase bytes_discrete get_event_pipe dispatch_event dispatch_dict dispatch_response
    first_response close_pipe satisfy contains ℕ_discrete next_response EventList.from_dict
    EventList.is_success EventList.completes EventList.is_list_complete EventList.add_event
    EventList.add_dict status_is_success
program = tt

abbrev pub version_line : Bytes
version_line = codes "Asterisk\r\n"

abbrev pub answer : Bytes
answer = codes "ActionID: 7\r\n\r\n"

-- The version line is read, and processed; the reader stands before its next read.
unfoldable greeted : Run
unfolding program
greeted =
    let r1 = and_then (record { last = start third; reach = here }) (asks (codes "7") refl) in
    let r2 = and_then r1 (reads (delivers version_line) _ refl refl) in
    let r3 = and_then r2 (hands version_line refl refl) in
    let r4 = and_then r3 (parses refl) in
    let r5 = and_then r4 (parses refl) in
    let r6 = and_then r5 (parses refl) in
    let r7 = and_then r6 (reports (codes "Asterisk") [] refl) in and_then r7 (parses refl)

-- The answer is read and stands in the dispatcher's batch.
unfoldable answered : Run
unfolding program greeted
answered =
    let r1 = and_then greeted (reads (delivers answer) _ refl refl) in
    let r2 = and_then r1 (hands answer refl refl) in
    let r3 = and_then r2 (parses refl) in
    let r4 = and_then r3 (parses refl) in
    let r5 = and_then r4 (parses refl) in
    let r6 = and_then r5 (adds answer [] refl refl) in
    let r7 = and_then r6 (turns refl) in and_then r7 (turns refl)

-- The answer is given, and the threads are stopped one after the other.
unfoldable joined : Run
unfolding program greeted answered
joined =
    let r1 = and_then answered (dispatches answer _ refl refl) in
    let r2 = and_then r1 (turns refl) in
    let r3 = and_then r2 stops_reader in
    let r4 = and_then r3 (reads (delivers []) _ refl refl) in
    let r5 = and_then r4 (stops_parser refl refl) in
    let r6 = and_then r5 (notifies_parser refl) in
    let r7 = and_then r6 (parses refl) in
    let r8 = and_then r7 (parses refl) in
    let r9 = and_then r8 (parses refl) in
    let r10 = and_then r9 (stops_dispatcher refl refl refl) in
    let r11 = and_then r10 (notifies_dispatcher refl) in
    let r12 = and_then r11 (turns refl) in and_then r12 (turns refl)

abbrev head_text : Bytes
head_text = codes "Response: Success\r\nActionID: 7\r\nEventList: start\r\n\r\n"

abbrev final_text : Bytes
final_text = codes "ActionID: 7\r\nEventList: Complete\r\n\r\n"

abbrev dict_of : Bytes → Bytes → List Bytes → List (Bytes × Bytes) → KeyValDict
dict_of key val keys values = record {
  ordered_keys = keys ++ codes "ActionID" ∷ key ∷ [];
  values = values ++ (codes "ActionID", codes "7") ∷ (key, val) ∷ [];
}

abbrev head : KeyValDict
head =
    dict_of (codes "EventList") (codes "start") (codes "Response" ∷ [])
      ((codes "Response", codes "Success") ∷ [])

abbrev final : KeyValDict
final = dict_of (codes "EventList") (codes "Complete") [] []

-- The answer is a list, in one buffer.
unfoldable list_queued : RunFrom greeted.last
unfolding program greeted
list_queued =
    let r1 =
      and_then (record { last = greeted.last; reach = here })
        (reads (delivers (head_text ++ final_text)) _ refl refl) in
    let r2 = and_then r1 (hands (head_text ++ final_text) refl refl) in
    let r3 = and_then r2 (parses refl) in
    let r4 = and_then r3 (parses refl) in
    let r5 = and_then r4 (parses refl) in
    let r6 = and_then r5 (adds head_text (dispatch final_text ∷ []) refl refl) in
    let r7 = and_then r6 (adds final_text [] refl refl) in
    let r8 = and_then r7 (turns refl) in and_then r8 (turns refl)

-- The dispatcher with the list in the making, and with the answer given.
abbrev began : EventDispatcher
began = record {
  promise_map = (codes "7", 0) ∷ [];
  event_map = (codes "7", record { head = as_event head; tail = none; events = [] }) ∷ [];
  next_pipe = 1;
  answers = λ p. none;
  dispatched = [];
}

abbrev given : EventDispatcher
given = record {
  promise_map = [];
  event_map = [];
  next_pipe = 1;
  answers = update began.answers 0 (
      value (
        some (
          event_list
            (record { head = as_event head; tail = some (as_event final); events = [] }))));
  dispatched = [];
}

begins : dispatch_event greeted.last.dispatcher head_text ≡ ok began
unfolding program greeted
begins = refl

gives_list : dispatch_event began final_text ≡ ok given
unfolding program
gives_list = refl

unfoldable listed : RunFrom greeted.last
unfolding program greeted list_queued
listed =
    let r9 = and_then list_queued (dispatches head_text began refl begins) in
    and_then r9 (dispatches final_text given refl gives_list)

Reach-dispatches_example :
    (d : EventDispatcher) × (dispatch_event answered.last.dispatcher answer ≡ ok d)
    × Keeps answered.last.dispatcher d
unfolding program greeted answered
Reach-dispatches_example = Reach-dispatches answer answered.reach refl

Reach-sequential_example :
    let s = answered.last in
    (concat s.chunks.added ++ in_hand s.reader.place ≡ s.received)
    × (s.chunks.processed ++ (s.chunks.batch ++ s.chunks.queue) ≡ s.chunks.added)
    × (process_chunks StreamParser.initial s.chunks.processed ≡ (s.parser, s.made ++ s.pending))
    × (s.events.processed ++ (s.events.batch ++ s.events.queue) ≡ messages s.made)
    × (s.ami_version ≡ last_version [] s.made)
    × (replay EventDispatcher.initial s.history ≡ ok s.dispatcher)
    × (told_messages s.history ≡ s.events.processed)
Reach-sequential_example = Reach-sequential answered.reach

joined-Framing_example :
    let s = joined.last in
    (s.received ≡ codes "Asterisk" ++ (eor ++ ([] ++ concat (answer ∷ []))))
    × (s.ami_version ≡ codes "Asterisk")
    × Framing ([] ++ concat (answer ∷ [])) s.events.processed s.parser.event_buf
unfolding program greeted answered joined
joined-Framing_example =
    joined-Framing (codes "Asterisk") [] (answer ∷ []) joined.reach refl refl refl (omega arith)

abbrev told_list : List Entry
told_list = told head_text ∷ told final_text ∷ []

told_list-Means : Means told_list (arrive head ∷ arrive final ∷ [])
unfolding program
told_list-Means = hears head_text head refl (hears final_text final refl at_end)

Reach-answer_example :
    listed.last.dispatcher.answers 0
    ≡ some (
        value (
          some (
            event_list
              (record { head = as_event head; tail = some (as_event final); events = [] }))))
unfolding program greeted list_queued listed
Reach-answer_example =
    Reach-answer greeted.reach refl refl listed.reach refl told_list-Means
      (begin head refl refl refl (complete final refl refl))

Reach-cleanup_object_example :
    (d : EventDispatcher) × (cleanup_object true answered.last.dispatcher ≡ ok d)
    × ((p : ℕ) → p < answered.last.dispatcher.next_pipe → (x : Answer) × (d.answers p ≡ some x))
    × Keeps answered.last.dispatcher d
Reach-cleanup_object_example = Reach-cleanup_object answered.reach here

Reach-ends_example :
    (t : System) × Reach answered.last t × (t.events.stop ≡ notified) × (t.events.place ≡ finished)
Reach-ends_example = Reach-ends answered.reach
