-- ===== src/System/Parts.antt =====
-- The invariant of the system, a record for each pair of neighbours.
use cppami.SocketReader.Arrivals.{in_hand}
use cppami.EventDispatcher.{EventDispatcher}
use cppami.EventDispatcher
use cppami.Outcome.{ok}
use cppami.Prelude.{Bool, true, false, List, [], ◌++◌, ◌≡◌, concat}
use cppami.SocketReader.{SocketReader, ended}
use cppami.StreamParser.{
  StreamParser, Callback, set_ami_version, dispatch, process_chunk, process_chunks,
}
use cppami.StreamParser
use cppami.System.Callbacks.{messages, last_version}
use cppami.System.History.{replay, told_messages}
use cppami.System.{Entry}
use cppami.Text.{Bytes}
use cppami.Worker.Invariant.{woken_lem, wake-Inv, add-Inv, clear_run-Inv, stopped-Inv}
use cppami.Worker.Invariant
use cppami.Worker.{Worker, Place, finished, Stop, not_called, cleared, notified}

abbrev pub is_stopped : Stop → Bool
is_stopped not_called = false
is_stopped cleared = true
is_stopped notified = true

-- The reader and the parser's queue.
pub record Taken (reader : SocketReader) (chunks : Worker Bytes) (received : Bytes) : Type 0 where
  pub gained : concat chunks.added ++ in_hand reader.place ≡ received
  pub quiet :
      is_stopped chunks.stop ≡ true → (reader.place ≡ ended) × (chunks.added ≡ chunks.promised)
  pub inv : Invariant.Inv chunks

-- The parser's thread: what it has made of the chunks processed is the callbacks made, and those
-- that it still has to make.
pub record Parsed (processed : List Bytes) (place : Place) (parser : StreamParser)
    (pending made : List Callback) : Type 0 where
  pub parsed : process_chunks StreamParser.initial processed ≡ (parser, made ++ pending)
  pub idle : place ≡ finished → pending ≡ []

-- The parser's callbacks and the dispatcher's queue.
pub record Queued (place : Place) (events : Worker Bytes) (made : List Callback) (version : Bytes)
    : Type 0 where
  pub queued : events.added ≡ messages made
  pub reported : version ≡ last_version [] made
  pub quiet : is_stopped events.stop ≡ true → (place ≡ finished) × (events.added ≡ events.promised)
  pub inv : Invariant.Inv events

-- The dispatcher's thread.
pub record Replayed (processed : List Bytes) (dispatcher : EventDispatcher) (history : List Entry)
    : Type 0 where
  pub replayed : replay EventDispatcher.initial history ≡ ok dispatcher
  pub told_all : told_messages history ≡ processed
