-- ===== src/System.antt =====
-- The threads of a connection together (src/Connection.cpp, its constructor's callbacks and its
-- destructor): the reader, the thread of the stream parser, that of the dispatcher, the callers of
-- `invoke`, and the thread that destroys the connection. A step is what one thread does under one
-- mutex; any thread may take the next one. An exception that leaves a thread's function ends the
-- program: no step follows it.
pub mod Callbacks
pub mod History
pub mod Parts
pub mod Intake
pub mod Parsing
pub mod Queueing
pub mod Invariant
pub mod Delivery
pub mod Extends
pub mod Callers
pub mod Ending
pub mod Correlation
use cppami.EventDispatcher
use cppami.EventDispatcher.{EventDispatcher, get_event_pipe, set_exception_on_pipe, dispatch_event}
use cppami.Outcome.{Error, Result, ok, ◌>>=◌}
use cppami.Prelude.{Bool, true, false, Option, none, some, List, [], ◌∷◌, ◌++◌, ◌≡◌}
use cppami.SocketReader
use cppami.SocketReader.Arrivals.{arrived}
use cppami.SocketReader.{SocketReader, turn, returned, looping, handing, ended}
use cppami.StreamParser
use cppami.StreamParser.{StreamParser, Callback, set_ami_version, dispatch, process_chunk}
use cppami.TcpSocket.{TcpSocket, Os}
use cppami.Text.{Bytes}
use cppami.Worker
use cppami.Worker.{
  Worker, Stop, not_called, cleared, notified, work, wake, add, clear_run, next_item, holds_mutex,
}

-- What the dispatcher was made to do: by its thread, with a message, and by a caller.
pub data Entry : Type 0 where
  told : Bytes → Entry
  asked : Bytes → Entry
  forced : Bytes → Error → Entry

pub record System : Type 0 where
  pub reader : SocketReader
  -- the queue and the thread of the parser, and the callbacks that it still has to make
  pub chunks : Worker Bytes
  pub parser : StreamParser
  pub pending : List Callback
  pub ami_version : Bytes
  -- the queue and the thread of the dispatcher
  pub events : Worker Bytes
  pub dispatcher : EventDispatcher
  -- for the proofs: the bytes that the operating system handed over, the callbacks that the parser
  -- made, and the dispatcher's history
  pub received : Bytes
  pub made : List Callback
  pub history : List Entry

-- The constructor, on a socket that is open.
abbrev pub start : TcpSocket → System
start socket = record {
  reader = SocketReader.construct socket;
  chunks = Worker.start;
  parser = StreamParser.initial;
  pending = [];
  ami_version = [];
  events = Worker.start;
  dispatcher = EventDispatcher.initial;
  received = [];
  made = [];
  history = [];
}

-- One step of the parser's thread, which has made all callbacks of the last chunk.
unfoldable pub parse : System → System
parse s = elim (next_item s.chunks) [
  | none ↦ record s { chunks = work s.chunks }
  | some chunk ↦
      let (parser, out) = process_chunk s.parser chunk in
      record s { chunks = work s.chunks; parser = parser; pending = out }
]

-- One step of any thread.
pub data Step (s : System) : System → Type 0 where
  -- the reader's thread, up to its callback
  reads :
      (os : Os) (r : SocketReader)
      → s.reader.place ≡ looping
      → turn os s.reader ≡ ok r
      → Step s (record s { reader = r; received = s.received ++ arrived os s.reader })
  -- its callback, `add_buf`
  hands :
      (buf : Bytes)
      → s.reader.place ≡ handing buf
      → holds_mutex s.chunks.place ≡ false
      → Step s (record s { reader = returned s.reader; chunks = add buf s.chunks })
  -- the parser's thread
  parses : s.pending ≡ [] → Step s (parse s)
  -- its callbacks
  reports :
      (version : Bytes) (rest : List Callback)
      → s.pending ≡ set_ami_version version ∷ rest
      → Step s (record s {
        ami_version = version;
        pending = rest;
        made = s.made ++ set_ami_version version ∷ [];
      })
  adds :
      (message : Bytes) (rest : List Callback)
      → s.pending ≡ dispatch message ∷ rest
      → holds_mutex s.events.place ≡ false
      → Step s (record s {
        events = add message s.events;
        pending = rest;
        made = s.made ++ dispatch message ∷ [];
      })
  -- the dispatcher's thread, between messages and with one
  turns : next_item s.events ≡ none → Step s (record s { events = work s.events })
  dispatches :
      (message : Bytes) (d : EventDispatcher)
      → next_item s.events ≡ some message
      → dispatch_event s.dispatcher message ≡ ok d
      → Step s (record s {
        events = work s.events;
        dispatcher = d;
        history = s.history ++ told message ∷ [];
      })
  -- a caller, who may call until the connection is destroyed
  asks :
      (action_id : Bytes)
      → s.reader.thread_spin ≡ true
      → Step s (record s {
        dispatcher = (get_event_pipe s.dispatcher action_id).0;
        history = s.history ++ asked action_id ∷ [];
      })
  forces :
      (action_id : Bytes) (e : Error) (d : EventDispatcher)
      → s.reader.thread_spin ≡ true
      → set_exception_on_pipe s.dispatcher action_id e ≡ ok d
      → Step s (record s { dispatcher = d; history = s.history ++ forced action_id e ∷ [] })
  -- wake-ups that nobody sent
  wakes_parser : Step s (record s { chunks = wake s.chunks })
  wakes_dispatcher : Step s (record s { events = wake s.events })
  -- the destructor: it stops the reader, then the parser, then the dispatcher, and waits each time
  -- for the thread
  stops_reader : Step s (record s { reader = SocketReader.stop s.reader })
  stops_parser :
      s.reader.place ≡ ended
      → s.chunks.stop ≡ not_called
      → Step s (record s { chunks = clear_run s.chunks })
  notifies_parser : s.chunks.stop ≡ cleared → Step s (record s { chunks = Worker.notify s.chunks })
  stops_dispatcher :
      s.chunks.place ≡ Worker.finished
      → s.chunks.stop ≡ notified
      → s.events.stop ≡ not_called
      → Step s (record s { events = clear_run s.events })
  notifies_dispatcher :
      s.events.stop ≡ cleared → Step s (record s { events = Worker.notify s.events })

pub data Reach (s : System) : System → Type 0 where
  here : Reach s s
  step : {t u : System} → Reach s t → Step t u → Reach s u
