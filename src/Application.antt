-- ===== src/Application.antt =====
-- include/c++ami/Connection.hpp, src/Connection.cpp: an application that uses a connection. Its
-- threads call `invoke` in both forms, `async_invoke`, `add_callback` and `remove_callback` while
-- the connection's threads run; each call is taken apart into what it does under one mutex. A step
-- is of one thread, and any may take the next one.
pub mod Threads
pub mod Sound
pub mod Answers
pub mod Progress
pub mod Timed
pub mod Numbers
pub mod Numbering
pub mod Orderly
pub mod Writes
pub mod Heard
pub mod Calls
use cppami.Action
use cppami.Action.{Action}
use cppami.Connection.{
  Connection, dispatch_handler, add_callback, remove_callback, async_invoke, get, is_timeout,
}
use cppami.EventDispatcher.{EventDispatcher, Reaction, get_event_pipe, set_exception_on_pipe}
use cppami.Outcome.{Error, timed_out, Result, ok, err}
use cppami.Prelude.{
  ℕ, suc, ◌≡◌, ◌==◌, Bool, true, false, Option, none, some, List, [], ◌∷◌, ◌++◌, map, concat, drop,
  length, if◌then◌else◌,
}
use cppami.Reaction.{Event}
use cppami.SocketWriter
use cppami.SocketWriter.{SocketWriter}
use cppami.System
use cppami.System.{System, asked, forced, asks, forces, turns, dispatches}
use cppami.TcpSocket.{TcpSocket, Os}
use cppami.Text.{Bytes}

-- Where a call of `invoke` stands, with the pipe of its future: before `write`, in `wait_for`,
-- before `set_exception_on_pipe`, in `get`, and behind all of it.
pub data Place : Type 0 where
  writing waiting closing getting : ℕ → Place
  returned : Result (Option Reaction) → Place

pub record Invocation : Type 0 where
  pub action : Action
  -- whether the call is of the form that has a timeout
  pub timed : Bool
  pub place : Place

pub record Application : Type 0 where
  pub system : System
  pub callbacks : List (Bytes × ℕ)
  pub writer : SocketWriter
  pub written : Bytes
  -- the calls of `invoke` so far, and how many they are
  pub invocations : ℕ → Option Invocation
  pub count : ℕ
  -- the events that were handed to `dispatch_handler`, which has not called the callbacks yet
  pub to_call : List Event
  -- for the proofs: the callbacks that were called, each with its argument, and the actions that
  -- were written, each with the bytes that the operating system took
  pub called : List (ℕ × Event)
  pub sent : List (Action × Bytes)

-- A new connection on a socket that is open.
abbrev pub start : TcpSocket → Application
start socket = record {
  system = System.start socket;
  callbacks = [];
  writer = SocketWriter.construct socket;
  written = [];
  invocations = λ i. none;
  count = 0;
  to_call = [];
  called = [];
  sent = [];
}

abbrev pub connection : Application → Connection
connection a = record {
  ami_version = a.system.ami_version;
  callbacks = a.callbacks;
  dispatcher = a.system.dispatcher;
  reader = a.system.reader;
  writer = a.writer;
  written = a.written;
}

abbrev pub put : (ℕ → Option Invocation) → ℕ → Invocation → ℕ → Option Invocation
put invocations i v j = if i == j then some v else invocations j

abbrev pub move : Application → ℕ → Invocation → Place → Application
move a i v place = record a { invocations = put a.invocations i (record v { place = place }) }

-- What a message is written with: the bytes gain what the operating system took.
abbrev pub write : Os → Application → Action → Application
write os a action =
    let taken = (SocketWriter.write os a.writer (Action.to_string action)).1 in
    record a {
      written = (async_invoke os (connection a) action).1.written;
      sent = a.sent ++ (action, taken) ∷ [];
    }

-- Where `invoke` is behind its `write`.
abbrev pub behind_write : Result (Unit {0}) → Bool → ℕ → Place
behind_write (err e) timed pipe = returned (err e)
behind_write (ok _) timed pipe = if timed then waiting pipe else getting pipe

abbrev pub behind_wait : Bool → ℕ → Place
behind_wait timeout pipe = if timeout then closing pipe else getting pipe

-- The events that the dispatcher hands to `dispatch_handler` in a step.
abbrev pub heard : System → System → List Event
heard s t = drop (length s.dispatcher.dispatched) t.dispatcher.dispatched

-- A step of the dispatcher's thread, which calls the callbacks itself and goes on behind them.
abbrev pub is_dispatching : {s t : System} → System.Step s t → Bool
is_dispatching (turns n) = true
is_dispatching (dispatches message d n ran) = true
is_dispatching _ = false

-- A step of the threads is a caller's; these are taken by `invoke`.
abbrev pub is_caller : {s t : System} → System.Step s t → Bool
is_caller (asks action_id live) = true
is_caller (forces action_id e d live ran) = true
is_caller _ = false

-- The dispatcher with one action more, and with a pipe closed by a timeout.
abbrev pub ask : System → Bytes → System
ask s action_id = record s {
  dispatcher = (get_event_pipe s.dispatcher action_id).0;
  history = s.history ++ asked action_id ∷ [];
}

abbrev pub force : System → Bytes → EventDispatcher → System
force s action_id d = record s {
  dispatcher = d;
  history = s.history ++ forced action_id (timed_out action_id) ∷ [];
}

abbrev pub is_live : Application → Bool
is_live a = a.system.reader.thread_spin

pub data Step (a : Application) : Application → Type 0 where
  -- the connection's threads, up to `dispatch_handler`
  runs :
      (t : System) (st : System.Step a.system t)
      → is_caller st ≡ false
      → (is_dispatching st ≡ true → a.to_call ≡ [])
      → Step a (record a { system = t; to_call = a.to_call ++ heard a.system t })
  -- `dispatch_handler`, on the dispatcher's thread
  handles :
      (e : Event) (rest : List Event)
      → a.to_call ≡ e ∷ rest
      → Step a (record a { to_call = rest; called = a.called ++ dispatch_handler (connection a) e })
  -- `invoke`: the pipe
  invokes :
      (action : Action) (timed : Bool)
      → is_live a ≡ true
      → Step a (record a {
        system = ask a.system action.action_id;
        invocations = put a.invocations a.count (record {
          action = action;
          timed = timed;
          place = writing (get_event_pipe a.system.dispatcher action.action_id).1;
        });
        count = suc a.count;
      })
  -- its message
  writes :
      (i : ℕ) (v : Invocation) (pipe : ℕ) (os : Os)
      → is_live a ≡ true
      → a.invocations i ≡ some v
      → v.place ≡ writing pipe
      → Step a (
          move
            (write os a v.action)
            i
            v
            (behind_write (async_invoke os (connection a) v.action).0 v.timed pipe))
  -- the end of its wait
  waits :
      (i : ℕ) (v : Invocation) (pipe : ℕ)
      → a.invocations i ≡ some v
      → v.place ≡ waiting pipe
      → Step a (move a i v (behind_wait (is_timeout a.system.dispatcher pipe) pipe))
  -- the timeout
  closes :
      (i : ℕ) (v : Invocation) (pipe : ℕ) (d : EventDispatcher)
      → is_live a ≡ true
      → a.invocations i ≡ some v
      → v.place ≡ closing pipe
      → set_exception_on_pipe a.system.dispatcher v.action.action_id (timed_out v.action.action_id)
        ≡ ok d
      → Step a (move (record a { system = force a.system v.action.action_id d }) i v (getting pipe))
  -- its result
  gets :
      (i : ℕ) (v : Invocation) (pipe : ℕ) (r : Result (Option Reaction))
      → a.invocations i ≡ some v
      → v.place ≡ getting pipe
      → get a.system.dispatcher pipe ≡ some r
      → Step a (move a i v (returned r))
  -- `async_invoke`
  sends : (action : Action) (os : Os) → is_live a ≡ true → Step a (write os a action)
  -- `add_callback` and `remove_callback`
  registers :
      (id : Bytes) (callback : ℕ)
      → is_live a ≡ true
      → Step a (record a { callbacks = (add_callback (connection a) id callback).1.callbacks })
  removes :
      (key : Bytes)
      → is_live a ≡ true
      → Step a (record a { callbacks = (remove_callback (connection a) key).callbacks })

pub data Reach (a : Application) : Application → Type 0 where
  here : Reach a a
  step : {b c : Application} → Reach a b → Step b c → Reach a c
