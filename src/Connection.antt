-- ===== src/Connection.antt =====
-- include/c++ami/Connection.hpp, src/Connection.cpp: what an application holds. A callback is a
-- number; the connection's threads act on the dispatcher between the calls, as the steps of
-- `EventDispatcher` and `Worker` say.
pub mod Waiting
pub mod Registry
use mathlib.Core.Option
use cppami.Action
use cppami.Action.{Action}
use cppami.EventDispatcher
use cppami.EventDispatcher.{
  EventDispatcher, Reaction, Answer, value, exception, get_event_pipe, set_exception_on_pipe,
}
use cppami.Outcome.{Error, timed_out, Result, ok, err, ◌>>=◌, map_ok}
use cppami.Prelude.{
  ℕ, Bool, true, false, Option, none, some, List, [], ◌∷◌, ◌++◌, map, if◌then◌else◌,
}
use cppami.Reaction.{Event}
use cppami.SocketReader
use cppami.SocketReader.{SocketReader}
use cppami.SocketWriter
use cppami.SocketWriter.{SocketWriter}
use cppami.TcpSocket.{Os, construct, Call}
use cppami.Text.{Bytes, bytes_discrete}
use cppami.UnorderedMap

pub record Connection : Type 0 where
  pub ami_version : Bytes
  pub callbacks : List (Bytes × ℕ)
  pub dispatcher : EventDispatcher
  pub reader : SocketReader
  pub writer : SocketWriter
  -- the bytes that the operating system took, in order
  pub written : Bytes

-- `Connection(hostname, port)`
unfoldable pub connect : Os → Bytes → ℕ → Result Connection × List Call
connect os hostname port =
    let (result, calls) = construct os hostname port in
    (
      map_ok
          (λ socket. record {
            ami_version = [];
            callbacks = [];
            dispatcher = EventDispatcher.initial;
            reader = SocketReader.construct socket;
            writer = SocketWriter.construct socket;
            written = [];
          })
          result,
      calls,
    )

-- The version callback of the stream parser.
abbrev pub set_ami_version : Connection → Bytes → Connection
set_ami_version c ami_version = record c { ami_version = ami_version }

abbrev pub get_ami_version : Connection → Bytes
get_ami_version c = c.ami_version

-- `dispatch_handler`: the callbacks that are called, each with its argument.
unfoldable pub dispatch_handler : Connection → Event → List (ℕ × Event)
dispatch_handler c dict = map (λ entry. (entry.1, dict)) c.callbacks

-- `add_callback`, with the id that `create_uuid` gives.
unfoldable pub add_callback : Connection → Bytes → ℕ → Bytes × Connection
add_callback c id callback =
    (id, record c { callbacks = UnorderedMap.emplace bytes_discrete id callback c.callbacks })

unfoldable pub remove_callback : Connection → Bytes → Connection
remove_callback c key = record c { callbacks = UnorderedMap.erase bytes_discrete key c.callbacks }

unfoldable pub async_invoke : Os → Connection → Action → Result (Unit {0}) × Connection
async_invoke os c action =
    let (result, taken) = SocketWriter.write os c.writer (Action.to_string action) in
    (result, record c { written = c.written ++ taken })

-- Both forms of `invoke` up to the wait: the pipe to wait on.
unfoldable pub invoke : Os → Connection → Action → Result ℕ × Connection
unfolding async_invoke
invoke os c action =
    let (dispatcher, pipe) = get_event_pipe c.dispatcher action.action_id in
    let (result, c') = async_invoke os (record c { dispatcher = dispatcher }) action in
    (map_ok (λ _. pipe) result, c')

-- What `future::get` makes of an answer.
abbrev pub outcome : Answer → Result (Option Reaction)
outcome (value r) = ok r
outcome (exception e) = err e

-- `future::get`, with what the dispatcher knows: `none` is a wait.
unfoldable pub get : EventDispatcher → ℕ → Option (Result (Option Reaction))
get d pipe = Option.map outcome (d.answers pipe)

-- `reaction.wait_for(timeout) == std::future_status::timeout`, with what the dispatcher knows when
-- the time is over.
unfoldable pub is_timeout : EventDispatcher → ℕ → Bool
is_timeout d pipe = elim (d.answers pipe) [ none ↦ true | some a ↦ false ]

-- The rest of `invoke` with a timeout up to `get`, on the dispatcher as it is by then.
unfoldable pub after_wait : Bool → EventDispatcher → Bytes → Result EventDispatcher
after_wait timeout d action_id =
    if timeout then set_exception_on_pipe d action_id (timed_out action_id) else ok d
