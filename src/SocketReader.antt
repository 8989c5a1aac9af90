-- ===== src/SocketReader.antt =====
-- include/c++ami/net/SocketReader.hpp, src/net/SocketReader.cpp: the thread that reads the socket.
pub mod Arrivals
use cppami.Outcome.{Result, ok, map_ok}
use cppami.Prelude.{Bool, true, false, [], ◌∷◌}
use cppami.TcpSocket.{TcpSocket, Os, pos, read}
use cppami.Text.{Bytes}

-- Where `work_thread` stands: at the test of `thread_spin_`, in the callback with a buffer, or
-- behind the loop.
pub data Place : Type 0 where
  looping : Place
  handing : Bytes → Place
  ended : Place

pub record SocketReader : Type 0 where
  pub socket : TcpSocket
  pub thread_spin : Bool
  pub place : Place

-- The constructor, with `start_work_thread`.
abbrev pub construct : TcpSocket → SocketReader
construct socket = record { socket = socket; thread_spin = true; place = looping }

-- What follows a read: the callback, unless nothing was read.
abbrev pub after_read : Bytes → Place
after_read [] = looping
after_read (c ∷ cs) = handing (c ∷ cs)

-- One round of `work_thread` up to the callback. An exception of `read` leaves the thread's
-- function.
unfoldable pub turn : Os → SocketReader → Result SocketReader
turn os r = elim r.place [
  | looping ↦ elim r.thread_spin [
    | true ↦ map_ok (λ buf. record r { place = after_read buf }) (read os r.socket 4096 (pos 500))
    | false ↦ ok (record r { place = ended })
  ]
  | handing buf ↦ ok r
  | ended ↦ ok r
]

-- The callback returns.
abbrev pub returned : SocketReader → SocketReader
returned r = record r { place = looping }

-- `stop_work_thread`, before it waits for the thread.
abbrev pub stop : SocketReader → SocketReader
stop r = record r { thread_spin = false }
