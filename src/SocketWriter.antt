-- ===== src/SocketWriter.antt =====
-- include/c++ami/net/SocketWriter.hpp, src/net/SocketWriter.cpp.
use cppami.Outcome.{Result}
use cppami.TcpSocket
use cppami.TcpSocket.{TcpSocket, Os}
use cppami.Text.{Bytes}

pub record SocketWriter : Type 0 where
  pub socket : TcpSocket

abbrev pub construct : TcpSocket → SocketWriter
construct socket = record { socket = socket }

unfoldable pub write : Os → SocketWriter → Bytes → Result (Unit {0}) × Bytes
write os w buf = TcpSocket.write os w.socket buf
