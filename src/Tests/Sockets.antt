-- ===== src/Tests/Sockets.antt =====
-- Sockets on an operating system that answers each call in one way.
use cppami.Outcome.{Error, ok, err}
use cppami.Prelude.{ℕ, ◌^◌, ◌≤◌, ◌<◌, ◌≡◌, inr, refl, true, false, some, [], ◌∷◌}
use cppami.TcpSocket.Opening.{GivesBack, left_open, open_socket-GivesBack, construct_leak}
use cppami.TcpSocket.Transfer.{timeout_ms_lem}
use cppami.TcpSocket.{
  TcpSocket, pos, negsuc, Os, inet, ready, timeout_ms, open_socket, connect_address, construct,
  read,
}
use cppami.Text.{codes}

abbrev third : TcpSocket
third = record { sock_fd = some 3 }

-- Every call succeeds; `send` takes two bytes at a time.
abbrev willing : Os
willing = record {
  socket = some 3;
  getaddrinfo = λ _. some inet;
  connect = λ _ _ _. true;
  poll = λ _ _. ready 1;
  recv = λ _ _. some (codes "ok");
  send = λ _ _. some 2;
}

-- `connect` is refused, and a poll tells of a hang-up.
abbrev refusing : Os
refusing = record willing { connect = λ _ _ _. false; poll = λ _ _. ready 17 }

hang_up : read refusing third 4096 (pos 500) ≡ ok []
unfolding read
hang_up = refl

open_socket-GivesBack_example : GivesBack (open_socket refusing (codes "pbx") 5038)
open_socket-GivesBack_example = open_socket-GivesBack refusing (codes "pbx") 5038

construct_leak_example :
    (e : Error) × ((construct willing (codes "pbx") 0).0 ≡ err e)
    × (left_open [] (construct willing (codes "pbx") 0).1 ≡ 3 ∷ [])
unfolding open_socket connect_address
construct_leak_example = construct_leak willing (codes "pbx") 0 3 (inr refl) refl

timeout_ms_lem_example :
    (3000000000 < 2 ^ 31 → timeout_ms (pos 3000000000) ≡ pos 3000000000)
    × (timeout_ms (negsuc 3000000000) ≡ pos 0)
    × (2 ^ 31 ≤ 3000000000
        → 3000000000 < 2 ^ 32
        → (k : ℕ) × (timeout_ms (pos 3000000000) ≡ negsuc k))
timeout_ms_lem_example = timeout_ms_lem 3000000000
