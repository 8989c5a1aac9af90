-- ===== src/TcpSocket.antt =====
-- include/c++ami/net/TcpSocket.hpp, src/net/TcpSocket.cpp. The operating system is a parameter:
-- what each call answers. A descriptor of -1 is `none`.
pub mod Opening
pub mod Transfer
use cppami.Outcome.{
  map_ok, Error, Result, ok, err, system_error, no_address, invalid_argument, out_of_range,
}
use cppami.Prelude.{
  ℕ, suc, ◌-◌, ◌^◌, ◌%◌, Bool, true, false, Option, none, some, List, [], ◌∷◌, ◌++◌, ltb, ◌==◌,
  if◌then◌else◌, length, take, drop, replicate,
}
use cppami.Text.{Bytes}

-- A signed integer: `negsuc n` is -(n + 1).
pub data ℤ : Type 0 where
  pos negsuc : ℕ → ℤ

-- `res->ai_addr` and its `sa_family`.
pub data Address : Type 0 where
  null inet inet6 other : Address

-- What `poll` answers: -1, 0, or `fds.revents`.
pub data Poll : Type 0 where
  failed timeout : Poll
  ready : ℕ → Poll

pub record Os : Type 0 where
  pub socket : Option ℕ
  pub getaddrinfo : Bytes → Option Address
  -- whether `connect` succeeds at this port
  pub connect : ℕ → Address → ℕ → Bool
  -- `poll` on a descriptor for a number of milliseconds
  pub poll : ℕ → ℤ → Poll
  -- the bytes that `recv` puts into a buffer of a size, and the number of bytes that `send` takes
  pub recv : ℕ → ℕ → Option Bytes
  pub send : ℕ → Bytes → Option ℕ

-- The calls that take and give back what the operating system lends.
pub data Call : Type 0 where
  opened closed : ℕ → Call
  addresses_made addresses_freed : Call

-- `open` from `getaddrinfo`'s answer to the end of `addrinfo_scope`: what `sock_fd` is then, and
-- the result.
unfoldable pub connect_address : Os → ℕ → Address → ℕ → Option ℕ × Result ℕ
connect_address os fd null port = (some fd, err no_address)
connect_address os fd other port = (some fd, err no_address)
connect_address os fd inet port =
    if os.connect fd inet port then (none, ok fd) else (some fd, err system_error)
connect_address os fd inet6 port =
    if os.connect fd inet6 port then (none, ok fd) else (some fd, err system_error)

-- The callback of `sock_fd_scope`.
abbrev pub close_guarded : Option ℕ → List Call
close_guarded none = []
close_guarded (some fd) = closed fd ∷ []

-- `open` with the calls in their order; the two scope guards run when their scope is left. What
-- `setsockopt` answers changes nothing.
unfoldable pub open_socket : Os → Bytes → ℕ → Result ℕ × List Call
unfolding connect_address
open_socket os hostname port = elim os.socket [
  | none ↦ (err system_error, [])
  | some fd ↦ elim (os.getaddrinfo hostname) [
    | none ↦ (err no_address, opened fd ∷ close_guarded (some fd))
    | some address ↦
        let (sock_fd, result) = connect_address os fd address port in
        (result, opened fd ∷ addresses_made ∷ addresses_freed ∷ close_guarded sock_fd)
  ]
]

abbrev pub is_empty : Bytes → Bool
is_empty [] = true
is_empty (c ∷ cs) = false

-- The body of the constructor. When it throws the destructor does not run.
abbrev pub check_arguments : Bytes → ℕ → Result ℕ × List Call → Result ℕ × List Call
check_arguments hostname port (err e, calls) = (err e, calls)
check_arguments hostname port (ok fd, calls) =
    if is_empty hostname
    then (err invalid_argument, calls)
    else (if port == 0 then (err out_of_range, calls) else (ok fd, calls))

pub record TcpSocket : Type 0 where
  pub sock_fd : Option ℕ

unfoldable pub construct : Os → Bytes → ℕ → Result TcpSocket × List Call
construct os hostname port =
    let (result, calls) = check_arguments hostname port (open_socket os hostname port) in
    (map_ok (λ fd. record { sock_fd = some fd }) result, calls)

-- `close`, and the destructor, which calls it on `std::exchange(sock_fd_, -1)`.
abbrev pub close : Option ℕ → List Call
close none = []
close (some fd) = closed fd ∷ []

abbrev pub destroy : TcpSocket → TcpSocket × List Call
destroy s = (record { sock_fd = none }, close s.sock_fd)

-- `static_cast<int>` of a number that is not negative.
unfoldable pub to_int : ℕ → ℤ
to_int n = let m = n % 2 ^ 32 in if ltb m (2 ^ 31) then pos m else negsuc (2 ^ 32 - 1 - m)

-- `static_cast<int>(std::max(timeout.count(), {0}))`
unfoldable pub timeout_ms : ℤ → ℤ
unfolding to_int
timeout_ms (pos n) = to_int n
timeout_ms (negsuc n) = to_int 0

-- `std::clamp(buf_size, {1024}, {65535})`
unfoldable pub clamp : ℕ → ℕ
clamp n = if ltb n 1024 then 1024 else (if ltb 65535 n then 65535 else n)

abbrev pub pollin : ℕ
pollin = 1

-- `recv` into the front of a buffer of zero bytes, and `resize`.
unfoldable pub receive : Os → ℕ → ℕ → Result Bytes
receive os fd size = elim (os.recv fd size) [
  | none ↦ err system_error
  | some received ↦
      let buffer = received ++ drop (length received) (replicate size 0) in
      ok (take (length received) buffer)
]

unfoldable pub read : Os → TcpSocket → ℕ → ℤ → Result Bytes
unfolding receive clamp timeout_ms
read os s buf_size t = elim s.sock_fd [
  | none ↦ ok []
  | some fd ↦ elim (os.poll fd (timeout_ms t)) [
    | failed ↦ err system_error
    | timeout ↦ ok []
    | ready revents ↦ if revents == pollin then receive os fd (clamp buf_size) else ok []
  ]
]

-- `write`: the result, and what the operating system took of the bytes.
unfoldable pub write : Os → TcpSocket → Bytes → Result (Unit {0}) × Bytes
write os s [] = (ok tt, [])
write os s (c ∷ cs) = elim s.sock_fd [
  | none ↦ (ok tt, [])
  | some fd ↦ elim (os.send fd (c ∷ cs)) [
    | none ↦ (err system_error, [])
    | some write_size ↦ (ok tt, take write_size (c ∷ cs))
  ]
]
