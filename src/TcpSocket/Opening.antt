-- ===== src/TcpSocket/Opening.antt =====
-- What is lent by the operating system is given back.
use cppami.TcpSocket.{
  Os, Address, null, inet, inet6, other, Call, opened, closed, addresses_made, addresses_freed,
  connect_address, close_guarded, open_socket, construct, check_arguments, is_empty,
}
use cppami.Outcome.{map_ok, Error, Result, ok, err, invalid_argument, out_of_range}
use cppami.Prelude.{
  some, ap, ℕ, suc, ◌-◌, true, List, [], ◌∷◌, ◌≡◌, ◌⊎◌, inl, inr, refl, ◌==◌, if◌then◌else◌, arith,
  Bool-cases, Option-cases,
}
use cppami.Text.{Bytes}

without : ℕ → List ℕ → List ℕ
without fd [] = []
without fd (f ∷ fds) = let rest = without fd fds in if f == fd then fds else f ∷ rest

-- The descriptors that a list of calls leaves open, and the address lists that it leaves.
unfoldable pub left_open : List ℕ → List Call → List ℕ
unfolding without
left_open fds [] = fds
left_open fds (opened fd ∷ calls) = left_open (fd ∷ fds) calls
left_open fds (closed fd ∷ calls) = left_open (without fd fds) calls
left_open fds (addresses_made ∷ calls) = left_open fds calls
left_open fds (addresses_freed ∷ calls) = left_open fds calls

unfoldable pub left_lists : ℕ → List Call → ℕ
left_lists n [] = n
left_lists n (opened fd ∷ calls) = left_lists n calls
left_lists n (closed fd ∷ calls) = left_lists n calls
left_lists n (addresses_made ∷ calls) = left_lists (suc n) calls
left_lists n (addresses_freed ∷ calls) = left_lists (n - 1) calls

-- Success leaves the descriptor that is returned open, and failure none.
abbrev pub GivesBack : Result ℕ × List Call → Type 0
GivesBack (ok fd, calls) = (left_open [] calls ≡ fd ∷ []) × (left_lists 0 calls ≡ 0)
GivesBack (err e, calls) = (left_open [] calls ≡ []) × (left_lists 0 calls ≡ 0)

connected_GivesBack :
    (os : Os) (fd : ℕ) (a : Address) (port : ℕ)
    → GivesBack (
        let (sock_fd, result) = connect_address os fd a port in
        (result, opened fd ∷ addresses_made ∷ addresses_freed ∷ close_guarded sock_fd))
unfolding left_open left_lists connect_address
connected_GivesBack os fd null port = (ground arith, refl)
connected_GivesBack os fd other port = (ground arith, refl)
connected_GivesBack os fd inet port = elim (Bool-cases (os.connect fd inet port)) [
  | inl e ↦ rw e (refl, refl)
  | inr e ↦ rw e (ground arith, refl)
]
connected_GivesBack os fd inet6 port = elim (Bool-cases (os.connect fd inet6 port)) [
  | inl e ↦ rw e (refl, refl)
  | inr e ↦ rw e (ground arith, refl)
]

-- Whatever the operating system answers, `open` frees the list of addresses, and if it throws it
-- has closed the descriptor; if it returns one, that one alone is open.
pub open_socket-GivesBack :
    (os : Os) (hostname : Bytes) (port : ℕ) → GivesBack (open_socket os hostname port)
unfolding open_socket left_open left_lists
open_socket-GivesBack os hostname port = elim (Option-cases os.socket) [
  | inl n ↦ rw n (refl, refl)
  | inr (fd, e) ↦ rw e (elim (Option-cases (os.getaddrinfo hostname)) [
    | inl n ↦ rw n (ground arith, refl)
    | inr (a, f) ↦ rw f (connected_GivesBack os fd a port)
  ])
]

arguments_leak :
    (hostname : Bytes) (port : ℕ) (made : Result ℕ × List Call) (fd : ℕ)
    → (is_empty hostname ≡ true) ⊎ (port ≡ 0)
    → made.0 ≡ ok fd
    → GivesBack made
    → (e : Error) × ((check_arguments hostname port made).0 ≡ err e)
      × (left_open [] (check_arguments hostname port made).1 ≡ fd ∷ [])
arguments_leak hostname port (err e, calls) fd bad opens g = cc
arguments_leak hostname port (ok f, calls) fd (inl h) opens g =
    rw h (invalid_argument, refl, ground (arith, opens, g.0))
arguments_leak hostname port (ok f, calls) fd (inr h) opens g =
    elim (Bool-cases (is_empty hostname)) [
      | inl e ↦ rw e (invalid_argument, refl, ground (arith, opens, g.0))
      | inr e ↦ rw (e, h) (out_of_range, refl, ground (arith, opens, g.0))
    ]

-- Without a host name, or with port 0, the constructor throws; if the socket could be opened, then
-- its descriptor stays open, for the arguments are looked at behind `open`, and no destructor runs.
pub construct_leak :
    (os : Os) (hostname : Bytes) (port fd : ℕ)
    → (is_empty hostname ≡ true) ⊎ (port ≡ 0)
    → (open_socket os hostname port).0 ≡ ok fd
    → (e : Error) × ((construct os hostname port).0 ≡ err e)
      × (left_open [] (construct os hostname port).1 ≡ fd ∷ [])
unfolding construct
construct_leak os hostname port fd bad opens =
    let (e, throws, stays) =
      arguments_leak hostname port (open_socket os hostname port) fd bad opens
        (open_socket-GivesBack os hostname port) in
    (e, ap (map_ok (λ f. record { sock_fd = some f })) throws, stays)
