-- ===== src/SocketReader/Arrivals.antt =====
-- What the operating system hands to the reader of src/net/SocketReader.cpp, and that none of it is
-- lost on the way to the callback.
use cppami.Outcome.{map_ok-eq-ok, system_error, ok, err, ok_inj}
use cppami.Prelude.{
  ℕ, ◌≡◌, refl, sym, ap, subst, ◌∙◌, Bool, true, false, Option, none, some, inl, inr, Option-cases,
  Bool-cases, [], ◌∷◌, ◌==◌, length, drop, replicate, take-append_left, if◌then◌else◌,
}
use cppami.SocketReader.{SocketReader, Place, looping, handing, ended, after_read, turn}
use cppami.TcpSocket.{
  TcpSocket, Os, Poll, failed, timeout, ready, pos, pollin, read, receive, clamp, timeout_ms,
  to_int,
}
use cppami.Text.{Bytes}

-- What a reader holds that it has not handed on.
abbrev pub in_hand : Place → Bytes
in_hand looping = []
in_hand (handing buf) = buf
in_hand ended = []

abbrev bytes_of : Option Bytes → Bytes
bytes_of none = []
bytes_of (some bytes) = bytes

abbrev polled : Os → ℕ → Poll → Bytes
polled os fd failed = []
polled os fd timeout = []
polled os fd (ready revents) = if revents == pollin then bytes_of (os.recv fd 4096) else []

-- The bytes that the operating system hands over in one round.
abbrev handed_over : Os → Option ℕ → Bytes
handed_over os none = []
handed_over os (some fd) = polled os fd (os.poll fd (pos 500))

abbrev pub arrived : Os → SocketReader → Bytes
arrived os r = if r.thread_spin then handed_over os r.socket.sock_fd else []

receive-bytes_of :
    (os : Os) (fd : ℕ) (buf : Bytes)
    → receive os fd 4096 ≡ ok buf
    → buf ≡ bytes_of (os.recv fd 4096)
unfolding receive
receive-bytes_of os fd buf h = elim (Option-cases (os.recv fd 4096)) [
  | inl n ↦ let thrown : receive os fd 4096 ≡ err system_error = rw (n, receive) refl in cc
  | inr (bytes, f) ↦
      let whole : receive os fd 4096 ≡ ok bytes =
        rw (f, receive, take-append_left bytes (drop (length bytes) (replicate 4096 0))) refl in
      rw f (ok_inj (sym h ∙ whole))
]

answered_bytes :
    (os : Os) (fd : ℕ) (buf : Bytes) (p : Poll)
    → (elim p [
      | failed ↦ err system_error
      | timeout ↦ ok []
      | ready revents ↦ if revents == pollin then receive os fd 4096 else ok []
    ])
      ≡ ok buf
    → buf ≡ polled os fd p
answered_bytes os fd buf failed h = cc
answered_bytes os fd buf timeout h = ok_inj (sym h)
answered_bytes os fd buf (ready revents) h = elim (Bool-cases (revents == pollin)) [
  | inl yes_in ↦ rw yes_in (receive-bytes_of os fd buf (rw yes_in at h))
  | inr other ↦ rw other (ok_inj (sym (rw other at h)))
]

read-handed_over :
    (os : Os) (fd : Option ℕ) (buf : Bytes)
    → read os (record { sock_fd = fd }) 4096 (pos 500) ≡ ok buf
    → buf ≡ handed_over os fd
unfolding read clamp timeout_ms to_int
read-handed_over os none buf h = ok_inj (sym h)
read-handed_over os (some fd) buf h = answered_bytes os fd buf (os.poll fd (pos 500)) h

in_hand_after : (buf : Bytes) → in_hand (after_read buf) ≡ buf
in_hand_after [] = refl
in_hand_after (c ∷ cs) = refl

turn_looping :
    (os : Os) (s : TcpSocket) (spin : Bool) {r : SocketReader}
    → turn os (record { socket = s; thread_spin = spin; place = looping }) ≡ ok r
    → in_hand r.place ≡ (if spin then handed_over os s.sock_fd else [])
unfolding turn
turn_looping os s false h = ap (λ (q : SocketReader). in_hand q.place) (ok_inj (sym h))
turn_looping os s true h =
    let after : Bytes → SocketReader =
      λ buf. record { socket = s; thread_spin = true; place = after_read buf } in
    let (buf, got, same) = map_ok-eq-ok after (read os s 4096 (pos 500)) h in
    ap (λ (q : SocketReader). in_hand q.place) same
    ∙ in_hand_after buf
    ∙ read-handed_over os s.sock_fd buf got

-- What a round leaves in hand is what the operating system handed over in it.
pub turn-arrived :
    (os : Os) (r : SocketReader) {r' : SocketReader}
    → r.place ≡ looping
    → turn os r ≡ ok r'
    → in_hand r'.place ≡ arrived os r
turn-arrived os r {r'} e h =
    turn_looping os r.socket r.thread_spin
      (subst (λ p. turn os (record r { place = p }) ≡ ok r') e h)
