-- ===== src/TcpSocket/Transfer.antt =====
-- Reading.
use cppami.Outcome.{Result, ok, err, system_error}
use cppami.Prelude.{ℕ, ◌-◌, ◌^◌, ◌≤◌, ◌<◌, ◌≡◌, ◌≢◌, refl, none, some, [], arith}
use cppami.TcpSocket.{ℤ, pos, negsuc, Os, failed, timeout, ready, pollin, to_int, timeout_ms}
use cppami.Text.{Bytes}

-- All that a read of an open socket can do.
pub data ReadOutcome (os : Os) (fd size : ℕ) (t : ℤ) : Result Bytes → Type 0 where
  poll_failed : os.poll fd (timeout_ms t) ≡ failed → ReadOutcome os fd size t (err system_error)
  timed_out : os.poll fd (timeout_ms t) ≡ timeout → ReadOutcome os fd size t (ok [])
  -- an error or a hang-up stands beside the readiness, or in its place: the bytes stay unread
  not_only_pollin :
      (revents : ℕ)
      → os.poll fd (timeout_ms t) ≡ ready revents
      → revents ≢ pollin
      → ReadOutcome os fd size t (ok [])
  recv_failed :
      os.poll fd (timeout_ms t) ≡ ready pollin
      → os.recv fd size ≡ none
      → ReadOutcome os fd size t (err system_error)
  -- no byte at all is the end of the stream
  received :
      (bytes : Bytes)
      → os.poll fd (timeout_ms t) ≡ ready pollin
      → os.recv fd size ≡ some bytes
      → ReadOutcome os fd size t (ok bytes)

-- Below 2^31 milliseconds the timeout is the one that was asked for, and 0 for a negative one; from
-- there to 2^32 it is negative, which `poll` takes for no limit at all.
pub timeout_ms_lem :
    (n : ℕ)
    → (n < 2 ^ 31 → timeout_ms (pos n) ≡ pos n)
      × (timeout_ms (negsuc n) ≡ pos 0)
      × (2 ^ 31 ≤ n → n < 2 ^ 32 → (k : ℕ) × (timeout_ms (pos n) ≡ negsuc k))
unfolding timeout_ms to_int
timeout_ms_lem n = (λ h. ground arith, refl, λ l h. (2 ^ 32 - 1 - n, ground arith))
