-- ===== src/Application/Timed.antt =====
-- A call of `invoke` with a timeout waits for nobody behind its write.
use cppami.Application
use cppami.Application.Answers.{Reach-AreSound}
use cppami.Application.Progress.{rank, taker, Goes, some_inj, Step-Goes, Nears-cases}
use cppami.Application.Threads.{system-Inv}
use cppami.Application.{
  Application, Place, writing, waiting, closing, getting, returned, Invocation, start, connection,
  is_live, put, behind_write, behind_wait, Step, runs, handles, invokes, writes, waits, closes,
  gets, sends, registers, removes, Reach,
}
use cppami.EventDispatcher.{Reaction}
use cppami.Outcome.{Result}
use cppami.Prelude.{
  ℕ, zero, suc, Option, ◌≤◌, ◌≡◌, refl, sym, ap, ◌∙◌, true, some, arith, ℕ_discrete,
}
use cppami.TcpSocket.{TcpSocket}

-- Steps of the call alone, so many.
pub data Alone (i : ℕ) : Application → ℕ → Application → Type 0 where
  done : {a : Application} → Alone i a 0 a
  then_on :
      {n : ℕ} {a b c : Application} (st : Step a b)
      → taker st ≡ some i
      → Alone i b n c
      → Alone i a (suc n) c

-- The call has returned or thrown.
abbrev pub IsOver : Application → ℕ → Type 0
IsOver b i =
    (w : Invocation) × (b.invocations i ≡ some w)
    × (r : Result (Option Reaction)) × (w.place ≡ returned r)

rank_zero : (place : Place) → rank place ≤ 0 → (r : Result (Option Reaction)) × (place ≡ returned r)
rank_zero (writing p) h = absurd (omega (arith, h))
rank_zero (waiting p) h = absurd (omega (arith, h))
rank_zero (closing p) h = absurd (omega (arith, h))
rank_zero (getting p) h = absurd (omega (arith, h))
rank_zero (returned r) h = (r, refl)

stays-IsOver :
    (a : Application) (i : ℕ) (v : Invocation)
    → a.invocations i ≡ some v
    → rank v.place ≤ 0
    → IsOver a i
stays-IsOver a i v e le = let (r, at) = rank_zero v.place le in (v, e, r, at)

module _ {socket : TcpSocket} (i : ℕ) where
  ends-Alone :
      (n : ℕ) {a : Application} (v : Invocation)
      → Reach (start socket) a
      → is_live a ≡ true
      → a.invocations i ≡ some v
      → v.timed ≡ true
      → rank v.place ≤ n
      → n ≤ 3
      → (m : ℕ) × (m ≤ n) × (b : Application) × Alone i a m b × IsOver b i
  ends-Alone zero {a} v r live e timed le few = (0, omega arith, a, done, stays-IsOver a i v e le)
  ends-Alone (suc n) {a} v r live e timed le few = elim (ℕ_discrete (rank v.place) 0) [
    | yes none_left ↦ (0, omega arith, a, done, stays-IsOver a i v e (omega (arith, none_left)))
    | no some_left ↦
        let sound = Reach-AreSound r in
        let (b, st, own, w, f, nearer, same) =
          Nears-cases i v (system-Inv r) sound live e timed v.place refl (omega (arith, some_left))
            (omega (arith, le, few)) in
        let (w', f', _, timed', _) = Step-Goes i v sound e st in
        let again : w' ≡ w = some_inj (sym f' ∙ f) in
        let timed_w = ap (λ (x : Invocation). x.timed) (sym again) ∙ timed' ∙ timed in
        let (m, le', c, rest, end) =
          ends-Alone n w (Application.step r st) (same ∙ live) f timed_w (omega (arith, nearer, le))
            (omega (arith, few)) in
        (suc m, omega (arith, le'), c, then_on st own rest, end)
  ]

-- The message of the call is written, or could not be.
abbrev pub IsBehindWrite : Place → Type 0
IsBehindWrite (writing p) = ⊥
IsBehindWrite (waiting p) = Unit
IsBehindWrite (closing p) = Unit
IsBehindWrite (getting p) = Unit
IsBehindWrite (returned r) = Unit

rank-IsBehindWrite : (place : Place) → IsBehindWrite place → rank place ≤ 3
rank-IsBehindWrite (writing p) h = absurd h
rank-IsBehindWrite (waiting p) h = omega arith
rank-IsBehindWrite (closing p) h = omega arith
rank-IsBehindWrite (getting p) h = omega arith
rank-IsBehindWrite (returned r) h = omega arith

-- Behind its write, a call of `invoke` with a timeout comes to its end without anybody's help, even
-- if no answer ever comes: at every moment up to the start of the destructor, at most three steps of
-- the call itself lead to its return or to the exception that it throws. No step of another call, of
-- the application or of the connection's threads sets it back. Its time may be over at any moment;
-- how long `write` blocks, and how long a step waits for a mutex, is not said.
pub Reach-timed :
    {socket : TcpSocket} {a : Application} (i : ℕ) (v : Invocation)
    → Reach (start socket) a
    → is_live a ≡ true
    → a.invocations i ≡ some v
    → v.timed ≡ true
    → IsBehindWrite v.place
    → ((n : ℕ) × (n ≤ 3) × (b : Application) × Alone i a n b × IsOver b i)
      × ((b : Application) → Step a b → Goes b i v (rank v.place))
Reach-timed i v r live e timed written = (
  ends-Alone i 3 v r live e timed (rank-IsBehindWrite v.place written) (omega arith),
  λ b st. Step-Goes i v (Reach-AreSound r) e st,
)
