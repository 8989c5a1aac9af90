-- ===== src/Application/Orderly.antt =====
-- The end of a connection whose application has waited for all its calls of `invoke`.
use cppami.Application.Numbering.{pipe_number, Reach-Numbered}
use cppami.Application.Numbers.{Numbered}
use cppami.Application.Threads.{system-Inv}
use cppami.Application.{Application, returned, Invocation, start, Reach}
use cppami.EventDispatcher.Cleanup.{cleanup_object_lem}
use cppami.EventDispatcher.{EventDispatcher, Reaction, Answer, cleanup_object, is_empty}
use cppami.Outcome.{assertion, system_error, Result, ok, err}
use cppami.Prelude.{
  ℕ, ◌<◌, ◌≡◌, ◌≢◌, inl, inr, refl, sym, ap, ◌∙◌, if◌then◌else◌, true, false, Option, none, some,
  List, [], ◌∷◌, arith,
}
use cppami.System.Correlation.{Inv-Correlated}
use cppami.System.Delivery.{dispatcher-Inv, dispatcher-Replays}
use cppami.System.Invariant.{Inv}
use cppami.TcpSocket.{TcpSocket}
use cppami.Text.{Bytes, bytes_discrete}
use cppami.UnorderedMap.{find}

empty_map :
    (m : List (Bytes × ℕ))
    → ((a : Bytes) (p : ℕ) → find bytes_discrete a m ≡ some p → ⊥)
    → is_empty m ≡ true
unfolding find
empty_map [] h = refl
empty_map ((k, p) ∷ m) h = absurd (h k p (ground arith))

-- The calls of `invoke` have all come to their end, and none because its message was not written.
abbrev pub AreWaitedFor : Application → Type 0
AreWaitedFor a =
    (i : ℕ) (v : Invocation)
    → a.invocations i ≡ some v
    → (r : Result (Option Reaction)) × (v.place ≡ returned r) × (r ≢ err system_error)

answered_all :
    {a : Application}
    → Inv a.system
    → Numbered a
    → AreWaitedFor a
    → (p : ℕ) → p < a.system.dispatcher.next_pipe
    → (x : Answer) × (a.system.dispatcher.answers p ≡ some x)
answered_all v h waited p le =
    let counted = (Inv-Correlated v).counted in
    let (u, e) = h.there p (omega (arith, le, counted, h.counted)) in
    let (r, at, written) = waited p u e in
    elim (pipe_number p u h e at) [ inl found ↦ found | inr fails ↦ absurd (written fails) ]

-- An application that waits for the end of all its calls of `invoke` before it destroys the
-- connection does not trip the destructor, also in a build with assertions: whatever the calls
-- returned or threw, timeouts and broken promises too, `cleanup_object` finds its maps empty, if no
-- call threw because its message could not be written.
pub Reach-AreWaitedFor :
    {socket : TcpSocket} {a : Application}
    → Reach (start socket) a
    → AreWaitedFor a
    → (d : EventDispatcher) × (cleanup_object false a.system.dispatcher ≡ ok d)
Reach-AreWaitedFor {a = a} r waited =
    let v = system-Inv r in
    let inv = dispatcher-Inv v in
    let (d, ran, nulled, answered, keeps, checked) =
      cleanup_object_lem inv ((dispatcher-Replays v).unique tt) in
    let empty = empty_map a.system.dispatcher.promise_map (λ k p e.
      let (old, pending) = inv.unsatisfied k p e in
      let (x, f) = answered_all v (Reach-Numbered r) waited p old in none_some (sym pending ∙ f)) in
    (d, checked ∙ ap (λ b. if b then ok d else err assertion) empty)
  where
    none_some : {x : Answer} → none ≡ some x → ⊥
    none_some h = cc
