-- ===== src/Application/Answers.antt =====
-- No call of `invoke` ends with the answer to another action.
use cppami.Application
use cppami.Application.Sound.{
  IsSound, AreSound, keeps_IsSound, keeps_IsHeld, put-IsSound, behind_write-IsSound,
  behind_wait-IsSound, closes-answered, gets-IsSound,
}
use cppami.Application.Threads.{Step-Extends, system-Inv}
use cppami.Application.{
  Application, Place, writing, waiting, closing, getting, returned, Invocation, ask, force, start,
  connection, put, behind_write, behind_wait, Step, runs, handles, invokes, writes, waits, closes,
  gets, sends, registers, removes, Reach,
}
use cppami.Connection.{async_invoke}
use cppami.EventDispatcher.Desk.Asked.{IsAnswerFor}
use cppami.EventDispatcher.{get_event_pipe, Reaction}
use cppami.Outcome.{ok}
use cppami.Prelude.{ℕ, suc, ◌≤◌, ◌≡◌, refl, subst, Option, none, some, arith}
use cppami.System.Correlation.{asked-next}
use cppami.System.Extends.{Extends}
use cppami.System.Invariant.{Inv}
use cppami.System.{System}
use cppami.TcpSocket.{TcpSocket}

others :
    {a : Application} {t : System}
    → Inv a.system
    → AreSound a
    → Extends a.system t
    → (i : ℕ) (u : Invocation) → a.invocations i ≡ some u
    → IsSound t u u.place
others v h x i u e = keeps_IsSound v x u u.place (h.sound i u e)

pub at_place :
    {a : Application} {place : Place} (i : ℕ) (u : Invocation)
    → AreSound a
    → a.invocations i ≡ some u
    → u.place ≡ place
    → IsSound a.system u place
at_place {a} i u h e at = subst (IsSound a.system u) at (h.sound i u e)

put-fresh :
    (f : ℕ → Option Invocation) (i n : ℕ) (u w : Invocation)
    → f i ≡ some w
    → ((j : ℕ) → n ≤ j → f j ≡ none)
    → (j : ℕ) → n ≤ j
    → put f i u j ≡ none
put-fresh f i n u w e old j le = ground (arith, e, old j le)

next-fresh :
    (f : ℕ → Option Invocation) (n : ℕ) (u : Invocation)
    → ((j : ℕ) → n ≤ j → f j ≡ none)
    → (j : ℕ) → suc n ≤ j
    → put f n u j ≡ none
next-fresh f n u old j le = ground (arith, le, old j (omega (arith, le)))

Step-AreSound :
    {a b : Application}
    → Inv a.system
    → AreSound a
    → Step a b
    → Extends a.system b.system
    → AreSound b
unfolding get_event_pipe
Step-AreSound {a} v h (runs t st own calm) x = record { sound = others v h x; fresh = h.fresh }
Step-AreSound {a} v h (handles e rest next) x = record { sound = h.sound; fresh = h.fresh }
Step-AreSound {a} v h (invokes action timed live) x = record {
  sound =
      put-IsSound a.invocations (ask a.system action.action_id) a.count _ (others v h x)
        (asked-next v action.action_id);
  fresh = next-fresh a.invocations a.count _ h.fresh;
}
Step-AreSound {a} v h (writes i u p os live e at) x = record {
  sound = put-IsSound a.invocations a.system i _ h.sound (
      behind_write-IsSound a.system u (async_invoke os (connection a) u.action).0 p
        (at_place i u h e at));
  fresh = put-fresh a.invocations i a.count _ u e h.fresh;
}
Step-AreSound {a} v h (waits i u p e at) x = record {
  sound =
      put-IsSound a.invocations a.system i _ h.sound
        (behind_wait-IsSound a.system u p (at_place i u h e at));
  fresh = put-fresh a.invocations i a.count _ u e h.fresh;
}
Step-AreSound {a} v h (closes i u p d live e at ran) x =
    let held = at_place i u h e at in
    record {
      sound = put-IsSound a.invocations (force a.system u.action.action_id d) i _ (others v h x) (
        keeps_IsHeld v x u.action.action_id p held,
        λ timed. closes-answered v u.action.action_id p d held ran,
      );
      fresh = put-fresh a.invocations i a.count _ u e h.fresh;
    }
Step-AreSound {a} v h (gets i u p r e at answer) x = record {
  sound =
      put-IsSound a.invocations a.system i _ h.sound
        (gets-IsSound v u p r (at_place i u h e at).0 answer);
  fresh = put-fresh a.invocations i a.count _ u e h.fresh;
}
Step-AreSound {a} v h (sends action os live) x = record { sound = h.sound; fresh = h.fresh }
Step-AreSound {a} v h (registers id callback live) x = record { sound = h.sound; fresh = h.fresh }
Step-AreSound {a} v h (removes key live) x = record { sound = h.sound; fresh = h.fresh }

pub Reach-AreSound : {socket : TcpSocket} {a : Application} → Reach (start socket) a → AreSound a
Reach-AreSound Application.here = record { sound = λ i u e. absurd cc; fresh = λ i le. refl }
Reach-AreSound (Application.step r st) =
    let v = system-Inv r in Step-AreSound v (Reach-AreSound r) st (Step-Extends v st).1

-- Whatever the server sends, whatever else the application and the connection's threads do and in
-- whatever order: if a call of `invoke`, with a timeout or without, returns an event or a list, then
-- the event, or each event of the list, the first, the items and the last, carries the id of the
-- action of that call.
pub Reach-IsAnswerFor :
    {socket : TcpSocket} {a : Application} (i : ℕ) (v : Invocation) (r : Reaction)
    → Reach (start socket) a
    → a.invocations i ≡ some v
    → v.place ≡ returned (ok (some r))
    → IsAnswerFor v.action.action_id r
Reach-IsAnswerFor i v r reach e at = at_place i v (Reach-AreSound reach) e at r refl
