-- ===== src/Application/Numbering.antt =====
-- Every step keeps the numbers of the calls of `invoke` and of their pipes.
use cppami.Action
use cppami.Application
use cppami.Application.Numbers.{
  At, Numbered, keeps_At, put-At, put_there, write-system_error, behind_write-At, behind_wait-At,
  get-some, runs-asked_ids,
}
use cppami.Application.Threads.{Step-Extends, system-Inv}
use cppami.Application.{
  Application, Place, writing, waiting, closing, getting, returned, Invocation, start, connection,
  put, behind_write, behind_wait, is_caller, ask, force, Step, runs, handles, invokes, writes,
  waits, closes, gets, sends, registers, removes, Reach,
}
use cppami.Connection.{async_invoke, is_timeout}
use cppami.EventDispatcher.{get_event_pipe}
use cppami.Outcome.{timed_out}
use cppami.Prelude.{
  ℕ, suc, ◌≡◌, inl, refl, sym, ap, subst, ◌∙◌, some, List, [], ◌∷◌, ◌++◌, length, length-append,
  arith, ℕ_discrete,
}
use cppami.System.Correlation.{asked_ids, asked_ids-append, Inv-Correlated}
use cppami.System.Extends.{Extends}
use cppami.System.Invariant.{Inv}
use cppami.System.{Entry, asked, forced}
use cppami.TcpSocket.{TcpSocket}
use cppami.Text.{Bytes}
use mathlib.Core.List.{append-nil}

-- A change of the place of one call.
move-Numbered :
    {a b : Application} (i : ℕ) (u : Invocation) (place : Place)
    → Inv a.system
    → Extends a.system b.system
    → Numbered a
    → a.invocations i ≡ some u
    → b.invocations ≡ put a.invocations i (record u { place = place })
    → b.count ≡ a.count
    → asked_ids b.system.history ≡ asked_ids a.system.history
    → At b.system.dispatcher i place
    → Numbered b
move-Numbered {a} {b} i u place v x h e same count ids new =
    let w : Invocation = record u { place = place } in
    record {
      counted = ap length ids ∙ h.counted ∙ sym count;
      there = λ j le.
          let (y, f) = put_there a.invocations i j w (h.there j (omega (arith, le, count))) in
          (y, ap (λ g. g j) same ∙ f);
      placed = λ j y f.
          put-At a.invocations b.system.dispatcher i w
            (λ k z g. keeps_At v x k z.place (h.placed k z g)) new j y
            (sym (ap (λ g. g j) same) ∙ f);
    }

-- Nothing is said of the calls.
same-Numbered :
    {a b : Application}
    → Inv a.system
    → Extends a.system b.system
    → Numbered a
    → b.invocations ≡ a.invocations
    → b.count ≡ a.count
    → asked_ids b.system.history ≡ asked_ids a.system.history
    → Numbered b
same-Numbered {a} {b} v x h same count ids = record {
  counted = ap length ids ∙ h.counted ∙ sym count;
  there = λ j le. let (y, f) = h.there j (omega (arith, le, count)) in (y, ap (λ g. g j) same ∙ f);
  placed = λ j y f. keeps_At v x j y.place (h.placed j y (sym (ap (λ g. g j) same) ∙ f));
}

invokes-Numbered :
    {a b : Application} (u : Invocation)
    → Inv a.system
    → Extends a.system b.system
    → Numbered a
    → b.invocations ≡ put a.invocations a.count u
    → b.count ≡ suc a.count
    → length (asked_ids b.system.history) ≡ suc a.count
    → At b.system.dispatcher a.count u.place
    → Numbered b
invokes-Numbered {a} {b} u v x h same count ids new = record {
  counted = ids ∙ sym count;
  there = λ j le. elim (ℕ_discrete a.count j) [
    | yes here ↦ (u, ap (λ g. g j) same ∙ ground (arith, here))
    | no other ↦
        let (y, f) =
          put_there a.invocations a.count j u (h.there j (omega (arith, le, count, other))) in
        (y, ap (λ g. g j) same ∙ f)
  ];
  placed = λ j y f.
      put-At a.invocations b.system.dispatcher a.count u
        (λ k z g. keeps_At v x k z.place (h.placed k z g)) new j y (sym (ap (λ g. g j) same) ∙ f);
}

pub pipe_number :
    {a : Application} {place : Place} (i : ℕ) (u : Invocation)
    → Numbered a
    → a.invocations i ≡ some u
    → u.place ≡ place
    → At a.system.dispatcher i place
pipe_number {a} i u h e at = subst (At a.system.dispatcher i) at (h.placed i u e)

one_more :
    (h : List Entry) (a : Bytes) (n : ℕ)
    → length (asked_ids h) ≡ n
    → length (asked_ids (h ++ asked a ∷ [])) ≡ suc n
one_more h a n e =
    ap length (asked_ids-append h (asked a ∷ []))
    ∙ omega (arith, length-append (asked_ids h) (a ∷ []), e)

Step-Numbered :
    {a b : Application}
    → Inv a.system
    → Numbered a
    → Step a b
    → Extends a.system b.system
    → Numbered b
unfolding get_event_pipe async_invoke
Step-Numbered v h (runs t st own calm) x = same-Numbered v x h refl refl (runs-asked_ids st own)
Step-Numbered v h (handles e rest next) x = same-Numbered v x h refl refl refl
Step-Numbered {a} v h (invokes action timed live) x =
    invokes-Numbered _ v x h refl refl
      (one_more a.system.history action.action_id a.count h.counted)
      (sym (Inv-Correlated v).counted ∙ h.counted)
Step-Numbered {a} v h (writes i u p os live e at) x =
    let r = (async_invoke os (connection a) u.action).0 in
    let fails = write-system_error os a.writer (Action.to_string u.action) in
    move-Numbered i u _ v x h e refl refl refl (
      subst (λ q. At a.system.dispatcher i (behind_write r u.timed q))
        (sym (pipe_number i u h e at)) (behind_write-At a.system.dispatcher i r u.timed fails))
Step-Numbered {a} v h (waits i u p e at) x =
    let t = is_timeout a.system.dispatcher p in
    move-Numbered i u _ v x h e refl refl refl (
      subst (λ q. At a.system.dispatcher i (behind_wait t q)) (sym (pipe_number i u h e at))
        (behind_wait-At a.system.dispatcher i t))
Step-Numbered {a} v h (closes i u p d live e at ran) x =
    move-Numbered i u _ v x h e refl refl
      (asked_ids-append a.system.history
          (forced u.action.action_id (timed_out u.action.action_id) ∷ [])
        ∙ append-nil (asked_ids a.system.history))
      (pipe_number i u h e at)
Step-Numbered {a} v h (gets i u p r e at answer) x =
    let (y, f) = get-some a.system.dispatcher p r answer in
    move-Numbered i u _ v x h e refl refl refl
      (inl (y, subst (λ q. a.system.dispatcher.answers q ≡ some y) (pipe_number i u h e at) f))
Step-Numbered v h (sends action os live) x = same-Numbered v x h refl refl refl
Step-Numbered v h (registers id callback live) x = same-Numbered v x h refl refl refl
Step-Numbered v h (removes key live) x = same-Numbered v x h refl refl refl

pub Reach-Numbered : {socket : TcpSocket} {a : Application} → Reach (start socket) a → Numbered a
Reach-Numbered Application.here = record {
  counted = refl;
  there = λ i le. absurd (omega (arith, le));
  placed = λ i v e. absurd cc;
}
Reach-Numbered (Application.step r st) =
    let v = system-Inv r in Step-Numbered v (Reach-Numbered r) st (Step-Extends v st).1
