-- ===== src/Application/Progress.antt =====
-- The steps of a call of `invoke` with a timeout, and those of the others.
use cppami.Application.Answers.{at_place}
use cppami.Application.Sound.{AreSound}
use cppami.Application.{
  Application, Place, writing, waiting, closing, getting, returned, Invocation, connection, is_live,
  put, behind_write, behind_wait, Step, runs, handles, invokes, writes, waits, closes, gets, sends,
  registers, removes,
}
use cppami.Connection.{async_invoke, outcome, is_timeout, get}
use cppami.EventDispatcher.Answers.{set_on_pipe_lem}
use cppami.EventDispatcher.{exception, set_exception_on_pipe}
use cppami.Outcome.{timed_out, Result, ok, err}
use cppami.Prelude.{
  ℕ, ◌≤◌, ◌<◌, ◌≡◌, refl, sym, ap, subst, ◌∙◌, Bool, true, false, Option, none, some, arith,
  ℕ_discrete,
}
use cppami.System.Delivery.{dispatcher-Inv}
use cppami.System.Invariant.{Inv}

-- How many steps of its own a call has before it, at most.
abbrev pub rank : Place → ℕ
rank (writing p) = 4
rank (waiting p) = 3
rank (closing p) = 2
rank (getting p) = 1
rank (returned r) = 0

-- The call of `invoke` that takes a step, if one does.
abbrev pub taker : {a b : Application} → Step a b → Option ℕ
taker (writes i v p os live e at) = some i
taker (waits i v p e at) = some i
taker (closes i v p d live e at ran) = some i
taker (gets i v p r e at answer) = some i
taker _ = none

-- The call still goes on as the same one, and not further from its end than `n`.
abbrev pub Goes : Application → ℕ → Invocation → ℕ → Type 0
Goes b i v n =
    (w : Invocation) × (b.invocations i ≡ some w)
    × (w.action ≡ v.action)
    × (w.timed ≡ v.timed)
    × (rank w.place ≤ n)

behind_write-rank :
    (r : Result (Unit {0})) (timed : Bool) (p : ℕ) → rank (behind_write r timed p) ≤ 3
behind_write-rank (err e) timed p = omega arith
behind_write-rank (ok _) true p = omega arith
behind_write-rank (ok _) false p = omega arith

behind_wait-rank : (timeout : Bool) (p : ℕ) → rank (behind_wait timeout p) ≤ 2
behind_wait-rank true p = omega arith
behind_wait-rank false p = omega arith

pub some_inj : {u v : Invocation} → some u ≡ some v → u ≡ v
some_inj h = cc

put-Goes :
    (a b : Application) (i j : ℕ) (u v : Invocation) (place : Place)
    → a.invocations i ≡ some u
    → b.invocations ≡ put a.invocations i (record u { place = place })
    → rank place ≤ rank u.place
    → a.invocations j ≡ some v
    → Goes b j v (rank v.place)
put-Goes a b i j u v place e new le f = elim (ℕ_discrete i j) [
  | yes here ↦
      let same : u ≡ v = some_inj (sym e ∙ (ap a.invocations here ∙ f)) in
      (
        record u { place = place },
        ap (λ g. g j) new ∙ ground (arith, here),
        ap (λ (w : Invocation). w.action) same,
        ap (λ (w : Invocation). w.timed) same,
        subst (λ (w : Invocation). rank place ≤ rank w.place) same le,
      )
  | no other ↦ (v, ap (λ g. g j) new ∙ ground (arith, other, f), refl, refl, omega arith)
]

stays-Goes :
    (b : Application) (j : ℕ) (v : Invocation)
    → b.invocations j ≡ some v
    → Goes b j v (rank v.place)
stays-Goes b j v f = (v, f, refl, refl, omega arith)

-- No step sets a call back.
pub Step-Goes :
    {a b : Application} (j : ℕ) (v : Invocation)
    → AreSound a
    → a.invocations j ≡ some v
    → Step a b
    → Goes b j v (rank v.place)
Step-Goes {b = b} j v h f (runs t st own calm) = stays-Goes b j v f
Step-Goes {b = b} j v h f (handles e rest next) = stays-Goes b j v f
Step-Goes {a} {b} j v h f (invokes action timed live) = elim (ℕ_discrete a.count j) [
  | yes here ↦ absurd (ground (arith, f, h.fresh j (omega (arith, here))))
  | no other ↦ stays-Goes b j v (ground (arith, other, f))
]
Step-Goes {a} {b} j v h f (writes i u p os live e at) =
    let r = (async_invoke os (connection a) u.action).0 in
    put-Goes a b i j u v (behind_write r u.timed p) e refl
      (subst (λ q. rank (behind_write r u.timed p) ≤ rank q) (sym at)
        (omega (arith, behind_write-rank r u.timed p)))
      f
Step-Goes {a} {b} j v h f (waits i u p e at) =
    let t = is_timeout a.system.dispatcher p in
    put-Goes a b i j u v (behind_wait t p) e refl
      (subst (λ q. rank (behind_wait t p) ≤ rank q) (sym at) (omega (arith, behind_wait-rank t p)))
      f
Step-Goes {a} {b} j v h f (closes i u p d live e at ran) =
    put-Goes a b i j u v (getting p) e refl (subst (λ q. 1 ≤ rank q) (sym at) (omega arith)) f
Step-Goes {a} {b} j v h f (gets i u p r e at answer) =
    put-Goes a b i j u v (returned r) e refl (omega arith) f
Step-Goes {b = b} j v h f (sends action os live) = stays-Goes b j v f
Step-Goes {b = b} j v h f (registers id callback live) = stays-Goes b j v f
Step-Goes {b = b} j v h f (removes key live) = stays-Goes b j v f

-- A step of the call itself, to which it is nearer to its end.
abbrev pub Nears : Application → ℕ → Place → Type 0
Nears a i place =
    (b : Application) × (st : Step a b) × (taker st ≡ some i)
    × (w : Invocation) × (b.invocations i ≡ some w)
    × (rank w.place < rank place)
    × (is_live b ≡ is_live a)

put_self : (f : ℕ → Option Invocation) (i : ℕ) (u : Invocation) → put f i u i ≡ some u
put_self f i u = ground arith

module _ {a : Application} (i : ℕ) (v : Invocation) (s : Inv a.system) (h : AreSound a)
    (live : is_live a ≡ true) (e : a.invocations i ≡ some v) (timed : v.timed ≡ true) where
  waiting-Nears : (p : ℕ) → v.place ≡ waiting p → Nears a i (waiting p)
  waiting-Nears p at =
      let t = is_timeout a.system.dispatcher p in
      (
        _,
        waits i v p e at,
        refl,
        _,
        put_self a.invocations i (record v { place = behind_wait t p }),
        omega (arith, behind_wait-rank t p),
        refl,
      )

  closing-Nears : (p : ℕ) → v.place ≡ closing p → Nears a i (closing p)
  unfolding set_exception_on_pipe
  closing-Nears p at =
      let (d, ran, _, _, _, _, _, _) =
        set_on_pipe_lem (dispatcher-Inv s) v.action.action_id
          (exception (timed_out v.action.action_id)) in
      (
        _,
        closes i v p d live e at ran,
        refl,
        _,
        put_self a.invocations i (record v { place = getting p }),
        omega arith,
        refl,
      )

  getting-Nears : (p : ℕ) → v.place ≡ getting p → Nears a i (getting p)
  unfolding get
  getting-Nears p at =
      let (x, f) = (at_place i v h e at).1 timed in
      (
        _,
        gets i v p (outcome x) e at (rw f refl),
        refl,
        _,
        put_self a.invocations i (record v { place = returned (outcome x) }),
        omega arith,
        refl,
      )

  -- Behind its write, a call that is not over has such a step.
  pub Nears-cases :
      (place : Place) → v.place ≡ place → 0 < rank place → rank place ≤ 3 → Nears a i place
  Nears-cases (writing p) at some_left written = absurd (omega (arith, written))
  Nears-cases (waiting p) at some_left written = waiting-Nears p at
  Nears-cases (closing p) at some_left written = closing-Nears p at
  Nears-cases (getting p) at some_left written = getting-Nears p at
  Nears-cases (returned r) at some_left written = absurd (omega (arith, some_left))
