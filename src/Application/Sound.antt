-- ===== src/Application/Sound.antt =====
-- What is true of each call of `invoke`, wherever it stands.
use mathlib.Core.Option
use cppami.Application.{
  Application, Place, writing, waiting, closing, getting, returned, Invocation, put, behind_write,
  behind_wait,
}
use cppami.Connection.{outcome, is_timeout, get}
use cppami.EventDispatcher.Answers.{set_on_pipe_lem}
use cppami.EventDispatcher.Desk.Asked.{IsAnswerFor}
use cppami.EventDispatcher.{
  EventDispatcher, Reaction, Answer, value, exception, set_exception_on_pipe,
}
use cppami.Outcome.{timed_out, Result, ok, err, ok_inj}
use cppami.Prelude.{
  ℕ, ◌≤◌, ◌≡◌, inl, inr, refl, sym, ap, subst, ◌∙◌, Bool, true, false, Option, none, some,
  get_elem?, get_elem?-append, arith, Option-cases, ℕ_discrete,
}
use cppami.System.Correlation.{asked_ids, asked_ids-append, asked-find_pipe, asked-IsAnswerFor}
use cppami.System.Delivery.{dispatcher-Inv}
use cppami.System.Extends.{Extends}
use cppami.System.History.{replay-Replays}
use cppami.System.Invariant.{Inv}
use cppami.System.{System}
use cppami.Text.{Bytes}

-- The pipe was handed out for the action.
abbrev pub IsHeld : System → Bytes → ℕ → Type 0
IsHeld s a p = get_elem? (asked_ids s.history) p ≡ some a

-- An `invoke` has the pipe of its action; with a timeout, it gets from a pipe with an answer alone.
abbrev pub IsSound : System → Invocation → Place → Type 0
IsSound s v (writing p) = IsHeld s v.action.action_id p
IsSound s v (waiting p) = IsHeld s v.action.action_id p
IsSound s v (closing p) = IsHeld s v.action.action_id p
IsSound s v (getting p) =
    IsHeld s v.action.action_id p
    × (v.timed ≡ true → (x : Answer) × (s.dispatcher.answers p ≡ some x))
IsSound s v (returned r) = (x : Reaction) → r ≡ ok (some x) → IsAnswerFor v.action.action_id x

pub record AreSound (a : Application) : Type 0 where
  pub sound : (i : ℕ) (v : Invocation) → a.invocations i ≡ some v → IsSound a.system v v.place
  pub fresh : (i : ℕ) → a.count ≤ i → a.invocations i ≡ none

module _ {s t : System} (v : Inv s) (x : Extends s t) where
  pub keeps_answer :
      (p : ℕ) (y : Answer) → s.dispatcher.answers p ≡ some y → t.dispatcher.answers p ≡ some y
  keeps_answer p y e = (replay-Replays x.entries x.lines (dispatcher-Inv v) x.replays).keeps p y e

  pub keeps_IsHeld : (a : Bytes) (p : ℕ) → IsHeld s a p → IsHeld t a p
  keeps_IsHeld a p e =
      rw (x.longer, asked_ids-append s.history x.entries)
        (get_elem?-append (asked_ids s.history) (asked_ids x.entries) p a e)

  pub keeps_IsSound : (u : Invocation) (place : Place) → IsSound s u place → IsSound t u place
  keeps_IsSound u (writing p) h = keeps_IsHeld u.action.action_id p h
  keeps_IsSound u (waiting p) h = keeps_IsHeld u.action.action_id p h
  keeps_IsSound u (closing p) h = keeps_IsHeld u.action.action_id p h
  keeps_IsSound u (getting p) (h, answered) = (
    keeps_IsHeld u.action.action_id p h,
    λ timed. let (y, e) = answered timed in (y, keeps_answer p y e),
  )
  keeps_IsSound u (returned r) h = h

pub put-IsSound :
    (f : ℕ → Option Invocation) (s : System) (i : ℕ) (u : Invocation)
    → ((j : ℕ) (v : Invocation) → f j ≡ some v → IsSound s v v.place)
    → IsSound s u u.place
    → (j : ℕ) (v : Invocation) → put f i u j ≡ some v
    → IsSound s v v.place
put-IsSound f s i u old new j v e = elim (ℕ_discrete i j) [
  | yes here ↦
      let same : u ≡ v = some_inj (ground (arith, here, e)) in
      subst (λ (w : Invocation). IsSound s w w.place) same new
  | no other ↦ old j v (ground (arith, other, e))
]
  where
    some_inj : {u v : Invocation} → some u ≡ some v → u ≡ v
    some_inj h = cc

pub behind_write-IsSound :
    (s : System) (u : Invocation) (r : Result (Unit {0})) (p : ℕ)
    → IsHeld s u.action.action_id p
    → IsSound s u (behind_write r u.timed p)
behind_write-IsSound s u (err e) p h = λ x same. absurd cc
behind_write-IsSound s u (ok _) p h = by_form u.timed refl
  where
    by_form : (b : Bool) → u.timed ≡ b → IsSound s u (behind_write (ok tt) b p)
    by_form true e = h
    by_form false e = (h, λ f. absurd cc)

pub is_timeout-none : (d : EventDispatcher) (p : ℕ) → d.answers p ≡ none → is_timeout d p ≡ true
unfolding is_timeout
is_timeout-none d p n = rw (n, is_timeout) refl

pub is_timeout-some :
    (d : EventDispatcher) (p : ℕ) (x : Answer) → d.answers p ≡ some x → is_timeout d p ≡ false
unfolding is_timeout
is_timeout-some d p x e = rw (e, is_timeout) refl

pub behind_wait-IsSound :
    (s : System) (u : Invocation) (p : ℕ)
    → IsHeld s u.action.action_id p
    → IsSound s u (behind_wait (is_timeout s.dispatcher p) p)
behind_wait-IsSound s u p h = elim (Option-cases (s.dispatcher.answers p)) [
  | inl n ↦ subst (λ b. IsSound s u (behind_wait b p)) (sym (is_timeout-none s.dispatcher p n)) h
  | inr (x, e) ↦
      subst (λ b. IsSound s u (behind_wait b p)) (sym (is_timeout-some s.dispatcher p x e))
        (h, λ timed. (x, e))
]

-- Once a pipe is closed, it has an answer.
pub closes-answered :
    {s : System} (v : Inv s) (a : Bytes) (p : ℕ) (d : EventDispatcher)
    → IsHeld s a p
    → set_exception_on_pipe s.dispatcher a (timed_out a) ≡ ok d
    → (x : Answer) × (d.answers p ≡ some x)
unfolding set_exception_on_pipe
closes-answered {s} v a p d held ran =
    let (e, ran', forced, _, _, keeps, _, _) =
      set_on_pipe_lem (dispatcher-Inv v) a (exception (timed_out a)) in
    let same : e ≡ d = ok_inj (sym ran' ∙ ran) in
    elim (Option-cases (s.dispatcher.answers p)) [
      | inl n ↦ (
        exception (timed_out a),
        subst (λ (d : EventDispatcher). d.answers p ≡ some (exception (timed_out a))) same
            (forced p (asked-find_pipe v a p held n)),
      )
      | inr (x, f) ↦ (x, subst (λ (d : EventDispatcher). d.answers p ≡ some x) same (keeps p x f))
    ]

outcome-inv :
    (y : Option Answer) (r : Result (Option Reaction)) (x : Reaction)
    → Option.map outcome y ≡ some r
    → r ≡ ok (some x)
    → y ≡ some (value (some x))
outcome-inv none r x h e = absurd cc
outcome-inv (some (exception z)) r x h e = absurd cc
outcome-inv (some (value z)) r x h e =
    let same : some (ok z) ≡ some (ok (some x)) = h ∙ ap some e in
    let inner : z ≡ some x = cc in ap (λ w. some (value w)) inner

pub gets-IsSound :
    {s : System} (v : Inv s) (u : Invocation) (p : ℕ) (r : Result (Option Reaction))
    → IsHeld s u.action.action_id p
    → get s.dispatcher p ≡ some r
    → IsSound s u (returned r)
unfolding get
gets-IsSound {s} v u p r held answer = λ x e.
    asked-IsAnswerFor v u.action.action_id p x held
      (outcome-inv (s.dispatcher.answers p) r x answer e)
