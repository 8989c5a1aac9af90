-- ===== src/Connection/Waiting.antt =====
-- What a caller of `invoke` gets, and when.
use cppami.Action.{Action}
use cppami.TcpSocket.{Os}
use cppami.Connection.{Connection, get, outcome, is_timeout, after_wait, invoke, async_invoke}
use cppami.EventDispatcher.Answers.{Keeps, set_on_pipe_lem, run_calls-Keeps}
use cppami.EventDispatcher.Invariant.{Inv, get_event_pipe-Inv}
use cppami.EventDispatcher.Owners.{Aged, Aged-trans, run_calls-Aged}
use cppami.EventDispatcher.Serving.{Call, run_calls}
use cppami.EventDispatcher.{
  EventDispatcher, Reaction, exception, find_pipe, get_event_pipe, set_exception_on_pipe,
}
use cppami.Outcome.{timed_out, broken_promise, Result, ok, err, map_ok}
use cppami.Prelude.{
  ℕ, suc, ◌<◌, ◌≡◌, inl, inr, refl, sym, Option, none, some, List, arith, Option-cases,
}
use cppami.UnorderedMap.Laws.{find-emplace}
use cppami.Text.{Bytes, bytes_discrete}

-- A pipe that waits still waits for the action that it was made for.
waits_for :
    {d e : EventDispatcher} (a : Bytes) (p : ℕ)
    → Inv e
    → Aged d e
    → p < d.next_pipe
    → ((b : Bytes) → find_pipe d b ≡ some p → b ≡ a)
    → e.answers p ≡ none
    → find_pipe e a ≡ some p
waits_for {d} {e} a p v aged old own n =
    let (b, f) = v.reachable p (omega (arith, aged.later, old)) n in
    rw⁻¹ (own b (aged.owned b p old f)) f

-- The new pipe belongs to the action alone.
new_pipe_own :
    {d : EventDispatcher} (v : Inv d) (a b : Bytes)
    → find_pipe (get_event_pipe d a).0 b ≡ some d.next_pipe
    → b ≡ a
unfolding get_event_pipe
new_pipe_own {d} v a b h = elim (Option-cases (find_pipe d a)) [
  | inl n ↦ ground (
    arith,
    h,
    n,
    find-emplace bytes_discrete a b d.next_pipe d.promise_map,
    v.unsatisfied b d.next_pipe,
  )
  | inr (p, e) ↦ ground (arith, h, e, v.unsatisfied b d.next_pipe)
]

new_pipe_old :
    (d : EventDispatcher) (a : Bytes) → (get_event_pipe d a).0.next_pipe ≡ suc d.next_pipe
unfolding get_event_pipe
new_pipe_old d a = elim (Option-cases (find_pipe d a)) [
  | inl n ↦ rw (n, get_event_pipe) refl
  | inr (p, e) ↦ rw (e, get_event_pipe) refl
]

-- How the rest of a timed `invoke` ends, on the dispatcher `d` at the end of the wait and `e`
-- later: there is a result, an answer that came before the pipe was closed, or else the exception.
abbrev pub Ends : EventDispatcher → EventDispatcher → Bytes → ℕ → Type 0
Ends d e a p =
    (f : EventDispatcher) × (after_wait (is_timeout d p) e a ≡ ok f)
    × (r : Result (Option Reaction)) × (get f p ≡ some r)
    × ((s : Result (Option Reaction)) → get e p ≡ some s → r ≡ s)
    × (get e p ≡ none → r ≡ err (timed_out a))

Ends-now :
    (d : EventDispatcher) {e : EventDispatcher} (a : Bytes) (p : ℕ)
    → Inv e
    → Keeps d e
    → (e.answers p ≡ none → find_pipe e a ≡ some p)
    → Ends d e a p
unfolding after_wait is_timeout get set_exception_on_pipe
Ends-now d {e} a p v keeps waits = elim (Option-cases (d.answers p)) [
  | inr (x, f) ↦
      let still = keeps p x f in
      (
        e,
        ground (arith, f),
        outcome x,
        rw still refl,
        λ s g. ground (arith, still, g),
        λ g. ground (arith, still, g),
      )
  | inl n ↦
      let (h, ran, forced, _, _, kept, _, _) = set_on_pipe_lem v a (exception (timed_out a)) in
      elim (Option-cases (e.answers p)) [
        | inr (x, f) ↦
            let still = kept p x f in
            (
              h,
              ground (arith, n, ran),
              outcome x,
              rw still refl,
              λ s g. ground (arith, f, g),
              λ g. ground (arith, f, g),
            )
        | inl m ↦
            let closed = forced p (waits m) in
            (
              h,
              ground (arith, n, ran),
              err (timed_out a),
              rw closed refl,
              λ s g. ground (arith, m, g),
              λ g. refl,
            )
      ]
]

-- The part of a timed `invoke` behind its `write`, when that has returned: whatever events and calls
-- of other threads come between `get_event_pipe` and the end of the wait, and from then until the
-- pipe is closed, nothing on the way fails, and `get` has a result. If an answer has come by the time
-- of the closing, though it be after the wait, the result is that answer, and otherwise it is the
-- timeout.
pub after_wait-Ends :
    {d : EventDispatcher} (a : Bytes) (during after : List Call)
    → Inv d
    → (e : EventDispatcher) × (run_calls (get_event_pipe d a).0 during ≡ ok e)
      × (f : EventDispatcher) × (run_calls e after ≡ ok f)
      × Ends e f a (get_event_pipe d a).1
unfolding get_event_pipe
after_wait-Ends {d} a during after v =
    let p = d.next_pipe in
    let start = get_event_pipe-Inv v a in
    let (e, ran, w, _) = run_calls-Keeps during start in
    let (f, ran', x, keeps) = run_calls-Keeps after w in
    let old : p < (get_event_pipe d a).0.next_pipe = omega (arith, new_pipe_old d a) in
    let aged = Aged-trans (run_calls-Aged during start e ran) (run_calls-Aged after w f ran') in
    (
      e,
      ran,
      f,
      ran',
      Ends-now e a p x keeps (waits_for a p x aged old (λ b h. new_pipe_own v a b h)),
    )

-- The dispatcher behind an `invoke`, and its pipe.
invoke-dispatcher :
    (os : Os) (c : Connection) (action : Action)
    → (invoke os c action).1.dispatcher ≡ (get_event_pipe c.dispatcher action.action_id).0
unfolding invoke async_invoke
invoke-dispatcher os c action = refl

map_ok_inv : (r : Result (Unit {0})) (p q : ℕ) → map_ok (λ _. p) r ≡ ok q → p ≡ q
map_ok_inv (ok _) p q h = cc
map_ok_inv (err e) p q h = cc

invoke-pipe :
    (os : Os) (c : Connection) (action : Action) (q : ℕ)
    → (invoke os c action).0 ≡ ok q
    → (get_event_pipe c.dispatcher action.action_id).1 ≡ q
unfolding invoke async_invoke
invoke-pipe os c action q h = map_ok_inv _ _ q h

first_pipe :
    {d : EventDispatcher} (a : Bytes)
    → Inv d
    → find_pipe d a ≡ none
    → (find_pipe (get_event_pipe d a).0 a ≡ some d.next_pipe)
      × (get (get_event_pipe d a).0 d.next_pipe ≡ none)
unfolding get_event_pipe get
first_pipe {d} a v n =
    rw (n, get_event_pipe)
      (
        ground (arith, n, find-emplace bytes_discrete a a d.next_pipe d.promise_map),
        rw (v.fresh d.next_pipe (omega arith)) refl,
      )

second_pipe :
    (d : EventDispatcher) (a : Bytes) (p : ℕ)
    → find_pipe d a ≡ some p
    → get (get_event_pipe d a).0 (get_event_pipe d a).1 ≡ some (err broken_promise)
unfolding get_event_pipe get
second_pipe d a p e = rw (e, get_event_pipe) (ground arith)

-- Whether the message of an action can be written or not, `invoke` leaves its pipe in the map
-- without an answer, also when it throws; as long as it is there, each other `invoke` of the same
-- action that is written ends with a broken promise.
pub invoke_again :
    (os os' : Os) (c c' : Connection) (action : Action)
    → Inv c.dispatcher
    → find_pipe c.dispatcher action.action_id ≡ none
    → (find_pipe (invoke os c action).1.dispatcher action.action_id ≡ some c.dispatcher.next_pipe)
      × (get (invoke os c action).1.dispatcher c.dispatcher.next_pipe ≡ none)
      × ((q : ℕ)
          → find_pipe c'.dispatcher action.action_id ≡ some c.dispatcher.next_pipe
          → (invoke os' c' action).0 ≡ ok q
          → get (invoke os' c' action).1.dispatcher q ≡ some (err broken_promise))
invoke_again os os' c c' action v n =
    let (there, waits) = first_pipe action.action_id v n in
    (
      rw (invoke-dispatcher os c action) there,
      rw (invoke-dispatcher os c action) waits,
      λ q still h.
          rw (invoke-dispatcher os' c' action, sym (invoke-pipe os' c' action q h))
            (second_pipe c'.dispatcher action.action_id c.dispatcher.next_pipe still),
    )
