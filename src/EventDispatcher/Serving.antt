-- ===== src/EventDispatcher/Serving.antt =====
-- Whole events, and the operations of the callers: each succeeds and keeps the invariant.
use cppami.EventDispatcher.Invariant.{Inv, closed, closed-Inv, get_event_pipe-Inv, initial-Inv}
use cppami.EventDispatcher.Steps.{
  Response, unclaimed, single, started, refused, item, last, dispatch_response-Response,
  dispatch_response_unclaimed, Response-Inv, close_pipe_lem, own_erased,
}
use cppami.EventDispatcher.{
  EventDispatcher, Answer, initial, find_pipe, notify, dispatch_dict, dispatch_event,
  dispatch_events, get_event_pipe, set_on_pipe, forget_list,
}
use cppami.KeyValDict.Message.{set_message-total}
use cppami.KeyValDict.{KeyValDict, get_value}
use cppami.Outcome.{Result, ok, ◌>>=◌}
use cppami.Prelude.{
  ℕ, ◌≡◌, inl, inr, refl, sym, Bool, true, none, some, List, [], ◌∷◌, ◌++◌, arith, Option-cases,
  subst,
}
use cppami.Text.{Bytes, bytes_discrete, codes, eor}
use cppami.UnorderedMap

-- What becomes of an event: a pipe takes it, or the notification callback has it. It has no third
-- fate, and never both.
pub data Served (d : EventDispatcher) (dict : KeyValDict) (d' : EventDispatcher) : Type 0 where
  taken :
      (a : Bytes) (p : ℕ)
      → get_value dict (codes "ActionID") ≡ some a
      → find_pipe d a ≡ some p
      → Response d a dict true d'
      → Served d dict d'
  notified :
      ((a : Bytes) → get_value dict (codes "ActionID") ≡ some a → find_pipe d a ≡ none)
      → d' ≡ notify d dict
      → Served d dict d'

Response_taken :
    {d : EventDispatcher} {a : Bytes} {dict : KeyValDict} {d' : EventDispatcher} (p : ℕ)
    → find_pipe d a ≡ some p
    → (taken : Bool) → Response d a dict taken d'
    → taken ≡ true
Response_taken p e t (unclaimed n f h) = absurd (ground (arith, e, n))
Response_taken p e t (single _ _ _ _ h _) = h
Response_taken p e t (started _ _ _ _ _ h _) = h
Response_taken p e t (refused _ _ _ _ _ h _) = h
Response_taken p e t (item _ _ _ _ _ h _) = h
Response_taken p e t (last _ _ _ _ _ h _) = h

module _ {d : EventDispatcher} (v : Inv d) where
  -- Every event is served.
  pub dispatch_dict-Served :
      (dict : KeyValDict)
      → (d' : EventDispatcher) × (dispatch_dict d dict ≡ ok d') × Served d dict d'
  unfolding dispatch_dict
  dispatch_dict-Served dict = elim (Option-cases (get_value dict (codes "ActionID"))) [
    | inl e ↦ (notify d dict, ground (arith, e), notified (λ a f. ground (arith, e, f)) refl)
    | inr (a, e) ↦ elim (Option-cases (find_pipe d a)) [
      | inl n ↦ (
        notify d dict,
        ground (arith, e, dispatch_response_unclaimed d a dict n),
        notified (λ b f. ground (arith, e, f, n)) refl,
      )
      | inr (p, f) ↦
          let (t, d', ran, r) = dispatch_response-Response v a dict in
          let yes_taken = Response_taken p f t r in
          (
            d',
            ground (arith, e, ran, yes_taken),
            taken a p e f (subst (λ b. Response d a dict b d') yes_taken r),
          )
    ]
  ]

  pub Served-Inv : (dict : KeyValDict) (d' : EventDispatcher) → Served d dict d' → Inv d'
  Served-Inv dict d' (taken a p e f r) = Response-Inv v a dict true d' r
  Served-Inv dict d' (notified n h) = subst Inv (sym h) (record {
    unsatisfied = v.unsatisfied;
    one_action = v.one_action;
    reachable = v.reachable;
    fresh = v.fresh;
    working = v.working;
  })

  -- Any other way to close the pipe of an action.
  pub set_on_pipe-Inv :
      (a : Bytes) (x : Answer) → (d' : EventDispatcher) × (set_on_pipe d a x ≡ ok d') × Inv d'
  unfolding set_on_pipe
  set_on_pipe-Inv a x = elim (Option-cases (find_pipe d a)) [
    | inl n ↦ (
      forget_list a d,
      ground (arith, n),
      record {
        unsatisfied = v.unsatisfied;
        one_action = v.one_action;
        reachable = v.reachable;
        fresh = v.fresh;
        working = λ b l e. v.working b l ((own_erased d a b l e).1);
      },
    )
    | inr (p, e) ↦ (
      closed d a p x (UnorderedMap.erase bytes_discrete a d.event_map),
      ground (arith, e, close_pipe_lem v a p x e),
      closed-Inv v a p x _ e (own_erased d a),
    )
  ]

-- A caller's `get_event_pipe`, the two ways to force a pipe shut, and an event that arrives.
pub data Call : Type 0 where
  get_pipe : Bytes → Call
  force : Bytes → Answer → Call
  arrive : KeyValDict → Call

unfoldable pub run_call : EventDispatcher → Call → Result EventDispatcher
run_call d (get_pipe a) = ok (get_event_pipe d a).0
run_call d (force a x) = set_on_pipe d a x
run_call d (arrive dict) = dispatch_dict d dict

unfoldable pub run_calls : EventDispatcher → List Call → Result EventDispatcher
run_calls d [] = ok d
run_calls d (c ∷ cs) = do d' ← run_call d c; run_calls d' cs

pub run_call-Inv :
    {d : EventDispatcher} (c : Call)
    → Inv d
    → (d' : EventDispatcher) × (run_call d c ≡ ok d') × Inv d'
unfolding run_call
run_call-Inv {d} (get_pipe a) v = ((get_event_pipe d a).0, refl, get_event_pipe-Inv v a)
run_call-Inv (force a x) v = set_on_pipe-Inv v a x
run_call-Inv (arrive dict) v =
    let (d', ran, s) = dispatch_dict-Served v dict in (d', ran, Served-Inv v dict d' s)

pub run_calls-Inv :
    (cs : List Call) {d : EventDispatcher}
    → Inv d
    → (d' : EventDispatcher) × (run_calls d cs ≡ ok d') × Inv d'
unfolding run_calls
run_calls-Inv [] {d} v = (d, refl, v)
run_calls-Inv (c ∷ cs) v =
    let (d', ran, v') = run_call-Inv c v in
    let (d'', rest, v'') = run_calls-Inv cs v' in (d'', rw (ran) rest, v'')

-- From a new dispatcher, in any order of arriving events and of calls, every call succeeds, so no
-- promise is satisfied twice, and the invariant holds.
pub run_calls-initial :
    (cs : List Call) → (d : EventDispatcher) × (run_calls initial cs ≡ ok d) × Inv d
run_calls-initial cs = run_calls-Inv cs initial-Inv

-- A batch of messages that each end with a line break, as those of the stream parser do.
abbrev pub AreLines : List Bytes → Type 0
AreLines [] = Unit {0}
AreLines (m ∷ ms) = ((x : Bytes) × (m ≡ x ++ eor)) × AreLines ms

-- The work on a batch of messages that each end with a line break never fails.
pub dispatch_events-total :
    (ms : List Bytes) {d : EventDispatcher}
    → AreLines ms
    → Inv d
    → (d' : EventDispatcher) × (dispatch_events d ms ≡ ok d') × Inv d'
unfolding dispatch_events dispatch_event
dispatch_events-total [] {d} h v = (d, refl, v)
dispatch_events-total (m ∷ ms) ((x, e), h) v =
    let (dict, read) = set_message-total x in
    let (d', ran, s) = dispatch_dict-Served v dict in
    let (d'', rest, v'') = dispatch_events-total ms h (Served-Inv v dict d' s) in
    (d'', rw (e, read, ran) rest, v'')
