-- ===== src/EventDispatcher/Answers.antt =====
-- What a step does to the answers that are there, and to the actions that it is not about.
use cppami.EventDispatcher.Invariant.{Inv, closed}
use cppami.EventDispatcher.Serving.{
  Served, taken, notified, dispatch_dict-Served, Call, get_pipe, force, arrive, run_call, run_calls,
  run_call-Inv,
}
use cppami.EventDispatcher.Steps.{
  Response, unclaimed, single, started, refused, item, last, close_pipe_lem,
}
use cppami.EventDispatcher.{
  EventDispatcher, Answer, find_pipe, find_list, update, get_event_pipe, set_on_pipe,
}
use cppami.KeyValDict.{KeyValDict, get_value}
use cppami.Outcome.{ok}
use cppami.Prelude.{
  ℕ, ◌≡◌, ◌≢◌, inl, inr, refl, Bool, true, none, some, List, [], ◌∷◌, arith, Option-cases,
}
use cppami.Text.{Bytes, bytes_discrete, codes}
use cppami.UnorderedMap
use cppami.UnorderedMap.Laws.{map_laws}

-- Every answer that is there stays.
abbrev pub Keeps : EventDispatcher → EventDispatcher → Type 0
Keeps d d' = (p : ℕ) (x : Answer) → d.answers p ≡ some x → d'.answers p ≡ some x

-- The pipe and the working list of the action `b` stay.
abbrev pub Spares : Bytes → EventDispatcher → EventDispatcher → Type 0
Spares b d d' = (find_pipe d' b ≡ find_pipe d b) × (find_list d' b ≡ find_list d b)

module _ {d : EventDispatcher} (v : Inv d) where
  closed-Keeps :
      (a : Bytes) (p : ℕ) (x : Answer) (q : ℕ) (y : Answer)
      → find_pipe d a ≡ some p
      → d.answers q ≡ some y
      → update d.answers p x q ≡ some y
  closed-Keeps a p x q y e h = ground (arith, v.unsatisfied a p e)

  Response-Keeps :
      (a : Bytes) (dict : KeyValDict) (t : Bool) (d' : EventDispatcher)
      → Response d a dict t d'
      → Keeps d d'
  Response-Keeps a dict t d' (unclaimed e _ h) q y f = rw h f
  Response-Keeps a dict t d' (single p e _ _ _ h) q y f = rw h (closed-Keeps a p _ q y e f)
  Response-Keeps a dict t d' (started p e _ _ _ _ h) q y f = rw h f
  Response-Keeps a dict t d' (refused p e _ _ _ _ h) q y f = rw h (closed-Keeps a p _ q y e f)
  Response-Keeps a dict t d' (item p l e _ _ _ h) q y f = rw h f
  Response-Keeps a dict t d' (last p l e _ _ _ h) q y f = rw h (closed-Keeps a p _ q y e f)

  pub Served-Keeps : (dict : KeyValDict) (d' : EventDispatcher) → Served d dict d' → Keeps d d'
  Served-Keeps dict d' (taken a p e f r) q y g = Response-Keeps a dict true d' r q y g
  Served-Keeps dict d' (notified n h) q y g = rw h g

  -- Forcing the pipe of an action shut gives its caller the answer, if there is a caller, and
  -- forgets the action; nothing else changes.
  pub set_on_pipe_lem :
      (a : Bytes) (x : Answer)
      → (d' : EventDispatcher) × (set_on_pipe d a x ≡ ok d')
        × ((p : ℕ) → find_pipe d a ≡ some p → d'.answers p ≡ some x)
        × (find_pipe d' a ≡ none)
        × (find_list d' a ≡ none)
        × Keeps d d'
        × ((b : Bytes) → a ≢ b → Spares b d d')
        × (d'.dispatched ≡ d.dispatched)
  unfolding set_on_pipe
  set_on_pipe_lem a x = elim (Option-cases (find_pipe d a)) [
    | inl n ↦ (
      record d { event_map = UnorderedMap.erase bytes_discrete a d.event_map },
      ground (arith, n),
      λ p f. ground (arith, n, f),
      n,
      grind map_laws,
      λ p y f. f,
      λ b ne. (refl, grind (map_laws, ne)),
      refl,
    )
    | inr (p, e) ↦ (
      closed d a p x (UnorderedMap.erase bytes_discrete a d.event_map),
      ground (arith, e, close_pipe_lem v a p x e),
      λ q f. ground (arith, e, f),
      grind map_laws,
      grind map_laws,
      λ q y f. closed-Keeps a p x q y e f,
      λ b ne. (grind (map_laws, ne), grind (map_laws, ne)),
      refl,
    )
  ]

  Response-Spares :
      (a : Bytes) (dict : KeyValDict) (t : Bool) (d' : EventDispatcher) (b : Bytes)
      → a ≢ b
      → Response d a dict t d'
      → Spares b d d'
  Response-Spares a dict t d' b ne (unclaimed e _ h) = rw h (refl, refl)
  Response-Spares a dict t d' b ne (single p e _ _ _ h) = rw h (grind map_laws, refl)
  Response-Spares a dict t d' b ne (started p e _ _ _ _ h) = rw h (refl, grind map_laws)
  Response-Spares a dict t d' b ne (refused p e _ _ _ _ h) = rw h (grind map_laws, refl)
  Response-Spares a dict t d' b ne (item p l e _ _ _ h) = rw h (refl, grind map_laws)
  Response-Spares a dict t d' b ne (last p l e _ _ _ h) = rw h (grind map_laws, grind map_laws)

  get_event_pipe-Keeps : (a : Bytes) → Keeps d (get_event_pipe d a).0
  unfolding get_event_pipe
  get_event_pipe-Keeps a q y f = ground (arith, f, v.fresh q)

  get_event_pipe-Spares : (a b : Bytes) → a ≢ b → Spares b d (get_event_pipe d a).0
  unfolding get_event_pipe
  get_event_pipe-Spares a b ne = grind (map_laws, ne)

  run_call-Keeps : (c : Call) (d' : EventDispatcher) → run_call d c ≡ ok d' → Keeps d d'
  unfolding run_call
  run_call-Keeps (get_pipe a) d' h q y f = ground (arith, get_event_pipe-Keeps a q y f)
  run_call-Keeps (force a x) d' h q y f =
      let (e, ran, _, _, _, keeps, _, _) = set_on_pipe_lem a x in ground (arith, ran, keeps q y f)
  run_call-Keeps (arrive dict) d' h q y f =
      let (e, ran, s) = dispatch_dict-Served v dict in
      ground (arith, ran, Served-Keeps dict e s q y f)

-- A call that is not about the action `b`.
abbrev pub IsForeign : Bytes → Call → Type 0
IsForeign b (get_pipe a) = a ≢ b
IsForeign b (force a x) = a ≢ b
IsForeign b (arrive dict) = get_value dict (codes "ActionID") ≢ some b

module _ {d : EventDispatcher} (v : Inv d) where
  Served-Spares :
      (dict : KeyValDict) (d' : EventDispatcher) (b : Bytes)
      → IsForeign b (arrive dict)
      → Served d dict d'
      → Spares b d d'
  Served-Spares dict d' b ne (taken a p e f r) =
      Response-Spares v a dict true d' b (λ same. ne (ground (arith, e, same))) r
  Served-Spares dict d' b ne (notified n h) = rw h (refl, refl)

  -- A call about another action leaves the pipe and the list of `b` as they are.
  pub run_call-Spares :
      (c : Call) (d' : EventDispatcher) (b : Bytes)
      → IsForeign b c
      → run_call d c ≡ ok d'
      → Spares b d d'
  unfolding run_call
  run_call-Spares (get_pipe a) d' b ne h = ground (arith, get_event_pipe-Spares v a b ne)
  run_call-Spares (force a x) d' b ne h =
      let (e, ran, _, _, _, _, spares, _) = set_on_pipe_lem v a x in
      ground (arith, ran, spares b ne)
  run_call-Spares (arrive dict) d' b ne h =
      let (e, ran, s) = dispatch_dict-Served v dict in
      ground (arith, ran, Served-Spares dict e b ne s)

-- An answer that a caller has is never changed, whatever calls follow.
pub run_calls-Keeps :
    (cs : List Call) {d : EventDispatcher}
    → Inv d
    → (d' : EventDispatcher) × (run_calls d cs ≡ ok d') × Inv d' × Keeps d d'
unfolding run_calls
run_calls-Keeps [] {d} v = (d, refl, v, λ q y f. f)
run_calls-Keeps (c ∷ cs) {d} v =
    let (e, ran, v') = run_call-Inv c v in
    let (d', rest, w, keeps) = run_calls-Keeps cs v' in
    (d', rw ran rest, w, λ q y f. keeps q y (run_call-Keeps v c e ran q y f))
