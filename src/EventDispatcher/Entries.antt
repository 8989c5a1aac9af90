-- ===== src/EventDispatcher/Entries.antt =====
-- Each action has one entry in the map of the promises.
use cppami.EventDispatcher.Invariant.{Inv}
use cppami.EventDispatcher.Serving.{
  Served, taken, notified, dispatch_dict-Served, Call, get_pipe, force, arrive, run_call, run_calls,
  run_call-Inv,
}
use cppami.EventDispatcher.Steps.{
  Response, unclaimed, single, started, refused, item, last, close_pipe_lem,
}
use cppami.EventDispatcher.{
  EventDispatcher, Answer, find_pipe, forget_list, get_event_pipe, set_on_pipe,
}
use cppami.EventDispatcher.Invariant.{closed}
use cppami.KeyValDict.{KeyValDict}
use cppami.Outcome.{ok, ok_inj}
use cppami.Prelude.{◌≡◌, inl, inr, refl, sym, ◌∙◌, Bool, true, List, [], ◌∷◌, arith, Option-cases}
use cppami.Text.{Bytes, bytes_discrete}
use cppami.UnorderedMap
use cppami.UnorderedMap.Laws.{AreUnique, emplace-AreUnique, erase-AreUnique}

abbrev pub IsUnique : EventDispatcher → Type 0
IsUnique d = AreUnique bytes_discrete d.promise_map

module _ {d : EventDispatcher} (v : Inv d) (u : IsUnique d) where
  forgotten :
      (a : Bytes) → AreUnique bytes_discrete (UnorderedMap.erase bytes_discrete a d.promise_map)
  forgotten a = erase-AreUnique bytes_discrete a d.promise_map u

  Response-IsUnique :
      (a : Bytes) (dict : KeyValDict) (t : Bool) (d' : EventDispatcher)
      → Response d a dict t d'
      → IsUnique d'
  Response-IsUnique a dict t d' (unclaimed e _ h) = rw h u
  Response-IsUnique a dict t d' (single p e _ _ _ h) = rw h (forgotten a)
  Response-IsUnique a dict t d' (started p e _ _ _ _ h) = rw h u
  Response-IsUnique a dict t d' (refused p e _ _ _ _ h) = rw h (forgotten a)
  Response-IsUnique a dict t d' (item p l e _ _ _ h) = rw h u
  Response-IsUnique a dict t d' (last p l e _ _ _ h) = rw h (forgotten a)

  Served-IsUnique : (dict : KeyValDict) (d' : EventDispatcher) → Served d dict d' → IsUnique d'
  Served-IsUnique dict d' (taken a p e f r) = Response-IsUnique a dict true d' r
  Served-IsUnique dict d' (notified n h) = rw h u

  set_on_pipe-IsUnique :
      (a : Bytes) (x : Answer) (d' : EventDispatcher) → set_on_pipe d a x ≡ ok d' → IsUnique d'
  unfolding set_on_pipe
  set_on_pipe-IsUnique a x d' h = elim (Option-cases (find_pipe d a)) [
    | inl n ↦ let same = ok_inj {y = forget_list a d} (sym h ∙ ground (arith, n)) in rw same u
    | inr (p, e) ↦
        let same =
          ok_inj {y = closed d a p x (UnorderedMap.erase bytes_discrete a d.event_map)}
            (sym h ∙ ground (arith, e, close_pipe_lem v a p x e)) in
        rw same (forgotten a)
  ]

  get_event_pipe-IsUnique : (a : Bytes) → IsUnique (get_event_pipe d a).0
  unfolding get_event_pipe
  get_event_pipe-IsUnique a = elim (Option-cases (find_pipe d a)) [
    | inl n ↦
        rw (n, get_event_pipe) (emplace-AreUnique bytes_discrete a d.next_pipe d.promise_map u)
    | inr (p, e) ↦ rw (e, get_event_pipe) u
  ]

  run_call-IsUnique : (c : Call) (d' : EventDispatcher) → run_call d c ≡ ok d' → IsUnique d'
  unfolding run_call
  run_call-IsUnique (get_pipe a) d' h = rw⁻¹ (ok_inj h) (get_event_pipe-IsUnique a)
  run_call-IsUnique (force a x) d' h = set_on_pipe-IsUnique a x d' h
  run_call-IsUnique (arrive dict) d' h =
      let (e, ran, s) = dispatch_dict-Served v dict in
      rw (ok_inj (sym h ∙ ran)) (Served-IsUnique dict e s)

pub run_calls-IsUnique :
    (cs : List Call) {d : EventDispatcher} (d' : EventDispatcher)
    → Inv d
    → IsUnique d
    → run_calls d cs ≡ ok d'
    → IsUnique d'
unfolding run_calls
run_calls-IsUnique [] d' v u h = rw⁻¹ (ok_inj h) u
run_calls-IsUnique (c ∷ cs) d' v u h =
    let (e, ran, w) = run_call-Inv c v in
    run_calls-IsUnique cs d' w (run_call-IsUnique v u c e ran) (sym (rw (ran, run_calls) refl) ∙ h)
