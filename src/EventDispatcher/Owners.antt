-- ===== src/EventDispatcher/Owners.antt =====
-- A pipe serves the action that it was made for and no other.
use cppami.EventDispatcher.Invariant.{Inv, closed}
use cppami.EventDispatcher.Serving.{
  Served, taken, notified, dispatch_dict-Served, Call, get_pipe, force, arrive, run_call, run_calls,
  run_call-Inv,
}
use cppami.EventDispatcher.Steps.{
  Response, unclaimed, single, started, refused, item, last, close_pipe_lem,
}
use cppami.EventDispatcher.{
  EventDispatcher, Answer, find_pipe, forget_list, get_event_pipe, set_on_pipe,
}
use cppami.EventList.{EventList}
use cppami.KeyValDict.{KeyValDict}
use cppami.Outcome.{ok, ok_inj}
use cppami.Prelude.{
  ℕ, ◌≤◌, ◌<◌, ◌≡◌, inl, inr, refl, sym, ◌∙◌, Bool, true, some, List, [], ◌∷◌, arith, Option-cases,
}
use cppami.Text.{Bytes, bytes_discrete}
use cppami.UnorderedMap
use cppami.UnorderedMap.Laws.{map_laws}

-- No action of `d'` has a pipe of `d` but one that had it in `d`.
pub record Aged (d d' : EventDispatcher) : Type 0 where
  pub later : d.next_pipe ≤ d'.next_pipe
  pub owned :
      (a : Bytes) (p : ℕ) → p < d.next_pipe → find_pipe d' a ≡ some p → find_pipe d a ≡ some p

Aged-refl : (d : EventDispatcher) → Aged d d
Aged-refl d = record { later = omega arith; owned = λ a p l e. e }

pub Aged-trans : {d e f : EventDispatcher} → Aged d e → Aged e f → Aged d f
Aged-trans {d} {e} {f} g h = record {
  later = omega (arith, g.later, h.later);
  owned = λ a p l s. g.owned a p l (h.owned a p (omega (arith, g.later, l)) s);
}

module _ {d : EventDispatcher} (v : Inv d) where
  closed-Aged :
      (a : Bytes) (p : ℕ) (x : Answer) (lists : List (Bytes × EventList))
      → Aged d (closed d a p x lists)
  closed-Aged a p x lists = record { later = omega arith; owned = λ b q l s. grind (map_laws, s) }

  Response-Aged :
      (a : Bytes) (dict : KeyValDict) (t : Bool) (d' : EventDispatcher)
      → Response d a dict t d'
      → Aged d d'
  Response-Aged a dict t d' (unclaimed e _ h) = rw h (Aged-refl d)
  Response-Aged a dict t d' (single p e _ _ _ h) = rw h (closed-Aged a p _ _)
  Response-Aged a dict t d' (started p e _ _ _ _ h) =
      rw h (record { later = omega arith; owned = λ b q k s. s })
  Response-Aged a dict t d' (refused p e _ _ _ _ h) = rw h (closed-Aged a p _ _)
  Response-Aged a dict t d' (item p l e _ _ _ h) =
      rw h (record { later = omega arith; owned = λ b q k s. s })
  Response-Aged a dict t d' (last p l e _ _ _ h) = rw h (closed-Aged a p _ _)

  set_on_pipe-Aged :
      (a : Bytes) (x : Answer) (d' : EventDispatcher) → set_on_pipe d a x ≡ ok d' → Aged d d'
  unfolding set_on_pipe
  set_on_pipe-Aged a x d' h = elim (Option-cases (find_pipe d a)) [
    | inl n ↦
        let same = ok_inj {y = forget_list a d} (sym h ∙ ground (arith, n)) in
        rw same (record { later = omega arith; owned = λ b q k s. s })
    | inr (p, e) ↦
        let same =
          ok_inj {y = closed d a p x (UnorderedMap.erase bytes_discrete a d.event_map)}
            (sym h ∙ ground (arith, e, close_pipe_lem v a p x e)) in
        rw same (closed-Aged a p x (UnorderedMap.erase bytes_discrete a d.event_map))
  ]

  get_event_pipe-Aged : (a : Bytes) → Aged d (get_event_pipe d a).0
  unfolding get_event_pipe
  get_event_pipe-Aged a = elim (Option-cases (find_pipe d a)) [
    | inl n ↦
        rw (n, get_event_pipe)
          (record { later = omega arith; owned = λ b q k s. grind (map_laws, k, s, n) })
    | inr (p, e) ↦ rw (e, get_event_pipe) (record { later = omega arith; owned = λ b q k s. s })
  ]

  Served-Aged : (dict : KeyValDict) (d' : EventDispatcher) → Served d dict d' → Aged d d'
  Served-Aged dict d' (taken a p e f r) = Response-Aged a dict true d' r
  Served-Aged dict d' (notified n h) = rw h (record { later = omega arith; owned = λ b q k s. s })

  run_call-Aged : (c : Call) (d' : EventDispatcher) → run_call d c ≡ ok d' → Aged d d'
  unfolding run_call
  run_call-Aged (get_pipe a) d' h = rw⁻¹ (ok_inj h) (get_event_pipe-Aged a)
  run_call-Aged (force a x) d' h = set_on_pipe-Aged a x d' h
  run_call-Aged (arrive dict) d' h =
      let (e, ran, s) = dispatch_dict-Served v dict in
      rw (ok_inj (sym h ∙ ran)) (Served-Aged dict e s)

pub run_calls-Aged :
    (cs : List Call) {d : EventDispatcher}
    → Inv d
    → (d' : EventDispatcher) → run_calls d cs ≡ ok d'
    → Aged d d'
unfolding run_calls
run_calls-Aged [] {d} v d' h = rw⁻¹ (ok_inj h) (Aged-refl d)
run_calls-Aged (c ∷ cs) {d} v d' h =
    let (e, ran, w) = run_call-Inv c v in
    Aged-trans (run_call-Aged v c e ran)
      (run_calls-Aged cs w d' (sym (rw (ran, run_calls) refl) ∙ h))
