-- ===== src/EventDispatcher/Desk/Refinement.antt =====
-- The dispatcher does what the desk does.
use cppami.EventDispatcher.Invariant.{Inv, closed}
use cppami.EventDispatcher.Serving.{
  Served, taken, notified, dispatch_dict-Served, Call, get_pipe, force, arrive, run_call, run_calls,
  run_call-Inv,
}
use cppami.EventDispatcher.Steps.{
  Response, unclaimed, single, started, refused, item, last, close_pipe_lem,
}
use cppami.EventDispatcher.{
  EventDispatcher, Answer, find_pipe, find_list, forget_list, get_event_pipe, set_on_pipe,
}
use cppami.EventList
use cppami.EventList.{EventList}
use cppami.KeyValDict.{KeyValDict, get_value}
use cppami.Outcome.{ok, ok_inj}
use cppami.Prelude.{
  ℕ, suc, ◌≡◌, ◌≢◌, inl, inr, refl, sym, ap, ◌∙◌, true, none, some, List, [], ◌∷◌, arith,
  Option-cases,
}
use cppami.Text.{Bytes, bytes_discrete, codes}
use cppami.UnorderedMap
use cppami.UnorderedMap.Laws.{map_laws}
use cppami.EventDispatcher.Desk.{
  Slot, collecting, Desk, view, put, give, ask, shut, reply, hear, serve, serve_all,
}

with_slots :
    (k : Desk) {s t : Bytes → Slot}
    → ((b : Bytes) → s b ≡ t b)
    → record k { slot = s } ≡ record k { slot = t }
with_slots k h = λ i. record k { slot = λ b. h b i }

module _ {d : EventDispatcher} (v : Inv d) where
  -- The lists of the other actions stay.
  abbrev Others : Bytes → List (Bytes × EventList) → Type 0
  Others a lists = (b : Bytes) → a ≢ b → UnorderedMap.find bytes_discrete b lists ≡ find_list d b

  closed-give :
      (a : Bytes) (p : ℕ) (x : Answer) (lists : List (Bytes × EventList))
      → Others a lists
      → view (closed d a p x lists) ≡ give a p x (view d)
  closed-give a p x lists same = with_slots (view (closed d a p x lists)) (λ b.
      elim (bytes_discrete a b) [
        | yes here ↦ grind (map_laws, here)
        | no other ↦ grind (map_laws, other, same b)
      ])

  erased-Others : (a : Bytes) → Others a (UnorderedMap.erase bytes_discrete a d.event_map)
  erased-Others a b ne = grind (map_laws, ne)

  listed-put :
      (a : Bytes) (p : ℕ) (l : EventList) (lists : List (Bytes × EventList))
      → find_pipe d a ≡ some p
      → UnorderedMap.find bytes_discrete a lists ≡ some l
      → Others a lists
      → view (record d { event_map = lists })
        ≡ record (view d) { slot = put a (collecting p l) (view d).slot }
  listed-put a p l lists e f same = with_slots (view d) (λ b. elim (bytes_discrete a b) [
    | yes here ↦ ground (arith, here, e, f)
    | no other ↦ ground (arith, other, same b)
  ])

  Response-reply :
      (a : Bytes) (dict : KeyValDict) (d' : EventDispatcher)
      → Response d a dict true d'
      → view d' ≡ reply a dict (view d) ((view d).slot a)
  unfolding EventList.add_dict EventList.add_event
  Response-reply a dict d' (unclaimed e t h) = cc
  Response-reply a dict d' (single p e n b t h) =
      rw (h, e, n, b) (closed-give a p _ d.event_map (λ c ne. refl))
  Response-reply a dict d' (refused p e n b g t h) =
      rw (h, e, n, b, g) (closed-give a p _ d.event_map (λ c ne. refl))
  Response-reply a dict d' (started p e n b g t h) =
      rw (h, e, n, b, g) (listed-put a p _ _ e (grind (map_laws, n)) (λ b ne. grind (map_laws, ne)))
  Response-reply a dict d' (item p l e f c t h) =
      rw (h, e, f, c) (listed-put a p _ _ e (grind (map_laws, f)) (λ b ne. grind (map_laws, ne)))
  Response-reply a dict d' (last p l e f c t h) =
      rw (h, e, f, c) (closed-give a p _ _ (erased-Others a))

  Served-hear :
      (dict : KeyValDict) (d' : EventDispatcher)
      → Served d dict d'
      → view d' ≡ hear dict (view d) (get_value dict (codes "ActionID"))
  Served-hear dict d' (taken a p e f r) = rw e (Response-reply a dict d' r)
  Served-hear dict d' (notified n h) = elim (Option-cases (get_value dict (codes "ActionID"))) [
    | inl e ↦ rw (h, e) refl
    | inr (a, e) ↦ rw (h, e, n a e) refl
  ]

  set_on_pipe-shut :
      (a : Bytes) (x : Answer) (d' : EventDispatcher)
      → set_on_pipe d a x ≡ ok d'
      → view d' ≡ shut a x (view d) ((view d).slot a)
  unfolding set_on_pipe
  set_on_pipe-shut a x d' h = elim (Option-cases (find_pipe d a)) [
    | inl n ↦
        let same = ok_inj {y = forget_list a d} (sym h ∙ ground (arith, n)) in
        rw (same, n)
          (with_slots (view d) (λ b. elim (bytes_discrete a b) [
            | yes here ↦ ground (arith, here, n)
            | no other ↦ grind (map_laws, other)
          ]))
    | inr (p, e) ↦
        let same =
          ok_inj {y = closed d a p x (UnorderedMap.erase bytes_discrete a d.event_map)}
            (sym h ∙ ground (arith, e, close_pipe_lem v a p x e)) in
        rw same (closed-give a p x _ (erased-Others a) ∙ shut_busy a p x e)
  ]
    where
      shut_busy :
          (a : Bytes) (p : ℕ) (x : Answer)
          → find_pipe d a ≡ some p
          → give a p x (view d) ≡ shut a x (view d) ((view d).slot a)
      shut_busy a p x e = elim (Option-cases (find_list d a)) [
        | inl n ↦ rw (e, n) refl
        | inr (l, f) ↦ rw (e, f) refl
      ]

  unlisted : (a : Bytes) → find_pipe d a ≡ none → find_list d a ≡ none
  unlisted a n = elim (Option-cases (find_list d a)) [
    | inl f ↦ f
    | inr (l, f) ↦ ground (arith, n, v.working a l f)
  ]

  get_event_pipe-ask : (a : Bytes) → view (get_event_pipe d a).0 ≡ ask a (view d) ((view d).slot a)
  unfolding get_event_pipe
  get_event_pipe-ask a = elim (Option-cases (find_pipe d a)) [
    | inl n ↦
        rw (n, get_event_pipe)
          (with_slots (record (view d) { next_pipe = suc d.next_pipe })
            (λ b. elim (bytes_discrete a b) [
              | yes here ↦ grind (map_laws, here, n, unlisted a n)
              | no other ↦ grind (map_laws, other)
            ]))
    | inr (p, e) ↦ elim (Option-cases (find_list d a)) [
      | inl n ↦ rw (e, n, get_event_pipe) refl
      | inr (l, f) ↦ rw (e, f, get_event_pipe) refl
    ]
  ]

  run_call-serve :
      (c : Call) (d' : EventDispatcher) → run_call d c ≡ ok d' → view d' ≡ serve (view d) c
  unfolding run_call serve
  run_call-serve (get_pipe a) d' h = rw⁻¹ (ok_inj h) (get_event_pipe-ask a)
  run_call-serve (force a x) d' h = set_on_pipe-shut a x d' h
  run_call-serve (arrive dict) d' h =
      let (e, ran, s) = dispatch_dict-Served v dict in
      rw (ok_inj (sym h ∙ ran)) (Served-hear dict e s)

-- In any order of arriving events and of calls, each call succeeds, and the dispatcher does what
-- the desk does: each action has one slot, which is idle, waits for the first event of an answer or
-- collects a list; an event goes to the slot of its action or, if that is idle or there is none, to
-- the notification callback; and the order of the entries of the two maps makes no difference.
pub run_calls-serve_all :
    (cs : List Call) {d : EventDispatcher}
    → Inv d
    → (d' : EventDispatcher) × (run_calls d cs ≡ ok d') × (view d' ≡ serve_all (view d) cs)
unfolding run_calls serve_all
run_calls-serve_all [] {d} v = (d, refl, refl)
run_calls-serve_all (c ∷ cs) v =
    let (e, ran, w) = run_call-Inv c v in
    let (d', rest, same) = run_calls-serve_all cs w in
    (d', rw ran rest, same ∙ ap (λ k. serve_all k cs) (run_call-serve v c e ran))
