-- ===== src/EventDispatcher/Steps.antt =====
-- The steps that an event can make the dispatcher take, as a relation, and that each call takes
-- one.
use cppami.EventDispatcher.Invariant.{Inv, IsWorking, closed, Without, closed-Inv, collected-Inv}
use cppami.EventDispatcher.{
  EventDispatcher, event, event_list, Answer, value, find_pipe, find_list, satisfy, close_pipe,
  first_response, next_response, dispatch_response,
}
use cppami.EventList
use cppami.EventList.{EventList, completes}
use cppami.KeyValDict.{KeyValDict, has_key}
use cppami.Outcome.{ok}
use cppami.Prelude.{
  ℕ, ◌≡◌, inl, inr, refl, sym, Bool, true, false, none, some, [], ◌∷◌, ◌++◌, arith, Option-cases,
  Bool-cases, subst,
}
use cppami.Text.{Bytes, bytes_discrete, codes}
use cppami.UnorderedMap
use cppami.UnorderedMap.Laws.{map_laws, find-assign}

abbrev pub begins_list : KeyValDict → Bool
begins_list dict = has_key dict (codes "EventList")

abbrev pub with_item : EventList → KeyValDict → EventList
with_item l dict = record l { events = l.events ++ record { dict = dict } ∷ [] }

abbrev pub with_last : EventList → KeyValDict → EventList
with_last l dict = record l { tail = some (record { dict = dict }) }

-- What an event with the id of the action `a` may do: whether it is taken, and the dispatcher then.
pub data Response (d : EventDispatcher) (a : Bytes) (dict : KeyValDict) (taken : Bool)
    (d' : EventDispatcher) : Type 0 where
  -- no caller waits
  unclaimed : find_pipe d a ≡ none → taken ≡ false → d' ≡ d → Response d a dict taken d'
  -- the event is the whole answer
  single :
      (p : ℕ)
      → find_pipe d a ≡ some p
      → find_list d a ≡ none
      → begins_list dict ≡ false
      → taken ≡ true
      → d' ≡ closed d a p (value (some (event (record { dict = dict })))) d.event_map
      → Response d a dict taken d'
  -- the event begins a list
  started :
      (p : ℕ)
      → find_pipe d a ≡ some p
      → find_list d a ≡ none
      → begins_list dict ≡ true
      → EventList.is_success (EventList.from_dict dict) ≡ true
      → taken ≡ true
      → d' ≡ record d {
        event_map = UnorderedMap.emplace bytes_discrete a (EventList.from_dict dict) d.event_map;
      }
      → Response d a dict taken d'
  -- the event would begin a list, but the action failed
  refused :
      (p : ℕ)
      → find_pipe d a ≡ some p
      → find_list d a ≡ none
      → begins_list dict ≡ true
      → EventList.is_success (EventList.from_dict dict) ≡ false
      → taken ≡ true
      → d' ≡ closed d a p (value (some (event_list (EventList.from_dict dict)))) d.event_map
      → Response d a dict taken d'
  -- the event is an item of a list
  item :
      (p : ℕ) (l : EventList)
      → find_pipe d a ≡ some p
      → find_list d a ≡ some l
      → completes (record { dict = dict }) ≡ false
      → taken ≡ true
      → d' ≡ record d {
        event_map = UnorderedMap.assign bytes_discrete a (with_item l dict) d.event_map;
      }
      → Response d a dict taken d'
  -- the event completes a list
  last :
      (p : ℕ) (l : EventList)
      → find_pipe d a ≡ some p
      → find_list d a ≡ some l
      → completes (record { dict = dict }) ≡ true
      → taken ≡ true
      → d'
        ≡ closed d a p
            (value (some (event_list (with_last l dict))))
            (UnorderedMap.erase bytes_discrete a d.event_map)
      → Response d a dict taken d'

begun_IsWorking :
    (dict : KeyValDict)
    → EventList.is_success (EventList.from_dict dict) ≡ true
    → IsWorking (EventList.from_dict dict)
unfolding EventList.from_dict
begun_IsWorking dict g = (refl, g)

with_item-IsWorking :
    (l : EventList) (dict : KeyValDict) → IsWorking l → IsWorking (with_item l dict)
unfolding EventList.is_success
with_item-IsWorking l dict w = w

own_absent : (d : EventDispatcher) (a : Bytes) → find_list d a ≡ none → Without d a d.event_map
own_absent d a n = λ b l f. (λ s. ground (arith, n, f, s), f)

pub own_erased :
    (d : EventDispatcher) (a : Bytes)
    → Without d a (UnorderedMap.erase bytes_discrete a d.event_map)
own_erased d a = λ b l f. grind map_laws

pub dispatch_response_unclaimed :
    (d : EventDispatcher) (a : Bytes) (dict : KeyValDict)
    → find_pipe d a ≡ none
    → dispatch_response d a dict ≡ ok (false, d)
unfolding dispatch_response
dispatch_response_unclaimed d a dict e = ground (arith, e)

module _ {d : EventDispatcher} (v : Inv d) where
  -- Under the invariant no promise is satisfied twice.
  pub close_pipe_lem :
      (a : Bytes) (p : ℕ) (x : Answer)
      → find_pipe d a ≡ some p
      → close_pipe d a p x ≡ ok (closed d a p x d.event_map)
  unfolding close_pipe
  close_pipe_lem a p x e = rw ((v.unsatisfied a p e).1, satisfy)

  first_response-Response :
      (a : Bytes) (dict : KeyValDict) (p : ℕ)
      → find_pipe d a ≡ some p
      → find_list d a ≡ none
      → (d' : EventDispatcher) × (first_response d a p dict ≡ ok d') × Response d a dict true d'
  unfolding first_response
  first_response-Response a dict p e n = elim (Bool-cases (begins_list dict)) [
    | inr no_list ↦ (_, rw no_list (close_pipe_lem a p _ e), single p e n no_list refl refl)
    | inl list ↦ elim (Bool-cases (EventList.is_success (EventList.from_dict dict))) [
      | inl good ↦ (_, rw (list, good), started p e n list good refl refl)
      | inr bad ↦ (_, rw (list, bad) (close_pipe_lem a p _ e), refused p e n list bad refl refl)
    ]
  ]

  next_response-Response :
      (a : Bytes) (dict : KeyValDict) (p : ℕ) (l : EventList)
      → find_pipe d a ≡ some p
      → find_list d a ≡ some l
      → (d' : EventDispatcher) × (next_response d a p l dict ≡ ok d') × Response d a dict true d'
  unfolding next_response EventList.add_dict EventList.add_event
  next_response-Response a dict p l e f = elim (Bool-cases (completes (record { dict = dict }))) [
    | inl done ↦ (_, rw done (rw (close_pipe_lem a p _ e)), last p l e f done refl refl)
    | inr more ↦ (_, rw more, item p l e f more refl refl)
  ]

  -- Under the invariant `dispatch_event` of an event with an action id always succeeds, and does
  -- one of these steps.
  pub dispatch_response-Response :
      (a : Bytes) (dict : KeyValDict)
      → (taken : Bool) × (d' : EventDispatcher) × (dispatch_response d a dict ≡ ok (taken, d'))
        × Response d a dict taken d'
  unfolding dispatch_response
  dispatch_response-Response a dict = elim (Option-cases (find_pipe d a)) [
    | inl e ↦ (false, d, ground (arith, e), unclaimed e refl refl)
    | inr (p, e) ↦ elim (Option-cases (find_list d a)) [
      | inl n ↦
          let (d', ran, r) = first_response-Response a dict p e n in
          (true, d', ground (arith, e, n, ran), r)
      | inr (l, f) ↦
          let (d', ran, r) = next_response-Response a dict p l e f in
          (true, d', ground (arith, e, f, ran), r)
    ]
  ]

  -- Each of these steps keeps the invariant.
  pub Response-Inv :
      (a : Bytes) (dict : KeyValDict) (taken : Bool) (d' : EventDispatcher)
      → Response d a dict taken d'
      → Inv d'
  Response-Inv a dict taken d' (unclaimed e t h) = subst Inv (sym h) v
  Response-Inv a dict taken d' (single p e n b t h) =
      subst Inv (sym h) (closed-Inv v a p _ d.event_map e (own_absent d a n))
  Response-Inv a dict taken d' (started p e n b g t h) =
      subst Inv (sym h)
        (collected-Inv v a p _ _ e (begun_IsWorking dict g) (λ b. grind (map_laws, n)))
  Response-Inv a dict taken d' (refused p e n b g t h) =
      subst Inv (sym h) (closed-Inv v a p _ d.event_map e (own_absent d a n))
  Response-Inv a dict taken d' (item p l e f c t h) = subst Inv (sym h) (
      collected-Inv v a p _ _ e (with_item-IsWorking l dict (v.working a l f).1)
        (λ b. find-assign bytes_discrete a b (with_item l dict) d.event_map))
  Response-Inv a dict taken d' (last p l e f c t h) =
      subst Inv (sym h) (closed-Inv v a p _ _ e (own_erased d a))
