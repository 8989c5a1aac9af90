-- ===== src/EventDispatcher/Invariant.antt =====
-- How the maps and the pipes of the dispatcher fit together, and the three ways in which a step
-- changes them.
use cppami.EventDispatcher.{
  EventDispatcher, Answer, exception, initial, find_pipe, find_list, update, get_event_pipe,
}
use cppami.EventList
use cppami.EventList.{EventList}
use cppami.Outcome.{broken_promise}
use cppami.Prelude.{
  ℕ, suc, ◌≤◌, ◌<◌, ◌≡◌, ◌≢◌, inl, inr, refl, true, Option, none, some, List, ite, arith,
  Option-cases, ℕ_discrete,
}
use cppami.Text.{Bytes, bytes_discrete}
use cppami.UnorderedMap
use cppami.UnorderedMap.Laws.{map_laws}

-- A list that is being collected: it has begun well, and has no last event yet.
abbrev pub IsWorking : EventList → Type 0
IsWorking l = (l.tail ≡ none) × (EventList.is_success l ≡ true)

pub record Inv (d : EventDispatcher) : Type 0 where
  -- a promise in the map is one of the pipes, and is not satisfied
  pub unsatisfied :
      (a : Bytes) (p : ℕ) → find_pipe d a ≡ some p → (p < d.next_pipe) × (d.answers p ≡ none)
  -- no pipe serves two actions
  pub one_action : (a b : Bytes) (p : ℕ) → find_pipe d a ≡ some p → find_pipe d b ≡ some p → a ≡ b
  -- a pipe that has no answer is in the map, so that an answer can still come
  pub reachable :
      (p : ℕ) → p < d.next_pipe → d.answers p ≡ none → (a : Bytes) × (find_pipe d a ≡ some p)
  pub fresh : (p : ℕ) → d.next_pipe ≤ p → d.answers p ≡ none
  -- a list in the making has a pipe to go to
  pub working :
      (a : Bytes) (l : EventList)
      → find_list d a ≡ some l
      → ((p : ℕ) × (find_pipe d a ≡ some p)) × IsWorking l

pub initial-Inv : Inv initial
unfolding UnorderedMap.find
initial-Inv = record {
  unsatisfied = λ a p e. cc;
  one_action = λ a b p e f. cc;
  reachable = λ p h e. absurd (omega arith);
  fresh = λ p h. refl;
  working = λ a l e. cc;
}

-- A step that gives the answer `x` to the pipe of the action `a`.
abbrev pub closed :
    EventDispatcher → Bytes → ℕ → Answer → List (Bytes × EventList) → EventDispatcher
closed d a p x lists = record d {
  promise_map = UnorderedMap.erase bytes_discrete a d.promise_map;
  answers = update d.answers p x;
  event_map = lists;
}

-- `lists` has no list for the action `a`, and no list that the dispatcher did not have.
abbrev pub Without : EventDispatcher → Bytes → List (Bytes × EventList) → Type 0
Without d a lists =
    (b : Bytes) (l : EventList)
    → UnorderedMap.find bytes_discrete b lists ≡ some l
    → (a ≢ b) × (find_list d b ≡ some l)

find_closed :
    (d : EventDispatcher) (a b : Bytes) (p q : ℕ) (x : Answer) (lists : List (Bytes × EventList))
    → find_pipe (closed d a p x lists) b ≡ some q
    → (a ≢ b) × (find_pipe d b ≡ some q)
find_closed d a b p q x lists e = grind map_laws

find_closed_ne :
    (d : EventDispatcher) (a b : Bytes) (p q : ℕ) (x : Answer) (lists : List (Bytes × EventList))
    → a ≢ b
    → find_pipe d b ≡ some q
    → find_pipe (closed d a p x lists) b ≡ some q
find_closed_ne d a b p q x lists ne e = grind map_laws

answer_other :
    (answers : ℕ → Option Answer) (p q : ℕ) (x : Answer)
    → update answers p x q ≡ none
    → (p ≢ q) × (answers q ≡ none)
answer_other answers p q x e = ground arith

module _ {d : EventDispatcher} (v : Inv d) where
  pub closed-Inv :
      (a : Bytes) (p : ℕ) (x : Answer) (lists : List (Bytes × EventList))
      → find_pipe d a ≡ some p
      → Without d a lists
      → Inv (closed d a p x lists)
  closed-Inv a p x lists here without = record {
    unsatisfied = λ b q e.
        let (ne, old) = find_closed d a b p q x lists e in
        let (within, pending) = v.unsatisfied b q old in
        (within, ground (arith, pending, v.one_action a b q, ne, old, here));
    one_action = λ b c q e f.
        v.one_action b c q (find_closed d a b p q x lists e).1 (find_closed d a c p q x lists f).1;
    reachable = λ q h e.
        let apart : (p ≢ q) × (d.answers q ≡ none) = answer_other d.answers p q x e in
        let (b, at) = v.reachable q h apart.1 in
        (b, find_closed_ne d a b p q x lists (λ same. ground (arith, same, at, here, apart.0)) at);
    fresh = λ q h. ground (arith, v.fresh q, v.unsatisfied a p here);
    working = λ b l e.
        let (ne, old) = without b l e in
        let ((q, at), w) = v.working b l old in ((q, find_closed_ne d a b p q x lists ne at), w);
  }

  -- A step that keeps a working list for an action that has a pipe.
  pub collected-Inv :
      (a : Bytes) (p : ℕ) (l : EventList) (lists : List (Bytes × EventList))
      → find_pipe d a ≡ some p
      → IsWorking l
      → ((b : Bytes)
          → UnorderedMap.find bytes_discrete b lists
            ≡ ite (bytes_discrete a b) (some l) (find_list d b))
      → Inv (record d { event_map = lists })
  collected-Inv a p l lists here w look = record {
    unsatisfied = v.unsatisfied;
    one_action = v.one_action;
    reachable = v.reachable;
    fresh = v.fresh;
    working = λ b l' e. elim (bytes_discrete a b) [
      | yes same ↦
          ((p, rw same at here), (ground (arith, look b, e, w.0), ground (arith, look b, e, w.1)))
      | no other ↦ v.working b l' (ground (arith, look b, e))
    ];
  }

  added-Inv :
      (a : Bytes)
      → find_pipe d a ≡ none
      → Inv (record d {
        promise_map = UnorderedMap.emplace bytes_discrete a d.next_pipe d.promise_map;
        next_pipe = suc d.next_pipe;
      })
  added-Inv a e = record {
    unsatisfied = λ b q f. grind (map_laws, v.unsatisfied b q, v.fresh q);
    one_action =
        λ b c q f g. grind (map_laws, v.unsatisfied b q, v.unsatisfied c q, v.one_action b c q);
    reachable = λ q h f. elim (ℕ_discrete q d.next_pipe) [
      | yes same ↦ (a, grind (map_laws, e, same))
      | no other ↦ let (b, at) = v.reachable q (omega arith) f in (b, grind (map_laws, at, e))
    ];
    fresh = λ q h. v.fresh q (omega arith);
    working = λ b l f. let ((q, at), w) = v.working b l f in ((q, grind (map_laws, at, e)), w);
  }

  refused-Inv : Inv (record d {
    next_pipe = suc d.next_pipe;
    answers = update d.answers d.next_pipe (exception broken_promise);
  })
  refused-Inv = record {
    unsatisfied = λ b q f. ground (arith, v.unsatisfied b q f);
    one_action = v.one_action;
    reachable = λ q h f.
        let apart = answer_other d.answers d.next_pipe q (exception broken_promise) f in
        v.reachable q (ground (arith, apart.0)) apart.1;
    fresh = λ q h. ground (arith, v.fresh q);
    working = v.working;
  }

  pub get_event_pipe-Inv : (a : Bytes) → Inv (get_event_pipe d a).0
  unfolding get_event_pipe
  get_event_pipe-Inv a = elim (Option-cases (find_pipe d a)) [
    | inl e ↦ rw (e, get_event_pipe) (added-Inv a e)
    | inr (p, e) ↦ rw (e, get_event_pipe) refused-Inv
  ]
