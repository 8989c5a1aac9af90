-- ===== src/EventDispatcher/Collecting.antt =====
-- An action whose answer is a list of events, among any other calls and events.
use mathlib.Core.List.{append_assoc, append-nil}
use cppami.EventDispatcher.Answers.{IsForeign, run_call-Spares, run_calls-Keeps}
use cppami.EventDispatcher.Invariant.{Inv}
use cppami.EventDispatcher.Serving.{Call, arrive, run_call, run_calls, run_call-Inv}
use cppami.EventDispatcher.Steps.{begins_list, with_item, with_last, close_pipe_lem}
use cppami.EventDispatcher.{
  EventDispatcher, event_list, Answer, value, find_pipe, find_list, dispatch_dict,
  dispatch_response, first_response, next_response,
}
use cppami.EventList
use cppami.EventList.{EventList, completes}
use cppami.KeyValDict.{KeyValDict, get_value}
use cppami.Outcome.{ok}
use cppami.Prelude.{
  ℕ, ◌≡◌, sym, ap, ◌∙◌, true, false, none, some, List, [], ◌∷◌, ◌++◌, arith, map, subst,
}
use cppami.Reaction.{Event}
use cppami.Text.{Bytes, codes}
use cppami.UnorderedMap.Laws.{map_laws}

abbrev pub as_event : KeyValDict → Event
as_event dict = record { dict = dict }

-- Calls in which the events of the action `a` are `items` and then `final`, which completes the
-- list; whatever comes behind `final` is free.
pub data Collects (a : Bytes) : List Call → List KeyValDict → KeyValDict → Type 0 where
  more :
      {cs : List Call} {items : List KeyValDict} {final : KeyValDict} (dict : KeyValDict)
      → get_value dict (codes "ActionID") ≡ some a
      → completes (as_event dict) ≡ false
      → Collects a cs items final
      → Collects a (arrive dict ∷ cs) (dict ∷ items) final
  complete :
      {cs : List Call} (final : KeyValDict)
      → get_value final (codes "ActionID") ≡ some a
      → completes (as_event final) ≡ true
      → Collects a (arrive final ∷ cs) [] final
  pass :
      {cs : List Call} {items : List KeyValDict} {final : KeyValDict} (c : Call)
      → IsForeign a c
      → Collects a cs items final
      → Collects a (c ∷ cs) items final

-- The same with the event `head` that begins the list in front.
pub data AnswersList (a : Bytes)
    : List Call → KeyValDict → List KeyValDict → KeyValDict → Type 0 where
  begin :
      {cs : List Call} {items : List KeyValDict} {final : KeyValDict} (head : KeyValDict)
      → get_value head (codes "ActionID") ≡ some a
      → begins_list head ≡ true
      → EventList.is_success (EventList.from_dict head) ≡ true
      → Collects a cs items final
      → AnswersList a (arrive head ∷ cs) head items final
  wait :
      {cs : List Call} {head : KeyValDict} {items : List KeyValDict} {final : KeyValDict} (c : Call)
      → IsForeign a c
      → AnswersList a cs head items final
      → AnswersList a (c ∷ cs) head items final

-- The calls all succeed, and the caller who holds the pipe `p` has the answer `x` then.
abbrev pub GivesAnswer : EventDispatcher → List Call → ℕ → Answer → Type 0
GivesAnswer d cs p x = (d' : EventDispatcher) × (run_calls d cs ≡ ok d') × (d'.answers p ≡ some x)

abbrev collected : EventList → List KeyValDict → KeyValDict → EventList
collected l items final = record l {
  events = l.events ++ map as_event items;
  tail = some (as_event final);
}

GivesAnswer-cons :
    (d : EventDispatcher) {d' : EventDispatcher} (c : Call) (cs : List Call) (p : ℕ) (x : Answer)
    → run_call d c ≡ ok d'
    → GivesAnswer d' cs p x
    → GivesAnswer d (c ∷ cs) p x
unfolding run_calls
GivesAnswer-cons d c cs p x ran (d', rest, e) = (d', rw ran rest, e)

-- One event of the action `a` at the pipe `p`.
module _ {d : EventDispatcher} (v : Inv d) (a : Bytes) (p : ℕ) (dict : KeyValDict)
    (own : get_value dict (codes "ActionID") ≡ some a) (e : find_pipe d a ≡ some p)
    (d' : EventDispatcher) (ran : run_call d (arrive dict) ≡ ok d') where
  arrive_begin :
      find_list d a ≡ none
      → begins_list dict ≡ true
      → EventList.is_success (EventList.from_dict dict) ≡ true
      → (find_pipe d' a ≡ some p) × (find_list d' a ≡ some (EventList.from_dict dict))
  unfolding run_call dispatch_dict dispatch_response first_response
  arrive_begin n b g = grind (map_laws, ran, own, e, n, b, g)

  arrive_item :
      (l : EventList)
      → find_list d a ≡ some l
      → completes (as_event dict) ≡ false
      → (find_pipe d' a ≡ some p) × (find_list d' a ≡ some (with_item l dict))
  unfolding run_call dispatch_dict dispatch_response next_response EventList.add_dict
      EventList.add_event
  arrive_item l f c = grind (map_laws, ran, own, e, f, c)

  arrive_final :
      (l : EventList)
      → find_list d a ≡ some l
      → completes (as_event dict) ≡ true
      → d'.answers p ≡ some (value (some (event_list (with_last l dict))))
  unfolding run_call dispatch_dict dispatch_response next_response EventList.add_dict
      EventList.add_event
  arrive_final l f c = ground (
    arith,
    ran,
    own,
    e,
    f,
    c,
    close_pipe_lem v a p (value (some (event_list (with_last l dict)))) e,
  )

GivesAnswer-now :
    (d : EventDispatcher) {d' : EventDispatcher} (c : Call) (cs : List Call) (p : ℕ) (x : Answer)
    → run_call d c ≡ ok d'
    → Inv d'
    → d'.answers p ≡ some x
    → GivesAnswer d (c ∷ cs) p x
GivesAnswer-now d c cs p x ran v' h =
    let (d'', rest, _, keeps) = run_calls-Keeps cs v' in
    GivesAnswer-cons d c cs p x ran (d'', rest, keeps p x h)

regroup :
    (l : EventList) (dict : KeyValDict) (items : List KeyValDict) (final : KeyValDict)
    → collected (with_item l dict) items final ≡ collected l (dict ∷ items) final
regroup l dict items final =
    ground (arith, append_assoc l.events (as_event dict ∷ []) (map as_event items))

Collects-answer :
    {a : Bytes} {cs : List Call} {items : List KeyValDict} {final : KeyValDict}
    → Collects a cs items final
    → {d : EventDispatcher} (p : ℕ) (l : EventList) → Inv d
    → find_pipe d a ≡ some p
    → find_list d a ≡ some l
    → GivesAnswer d cs p (value (some (event_list (collected l items final))))
Collects-answer {a} (more {cs} {items} {final} dict own c rest) {d} p l v e f =
    let (d', ran, v') = run_call-Inv (arrive dict) v in
    let (e', f') = arrive_item v a p dict own e d' ran l f c in
    GivesAnswer-cons d (arrive dict) cs p _ ran (
      subst (λ x. GivesAnswer d' cs p (value (some (event_list x)))) (regroup l dict items final)
        (Collects-answer rest p (with_item l dict) v' e' f'))
Collects-answer {a} (complete {cs} final own c) {d} p l v e f =
    let (d', ran, v') = run_call-Inv (arrive final) v in
    GivesAnswer-now d (arrive final) cs p _ ran v' (
      arrive_final v a p final own e d' ran l f c
      ∙ ap
          (λ es.
            some
              (value (some (event_list (record l { events = es; tail = some (as_event final) })))))
          (sym (append-nil l.events)))
Collects-answer {a} (pass {cs} c other rest) {d} p l v e f =
    let (d', ran, v') = run_call-Inv c v in
    let (e', f') = run_call-Spares v c d' a other ran in
    GivesAnswer-cons d c cs p _ ran (Collects-answer rest p l v' (e' ∙ e) (f' ∙ f))

-- The caller of an action whose answer is a list is given that list, whole and in order: the event
-- that begins it, the items, and the event that completes it. Events of other actions,
-- notifications, and calls of other callers may come between, and anything may come behind.
pub AnswersList-answer :
    {a : Bytes} {cs : List Call} {head : KeyValDict} {items : List KeyValDict} {final : KeyValDict}
    → AnswersList a cs head items final
    → {d : EventDispatcher} (p : ℕ) → Inv d
    → find_pipe d a ≡ some p
    → find_list d a ≡ none
    → GivesAnswer d cs p (
        value (
          some (
            event_list (record {
              head = as_event head;
              tail = some (as_event final);
              events = map as_event items;
            }))))
unfolding EventList.from_dict
AnswersList-answer {a} (begin {cs} {items} {final} head own b g rest) {d} p v e n =
    let (d', ran, v') = run_call-Inv (arrive head) v in
    let (e', f') = arrive_begin v a p head own e d' ran n b g in
    GivesAnswer-cons d (arrive head) cs p _ ran
      (Collects-answer rest p (EventList.from_dict head) v' e' f')
AnswersList-answer {a} (wait {cs} c other rest) {d} p v e n =
    let (d', ran, v') = run_call-Inv c v in
    let (e', n') = run_call-Spares v c d' a other ran in
    GivesAnswer-cons d c cs p _ ran (AnswersList-answer rest p v' (e' ∙ e) (n' ∙ n))
