-- ===== src/Application/Heard.antt =====
-- What the dispatcher hands to `dispatch_handler`.
use cppami.Application.{is_caller}
use cppami.EventDispatcher.Serving.{Served, taken, notified, dispatch_dict-Served}
use cppami.EventDispatcher.Steps.{Response, unclaimed, single, started, refused, item, last}
use cppami.EventDispatcher.{EventDispatcher, find_pipe, get_event_pipe, dispatch_event}
use cppami.KeyValDict.{KeyValDict}
use cppami.KeyValDict.Message.{set_message-total}
use cppami.Outcome.{ok, ok_inj}
use cppami.Prelude.{
  ◌≡◌, inl, inr, refl, sym, ap, subst, ◌∙◌, Bool, false, some, List, [], ◌∷◌, ◌++◌, Option-cases,
}
use cppami.Reaction.{Event}
use cppami.System
use cppami.System.Delivery.{dispatcher-Inv, next-line}
use cppami.System.Invariant.{Inv}
use cppami.System.{System, parse}
use cppami.Text.{Bytes}
use cppami.Worker.{next_item}
use mathlib.Core.List.{append-nil}

-- The events that were handed over are those of before, and more.
abbrev pub Grows : EventDispatcher → EventDispatcher → Type 0
Grows d e = (es : List Event) × (e.dispatched ≡ d.dispatched ++ es)

pub same-Grows : (d e : EventDispatcher) → e.dispatched ≡ d.dispatched → Grows d e
same-Grows d e h = ([], h ∙ sym (append-nil d.dispatched))

Response-dispatched :
    {d : EventDispatcher} {a : Bytes} {dict : KeyValDict} {t : Bool} {e : EventDispatcher}
    → Response d a dict t e
    → e.dispatched ≡ d.dispatched
Response-dispatched (unclaimed _ _ h) = ap (λ (x : EventDispatcher). x.dispatched) h
Response-dispatched (single p _ _ _ _ h) = ap (λ (x : EventDispatcher). x.dispatched) h
Response-dispatched (started p _ _ _ _ _ h) = ap (λ (x : EventDispatcher). x.dispatched) h
Response-dispatched (refused p _ _ _ _ _ h) = ap (λ (x : EventDispatcher). x.dispatched) h
Response-dispatched (item p l _ _ _ _ h) = ap (λ (x : EventDispatcher). x.dispatched) h
Response-dispatched (last p l _ _ _ _ h) = ap (λ (x : EventDispatcher). x.dispatched) h

Served-Grows :
    {d : EventDispatcher} {dict : KeyValDict} (e : EventDispatcher) → Served d dict e → Grows d e
Served-Grows {d} e (taken a p f g r) = same-Grows d e (Response-dispatched r)
Served-Grows {d} {dict} e (notified n h) =
    (record { dict = dict } ∷ [], ap (λ (x : EventDispatcher). x.dispatched) h)

dispatch_event-Grows :
    {s : System} (v : Inv s) (m : Bytes) (d : EventDispatcher)
    → next_item s.events ≡ some m
    → dispatch_event s.dispatcher m ≡ ok d
    → Grows s.dispatcher d
unfolding dispatch_event
dispatch_event-Grows {s} v m d n ran =
    let (x, e) = next-line v m n in
    let (dict, read) = set_message-total x in
    let (f, ran', served) = dispatch_dict-Served (dispatcher-Inv v) dict in
    let again : dispatch_event s.dispatcher m ≡ ok f = rw (e, read, dispatch_event) ran' in
    let same : f ≡ d = ok_inj (sym again ∙ ran) in
    subst (Grows s.dispatcher) same (Served-Grows f served)

pub get_event_pipe-dispatched :
    (d : EventDispatcher) (a : Bytes) → (get_event_pipe d a).0.dispatched ≡ d.dispatched
unfolding get_event_pipe
get_event_pipe-dispatched d a = elim (Option-cases (find_pipe d a)) [
  | inl n ↦ rw (n, get_event_pipe) refl
  | inr (p, e) ↦ rw (e, get_event_pipe) refl
]

parse-dispatcher : (s : System) → (parse s).dispatcher ≡ s.dispatcher
unfolding parse
parse-dispatcher s = elim (Option-cases (next_item s.chunks)) [
  | inl n ↦ rw (n, parse) refl
  | inr (c, n) ↦ rw (n, parse) refl
]

pub runs-Grows :
    {s t : System}
    → Inv s
    → (st : System.Step s t) → is_caller st ≡ false
    → Grows s.dispatcher t.dispatcher
runs-Grows {s} v (System.dispatches m d n ran) own = dispatch_event-Grows v m d n ran
runs-Grows {s} {t} v (System.parses e) own =
    same-Grows s.dispatcher t.dispatcher
      (ap (λ (x : EventDispatcher). x.dispatched) (parse-dispatcher s))
runs-Grows v (System.asks a live) own = absurd cc
runs-Grows v (System.forces a x d live ran) own = absurd cc
runs-Grows {s} {t} v _ own = same-Grows s.dispatcher t.dispatcher refl
