-- ===== src/Application/Calls.antt =====
-- Which callbacks of an application are called, with which events.
use cppami.Application
use cppami.Application.Heard.{runs-Grows, get_event_pipe-dispatched}
use cppami.Application.Threads.{system-Inv}
use cppami.Application.{
  Application, start, connection, heard, is_caller, Step, runs, handles, invokes, writes, waits,
  closes, gets, sends, registers, removes, Reach,
}
use cppami.Connection.{dispatch_handler, add_callback, remove_callback}
use cppami.EventDispatcher.Answers.{set_on_pipe_lem}
use cppami.EventDispatcher.{EventDispatcher, exception, set_exception_on_pipe}
use cppami.Outcome.{timed_out, ok_inj}
use cppami.Prelude.{ℕ, ◌≡◌, refl, sym, ap, ◌∙◌, List, [], ◌∷◌, ◌++◌, map, drop, length}
use cppami.Reaction.{Event}
use cppami.System.Delivery.{dispatcher-Inv}
use cppami.System.Invariant.{Inv}
use cppami.TcpSocket.{TcpSocket}
use cppami.Text.{Bytes, bytes_discrete}
use cppami.UnorderedMap.Laws.{AreUnique, emplace-AreUnique, erase-AreUnique}
use mathlib.Core.List.{append_assoc, append-nil}

-- The callbacks are as they were.
abbrev pub IsStill : {a b : Application} → Step a b → Type 0
IsStill (registers id callback live) = ⊥
IsStill (removes key live) = ⊥
IsStill _ = Unit

abbrev pub AreStill : {a b : Application} → Reach a b → Type 0
AreStill Application.here = Unit
AreStill (Application.step r st) = AreStill r × IsStill st

-- What is to be called for events, in their order, when the callbacks are `m`: for each event one call
-- for each entry of `m`.
abbrev pub calls_of : List (Bytes × ℕ) → List Event → List (ℕ × Event)
calls_of m [] = []
calls_of m (e ∷ es) = map (λ entry. (entry.1, e)) m ++ calls_of m es

calls_of-append :
    (m : List (Bytes × ℕ)) (es fs : List Event)
    → calls_of m (es ++ fs) ≡ calls_of m es ++ calls_of m fs
calls_of-append m [] fs = refl
calls_of-append m (e ∷ es) fs =
    ap (◌++◌ (map (λ entry. (entry.1, e)) m)) (calls_of-append m es fs)
    ∙ sym (append_assoc (map (λ entry. (entry.1, e)) m) (calls_of m es) (calls_of m fs))

drop-length : (xs ys : List Event) → drop (length xs) (xs ++ ys) ≡ ys
drop-length [] ys = refl
drop-length (x ∷ xs) ys = drop-length xs ys

-- The events that were handed over, and those whose callbacks were called, from `a` to `b`.
record Called (a b : Application) : Type 0 where
  events : List Event
  handled : List Event
  told : b.system.dispatcher.dispatched ≡ a.system.dispatcher.dispatched ++ events
  queue : a.to_call ++ events ≡ handled ++ b.to_call
  made : b.called ≡ a.called ++ calls_of a.callbacks handled
  same : b.callbacks ≡ a.callbacks

no_call :
    (a b : Application)
    → b.system.dispatcher.dispatched ≡ a.system.dispatcher.dispatched
    → b.to_call ≡ a.to_call
    → b.called ≡ a.called
    → b.callbacks ≡ a.callbacks
    → Called a b
no_call a b d q c m = record {
  events = [];
  handled = [];
  told = d ∙ sym (append-nil a.system.dispatcher.dispatched);
  queue = append-nil a.to_call ∙ sym q;
  made = c ∙ sym (append-nil a.called);
  same = m;
}

Called-trans : {a b c : Application} → Called a b → Called b c → Called a c
Called-trans {a} {b} {c} g h = record {
  events = g.events ++ h.events;
  handled = g.handled ++ h.handled;
  told =
      h.told
      ∙ ap (λ l. l ++ h.events) g.told
      ∙ append_assoc a.system.dispatcher.dispatched g.events h.events;
  queue =
      sym (append_assoc a.to_call g.events h.events)
      ∙ ap (λ l. l ++ h.events) g.queue
      ∙ append_assoc g.handled b.to_call h.events
      ∙ ap (◌++◌ g.handled) h.queue
      ∙ sym (append_assoc g.handled h.handled c.to_call);
  made =
      h.made
      ∙ ap (λ l. l ++ calls_of b.callbacks h.handled) g.made
      ∙ ap (λ m. (a.called ++ calls_of a.callbacks g.handled) ++ calls_of m h.handled) g.same
      ∙ append_assoc a.called (calls_of a.callbacks g.handled) (calls_of a.callbacks h.handled)
      ∙ ap (◌++◌ a.called) (sym (calls_of-append a.callbacks g.handled h.handled));
  same = h.same ∙ g.same;
}

Step-Called : {a b : Application} → Inv a.system → (st : Step a b) → IsStill st → Called a b
unfolding set_exception_on_pipe dispatch_handler
Step-Called {a} v (runs t st own calm) still =
    let (es, told) = runs-Grows v st own in
    record {
      events = es;
      handled = [];
      told = told;
      queue = ap (◌++◌ a.to_call) (
          sym (
            ap (drop (length a.system.dispatcher.dispatched)) told
            ∙ drop-length a.system.dispatcher.dispatched es));
      made = sym (append-nil a.called);
      same = refl;
    }
Step-Called {a} v (handles e rest next) still = record {
  events = [];
  handled = e ∷ [];
  told = sym (append-nil a.system.dispatcher.dispatched);
  queue = append-nil a.to_call ∙ next;
  made = ap (◌++◌ a.called) (sym (append-nil (map (λ entry. (entry.1, e)) a.callbacks)));
  same = refl;
}
Step-Called {a} {b} v (invokes action timed live) still =
    no_call a b (get_event_pipe-dispatched a.system.dispatcher action.action_id) refl refl refl
Step-Called {a} {b} v (writes i u p os live e at) still = no_call a b refl refl refl refl
Step-Called {a} {b} v (waits i u p e at) still = no_call a b refl refl refl refl
Step-Called {a} {b} v (closes i u p d live e at ran) still =
    let x = exception (timed_out u.action.action_id) in
    let (f, ran', _, _, _, _, _, told) = set_on_pipe_lem (dispatcher-Inv v) u.action.action_id x in
    no_call a b (ap (λ (x : EventDispatcher). x.dispatched) (ok_inj (sym ran ∙ ran')) ∙ told) refl
      refl refl
Step-Called {a} {b} v (gets i u p r e at answer) still = no_call a b refl refl refl refl
Step-Called {a} {b} v (sends action os live) still = no_call a b refl refl refl refl
Step-Called v (registers id callback live) still = absurd still
Step-Called v (removes key live) still = absurd still

Reach-trans : {a b c : Application} → Reach a b → Reach b c → Reach a c
Reach-trans r Application.here = r
Reach-trans r (Application.step q st) = Application.step (Reach-trans r q) st

Reach-Called :
    {socket : TcpSocket} {a b : Application}
    → Reach (start socket) a
    → (later : Reach a b) → AreStill later
    → Called a b
Reach-Called {a = a} r Application.here still = no_call a a refl refl refl refl
Reach-Called r (Application.step q st) (before, still) =
    Called-trans (Reach-Called r q before) (Step-Called (system-Inv (Reach-trans r q)) st still)

-- No two callbacks have one id.
Step-AreUnique :
    {a b : Application}
    → Step a b
    → AreUnique bytes_discrete a.callbacks
    → AreUnique bytes_discrete b.callbacks
unfolding add_callback remove_callback
Step-AreUnique {a} (registers id callback live) u =
    emplace-AreUnique bytes_discrete id callback a.callbacks u
Step-AreUnique {a} (removes key live) u = erase-AreUnique bytes_discrete key a.callbacks u
Step-AreUnique (runs t st own calm) u = u
Step-AreUnique (handles e rest next) u = u
Step-AreUnique (invokes action timed live) u = u
Step-AreUnique (writes i v p os live e at) u = u
Step-AreUnique (waits i v p e at) u = u
Step-AreUnique (closes i v p d live e at ran) u = u
Step-AreUnique (gets i v p r e at answer) u = u
Step-AreUnique (sends action os live) u = u

Reach-AreUnique :
    {socket : TcpSocket} {a : Application}
    → Reach (start socket) a
    → AreUnique bytes_discrete a.callbacks
Reach-AreUnique Application.here = tt
Reach-AreUnique (Application.step r st) = Step-AreUnique st (Reach-AreUnique r)

-- Between two moments of which none lies a change of the callbacks: the events whose callbacks were
-- called are those that waited for it and those that the dispatcher handed over in that time, in
-- their order, but for the last ones that wait for it still. For each of them every callback that is
-- registered was called once with the event, all callbacks before those of the next event, and
-- nothing else was called; no two entries of the callbacks have one id.
pub Reach-calls :
    {socket : TcpSocket} {a b : Application}
    → Reach (start socket) a
    → (later : Reach a b) → AreStill later
    → (es : List Event) × (handled : List Event) × (b.system.dispatcher.dispatched
        ≡ a.system.dispatcher.dispatched ++ es)
      × (a.to_call ++ es ≡ handled ++ b.to_call)
      × (b.called ≡ a.called ++ calls_of a.callbacks handled)
      × AreUnique bytes_discrete a.callbacks
Reach-calls r later still =
    let c = Reach-Called r later still in
    (c.events, c.handled, c.told, c.queue, c.made, Reach-AreUnique r)
