-- ===== src/Tests/Applications.antt =====
-- An application with a callback: it pings the server, which answers and then notifies.
use cppami.Action
use cppami.Action.Framing.{ArePlain}
use cppami.Action.{Action}
use cppami.Application
use cppami.Application.Answers.{Reach-AreSound, Reach-IsAnswerFor}
use cppami.Application.Calls.{calls_of, Reach-calls}
use cppami.Application.Orderly.{AreWaitedFor, Reach-AreWaitedFor}
use cppami.Application.Progress.{Goes}
use cppami.Application.Timed.{Alone, IsOver, Reach-timed}
use cppami.Application.Writes.{actions, taken, AreParts, AreWhole, Reach-sends}
use cppami.Application.{
  Application, Place, writing, waiting, closing, getting, returned, Invocation, start, is_live,
  connection, Step, runs, handles, invokes, writes, waits, closes, gets, sends, registers, Reach,
  here, step,
}
use cppami.Connection.{dispatch_handler, add_callback, async_invoke, is_timeout, get}
use cppami.EventDispatcher.Desk.Asked.{IsAnswerFor}
use cppami.EventDispatcher.{EventDispatcher, event, cleanup_object}
use cppami.KeyValDict
use cppami.KeyValDict.{KeyValDict, or_empty}
use cppami.Outcome.{ok}
use cppami.Prelude.{
  ℕ, zero, arith, suc, none, sym, ◌∙◌, ap, ◌≤◌, ◌≡◌, refl, true, false, some, List, [], ◌∷◌, ◌++◌,
  map, concat, length,
}
use cppami.Reaction.{Event}
use cppami.SocketWriter
use cppami.StreamParser.Framing.{Framing}
use cppami.System
use cppami.TcpSocket
use cppami.TcpSocket.{Os}
use cppami.Tests.Systems.{third, delivers, program, version_line}
use cppami.UnorderedMap.Laws.{AreUnique}
use cppami.Text.{Bytes, bytes_discrete, codes, index_of, starts_with}

record RunFrom (first : Application) : Type 0 where
  last : Application
  reach : Reach first last

abbrev Run : Type 0
Run = RunFrom (start third)

abbrev and_then :
    {first : Application} (r : RunFrom first) {t : Application} → Step r.last t → RunFrom first
and_then r {t} s = record { last = t; reach = step r.reach s }

abbrev thread :
    {first : Application} (r : RunFrom first) {t : System.System}
    → (st : System.Step r.last.system t) → Application.is_caller st ≡ false
    → r.last.to_call ≡ []
    → RunFrom first
thread r {t} st own calm = and_then r (runs t st own (λ _. calm))

-- An operating system that takes all that it is given.
abbrev takes : Os
takes = record (delivers []) { send = λ fd bytes. some (length bytes) }

abbrev ping : Action
ping = record {
  dict = record { ordered_keys = []; values = [] };
  action = codes "Ping";
  action_id = codes "7";
}

abbrev pong : Bytes
pong = codes "Ping: Pong\r\nActionID: 7\r\n\r\n"

abbrev news : Bytes
news = codes "Event: Hangup\r\n\r\n"

using : Unit {0}
unfolding program dispatch_handler add_callback async_invoke is_timeout get SocketWriter.write
    TcpSocket.write Action.to_string KeyValDict.to_string or_empty
using = tt

-- The callback 5 is registered, and a ping with a timeout is written.
unfoldable asking : Run
unfolding using
asking =
    let r1 =
      and_then (record { last = start third; reach = here }) (registers (codes "k") 5 refl) in
    let r2 = and_then r1 (invokes ping true refl) in and_then r2 (writes 0 _ 0 takes refl refl refl)

-- The version line is read, and processed.
unfoldable greeted : Run
unfolding using asking
greeted =
    let r2 = thread asking (System.reads (delivers version_line) _ refl refl) refl refl in
    let r3 = thread r2 (System.hands version_line refl refl) refl refl in
    let r4 = thread r3 (System.parses refl) refl refl in
    let r5 = thread r4 (System.parses refl) refl refl in
    let r6 = thread r5 (System.parses refl) refl refl in
    let r7 = thread r6 (System.reports (codes "Asterisk") [] refl) refl refl in
    thread r7 (System.parses refl) refl refl

-- The answer is read and stands in the dispatcher's batch.
unfoldable answered : Run
unfolding using asking greeted
answered =
    let r1 = thread greeted (System.reads (delivers pong) _ refl refl) refl refl in
    let r2 = thread r1 (System.hands pong refl refl) refl refl in
    let r3 = thread r2 (System.parses refl) refl refl in
    let r4 = thread r3 (System.parses refl) refl refl in
    let r5 = thread r4 (System.parses refl) refl refl in
    let r6 = thread r5 (System.adds pong [] refl refl) refl refl in
    let r7 = thread r6 (System.turns refl) refl refl in thread r7 (System.turns refl) refl refl

-- The answer is given, and the call returns it.
unfoldable ponged : Run
unfolding using asking greeted answered
ponged =
    let r1 = thread answered (System.dispatches pong _ refl refl) refl refl in
    let r2 = and_then r1 (waits 0 _ 0 refl refl) in and_then r2 (gets 0 _ 0 _ refl refl refl)

abbrev pong_dict : KeyValDict
pong_dict = record {
  ordered_keys = codes "Ping" ∷ codes "ActionID" ∷ [];
  values = (codes "Ping", codes "Pong") ∷ (codes "ActionID", codes "7") ∷ [];
}

abbrev returned_call : Invocation
returned_call = record {
  action = ping;
  timed = true;
  place = returned (ok (some (event (record { dict = pong_dict }))));
}

Reach-IsAnswerFor_example : IsAnswerFor (codes "7") (event (record { dict = pong_dict }))
unfolding using asking greeted answered ponged
Reach-IsAnswerFor_example =
    Reach-IsAnswerFor 0 returned_call (event (record { dict = pong_dict })) ponged.reach refl refl

some_inj : {u v : Invocation} → some u ≡ some v → u ≡ v
some_inj h = cc

ponged-AreWaitedFor : AreWaitedFor ponged.last
unfolding using asking greeted answered ponged
ponged-AreWaitedFor zero v e =
    let same : returned_call ≡ v = some_inj e in
    (
      ok (some (event (record { dict = pong_dict }))),
      ap (λ (w : Invocation). w.place) (sym same),
      λ fails. cc,
    )
ponged-AreWaitedFor (suc i) v e =
    absurd (none_some (sym ((Reach-AreSound ponged.reach).fresh (suc i) (omega arith)) ∙ e))
  where
    none_some : {u : Invocation} → none ≡ some u → ⊥
    none_some h = cc

Reach-AreWaitedFor_example :
    (d : EventDispatcher) × (cleanup_object false ponged.last.system.dispatcher ≡ ok d)
Reach-AreWaitedFor_example = Reach-AreWaitedFor ponged.reach ponged-AreWaitedFor

abbrev asked_call : Invocation
asked_call = record { action = ping; timed = true; place = waiting 0 }

Reach-timed_example :
    ((n : ℕ) × (n ≤ 3) × (b : Application) × Alone 0 asking.last n b × IsOver b 0)
    × ((b : Application) → Step asking.last b → Goes b 0 asked_call 3)
unfolding using asking
Reach-timed_example = Reach-timed 0 asked_call asking.reach refl refl refl tt

Reach-sends_example :
    (asking.last.written ≡ concat (taken asking.last.sent))
    × AreParts asking.last.sent
    × (AreWhole asking.last.sent
        → ArePlain (actions asking.last.sent)
        → Framing asking.last.written (map Action.to_string (actions asking.last.sent)) [])
Reach-sends_example = Reach-sends asking.reach

ping-ArePlain : ArePlain (ping ∷ [])
unfolding index_of starts_with
ping-ArePlain = (((refl, refl), ((refl, refl), tt)), tt)

-- The operating system takes the ping whole, so the server finds it.
asking-Framing : Framing asking.last.written (Action.to_string ping ∷ []) []
unfolding using asking
asking-Framing =
    let (joined, parts, framed) = Reach-sends asking.reach in framed (refl, tt) ping-ArePlain

-- A notification comes: it is queued, and the callback is called with it.
unfoldable queued : RunFrom ponged.last
unfolding using asking greeted answered ponged
queued =
    let r1 = thread (record { last = ponged.last; reach = here }) (System.turns refl) refl refl in
    let r2 = thread r1 (System.reads (delivers news) _ refl refl) refl refl in
    let r3 = thread r2 (System.hands news refl refl) refl refl in
    let r4 = thread r3 (System.parses refl) refl refl in
    let r5 = thread r4 (System.parses refl) refl refl in
    let r6 = thread r5 (System.parses refl) refl refl in
    let r7 = thread r6 (System.parses refl) refl refl in
    thread r7 (System.adds news [] refl refl) refl refl

unfoldable notified : RunFrom ponged.last
unfolding using asking greeted answered ponged queued
notified =
    let r1 = thread queued (System.turns refl) refl refl in
    let r2 = thread r1 (System.turns refl) refl refl in
    let r3 = thread r2 (System.dispatches news _ refl refl) refl refl in
    and_then r3 (handles _ [] refl)

Reach-calls_example :
    (es : List Event) × (handled : List Event) × (notified.last.system.dispatcher.dispatched
      ≡ ponged.last.system.dispatcher.dispatched ++ es)
    × (ponged.last.to_call ++ es ≡ handled ++ notified.last.to_call)
    × (notified.last.called ≡ ponged.last.called ++ calls_of ponged.last.callbacks handled)
    × AreUnique bytes_discrete ponged.last.callbacks
unfolding using asking greeted answered ponged queued notified
Reach-calls_example =
    Reach-calls ponged.reach notified.reach
      ((((((((((((tt, tt), tt), tt), tt), tt), tt), tt), tt), tt), tt), tt), tt)

-- The callback is called with the notification alone.
notified_called :
    notified.last.called
    ≡ (
      5,
      record {
        dict = record {
          ordered_keys = codes "Event" ∷ [];
          values = (codes "Event", codes "Hangup") ∷ [];
        };
      },
    )
      ∷ []
unfolding using asking greeted answered ponged queued notified
notified_called = refl
