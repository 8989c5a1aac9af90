-- ===== src/Tests/Connections.antt =====
-- A connection on which the first message is not written.
use cppami.Action.{Action}
use cppami.Connection.Registry.{
  Change, added, removed, changes, registered, no_callbacks, calls, dispatch_handler-registered,
}
use cppami.Connection.Waiting.{Ends, after_wait-Ends, invoke_again}
use cppami.Connection.{Connection, invoke, get}
use cppami.EventDispatcher.Invariant.{initial-Inv}
use cppami.EventDispatcher.Serving.{arrive, get_pipe, run_calls}
use cppami.EventDispatcher.{EventDispatcher, initial, find_pipe, get_event_pipe}
use cppami.KeyValDict.{from_keys}
use cppami.Outcome.{err, ok, broken_promise}
use cppami.Prelude.{ℕ, ◌≡◌, ◌≢◌, arith, refl, true, none, some, List, [], ◌∷◌, map, concat}
use cppami.Reaction.{Event}
use cppami.ScopeGuard.{guard, destroy, hand_over, hand_over-once}
use cppami.SocketReader
use cppami.SocketWriter
use cppami.TcpSocket.{Os, inet, ready}
use cppami.Text.{Bytes, codes}
use cppami.UnorderedMap.{find}

abbrev broken : Os
broken = record {
  socket = some 3;
  getaddrinfo = λ _. some inet;
  connect = λ _ _ _. true;
  poll = λ _ _. ready 1;
  recv = λ _ _. none;
  send = λ _ _. none;
}

abbrev fresh : Connection
fresh = record {
  ami_version = [];
  callbacks = [];
  dispatcher = initial;
  reader = SocketReader.construct (record { sock_fd = some 3 });
  writer = SocketWriter.construct (record { sock_fd = some 3 });
  written = [];
}

abbrev ping : Action
ping = record { dict = from_keys []; action = codes "Ping"; action_id = codes "7" }

invoke_again_example :
    (find_pipe (invoke broken fresh ping).1.dispatcher (codes "7") ≡ some 0)
    × (get (invoke broken fresh ping).1.dispatcher 0 ≡ none)
    × ((q : ℕ)
        → find_pipe (invoke broken fresh ping).1.dispatcher (codes "7") ≡ some 0
        → (invoke broken (invoke broken fresh ping).1 ping).0 ≡ ok q
        → get (invoke broken (invoke broken fresh ping).1 ping).1.dispatcher q
          ≡ some (err broken_promise))
unfolding find
invoke_again_example =
    invoke_again broken broken fresh (invoke broken fresh ping).1 ping initial-Inv refl

after_wait-Ends_example :
    (e : EventDispatcher) × (run_calls (get_event_pipe initial (codes "7")).0 [] ≡ ok e)
    × (f : EventDispatcher) × (run_calls e (get_pipe (codes "8") ∷ arrive (from_keys []) ∷ [])
        ≡ ok f)
    × Ends e f (codes "7") (get_event_pipe initial (codes "7")).1
after_wait-Ends_example =
    after_wait-Ends (codes "7") [] (get_pipe (codes "8") ∷ arrive (from_keys []) ∷ []) initial-Inv

abbrev effects : List ℕ
effects = 1 ∷ 2 ∷ []

hand_over-once_example : concat (map destroy (hand_over 2 (guard effects))) ≡ effects
hand_over-once_example = hand_over-once 2 (guard effects)

abbrev one_way : List Change
one_way = added (codes "a") 1 ∷ added (codes "b") 2 ∷ []

abbrev other_way : List Change
other_way =
    added (codes "b") 2 ∷ added (codes "c") 1 ∷ added (codes "a") 1 ∷ removed (codes "c") ∷ []

a_differs : (codes "a" ≢ codes "b") × (codes "c" ≢ codes "a") × (codes "c" ≢ codes "b")
a_differs = (λ e. ground (arith, e), λ e. ground (arith, e), λ e. ground (arith, e))

both_ways :
    (key : Bytes) → registered no_callbacks one_way key ≡ registered no_callbacks other_way key
both_ways key = ground (arith, a_differs)

abbrev hangup : Event
hangup = record { dict = from_keys [] }

dispatch_handler-registered_example :
    calls (changes fresh one_way) hangup ≡ calls (changes fresh other_way) hangup
dispatch_handler-registered_example =
    dispatch_handler-registered fresh fresh one_way other_way hangup refl refl both_ways
