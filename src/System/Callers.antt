-- ===== src/System/Callers.antt =====
-- The callers of a connection: what the dispatcher does for them, up to its destructor.
use mathlib.Core.List.{append_cancel_left}
use cppami.System.History.{replay}
use cppami.EventDispatcher.Answers.{Keeps}
use cppami.EventDispatcher.Cleanup.{cleanup_object_lem}
use cppami.EventDispatcher.Collecting.{AnswersList, AnswersList-answer, as_event}
use cppami.EventDispatcher.Serving.{Call}
use cppami.EventDispatcher.{
  EventDispatcher, Answer, value, event_list, find_pipe, find_list, cleanup_object,
}
use cppami.KeyValDict.{KeyValDict}
use cppami.Outcome.{ok, ok_inj}
use cppami.Prelude.{ℕ, ◌<◌, ◌≡◌, sym, ap, ◌∙◌, true, none, some, List, ◌++◌, map, arith}
use cppami.System.Delivery.{dispatcher-Inv, dispatcher-Replays}
use cppami.System.Extends.{Reach-Extends}
use cppami.System.History.{Means, Means-run_calls, replay-Replays}
use cppami.System.Invariant.{Reach-Inv}
use cppami.System.{System, Entry, start, Reach}
use cppami.TcpSocket.{TcpSocket}
use cppami.Text.{Bytes}

-- A caller waits at the pipe `p` for the answer to the action `a`, and no list for it has begun. If the
-- messages that the dispatcher is told from then on have the events of a list for `a` among them, and
-- nobody asks for `a` again or forces its pipe shut before the list is complete, then the caller is
-- given the list, whole and in order, whatever the threads and the other callers do meanwhile and
-- afterwards.
pub Reach-answer :
    {socket : TcpSocket} {s t : System} {a : Bytes} {p : ℕ} {es : List Entry} {cs : List Call}
    {head : KeyValDict} {items : List KeyValDict} {final : KeyValDict}
    → Reach (start socket) s
    → find_pipe s.dispatcher a ≡ some p
    → find_list s.dispatcher a ≡ none
    → Reach s t
    → t.history ≡ s.history ++ es
    → Means es cs
    → AnswersList a cs head items final
    → t.dispatcher.answers p
      ≡ some (
          value (
            some (
              event_list (record {
                head = as_event head;
                tail = some (as_event final);
                events = map as_event items;
              }))))
Reach-answer {s = s} {p = p} {es = es} r e n later longer means answers =
    let v = Reach-Inv r in
    let x = (Reach-Extends v later).1 in
    let same = append_cancel_left s.history es x.entries (sym longer ∙ x.longer) in
    let (d, ran, given) = AnswersList-answer answers p (dispatcher-Inv v) e n in
    let again = ap (replay s.dispatcher) same ∙ x.replays in
    let end = ok_inj (sym again ∙ Means-run_calls means s.dispatcher ∙ ran) in
    ap (λ (e : EventDispatcher). e.answers p) end ∙ given

-- At whatever moment the dispatcher is destroyed, in a build without assertions, its
-- `cleanup_object` ends without an exception. No caller waits for ever then: each pipe that was
-- handed out at an earlier moment has an answer, and it is the one that the caller had at that
-- moment, if there was one.
pub Reach-cleanup_object :
    {socket : TcpSocket} {s t : System}
    → Reach (start socket) s
    → Reach s t
    → (d : EventDispatcher) × (cleanup_object true t.dispatcher ≡ ok d)
      × ((p : ℕ) → p < s.dispatcher.next_pipe → (x : Answer) × (d.answers p ≡ some x))
      × Keeps s.dispatcher d
Reach-cleanup_object r later =
    let v = Reach-Inv r in
    let (w, x) = Reach-Extends v later in
    let since = replay-Replays x.entries x.lines (dispatcher-Inv v) x.replays in
    let all = dispatcher-Replays w in
    let (d, ran, nulled, answered, keeps, checked) = cleanup_object_lem all.inv (all.unique tt) in
    (
      d,
      ran,
      λ p old. answered p (omega (arith, old, since.aged.later)),
      λ p y e. keeps p y (since.keeps p y e),
    )
