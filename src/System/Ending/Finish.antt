-- ===== src/System/Ending/Finish.antt =====
-- The two worker threads end once they are stopped, and with them the destructor.
use cppami.Prelude.{ℕ, zero, suc, false, inl, inr, Option-cases, ◌≡◌, refl, ap, subst, sym, ◌∙◌}
use cppami.SocketReader.{ended}
use cppami.System.Delivery.{next-dispatches}
use cppami.System.Ending.Parser.{parser_works}
use cppami.System.Ending.Reader.{reader_ends}
use cppami.System.Ending.{Later, now, next, and_then}
use cppami.System.Invariant.{Inv, Reach-Inv}
use cppami.System.{
  System, start, Reach, turns, dispatches, wakes_parser, wakes_dispatcher, stops_parser,
  notifies_parser, stops_dispatcher, notifies_dispatcher,
}
use cppami.TcpSocket.{TcpSocket}
use cppami.Text.{Bytes}
use cppami.Worker.Delivery.{work_times, work_times-finished}
use cppami.Worker.Invariant
use cppami.Worker.Invariant.{is_asleep}
use cppami.Worker.Items.{work-Turn}
use cppami.Worker.Progress.{woken-awake, work-dozing}
use cppami.Worker.{
  Worker, Stop, not_called, cleared, notified, dozing, finished, woken, work, next_item,
}

-- A worker whose thread was told to stop and does not sleep.
abbrev Leaving : Worker Bytes → Type 0
Leaving w = (w.stop ≡ notified) × (w.thread_run ≡ false) × (is_asleep w.place ≡ false)

leaving_lem :
    (w : Worker Bytes) → Invariant.Inv w → w.stop ≡ notified → is_asleep w.place ≡ false → Leaving w
leaving_lem w v e awake = (e, v.stopped (λ f. cc), awake)

-- A worker whose thread wakes up at the next notification.
abbrev Wakeable : Stop → Worker Bytes → Type 0
Wakeable st w = (w.stop ≡ st) × (is_asleep (woken w.place) ≡ false)

work-dozing-Wakeable :
    (w : Worker Bytes) (st : Stop) → w.place ≡ dozing → w.stop ≡ st → Wakeable st (work w)
work-dozing-Wakeable w st doze e =
    ((work-Turn w).same_stop ∙ e, ap (λ u. is_asleep (woken u.place)) (work-dozing w doze))

-- The parser's thread.
chunks_undoze :
    (st : Stop) {s : System}
    → Inv s
    → s.chunks.stop ≡ st
    → s.reader.place ≡ ended
    → Later s (λ t. (t.reader.place ≡ ended) × Wakeable st t.chunks)
chunks_undoze st {s} v e gone = elim (woken-awake s.chunks.place) [
  | inr awake ↦ now v (gone, (e, awake))
  | inl doze ↦ and_then (parser_works v) (λ t w (reader, chunks). now w (
    ap (λ r. r.place) reader ∙ gone,
    subst (Wakeable st) (sym chunks) (work-dozing-Wakeable s.chunks st doze e),
  ))
]

chunks_notified :
    {s : System}
    → Inv s
    → s.chunks.stop ≡ cleared
    → s.reader.place ≡ ended
    → Later s (λ t. Leaving t.chunks)
chunks_notified v e gone = and_then (chunks_undoze cleared v e gone) (λ t w (_, (off, awake)).
    and_then
      (next {P = λ u. (u.chunks.stop ≡ notified) × (is_asleep u.chunks.place ≡ false)} w
        (notifies_parser off) (refl, awake))
      (λ u x h. now x (leaving_lem u.chunks x.taken.inv h.0 h.1)))

chunks_leave :
    (st : Stop) {s : System}
    → Inv s
    → s.chunks.stop ≡ st
    → s.reader.place ≡ ended
    → Later s (λ t. Leaving t.chunks)
chunks_leave notified v e gone =
    and_then (chunks_undoze notified v e gone) (λ t w (_, (told, awake)).
      and_then
        (next {P = λ u. (u.chunks.stop ≡ notified) × (is_asleep u.chunks.place ≡ false)} w
          wakes_parser (told, awake))
        (λ u x h. now x (leaving_lem u.chunks x.taken.inv h.0 h.1)))
chunks_leave cleared v e gone = chunks_notified v e gone
chunks_leave not_called v e gone =
    and_then
      (next {P = λ t. (t.chunks.stop ≡ cleared) × (t.reader.place ≡ ended)} v (stops_parser gone e)
        (refl, gone))
      (λ t w h. chunks_notified w h.0 h.1)

chunks_finish :
    (n : ℕ) {s : System}
    → Inv s
    → s.chunks.stop ≡ notified
    → (work_times n s.chunks).place ≡ finished
    → Later s (λ t. (t.chunks.stop ≡ notified) × (t.chunks.place ≡ finished))
unfolding work_times
chunks_finish zero v told e = now v (told, e)
chunks_finish (suc n) {s} v told e = and_then (parser_works v) (λ t w (_, chunks).
    chunks_finish n w (ap (λ c. c.stop) chunks ∙ ((work-Turn s.chunks).same_stop ∙ told))
      (ap (λ c. (work_times n c).place) chunks ∙ e))

-- The dispatcher's thread.
events_step :
    {s : System} → Inv s → Later s (λ t. (t.chunks ≡ s.chunks) × (t.events ≡ work s.events))
events_step {s} v = elim (Option-cases (next_item s.events)) [
  | inl n ↦ next v (turns n) (refl, refl)
  | inr (m, n) ↦
      let (d, ran, _) = next-dispatches v m n in next v (dispatches m d n ran) (refl, refl)
]

abbrev ChunksEnded : System → Type 0
ChunksEnded s = (s.chunks.stop ≡ notified) × (s.chunks.place ≡ finished)

events_undoze :
    (st : Stop) {s : System}
    → Inv s
    → s.events.stop ≡ st
    → Later s (λ t. (t.chunks ≡ s.chunks) × Wakeable st t.events)
events_undoze st {s} v e = elim (woken-awake s.events.place) [
  | inr awake ↦ now v (refl, (e, awake))
  | inl doze ↦ and_then (events_step v) (λ t w (chunks, events).
      now w (chunks, subst (Wakeable st) (sym events) (work-dozing-Wakeable s.events st doze e)))
]

events_notified : {s : System} → Inv s → s.events.stop ≡ cleared → Later s (λ t. Leaving t.events)
events_notified v e = and_then (events_undoze cleared v e) (λ t w (_, (off, awake)).
    and_then
      (next {P = λ u. (u.events.stop ≡ notified) × (is_asleep u.events.place ≡ false)} w
        (notifies_dispatcher off) (refl, awake))
      (λ u x h. now x (leaving_lem u.events x.queued.inv h.0 h.1)))

events_leave :
    (st : Stop) {s : System}
    → Inv s
    → s.events.stop ≡ st
    → ChunksEnded s
    → Later s (λ t. Leaving t.events)
events_leave notified v e gone = and_then (events_undoze notified v e) (λ t w (_, (told, awake)).
    and_then
      (next {P = λ u. (u.events.stop ≡ notified) × (is_asleep u.events.place ≡ false)} w
        wakes_dispatcher (told, awake))
      (λ u x h. now x (leaving_lem u.events x.queued.inv h.0 h.1)))
events_leave cleared v e gone = events_notified v e
events_leave not_called v e gone =
    and_then
      (next {P = λ t. (t.events.stop ≡ cleared) × ChunksEnded t} v
        (stops_dispatcher gone.1 gone.0 e) (refl, gone))
      (λ t w h. events_notified w h.0)

events_finish :
    (n : ℕ) {s : System}
    → Inv s
    → s.events.stop ≡ notified
    → (work_times n s.events).place ≡ finished
    → Later s (λ t. (t.events.stop ≡ notified) × (t.events.place ≡ finished))
unfolding work_times
events_finish zero v told e = now v (told, e)
events_finish (suc n) {s} v told e = and_then (events_step v) (λ t w (_, events).
    events_finish n w (ap (λ c. c.stop) events ∙ ((work-Turn s.events).same_stop ∙ told))
      (ap (λ c. (work_times n c).place) events ∙ e))

ends :
    {s : System} → Inv s → Later s (λ t. (t.events.stop ≡ notified) × (t.events.place ≡ finished))
ends {s} v = and_then (reader_ends v) (λ t w gone.
    and_then (chunks_leave t.chunks.stop w refl gone) (λ t1 w1 (told, off, awake).
      let (n, f) = work_times-finished t1.chunks off awake in
      and_then (chunks_finish n w1 told f) (λ t2 w2 gone2.
        and_then (events_leave t2.events.stop w2 refl gone2) (λ t3 w3 (told3, off3, awake3).
          let (k, g) = work_times-finished t3.events off3 awake3 in events_finish k w3 told3 g))))

-- No order of steps leads a connection to a place where its destructor is stuck for good: from
-- every state that can be reached, whatever the three threads do and however much they have left to
-- work on, there are steps after which the destructor has stopped all of them one after the other
-- and the last has ended. (A thread that misses its notification needs a wake-up that nobody sent.)
pub Reach-ends :
    {socket : TcpSocket} {s : System}
    → Reach (start socket) s
    → (t : System) × Reach s t × (t.events.stop ≡ notified) × (t.events.place ≡ finished)
Reach-ends r = let l = ends (Reach-Inv r) in (l.last, l.reach, l.holds.0, l.holds.1)
