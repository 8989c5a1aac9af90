-- ===== src/System/Delivery.antt =====
-- What the threads do together, in whatever order they take their steps.
use cppami.SocketReader.Arrivals.{in_hand}
use mathlib.Core.List.{append_assoc, append-nil}
use cppami.EventDispatcher
use cppami.EventDispatcher.Answers.{Keeps, Served-Keeps}
use cppami.EventDispatcher.Invariant as Pipes
use cppami.EventDispatcher.Serving.{AreLines, dispatch_dict-Served}
use cppami.EventDispatcher.{EventDispatcher, dispatch_event, dispatch_dict}
use cppami.KeyValDict.Message.{set_message-total}
use cppami.Outcome.{ok}
use cppami.Prelude.{
  ◌<◌, true, none, some, List, [], ◌∷◌, ◌++◌, ◌≡◌, refl, sym, ap, subst, ◌∙◌, length, concat,
}
use cppami.StreamParser.Banner.{Begun, process_chunks-Begun}
use cppami.StreamParser.Framing.{AreMessages, left-AreMessages, right-AreMessages, Framing}
use cppami.StreamParser.Start.{process_chunks-Started}
use cppami.StreamParser.{set_ami_version, initial, process_chunks}
use cppami.System.Callbacks.{
  messages, last_version, messages-append, messages-dispatch, last_version-dispatch,
}
use cppami.System.History.{Replays, replay, told_messages, replay-Replays}
use cppami.System.Invariant.{Inv, Reach-Inv}
use cppami.System.Parts.{is_stopped}
use cppami.System.{System, start, Reach}
use cppami.TcpSocket.{TcpSocket}
use cppami.Text.{Bytes, eor, index_of, size_mod}
use cppami.Worker.Delivery.{Inv-added}
use cppami.Worker.Items.{work-Turn}
use cppami.Worker.Invariant
use cppami.Worker.Invariant.{is_ending}
use cppami.Worker.Turns.{work-Inv}
use cppami.Worker.{Worker, Stop, not_called, cleared, notified, finished, next_item, work}

-- A thread behind its loop was stopped.
pub ending_stopped :
    (w : Worker Bytes) → Invariant.Inv w → is_ending w.place ≡ true → is_stopped w.stop ≡ true
ending_stopped w v e = stopped_at w.stop (λ n. let on = v.running n in let off = v.ending e in cc)
  where
    stopped_at : (st : Stop) → (st ≡ not_called → ⊥) → is_stopped st ≡ true
    stopped_at not_called h = absurd (h refl)
    stopped_at cleared h = refl
    stopped_at notified h = refl

-- All messages that a new parser dispatches are whole.
messages-AreMessages : (cs : List Bytes) → AreMessages (messages (process_chunks initial cs).1)
unfolding process_chunks
messages-AreMessages [] = tt
messages-AreMessages (c ∷ cs) =
    let s = process_chunks-Started c cs in
    subst AreMessages (sym (ap messages s.version_first ∙ messages-dispatch s.dispatched)) s.each

AreMessages-AreLines : (ms : List Bytes) → AreMessages ms → AreLines ms
AreMessages-AreLines [] h = tt
AreMessages-AreLines (m ∷ ms) (h, hs) =
    ((h.body ++ eor, h.ends ∙ sym (append_assoc h.body eor eor)), AreMessages-AreLines ms hs)

module _ {s : System} (v : Inv s) where
  added-AreMessages : AreMessages s.events.added
  added-AreMessages =
      let all = ap (λ r. messages r.1) v.parsed.parsed ∙ messages-append s.made s.pending in
      rw v.queued.queued (
        left-AreMessages (messages s.made) (messages s.pending)
          (subst AreMessages all (messages-AreMessages s.chunks.processed)))

  processed-AreLines : AreLines s.events.processed
  processed-AreLines = AreMessages-AreLines s.events.processed (
      left-AreMessages s.events.processed (s.events.batch ++ s.events.queue)
        (subst AreMessages (sym v.queued.inv.fifo) added-AreMessages))

  pub history-lines : AreLines (told_messages s.history)
  history-lines = rw v.replayed.told_all processed-AreLines

  pub dispatcher-Replays : Replays EventDispatcher.initial s.dispatcher
  dispatcher-Replays = replay-Replays s.history history-lines Pipes.initial-Inv v.replayed.replayed

  -- The dispatcher of a reachable system is a reachable dispatcher.
  pub dispatcher-Inv : Pipes.Inv s.dispatcher
  dispatcher-Inv = dispatcher-Replays.inv

  -- The message that the dispatcher's thread takes next.
  pub next-line : (m : Bytes) → next_item s.events ≡ some m → (x : Bytes) × (m ≡ x ++ eor)
  next-line m n =
      let t = work-Turn s.events in
      let w = work s.events in
      let all = (work-Inv v.queued.inv).fifo ∙ t.same_added in
      let done : w.processed ≡ s.events.processed ++ m ∷ [] = rw (t.handed, n) refl in
      let whole =
        left-AreMessages w.processed (w.batch ++ w.queue)
          (subst AreMessages (sym all) added-AreMessages) in
      (AreMessages-AreLines (m ∷ [])
        (right-AreMessages s.events.processed (m ∷ []) (subst AreMessages done whole))).0

module _ {s : System} (v : Inv s) where
  pub next-dispatches :
      (m : Bytes)
      → next_item s.events ≡ some m
      → (d : EventDispatcher) × (dispatch_event s.dispatcher m ≡ ok d) × Keeps s.dispatcher d
  unfolding dispatch_event
  next-dispatches m n =
      let (x, e) = next-line v m n in
      let (dict, read) = set_message-total x in
      let (d, ran, served) = dispatch_dict-Served (dispatcher-Inv v) dict in
      (d, rw (e, read) ran, Served-Keeps (dispatcher-Inv v) dict d served)

-- Whatever the server sends and in whatever order the threads take their steps, the dispatcher's
-- thread can work on each message that it takes: nothing throws, no assertion fails and no promise
-- is satisfied twice; and no answer that a caller has is changed.
pub Reach-dispatches :
    {socket : TcpSocket} {s : System} (m : Bytes)
    → Reach (start socket) s
    → next_item s.events ≡ some m
    → (d : EventDispatcher) × (dispatch_event s.dispatcher m ≡ ok d) × Keeps s.dispatcher d
Reach-dispatches m r n = next-dispatches (Reach-Inv r) m n

-- The threads together do what one thread would do with the same bytes: at every moment, the bytes
-- read are the chunks that were handed over and what the reader holds; these chunks, in order, are
-- those that the parser has processed, with its batch and its queue behind; the callbacks that the
-- parser has made and has to make are those for the chunks that it has processed, one after the
-- other; the messages among those made are what the dispatcher has worked on, with its batch and
-- its queue behind, in order; and the dispatcher is as if it were told these messages, and asked by
-- the callers, one after the other.
pub Reach-sequential :
    {socket : TcpSocket} {s : System}
    → Reach (start socket) s
    → (concat s.chunks.added ++ in_hand s.reader.place ≡ s.received)
      × (s.chunks.processed ++ (s.chunks.batch ++ s.chunks.queue) ≡ s.chunks.added)
      × (process_chunks initial s.chunks.processed ≡ (s.parser, s.made ++ s.pending))
      × (s.events.processed ++ (s.events.batch ++ s.events.queue) ≡ messages s.made)
      × (s.ami_version ≡ last_version [] s.made)
      × (replay EventDispatcher.initial s.history ≡ ok s.dispatcher)
      × (told_messages s.history ≡ s.events.processed)
Reach-sequential r =
    let v = Reach-Inv r in
    (
      v.taken.gained,
      v.taken.inv.fifo,
      v.parsed.parsed,
      v.queued.inv.fifo ∙ v.queued.queued,
      v.queued.reported,
      v.replayed.replayed,
      v.replayed.told_all,
    )

-- What is left when all threads of a connection have ended.
pub record Joined (s : System) : Type 0 where
  pub no_buffer : concat s.chunks.added ≡ s.received
  pub all_parsed : process_chunks initial s.chunks.added ≡ (s.parser, s.made)
  pub all_dispatched : s.events.processed ≡ messages s.made

Joined-made : {s : System} (v : Inv s) → s.events.place ≡ finished → Joined s
Joined-made {s} v e =
    let (gone, all_events) =
      v.queued.quiet (ending_stopped s.events v.queued.inv (ap is_ending e)) in
    let (over, all_chunks) =
      v.taken.quiet (ending_stopped s.chunks v.taken.inv (ap is_ending gone)) in
    let parsed = Inv-added v.taken.inv gone all_chunks in
    let told = Inv-added v.queued.inv e all_events in
    record {
      no_buffer =
          sym (append-nil (concat s.chunks.added))
          ∙ ap (λ p. concat s.chunks.added ++ in_hand p) (sym over)
          ∙ v.taken.gained;
      all_parsed = rw⁻¹ parsed (
          v.parsed.parsed
          ∙ ap (λ out. (s.parser, out)) (rw (v.parsed.idle gone) (append-nil s.made)));
      all_dispatched = told ∙ v.queued.queued;
    }

-- When the destructor has stopped the threads one after the other, and the dispatcher's has ended: if
-- the first buffer held the whole version line and was shorter than 2 ^ 64 bytes, then the version is
-- the one of that line, and the dispatcher has worked on each message that stands in the bytes read
-- behind it, each once and in order; what is left over is less than a message.
pub joined-Framing :
    {socket : TcpSocket} {s : System} (banner rest : Bytes) (cs : List Bytes)
    → Reach (start socket) s
    → s.events.place ≡ finished
    → s.chunks.added ≡ (banner ++ (eor ++ rest)) ∷ cs
    → index_of eor banner ≡ none
    → length (banner ++ (eor ++ rest)) < size_mod
    → (s.received ≡ banner ++ (eor ++ (rest ++ concat cs)))
      × (s.ami_version ≡ banner)
      × Framing (rest ++ concat cs) s.events.processed s.parser.event_buf
joined-Framing {s = s} banner rest cs r e first h b =
    let v = Reach-Inv r in
    let j = Joined-made v e in
    let same = ap (process_chunks initial) (sym first) ∙ j.all_parsed in
    let begun =
      subst (λ r. Begun banner (rest ++ concat cs) r.0 r.1) same
        (process_chunks-Begun banner rest cs h b) in
    let events = begun.processed in
    let made = begun.version_first ∙ ap (◌∷◌ (set_ami_version banner)) events.dispatched in
    (
      sym j.no_buffer ∙ ap concat first ∙ append_assoc banner (eor ++ rest) (concat cs),
      v.queued.reported ∙ ap (last_version []) made ∙ last_version-dispatch events.messages banner,
      subst (λ ms. Framing (rest ++ concat cs) ms s.parser.event_buf)
          (sym (j.all_dispatched ∙ ap messages made ∙ messages-dispatch events.messages))
          events.framed,
    )
