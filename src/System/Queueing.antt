-- ===== src/System/Queueing.antt =====
-- The steps on the dispatcher's queue, and those of its thread.
use mathlib.Core.List.{append-nil}
use cppami.EventDispatcher.{EventDispatcher}
use cppami.EventDispatcher
use cppami.Outcome.{ok}
use cppami.Prelude.{false, none, some, List, [], ◌∷◌, ◌++◌, ◌≡◌, refl, sym, ap, ◌∙◌}
use cppami.StreamParser.{Callback, set_ami_version, dispatch}
use cppami.System.Callbacks.{messages, messages-append, last_version-append}
use cppami.System.History.{told_messages, told_messages-append, replay-snoc, act}
use cppami.System.{Entry, told}
use cppami.Text.{Bytes}
use cppami.Worker.Invariant.{wake-Inv, add-Inv, clear_run-Inv, stopped-Inv}
use cppami.Worker.Items.{work-Turn}
use cppami.Worker.Turns.{work-Inv}
use cppami.Worker.{
  Worker, Place, finished, not_called, cleared, work, wake, add, clear_run, notify, next_item,
  holds_mutex,
}
use cppami.System.Parts.{is_stopped, Queued, Replayed}

module _ {place : Place} {events : Worker Bytes} {made : List Callback} {version : Bytes}
    (v : Queued place events made version) where
  -- The parser's thread moves: once it has ended it stays so.
  pub move-Queued : (p : Place) → (place ≡ finished → p ≡ finished) → Queued p events made version
  move-Queued p stays = record {
    queued = v.queued;
    reported = v.reported;
    quiet = λ h. let (gone, all) = v.quiet h in (stays gone, all);
    inv = v.inv;
  }

  pub report-Queued : (w : Bytes) → Queued place events (made ++ set_ami_version w ∷ []) w
  report-Queued w = record {
    queued =
        v.queued ∙ sym (messages-append made (set_ami_version w ∷ []) ∙ append-nil (messages made));
    reported = sym (last_version-append made (set_ami_version w ∷ []) []);
    quiet = v.quiet;
    inv = v.inv;
  }

  pub add-Queued :
      (m : Bytes)
      → holds_mutex events.place ≡ false
      → (place ≡ finished → ⊥)
      → Queued place (add m events) (made ++ dispatch m ∷ []) version
  add-Queued m free busy = record {
    queued = rw v.queued (sym (messages-append made (dispatch m ∷ [])));
    reported = v.reported ∙ sym (last_version-append made (dispatch m ∷ []) []);
    quiet = λ h. absurd (busy (v.quiet h).0);
    inv = add-Inv m free v.inv;
  }

  pub work-Queued : Queued place (work events) made version
  work-Queued =
      let t = work-Turn events in
      record {
        queued = t.same_added ∙ v.queued;
        reported = v.reported;
        quiet = λ h.
            let (gone, all) = v.quiet (sym (ap is_stopped t.same_stop) ∙ h) in
            (gone, t.same_added ∙ all ∙ sym t.same_promised);
        inv = work-Inv v.inv;
      }

  pub wake-Queued : Queued place (wake events) made version
  wake-Queued = record {
    queued = v.queued;
    reported = v.reported;
    quiet = v.quiet;
    inv = wake-Inv v.inv;
  }

  pub clear-Queued :
      place ≡ finished → events.stop ≡ not_called → Queued place (clear_run events) made version
  clear-Queued gone e = record {
    queued = v.queued;
    reported = v.reported;
    quiet = λ _. (gone, refl);
    inv = clear_run-Inv e v.inv;
  }

  pub notify-Queued : events.stop ≡ cleared → Queued place (notify events) made version
  notify-Queued e = record {
    queued = v.queued;
    reported = v.reported;
    quiet = λ _. v.quiet (ap is_stopped e);
    inv = wake-Inv (stopped-Inv e v.inv);
  }

module _ (events : Worker Bytes) {d : EventDispatcher} {history : List Entry}
    (v : Replayed events.processed d history) where
  -- The thread of the dispatcher moves without a message.
  pub turn-Replayed : next_item events ≡ none → Replayed (work events).processed d history
  turn-Replayed n =
      let t = work-Turn events in
      record {
        replayed = v.replayed;
        told_all = v.told_all ∙ sym (rw (t.handed, n) (append-nil events.processed));
      }

  pub dispatch-Replayed :
      (m : Bytes) (d' : EventDispatcher)
      → next_item events ≡ some m
      → act d (told m) ≡ ok d'
      → Replayed (work events).processed d' (history ++ told m ∷ [])
  dispatch-Replayed m d' n ran =
      let t = work-Turn events in
      record {
        replayed = replay-snoc history (told m) EventDispatcher.initial v.replayed ran;
        told_all =
            rw (t.handed, n)
              (told_messages-append history (told m ∷ []) ∙ ap (λ ms. ms ++ m ∷ []) v.told_all);
      }

  -- A caller's step.
  pub call-Replayed :
      (e : Entry) (d' : EventDispatcher)
      → told_messages (e ∷ []) ≡ []
      → act d e ≡ ok d'
      → Replayed events.processed d' (history ++ e ∷ [])
  call-Replayed e d' quiet ran = record {
    replayed = replay-snoc history e EventDispatcher.initial v.replayed ran;
    told_all =
        told_messages-append history (e ∷ [])
        ∙ rw quiet (append-nil (told_messages history) ∙ v.told_all);
  }
