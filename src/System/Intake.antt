-- ===== src/System/Intake.antt =====
-- The reader's steps, and what the steps of the parser's worker do to the chunks.
use mathlib.Core.List.{append-nil}
use cppami.Prelude.{false, [], ◌∷◌, ◌++◌, ◌≡◌, refl, sym, ap, ◌∙◌, concat, concat-append}
use cppami.SocketReader.{SocketReader, looping, handing, ended, turn, returned}
use cppami.SocketReader.Arrivals.{in_hand, arrived, turn-arrived}
use cppami.TcpSocket.{Os}
use cppami.Outcome.{ok}
use cppami.Text.{Bytes}
use cppami.Worker.Invariant.{wake-Inv, add-Inv, clear_run-Inv, stopped-Inv}
use cppami.Worker.Items.{work-Turn}
use cppami.Worker.Turns.{work-Inv}
use cppami.Worker.{Worker, not_called, cleared, work, wake, add, clear_run, notify, holds_mutex}
use cppami.System.Parts.{is_stopped, Taken}

-- The steps on `Taken`.
module _ {reader : SocketReader} {chunks : Worker Bytes} {received : Bytes}
    (v : Taken reader chunks received) where
  all_added : reader.place ≡ looping → concat chunks.added ≡ received
  all_added e =
      sym (append-nil (concat chunks.added))
      ∙ ap (λ p. concat chunks.added ++ in_hand p) (sym e)
      ∙ v.gained

  pub reads-Taken :
      (os : Os) (r : SocketReader)
      → reader.place ≡ looping
      → turn os reader ≡ ok r
      → Taken r chunks (received ++ arrived os reader)
  reads-Taken os r e ran = record {
    gained =
        ap (◌++◌ (concat chunks.added)) (turn-arrived os reader e ran)
        ∙ ap (λ xs. xs ++ arrived os reader) (all_added e);
    quiet = λ h. let (gone, _) = v.quiet h in cc;
    inv = v.inv;
  }

  pub hands-Taken :
      (buf : Bytes)
      → reader.place ≡ handing buf
      → holds_mutex chunks.place ≡ false
      → Taken (returned reader) (add buf chunks) received
  hands-Taken buf e free = record {
    gained =
        append-nil (concat (chunks.added ++ buf ∷ []))
        ∙ concat-append chunks.added (buf ∷ [])
        ∙ ap (◌++◌ (concat chunks.added)) (append-nil buf)
        ∙ ap (λ p. concat chunks.added ++ in_hand p) (sym e)
        ∙ v.gained;
    quiet = λ h. let (gone, _) = v.quiet h in cc;
    inv = add-Inv buf free v.inv;
  }

  pub work-Taken : Taken reader (work chunks) received
  work-Taken =
      let t = work-Turn chunks in
      record {
        gained = rw t.same_added v.gained;
        quiet = λ h.
            let (gone, all) = v.quiet (sym (ap is_stopped t.same_stop) ∙ h) in
            (gone, t.same_added ∙ all ∙ sym t.same_promised);
        inv = work-Inv v.inv;
      }

  pub wake-Taken : Taken reader (wake chunks) received
  wake-Taken = record { gained = v.gained; quiet = v.quiet; inv = wake-Inv v.inv }

  pub clear-Taken :
      reader.place ≡ ended → chunks.stop ≡ not_called → Taken reader (clear_run chunks) received
  clear-Taken gone e = record {
    gained = v.gained;
    quiet = λ _. (gone, refl);
    inv = clear_run-Inv e v.inv;
  }

  pub notify-Taken : chunks.stop ≡ cleared → Taken reader (notify chunks) received
  notify-Taken e = record {
    gained = v.gained;
    quiet = λ _. v.quiet (ap is_stopped e);
    inv = wake-Inv (stopped-Inv e v.inv);
  }
