-- ===== src/Worker/Turns.antt =====
-- A turn of the thread keeps the invariant, and so does every step of every thread.
use cppami.Prelude.{Bool, true, false, List, [], ◌∷◌, ◌++◌, ◌≡◌, refl, sym, ◌∙◌}
use mathlib.Core.List.{append_assoc, append-nil}
use cppami.Worker.{
  Place, top, waiting, dozing, blocked, working, draining, finished, Stop, Worker, work, Step,
  works, adds, clears, notifies, wakes, Reach, here, step,
}
use cppami.Worker.Invariant.{Inv, worker, wake-Inv, add-Inv, clear_run-Inv, stopped-Inv}

module _ {ℓ} {A : Type ℓ} where
  -- The three moments at which an empty batch matters.
  swap_fifo :
      (done b q : List A) {all : List A} → b ≡ [] → done ++ (b ++ q) ≡ all → done ++ (q ++ b) ≡ all
  swap_fifo done [] q e h = simp append-nil h
  swap_fifo done (x ∷ b) q e h = cc

  drain_fifo :
      (done b q : List A) (x : A) {all : List A}
      → b ≡ []
      → done ++ (b ++ x ∷ q) ≡ all
      → (done ++ x ∷ []) ++ (b ++ q) ≡ all
  drain_fifo done [] q x e h = append_assoc done (x ∷ []) q ∙ h
  drain_fifo done (y ∷ b) q x e h = cc

  end_fifo : (done b : List A) {all : List A} → b ≡ [] → done ++ (b ++ []) ≡ all → all ≡ done
  end_fifo done [] e h = sym h ∙ append-nil done
  end_fifo done (x ∷ b) e h = cc

  work_at :
      (run : Bool) (q b : List A) (p : Place) (st : Stop) (done all due : List A)
      → Inv (worker run q b p st done all due)
      → Inv (work (worker run q b p st done all due))
  unfolding work
  work_at true q b top st done all due v = record {
    fifo = v.fifo;
    no_batch = λ _. v.no_batch refl;
    asleep = λ h. cc;
    running = v.running;
    stopped = v.stopped;
    ending = λ h. cc;
    before = v.before;
    ended = λ h. cc;
  }
  work_at false q b top st done all due v = record {
    fifo = v.fifo;
    no_batch = λ _. v.no_batch refl;
    asleep = λ h. cc;
    running = v.running;
    stopped = v.stopped;
    ending = λ _. refl;
    before = v.before;
    ended = λ h. cc;
  }
  work_at false q b waiting st done all due v = record {
    fifo = swap_fifo done b q (v.no_batch refl) v.fifo;
    no_batch = λ h. cc;
    asleep = λ h. cc;
    running = v.running;
    stopped = v.stopped;
    ending = λ h. cc;
    before = v.before;
    ended = λ h. cc;
  }
  work_at true [] b waiting st done all due v = record {
    fifo = v.fifo;
    no_batch = λ _. v.no_batch refl;
    asleep = λ _. refl;
    running = v.running;
    stopped = v.stopped;
    ending = λ h. cc;
    before = v.before;
    ended = λ h. cc;
  }
  work_at true (x ∷ q) b waiting st done all due v = record {
    fifo = swap_fifo done b (x ∷ q) (v.no_batch refl) v.fifo;
    no_batch = λ h. cc;
    asleep = λ h. cc;
    running = v.running;
    stopped = v.stopped;
    ending = λ h. cc;
    before = v.before;
    ended = λ h. cc;
  }
  work_at run q b dozing st done all due v = record {
    fifo = v.fifo;
    no_batch = λ _. v.no_batch refl;
    asleep = λ _. v.asleep refl;
    running = v.running;
    stopped = v.stopped;
    ending = λ h. cc;
    before = v.before;
    ended = λ h. cc;
  }
  work_at run q b blocked st done all due v = v
  work_at run q [] working st done all due v = record {
    fifo = v.fifo;
    no_batch = λ _. refl;
    asleep = λ h. cc;
    running = v.running;
    stopped = v.stopped;
    ending = λ h. cc;
    before = v.before;
    ended = λ h. cc;
  }
  work_at run q (x ∷ b) working st done all due v = record {
    fifo = append_assoc done (x ∷ []) (b ++ q) ∙ v.fifo;
    no_batch = λ h. cc;
    asleep = λ h. cc;
    running = v.running;
    stopped = v.stopped;
    ending = λ h. cc;
    before = v.before;
    ended = λ h. cc;
  }
  work_at run [] b draining st done all due v = record {
    fifo = v.fifo;
    no_batch = λ _. v.no_batch refl;
    asleep = λ h. cc;
    running = v.running;
    stopped = v.stopped;
    ending = λ _. v.ending refl;
    before = v.before;
    ended = λ h. let (rest, r) = v.before in (rest, r ∙ end_fifo done b (v.no_batch refl) v.fifo);
  }
  work_at run (x ∷ q) b draining st done all due v = record {
    fifo = drain_fifo done b q x (v.no_batch refl) v.fifo;
    no_batch = λ _. v.no_batch refl;
    asleep = λ h. cc;
    running = v.running;
    stopped = v.stopped;
    ending = λ _. v.ending refl;
    before = v.before;
    ended = λ h. cc;
  }
  work_at run q b finished st done all due v = v

  pub work-Inv : {w : Worker A} → Inv w → Inv (work w)
  work-Inv {w} v =
      work_at w.thread_run w.queue w.batch w.place w.stop w.processed w.added w.promised v

  pub Step-Inv : {w u : Worker A} → Step w u → Inv w → Inv u
  Step-Inv works v = work-Inv v
  Step-Inv (adds x h) v = add-Inv x h v
  Step-Inv (clears h) v = clear_run-Inv h v
  Step-Inv (notifies h) v = wake-Inv (stopped-Inv h v)
  Step-Inv wakes v = wake-Inv v

  pub Reach-Inv : {w u : Worker A} → Reach w u → Inv w → Inv u
  Reach-Inv here v = v
  Reach-Inv (step r s) v = Step-Inv s (Reach-Inv r v)
