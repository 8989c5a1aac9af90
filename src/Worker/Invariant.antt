-- ===== src/Worker/Invariant.antt =====
-- What holds of a worker at every moment.
use cppami.Prelude.{Bool, true, false, List, [], ◌∷◌, ◌++◌, ◌≡◌, ◌≢◌, refl, sym, ap, ◌∙◌}
use mathlib.Core.List.{append_assoc, append-nil}
use cppami.Worker.{
  Place, top, waiting, dozing, blocked, working, draining, finished, Stop, not_called, cleared,
  notified, Worker, start, woken, wake, add, clear_run, holds_mutex,
}

abbrev pub is_working : Place → Bool
is_working top = false
is_working waiting = false
is_working dozing = false
is_working blocked = false
is_working working = true
is_working draining = false
is_working finished = false

-- The places that the thread comes to after its predicate was false.
abbrev pub is_asleep : Place → Bool
is_asleep top = false
is_asleep waiting = false
is_asleep dozing = true
is_asleep blocked = true
is_asleep working = false
is_asleep draining = false
is_asleep finished = false

-- The places behind the loop.
abbrev pub is_ending : Place → Bool
is_ending top = false
is_ending waiting = false
is_ending dozing = false
is_ending blocked = false
is_ending working = false
is_ending draining = true
is_ending finished = true

abbrev pub Prefix {ℓ} : {A : Type ℓ} → List A → List A → Type ℓ
Prefix {A = A} xs ys = (rest : List A) × (xs ++ rest ≡ ys)

pub record Inv {ℓ} {A : Type ℓ} (w : Worker A) : Type ℓ where
  -- nothing is lost, doubled or reordered
  pub fifo : w.processed ++ (w.batch ++ w.queue) ≡ w.added
  pub no_batch : is_working w.place ≡ false → w.batch ≡ []
  -- a thread that sleeps has nothing to do
  pub asleep : is_asleep w.place ≡ true → w.queue ≡ []
  pub running : w.stop ≡ not_called → w.thread_run ≡ true
  pub stopped : w.stop ≢ not_called → w.thread_run ≡ false
  pub ending : is_ending w.place ≡ true → w.thread_run ≡ false
  pub before : Prefix w.promised w.added
  pub ended : w.place ≡ finished → Prefix w.promised w.processed

-- A thread that is woken is neither at work nor behind the loop, as before.
pub woken_lem :
    (p : Place)
    → (is_working (woken p) ≡ is_working p)
      × (is_ending (woken p) ≡ is_ending p)
      × (woken p ≡ finished → p ≡ finished)
      × (is_asleep (woken p) ≡ true → is_asleep p ≡ true)
woken_lem top = (refl, refl, λ e. e, λ e. e)
woken_lem waiting = (refl, refl, λ e. e, λ e. e)
woken_lem dozing = (refl, refl, λ e. e, λ e. e)
woken_lem blocked = (refl, refl, λ e. cc, λ e. cc)
woken_lem working = (refl, refl, λ e. e, λ e. e)
woken_lem draining = (refl, refl, λ e. e, λ e. e)
woken_lem finished = (refl, refl, λ e. e, λ e. e)

unheld_lem : (p : Place) → holds_mutex p ≡ false → is_asleep (woken p) ≡ false
unheld_lem top h = refl
unheld_lem waiting h = refl
unheld_lem dozing h = cc
unheld_lem blocked h = refl
unheld_lem working h = refl
unheld_lem draining h = refl
unheld_lem finished h = refl

module _ {ℓ} {A : Type ℓ} where
  abbrev pub worker : Bool → List A → List A → Place → Stop → List A → List A → List A → Worker A
  worker run q b p st done all due = record {
    thread_run = run;
    queue = q;
    batch = b;
    place = p;
    stop = st;
    processed = done;
    added = all;
    promised = due;
  }

  pub start-Inv : Inv (start {A = A})
  start-Inv = record {
    fifo = refl;
    no_batch = λ _. refl;
    asleep = λ _. refl;
    running = λ _. refl;
    stopped = λ n. absurd (n refl);
    ending = λ e. cc;
    before = ([], refl);
    ended = λ e. cc;
  }

  pub wake-Inv : {w : Worker A} → Inv w → Inv (wake w)
  wake-Inv {w} v =
      let (k, e, f, s) = woken_lem w.place in
      record {
        fifo = v.fifo;
        no_batch = λ h. v.no_batch (sym k ∙ h);
        asleep = λ h. v.asleep (s h);
        running = v.running;
        stopped = v.stopped;
        ending = λ h. v.ending (sym e ∙ h);
        before = v.before;
        ended = λ h. v.ended (f h);
      }

  -- An item is added when the mutex is free.
  pub add-Inv : {w : Worker A} (x : A) → holds_mutex w.place ≡ false → Inv w → Inv (add x w)
  add-Inv {w} x h v =
      let (rest, r) = v.before in
      let (k, e, f, _) = woken_lem w.place in
      record {
        fifo = rw⁻¹ v.fifo (simp append_assoc refl);
        no_batch = λ n. v.no_batch (sym k ∙ n);
        asleep = λ a. let awake = unheld_lem w.place h in cc;
        running = v.running;
        stopped = v.stopped;
        ending = λ n. v.ending (sym e ∙ n);
        before = (rest ++ x ∷ [], rw⁻¹ r (simp append_assoc refl));
        ended = λ n. v.ended (f n);
      }

  pub clear_run-Inv : {w : Worker A} → w.stop ≡ not_called → Inv w → Inv (clear_run w)
  clear_run-Inv {w} h v = record {
    fifo = v.fifo;
    no_batch = v.no_batch;
    asleep = v.asleep;
    running = λ e. cc;
    stopped = λ _. refl;
    ending = λ _. refl;
    before = ([], append-nil w.added);
    ended = λ e. let on = v.running h in let off = v.ending (ap is_ending e) in cc;
  }

  pub stopped-Inv : {w : Worker A} → w.stop ≡ cleared → Inv w → Inv (record w { stop = notified })
  stopped-Inv {w} h v = record {
    fifo = v.fifo;
    no_batch = v.no_batch;
    asleep = v.asleep;
    running = λ e. cc;
    stopped = λ n. v.stopped (λ e. cc);
    ending = v.ending;
    before = v.before;
    ended = v.ended;
  }
