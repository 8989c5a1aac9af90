-- ===== src/Worker/Items.antt =====
-- What one step of the thread does with the lists of a worker.
use mathlib.Core.List.{append-nil}
use cppami.Prelude.{Bool, true, false, Option, none, some, List, [], ◌∷◌, ◌++◌, ◌≡◌, refl, sym}
use cppami.Worker.Invariant.{worker}
use cppami.Worker.{
  Place, top, waiting, dozing, blocked, working, draining, finished, Stop, Worker, work, next_item,
}

module _ {ℓ} {A : Type ℓ} where
  abbrev pub listed : Option A → List A
  listed none = []
  listed (some x) = x ∷ []

  -- One step from `w` to `u` that hands over `item`.
  pub record Turn (w u : Worker A) (item : Option A) : Type ℓ where
    pub handed : u.processed ≡ w.processed ++ listed item
    pub same_added : u.added ≡ w.added
    pub same_promised : u.promised ≡ w.promised
    pub same_stop : u.stop ≡ w.stop
    pub stays : w.place ≡ finished → u.place ≡ finished
    pub goes_on : (x : A) → item ≡ some x → u.place ≡ w.place

  nothing :
      (w u : Worker A)
      → u.processed ≡ w.processed
      → u.added ≡ w.added
      → u.promised ≡ w.promised
      → u.stop ≡ w.stop
      → (w.place ≡ finished → u.place ≡ finished)
      → Turn w u none
  nothing w u p a r s f = record {
    handed = rw p (sym (append-nil w.processed));
    same_added = a;
    same_promised = r;
    same_stop = s;
    stays = f;
    goes_on = λ x e. cc;
  }

  Turn-at :
      (run : Bool) (q b : List A) (p : Place) (st : Stop) (done all due : List A)
      → let w = worker run q b p st done all due in Turn w (work w) (next_item w)
  unfolding work next_item
  Turn-at true q b top st done all due = nothing _ _ refl refl refl refl (λ e. cc)
  Turn-at false q b top st done all due = nothing _ _ refl refl refl refl (λ e. cc)
  Turn-at false q b waiting st done all due = nothing _ _ refl refl refl refl (λ e. cc)
  Turn-at true [] b waiting st done all due = nothing _ _ refl refl refl refl (λ e. cc)
  Turn-at true (x ∷ q) b waiting st done all due = nothing _ _ refl refl refl refl (λ e. cc)
  Turn-at run q b dozing st done all due = nothing _ _ refl refl refl refl (λ e. cc)
  Turn-at run q b blocked st done all due = nothing _ _ refl refl refl refl (λ e. e)
  Turn-at run q [] working st done all due = nothing _ _ refl refl refl refl (λ e. cc)
  Turn-at run q (x ∷ b) working st done all due = record {
    handed = refl;
    same_added = refl;
    same_promised = refl;
    same_stop = refl;
    stays = λ e. e;
    goes_on = λ y e. refl;
  }
  Turn-at run [] b draining st done all due = nothing _ _ refl refl refl refl (λ e. refl)
  Turn-at run (x ∷ q) b draining st done all due = record {
    handed = refl;
    same_added = refl;
    same_promised = refl;
    same_stop = refl;
    stays = λ e. e;
    goes_on = λ y e. refl;
  }
  Turn-at run q b finished st done all due = nothing _ _ refl refl refl refl (λ e. e)

  pub work-Turn : (w : Worker A) → Turn w (work w) (next_item w)
  work-Turn w = Turn-at w.thread_run w.queue w.batch w.place w.stop w.processed w.added w.promised

  pub next_item-finished : (w : Worker A) → w.place ≡ finished → next_item w ≡ none
  unfolding next_item
  next_item-finished w e = rw (e, next_item)
