-- ===== src/Worker/Progress.antt =====
-- What a thread of a worker can still do.
use cppami.Prelude.{false, none, ◌≡◌, ◌⊎◌, inl, inr, refl, sym, subst}
use cppami.Worker.Invariant.{is_asleep}
use cppami.Worker.{
  Place, top, waiting, dozing, blocked, working, draining, finished, Worker, work, woken, next_item,
  holds_mutex,
}

-- Who has the mutex between two steps: nobody, or the thread on its way into `wait`, or behind the
-- loop.
pub mutex_cases : (p : Place) → (holds_mutex p ≡ false) ⊎ ((p ≡ dozing) ⊎ (p ≡ draining))
mutex_cases top = inl refl
mutex_cases waiting = inl refl
mutex_cases dozing = inr (inl refl)
mutex_cases blocked = inl refl
mutex_cases working = inl refl
mutex_cases draining = inr (inr refl)
mutex_cases finished = inl refl

pub woken-awake : (p : Place) → (p ≡ dozing) ⊎ (is_asleep (woken p) ≡ false)
woken-awake top = inr refl
woken-awake waiting = inr refl
woken-awake dozing = inl refl
woken-awake blocked = inr refl
woken-awake working = inr refl
woken-awake draining = inr refl
woken-awake finished = inr refl

module _ {ℓ} {A : Type ℓ} where
  pub work-dozing : (w : Worker A) → w.place ≡ dozing → work w ≡ record w { place = blocked }
  unfolding work
  work-dozing w e =
      subst (λ p. work (record w { place = p }) ≡ record w { place = blocked }) (sym e) refl

  pub next_item-dozing : (w : Worker A) → w.place ≡ dozing → next_item w ≡ none
  unfolding next_item
  next_item-dozing w e = rw (e, next_item)
