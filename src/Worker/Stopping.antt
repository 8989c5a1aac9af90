-- ===== src/Worker/Stopping.antt =====
-- The stop that the thread does not notice: `thread_run_` is cleared, and the notification is sent,
-- without the mutex.
use cppami.Prelude.{false, ◌≡◌, ◌⊎◌, inl, inr, refl, sym, ap, subst}
use cppami.Worker.Progress.{work-dozing}
use cppami.Worker.{
  dozing, blocked, not_called, notified, Worker, work, wake, woken, add, clear_run, notify, Step,
  works, adds, clears, notifies, wakes, Reach, here, step,
}

module _ {ℓ} {A : Type ℓ} where
  -- The thread sleeps, the stop was called, and no step but the addition of an item or a wake-up
  -- that nobody sent changes that.
  abbrev pub IsStuck : Worker A → Type ℓ
  IsStuck u =
      (u.place ≡ blocked)
      × (u.thread_run ≡ false)
      × ((v : Worker A) → Step u v → (v ≡ u) ⊎ (((x : A) × (v ≡ add x u)) ⊎ (v ≡ wake u)))

  blocked_work : (u : Worker A) → u.place ≡ blocked → work u ≡ u
  unfolding work
  blocked_work u e =
      subst (λ p. work (record u { place = p }) ≡ record u { place = p }) (sym e) refl

  blocked-Step :
      (u : Worker A)
      → u.place ≡ blocked
      → u.stop ≡ notified
      → (v : Worker A) → Step u v
      → (v ≡ u) ⊎ (((x : A) × (v ≡ add x u)) ⊎ (v ≡ wake u))
  blocked-Step u e s v works = inl (blocked_work u e)
  blocked-Step u e s v (adds x h) = inr (inl (x, refl))
  blocked-Step u e s v (clears h) = cc
  blocked-Step u e s v (notifies h) = cc
  blocked-Step u e s v wakes = inr (inr refl)

  -- If `stop_work_thread` runs between the moment at which the thread finds its predicate false and
  -- the moment at which it falls asleep, then the thread sleeps on: nothing but an addition or a
  -- wake-up that nobody sent ends it, and `join` waits for it.
  pub stop-IsStuck :
      (w : Worker A)
      → w.place ≡ dozing
      → w.stop ≡ not_called
      → (u : Worker A) × Reach w u × IsStuck u
  stop-IsStuck w e s =
      let v = notify (clear_run w) in
      let u = record v { place = blocked } in
      let asleep = subst (λ (x : Worker A). Step v x) (work-dozing v (ap woken e)) works in
      (
        u,
        step (step (step here (clears s)) (notifies refl)) asleep,
        (refl, refl, blocked-Step u refl refl),
      )
