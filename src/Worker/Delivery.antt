-- ===== src/Worker/Delivery.antt =====
-- What a worker does with the items: each is processed once, in the order of arrival, and those
-- that came before the stop are processed before the thread ends.
use mathlib.Core.List.{append-nil}
use cppami.Prelude.{
  ℕ, zero, suc, true, false, List, [], ◌∷◌, ◌++◌, ◌≡◌, refl, sym, ◌∙◌, arith, length, length-append,
  ap, subst,
}
use cppami.Worker.Turns.{Reach-Inv}
use cppami.Worker.Invariant.{Inv, Prefix, is_asleep, worker, start-Inv}
use cppami.Worker.{
  Place, top, waiting, dozing, blocked, working, draining, finished, Stop, Worker, start, work,
  Reach,
}

module _ {ℓ} {A : Type ℓ} where
  -- At every moment that can be reached from the start, the items processed, then the rest of the
  -- batch, then the queue, are the items added, in their order; and a thread that sleeps, or is
  -- about to, has an empty queue, so no addition goes unseen.
  pub Reach-fifo :
      {w : Worker A}
      → Reach start w
      → (w.processed ++ (w.batch ++ w.queue) ≡ w.added) × (is_asleep w.place ≡ true → w.queue ≡ [])
  Reach-fifo r = let v = Reach-Inv r start-Inv in (v.fifo, v.asleep)

  Inv-promised :
      {w : Worker A}
      → Inv w
      → w.place ≡ finished
      → Prefix w.promised w.processed × (w.processed ++ w.queue ≡ w.added)
  Inv-promised {w} v e = (
    v.ended e,
    rw⁻¹ (ap (λ (b : List A). w.processed ++ (b ++ w.queue)) (v.no_batch (rw e refl))) v.fifo,
  )

  -- A thread that has ended processed every item that was added before `thread_run_` was cleared,
  -- each once and in order, and what it processed and what came too late are the items added.
  pub finished-promised :
      {w : Worker A}
      → Reach start w
      → w.place ≡ finished
      → Prefix w.promised w.processed × (w.processed ++ w.queue ≡ w.added)
  finished-promised r = Inv-promised (Reach-Inv r start-Inv)

  all_of_prefixes : (xs ys r q : List A) → xs ++ r ≡ ys → ys ++ q ≡ xs → ys ≡ xs
  all_of_prefixes xs ys r [] h g = sym (append-nil ys) ∙ g
  all_of_prefixes xs ys r (y ∷ q) h g =
      absurd (omega (arith, ap length h, ap length g, length-append xs r, length-append ys (y ∷ q)))

  -- If nothing is added behind the stop, all that was added is processed.
  pub Inv-added :
      {w : Worker A} → Inv w → w.place ≡ finished → w.added ≡ w.promised → w.processed ≡ w.added
  Inv-added {w} v e h =
      let ((rest, before), all) = Inv-promised v e in
      all_of_prefixes w.added w.processed rest w.queue (rw h before) all

  pub finished-added :
      {w : Worker A}
      → Reach start w
      → w.place ≡ finished
      → w.added ≡ w.promised
      → w.processed ≡ w.added
  finished-added r = Inv-added (Reach-Inv r start-Inv)

  unfoldable pub work_times : ℕ → Worker A → Worker A
  work_times zero w = w
  work_times (suc n) w = work_times n (work w)

  abbrev pub Finishes : Worker A → Type 0
  Finishes w = (n : ℕ) × ((work_times n w).place ≡ finished)

  one_more : (w : Worker A) → Finishes (work w) → Finishes w
  unfolding work_times
  one_more w (n, f) = (suc n, f)

  drains :
      (b q : List A) (st : Stop) (done all due : List A)
      → Finishes (worker false q b draining st done all due)
  unfolding work_times work
  drains b [] st done all due = one_more _ (0, refl)
  drains b (x ∷ q) st done all due = one_more _ (drains b q st (done ++ x ∷ []) all due)

  leaves :
      (q b : List A) (st : Stop) (done all due : List A)
      → Finishes (worker false q b working st done all due)
  unfolding work
  leaves q [] st done all due = one_more _ (one_more _ (drains [] q st done all due))
  leaves q (x ∷ b) st done all due = one_more _ (leaves q b st (done ++ x ∷ []) all due)

  Finishes-awake :
      (q b : List A) (p : Place) (st : Stop) (done all due : List A)
      → is_asleep p ≡ false
      → Finishes (worker false q b p st done all due)
  unfolding work work_times
  Finishes-awake q b top st done all due h = one_more _ (drains b q st done all due)
  Finishes-awake q b waiting st done all due h = one_more _ (leaves b q st done all due)
  Finishes-awake q b dozing st done all due h = cc
  Finishes-awake q b blocked st done all due h = cc
  Finishes-awake q b working st done all due h = leaves q b st done all due
  Finishes-awake q b draining st done all due h = drains b q st done all due
  Finishes-awake q b finished st done all due h = (0, refl)

  -- Once `thread_run_` is cleared, a thread that neither sleeps nor is about to comes to its end by
  -- its own steps alone, whatever the queue and the batch hold.
  pub work_times-finished :
      (w : Worker A)
      → w.thread_run ≡ false
      → is_asleep w.place ≡ false
      → (n : ℕ) × ((work_times n w).place ≡ finished)
  work_times-finished w e h =
      subst (λ run. Finishes (record w { thread_run = run })) (sym e)
        (Finishes-awake w.queue w.batch w.place w.stop w.processed w.added w.promised h)
