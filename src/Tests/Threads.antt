-- ===== src/Tests/Threads.antt =====
-- A worker thread at two chunks, the second of which comes while the first is processed.
use cppami.Prelude.{ℕ, [], ◌∷◌, ◌++◌, ◌≡◌, refl}
use cppami.Text.{Bytes, codes, eor, eom}
use cppami.Worker.Delivery.{finished-promised}
use cppami.Worker.Invariant.{Prefix}
use cppami.Worker.Stopping.{IsStuck, stop-IsStuck}
use cppami.Worker.{
  Worker, start, work, add, clear_run, notify, works, adds, clears, notifies, Reach, here, step,
}

abbrev busy : Worker ℕ
busy = work (add 2 (work (work (add 1 (start {A = ℕ})))))

busy-Reach : Reach (start {A = ℕ}) busy
unfolding work
busy-Reach = step (step (step (step (step here (adds 1 refl)) works) works) (adds 2 refl)) works

-- It is stopped now, and the second chunk is processed behind the loop.
abbrev ended : Worker ℕ
ended = work (work (work (work (notify (clear_run busy)))))

ended-Reach : Reach (start {A = ℕ}) ended
unfolding work
ended-Reach =
    step
      (step (step (step (step (step busy-Reach (clears refl)) (notifies refl)) works) works) works)
      works

ended-processed : ended.processed ≡ 1 ∷ 2 ∷ []
unfolding work
ended-processed = refl

finished-promised_example :
    Prefix ended.promised ended.processed × (ended.processed ++ ended.queue ≡ ended.added)
unfolding work
finished-promised_example = finished-promised ended-Reach refl

-- A thread that found nothing to do.
abbrev idle : Worker ℕ
idle = work (work (start {A = ℕ}))

stop-IsStuck_example : (u : Worker ℕ) × Reach idle u × IsStuck u
unfolding work
stop-IsStuck_example = stop-IsStuck idle refl refl

abbrev banner_chunk : Bytes
banner_chunk = codes "Asterisk" ++ (eor ++ codes "Event: A")

-- A parser that is given the version line with the beginning of a message, then the rest, and is
-- stopped.
abbrev stopped : Worker Bytes
stopped = notify (clear_run (add eom (add banner_chunk (start {A = Bytes}))))

stopped-Reach : Reach (start {A = Bytes}) stopped
stopped-Reach =
    step (step (step (step here (adds banner_chunk refl)) (adds eom refl)) (clears refl))
      (notifies refl)

abbrev parser : Worker Bytes
parser = work (work (work (work stopped)))

parser-Reach : Reach (start {A = Bytes}) parser
parser-Reach = step (step (step (step stopped-Reach works) works) works) works
