-- ===== src/Worker.antt =====
-- The worker threads of src/StreamParser.cpp and src/EventDispatcher.cpp: `add_buf` and
-- `add_event`, `stop_work_thread`, and the loop of `work_thread`. The two classes differ only in
-- what they do with an item, here the order in which the items are handed over. `thread_run_` is
-- read and written without the mutex; what a thread does while it holds the mutex is one step, but
-- for the two places where another thread's write to `thread_run_` can come between.
pub mod Invariant
pub mod Turns
pub mod Delivery
pub mod Items
pub mod Stopping
pub mod Progress
use cppami.Prelude.{
  Option, none, some, Bool, true, false, not, ◌||◌, List, [], ◌∷◌, ◌++◌, ◌≡◌, if◌then◌else◌,
}

-- Where `work_thread` stands.
pub data Place : Type 0 where
  -- at the test of `thread_run_`
  top : Place
  -- in `wait`, at the test of its predicate
  waiting : Place
  -- in `wait`, the predicate was false, the mutex is not released yet
  dozing : Place
  -- in `wait`, asleep until a notification
  blocked : Place
  -- in the loop over the batch
  working : Place
  -- behind the loop: the mutex is held, the rest of the queue is processed
  draining : Place
  finished : Place

-- Where `stop_work_thread` stands.
pub data Stop : Type 0 where
  not_called cleared notified : Stop

pub record Worker {ℓ} (A : Type ℓ) : Type ℓ where
  pub thread_run : Bool
  -- `stream_chunks_`, `events_`
  pub queue : List A
  -- the local vector that is swapped with the queue, less what is processed of it
  pub batch : List A
  pub place : Place
  pub stop : Stop
  -- the items handed to `process_chunk` or `dispatch_event`, oldest first
  pub processed : List A
  -- for the proofs: the items ever added, and those added before `thread_run_` was cleared
  pub added : List A
  pub promised : List A

-- `notify_one`, and a wake-up without one: a thread that sleeps tests its predicate again.
abbrev pub woken : Place → Place
woken top = top
woken waiting = waiting
woken dozing = dozing
woken blocked = waiting
woken working = working
woken draining = draining
woken finished = finished

-- The places at which the thread has the mutex between two of its steps.
abbrev pub holds_mutex : Place → Bool
holds_mutex top = false
holds_mutex waiting = false
holds_mutex dozing = true
holds_mutex blocked = false
holds_mutex working = false
holds_mutex draining = true
holds_mutex finished = false

module _ {ℓ} {A : Type ℓ} where
  -- `start_work_thread`
  abbrev pub start : Worker A
  start = record {
    thread_run = true;
    queue = [];
    batch = [];
    place = top;
    stop = not_called;
    processed = [];
    added = [];
    promised = [];
  }

  abbrev pub is_empty : List A → Bool
  is_empty [] = true
  is_empty (x ∷ xs) = false

  -- One step of `work_thread`; a thread that sleeps or has ended takes none.
  unfoldable pub work : Worker A → Worker A
  work w = elim w.place [
    | top ↦ record w { place = if w.thread_run then waiting else draining }
    | waiting ↦
        if not w.thread_run || not (is_empty w.queue)
        then record w { place = working; queue = w.batch; batch = w.queue }
        else record w { place = dozing }
    | dozing ↦ record w { place = blocked }
    | blocked ↦ w
    | working ↦ elim w.batch [
      | [] ↦ record w { place = top }
      | x ∷ xs ↦ record w { batch = xs; processed = w.processed ++ x ∷ [] }
    ]
    | draining ↦ elim w.queue [
      | [] ↦ record w { place = finished }
      | x ∷ xs ↦ record w { queue = xs; processed = w.processed ++ x ∷ [] }
    ]
    | finished ↦ w
  ]

  -- The item that this step of `work_thread` hands to `process_chunk` or `dispatch_event`.
  unfoldable pub next_item : Worker A → Option A
  next_item w = elim w.place [
    | top ↦ none
    | waiting ↦ none
    | dozing ↦ none
    | blocked ↦ none
    | working ↦ elim w.batch [ [] ↦ none | x ∷ xs ↦ some x ]
    | draining ↦ elim w.queue [ [] ↦ none | x ∷ xs ↦ some x ]
    | finished ↦ none
  ]

  abbrev pub wake : Worker A → Worker A
  wake w = record w { place = woken w.place }

  -- `add_buf`, `add_event`
  abbrev pub add : A → Worker A → Worker A
  add x w = wake (record w { queue = w.queue ++ x ∷ []; added = w.added ++ x ∷ [] })

  -- The first two statements of `stop_work_thread`.
  abbrev pub clear_run : Worker A → Worker A
  clear_run w = record w { thread_run = false; stop = cleared; promised = w.added }

  abbrev pub notify : Worker A → Worker A
  notify w = wake (record w { stop = notified })

  -- One step of any thread.
  pub data Step (w : Worker A) : Worker A → Type ℓ where
    works : Step w (work w)
    adds : (x : A) → holds_mutex w.place ≡ false → Step w (add x w)
    clears : w.stop ≡ not_called → Step w (clear_run w)
    notifies : w.stop ≡ cleared → Step w (notify w)
    wakes : Step w (wake w)

  pub data Reach (w : Worker A) : Worker A → Type ℓ where
    here : Reach w w
    step : {v u : Worker A} → Reach w v → Step v u → Reach w u
