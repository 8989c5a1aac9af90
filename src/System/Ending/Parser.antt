-- ===== src/System/Ending/Parser.antt =====
-- The parser's thread can always take its next step, once it has made its callbacks.
use cppami.Prelude.{false, inl, inr, Option-cases, List, [], ◌∷◌, ◌≡◌, refl, ap, ◌∙◌}
use cppami.StreamParser.{Callback, set_ami_version, dispatch}
use cppami.System.Delivery.{ending_stopped}
use cppami.System.Ending.{Later, now, next, and_then}
use cppami.System.Invariant.{Inv}
use cppami.System.{System, parse, reports, adds, turns, parses}
use cppami.Worker.Invariant.{is_ending}
use cppami.Worker.Progress.{mutex_cases, work-dozing, next_item-dozing}
use cppami.Worker.{finished, holds_mutex, next_item, work}

-- The reader's part and the parser's queue are as they were.
pub record SameIntake (s t : System) : Type 0 where
  pub same_reader : t.reader ≡ s.reader
  pub same_chunks : t.chunks ≡ s.chunks

SameIntake-trans : {s t u : System} → SameIntake s t → SameIntake t u → SameIntake s u
SameIntake-trans g h = record {
  same_reader = h.same_reader ∙ g.same_reader;
  same_chunks = h.same_chunks ∙ g.same_chunks;
}

-- The mutex of the dispatcher's queue is free soon.
events_free :
    {s : System}
    → Inv s
    → (s.chunks.place ≡ finished → ⊥)
    → Later s (λ t. (holds_mutex t.events.place ≡ false) × (t.pending ≡ s.pending) × SameIntake s t)
events_free {s} v running = elim (mutex_cases s.events.place) [
  | inl free ↦ now v (free, refl, record { same_reader = refl; same_chunks = refl })
  | inr (inl doze) ↦
      next v (turns (next_item-dozing s.events doze)) (
        rw (work-dozing s.events doze) refl,
        refl,
        record { same_reader = refl; same_chunks = refl },
      )
  | inr (inr ends) ↦
      let stopped = ending_stopped s.events v.queued.inv (ap is_ending ends) in
      absurd (running (v.queued.quiet stopped).0)
]

-- The callbacks that are left are made.
pub drain :
    (out : List Callback) {s : System}
    → Inv s
    → s.pending ≡ out
    → Later s (λ t. (t.pending ≡ []) × SameIntake s t)
drain [] v e = now v (e, record { same_reader = refl; same_chunks = refl })
drain (set_ami_version version ∷ rest) {s} v e =
    and_then
      (next {P = λ t. (t.pending ≡ rest) × SameIntake s t} v (reports version rest e)
        (refl, record { same_reader = refl; same_chunks = refl }))
      (λ t w h. and_then (drain rest w h.0) (λ u x k. now x (k.0, SameIntake-trans h.1 k.1)))
drain (dispatch message ∷ rest) {s} v e =
    and_then (events_free v (λ f. let none_left = v.parsed.idle f in cc))
      (λ t w (free, same, intake).
        and_then
          (next {P = λ u. (u.pending ≡ rest) × SameIntake t u} w (adds message rest (same ∙ e) free)
            (refl, record { same_reader = refl; same_chunks = refl }))
          (λ u x h.
            and_then (drain rest x h.0)
              (λ y z k. now z (k.0, SameIntake-trans intake (SameIntake-trans h.1 k.1)))))

parse-chunks : (s : System) → ((parse s).reader ≡ s.reader) × ((parse s).chunks ≡ work s.chunks)
unfolding parse
parse-chunks s = elim (Option-cases (next_item s.chunks)) [
  | inl n ↦ (rw (n, parse) refl, rw (n, parse) refl)
  | inr (c, n) ↦ (rw (n, parse) refl, rw (n, parse) refl)
]

-- The thread takes one step more.
pub parser_works :
    {s : System} → Inv s → Later s (λ t. (t.reader ≡ s.reader) × (t.chunks ≡ work s.chunks))
parser_works {s} v = and_then (drain s.pending v refl) (λ t w (empty, same).
    let (reader, chunks) = parse-chunks t in
    next w (parses empty) (reader ∙ same.same_reader, chunks ∙ ap work same.same_chunks))
