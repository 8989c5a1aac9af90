-- ===== src/System/Parsing.antt =====
-- The steps of the parser's thread.
use mathlib.Core.List.{append_assoc, append-nil}
use cppami.Prelude.{none, some, List, [], ◌∷◌, ◌++◌, ◌≡◌, refl, sym, ap, ◌∙◌}
use cppami.StreamParser.{
  StreamParser, Callback, set_ami_version, dispatch, process_chunk, process_chunks,
}
use cppami.StreamParser
use cppami.System.Callbacks.{process_chunks-snoc}
use cppami.Text.{Bytes}
use cppami.Worker.Invariant.{woken_lem}
use cppami.Worker.Items.{work-Turn, next_item-finished}
use cppami.Worker.{Worker, Place, finished, work, woken, next_item}
use cppami.System.Parts.{Parsed}

-- Nothing is pending at the end of a thread that is only woken.
woken_finished : (p : Place) → woken p ≡ finished → p ≡ finished
woken_finished p = (woken_lem p).2

pub finished_woken : (p : Place) → p ≡ finished → woken p ≡ finished
finished_woken p e = rw e refl

module _ (chunks : Worker Bytes) {parser : StreamParser} {pending made : List Callback}
    (v : Parsed chunks.processed chunks.place parser pending made) where
  pub wake-Parsed : Parsed chunks.processed (woken chunks.place) parser pending made
  wake-Parsed = record { parsed = v.parsed; idle = λ e. v.idle (woken_finished chunks.place e) }

  made_all : pending ≡ [] → process_chunks StreamParser.initial chunks.processed ≡ (parser, made)
  made_all e = v.parsed ∙ rw e (ap (λ out. (parser, out)) (append-nil made))

  pub work-Parsed :
      next_item chunks ≡ none
      → pending ≡ []
      → Parsed (work chunks).processed (work chunks).place parser pending made
  work-Parsed n e =
      let t = work-Turn chunks in
      record { parsed = rw (t.handed, n, append-nil chunks.processed) v.parsed; idle = λ _. e }

  pub parse-Parsed :
      (c : Bytes)
      → next_item chunks ≡ some c
      → pending ≡ []
      → let r = process_chunk parser c in
        Parsed (work chunks).processed (work chunks).place r.0 r.1 made
  parse-Parsed c n e =
      let t = work-Turn chunks in
      record {
        parsed =
            rw (t.handed, n) (process_chunks-snoc chunks.processed StreamParser.initial c)
            ∙ ap
                (λ (r : StreamParser × List Callback).
                  ((process_chunk r.0 c).0, r.1 ++ (process_chunk r.0 c).1))
                (made_all e);
        idle = λ f. let stopped = next_item-finished chunks (sym (t.goes_on c n) ∙ f) in cc;
      }

  pub make-Parsed :
      (c : Callback) (rest : List Callback)
      → pending ≡ c ∷ rest
      → Parsed chunks.processed chunks.place parser rest (made ++ c ∷ [])
  make-Parsed c rest e = record {
    parsed = v.parsed ∙ ap (λ out. (parser, out)) (rw e (sym (append_assoc made (c ∷ []) rest)));
    idle = λ f. let none_left = v.idle f in cc;
  }
