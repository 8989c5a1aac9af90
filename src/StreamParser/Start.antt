-- ===== src/StreamParser/Start.antt =====
-- Whatever the first chunk holds, only whole messages are dispatched from a new parser.
use mathlib.Core.List.{map-append}
use cppami.Prelude.{
  ◌+◌, ◌%◌, ◌≡◌, refl, sym, ap, inl, inr, List, [], ◌∷◌, ◌++◌, map, length, drop, ◌==◌, Bool-cases,
}
use cppami.StreamParser.Chunks.{parse_events-Framing}
use cppami.StreamParser.Framing.{AreMessages, AreMessages-append}
use cppami.StreamParser.Stream.{IsReady, Processed-IsReady, process_chunks-Processed}
use cppami.StreamParser.{
  StreamParser, Callback, set_ami_version, dispatch, initial, position, process_first, parse_events,
  process_chunk, process_chunks,
}
use cppami.Text.{Bytes, index_of, starts_with, eor, find, size_mod}

-- A parser that has had its first chunk, and what it has called: the version, then messages.
pub record Started (p : StreamParser) (out : List Callback) : Type 0 where
  pub ready : IsReady p
  pub version : Bytes
  pub dispatched : List Bytes
  pub version_first : out ≡ set_ami_version version ∷ map dispatch dispatched
  pub each : AreMessages dispatched

process_first-Started : (chunk : Bytes) → let r = process_first [] chunk in Started r.0 r.1
unfolding process_first index_of starts_with
process_first-Started chunk =
    let eor_loc = position (find chunk eor 0) in
    let behind = (eor_loc + 2) % size_mod in
    elim (Bool-cases (length chunk == behind)) [
      | inl e ↦
          rw (e, process_first)
            (record {
              ready = record { started = refl; partial = refl };
              version = _;
              dispatched = [];
              version_first = refl;
              each = tt;
            })
      | inr n ↦
          let framed = parse_events-Framing [] (drop behind chunk) refl in
          rw (n, process_first)
            (record {
              ready = record { started = refl; partial = framed.no_more };
              version = _;
              dispatched = (parse_events [] (drop behind chunk)).1;
              version_first = refl;
              each = framed.each;
            })
    ]

pub process_chunks-Started :
    (c : Bytes) (cs : List Bytes) → let r = process_chunks initial (c ∷ cs) in Started r.0 r.1
unfolding process_chunks process_chunk
process_chunks-Started c cs =
    let first = process_first-Started c in
    let p = (process_first [] c).0 in
    let later = process_chunks-Processed cs p first.ready in
    record {
      ready = Processed-IsReady later;
      version = first.version;
      dispatched = first.dispatched ++ later.messages;
      version_first =
          rw (first.version_first, later.dispatched)
            (ap (◌∷◌ (set_ami_version first.version))
              (sym (map-append dispatch first.dispatched later.messages)));
      each = AreMessages-append first.dispatched later.messages first.each later.framed.each;
    }
