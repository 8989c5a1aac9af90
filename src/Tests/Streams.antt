-- ===== src/Tests/Streams.antt =====
-- StreamParser on a banner and two messages, cut into chunks in two ways.
use cppami.Prelude.{◌≡◌, refl, false, List, [], ◌∷◌, ◌++◌, arith, concat}
use cppami.StreamParser.Banner.{Begun, process_chunks-Begun, process_chunk_banner_cut}
use cppami.StreamParser.Stream.{
  Processed, IsReady, process_chunks-Processed, process_chunks_irrelevant,
}
use cppami.StreamParser.{
  StreamParser, set_ami_version, dispatch, initial, dispatch_events, parse_events, process_chunk,
  process_chunks,
}
use cppami.Text.{Bytes, codes, eor, index_of, starts_with}

program : Unit {0}
unfolding dispatch_events parse_events process_chunk process_chunks index_of starts_with
program = tt

abbrev chunks : List Bytes
chunks = codes "Event: A\r\n\r" ∷ codes "\nEvent: B\r" ∷ codes "\n\r\nEvent: C" ∷ []

abbrev other_chunks : List Bytes
other_chunks = codes "Event: A\r\n\r\nEv" ∷ codes "ent: B\r\n\r\nEvent: C" ∷ []

abbrev ready : StreamParser
ready = record { first_event = false; event_buf = [] }

ready-IsReady : IsReady ready
unfolding program
ready-IsReady = record { started = refl; partial = refl }

run_chunks : process_chunks initial (codes "Asterisk 5.0\r\n" ∷ chunks) ≡ (
  record { first_event = false; event_buf = codes "Event: C" },
  set_ami_version (codes "Asterisk 5.0")
      ∷ dispatch (codes "Event: A\r\n\r\n")
      ∷ dispatch (codes "Event: B\r\n\r\n")
      ∷ [],
)
unfolding program
run_chunks = refl

process_chunks-Begun_example :
    let r = process_chunks initial ((codes "Asterisk" ++ (eor ++ codes "Ev")) ∷ chunks) in
    Begun (codes "Asterisk") (codes "Ev" ++ concat chunks) r.0 r.1
unfolding program
process_chunks-Begun_example =
    process_chunks-Begun (codes "Asterisk") (codes "Ev") chunks refl (omega arith)

process_chunks-Processed_example :
    let r = process_chunks ready chunks in Processed (concat chunks) r.0 r.1
process_chunks-Processed_example = process_chunks-Processed chunks ready ready-IsReady

process_chunks_irrelevant_example : process_chunks ready chunks ≡ process_chunks ready other_chunks
process_chunks_irrelevant_example =
    process_chunks_irrelevant chunks other_chunks ready ready-IsReady refl

process_chunk_banner_cut_example : process_chunk initial (codes "Asterisk Call") ≡ (
  record { first_event = false; event_buf = codes "sterisk Call" },
  set_ami_version (codes "Asterisk Call") ∷ [],
)
unfolding program
process_chunk_banner_cut_example =
    process_chunk_banner_cut b'A' (codes "sterisk Call") refl (λ e. cc) (omega arith)
