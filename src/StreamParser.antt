-- ===== src/StreamParser.antt =====
-- include/c++ami/StreamParser.hpp, src/StreamParser.cpp: the chunks that are read from the socket
-- become whole messages. The two callbacks are the values that they are called with, in order. A
-- string that was moved from is empty.
pub mod Framing
pub mod Chunks
pub mod Stream
pub mod Banner
pub mod Thread
pub mod Start
use cppami.Prelude.{
  ℕ, zero, suc, ◌+◌, ◌-◌, ◌%◌, Bool, true, false, Option, none, some, List, [], ◌∷◌, ◌++◌, map, ltb,
  ◌==◌, length, drop, if◌then◌else◌,
}
use cppami.Text.{Bytes, eom, eor, find, substr, npos, size_mod}

pub data Callback : Type 0 where
  set_ami_version dispatch : Bytes → Callback

pub record StreamParser : Type 0 where
  pub first_event : Bool
  pub event_buf : Bytes

abbrev pub initial : StreamParser
initial = record { first_event = true; event_buf = [] }

-- The loop of `process_chunk` over the messages in `event_buf`, from the place of the next end:
-- what stays in `event_buf`, and what is dispatched. Each round takes four bytes at least.
unfoldable pub dispatch_events : ℕ → Bytes → Option ℕ → Bytes × List Bytes
dispatch_events zero event_buf eom_loc = (event_buf, [])
dispatch_events (suc fuel) event_buf none = (event_buf, [])
dispatch_events (suc fuel) event_buf (some loc) =
    let eom_loc = loc + length eom in
    let left = drop eom_loc event_buf in
    let later = dispatch_events fuel left (find left eom 0) in
    if eom_loc == length event_buf
    then ([], event_buf ∷ [])
    else (later.0, substr event_buf 0 eom_loc ∷ later.1)

-- Where the search for an end of message starts in `event_buf` with a chunk appended.
abbrev pub scan_pos_start : Bytes → ℕ
scan_pos_start event_buf =
    if ltb (length event_buf) (length eom) then 0 else length event_buf - length eom + 1

-- `process_chunk` behind the treatment of the first chunk.
unfoldable pub parse_events : Bytes → Bytes → Bytes × List Bytes
parse_events [] chunk = dispatch_events (suc (length chunk)) chunk (find chunk eom 0)
parse_events (b ∷ bs) chunk =
    let event_buf = b ∷ bs in
    let joined = event_buf ++ chunk in
    dispatch_events (suc (length joined)) joined (find joined eom (scan_pos_start event_buf))

abbrev pub position : Option ℕ → ℕ
position none = npos
position (some i) = i

abbrev pub continue : Bytes → Bytes → List Callback → StreamParser × List Callback
continue event_buf chunk before =
    let (left, messages) = parse_events event_buf chunk in
    (record { first_event = false; event_buf = left }, before ++ map dispatch messages)

process_first : Bytes → Bytes → StreamParser × List Callback
process_first event_buf chunk =
    let eor_loc = position (find chunk eor 0) in
    let version = set_ami_version (substr chunk 0 eor_loc) ∷ [] in
    let behind = (eor_loc + 2) % size_mod in
    if length chunk == behind
    then (record { first_event = false; event_buf = event_buf }, version)
    else continue event_buf (drop behind chunk) version

unfoldable pub process_chunk : StreamParser → Bytes → StreamParser × List Callback
unfolding process_first
process_chunk p chunk =
    if p.first_event then process_first p.event_buf chunk else continue p.event_buf chunk []

-- The `for` loops of `work_thread` over a batch of chunks.
unfoldable pub process_chunks : StreamParser → List Bytes → StreamParser × List Callback
process_chunks p [] = (p, [])
process_chunks p (c ∷ cs) =
    let (p', out) = process_chunk p c in
    let (p'', later) = process_chunks p' cs in (p'', out ++ later)
