-- ===== src/StreamParser/Stream.antt =====
-- A whole stream, cut into chunks in any way.
use mathlib.Core.List.{append_assoc, append-nil, map-append}
use cppami.KeyValDict.Message.{set_message-total}
use cppami.KeyValDict.{KeyValDict, set_message}
use cppami.Outcome.{ok}
use mathlib.Core.Path.{ap₂}
use cppami.Prelude.{
  ◌≡◌, refl, sym, ap, subst, ◌∙◌, none, false, List, [], ◌∷◌, ◌++◌, arith, concat, map,
}
use cppami.StreamParser.Chunks.{parse_events-Framing}
use cppami.StreamParser.Framing.{IsMessage, AreMessages, Framing, Framing-append, Framing-unique}
use cppami.StreamParser.{
  StreamParser, Callback, set_ami_version, dispatch, parse_events, process_chunk, process_chunks,
}
use cppami.Text.{Bytes, index_of, eom, eor}

-- Between chunks, a parser that has had its first chunk keeps bytes that hold no end mark.
pub record IsReady (p : StreamParser) : Type 0 where
  pub started : p.first_event ≡ false
  pub partial : index_of eom p.event_buf ≡ none

-- What the parser has done with a part of the stream: the messages that it dispatched, and the rest
-- that it keeps.
pub record Processed (stream : Bytes) (p : StreamParser) (out : List Callback) : Type 0 where
  pub messages : List Bytes
  pub dispatched : out ≡ map dispatch messages
  pub framed : Framing stream messages p.event_buf
  pub ready : p.first_event ≡ false

process_chunk-Processed :
    (p : StreamParser) (chunk : Bytes)
    → IsReady p
    → let r = process_chunk p chunk in Processed (p.event_buf ++ chunk) r.0 r.1
unfolding process_chunk
process_chunk-Processed p chunk h = rw (h.started) (record {
  messages = (parse_events p.event_buf chunk).1;
  dispatched = refl;
  framed = parse_events-Framing p.event_buf chunk h.partial;
  ready = refl;
})

pub Processed-IsReady :
    {s : Bytes} {p : StreamParser} {out : List Callback} → Processed s p out → IsReady p
Processed-IsReady h = record { started = h.ready; partial = h.framed.no_more }

pub Processed-cast :
    {s t : Bytes} {p : StreamParser} {out : List Callback}
    → s ≡ t
    → Processed s p out
    → Processed t p out
Processed-cast {p = p} {out = out} e h = subst (λ x. Processed x p out) e h

pub Processed-append :
    {s : Bytes} {p q : StreamParser} {out later : List Callback} (t : Bytes)
    → Processed s p out
    → Processed (p.event_buf ++ t) q later
    → Processed (s ++ t) q (out ++ later)
Processed-append t f g = record {
  messages = f.messages ++ g.messages;
  dispatched = rw (f.dispatched, g.dispatched) (sym (map-append dispatch f.messages g.messages));
  framed = Framing-append t f.framed g.framed;
  ready = g.ready;
}

-- A parser that has had its first chunk and keeps bytes without an end mark: however what follows is
-- cut into chunks, what it dispatches is the messages of the bytes that were kept with all the chunks
-- behind them.
pub process_chunks-Processed :
    (cs : List Bytes) (p : StreamParser)
    → IsReady p
    → let r = process_chunks p cs in Processed (p.event_buf ++ concat cs) r.0 r.1
unfolding process_chunks
process_chunks-Processed [] p h = record {
  messages = [];
  dispatched = refl;
  framed = record { whole = append-nil p.event_buf; each = tt; no_more = h.partial };
  ready = h.started;
}
process_chunks-Processed (c ∷ cs) p h =
    let one = process_chunk-Processed p c h in
    Processed-cast (append_assoc p.event_buf c (concat cs)) (
      Processed-append (concat cs) one
        (process_chunks-Processed cs (process_chunk p c).0 (Processed-IsReady one)))

Processed-unique :
    {s : Bytes} {p q : StreamParser} {out later : List Callback}
    → Processed s p out
    → Processed s q later
    → (out ≡ later) × (p ≡ q)
Processed-unique {s} {p} {q} f g =
    let (e, b) = Framing-unique s f.messages g.messages p.event_buf q.event_buf f.framed g.framed in
    (f.dispatched ∙ ap (map dispatch) e ∙ sym g.dispatched, ground (arith, b, f.ready, g.ready))

-- For a parser that has had its first chunk and keeps bytes without an end mark, two ways of cutting
-- what follows into chunks dispatch the same messages in the same order, and leave the parser in the
-- same state. Of the first chunk, with the version line, this is not said.
pub process_chunks_irrelevant :
    (cs ds : List Bytes) (p : StreamParser)
    → IsReady p
    → concat cs ≡ concat ds
    → process_chunks p cs ≡ process_chunks p ds
process_chunks_irrelevant cs ds p h e =
    let (out, state) =
      Processed-unique (process_chunks-Processed cs p h)
        (Processed-cast (ap (◌++◌ p.event_buf) (sym e)) (process_chunks-Processed ds p h)) in
    ap₂ (λ a b. (a, b)) state out

-- Each message that is dispatched is one that `set_message` reads.
abbrev pub EachRead : List Callback → Type 0
EachRead [] = Unit {0}
EachRead (set_ami_version v ∷ out) = EachRead out
EachRead (dispatch m ∷ out) = ((d : KeyValDict) × (set_message m ≡ ok d)) × EachRead out

IsMessage-read : (m : Bytes) → IsMessage m → (d : KeyValDict) × (set_message m ≡ ok d)
IsMessage-read m h =
    let (d, e) = set_message-total (h.body ++ eor) in
    (d, ap set_message (h.ends ∙ sym (append_assoc h.body eor eor)) ∙ e)

EachRead-dispatch : (ms : List Bytes) → AreMessages ms → EachRead (map dispatch ms)
EachRead-dispatch [] h = tt
EachRead-dispatch (m ∷ ms) h = (IsMessage-read m h.0, EachRead-dispatch ms h.1)

-- Whatever chunks arrive, reading a message that was dispatched never fails: no assertion, no view
-- past the end of the text.
pub process_chunks-EachRead :
    (cs : List Bytes) (p : StreamParser) → IsReady p → EachRead (process_chunks p cs).1
process_chunks-EachRead cs p h =
    let done = process_chunks-Processed cs p h in
    subst EachRead (sym done.dispatched) (EachRead-dispatch done.messages done.framed.each)
