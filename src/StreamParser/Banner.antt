-- ===== src/StreamParser/Banner.antt =====
-- The first chunk, which begins with the line that names the version of the server.
use native.Mathlib.Nat.{mod-eq_of_lt}
use cppami.Prelude.{
  ℕ, suc, ◌+◌, ◌%◌, ◌≤◌, ◌<◌, ◌≡◌, ◌≢◌, refl, ap, none, false, List, [], ◌∷◌, ◌++◌, arith, length,
  concat, map, length-append, take-append_left, drop-append_add, ◌==◌, take-all, if◌then◌else◌,
}
use cppami.StreamParser.Chunks.{parse_events-Framing}
use cppami.StreamParser.Stream.{
  Processed, Processed-append, Processed-IsReady, process_chunks-Processed,
}
use cppami.StreamParser.{
  StreamParser, Callback, set_ami_version, dispatch, initial, process_first, continue,
  dispatch_events, parse_events, process_chunk, process_chunks,
}
use cppami.Text.Pairs.{index_of-append_pair}
use cppami.Text.Search.{index_of_miss}
use cppami.Text.{Bytes, index_of, starts_with, eom, eor, size_mod, npos}

-- The parser after the version line and the bytes `rest` behind it.
pub record Begun (banner rest : Bytes) (p : StreamParser) (out : List Callback) : Type 0 where
  pub events : List Callback
  pub version_first : out ≡ set_ami_version banner ∷ events
  pub processed : Processed rest p events

-- The place behind the version line, which is no longer than a `size_t` can count.
behind : (i n : ℕ) → i + 2 ≤ n → n < size_mod → (i + 2) % size_mod ≡ i + 2
behind i n h b = mod-eq_of_lt (omega arith)

process_first_alone :
    (banner : Bytes)
    → index_of eor banner ≡ none
    → length (banner ++ eor) < size_mod
    → process_chunk initial (banner ++ eor)
      ≡ (record { first_event = false; event_buf = [] }, set_ami_version banner ∷ [])
unfolding process_chunk
process_first_alone banner h b = ground (
  arith,
  index_of-append_pair b'\r' b'\n' banner [] (omega arith) h,
  take-append_left banner eor,
  length-append banner eor,
  behind (length banner) (length (banner ++ eor)),
)

process_first_more :
    (banner : Bytes) (c : ℕ) (rest : Bytes)
    → index_of eor banner ≡ none
    → length (banner ++ (eor ++ (c ∷ rest))) < size_mod
    → process_chunk initial (banner ++ (eor ++ (c ∷ rest)))
      ≡ continue [] (c ∷ rest) (set_ami_version banner ∷ [])
unfolding process_chunk
process_first_more banner c rest h b = ground (
  arith,
  index_of-append_pair b'\r' b'\n' banner (c ∷ rest) (omega arith) h,
  take-append_left banner (eor ++ (c ∷ rest)),
  length-append banner (eor ++ (c ∷ rest)),
  drop-append_add 2 banner (eor ++ (c ∷ rest)),
  behind (length banner) (length (banner ++ (eor ++ (c ∷ rest)))),
)

process_chunk-Begun :
    (banner rest : Bytes)
    → index_of eor banner ≡ none
    → length (banner ++ (eor ++ rest)) < size_mod
    → let r = process_chunk initial (banner ++ (eor ++ rest)) in Begun banner rest r.0 r.1
unfolding index_of starts_with
process_chunk-Begun banner [] h b = rw (process_first_alone banner h b) (record {
  events = [];
  version_first = refl;
  processed = record {
    messages = [];
    dispatched = refl;
    framed = record { whole = refl; each = tt; no_more = refl };
    ready = refl;
  };
})
process_chunk-Begun banner (c ∷ rest) h b = rw (process_first_more banner c rest h b) (record {
  events = map dispatch (parse_events [] (c ∷ rest)).1;
  version_first = refl;
  processed = record {
    messages = (parse_events [] (c ∷ rest)).1;
    dispatched = refl;
    framed = parse_events-Framing [] (c ∷ rest) refl;
    ready = refl;
  };
})

-- If the first chunk that a new parser is given holds the whole version line and is shorter than
-- 2 ^ 64 bytes, then the version is reported first, without its line break, and the rest of the
-- stream, however it is cut, is dispatched message by message.
pub process_chunks-Begun :
    (banner rest : Bytes) (cs : List Bytes)
    → index_of eor banner ≡ none
    → length (banner ++ (eor ++ rest)) < size_mod
    → let r = process_chunks initial ((banner ++ (eor ++ rest)) ∷ cs) in
      Begun banner (rest ++ concat cs) r.0 r.1
unfolding process_chunks
process_chunks-Begun banner rest cs h b =
    let begun = process_chunk-Begun banner rest h b in
    let p = (process_chunk initial (banner ++ (eor ++ rest))).0 in
    let later = process_chunks-Processed cs p (Processed-IsReady begun.processed) in
    record {
      events = begun.events ++ (process_chunks p cs).1;
      version_first = ap (λ out. out ++ (process_chunks p cs).1) begun.version_first;
      processed = Processed-append (concat cs) begun.processed later;
    }

index_of-eom_of_eor : (s : Bytes) → index_of eor s ≡ none → index_of eom s ≡ none
unfolding index_of starts_with
index_of-eom_of_eor [] h = refl
index_of-eom_of_eor (c ∷ []) h = ground arith
index_of-eom_of_eor (c ∷ d ∷ s) h =
    ground (arith, index_of_miss eor c (d ∷ s) h, index_of-eom_of_eor (d ∷ s))

parse_events_nothing :
    (chunk : Bytes) → index_of eom chunk ≡ none → parse_events [] chunk ≡ (chunk, [])
unfolding parse_events dispatch_events
parse_events_nothing chunk h = rw h

two_or_more {ℓ} :
    {A : Type ℓ} (s : Bytes) (x y : A) → (if suc (suc (length s)) == 1 then x else y) ≡ y
two_or_more s x y = ground arith

-- If the line break of the version line has not arrived with the first chunk, the code takes the
-- whole chunk for the version and keeps all but the first byte of it as the beginning of the first
-- message.
pub process_chunk_banner_cut :
    (c : ℕ) (chunk : Bytes)
    → index_of eor (c ∷ chunk) ≡ none
    → chunk ≢ []
    → length (c ∷ chunk) < npos
    → process_chunk initial (c ∷ chunk)
      ≡ (record { first_event = false; event_buf = chunk }, set_ami_version (c ∷ chunk) ∷ [])
unfolding process_chunk
process_chunk_banner_cut c [] h ne b = absurd (ne refl)
process_chunk_banner_cut c (d ∷ chunk) h ne b =
    let kept = index_of-eom_of_eor (d ∷ chunk) (index_of_miss eor c (d ∷ chunk) h).1 in
    rw (h, process_first)
      (rw (parse_events_nothing (d ∷ chunk) kept)
        (rw (take-all npos (c ∷ d ∷ chunk) (omega arith)) (two_or_more chunk _ _)))
