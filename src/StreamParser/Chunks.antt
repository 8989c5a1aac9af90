-- ===== src/StreamParser/Chunks.antt =====
-- One chunk: the loop of `process_chunk`, and where it starts to search.
use mathlib.Core.Option
use mathlib.Core.List.{append_assoc, append-nil}
use cppami.Prelude.{
  ℕ, zero, suc, ◌+◌, ◌-◌, ◌<◌, ◌≡◌, refl, sym, ap, subst, ◌∙◌, inl, inr, none, some, List, [], ◌∷◌,
  ◌++◌, arith, length, take, drop, concat, length-append, length-drop, length-take,
  take-append_left, take-append-drop, take-all, Bool-cases, Option-cases, ltb, ◌==◌, Option,
}
use cppami.StreamParser.Framing.{IsMessage, Framing}
use cppami.StreamParser.{dispatch_events, parse_events, scan_pos_start}
use cppami.Text.Search.{
  index_of-append_some, index_of_split, index_of-le, index_of_restart, index_of_ends,
}
use cppami.Text.{Bytes, index_of, starts_with, eom, find}

map-zero : (o : Option ℕ) → Option.map (λ i. 0 + i) o ≡ o
map-zero none = refl
map-zero (some i) = ap some (omega arith)

find-zero : (s : Bytes) → find s eom 0 ≡ index_of eom s
find-zero s = map-zero (index_of eom s)

take_mark : (s : Bytes) (i : ℕ) → index_of eom s ≡ some i → take (i + 4) s ≡ take i s ++ eom
take_mark s i h =
    let whole = append_assoc (take i s) eom (drop (i + 4) s) ∙ index_of_split eom s i h in
    let inside = length-take i s (omega (arith, index_of-le eom s i h)) in
    let size : length (take i s ++ eom) ≡ i + 4 =
      omega (arith, length-append (take i s) eom, inside) in
    ap (λ (n : ℕ). take n s) (sym size)
    ∙ ap (take (length (take i s ++ eom))) (sym whole)
    ∙ take-append_left (take i s ++ eom) (drop (i + 4) s)

-- The part of a text up to its first end mark is a message.
take-IsMessage : (s : Bytes) (i : ℕ) → index_of eom s ≡ some i → IsMessage (take (i + 4) s)
take-IsMessage s i h =
    let ends = take_mark s i h in
    let (j, found) = index_of_ends eom (take i s) in
    let again = index_of-append_some eom (take i s ++ eom) (drop (i + 4) s) j found in
    let whole = append_assoc (take i s) eom (drop (i + 4) s) ∙ index_of_split eom s i h in
    let inside = length-take i s (omega (arith, index_of-le eom s i h)) in
    record {
      body = take i s;
      ends = ends;
      ends_first = ground (arith, ends, found, again, whole, h, inside);
    }

Framing-one :
    (s : Bytes) (i : ℕ) → index_of eom s ≡ some i → i + 4 ≡ length s → Framing s (s ∷ []) []
unfolding index_of starts_with
Framing-one s i h e = record {
  whole = sym (append-nil s) ∙ sym (append-nil (s ++ []));
  each = (subst IsMessage (take-all (i + 4) s (omega arith)) (take-IsMessage s i h), tt);
  no_more = refl;
}

Framing-cons :
    (n : ℕ) {s : Bytes} {ms : List Bytes} {rest : Bytes}
    → IsMessage (take n s)
    → Framing (drop n s) ms rest
    → Framing s (take n s ∷ ms) rest
Framing-cons n {s} {ms} {rest} m f = record {
  whole =
      sym (take-append-drop n s)
      ∙ ap (◌++◌ (take n s)) f.whole
      ∙ sym (append_assoc (take n s) (concat ms) rest);
  each = (m, f.each);
  no_more = f.no_more;
}

dispatch_events-Framing :
    (fuel : ℕ) (buf : Bytes)
    → length buf < fuel
    → let r = dispatch_events fuel buf (index_of eom buf) in Framing buf r.1 r.0
unfolding dispatch_events
dispatch_events-Framing zero buf b = absurd (omega arith)
dispatch_events-Framing (suc fuel) buf b = elim (Option-cases (index_of eom buf)) [
  | inl e ↦ rw (e, dispatch_events) (record { whole = refl; each = tt; no_more = e })
  | inr (i, e) ↦ elim (Bool-cases (i + 4 == length buf)) [
    | inl t ↦ rw (e, dispatch_events) (rw t (Framing-one buf i e (ground arith)))
    | inr f ↦
        rw (e, dispatch_events)
          (rw (f, find-zero)
            (Framing-cons (i + 4) (take-IsMessage buf i e) (
              dispatch_events-Framing fuel (drop (i + 4) buf)
                (omega (arith, length-drop (i + 4) buf, index_of-le eom buf i e)))))
  ]
]

-- Of the bytes kept, which hold no end mark, only the last three are searched again.
pub scan_start :
    (buf chunk : Bytes)
    → index_of eom buf ≡ none
    → find (buf ++ chunk) eom (scan_pos_start buf) ≡ index_of eom (buf ++ chunk)
scan_start buf chunk h = elim (Bool-cases (ltb (length buf) 4)) [
  | inl t ↦ rw t (find-zero (buf ++ chunk))
  | inr f ↦ rw f (sym (index_of_restart (length buf - 4 + 1) eom buf chunk h (ground arith)))
]

-- Taking in a chunk frames what was kept with the chunk behind it.
pub parse_events-Framing :
    (buf chunk : Bytes)
    → index_of eom buf ≡ none
    → let r = parse_events buf chunk in Framing (buf ++ chunk) r.1 r.0
unfolding parse_events
parse_events-Framing [] chunk h = rw find-zero (dispatch_events-Framing _ chunk (omega arith))
parse_events-Framing (c ∷ buf) chunk h =
    rw (scan_start (c ∷ buf) chunk h) (dispatch_events-Framing _ (c ∷ (buf ++ chunk)) (omega arith))
