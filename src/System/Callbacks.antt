-- ===== src/System/Callbacks.antt =====
-- What the parser's callbacks carry.
use mathlib.Core.List.{append_assoc, append-nil}
use cppami.Prelude.{List, [], ◌∷◌, ◌++◌, ◌≡◌, refl, sym, ap, ◌∙◌, map}
use cppami.StreamParser.{
  StreamParser, Callback, set_ami_version, dispatch, process_chunk, process_chunks,
}
use cppami.Text.{Bytes}

-- The messages that are dispatched, and the last version that is reported after the version `v`.
abbrev pub messages : List Callback → List Bytes
messages [] = []
messages (set_ami_version v ∷ out) = messages out
messages (dispatch m ∷ out) = m ∷ messages out

abbrev pub last_version : Bytes → List Callback → Bytes
last_version v [] = v
last_version v (set_ami_version w ∷ out) = last_version w out
last_version v (dispatch m ∷ out) = last_version v out

pub messages-append : (xs ys : List Callback) → messages (xs ++ ys) ≡ messages xs ++ messages ys
messages-append [] ys = refl
messages-append (set_ami_version v ∷ xs) ys = messages-append xs ys
messages-append (dispatch m ∷ xs) ys = ap (◌∷◌ m) (messages-append xs ys)

pub last_version-append :
    (xs ys : List Callback) (v : Bytes)
    → last_version v (xs ++ ys) ≡ last_version (last_version v xs) ys
last_version-append [] ys v = refl
last_version-append (set_ami_version w ∷ xs) ys v = last_version-append xs ys w
last_version-append (dispatch m ∷ xs) ys v = last_version-append xs ys v

pub messages-dispatch : (ms : List Bytes) → messages (map dispatch ms) ≡ ms
messages-dispatch [] = refl
messages-dispatch (m ∷ ms) = ap (◌∷◌ m) (messages-dispatch ms)

pub last_version-dispatch : (ms : List Bytes) (v : Bytes) → last_version v (map dispatch ms) ≡ v
last_version-dispatch [] v = refl
last_version-dispatch (m ∷ ms) v = last_version-dispatch ms v

-- One chunk more.
pub process_chunks-snoc :
    (cs : List Bytes) (p : StreamParser) (c : Bytes)
    → process_chunks p (cs ++ c ∷ []) ≡ (
      (process_chunk (process_chunks p cs).0 c).0,
      (process_chunks p cs).1 ++ (process_chunk (process_chunks p cs).0 c).1,
    )
unfolding process_chunks
process_chunks-snoc [] p c = ap (λ out. ((process_chunk p c).0, out)) (append-nil _)
process_chunks-snoc (d ∷ cs) p c =
    ap (λ (r : StreamParser × List Callback). (r.0, (process_chunk p d).1 ++ r.1))
      (process_chunks-snoc cs (process_chunk p d).0 c)
    ∙ ap (λ out. ((process_chunk (process_chunks (process_chunk p d).0 cs).0 c).0, out))
        (sym (
          append_assoc (process_chunk p d).1 (process_chunks (process_chunk p d).0 cs).1
            (process_chunk (process_chunks (process_chunk p d).0 cs).0 c).1))
