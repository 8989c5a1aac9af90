-- ===== src/System/History.antt =====
-- The dispatcher's history, made again on a new dispatcher.
use cppami.EventDispatcher.Answers.{Keeps, run_calls-Keeps}
use cppami.EventDispatcher.Entries.{IsUnique, run_calls-IsUnique}
use cppami.EventDispatcher.Owners.{Aged, run_calls-Aged}
use cppami.EventDispatcher.Invariant.{Inv}
use cppami.EventDispatcher.Serving.{AreLines, Call, get_pipe, force, arrive, run_call, run_calls}
use cppami.EventDispatcher.{
  EventDispatcher, exception, get_event_pipe, set_exception_on_pipe, dispatch_event, dispatch_dict,
}
use cppami.KeyValDict.Message.{set_message-total}
use cppami.KeyValDict.{KeyValDict, set_message}
use cppami.Outcome.{Error, Result, ok, ◌>>=◌, bind-eq-ok, bind-ext, ok_inj}
use cppami.Prelude.{List, [], ◌∷◌, ◌++◌, ◌≡◌, refl, sym, ap, ◌∙◌}
use cppami.System.{Entry, told, asked, forced}
use cppami.Text.{Bytes}

-- One entry, made again.
unfoldable pub act : EventDispatcher → Entry → Result EventDispatcher
act d (told message) = dispatch_event d message
act d (asked action_id) = ok (get_event_pipe d action_id).0
act d (forced action_id e) = set_exception_on_pipe d action_id e

unfoldable pub replay : EventDispatcher → List Entry → Result EventDispatcher
replay d [] = ok d
replay d (e ∷ es) = do d' ← act d e; replay d' es

-- The messages of a history.
abbrev pub told_messages : List Entry → List Bytes
told_messages [] = []
told_messages (told message ∷ es) = message ∷ told_messages es
told_messages (asked action_id ∷ es) = told_messages es
told_messages (forced action_id a ∷ es) = told_messages es

pub told_messages-append :
    (xs ys : List Entry) → told_messages (xs ++ ys) ≡ told_messages xs ++ told_messages ys
told_messages-append [] ys = refl
told_messages-append (told message ∷ xs) ys = ap (◌∷◌ message) (told_messages-append xs ys)
told_messages-append (asked action_id ∷ xs) ys = told_messages-append xs ys
told_messages-append (forced action_id a ∷ xs) ys = told_messages-append xs ys

pub replay-append :
    (es fs : List Entry) (d : EventDispatcher) {d' d'' : EventDispatcher}
    → replay d es ≡ ok d'
    → replay d' fs ≡ ok d''
    → replay d (es ++ fs) ≡ ok d''
unfolding replay
replay-append [] fs d h g = rw (ok_inj h) g
replay-append (x ∷ es) fs d h g =
    let (y, acts, rest) = bind-eq-ok (act d x) (λ z. replay z es) h in
    rw acts (replay-append es fs y rest g)

pub replay-one :
    (e : Entry) (d : EventDispatcher) {d' : EventDispatcher}
    → act d e ≡ ok d'
    → replay d (e ∷ []) ≡ ok d'
unfolding replay
replay-one e d h = rw h

pub replay-snoc :
    (es : List Entry) (e : Entry) (d : EventDispatcher) {d' d'' : EventDispatcher}
    → replay d es ≡ ok d'
    → act d' e ≡ ok d''
    → replay d (es ++ e ∷ []) ≡ ok d''
replay-snoc es e d {d'} h g = replay-append es (e ∷ []) d h (replay-one e d' g)

-- The calls that a history is, once its messages are read.
pub data Means : List Entry → List Call → Type 0 where
  at_end : Means [] []
  hears :
      {es : List Entry} {cs : List Call} (message : Bytes) (dict : KeyValDict)
      → set_message message ≡ ok dict
      → Means es cs
      → Means (told message ∷ es) (arrive dict ∷ cs)
  gives :
      {es : List Entry} {cs : List Call} (action_id : Bytes)
      → Means es cs
      → Means (asked action_id ∷ es) (get_pipe action_id ∷ cs)
  shuts :
      {es : List Entry} {cs : List Call} (action_id : Bytes) (e : Error)
      → Means es cs
      → Means (forced action_id e ∷ es) (force action_id (exception e) ∷ cs)

pub Means-run_calls :
    {es : List Entry} {cs : List Call}
    → Means es cs
    → (d : EventDispatcher) → replay d es ≡ run_calls d cs
unfolding replay act run_calls run_call dispatch_event set_exception_on_pipe
Means-run_calls at_end d = refl
Means-run_calls (hears m dict read rest) d =
    rw read (bind-ext (dispatch_dict d dict) _ _ (Means-run_calls rest))
Means-run_calls (gives a rest) d = Means-run_calls rest (get_event_pipe d a).0
Means-run_calls (shuts a x rest) d =
    bind-ext (set_exception_on_pipe d a x) _ _ (Means-run_calls rest)

-- Messages that end with line breaks can be read.
pub AreLines-Means :
    (es : List Entry) → AreLines (told_messages es) → (cs : List Call) × Means es cs
AreLines-Means [] h = ([], at_end)
AreLines-Means (told m ∷ es) ((x, e), h) =
    let (dict, read) = set_message-total x in
    let (cs, rest) = AreLines-Means es h in
    (arrive dict ∷ cs, hears m dict (ap set_message e ∙ read) rest)
AreLines-Means (asked a ∷ es) h =
    let (cs, rest) = AreLines-Means es h in (get_pipe a ∷ cs, gives a rest)
AreLines-Means (forced a x ∷ es) h =
    let (cs, rest) = AreLines-Means es h in (force a (exception x) ∷ cs, shuts a x rest)

-- What is true of a dispatcher stays so.
pub record Replays (d d' : EventDispatcher) : Type 0 where
  pub inv : Inv d'
  pub keeps : Keeps d d'
  pub aged : Aged d d'
  pub unique : IsUnique d → IsUnique d'

-- A history whose messages end with line breaks can be made again, and more of it keeps the
-- answers.
pub replay-Replays :
    (es : List Entry) {d d' : EventDispatcher}
    → AreLines (told_messages es)
    → Inv d
    → replay d es ≡ ok d'
    → Replays d d'
replay-Replays es {d} {d'} lines v h =
    let (cs, means) = AreLines-Means es lines in
    let (e, ran, w, keeps) = run_calls-Keeps cs v in
    let same = ok_inj (sym ran ∙ sym (Means-run_calls means d) ∙ h) in
    rw⁻¹ same (record {
      inv = w;
      keeps = keeps;
      aged = run_calls-Aged cs v e ran;
      unique = λ u. run_calls-IsUnique cs e v u ran;
    })
