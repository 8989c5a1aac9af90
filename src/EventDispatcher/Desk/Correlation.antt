-- ===== src/EventDispatcher/Desk/Correlation.antt =====
-- No caller is given the answer to another action.
use cppami.EventDispatcher.Desk.{Slot, idle, waiting, collecting, Desk, view, ask, serve, serve_all}
use cppami.EventDispatcher.Serving.{Call, get_pipe, force, arrive}
use cppami.EventDispatcher.{initial}
use cppami.KeyValDict.{get_value}
use cppami.Prelude.{refl, subst, List, [], ◌∷◌, ◌++◌}
use cppami.UnorderedMap
use cppami.Text.{Bytes, codes}
use cppami.EventDispatcher.Desk.Asked.{asked_for, AreEmptyHanded}
use cppami.EventDispatcher.Desk.Correlated.{
  Correlated, hear-Correlated, shut-Correlated, broken-Correlated, first-Correlated,
}
use mathlib.Core.List.{append_assoc, append-nil}

ask-Correlated :
    {asked : List Bytes} {k : Desk} (a : Bytes) (s : Slot)
    → Correlated asked k
    → Correlated (asked ++ a ∷ []) (ask a k s)
ask-Correlated a idle v = first-Correlated v a
ask-Correlated a (waiting p) v = broken-Correlated v a
ask-Correlated a (collecting p l) v = broken-Correlated v a

pub serve_all-Correlated :
    (cs : List Call) {asked : List Bytes} {k : Desk}
    → AreEmptyHanded cs
    → Correlated asked k
    → Correlated (asked ++ asked_for cs) (serve_all k cs)
unfolding serve serve_all
serve_all-Correlated [] {asked} {k} h v = rw (append-nil asked) v
serve_all-Correlated (get_pipe a ∷ cs) {asked} {k} h v =
    subst (λ l. Correlated l (serve_all (ask a k (k.slot a)) cs))
      (append_assoc asked (a ∷ []) (asked_for cs))
      (serve_all-Correlated cs h (ask-Correlated a (k.slot a) v))
serve_all-Correlated (force a x ∷ cs) {asked} {k} h v =
    serve_all-Correlated cs h.1 (shut-Correlated v a x (k.slot a) refl h.0)
serve_all-Correlated (arrive dict ∷ cs) {asked} {k} h v =
    serve_all-Correlated cs h (hear-Correlated v dict (get_value dict (codes "ActionID")) refl)

pub initial-Correlated : Correlated [] (view initial)
unfolding UnorderedMap.find
initial-Correlated = record {
  counted = refl;
  waits = λ a p e. cc;
  collects = λ a p l e. cc;
  answered = λ p r e. cc;
}
