-- ===== src/Action/Framing.antt =====
-- The text of src/action/Action.cpp as a message of the stream: a line for each field, and an empty
-- line.
use mathlib.Core.List.{append_assoc, append-nil}
use cppami.Action.Sending.{sent, to_string-sent}
use cppami.Action.{Action, to_string}
use cppami.KeyValDict.Fields.{Field, render}
use cppami.KeyValDict.Printing.{shown}
use cppami.KeyValDict.{get_value}
use cppami.Prelude.{
  ℕ, ◌≡◌, refl, sym, ap, ◌∙◌, false, none, some, List, [], ◌∷◌, ◌++◌, ◌+◌, arith, length,
  length-append, concat, map, subst,
}
use cppami.StreamParser.Framing.{IsMessage, AreMessages, Framing}
use cppami.Text.Search.{index_of_miss}
use cppami.Text.{Bytes, codes, sep, eor, eom, index_of, starts_with}

-- Neither the key nor the value holds a line break.
abbrev pub IsLine : Field → Type 0
IsLine (k, v) = (index_of eor k ≡ none) × (index_of eor v ≡ none)

abbrev pub AreFieldLines : List Field → Type 0
AreFieldLines [] = Unit {0}
AreFieldLines (f ∷ fs) = IsLine f × AreFieldLines fs

-- A line, its break and what follows, which does not begin with a break.
index_of-eom_behind :
    (l r : Bytes) (j : ℕ)
    → index_of eor l ≡ none
    → starts_with eor r ≡ false
    → index_of eom r ≡ some j
    → index_of eom (l ++ (eor ++ r)) ≡ some (length l + 2 + j)
unfolding index_of starts_with
index_of-eom_behind [] r j h s e = ground (arith, s, e)
index_of-eom_behind (c ∷ []) r j h s e = ground (arith, s, e)
index_of-eom_behind (c ∷ d ∷ l) r j h s e = ground (
  arith,
  h,
  index_of-eom_behind (d ∷ l) r j (index_of_miss eor c (d ∷ l) h).1 s e,
  index_of_miss eor c (d ∷ l) h,
)

index_of-eom_last : (l : Bytes) → index_of eor l ≡ none → index_of eom (l ++ eom) ≡ some (length l)
unfolding index_of starts_with
index_of-eom_last [] h = refl
index_of-eom_last (c ∷ []) h = ground arith
index_of-eom_last (c ∷ d ∷ l) h = ground (
  arith,
  h,
  index_of-eom_last (d ∷ l) (index_of_miss eor c (d ∷ l) h).1,
  index_of_miss eor c (d ∷ l) h,
)

-- The text of a field holds no break, and whatever follows it does not begin with one.
index_of-eor_field :
    (k v : Bytes)
    → index_of eor k ≡ none
    → index_of eor v ≡ none
    → index_of eor (k ++ (sep ++ v)) ≡ none
unfolding index_of starts_with
index_of-eor_field [] v h e = ground (arith, e)
index_of-eor_field (c ∷ []) v h e = ground (arith, e)
index_of-eor_field (c ∷ d ∷ k) v h e = ground (
  arith,
  index_of-eor_field (d ∷ k) v (index_of_miss eor c (d ∷ k) h).1 e,
  index_of_miss eor c (d ∷ k) h,
)

starts_with-eor_field :
    (k r : Bytes) → index_of eor k ≡ none → starts_with eor (k ++ (sep ++ r)) ≡ false
unfolding index_of starts_with
starts_with-eor_field [] r h = refl
starts_with-eor_field (c ∷ []) r h = ground arith
starts_with-eor_field (c ∷ d ∷ k) r h = ground (arith, index_of_miss eor c (d ∷ k) h)

-- One line more in front of a message.
line-IsMessage :
    (l r : Bytes)
    → index_of eor l ≡ none
    → starts_with eor r ≡ false
    → IsMessage r
    → IsMessage (l ++ (eor ++ r))
line-IsMessage l r h s m = record {
  body = l ++ (eor ++ m.body);
  ends = ap (λ x. l ++ (eor ++ x)) m.ends ∙ sym (append_assoc l (eor ++ m.body) eom);
  ends_first =
      index_of-eom_behind l r (length m.body) h s m.ends_first
      ∙ ap some (omega (arith, length-append l (eor ++ m.body)));
}

last-IsMessage : (l : Bytes) → index_of eor l ≡ none → IsMessage (l ++ eom)
last-IsMessage l h = record { body = l; ends = refl; ends_first = index_of-eom_last l h }

begins :
    (k v : Bytes) (fs : List Field)
    → index_of eor k ≡ none
    → starts_with eor (render ((k, v) ∷ fs) ++ eor) ≡ false
begins k v fs h =
    let rest = v ++ (eor ++ render fs) in
    ap (starts_with eor) (append_assoc k (sep ++ rest) eor)
    ∙ starts_with-eor_field k (rest ++ eor) h

render-IsMessage :
    (f : Field) (fs : List Field) → AreFieldLines (f ∷ fs) → IsMessage (render (f ∷ fs) ++ eor)
render-IsMessage (k, v) [] ((h, e), _) =
    subst IsMessage (simp append_assoc refl)
      (last-IsMessage (k ++ (sep ++ v)) (index_of-eor_field k v h e))
render-IsMessage (k, v) ((k', v') ∷ fs) ((h, e), rest) = subst IsMessage (simp append_assoc refl) (
    line-IsMessage (k ++ (sep ++ v)) (render ((k', v') ∷ fs) ++ eor) (index_of-eor_field k v h e)
      (begins k' v' fs rest.0.0) (render-IsMessage (k', v') fs rest))

-- The text of an action whose name, id, keys and values hold no line break is one message.
to_string-IsMessage : (a : Action) → AreFieldLines (sent a) → IsMessage (to_string a)
to_string-IsMessage a h = rw (to_string-sent a) (
    render-IsMessage (codes "Action", a.action)
      ((codes "ActionID", a.action_id) ∷ shown (get_value a.dict) a.dict.ordered_keys) h)

abbrev pub ArePlain : List Action → Type 0
ArePlain [] = Unit {0}
ArePlain (a ∷ rest) = AreFieldLines (sent a) × ArePlain rest

to_string-AreMessages :
    (actions : List Action) → ArePlain actions → AreMessages (map to_string actions)
to_string-AreMessages [] h = tt
to_string-AreMessages (a ∷ rest) (h, hs) = (to_string-IsMessage a h, to_string-AreMessages rest hs)

-- However many actions are written one after the other, if their names, ids, keys and values hold
-- no line break, then the stream of their texts is made up of just these messages: no action is
-- split, joined with the next or followed by a rest.
pub sends-Framing :
    (actions : List Action)
    → ArePlain actions
    → Framing (concat (map to_string actions)) (map to_string actions) []
unfolding index_of starts_with
sends-Framing actions h = record {
  whole = sym (append-nil (concat (map to_string actions)));
  each = to_string-AreMessages actions h;
  no_more = refl;
}
