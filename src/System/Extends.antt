-- ===== src/System/Extends.antt =====
-- What the steps add to the history of the dispatcher.
use mathlib.Core.List.{append_assoc, append-nil}
use cppami.EventDispatcher.Serving.{AreLines}
use cppami.Outcome.{ok}
use cppami.Prelude.{◌≡◌, refl, sym, ap, ◌∙◌, inl, inr, Option-cases, List, [], ◌∷◌, ◌++◌}
use cppami.System.Delivery.{next-line}
use cppami.System.History.{
  replay, replay-append, replay-one, told_messages, told_messages-append, act,
}
use cppami.System.Invariant.{Inv, Step-Inv}
use cppami.System.{
  System, Entry, parse, told, asked, forced, Step, reads, hands, parses, reports, adds, turns,
  dispatches, asks, forces, wakes_parser, wakes_dispatcher, stops_reader, stops_parser,
  notifies_parser, stops_dispatcher, notifies_dispatcher, Reach, here, step,
}
use cppami.Text.{Bytes}
use cppami.Worker.{next_item}

-- The dispatcher of `t` is that of `s` after the entries that `t` has more.
pub record Extends (s t : System) : Type 0 where
  pub entries : List Entry
  pub longer : t.history ≡ s.history ++ entries
  pub replays : replay s.dispatcher entries ≡ ok t.dispatcher
  pub lines : AreLines (told_messages entries)

AreLines-append : (ms ns : List Bytes) → AreLines ms → AreLines ns → AreLines (ms ++ ns)
AreLines-append [] ns g h = h
AreLines-append (m ∷ ms) ns (x, g) h = (x, AreLines-append ms ns g h)

Extends-trans : {s t u : System} → Extends s t → Extends t u → Extends s u
Extends-trans {s} g h = record {
  entries = g.entries ++ h.entries;
  longer =
      h.longer ∙ ap (λ l. l ++ h.entries) g.longer ∙ append_assoc s.history g.entries h.entries;
  replays = replay-append g.entries h.entries s.dispatcher g.replays h.replays;
  lines =
      rw (told_messages-append g.entries h.entries)
        (AreLines-append (told_messages g.entries) (told_messages h.entries) g.lines h.lines);
}

same_history : (s t : System) → t.history ≡ s.history → t.dispatcher ≡ s.dispatcher → Extends s t
unfolding replay
same_history s t h d = record {
  entries = [];
  longer = h ∙ sym (append-nil s.history);
  replays = ap ok (sym d);
  lines = tt;
}

one_entry :
    (s t : System) (e : Entry)
    → t.history ≡ s.history ++ e ∷ []
    → act s.dispatcher e ≡ ok t.dispatcher
    → AreLines (told_messages (e ∷ []))
    → Extends s t
one_entry s t e h ran lines = record {
  entries = e ∷ [];
  longer = h;
  replays = replay-one e s.dispatcher ran;
  lines = lines;
}

parse-Extends : (s : System) → Extends s (parse s)
unfolding parse
parse-Extends s = elim (Option-cases (next_item s.chunks)) [
  | inl n ↦ same_history s (parse s) (rw (n, parse) refl) (rw (n, parse) refl)
  | inr (c, n) ↦ same_history s (parse s) (rw (n, parse) refl) (rw (n, parse) refl)
]

module _ {s : System} (v : Inv s) where
  Step-Extends : {t : System} → Step s t → Extends s t
  unfolding act
  Step-Extends (reads os r e ran) = same_history s _ refl refl
  Step-Extends (hands buf e free) = same_history s _ refl refl
  Step-Extends (parses e) = parse-Extends s
  Step-Extends (reports version rest e) = same_history s _ refl refl
  Step-Extends (adds message rest e free) = same_history s _ refl refl
  Step-Extends (turns n) = same_history s _ refl refl
  Step-Extends (dispatches m d n ran) = one_entry s _ (told m) refl ran (next-line v m n, tt)
  Step-Extends (asks a live) = one_entry s _ (asked a) refl refl tt
  Step-Extends (forces a x d live ran) = one_entry s _ (forced a x) refl ran tt
  Step-Extends wakes_parser = same_history s _ refl refl
  Step-Extends wakes_dispatcher = same_history s _ refl refl
  Step-Extends stops_reader = same_history s _ refl refl
  Step-Extends (stops_parser gone e) = same_history s _ refl refl
  Step-Extends (notifies_parser e) = same_history s _ refl refl
  Step-Extends (stops_dispatcher gone joins e) = same_history s _ refl refl
  Step-Extends (notifies_dispatcher e) = same_history s _ refl refl

pub Reach-Extends : {s t : System} → Inv s → Reach s t → Inv t × Extends s t
Reach-Extends {s} v here = (v, same_history s s refl refl)
Reach-Extends v (step r st) =
    let (w, before) = Reach-Extends v r in (Step-Inv st w, Extends-trans before (Step-Extends w st))
