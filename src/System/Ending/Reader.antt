-- ===== src/System/Ending/Reader.antt =====
-- The reader's thread ends once it is stopped.
use cppami.Outcome.{ok}
use cppami.Prelude.{false, none, inl, inr, ◌≡◌, refl, ap, sym, subst, ◌∙◌}
use cppami.SocketReader.{SocketReader, Place, looping, handing, ended, turn}
use cppami.System.Delivery.{ending_stopped}
use cppami.System.Ending.Parser.{parser_works}
use cppami.System.Ending.{Later, now, next, and_then}
use cppami.System.Invariant.{Inv}
use cppami.System.{System, reads, hands, stops_reader}
use cppami.TcpSocket.{Os, timeout}
use cppami.Worker.Invariant.{is_ending}
use cppami.Worker.Progress.{mutex_cases, work-dozing}
use cppami.Worker.{holds_mutex}

-- The mutex of the parser's queue is free soon, while the reader has a buffer to hand on.
chunks_free :
    {s : System}
    → Inv s
    → (s.reader.place ≡ ended → ⊥)
    → Later s (λ t. (holds_mutex t.chunks.place ≡ false) × (t.reader ≡ s.reader))
chunks_free {s} v running = elim (mutex_cases s.chunks.place) [
  | inl free ↦ now v (free, refl)
  | inr (inl doze) ↦ and_then (parser_works v) (λ t w (reader, chunks).
      now w (ap (λ c. holds_mutex c.place) (chunks ∙ work-dozing s.chunks doze), reader))
  | inr (inr ends) ↦
      let stopped = ending_stopped s.chunks v.taken.inv (ap is_ending ends) in
      absurd (running (v.taken.quiet stopped).0)
]

-- An operating system on which nothing happens.
abbrev silent : Os
silent = record {
  socket = none;
  getaddrinfo = λ _. none;
  connect = λ _ _ _. false;
  poll = λ _ _. timeout;
  recv = λ _ _. none;
  send = λ _ _. none;
}

turn-ended :
    (r : SocketReader)
    → r.place ≡ looping
    → r.thread_spin ≡ false
    → turn silent r ≡ ok (record r { place = ended })
unfolding turn
turn-ended r e off =
    subst (λ p. turn silent (record r { place = p }) ≡ ok (record r { place = ended })) (sym e)
      (subst
        (λ b.
          turn silent (record { socket = r.socket; thread_spin = b; place = looping })
          ≡ ok (record { socket = r.socket; thread_spin = b; place = ended }))
        (sym off) refl)

reader_leaves :
    {s : System}
    → Inv s
    → s.reader.thread_spin ≡ false
    → s.reader.place ≡ looping
    → Later s (λ t. t.reader.place ≡ ended)
reader_leaves {s} v off e =
    next v (reads silent (record (s.reader) { place = ended }) e (turn-ended s.reader e off)) refl

reader_ends_at :
    (p : Place) {s : System}
    → Inv s
    → s.reader.thread_spin ≡ false
    → s.reader.place ≡ p
    → Later s (λ t. t.reader.place ≡ ended)
reader_ends_at looping v off e = reader_leaves v off e
reader_ends_at ended v off e = now v e
reader_ends_at (handing buf) {s} v off e = and_then (chunks_free v (λ f. cc)) (λ t w (free, same).
    and_then
      (next {P = λ u. (u.reader.thread_spin ≡ false) × (u.reader.place ≡ looping)} w
        (hands buf (ap (λ r. r.place) same ∙ e) free) (ap (λ r. r.thread_spin) same ∙ off, refl))
      (λ u x h. reader_leaves x h.0 h.1))

pub reader_ends : {s : System} → Inv s → Later s (λ t. t.reader.place ≡ ended)
reader_ends {s} v =
    and_then (next {P = λ t. t.reader.thread_spin ≡ false} v stops_reader refl)
      (λ t w off. reader_ends_at t.reader.place w off refl)
