-- ===== src/Application/Writes.antt =====
-- What an application writes.
use cppami.Action
use cppami.Action.Framing.{ArePlain, sends-Framing}
use cppami.Action.{Action}
use cppami.Application
use cppami.Application.{
  Application, start, write, Step, runs, handles, invokes, writes, waits, closes, gets, sends,
  registers, removes, Reach,
}
use cppami.Connection.{async_invoke}
use cppami.Prelude.{
  ℕ, ◌≡◌, inl, inr, refl, sym, ap, subst, ◌∙◌, List, [], ◌∷◌, ◌++◌, map, concat, take, Option-cases,
}
use cppami.SocketWriter
use cppami.SocketWriter.{SocketWriter}
use cppami.StreamParser.Framing.{Framing}
use cppami.TcpSocket
use cppami.TcpSocket.{TcpSocket, Os}
use cppami.Text.{Bytes}
use mathlib.Core.List.{append_assoc, append-nil}

-- The actions, the bytes that were taken of each, and whether these are all.
abbrev pub actions : List (Action × Bytes) → List Action
actions sent = map (λ x. x.0) sent

abbrev pub taken : List (Action × Bytes) → List Bytes
taken sent = map (λ x. x.1) sent

abbrev pub IsPart : Action × Bytes → Type 0
IsPart (action, bytes) = (n : ℕ) × (bytes ≡ take n (Action.to_string action))

abbrev pub AreParts : List (Action × Bytes) → Type 0
AreParts [] = Unit {0}
AreParts (x ∷ xs) = IsPart x × AreParts xs

abbrev pub AreWhole : List (Action × Bytes) → Type 0
AreWhole [] = Unit {0}
AreWhole ((action, bytes) ∷ xs) = (bytes ≡ Action.to_string action) × AreWhole xs

AreWhole-taken :
    (xs : List (Action × Bytes))
    → AreWhole xs
    → concat (taken xs) ≡ concat (map Action.to_string (actions xs))
AreWhole-taken [] h = refl
AreWhole-taken ((action, bytes) ∷ xs) (e, h) =
    rw e (ap (◌++◌ (Action.to_string action)) (AreWhole-taken xs h))

AreParts-snoc :
    (xs : List (Action × Bytes)) (x : Action × Bytes)
    → AreParts xs
    → IsPart x
    → AreParts (xs ++ x ∷ [])
AreParts-snoc [] x h own = (own, tt)
AreParts-snoc (y ∷ xs) x (part, h) own = (part, AreParts-snoc xs x h own)

concat-taken :
    (xs : List (Action × Bytes)) (x : Action × Bytes)
    → concat (taken (xs ++ x ∷ [])) ≡ concat (taken xs) ++ x.1
concat-taken [] x = append-nil x.1
concat-taken (y ∷ xs) x =
    ap (◌++◌ y.1) (concat-taken xs x) ∙ sym (append_assoc y.1 (concat (taken xs)) x.1)

-- The operating system takes the first bytes of what it is given.
write-part :
    (os : Os) (w : SocketWriter) (buf : Bytes)
    → (n : ℕ) × ((SocketWriter.write os w buf).1 ≡ take n buf)
unfolding SocketWriter.write TcpSocket.write
write-part os w [] = (0, refl)
write-part os w (c ∷ cs) = elim (Option-cases w.socket.sock_fd) [
  | inl n ↦ (0, rw n refl)
  | inr (fd, e) ↦ elim (Option-cases (os.send fd (c ∷ cs))) [
    | inl n ↦ (0, rw (e, n, TcpSocket.write) refl)
    | inr (size, f) ↦ (size, rw (e, f, TcpSocket.write) refl)
  ]
]

record Wrote (a : Application) : Type 0 where
  joined : a.written ≡ concat (taken a.sent)
  parts : AreParts a.sent

write-Wrote : (os : Os) (a : Application) (action : Action) → Wrote a → Wrote (write os a action)
unfolding async_invoke
write-Wrote os a action h =
    let x : Action × Bytes =
      (action, (SocketWriter.write os a.writer (Action.to_string action)).1) in
    record {
      joined = ap (λ b. b ++ x.1) h.joined ∙ sym (concat-taken a.sent x);
      parts = AreParts-snoc a.sent x h.parts (write-part os a.writer (Action.to_string action));
    }

same-Wrote : (a b : Application) → b.written ≡ a.written → b.sent ≡ a.sent → Wrote a → Wrote b
same-Wrote a b e f h = record {
  joined = e ∙ h.joined ∙ ap (λ l. concat (taken l)) (sym f);
  parts = subst AreParts (sym f) h.parts;
}

Step-Wrote : {a b : Application} → Step a b → Wrote a → Wrote b
Step-Wrote {a} {b} (runs t st own calm) h = same-Wrote a b refl refl h
Step-Wrote {a} {b} (handles e rest next) h = same-Wrote a b refl refl h
Step-Wrote {a} {b} (invokes action timed live) h = same-Wrote a b refl refl h
Step-Wrote {a} {b} (writes i v p os live e at) h =
    same-Wrote (write os a v.action) b refl refl (write-Wrote os a v.action h)
Step-Wrote {a} {b} (waits i v p e at) h = same-Wrote a b refl refl h
Step-Wrote {a} {b} (closes i v p d live e at ran) h = same-Wrote a b refl refl h
Step-Wrote {a} {b} (gets i v p r e at answer) h = same-Wrote a b refl refl h
Step-Wrote {a} {b} (sends action os live) h = write-Wrote os a action h
Step-Wrote {a} {b} (registers id callback live) h = same-Wrote a b refl refl h
Step-Wrote {a} {b} (removes key live) h = same-Wrote a b refl refl h

Reach-Wrote : {socket : TcpSocket} {a : Application} → Reach (start socket) a → Wrote a
Reach-Wrote Application.here = record { joined = refl; parts = tt }
Reach-Wrote (Application.step r st) = Step-Wrote st (Reach-Wrote r)

-- However many threads of an application call `invoke` and `async_invoke`: what the operating system
-- took is made up of one part for each write, in the order of the writes, and each is the beginning
-- of the text of its action; no two texts are mixed. If every text was taken whole and no name, id,
-- key or value holds a line break, then the server, reading by the same rule as the parser, finds
-- just these actions, and no rest.
pub Reach-sends :
    {socket : TcpSocket} {a : Application}
    → Reach (start socket) a
    → (a.written ≡ concat (taken a.sent))
      × AreParts a.sent
      × (AreWhole a.sent
          → ArePlain (actions a.sent)
          → Framing a.written (map Action.to_string (actions a.sent)) [])
Reach-sends {a = a} r =
    let h = Reach-Wrote r in
    (
      h.joined,
      h.parts,
      λ whole plain.
          rw (h.joined, AreWhole-taken a.sent whole) (sends-Framing (actions a.sent) plain),
    )
