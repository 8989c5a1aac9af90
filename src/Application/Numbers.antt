-- ===== src/Application/Numbers.antt =====
-- The numbers of the calls of `invoke` and of their pipes.
use cppami.Application.Sound.{keeps_answer}
use cppami.Application.{
  Application, Place, writing, waiting, closing, getting, returned, Invocation, put, behind_write,
  behind_wait, is_caller,
}
use cppami.Connection.{get, outcome}
use cppami.EventDispatcher.{EventDispatcher, Reaction, Answer}
use cppami.Outcome.{Error, system_error, Result, ok, err}
use cppami.Prelude.{
  ℕ, ◌<◌, ◌≡◌, ◌⊎◌, inl, inr, refl, sym, ap, subst, ◌∙◌, Bool, true, false, Option, none, some, [],
  ◌∷◌, length, arith, Option-cases, ℕ_discrete,
}
use cppami.SocketWriter
use cppami.SocketWriter.{SocketWriter}
use cppami.System
use cppami.System.Correlation.{asked_ids, asked_ids-append}
use cppami.System.Extends.{Extends}
use cppami.System.Invariant.{Inv}
use cppami.System.{System, Entry, parse, told, asked, forced}
use cppami.TcpSocket
use cppami.TcpSocket.{TcpSocket, Os}
use cppami.Text.{Bytes}
use cppami.Worker.{next_item}
use mathlib.Core.List.{append-nil}
use mathlib.Core.Option

-- The call with the number `i` has the pipe `i`. It comes to its end with the pipe's answer, or
-- because its message can not be written.
abbrev pub At : EventDispatcher → ℕ → Place → Type 0
At d i (writing p) = p ≡ i
At d i (waiting p) = p ≡ i
At d i (closing p) = p ≡ i
At d i (getting p) = p ≡ i
At d i (returned r) = ((x : Answer) × (d.answers i ≡ some x)) ⊎ (r ≡ err system_error)

pub record Numbered (a : Application) : Type 0 where
  pub counted : length (asked_ids a.system.history) ≡ a.count
  pub there : (i : ℕ) → i < a.count → (v : Invocation) × (a.invocations i ≡ some v)
  pub placed :
      (i : ℕ) (v : Invocation) → a.invocations i ≡ some v → At a.system.dispatcher i v.place

pub keeps_At :
    {s t : System}
    → Inv s
    → Extends s t
    → (i : ℕ) (place : Place) → At s.dispatcher i place
    → At t.dispatcher i place
keeps_At v x i (writing p) h = h
keeps_At v x i (waiting p) h = h
keeps_At v x i (closing p) h = h
keeps_At v x i (getting p) h = h
keeps_At v x i (returned r) (inl (y, e)) = inl (y, keeps_answer v x i y e)
keeps_At v x i (returned r) (inr e) = inr e

pub put-At :
    (f : ℕ → Option Invocation) (d : EventDispatcher) (i : ℕ) (u : Invocation)
    → ((j : ℕ) (v : Invocation) → f j ≡ some v → At d j v.place)
    → At d i u.place
    → (j : ℕ) (v : Invocation) → put f i u j ≡ some v
    → At d j v.place
put-At f d i u old new j v e = elim (ℕ_discrete i j) [
  | yes here ↦
      let same : u ≡ v = some_inj (ground (arith, here, e)) in
      subst (λ k. At d k v.place) here (subst (λ (w : Invocation). At d i w.place) same new)
  | no other ↦ old j v (ground (arith, other, e))
]
  where
    some_inj : {u v : Invocation} → some u ≡ some v → u ≡ v
    some_inj h = cc

pub put_there :
    (f : ℕ → Option Invocation) (i j : ℕ) (u : Invocation)
    → (v : Invocation) × (f j ≡ some v)
    → (v : Invocation) × (put f i u j ≡ some v)
put_there f i j u (v, e) = elim (ℕ_discrete i j) [
  | yes here ↦ (u, ground (arith, here))
  | no other ↦ (v, ground (arith, other, e))
]

-- Nothing but the operating system makes a write throw.
pub write-system_error :
    (os : Os) (w : SocketWriter) (buf : Bytes) (e : Error)
    → (SocketWriter.write os w buf).0 ≡ err e
    → e ≡ system_error
unfolding SocketWriter.write TcpSocket.write
write-system_error os w [] e h = absurd cc
write-system_error os w (c ∷ cs) e h = elim (Option-cases w.socket.sock_fd) [
  | inl n ↦ absurd (ground (arith, h, n))
  | inr (fd, f) ↦ elim (Option-cases (os.send fd (c ∷ cs))) [
    | inl n ↦ ground (arith, h, f, n)
    | inr (size, g) ↦ absurd (ground (arith, h, f, g))
  ]
]

pub behind_write-At :
    (d : EventDispatcher) (i : ℕ) (r : Result (Unit {0})) (timed : Bool)
    → ((e : Error) → r ≡ err e → e ≡ system_error)
    → At d i (behind_write r timed i)
behind_write-At d i (err e) timed h = inr (ap err (h e refl))
behind_write-At d i (ok _) true h = refl
behind_write-At d i (ok _) false h = refl

pub behind_wait-At : (d : EventDispatcher) (i : ℕ) (timeout : Bool) → At d i (behind_wait timeout i)
behind_wait-At d i true = refl
behind_wait-At d i false = refl

pub get-some :
    (d : EventDispatcher) (p : ℕ) (r : Result (Option Reaction))
    → get d p ≡ some r
    → (x : Answer) × (d.answers p ≡ some x)
unfolding get
get-some d p r h = elim (Option-cases (d.answers p)) [
  | inr e ↦ e
  | inl n ↦ absurd (none_some (sym (ap (Option.map outcome) n) ∙ h))
]
  where
    none_some : none ≡ some r → ⊥
    none_some h = cc

parse-asked_ids : (s : System) → asked_ids (parse s).history ≡ asked_ids s.history
unfolding parse
parse-asked_ids s = elim (Option-cases (next_item s.chunks)) [
  | inl n ↦ rw (n, parse) refl
  | inr (c, n) ↦ rw (n, parse) refl
]

-- The steps of the connection's threads ask for nothing.
pub runs-asked_ids :
    {s t : System} (st : System.Step s t)
    → is_caller st ≡ false
    → asked_ids t.history ≡ asked_ids s.history
runs-asked_ids {s} (System.dispatches m d n ran) own =
    asked_ids-append s.history (told m ∷ []) ∙ append-nil (asked_ids s.history)
runs-asked_ids {s} (System.parses e) own = parse-asked_ids s
runs-asked_ids (System.asks a live) own = absurd cc
runs-asked_ids (System.forces a x d live ran) own = absurd cc
runs-asked_ids _ own = refl
