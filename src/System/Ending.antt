-- ===== src/System/Ending.antt =====
-- That the destructor of a connection comes to its end: the states that come later.
pub mod Parser
pub mod Reader
pub mod Finish
use cppami.System.{System, Reach, here, step, Step}
use cppami.System.Invariant.{Inv, Step-Inv}

-- A later state.
pub record Later (s : System) (P : System → Type 0) : Type 0 where
  pub last : System
  pub reach : Reach s last
  pub inv : Inv last
  pub holds : P last

Reach-append : {s t u : System} → Reach s t → Reach t u → Reach s u
Reach-append r here = r
Reach-append r (step q st) = step (Reach-append r q) st

pub now : {s : System} {P : System → Type 0} → Inv s → P s → Later s P
now {s} v h = record { last = s; reach = here; inv = v; holds = h }

pub next : {s t : System} {P : System → Type 0} → Inv s → Step s t → P t → Later s P
next {t = t} v st h = record { last = t; reach = step here st; inv = Step-Inv st v; holds = h }

pub and_then :
    {s : System} {P Q : System → Type 0}
    → Later s P
    → ((t : System) → Inv t → P t → Later t Q)
    → Later s Q
and_then l more =
    let m = more l.last l.inv l.holds in
    record { last = m.last; reach = Reach-append l.reach m.reach; inv = m.inv; holds = m.holds }
