-- ===== src/Application/Threads.antt =====
-- What the threads of a connection do under an application is what they do by themselves.
use cppami.Application.{
  Application, Step, runs, handles, invokes, writes, waits, closes, gets, sends, registers, removes,
  Reach, start,
}
use cppami.Application
use cppami.Outcome.{timed_out}
use cppami.System
use cppami.System.Extends.{Extends, Reach-Extends}
use cppami.System.Invariant.{Inv, Reach-Inv}
use cppami.System.{System, asks, forces}
use cppami.TcpSocket.{TcpSocket}

pub Step-system : {a b : Application} → Step a b → System.Reach a.system b.system
Step-system (runs t st own calm) = System.step System.here st
Step-system (handles e rest next) = System.here
Step-system (invokes action timed live) = System.step System.here (asks action.action_id live)
Step-system (writes i v pipe os live e at) = System.here
Step-system (waits i v pipe e at) = System.here
Step-system (closes i v pipe d live e at ran) =
    System.step System.here (forces v.action.action_id (timed_out v.action.action_id) d live ran)
Step-system (gets i v pipe r e at answer) = System.here
Step-system (sends action os live) = System.here
Step-system (registers id callback live) = System.here
Step-system (removes key live) = System.here

Reach-trans : {s t u : System} → System.Reach s t → System.Reach t u → System.Reach s u
Reach-trans r System.here = r
Reach-trans r (System.step q st) = System.step (Reach-trans r q) st

pub Reach-system : {a b : Application} → Reach a b → System.Reach a.system b.system
Reach-system Application.here = System.here
Reach-system (Application.step r st) = Reach-trans (Reach-system r) (Step-system st)

pub system-Inv : {socket : TcpSocket} {a : Application} → Reach (start socket) a → Inv a.system
system-Inv r = Reach-Inv (Reach-system r)

pub Step-Extends :
    {a b : Application} → Inv a.system → Step a b → Inv b.system × Extends a.system b.system
Step-Extends v st = Reach-Extends v (Step-system st)
