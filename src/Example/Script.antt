-- ===== src/Example/Script.antt =====
-- Which requests the example makes, and in which order.
use cppami.Action.{
  Action, make, device_state_list, logoff, mailbox_count, mailbox_status, parked_calls, parkinglots,
  ping, voicemail_refresh,
}
use cppami.EventDispatcher.{Reaction}
use cppami.Example
use cppami.Example.Parts.{
  log_in-Runs, turn_off-Runs, ask_commands-Runs, show_extension_state-Runs, ask_summary-Runs,
}
use cppami.Example.Pieces.{
  Answers, Made, Reacts, Well, reply-Reacts, done-Runs, show-Runs, ask-Runs,
}
use cppami.Example.Runs.{
  IsPrefix, kinds, Kind, adding, invoking, sending, Runs, bind-Runs, then-Runs, new-Runs,
  request-Runs, print-Runs,
}
use cppami.Example.{
  ◌>>=◌, print, Server, Console, Shell, new, request, target, check_list, is_success, assign_at,
  show, invoke, ask, ping_thread, log_in, turn_off, ask_commands, show_extension_state, ask_summary,
  session, added_callback, sent, main,
}
use cppami.KeyValDict.{contains, set_value}
use cppami.Outcome.{Result, ok, ok_inj}
use cppami.Prelude.{
  ℕ, zero, suc, Bool, if◌then◌else◌, true, false, Option, none, some, List, [], ◌∷◌, ◌++◌, ◌≡◌,
  refl, sym, ap, subst, replicate, ◌∙◌,
}
use cppami.Text.{Bytes, codes, bytes_discrete}
use cppami.UnorderedMap.{find, assign}

constructors : Unit {0}
unfolding make device_state_list logoff mailbox_count mailbox_status parked_calls parkinglots ping
    voicemail_refresh set_value contains bytes_discrete find assign
constructors = tt

-- The requests of a session, and of the program, where the login is accepted or not.
abbrev pub session_script : List Kind
session_script =
    invoking (codes "Events")
    ∷ invoking (codes "ListCommands")
    ∷ sending (codes "ListCommands")
    ∷ invoking (codes "Parkinglots")
    ∷ invoking (codes "ParkedCalls")
    ∷ invoking (codes "MailboxStatus")
    ∷ invoking (codes "MailboxCount")
    ∷ invoking (codes "VoicemailBoxSummary")
    ∷ invoking (codes "VoicemailRefresh")
    ∷ invoking (codes "DeviceStateList")
    ∷ invoking (codes "Logoff")
    ∷ []

abbrev pub script : Bool → List Kind
script true = adding ∷ invoking (codes "Login") ∷ session_script
script false = adding ∷ invoking (codes "Login") ∷ []

-- Each reaction to a login says whether it is accepted.
abbrev pub Accepts : Server → Bool → Type 0
Accepts server accepted =
    (before : List Example.Request) (a : Action) (r : Reaction)
    → a.action ≡ codes "Login"
    → server.invoke before a ≡ ok (some r)
    → is_success r ≡ accepted

target-inv : (x : Option Reaction) (r : Reaction) → target x ≡ ok r → x ≡ some r
target-inv none r h = absurd cc
target-inv (some s) r h = ap some (ok_inj h)

module _ (server : Server) (uuid : ℕ → Bytes) where
  asks-Runs :
      (name : Bytes) (keys : List Bytes) (r : Result Action) {ms : List Kind}
      {next : Shell (Unit {0})}
      → Made name keys r
      → Runs (Well server) ms (λ _. Unit {0}) next
      → Runs (Well server) (invoking name ∷ ms) (λ _. Unit {0}) (ask server r >>= λ _. next)
  asks-Runs name keys r {ms} m h =
      then-Runs (invoking name ∷ []) ms (ask-Runs server name keys r m) h

  session-Runs : Runs (Well server) session_script (λ _. Unit {0}) (session server uuid)
  unfolding constructors session
  session-Runs =
      let mailbox : List Bytes = codes "Mailbox" ∷ [] in
      then-Runs (invoking (codes "Events") ∷ []) _ (turn_off-Runs server uuid) (
        then-Runs (invoking (codes "ListCommands") ∷ sending (codes "ListCommands") ∷ []) _
          (ask_commands-Runs server uuid)
          (bind-Runs (invoking (codes "Parkinglots") ∷ []) _
            (ask-Runs server (codes "Parkinglots") [] _ (_, refl, (refl, refl)))
            (λ x h. then-Runs [] _ (show_extension_state-Runs server uuid x h) (
              asks-Runs (codes "ParkedCalls") (codes "ParkingLot" ∷ []) _ (_, refl, (refl, refl))
                (asks-Runs (codes "MailboxStatus") mailbox _ (_, refl, (refl, refl))
                  (asks-Runs (codes "MailboxCount") mailbox _ (_, refl, (refl, refl))
                    (then-Runs (invoking (codes "VoicemailBoxSummary") ∷ []) _
                      (ask_summary-Runs server uuid)
                      (asks-Runs (codes "VoicemailRefresh") (codes "Context" ∷ codes "Mailbox" ∷ [])
                        _ (_, refl, (refl, refl))
                        (asks-Runs (codes "DeviceStateList") [] _ (_, refl, (refl, refl))
                          (asks-Runs (codes "Logoff") [] _ (_, refl, (refl, refl))
                            (done-Runs tt tt)))))))))))

  accepted-Runs :
      (accepted : Bool) (a : Action) (x : Option Reaction) (r : Reaction)
      → Reacts (Well server) x
      → Runs
          (Well server)
          (if accepted then session_script else [])
          (λ _. Unit {0})
          (if accepted
            then (show a x >>= λ _. session server uuid)
            else print (codes "Unable to login\n"))
  accepted-Runs true a x r h = then-Runs [] session_script (show-Runs a x h) session-Runs
  accepted-Runs false a x r h = print-Runs (codes "Unable to login\n")

  script-split :
      (b : Bool) → adding ∷ invoking (codes "Login") ∷ (if b then session_script else []) ≡ script b
  script-split true = refl
  script-split false = refl

  main-Runs :
      (accepted : Bool)
      → Accepts server accepted
      → Runs (Well server) (script accepted) (λ _. Unit {0}) (main server uuid)
  unfolding main
  main-Runs accepted accepts =
      let tail : List Kind = if accepted then session_script else [] in
      subst (λ l. Runs (Well server) l (λ _. Unit {0}) (main server uuid)) (script-split accepted)
        (then-Runs [] _
          (new-Runs (server.connect (codes "10.3.29.93"))
            (λ good. (tt, good.connects (codes "10.3.29.93"))))
          (then-Runs (adding ∷ []) _
            (request-Runs {Q = λ _. Unit {0}} added_callback (λ before. ok tt) (λ before x e. tt)
              (λ before good. (tt, refl)))
            (bind-Runs (invoking (codes "Login") ∷ []) tail (log_in-Runs server uuid) (λ x logged.
              bind-Runs [] tail
                (new-Runs (target x.1) (λ good.
                  let (r, e) = reply-Reacts server x.0 x.1 logged.1 good in (r, rw e refl)))
                (λ r e.
                  let same =
                    accepts logged.1.0 x.0 r logged.0 (logged.1.1 ∙ ap ok (target-inv x.1 r e)) in
                  subst
                    (λ b.
                      Runs (Well server) tail (λ _. Unit {0})
                        (if b
                          then (show x.0 x.1 >>= λ _. session server uuid)
                          else print (codes "Unable to login\n")))
                    (sym same)
                    (accepted-Runs accepted x.0 x.1 r (reply-Reacts server x.0 x.1 logged.1)))))))

  -- The thread of the pings asks for as many as the rounds that find `run` set.
  ping_thread-Runs :
      (rounds : ℕ)
      → Runs
          (Well server)
          (replicate rounds (invoking (codes "Ping")))
          (λ _. Unit {0})
          (ping_thread server uuid rounds)
  unfolding constructors ping_thread
  ping_thread-Runs zero = done-Runs tt tt
  ping_thread-Runs (suc rounds) =
      asks-Runs (codes "Ping") [] _ (_, refl, (refl, refl)) (ping_thread-Runs rounds)

-- Whatever the connection throws or answers: if its reactions to a login all accept it or all refuse
-- it, the requests of `main` are those of the script for that, in its order, as far as they come:
-- after a login that is refused nothing is asked, and no action but those of the script is ever
-- invoked, the extension's state not being among them. If `main` ends without an exception then the
-- script is complete; and it does so if the connection can be opened, each write succeeds, each
-- action is answered, and the summary of a mailbox is answered by a list. So no key that the example
-- uses is missing in its action.
pub main-IsPrefix :
    (server : Server) (uuid : ℕ → Bytes) (accepted : Bool) (c : Console)
    → Accepts server accepted
    → (made : List Example.Request) × ((main server uuid c).1.requests ≡ c.requests ++ made)
      × IsPrefix (kinds made) (script accepted)
      × ((main server uuid c).0 ≡ ok tt → kinds made ≡ script accepted)
      × (Answers server → (main server uuid c).0 ≡ ok tt)
main-IsPrefix server uuid accepted c accepts =
    let h = main-Runs server uuid accepted accepts c in
    (h.made, h.longer, h.follows, λ e. (h.complete tt e).0, λ good. (h.total good).1)
