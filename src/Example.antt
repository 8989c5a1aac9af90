-- ===== src/Example.antt =====
-- example/main.cpp: the program that shows the use of the library. What a connection does is a
-- parameter, the record `Server`; the ids of the actions are one too. The threads of `main` and of
-- the pings have a console each: how their lines mix is left open.
pub mod Runs
pub mod Pieces
pub mod Parts
pub mod Script
use cppami.Action.{
  Action, device_state_list, events, extension_state, list_commands, login_as, logoff,
  mailbox_count, mailbox_status, parked_calls, parkinglots, ping, to_string, voicemail_box_summary,
  voicemail_refresh,
}
use cppami.EventDispatcher.{Reaction, event, event_list}
use cppami.EventList
use cppami.KeyValDict
use cppami.KeyValDict.{KeyValDict}
use cppami.Outcome
use cppami.Outcome.{undefined, assertion, Result, ok, err}
use cppami.Prelude.{ℕ, zero, suc, Bool, Option, none, some, List, [], ◌∷◌, ◌++◌, if◌then◌else◌}
use cppami.Reaction.{event_is_success, event_to_string}
use cppami.Text.{Bytes, codes, bytes_discrete}
use cppami.UnorderedMap

-- What is asked of a connection.
pub data Request : Type 0 where
  added_callback : Request
  invoked sent : Action → Request

-- What a connection does, with the requests before: its constructor, `invoke` and `async_invoke`.
pub record Server : Type 0 where
  pub connect : Bytes → Result (Unit {0})
  pub invoke : List Request → Action → Result (Option Reaction)
  pub async_invoke : List Request → Action → Result (Unit {0})

pub record Console : Type 0 where
  pub requests : List Request
  pub printed : Bytes

-- A piece of a program: it may print and make requests, and may throw.
abbrev pub Shell : Type 0 → Type 0
Shell A = Console → Result A × Console

-- What follows a result.
abbrev pub go_on : {A B : Type 0} → (A → Shell B) → Result A → Console → Result B × Console
go_on next (err thrown) c = (err thrown, c)
go_on next (ok x) c = next x c

infixl 5 ◌>>=◌ ◌>>◌
unfoldable pub ◌>>=◌ : {A B : Type 0} → Shell A → (A → Shell B) → Shell B
(p >>= next) c = go_on next (p c).0 (p c).1

abbrev pub ◌>>◌ : {A B : Type 0} → Shell A → Shell B → Shell B
p >> q = p >>= λ _. q

abbrev pub new : {A : Type 0} → Result A → Shell A
new r c = (r, c)

abbrev pub print : Bytes → Shell (Unit {0})
print text c = (ok tt, record c { printed = c.printed ++ text })

abbrev pub request : {A : Type 0} → Request → (List Request → Result A) → Shell A
request q answer c = (answer c.requests, record c { requests = c.requests ++ q ∷ [] })

-- `reaction->is_success()` and `reaction->to_string()` of either class.
abbrev pub is_success : Reaction → Bool
is_success (event e) = event_is_success e
is_success (event_list l) = EventList.is_success l

abbrev pub reaction_to_string : Reaction → Bytes
reaction_to_string (event e) = event_to_string e
reaction_to_string (event_list l) = EventList.list_to_string l

-- `reaction->`: through a null pointer the behaviour is undefined.
abbrev pub target : Option Reaction → Result Reaction
target none = err undefined
target (some r) = ok r

-- `assert(dynamic_cast<EventList const *>(reaction.get()))`
abbrev pub check_list : Option Reaction → Result (Unit {0})
check_list (some (event_list l)) = ok tt
check_list (some (event e)) = err assertion
check_list none = err assertion

-- `action[key] = val`
unfoldable pub assign_at : Action → Bytes → Bytes → Result Action
assign_at a key val =
    Outcome.map_ok
      (λ r. record a {
        dict = record (r.1) { values = UnorderedMap.assign bytes_discrete key val (r.1).values };
      })
      (KeyValDict.at a.dict key)

-- The callback of `main` prints the event.
abbrev pub callback : KeyValDict → Shell (Unit {0})
callback dict = print (KeyValDict.to_string dict)

-- `std::cout << action.to_string() << reaction->to_string()`
unfoldable pub show : Action → Option Reaction → Shell (Unit {0})
show a reaction = do r ← new (target reaction); print (to_string a ++ reaction_to_string r)

module _ (server : Server) where
  abbrev pub invoke : Action → Shell (Option Reaction)
  invoke a = request (invoked a) (λ before. server.invoke before a)

  -- A new action, its `invoke`, and a line for it: the reaction.
  unfoldable pub ask : Result Action → Shell (Option Reaction)
  ask made = do a ← new made; reaction ← invoke a; _ ← show a reaction; new (ok reaction)

  -- The pings, as often as `run` is found set; the ids are those of the pings.
  unfoldable pub ping_thread : (ℕ → Bytes) → ℕ → Shell (Unit {0})
  ping_thread uuid zero = new (ok tt)
  ping_thread uuid (suc rounds) = do _ ← ask (ping (uuid rounds)); ping_thread uuid rounds

  module _ (uuid : ℕ → Bytes) where
    -- The login, and the reaction to it.
    unfoldable pub log_in : Shell (Action × Option Reaction)
    log_in = do
      a ← new (login_as (uuid 1) (codes "admin") (codes "test"))
      b ← new (assign_at a (codes "AuthType") (codes "plain"))
      login ← new (assign_at b (codes "Events") (codes "off"))
      reaction ← invoke login
      new (ok (login, reaction))

    -- `events`: the mask is turned off behind the `invoke`, and shown with it.
    unfoldable pub turn_off : Shell (Option Reaction)
    turn_off = do
      a ← new (events (uuid 2))
      reaction ← invoke a
      b ← new (assign_at a (codes "EventMask") (codes "off"))
      _ ← show b reaction
      new (ok reaction)

    unfoldable pub ask_commands : Shell (Option Reaction)
    ask_commands = do
      a ← new (list_commands (uuid 3))
      reaction ← invoke a
      _ ← show a reaction
      _ ← request (sent a) (λ before. server.async_invoke before a)
      new (ok reaction)

    -- `ext_state` is shown with the reaction that is there.
    unfoldable pub show_extension_state : Option Reaction → Shell (Unit {0})
    show_extension_state reaction = do
      a ← new (extension_state (uuid 5))
      ext_state ← new (assign_at a (codes "Exten") (codes "701@parkedcalls"))
      show ext_state reaction

    unfoldable pub ask_summary : Shell (Option Reaction)
    ask_summary = do
      a ← new (voicemail_box_summary (uuid 9) (codes "default") (codes "5558675309"))
      reaction ← invoke a
      _ ← new (check_list reaction)
      _ ← show a reaction
      new (ok reaction)

    -- What follows a login that succeeds.
    unfoldable pub session : Shell (Unit {0})
    session = do
      _ ← turn_off
      _ ← ask_commands
      reaction ← ask (parkinglots (uuid 4))
      _ ← show_extension_state reaction
      _ ← ask (parked_calls (uuid 6))
      _ ← ask (mailbox_status (uuid 7) (codes "5558675309"))
      _ ← ask (mailbox_count (uuid 8) (codes "5558675309"))
      _ ← ask_summary
      _ ← ask (voicemail_refresh (uuid 10))
      _ ← ask (device_state_list (uuid 11))
      _ ← ask (logoff (uuid 12))
      new (ok tt)

    unfoldable pub main : Shell (Unit {0})
    main = do
      _ ← new (server.connect (codes "10.3.29.93"))
      _ ← request added_callback (λ before. ok tt)
      (login, reaction) ← log_in
      r ← new (target reaction)
      if is_success r
          then (show login reaction >>= λ _. session)
          else print (codes "Unable to login\n")
