-- ===== src/Action/Classes.antt =====
-- The constructors of the actions.
use cppami.Action.{
  Action, make, challenge, device_state_list, events, extension_state, getvar, list_commands, login,
  login_as, logoff, mailbox_count, mailbox_status, parked_calls, parkinglots, ping,
  voicemail_box_summary, voicemail_refresh,
}
use cppami.Action.Sending.{sent}
use cppami.KeyValDict.Fields.{Field}
use cppami.KeyValDict.{set_value, contains, or_empty}
use cppami.Outcome.{Result, ok}
use cppami.Prelude.{List, [], ◌∷◌, ◌≡◌, refl}
use cppami.Text.{Bytes, codes, bytes_discrete}
use cppami.UnorderedMap.{find, assign}

program : Unit {0}
unfolding make challenge device_state_list events extension_state getvar list_commands login
    login_as logoff mailbox_count mailbox_status parked_calls parkinglots ping voicemail_box_summary
    voicemail_refresh set_value contains or_empty bytes_discrete find assign
program = tt

module _ (uuid : Bytes) where
  -- For the constructor of each class of actions: what it returns, the name of the action, and what
  -- is to be sent behind the name and the id.
  pub data Constructed : Result Action → Bytes → List Field → Type 0 where
    of_challenge :
        Constructed (challenge uuid) (codes "Challenge") ((codes "AuthType", codes "MD5") ∷ [])
    of_device_state_list : Constructed (device_state_list uuid) (codes "DeviceStateList") ([])
    of_events : Constructed (events uuid) (codes "Events") ((codes "EventMask", codes "on") ∷ [])
    of_extension_state :
        Constructed
          (extension_state uuid)
          (codes "ExtensionState")
          ((codes "Exten", []) ∷ (codes "Context", []) ∷ [])
    of_getvar :
        Constructed
          (getvar uuid)
          (codes "Getvar")
          ((codes "Channel", []) ∷ (codes "Variable", []) ∷ [])
    of_list_commands : Constructed (list_commands uuid) (codes "ListCommands") ([])
    of_login : Constructed (login uuid) (codes "Login") (
        (codes "Username", [])
        ∷ (codes "AuthType", [])
        ∷ (codes "Secret", [])
        ∷ (codes "Key", [])
        ∷ (codes "Events", [])
        ∷ [])
    of_login_as :
        (username secret : Bytes)
        → Constructed (login_as uuid username secret) (codes "Login") (
            (codes "Username", username)
            ∷ (codes "AuthType", [])
            ∷ (codes "Secret", secret)
            ∷ (codes "Key", [])
            ∷ (codes "Events", [])
            ∷ [])
    of_logoff : Constructed (logoff uuid) (codes "Logoff") ([])
    of_mailbox_count :
        (mailbox : Bytes)
        → Constructed
            (mailbox_count uuid mailbox)
            (codes "MailboxCount")
            ((codes "Mailbox", mailbox) ∷ [])
    of_mailbox_status :
        (mailbox : Bytes)
        → Constructed
            (mailbox_status uuid mailbox)
            (codes "MailboxStatus")
            ((codes "Mailbox", mailbox) ∷ [])
    of_parked_calls :
        Constructed (parked_calls uuid) (codes "ParkedCalls") ((codes "ParkingLot", []) ∷ [])
    of_parkinglots : Constructed (parkinglots uuid) (codes "Parkinglots") ([])
    of_ping : Constructed (ping uuid) (codes "Ping") ([])
    of_voicemail_box_summary :
        (context mailbox : Bytes)
        → Constructed
            (voicemail_box_summary uuid context mailbox)
            (codes "VoicemailBoxSummary")
            ((codes "Context", context) ∷ (codes "Mailbox", mailbox) ∷ [])
    of_voicemail_refresh :
        Constructed
          (voicemail_refresh uuid)
          (codes "VoicemailRefresh")
          ((codes "Context", []) ∷ (codes "Mailbox", []) ∷ [])

  -- The constructor of no class throws, and its action sends the class's name, the id that was
  -- drawn for it, and the class's keys in order, each with the argument or the constant for it, or
  -- empty.
  pub Constructed-sent :
      {r : Result Action} {name : Bytes} {fields : List Field}
      → Constructed r name fields
      → (a : Action) × (r ≡ ok a)
        × (sent a ≡ (codes "Action", name) ∷ (codes "ActionID", uuid) ∷ fields)
  unfolding program
  Constructed-sent of_challenge = (_, refl, refl)
  Constructed-sent of_device_state_list = (_, refl, refl)
  Constructed-sent of_events = (_, refl, refl)
  Constructed-sent of_extension_state = (_, refl, refl)
  Constructed-sent of_getvar = (_, refl, refl)
  Constructed-sent of_list_commands = (_, refl, refl)
  Constructed-sent of_login = (_, refl, refl)
  Constructed-sent (of_login_as username secret) = (_, refl, refl)
  Constructed-sent of_logoff = (_, refl, refl)
  Constructed-sent (of_mailbox_count mailbox) = (_, refl, refl)
  Constructed-sent (of_mailbox_status mailbox) = (_, refl, refl)
  Constructed-sent of_parked_calls = (_, refl, refl)
  Constructed-sent of_parkinglots = (_, refl, refl)
  Constructed-sent of_ping = (_, refl, refl)
  Constructed-sent (of_voicemail_box_summary context mailbox) = (_, refl, refl)
  Constructed-sent of_voicemail_refresh = (_, refl, refl)
