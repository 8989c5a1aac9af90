-- ===== src/Action.antt =====
-- src/action/Action.cpp and the classes of src/action that derive from `Action`: what an
-- application sends. `uuid_generate` and `uuid_unparse_lower` are a parameter: the bytes that the
-- second writes. The id of a new action is an argument of its constructor, in the place of the call
-- `create_uuid()`.
pub mod Sending
pub mod Classes
pub mod Framing
use cppami.KeyValDict
use cppami.KeyValDict.{KeyValDict, from_keys}
use cppami.Outcome.{assertion, Result, ok, err, ◌>>=◌, map_ok}
use cppami.Prelude.{ℕ, ◌-◌, List, [], ◌∷◌, ◌++◌, length, take, drop, replicate}
use cppami.Text.{Bytes, codes, sep, eor}

pub record Action : Type 0 where
  pub dict : KeyValDict
  pub action : Bytes
  pub action_id : Bytes

-- `create_uuid`: the text is written over the front of 37 zero bytes, and the last byte cut off.
unfoldable pub create_uuid : Bytes → Bytes
create_uuid unparsed =
    let uuid_buf = unparsed ++ drop (length unparsed) (replicate 37 0) in
    take (length uuid_buf - 1) uuid_buf

-- `Action(action, ordered_keys)`
unfoldable pub make : Bytes → Bytes → List Bytes → Result Action
make uuid [] ordered_keys = err assertion
make uuid (c ∷ cs) ordered_keys =
    ok (record { dict = from_keys ordered_keys; action = c ∷ cs; action_id = uuid })

-- The inherited `set_value`.
abbrev pub set_value : Action → Bytes → Bytes → Result Action
set_value a key val = map_ok (λ d. record a { dict = d }) (KeyValDict.set_value a.dict key val)

unfoldable pub to_string : Action → Bytes
to_string a =
    codes "Action"
    ++ (sep
        ++ (a.action
            ++ (eor
                ++ (codes "ActionID"
                    ++ (sep ++ (a.action_id ++ (eor ++ KeyValDict.to_string a.dict)))))))

module _ (uuid : Bytes) where
  unfoldable pub challenge : Result Action
  unfolding make
  challenge = do
    a ← make uuid (codes "Challenge") (codes "AuthType" ∷ [])
    set_value a (codes "AuthType") (codes "MD5")

  unfoldable pub device_state_list : Result Action
  unfolding make
  device_state_list = make uuid (codes "DeviceStateList") []

  unfoldable pub events : Result Action
  unfolding make
  events = do
    a ← make uuid (codes "Events") (codes "EventMask" ∷ [])
    set_value a (codes "EventMask") (codes "on")

  unfoldable pub extension_state : Result Action
  unfolding make
  extension_state = make uuid (codes "ExtensionState") (codes "Exten" ∷ codes "Context" ∷ [])

  unfoldable pub getvar : Result Action
  unfolding make
  getvar = make uuid (codes "Getvar") (codes "Channel" ∷ codes "Variable" ∷ [])

  unfoldable pub list_commands : Result Action
  unfolding make
  list_commands = make uuid (codes "ListCommands") []

  unfoldable pub login : Result Action
  unfolding make
  login =
      make uuid (codes "Login")
        (codes "Username" ∷ codes "AuthType" ∷ codes "Secret" ∷ codes "Key" ∷ codes "Events" ∷ [])

  -- `Login(username, secret)`
  unfoldable pub login_as : Bytes → Bytes → Result Action
  unfolding login
  login_as username secret = do
    a ← login
    b ← set_value a (codes "Username") username
    set_value b (codes "Secret") secret

  unfoldable pub logoff : Result Action
  unfolding make
  logoff = make uuid (codes "Logoff") []

  unfoldable pub mailbox_count : Bytes → Result Action
  unfolding make
  mailbox_count mailbox = do
    a ← make uuid (codes "MailboxCount") (codes "Mailbox" ∷ [])
    set_value a (codes "Mailbox") mailbox

  unfoldable pub mailbox_status : Bytes → Result Action
  unfolding make
  mailbox_status mailbox = do
    a ← make uuid (codes "MailboxStatus") (codes "Mailbox" ∷ [])
    set_value a (codes "Mailbox") mailbox

  unfoldable pub parked_calls : Result Action
  unfolding make
  parked_calls = make uuid (codes "ParkedCalls") (codes "ParkingLot" ∷ [])

  unfoldable pub parkinglots : Result Action
  unfolding make
  parkinglots = make uuid (codes "Parkinglots") []

  unfoldable pub ping : Result Action
  unfolding make
  ping = make uuid (codes "Ping") []

  unfoldable pub voicemail_box_summary : Bytes → Bytes → Result Action
  unfolding make
  voicemail_box_summary context mailbox = do
    a ← make uuid (codes "VoicemailBoxSummary") (codes "Context" ∷ codes "Mailbox" ∷ [])
    b ← set_value a (codes "Context") context
    set_value b (codes "Mailbox") mailbox

  unfoldable pub voicemail_refresh : Result Action
  unfolding make
  voicemail_refresh = make uuid (codes "VoicemailRefresh") (codes "Context" ∷ codes "Mailbox" ∷ [])
