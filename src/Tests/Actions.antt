-- ===== src/Tests/Actions.antt =====
-- A login, sent and read back.
use cppami.Action.Classes.{of_login_as, Constructed-sent}
use cppami.Action.Sending.{sent, set_message-to_string_action}
use cppami.Action.{Action, login_as, make, to_string}
use cppami.KeyValDict.Fields.{AreFields, first_value}
use cppami.KeyValDict.{KeyValDict, get_value, set_message, set_value, contains, or_empty}
use cppami.Outcome.{ok}
use cppami.Prelude.{◌≡◌, refl, some, [], ◌∷◌}
use cppami.Text.{Bytes, codes, bytes_discrete, index_of, starts_with}
use cppami.UnorderedMap.{keys, find, assign}

abbrev uuid : Bytes
uuid = codes "1b4e28ba-2fa1-11d2-883f-0016d3cca427"

abbrev admin : Action
admin = record {
  dict = record {
    ordered_keys =
        codes "Username" ∷ codes "AuthType" ∷ codes "Secret" ∷ codes "Key" ∷ codes "Events" ∷ [];
    values = (codes "Username", codes "admin") ∷ (codes "Secret", codes "1234") ∷ [];
  };
  action = codes "Login";
  action_id = uuid;
}

admin_login : login_as uuid (codes "admin") (codes "1234") ≡ ok admin
unfolding login_as make set_value contains assign bytes_discrete
admin_login = refl

Constructed-sent_example :
    (a : Action) × (login_as uuid (codes "admin") (codes "1234") ≡ ok a)
    × (sent a
        ≡ (codes "Action", codes "Login")
          ∷ (codes "ActionID", uuid)
          ∷ (codes "Username", codes "admin")
          ∷ (codes "AuthType", [])
          ∷ (codes "Secret", codes "1234")
          ∷ (codes "Key", [])
          ∷ (codes "Events", [])
          ∷ [])
Constructed-sent_example = Constructed-sent uuid (of_login_as (codes "admin") (codes "1234"))

admin-AreFields : AreFields (sent admin)
unfolding index_of starts_with find bytes_discrete or_empty
admin-AreFields = (
  (refl, refl),
  (
    (refl, refl),
    ((refl, refl), ((refl, refl), ((refl, refl), ((refl, refl), ((refl, refl), tt))))),
  ),
)

set_message-to_string_action_example :
    (d : KeyValDict) × (set_message (to_string admin) ≡ ok d)
    × (get_value d (codes "Action") ≡ some (codes "Login"))
    × (get_value d (codes "ActionID") ≡ some uuid)
    × (d.ordered_keys ≡ keys (sent admin))
    × ((key : Bytes) → get_value d key ≡ first_value key (sent admin))
set_message-to_string_action_example = set_message-to_string_action admin admin-AreFields
