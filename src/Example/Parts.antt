-- ===== src/Example/Parts.antt =====
-- What the parts of the example ask, each in its order.
use cppami.Action.{
  Action, make, device_state_list, events, extension_state, list_commands, login, login_as, logoff,
  mailbox_count, mailbox_status, parked_calls, parkinglots, voicemail_box_summary,
  voicemail_refresh,
}
use cppami.EventDispatcher.{Reaction}
use cppami.Example.Pieces.{
  Reacts, Well, Replied, reply-Reacts, made-Runs, assign-Runs, done-Runs, show-Runs, invoke-Runs,
}
use cppami.Example.Runs.{invoking, sending, Runs, bind-Runs, new-Runs, request-Runs}
use cppami.Example.{
  Server, request, check_list, log_in, turn_off, ask_commands, show_extension_state, ask_summary,
  sent,
}
use cppami.KeyValDict.{contains, set_value}
use cppami.Prelude.{ℕ, Option, List, [], ◌∷◌, ◌≡◌, refl, subst}
use cppami.Text.{Bytes, codes, bytes_discrete}
use cppami.UnorderedMap.{find, assign}

abbrev login_keys : List Bytes
login_keys =
    codes "Username" ∷ codes "AuthType" ∷ codes "Secret" ∷ codes "Key" ∷ codes "Events" ∷ []

abbrev exten_keys : List Bytes
exten_keys = codes "Exten" ∷ codes "Context" ∷ []

constructors : Unit {0}
unfolding make device_state_list events extension_state list_commands login login_as logoff
    mailbox_count mailbox_status parked_calls parkinglots voicemail_box_summary voicemail_refresh
    set_value contains bytes_discrete find assign
constructors = tt

module _ (server : Server) (uuid : ℕ → Bytes) where
  abbrev pub LoggedIn : Action × Option Reaction → Type 0
  LoggedIn x = (x.0.action ≡ codes "Login") × Replied server x.0 x.1

  pub log_in-Runs : Runs (Well server) (invoking (codes "Login") ∷ []) LoggedIn (log_in server uuid)
  unfolding constructors log_in
  log_in-Runs =
      let name = codes "Login" in
      bind-Runs [] _ (made-Runs name login_keys _ (_, refl, (refl, refl))) (λ a own.
        bind-Runs [] _ (assign-Runs a name login_keys (codes "AuthType") (codes "plain") own refl)
          (λ b own.
            bind-Runs [] _ (assign-Runs b name login_keys (codes "Events") (codes "off") own refl)
              (λ c own.
                bind-Runs (invoking name ∷ []) [] (invoke-Runs server name c own.0)
                  (λ x same. done-Runs (c, x) (own.0, same)))))

  pub turn_off-Runs :
      Runs
        (Well server)
        (invoking (codes "Events") ∷ [])
        (Reacts (Well server))
        (turn_off server uuid)
  unfolding constructors turn_off
  turn_off-Runs =
      let name = codes "Events" in
      let keys : List Bytes = codes "EventMask" ∷ [] in
      bind-Runs [] _ (made-Runs name keys _ (_, refl, (refl, refl))) (λ a own.
        bind-Runs (invoking name ∷ []) [] (invoke-Runs server name a own.0) (λ x same.
          let h = reply-Reacts server a x same in
          bind-Runs [] [] (assign-Runs a name keys (codes "EventMask") (codes "off") own refl)
            (λ b _. bind-Runs [] [] (show-Runs b x h) (λ _ _. done-Runs x h))))

  pub ask_commands-Runs :
      Runs
        (Well server)
        (invoking (codes "ListCommands") ∷ sending (codes "ListCommands") ∷ [])
        (Reacts (Well server))
        (ask_commands server uuid)
  unfolding constructors ask_commands
  ask_commands-Runs =
      let name = codes "ListCommands" in
      bind-Runs [] _ (made-Runs name [] _ (_, refl, (refl, refl))) (λ a own.
        bind-Runs (invoking name ∷ []) _ (invoke-Runs server name a own.0) (λ x same.
          let h = reply-Reacts server a x same in
          bind-Runs [] _ (show-Runs a x h) (λ _ _.
            bind-Runs (sending name ∷ []) []
              (subst
                (λ n.
                  Runs (Well server) (sending n ∷ []) (λ _. Unit {0})
                    (request (sent a) (λ before. server.async_invoke before a)))
                own.0
                (request-Runs (sent a) (λ before. server.async_invoke before a) (λ before x e. tt)
                  (λ before good. (tt, good.writes before a))))
              (λ _ _. done-Runs x h))))

  pub show_extension_state-Runs :
      (x : Option Reaction)
      → Reacts (Well server) x
      → Runs (Well server) [] (λ _. Unit {0}) (show_extension_state server uuid x)
  unfolding constructors show_extension_state
  show_extension_state-Runs x h =
      let name = codes "ExtensionState" in
      bind-Runs [] [] (made-Runs name exten_keys _ (_, refl, (refl, refl))) (λ a own.
        bind-Runs [] []
          (assign-Runs a name exten_keys (codes "Exten") (codes "701@parkedcalls") own refl)
          (λ b _. show-Runs b x h))

  pub ask_summary-Runs :
      Runs
        (Well server)
        (invoking (codes "VoicemailBoxSummary") ∷ [])
        (Reacts (Well server))
        (ask_summary server uuid)
  unfolding constructors ask_summary
  ask_summary-Runs =
      let name = codes "VoicemailBoxSummary" in
      bind-Runs [] _
        (made-Runs name (codes "Context" ∷ codes "Mailbox" ∷ []) _ (_, refl, (refl, refl)))
        (λ a own. bind-Runs (invoking name ∷ []) [] (invoke-Runs server name a own.0) (λ x same.
          let h = reply-Reacts server a x same in
          bind-Runs [] []
            (new-Runs (check_list x) (λ good. (tt, good.lists same.0 a x own.0 same.1)))
            (λ _ _. bind-Runs [] [] (show-Runs a x h) (λ _ _. done-Runs x h))))
