-- ===== src/Tests/Examples.antt =====
-- The example, with a server that answers each action, and the summary of a mailbox by a list.
use cppami.EventDispatcher.{Reaction, event, event_list}
use cppami.EventList
use cppami.Example
use cppami.Example.Pieces.{Answers}
use cppami.Example.Runs.{IsPrefix, kinds}
use cppami.Example.Script.{Accepts, script, main-IsPrefix}
use cppami.Example.{Server, Console, Request, is_success, main}
use cppami.KeyValDict.{KeyValDict}
use cppami.Outcome.{ok, ok_inj}
use cppami.Prelude.{
  ℕ, ◌≡◌, refl, sym, ap, subst, ◌∙◌, true, false, Bool, none, some, List, [], ◌∷◌, ◌++◌, replicate,
}
use cppami.Reaction.{event_is_success, status_is_success}
use cppami.Text.{Bytes, codes, bytes_discrete, same}
use cppami.UnorderedMap.{find}

abbrev well : KeyValDict
well = record {
  ordered_keys = codes "Response" ∷ [];
  values = (codes "Response", codes "Success") ∷ [];
}

abbrev reaction_to : Bool → Reaction
reaction_to true = event_list (record { head = record { dict = well }; tail = none; events = [] })
reaction_to false = event (record { dict = well })

abbrev kind_server : Server
kind_server = record {
  connect = λ _. ok tt;
  invoke = λ _ a. ok (some (reaction_to (same a.action (codes "VoicemailBoxSummary"))));
  async_invoke = λ _ _. ok tt;
}

accepts : (b : Bool) → is_success (reaction_to b) ≡ true
unfolding event_is_success EventList.is_success status_is_success find bytes_discrete
accepts true = refl
accepts false = refl

some_inj : {q r : Reaction} → some q ≡ some r → q ≡ r
some_inj h = cc

kind_server-Accepts : Accepts kind_server true
kind_server-Accepts before a r own e =
    let b = same a.action (codes "VoicemailBoxSummary") in
    ap is_success (sym (some_inj (ok_inj e))) ∙ accepts b

abbrev numbered : ℕ → Bytes
numbered n = replicate n 48

abbrev empty_console : Console
empty_console = record { requests = []; printed = [] }

main-IsPrefix_example :
    (made : List Request) × ((main kind_server numbered empty_console).1.requests ≡ [] ++ made)
    × IsPrefix (kinds made) (script true)
    × ((main kind_server numbered empty_console).0 ≡ ok tt → kinds made ≡ script true)
    × (Answers kind_server → (main kind_server numbered empty_console).0 ≡ ok tt)
main-IsPrefix_example = main-IsPrefix kind_server numbered true empty_console kind_server-Accepts

kind_server-Answers : Answers kind_server
unfolding bytes_discrete
kind_server-Answers = record {
  connects = λ host. refl;
  writes = λ before a. refl;
  reacts = λ before a. (_, refl);
  lists = λ before a x own e.
      let is_summary : same a.action (codes "VoicemailBoxSummary") ≡ true =
        ap (λ n. same n (codes "VoicemailBoxSummary")) own in
      subst (λ y. Example.check_list y ≡ ok tt) (ok_inj e)
        (ap (λ b. Example.check_list (some (reaction_to b))) is_summary);
}

-- The example ends without an exception there.
main_ends : (main kind_server numbered empty_console).0 ≡ ok tt
main_ends =
    let (made, longer, follows, whole, ends) =
      main-IsPrefix kind_server numbered true empty_console kind_server-Accepts in
    ends kind_server-Answers
