-- ===== src/Example/Pieces.antt =====
-- What the pieces ask that the example is made of.
use cppami.Action.{Action}
use cppami.EventDispatcher.{Reaction}
use cppami.Example
use cppami.Example.Runs.{invoking, Runs, bind-Runs, new-Runs, request-Runs, print-Runs, weaken-Runs}
use cppami.Example.{
  Server, Console, Shell, new, request, target, check_list, is_success, assign_at, show, invoke,
  ask, ping_thread, log_in, turn_off, ask_commands, show_extension_state, ask_summary, session,
  added_callback, sent,
}
use cppami.KeyValDict.{KeyValDict, at, contains, or_empty, get_value, has_key}
use cppami.Outcome.{Result, ok, ok_inj}
use cppami.Prelude.{true, Option, some, List, [], ◌∷◌, ◌≡◌, refl, sym, ap, subst, ◌∙◌}
use cppami.Text.{Bytes, codes, bytes_discrete}
use cppami.UnorderedMap.{assign, emplace}

-- A connection on which all goes well: the server answers each action, and the summary of a mailbox
-- by a list.
pub record Answers (server : Server) : Type 0 where
  pub connects : (host : Bytes) → server.connect host ≡ ok tt
  pub writes : (before : List Example.Request) (a : Action) → server.async_invoke before a ≡ ok tt
  pub reacts :
      (before : List Example.Request) (a : Action)
      → (r : Reaction) × (server.invoke before a ≡ ok (some r))
  pub lists :
      (before : List Example.Request) (a : Action) (x : Option Reaction)
      → a.action ≡ codes "VoicemailBoxSummary"
      → server.invoke before a ≡ ok x
      → check_list x ≡ ok tt

-- The name and the keys of an action.
abbrev pub IsMade : Bytes → List Bytes → Action → Type 0
IsMade name keys a = (a.action ≡ name) × (a.dict.ordered_keys ≡ keys)

abbrev pub Made : Bytes → List Bytes → Result Action → Type 0
Made name keys r = (a : Action) × (r ≡ ok a) × IsMade name keys a

at-has_key :
    (d : KeyValDict) (key : Bytes)
    → has_key d key ≡ true
    → (x : Bytes × KeyValDict) × (at d key ≡ ok x) × (x.1.ordered_keys ≡ d.ordered_keys)
unfolding at
at-has_key d key h = (
  (or_empty (get_value d key), record d { values = emplace bytes_discrete key [] d.values }),
  rw h refl,
  refl,
)

assign_at-Made :
    (a : Action) (name key val : Bytes) (keys : List Bytes)
    → IsMade name keys a
    → contains keys key ≡ true
    → Made name keys (assign_at a key val)
unfolding assign_at
assign_at-Made a name key val keys (own, same) there =
    let (x, e, kept) = at-has_key a.dict key (ap (λ l. contains l key) same ∙ there) in
    let b : Action = record a {
      dict = record (x.1) { values = assign bytes_discrete key val (x.1).values };
    } in
    (b, rw e refl, (own, kept ∙ same))

-- There is a reaction, if all goes well.
abbrev pub Reacts : Type 0 → Option Reaction → Type 0
Reacts G x = G → (r : Reaction) × (x ≡ some r)

module _ {G : Type 0} where
  pub made-Runs :
      (name : Bytes) (keys : List Bytes) (r : Result Action)
      → Made name keys r
      → Runs G [] (IsMade name keys) (new r)
  made-Runs name keys r (a, e, own) =
      weaken-Runs (λ x same. subst (IsMade name keys) (ok_inj (sym e ∙ same)) own)
        (new-Runs r (λ good. (a, e)))

  pub assign-Runs :
      (a : Action) (name : Bytes) (keys : List Bytes) (key val : Bytes)
      → IsMade name keys a
      → contains keys key ≡ true
      → Runs G [] (IsMade name keys) (new (assign_at a key val))
  assign-Runs a name keys key val own there =
      made-Runs name keys (assign_at a key val) (assign_at-Made a name key val keys own there)

  pub done-Runs : {A : Type 0} {Q : A → Type 0} (x : A) → Q x → Runs G [] Q (new (ok x))
  done-Runs {Q = Q} x own =
      weaken-Runs (λ y same. subst Q (ok_inj same) own) (new-Runs (ok x) (λ good. (x, refl)))

  pub show-Runs :
      (a : Action) (x : Option Reaction) → Reacts G x → Runs G [] (λ _. Unit {0}) (show a x)
  unfolding show
  show-Runs a x h =
      bind-Runs [] [] (new-Runs (target x) (λ good. let (r, e) = h good in (r, rw e refl)))
        (λ r same. print-Runs _)

module _ (server : Server) where
  abbrev pub Well : Type 0
  Well = Answers server

  -- What `invoke` gave, the requests before it left open.
  abbrev pub Replied : Action → Option Reaction → Type 0
  Replied a x = (before : List Example.Request) × (server.invoke before a ≡ ok x)

  pub reply-Reacts : (a : Action) (x : Option Reaction) → Replied a x → Reacts Well x
  reply-Reacts a x (before, same) good =
      let (r, e) = good.reacts before a in (r, ok_inj (sym same ∙ e))

  pub invoke-Runs :
      (name : Bytes) (a : Action)
      → a.action ≡ name
      → Runs Well (invoking name ∷ []) (Replied a) (invoke server a)
  invoke-Runs name a own =
      subst (λ n. Runs Well (invoking n ∷ []) (Replied a) (invoke server a)) own
        (request-Runs (Example.invoked a) (λ before. server.invoke before a)
          (λ before x same. (before, same))
          (λ before good. let (r, e) = good.reacts before a in (some r, e)))

  pub ask-Runs :
      (name : Bytes) (keys : List Bytes) (r : Result Action)
      → Made name keys r
      → Runs Well (invoking name ∷ []) (Reacts Well) (ask server r)
  unfolding ask
  ask-Runs name keys r m = bind-Runs [] (invoking name ∷ []) (made-Runs name keys r m) (λ a own.
      bind-Runs (invoking name ∷ []) [] (invoke-Runs name a own.0) (λ x same.
        let h = reply-Reacts a x same in bind-Runs [] [] (show-Runs a x h) (λ _ _. done-Runs x h)))
