-- ===== src/System/Correlation.antt =====
-- The answers of a connection and the actions that they answer.
use cppami.EventDispatcher.Desk.Asked.{asked_for, AreEmptyHanded, IsAnswerFor}
use cppami.EventDispatcher.Desk.Correlated.{Correlated}
use cppami.EventDispatcher.Desk.Correlation.{initial-Correlated, serve_all-Correlated}
use cppami.EventDispatcher.Desk.Refinement.{run_calls-serve_all}
use cppami.EventDispatcher.Desk.{view}
use cppami.EventDispatcher.Invariant.{initial-Inv}
use cppami.EventDispatcher.Serving.{Call}
use cppami.EventDispatcher.{initial, Reaction, value, find_pipe, find_list}
use cppami.Outcome.{ok_inj}
use cppami.Prelude.{
  ℕ, zero, suc, ◌<◌, none, some, List, [], ◌∷◌, ◌++◌, ◌≡◌, inl, inr, refl, sym, ap, subst, ◌∙◌,
  arith, length, get_elem?, get_elem?-length, Option-cases,
}
use cppami.System.Delivery.{history-lines, dispatcher-Inv}
use cppami.System.History.{Means, at_end, hears, gives, shuts, Means-run_calls, AreLines-Means}
use cppami.System.Invariant.{Inv}
use cppami.System.{System, Entry, told, asked, forced}
use cppami.Text.{Bytes}

-- The ids of the actions that callers asked for, in order.
abbrev pub asked_ids : List Entry → List Bytes
asked_ids [] = []
asked_ids (told message ∷ es) = asked_ids es
asked_ids (asked action_id ∷ es) = action_id ∷ asked_ids es
asked_ids (forced action_id e ∷ es) = asked_ids es

pub asked_ids-append : (xs ys : List Entry) → asked_ids (xs ++ ys) ≡ asked_ids xs ++ asked_ids ys
asked_ids-append [] ys = refl
asked_ids-append (told message ∷ xs) ys = asked_ids-append xs ys
asked_ids-append (asked action_id ∷ xs) ys = ap (◌∷◌ action_id) (asked_ids-append xs ys)
asked_ids-append (forced action_id e ∷ xs) ys = asked_ids-append xs ys

Means-asked_for : {es : List Entry} {cs : List Call} → Means es cs → asked_for cs ≡ asked_ids es
Means-asked_for at_end = refl
Means-asked_for (hears m dict read rest) = Means-asked_for rest
Means-asked_for (gives a rest) = ap (◌∷◌ a) (Means-asked_for rest)
Means-asked_for (shuts a e rest) = Means-asked_for rest

some_inj : {a b : Bytes} → some a ≡ some b → a ≡ b
some_inj h = cc

Means-AreEmptyHanded : {es : List Entry} {cs : List Call} → Means es cs → AreEmptyHanded cs
Means-AreEmptyHanded at_end = tt
Means-AreEmptyHanded (hears m dict read rest) = Means-AreEmptyHanded rest
Means-AreEmptyHanded (gives a rest) = Means-AreEmptyHanded rest
Means-AreEmptyHanded (shuts a e rest) = (tt, Means-AreEmptyHanded rest)

pub Inv-Correlated : {s : System} → Inv s → Correlated (asked_ids s.history) (view s.dispatcher)
Inv-Correlated {s} v =
    let (cs, means) = AreLines-Means s.history (history-lines v) in
    let (d, ran, same) = run_calls-serve_all cs initial-Inv in
    let end = ok_inj (sym v.replayed.replayed ∙ Means-run_calls means initial ∙ ran) in
    let all = serve_all-Correlated cs (Means-AreEmptyHanded means) initial-Correlated in
    subst (λ ids. Correlated ids (view s.dispatcher)) (Means-asked_for means)
      (subst (Correlated (asked_for cs)) (sym (ap view end ∙ same)) all)

get_elem?-bound : (xs : List Bytes) (n : ℕ) (a : Bytes) → get_elem? xs n ≡ some a → n < length xs
get_elem?-bound [] n a h = absurd cc
get_elem?-bound (x ∷ xs) zero a h = omega arith
get_elem?-bound (x ∷ xs) (suc n) a h = omega (arith, get_elem?-bound xs n a h)

module _ {s : System} (v : Inv s) where
  owner :
      (b : Bytes) (p : ℕ)
      → find_pipe s.dispatcher b ≡ some p
      → get_elem? (asked_ids s.history) p ≡ some b
  owner b p e =
      let c = Inv-Correlated v in
      elim (Option-cases (find_list s.dispatcher b)) [
        | inl n ↦ c.waits b p (rw (e, n) refl)
        | inr (l, m) ↦ (c.collects b p l (rw (e, m) refl)).0
      ]

  -- A pipe that has no answer yet is that of the action that was asked for with it.
  pub asked-find_pipe :
      (a : Bytes) (p : ℕ)
      → get_elem? (asked_ids s.history) p ≡ some a
      → s.dispatcher.answers p ≡ none
      → find_pipe s.dispatcher a ≡ some p
  asked-find_pipe a p e n =
      let within = get_elem?-bound (asked_ids s.history) p a e in
      let counted = (Inv-Correlated v).counted in
      let (b, f) = (dispatcher-Inv v).reachable p (omega (arith, within, counted)) n in
      let same : b ≡ a = some_inj (sym (owner b p f) ∙ e) in
      subst (λ c. find_pipe s.dispatcher c ≡ some p) same f

  pub asked-IsAnswerFor :
      (a : Bytes) (p : ℕ) (r : Reaction)
      → get_elem? (asked_ids s.history) p ≡ some a
      → s.dispatcher.answers p ≡ some (value (some r))
      → IsAnswerFor a r
  asked-IsAnswerFor a p r e f =
      let (b, g, fits) = (Inv-Correlated v).answered p r f in
      subst (λ c. IsAnswerFor c r) (some_inj (sym g ∙ e)) fits

  -- The next pipe is that of the next action.
  pub asked-next :
      (a : Bytes)
      → get_elem? (asked_ids (s.history ++ asked a ∷ [])) s.dispatcher.next_pipe ≡ some a
  asked-next a =
      rw (asked_ids-append s.history (asked a ∷ []), sym (Inv-Correlated v).counted)
        (get_elem?-length (asked_ids s.history) a)
