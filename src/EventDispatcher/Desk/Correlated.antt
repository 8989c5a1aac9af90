-- ===== src/EventDispatcher/Desk/Correlated.antt =====
-- Each pipe is answered with what carries the id of the action that it was handed out for: the steps of the desk.
use cppami.EventDispatcher.Desk.{
  Slot, idle, waiting, collecting, Desk, put, give, note, shut, begin, collect, reply, hear,
}
use cppami.EventDispatcher.Steps.{begins_list}
use cppami.EventDispatcher.{Reaction, Answer, value, exception, update}
use cppami.EventList
use cppami.EventList.{EventList, completes}
use cppami.KeyValDict.{KeyValDict, get_value}
use cppami.Outcome.{broken_promise}
use cppami.Prelude.{
  ℕ, suc, ◌≡◌, inl, inr, refl, subst, ◌∙◌, Option, none, some, List, [], ◌∷◌, ◌++◌, arith,
  Bool-cases, length, length-append, get_elem?, get_elem?-append, get_elem?-length, ℕ_discrete,
}
use cppami.Reaction.{Event}
use cppami.Text.{Bytes, bytes_discrete, codes}
use cppami.EventDispatcher.Desk.Asked.{IsFor, AreFor, IsListFor, IsAnswerFor, IsEmptyHanded}

answer_inj : {q r : Reaction} → value (some q) ≡ value (some r) → q ≡ r
answer_inj h = cc

some_inj : {e f : Event} → some e ≡ some f → e ≡ f
some_inj h = cc

AreFor-snoc :
    (a : Bytes) (es : List Event) (dict : KeyValDict)
    → AreFor a es
    → IsFor a dict
    → AreFor a (es ++ record { dict = dict } ∷ [])
AreFor-snoc a [] dict h own = (own, tt)
AreFor-snoc a (e ∷ es) dict (f, h) own = (f, AreFor-snoc a es dict h own)

pub record Correlated (asked : List Bytes) (k : Desk) : Type 0 where
  pub counted : length asked ≡ k.next_pipe
  pub waits : (a : Bytes) (p : ℕ) → k.slot a ≡ waiting p → get_elem? asked p ≡ some a
  pub collects :
      (a : Bytes) (p : ℕ) (l : EventList)
      → k.slot a ≡ collecting p l
      → (get_elem? asked p ≡ some a) × IsListFor a l
  pub answered :
      (p : ℕ) (r : Reaction)
      → k.answers p ≡ some (value (some r))
      → (a : Bytes) × (get_elem? asked p ≡ some a) × IsAnswerFor a r

module _ {asked : List Bytes} {k : Desk} (v : Correlated asked k) where
  give-Correlated :
      (a : Bytes) (p : ℕ) (x : Answer)
      → get_elem? asked p ≡ some a
      → ((r : Reaction) → x ≡ value (some r) → IsAnswerFor a r)
      → Correlated asked (give a p x k)
  give-Correlated a p x owner fits = record {
    counted = v.counted;
    waits = λ b q e. ground (arith, e, v.waits b q);
    collects = λ b q l e. elim (bytes_discrete a b) [
      | yes here ↦ absurd (ground (arith, here, e))
      | no other ↦ v.collects b q l (ground (arith, other, e))
    ];
    answered = λ q r e. elim (ℕ_discrete p q) [
      | yes here ↦
          (a, subst (λ i. get_elem? asked i ≡ some a) here owner, fits r (ground (arith, here, e)))
      | no other ↦ v.answered q r (ground (arith, other, e))
    ];
  }

  put-Correlated :
      (a : Bytes) (p : ℕ) (l : EventList)
      → get_elem? asked p ≡ some a
      → IsListFor a l
      → Correlated asked (record k { slot = put a (collecting p l) k.slot })
  put-Correlated a p l owner fits = record {
    counted = v.counted;
    waits = λ b q e. ground (arith, e, v.waits b q);
    collects = λ b q m e. elim (bytes_discrete a b) [
      | yes here ↦
          let same : collecting p l ≡ collecting q m = ground (arith, here, e) in
          let at : p ≡ q = cc in
          let lists : l ≡ m = cc in
          subst (λ c. (get_elem? asked q ≡ some c) × IsListFor c m) here
            (subst (λ i. get_elem? asked i ≡ some a) at owner, subst (IsListFor a) lists fits)
      | no other ↦ v.collects b q m (ground (arith, other, e))
    ];
    answered = v.answered;
  }

  note-Correlated : (dict : KeyValDict) → Correlated asked (note dict k)
  note-Correlated dict = record {
    counted = v.counted;
    waits = v.waits;
    collects = v.collects;
    answered = v.answered;
  }

  begin-Correlated :
      (a : Bytes) (p : ℕ) (dict : KeyValDict)
      → get_elem? asked p ≡ some a
      → IsFor a dict
      → Correlated asked (begin a p dict k)
  unfolding EventList.from_dict
  begin-Correlated a p dict owner own = elim (Bool-cases (begins_list dict)) [
    | inr single ↦ rw single (
        give-Correlated a p _ owner
          (λ r e. let same = answer_inj e in subst (IsAnswerFor a) same own))
    | inl list ↦ elim (Bool-cases (EventList.is_success (EventList.from_dict dict))) [
      | inl good ↦ rw (list, good) (put-Correlated a p _ owner (own, tt, λ e h. cc))
      | inr bad ↦
          rw (list, bad)
            (give-Correlated a p _ owner
              (λ r e. subst (IsAnswerFor a) (answer_inj e) (own, tt, λ e h. cc)))
    ]
  ]

  collect-Correlated :
      (a : Bytes) (p : ℕ) (l : EventList) (dict : KeyValDict)
      → get_elem? asked p ≡ some a
      → IsListFor a l
      → IsFor a dict
      → Correlated asked (collect a p (EventList.add_dict l dict) k)
  unfolding EventList.add_dict EventList.add_event
  collect-Correlated a p l dict owner (head, items, last) own =
      elim (Bool-cases (completes (record { dict = dict }))) [
        | inl done ↦ rw done (
            give-Correlated a p _ owner (λ r e.
              subst (IsAnswerFor a) (answer_inj e)
                (head, items, λ f h. subst (λ (g : Event). IsFor a g.dict) (some_inj h) own)))
        | inr more ↦
            rw more (put-Correlated a p _ owner (head, AreFor-snoc a l.events dict items own, last))
      ]

  reply-Correlated :
      (a : Bytes) (dict : KeyValDict) (s : Slot)
      → k.slot a ≡ s
      → IsFor a dict
      → Correlated asked (reply a dict k s)
  reply-Correlated a dict idle e own = note-Correlated dict
  reply-Correlated a dict (waiting p) e own = begin-Correlated a p dict (v.waits a p e) own
  reply-Correlated a dict (collecting p l) e own =
      let (owner, fits) = v.collects a p l e in collect-Correlated a p l dict owner fits own

  pub hear-Correlated :
      (dict : KeyValDict) (id : Option Bytes)
      → get_value dict (codes "ActionID") ≡ id
      → Correlated asked (hear dict k id)
  hear-Correlated dict none e = note-Correlated dict
  hear-Correlated dict (some a) e = reply-Correlated a dict (k.slot a) refl e

  pub shut-Correlated :
      (a : Bytes) (x : Answer) (s : Slot)
      → k.slot a ≡ s
      → IsEmptyHanded x
      → Correlated asked (shut a x k s)
  shut-Correlated a x idle e h = v
  shut-Correlated a x (waiting p) e h =
      give-Correlated a p x (v.waits a p e) (λ r same. absurd (subst IsEmptyHanded same h))
  shut-Correlated a x (collecting p l) e h =
      give-Correlated a p x (v.collects a p l e).0 (λ r same. absurd (subst IsEmptyHanded same h))

  -- One action more is asked for.
  pub broken-Correlated :
      (a : Bytes)
      → Correlated (asked ++ a ∷ []) (record k {
        next_pipe = suc k.next_pipe;
        answers = update k.answers k.next_pipe (exception broken_promise);
      })
  broken-Correlated a = record {
    counted = omega (arith, v.counted, length-append asked (a ∷ []));
    waits = λ b p e. get_elem?-append asked (a ∷ []) p b (v.waits b p e);
    collects = λ b p l e.
        let (owner, fits) = v.collects b p l e in (get_elem?-append asked (a ∷ []) p b owner, fits);
    answered = λ p r e. elim (ℕ_discrete k.next_pipe p) [
      | yes here ↦ absurd (ground (arith, here, e))
      | no other ↦
          let (b, owner, fits) = v.answered p r (ground (arith, other, e)) in
          (b, get_elem?-append asked (a ∷ []) p b owner, fits)
    ];
  }

  pub first-Correlated :
      (a : Bytes)
      → Correlated
          (asked ++ a ∷ [])
          (record k { slot = put a (waiting k.next_pipe) k.slot; next_pipe = suc k.next_pipe })
  first-Correlated a = record {
    counted = omega (arith, v.counted, length-append asked (a ∷ []));
    waits = λ b p e. elim (bytes_discrete a b) [
      | yes here ↦
          let same : waiting k.next_pipe ≡ waiting p = ground (arith, here, e) in
          let at : k.next_pipe ≡ p = cc in
          subst (λ c. get_elem? (asked ++ a ∷ []) p ≡ some c) here
            (subst (λ i. get_elem? (asked ++ a ∷ []) i ≡ some a) (v.counted ∙ at)
              (get_elem?-length asked a))
      | no other ↦ get_elem?-append asked (a ∷ []) p b (v.waits b p (ground (arith, other, e)))
    ];
    collects = λ b p l e. elim (bytes_discrete a b) [
      | yes here ↦ absurd (ground (arith, here, e))
      | no other ↦
          let (owner, fits) = v.collects b p l (ground (arith, other, e)) in
          (get_elem?-append asked (a ∷ []) p b owner, fits)
    ];
    answered = λ p r e.
        let (b, owner, fits) = v.answered p r e in
        (b, get_elem?-append asked (a ∷ []) p b owner, fits);
  }
