-- ===== src/EventDispatcher/Cleanup.antt =====
-- The destructor's `cleanup_object`: the pipes that are left get a null pointer.
use cppami.EventDispatcher.Answers.{Keeps}
use cppami.EventDispatcher.Entries.{IsUnique}
use cppami.EventDispatcher.Invariant.{Inv}
use cppami.EventDispatcher.{
  EventDispatcher, Answer, value, find_pipe, update, satisfy, null_pipes, cleanup_object, is_empty,
}
use cppami.Outcome.{ok, err, assertion}
use cppami.Prelude.{
  ℕ, ◌<◌, ◌≡◌, ◌≢◌, ◌⊎◌, inl, inr, refl, ap, ◌∙◌, true, false, none, some, List, [], ◌∷◌, arith,
  Option-cases, Bool-cases, if◌then◌else◌,
}
use cppami.Text.{Bytes, bytes_discrete}
use cppami.UnorderedMap.{find}
use cppami.UnorderedMap.Laws.{AreUnique}

-- The dispatcher after the pipes of `m` got a null pointer.
record Nulled (m : List (Bytes × ℕ)) (d d' : EventDispatcher) : Type 0 where
  nulled : (k : Bytes) (p : ℕ) → find bytes_discrete k m ≡ some p → d'.answers p ≡ some (value none)
  kept : Keeps d d'
  same_lists : d'.event_map ≡ d.event_map
  same_next : d'.next_pipe ≡ d.next_pipe

nulled_at : EventDispatcher → ℕ → EventDispatcher
nulled_at d p = record d { answers = update d.answers p (value none) }

satisfy_fresh :
    (d : EventDispatcher) (p : ℕ)
    → d.answers p ≡ none
    → satisfy d p (value none) ≡ ok (nulled_at d p)
unfolding satisfy nulled_at
satisfy_fresh d p e = rw (e, satisfy)

answers-nulled_at :
    (d : EventDispatcher) (p q : ℕ)
    → ((nulled_at d p).answers p ≡ some (value none))
      × (p ≢ q → (nulled_at d p).answers q ≡ d.answers q)
unfolding nulled_at
answers-nulled_at d p q = (ground arith, λ ne. ground (arith, ne))

module _ {V : Type 0} (k : Bytes) (p : V) (m : List (Bytes × V)) where
  find-head : find bytes_discrete k ((k, p) ∷ m) ≡ some p
  unfolding find
  find-head = ground arith

  find-tail :
      (j : Bytes) (q : V)
      → find bytes_discrete k m ≡ none
      → find bytes_discrete j m ≡ some q
      → (k ≢ j) × (find bytes_discrete j ((k, p) ∷ m) ≡ some q)
  unfolding find
  find-tail j q n e = (λ same. ground (arith, same, n, e), ground (arith, n, e))

  find_cases :
      (j : Bytes) (q : V)
      → find bytes_discrete j ((k, p) ∷ m) ≡ some q
      → (p ≡ q) ⊎ (find bytes_discrete j m ≡ some q)
  unfolding find
  find_cases j q e = elim (bytes_discrete k j) [
    | yes same ↦ inl (ground (arith, same, e))
    | no differ ↦ inr (ground (arith, differ, e))
  ]

-- No two actions share a pipe.
abbrev Single : List (Bytes × ℕ) → Type 0
Single m =
    (j k : Bytes) (p : ℕ)
    → find bytes_discrete j m ≡ some p
    → find bytes_discrete k m ≡ some p
    → j ≡ k

abbrev Waiting : List (Bytes × ℕ) → EventDispatcher → Type 0
Waiting m d = (k : Bytes) (p : ℕ) → find bytes_discrete k m ≡ some p → d.answers p ≡ none

null_pipes-Nulled :
    (m : List (Bytes × ℕ)) (d : EventDispatcher)
    → AreUnique bytes_discrete m
    → Waiting m d
    → Single m
    → (d' : EventDispatcher) × (null_pipes m d ≡ ok d') × Nulled m d d'
unfolding null_pipes find nulled_at
null_pipes-Nulled [] d unique waiting single = (
  d,
  refl,
  record { nulled = λ k p e. cc; kept = λ q y f. f; same_lists = refl; same_next = refl },
)
null_pipes-Nulled ((k, p) ∷ m) d unique waiting single =
    let waits = waiting k p (find-head k p m) in
    let other = λ (j : Bytes) (q : ℕ) (e : find bytes_discrete j m ≡ some q) (same : p ≡ q).
      let (differ, tail) = find-tail k p m j q unique.0 e in
      differ (single k j q (find-head k p m ∙ ap some same) tail) in
    let (d', ran, n) =
      null_pipes-Nulled m (nulled_at d p) unique.1
        (λ j q e.
          (answers-nulled_at d p q).1 (other j q e)
          ∙ waiting j q (find-tail k p m j q unique.0 e).1)
        (λ i j q e f.
          single i j q (find-tail k p m i q unique.0 e).1 (find-tail k p m j q unique.0 f).1) in
    (
      d',
      rw (satisfy_fresh d p waits) ran,
      record {
        nulled = λ j q e. elim (find_cases k p m j q e) [
          | inl same ↦ rw⁻¹ same (n.kept p (value none) (answers-nulled_at d p p).0)
          | inr tail ↦ n.nulled j q tail
        ];
        kept = λ q y f.
            n.kept q y ((answers-nulled_at d p q).1 (λ same. ground (arith, same, f, waits)) ∙ f);
        same_lists = n.same_lists;
        same_next = n.same_next;
      },
    )

find-is_empty :
    {V : Type 0} (m : List (Bytes × V)) (k : Bytes) (p : V)
    → is_empty m ≡ true
    → find bytes_discrete k m ≢ some p
unfolding find
find-is_empty [] k p e f = cc
find-is_empty (x ∷ m) k p e f = cc

is_empty-find :
    {V : Type 0} (m : List (Bytes × V))
    → ((k : Bytes) (p : V) → find bytes_discrete k m ≢ some p)
    → is_empty m ≡ true
is_empty-find [] none_found = refl
is_empty-find ((k, p) ∷ m) none_found = absurd (none_found k p (find-head k p m))

-- No list is in the making when no caller waits.
no_lists :
    {d : EventDispatcher} → Inv d → is_empty d.promise_map ≡ true → is_empty d.event_map ≡ true
no_lists {d} v e =
    is_empty-find d.event_map
      (λ k l f. let ((p, at), _) = v.working k l f in find-is_empty d.promise_map k p e at)

asserted :
    {d d' : EventDispatcher}
    → Inv d
    → null_pipes d.promise_map d ≡ ok d'
    → d'.event_map ≡ d.event_map
    → cleanup_object false d ≡ (if is_empty d.promise_map then ok d' else err assertion)
unfolding cleanup_object
asserted {d} v ran same = elim (Bool-cases (is_empty d.promise_map)) [
  | inl e ↦ rw (e, ran, same, no_lists v e) refl
  | inr e ↦ rw e refl
]

-- `cleanup_object` of a dispatcher that its calls can lead to. Without assertions it never fails:
-- each caller that still waits gets a null pointer, every pipe ever handed out has an answer then,
-- and the answers that were there stay. With assertions it fails just if a caller still waits.
pub cleanup_object_lem :
    {d : EventDispatcher}
    → Inv d
    → IsUnique d
    → (d' : EventDispatcher) × (cleanup_object true d ≡ ok d')
      × ((a : Bytes) (p : ℕ) → find_pipe d a ≡ some p → d'.answers p ≡ some (value none))
      × ((p : ℕ) → p < d.next_pipe → (x : Answer) × (d'.answers p ≡ some x))
      × Keeps d d'
      × (cleanup_object false d ≡ (if is_empty d.promise_map then ok d' else err assertion))
unfolding cleanup_object
cleanup_object_lem {d} v u =
    let (d', ran, n) =
      null_pipes-Nulled d.promise_map d u (λ k p e. (v.unsatisfied k p e).1)
        (λ j k p e f. v.one_action j k p e f) in
    (
      d',
      rw ran refl,
      n.nulled,
      λ p old. elim (Option-cases (d.answers p)) [
        | inr (x, e) ↦ (x, n.kept p x e)
        | inl none_yet ↦ let (a, e) = v.reachable p old none_yet in (value none, n.nulled a p e)
      ],
      n.kept,
      asserted v ran n.same_lists,
    )
