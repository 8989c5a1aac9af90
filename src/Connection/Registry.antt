-- ===== src/Connection/Registry.antt =====
-- The callbacks that an application has registered, and the calls of an event up to their order:
-- the order in which src/Connection.cpp walks its map is not seen.
use mathlib.Core.Quot
use mathlib.Core.Quot.{Quot}
use mathlib.Core.List.{Perm}
use cppami.Connection.{Connection, dispatch_handler, add_callback, remove_callback}
use cppami.Prelude.{ℕ, ◌≡◌, refl, sym, ap, subst, ◌∙◌, Option, none, some, List, [], ◌∷◌, ite}
use cppami.Reaction.{Event}
use cppami.Text.{Bytes, bytes_discrete}
use cppami.UnorderedMap.{find}
use cppami.UnorderedMap.Contents.{SameContents-Permᴰ, map-Permᴰ}
use cppami.UnorderedMap.Laws.{
  AreUnique, or_else, find-emplace, find-erase, emplace-AreUnique, erase-AreUnique,
}

pub data Change : Type 0 where
  added : Bytes → ℕ → Change
  removed : Bytes → Change

abbrev change : Connection → Change → Connection
change c (added id callback) = (add_callback c id callback).1
change c (removed key) = remove_callback c key

abbrev pub changes : Connection → List Change → Connection
changes c [] = c
changes c (x ∷ xs) = changes (change c x) xs

-- The callbacks that are registered, by their ids.
abbrev pub Registry : Type 0
Registry = Bytes → Option ℕ

abbrev register : Registry → Change → Registry
register r (added id callback) key =
    ite (bytes_discrete id key) (or_else (r key) (some callback)) (r key)
register r (removed id) key = ite (bytes_discrete id key) none (r key)

abbrev pub registered : Registry → List Change → Registry
registered r [] = r
registered r (x ∷ xs) = registered (register r x) xs

abbrev registry : Connection → Registry
registry c key = find bytes_discrete key c.callbacks

abbrev IsUnique : Connection → Type 0
IsUnique c = AreUnique bytes_discrete c.callbacks

change-IsUnique : (c : Connection) (x : Change) → IsUnique c → IsUnique (change c x)
unfolding add_callback remove_callback
change-IsUnique c (added id callback) u = emplace-AreUnique bytes_discrete id callback c.callbacks u
change-IsUnique c (removed key) u = erase-AreUnique bytes_discrete key c.callbacks u

change-register : (c : Connection) (x : Change) → registry (change c x) ≡ register (registry c) x
unfolding add_callback remove_callback
change-register c (added id callback) =
    λ i key. find-emplace bytes_discrete id key callback c.callbacks i
change-register c (removed id) = λ i key. find-erase bytes_discrete id key c.callbacks i

changes-registered :
    (c : Connection) (xs : List Change)
    → IsUnique c
    → IsUnique (changes c xs) × (registry (changes c xs) ≡ registered (registry c) xs)
changes-registered c [] u = (u, refl)
changes-registered c (x ∷ xs) u =
    let (w, e) = changes-registered (change c x) xs (change-IsUnique c x u) in
    (w, e ∙ ap (λ r. registered r xs) (change-register c x))

abbrev pub no_callbacks : Registry
no_callbacks key = none

from_new :
    (c : Connection) (xs : List Change)
    → c.callbacks ≡ []
    → IsUnique (changes c xs) × (registry (changes c xs) ≡ registered no_callbacks xs)
unfolding find
from_new c xs new =
    let (u, r) = changes-registered c xs (subst (AreUnique bytes_discrete) (sym new) tt) in
    (u, r ∙ ap (λ s. registered s xs) (ap (λ m key. find bytes_discrete key m) new))

-- The calls of an event, in no order.
abbrev pub Calls : Type 0
Calls = Quot (Perm {A = ℕ × Event})

abbrev pub calls : Connection → Event → Calls
calls c e = Quot.mk (dispatch_handler c e)

calls-registry :
    (c c' : Connection) (e : Event)
    → IsUnique c
    → IsUnique c'
    → registry c ≡ registry c'
    → calls c e ≡ calls c' e
unfolding dispatch_handler
calls-registry c c' e u w same =
    let entries =
      SameContents-Permᴰ bytes_discrete c.callbacks c'.callbacks u w (λ k. ap (λ r. r k) same) in
    Quot.sound ∣ map-Permᴰ (λ entry. (entry.1, e)) entries ∣₁

-- On a connection that began without callbacks, which callbacks an event is given to, and how often,
-- is decided by the callbacks that are registered at that moment under their ids, and by nothing
-- else: not by the order in which they came and went, nor by the order in which the map keeps them.
pub dispatch_handler-registered :
    (c c' : Connection) (xs ys : List Change) (e : Event)
    → c.callbacks ≡ []
    → c'.callbacks ≡ []
    → ((key : Bytes) → registered no_callbacks xs key ≡ registered no_callbacks ys key)
    → calls (changes c xs) e ≡ calls (changes c' ys) e
dispatch_handler-registered c c' xs ys e new new' same =
    let (u, r) = from_new c xs new in
    let (w, r') = from_new c' ys new' in
    calls-registry (changes c xs) (changes c' ys) e u w (r ∙ (λ i key. same key i) ∙ sym r')
