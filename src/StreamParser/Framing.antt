-- ===== src/StreamParser/Framing.antt =====
-- The messages of a stream, described without the algorithm: each ends at its first end mark, and
-- the rest holds none.
use mathlib.Core.List.{append_assoc}
use mathlib.Core.Path.{ap₂}
use cppami.Prelude.{
  ◌+◌, ◌≡◌, refl, sym, ap, ◌∙◌, none, some, List, [], ◌∷◌, ◌++◌, arith, length, concat,
  concat-append, length-append, take-append_left, drop-append_left,
}
use cppami.Text.Search.{index_of-append_some}
use cppami.Text.{Bytes, index_of, eom}

pub record IsMessage (m : Bytes) : Type 0 where
  pub body : Bytes
  pub ends : m ≡ body ++ eom
  pub ends_first : index_of eom m ≡ some (length body)

abbrev pub AreMessages : List Bytes → Type 0
AreMessages [] = Unit {0}
AreMessages (m ∷ ms) = IsMessage m × AreMessages ms

pub record Framing (stream : Bytes) (messages : List Bytes) (rest : Bytes) : Type 0 where
  pub whole : stream ≡ concat messages ++ rest
  pub each : AreMessages messages
  pub no_more : index_of eom rest ≡ none

pub AreMessages-append :
    (ms ns : List Bytes) → AreMessages ms → AreMessages ns → AreMessages (ms ++ ns)
AreMessages-append [] ns h k = k
AreMessages-append (m ∷ ms) ns h k = (h.0, AreMessages-append ms ns h.1 k)

pub left-AreMessages : (ms ns : List Bytes) → AreMessages (ms ++ ns) → AreMessages ms
left-AreMessages [] ns h = tt
left-AreMessages (m ∷ ms) ns h = (h.0, left-AreMessages ms ns h.1)

pub right-AreMessages : (ms ns : List Bytes) → AreMessages (ms ++ ns) → AreMessages ns
right-AreMessages [] ns h = h
right-AreMessages (m ∷ ms) ns h = right-AreMessages ms ns h.1

-- A stream that goes on is framed by framing what the first part left over, with the rest behind.
pub Framing-append :
    {s : Bytes} {ms : List Bytes} {left : Bytes} (t : Bytes) {ns : List Bytes} {rest : Bytes}
    → Framing s ms left
    → Framing (left ++ t) ns rest
    → Framing (s ++ t) (ms ++ ns) rest
Framing-append {s} {ms} {left} t {ns} {rest} f g = record {
  whole =
      ap (λ x. x ++ t) f.whole
      ∙ append_assoc (concat ms) left t
      ∙ ap (◌++◌ (concat ms)) g.whole
      ∙ sym (append_assoc (concat ms) (concat ns) rest)
      ∙ ap (λ x. x ++ rest) (sym (concat-append ms ns));
  each = AreMessages-append ms ns f.each g.each;
  no_more = g.no_more;
}

IsMessage-found : (m t : Bytes) (h : IsMessage m) → index_of eom (m ++ t) ≡ some (length h.body)
IsMessage-found m t h = index_of-append_some eom m t (length h.body) h.ends_first

length-IsMessage : (m : Bytes) (h : IsMessage m) → length m ≡ length h.body + 4
length-IsMessage m h = omega (arith, ap length h.ends, length-append h.body eom)

-- Two messages that begin one stream are equal.
head_unique : (m n s t : Bytes) → IsMessage m → IsMessage n → m ++ s ≡ n ++ t → (m ≡ n) × (s ≡ t)
head_unique m n s t hm hn e =
    let same : length m ≡ length n = ground (
      arith,
      IsMessage-found m s hm,
      IsMessage-found n t hn,
      length-IsMessage m hm,
      length-IsMessage n hn,
    ) in
    (
      sym (take-append_left m s) ∙ (rw (e, same) (take-append_left n t)),
      sym (drop-append_left m s) ∙ (rw (e, same) (drop-append_left n t)),
    )

-- What begins with a message holds an end mark.
begins : {m s : Bytes} (x l : Bytes) → index_of eom s ≡ none → IsMessage m → s ≡ (m ++ x) ++ l → ⊥
begins {m} {s} x l miss h e =
    let found = IsMessage-found m (x ++ l) h in
    let whole = e ∙ append_assoc m x l in ground (arith, miss, found, whole)

-- A stream has one framing.
pub Framing-unique :
    (s : Bytes) (ms ns : List Bytes) (l r : Bytes)
    → Framing s ms l
    → Framing s ns r
    → (ms ≡ ns) × (l ≡ r)
Framing-unique s [] [] l r f g = (refl, sym f.whole ∙ g.whole)
Framing-unique s [] (n ∷ ns) l r f g =
    absurd (begins _ _ f.no_more g.each.0 (sym f.whole ∙ g.whole))
Framing-unique s (m ∷ ms) [] l r f g =
    absurd (begins _ _ g.no_more f.each.0 (sym g.whole ∙ f.whole))
Framing-unique s (m ∷ ms) (n ∷ ns) l r f g =
    let (e, tails) =
      head_unique m n (concat ms ++ l) (concat ns ++ r) f.each.0 g.each.0 (
        sym (append_assoc m (concat ms) l)
        ∙ sym f.whole
        ∙ g.whole
        ∙ append_assoc n (concat ns) r) in
    let (es, rests) =
      Framing-unique (concat ms ++ l) ms ns l r
        (record { whole = refl; each = f.each.1; no_more = f.no_more })
        (record { whole = tails; each = g.each.1; no_more = g.no_more }) in
    (ap₂ ◌∷◌ e es, rests)
