-- ===== src/Example/Runs.antt =====
-- What a piece of the example asks of the connection.
use cppami.Example
use cppami.Example.{Request, Console, Shell, go_on, ◌>>=◌, new, print, request}
use cppami.Outcome.{Result, ok, err}
use cppami.Prelude.{List, [], ◌∷◌, ◌++◌, ◌≡◌, refl, sym, ap, ◌∙◌, map}
use mathlib.Core.List.{append_assoc, append-nil, map-append}
use cppami.Text.{Bytes}

-- The kind of a request, with the name of its action.
pub data Kind : Type 0 where
  adding : Kind
  invoking sending : Bytes → Kind

abbrev pub kind : Request → Kind
kind Example.added_callback = adding
kind (Example.invoked a) = invoking a.action
kind (Example.sent a) = sending a.action

abbrev pub kinds : List Request → List Kind
kinds = map kind

abbrev pub IsPrefix : List Kind → List Kind → Type 0
IsPrefix ks script = (rest : List Kind) × (script ≡ ks ++ rest)

-- From the console `c` on, the requests follow the script, as far as they come; at an end without
-- an exception they are the whole script, and the result is as `Q` says. If nothing goes wrong,
-- as `G` says, then there is such an end.
pub record Ends {A : Type 0} (G : Type 0) (script : List Kind) (Q : A → Type 0) (c : Console)
    (end : Result A × Console) : Type 0 where
  pub made : List Request
  pub longer : end.1.requests ≡ c.requests ++ made
  pub follows : IsPrefix (kinds made) script
  pub complete : (x : A) → end.0 ≡ ok x → (kinds made ≡ script) × Q x
  pub total : G → (x : A) × (end.0 ≡ ok x)

abbrev pub Runs : {A : Type 0} → Type 0 → List Kind → (A → Type 0) → Shell A → Type 0
Runs G script Q p = (c : Console) → Ends G script Q c (p c)

module _ {A B : Type 0} {G : Type 0} {Q : A → Type 0} {R : B → Type 0} where
  go_on-Ends :
      (ns ms : List Kind) (next : A → Shell B) (c : Console) (r : Result A) (d : Console)
      → Ends G ns Q c (r, d)
      → ((x : A) → Q x → Runs G ms R (next x))
      → Ends G (ns ++ ms) R c (go_on next r d)
  go_on-Ends ns ms next c (err e) d h g = record {
    made = h.made;
    longer = h.longer;
    follows =
        let (rest, same) = h.follows in
        (rest ++ ms, ap (λ l. l ++ ms) same ∙ append_assoc (kinds h.made) rest ms);
    complete = λ x same. absurd cc;
    total = λ good. let (x, same) = h.total good in absurd cc;
  }
  go_on-Ends ns ms next c (ok x) d h g =
      let (whole, own) = h.complete x refl in
      let k = g x own d in
      record {
        made = h.made ++ k.made;
        longer = k.longer ∙ ap (λ l. l ++ k.made) h.longer ∙ append_assoc c.requests h.made k.made;
        follows =
            let (rest, same) = k.follows in
            (
              rest,
              ap (◌++◌ ns) same
                  ∙ sym (append_assoc ns (kinds k.made) rest)
                  ∙ ap (λ l. l ++ rest)
                      (ap (λ l. l ++ kinds k.made) (sym whole)
                        ∙ sym (map-append kind h.made k.made)),
            );
        complete = λ y same.
            let (all, last) = k.complete y same in
            (
              map-append kind h.made k.made ∙ ap (λ l. l ++ kinds k.made) whole ∙ ap (◌++◌ ns) all,
              last,
            );
        total = λ good. k.total good;
      }

  pub bind-Runs :
      (ns ms : List Kind) {p : Shell A} {next : A → Shell B}
      → Runs G ns Q p
      → ((x : A) → Q x → Runs G ms R (next x))
      → Runs G (ns ++ ms) R (p >>= next)
  unfolding ◌>>=◌
  bind-Runs ns ms {p} {next} h g c = go_on-Ends ns ms next c (p c).0 (p c).1 (h c) g

  -- A piece whose result is not used.
  pub then-Runs :
      (ns ms : List Kind) {p : Shell A} {next : Shell B}
      → Runs G ns Q p
      → Runs G ms R next
      → Runs G (ns ++ ms) R (p >>= λ _. next)
  then-Runs ns ms h k = bind-Runs ns ms h (λ _ _. k)

module _ {A : Type 0} {G : Type 0} where
  pub new-Runs : (r : Result A) → (G → (x : A) × (r ≡ ok x)) → Runs G [] (λ x. r ≡ ok x) (new r)
  new-Runs r h c = record {
    made = [];
    longer = sym (append-nil c.requests);
    follows = ([], refl);
    complete = λ x same. (refl, same);
    total = h;
  }

  pub request-Runs :
      {Q : A → Type 0} (q : Request) (answer : List Request → Result A)
      → ((before : List Request) → (x : A) → answer before ≡ ok x → Q x)
      → ((before : List Request) → G → (x : A) × (answer before ≡ ok x))
      → Runs G (kind q ∷ []) Q (request q answer)
  request-Runs q answer fits h c = record {
    made = q ∷ [];
    longer = refl;
    follows = ([], refl);
    complete = λ x same. (refl, fits c.requests x same);
    total = h c.requests;
  }

pub print-Runs : {G : Type 0} (text : Bytes) → Runs G [] (λ x. Unit {0}) (print text)
print-Runs text c = record {
  made = [];
  longer = sym (append-nil c.requests);
  follows = ([], refl);
  complete = λ x same. (refl, tt);
  total = λ good. (tt, refl);
}

-- What is known of the result may be less.
pub weaken-Runs :
    {A : Type 0} {G : Type 0} {ns : List Kind} {Q R : A → Type 0} {p : Shell A}
    → ((x : A) → Q x → R x)
    → Runs G ns Q p
    → Runs G ns R p
weaken-Runs f h c =
    let k = h c in
    record {
      made = k.made;
      longer = k.longer;
      follows = k.follows;
      complete = λ x same. let (whole, own) = k.complete x same in (whole, f x own);
      total = k.total;
    }
