-- ===== src/Text.antt =====
-- `std::string` as the sources use it: a sequence of bytes with `find`, `substr` and `erase`, and
-- the separators of include/c++ami/CppAmiDefs.h.
pub mod Search
pub mod Pairs
use Prim.Native.Char.{code}
use Prim.Native.String.{String}
use mathlib.Core.Option
use cppami.Prelude.{
  ℕ, zero, suc, ◌+◌, ◌-◌, ◌^◌, Bool, true, false, ◌&&◌, Option, none, some, List, [], ◌∷◌, ◌==◌,
  if◌then◌else◌, take, drop, ℕ_discrete,
}

abbrev pub Bytes : Type 0
Bytes = List ℕ

-- The bytes of an ASCII literal.
abbrev pub codes : String → Bytes
codes String.[] = []
codes (String.◌∷◌ c s) = code c ∷ codes s

abbrev pub eom : Bytes
eom = b'\r' ∷ b'\n' ∷ b'\r' ∷ b'\n' ∷ []

abbrev pub eor : Bytes
eor = b'\r' ∷ b'\n' ∷ []

abbrev pub sep : Bytes
sep = b':' ∷ b' ' ∷ []

unfoldable pub bytes_discrete : Discrete Bytes
unfolding ℕ_discrete
bytes_discrete = hlevel ℕ_discrete

-- `a == b` on strings.
abbrev pub same : Bytes → Bytes → Bool
same a b = elim (bytes_discrete a b) [ yes _ ↦ true | no _ ↦ false ]

unfoldable pub starts_with : Bytes → Bytes → Bool
starts_with [] s = true
starts_with (c ∷ p) [] = false
starts_with (c ∷ p) (d ∷ s) = c == d && starts_with p s

-- The first place of `p` in `s`.
unfoldable pub index_of : Bytes → Bytes → Option ℕ
unfolding starts_with
index_of p [] = if starts_with p [] then some 0 else none
index_of p (c ∷ s) = if starts_with p (c ∷ s) then some 0 else Option.map suc (index_of p s)

-- `s.find(p, pos)`; `none` is `npos`.
abbrev pub find : Bytes → Bytes → ℕ → Option ℕ
find s p pos = Option.map (λ i. pos + i) (index_of p (drop pos s))

-- `s.substr(pos, count)` for a `pos` inside `s`.
abbrev pub substr : Bytes → ℕ → ℕ → Bytes
substr s pos count = take count (drop pos s)

-- The range of `size_t`, and `std::string::npos`, its largest value.
abbrev pub size_mod : ℕ
size_mod = 2 ^ 64

abbrev pub npos : ℕ
npos = size_mod - 1
