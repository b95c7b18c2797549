-- ===== src/Common/Text.antt =====
-- Python's str, read as its code points: `strip`, `lower`, `replace`, `split`, `endswith`, and
-- the order by code points.
use Prim.Native.Char.{code}
use Prim.Native.Nat.{ℕ, ◌+◌}
use Prim.Native.String.{◌++◌, String}
use mathlib.Core.Bool.{Bool, true, false, ◌&&◌, ◌||◌}
use mathlib.Core.List.{List, [], ◌∷◌, reverse}
use zworkbench.Common.Tests.{ltb, leb, nat_eq, if◌then◌else◌}

-- `String` has its own `[]` and `∷`.
abbrev pub codes : String → List ℕ
codes String.[] = []
codes (String.◌∷◌ c s) = code c ∷ codes s

abbrev between : ℕ → ℕ → ℕ → Bool
between lo hi c = leb lo c && leb c hi

-- The characters that `str.strip` removes.
unfoldable pub is_space : ℕ → Bool
is_space c =
    between 9 13 c
    || between 28 32 c
    || nat_eq c 0x85
    || nat_eq c 0xa0
    || nat_eq c 0x1680
    || between 0x2000 0x200a c
    || nat_eq c 0x2028
    || nat_eq c 0x2029
    || nat_eq c 0x202f
    || nat_eq c 0x205f
    || nat_eq c 0x3000

all_space : List ℕ → Bool
all_space [] = true
all_space (c ∷ cs) = is_space c && all_space cs

-- `not value.strip()`
unfoldable pub is_blank : String → Bool
unfolding all_space is_space
is_blank s = all_space (codes s)

unfoldable pub is_digit : ℕ → Bool
is_digit c = between b'0' b'9' c

unfoldable pub is_upper : ℕ → Bool
is_upper c = between b'A' b'Z' c

unfoldable pub is_alnum : ℕ → Bool
unfolding is_digit is_upper
is_alnum c = is_digit c || is_upper c || between b'a' b'z' c

-- `str.lower` as far as it can yield an ASCII letter: the capitals, and the Kelvin sign.
unfoldable pub to_lower : ℕ → ℕ
unfolding is_upper
to_lower c = if is_upper c then c + 32 else if nat_eq c 0x212a then b'k' else c

unfoldable pub is_prefix : List ℕ → List ℕ → Bool
is_prefix [] t = true
is_prefix (c ∷ cs) [] = false
is_prefix (c ∷ cs) (d ∷ ds) = nat_eq c d && is_prefix cs ds

unfoldable pub same_codes : List ℕ → List ℕ → Bool
same_codes [] [] = true
same_codes [] (d ∷ ds) = false
same_codes (c ∷ cs) [] = false
same_codes (c ∷ cs) (d ∷ ds) = nat_eq c d && same_codes cs ds

-- `t.endswith(s)`
unfoldable pub ends_with : List ℕ → List ℕ → Bool
unfolding is_prefix
ends_with t s = is_prefix (reverse s) (reverse t)

split_from : ℕ → List ℕ → List ℕ → List (List ℕ)
split_from sep part [] = reverse part ∷ []
split_from sep part (c ∷ cs) = elim (nat_eq c sep) [
  | true ↦ reverse part ∷ split_from sep [] cs
  | false ↦ split_from sep (c ∷ part) cs
]

-- `t.split(sep)` at one character
unfoldable pub split : ℕ → List ℕ → List (List ℕ)
unfolding split_from
split sep t = split_from sep [] t

unfoldable pub codes_lt : List ℕ → List ℕ → Bool
codes_lt [] [] = false
codes_lt [] (d ∷ ds) = true
codes_lt (c ∷ cs) [] = false
codes_lt (c ∷ cs) (d ∷ ds) = ltb c d || (nat_eq c d && codes_lt cs ds)

-- The order of Python's `sorted` on texts, which is that of SQLite on their UTF-8 bytes.
unfoldable pub text_lt : String → String → Bool
unfolding codes_lt
text_lt s t = codes_lt (codes s) (codes t)

-- One text after another.
abbrev pub joined : String → String → String
joined s t = s ++ t
