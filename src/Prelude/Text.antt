-- ===== src/Prelude/Text.antt =====
-- Code points of a text, and the character classes that the code uses.
use Prim.Native.Nat.{ℕ, compare, Ordering}
use Prim.Native.Char.{Char, code}
use Prim.Native.String.{String}
use mathlib.Core.Bool.{Bool, true, false, ◌&&◌, ◌||◌}
use mathlib.Core.List.{List, [], ◌∷◌}

abbrev pub codes : String → List ℕ
codes String.[] = []
codes (String.◌∷◌ c s) = code c ∷ codes s

abbrev between : ℕ → ℕ → ℕ → Bool
between lo hi c =
    elim (compare c lo) [ Ordering.lt ↦ false | _ ↦ true ]
    && elim (compare c hi) [ Ordering.gt ↦ false | _ ↦ true ]

abbrev pub is_code : ℕ → ℕ → Bool
is_code a b = elim (compare a b) [ Ordering.eq ↦ true | _ ↦ false ]

-- `str.isspace`, and `\s` of a regular expression on text.
unfoldable pub is_space : ℕ → Bool
is_space c =
    between 9 13 c
    || between 28 32 c
    || is_code c 0x85
    || is_code c 0xa0
    || is_code c 0x1680
    || between 0x2000 0x200a c
    || between 0x2028 0x2029 c
    || is_code c 0x202f
    || is_code c 0x205f
    || is_code c 0x3000

abbrev pub empty_text : String → Bool
empty_text String.[] = true
empty_text (String.◌∷◌ c s) = false

abbrev push_unless : Bool → Char → String → String
push_unless true c s = String.[]
push_unless false c s = String.◌∷◌ c s

-- `str.rstrip()`
unfoldable pub rstrip : String → String
unfolding is_space
rstrip String.[] = String.[]
rstrip (String.◌∷◌ c s) =
    let rest = rstrip s in push_unless (empty_text rest && is_space (code c)) c rest

-- `str.strip()`
unfoldable pub lstrip : String → String
unfolding is_space
lstrip String.[] = String.[]
lstrip (String.◌∷◌ c s) =
    let rest = lstrip s in elim (is_space (code c)) [ true ↦ rest | false ↦ String.◌∷◌ c s ]

unfoldable pub strip : String → String
unfolding lstrip rstrip
strip s = lstrip (rstrip s)
