-- ===== src/Prelude/Splitting.antt =====
-- The methods of JavaScript strings that the sources use, on texts as lists of characters.
use native.Mathlib.Omega.{arith}
use mathlib.Core.Path.{◌≡◌, ap}
use mihver.Prelude.Texts.{codes}
use Prim.Native.Nat.{ℕ, zero, suc, ◌+◌}
use Prim.Native.Char.{Char, code}
use Prim.Native.String.{String}
use mathlib.Core.Bool.{Bool, true, false, ◌&&◌, ◌||◌}
use mathlib.Core.Option.{Option, none, some, some-injective}
use mathlib.Core.List.{List, [], ◌∷◌, ◌++◌}
use text.Mathlib.Text.{◌==◌}
use mihver.Prelude.Tests.{leb, eqb, if◌then◌else◌, eqb_iff}

-- White space and line terminators, as `trim` and `\s` take them.
unfoldable pub is_space : ℕ → Bool
is_space c =
    leb 9 c && leb c 13
    || eqb c 0x20
    || eqb c 0xa0
    || eqb c 0x1680
    || leb 0x2000 c && leb c 0x200a
    || eqb c 0x2028
    || eqb c 0x2029
    || eqb c 0x202f
    || eqb c 0x205f
    || eqb c 0x3000
    || eqb c 0xfeff

unfoldable pub trim_start : String → String
unfolding is_space
trim_start String.[] = ""
trim_start (String.◌∷◌ c s) =
    let rest = trim_start s in if is_space (code c) then rest else String.◌∷◌ c s

unfoldable pub is_empty : String → Bool
is_empty String.[] = true
is_empty (String.◌∷◌ c s) = false

unfoldable pub trim_end : String → String
unfolding is_space
trim_end String.[] = ""
trim_end (String.◌∷◌ c s) =
    let rest = trim_end s in if is_space (code c) && is_empty rest then "" else String.◌∷◌ c rest

unfoldable pub trim : String → String
trim s = trim_end (trim_start s)

-- The text before the first character with the code, and the text behind it.
unfoldable pub cut : ℕ → String → String × Option String
cut c String.[] = ("", none)
cut c (String.◌∷◌ d s) =
    let (head, tail) = cut c s in if eqb (code d) c then ("", some s) else (String.◌∷◌ d head, tail)

prefixed : Char → List String → List String
prefixed c [] = String.◌∷◌ c "" ∷ []
prefixed c (s ∷ rest) = String.◌∷◌ c s ∷ rest

-- `split` at each character with the code
unfoldable pub split : ℕ → String → List String
unfolding prefixed
split c String.[] = "" ∷ []
split c (String.◌∷◌ d s) =
    let rest = split c s in if eqb (code d) c then "" ∷ rest else prefixed d rest

-- The text without a prefix, if it has it.
unfoldable pub strip_prefix : String → String → Option String
strip_prefix String.[] s = some s
strip_prefix (String.◌∷◌ p ps) String.[] = none
strip_prefix (String.◌∷◌ p ps) (String.◌∷◌ c s) =
    let rest = strip_prefix ps s in if eqb (code p) (code c) then rest else none

-- The text without a suffix, if it has it.
unfoldable pub strip_suffix : String → String → Option String
strip_suffix suffix String.[] = if suffix == "" then some "" else none
strip_suffix suffix (String.◌∷◌ c s) =
    let rest = strip_suffix suffix s in
    if String.◌∷◌ c s == suffix
    then some ""
    else elim rest [ none ↦ none | some t ↦ some (String.◌∷◌ c t) ]

-- Whether a character with the code occurs.
unfoldable pub has_code : ℕ → String → Bool
has_code c String.[] = false
has_code c (String.◌∷◌ d s) = eqb (code d) c || has_code c s

-- `slice(n)`
unfoldable pub drop_chars : ℕ → String → String
drop_chars zero s = s
drop_chars (suc n) String.[] = ""
drop_chars (suc n) (String.◌∷◌ c s) = drop_chars n s

-- The text behind the last occurrence of a marker.
unfoldable pub after_last : String → String → Option String
unfolding strip_prefix
after_last marker String.[] = strip_prefix marker ""
after_last marker (String.◌∷◌ c s) = elim (after_last marker s) [
  | some rest ↦ some rest
  | none ↦ strip_prefix marker (String.◌∷◌ c s)
]

-- `includes` of a text
unfoldable pub has_text : String → String → Bool
unfolding strip_prefix
has_text needle String.[] = elim (strip_prefix needle "") [ none ↦ false | some r ↦ true ]
has_text needle (String.◌∷◌ c s) = elim (strip_prefix needle (String.◌∷◌ c s)) [
  | none ↦ has_text needle s
  | some r ↦ true
]

lower_code : ℕ → ℕ
lower_code c = if leb b'A' c && leb c b'Z' then c + 32 else c

-- The code points of a text, its ASCII letters in lower case.
unfoldable pub lower_codes : String → List ℕ
unfolding lower_code
lower_codes String.[] = []
lower_codes (String.◌∷◌ c s) = lower_code (code c) ∷ lower_codes s

begins : List ℕ → List ℕ → Bool
begins [] cs = true
begins (p ∷ ps) [] = false
begins (p ∷ ps) (c ∷ cs) = let rest = begins ps cs in if eqb p c then rest else false

-- Whether a list of codes occurs in another.
unfoldable pub occurs : List ℕ → List ℕ → Bool
unfolding begins
occurs needle [] = begins needle []
occurs needle (c ∷ cs) = begins needle (c ∷ cs) || occurs needle cs

-- `split` at each character of a kind, without the empty texts
unfoldable pub words : (ℕ → Bool) → String → List String
unfolding prefixed is_empty
words p s = drop_empty (fields p s)
  where
    fields : (ℕ → Bool) → String → List String
    fields p String.[] = "" ∷ []
    fields p (String.◌∷◌ d s) =
        let rest = fields p s in if p (code d) then "" ∷ rest else prefixed d rest

    drop_empty : List String → List String
    drop_empty [] = []
    drop_empty (w ∷ ws) = let rest = drop_empty ws in if is_empty w then rest else w ∷ rest

-- What a prefix is stripped of is the prefix followed by the rest.
pub strip_prefix-codes :
    (p s rest : String) → strip_prefix p s ≡ some rest → codes s ≡ codes p ++ codes rest
unfolding strip_prefix codes
strip_prefix-codes String.[] s rest h = ap codes (some-injective s rest h)
strip_prefix-codes (String.◌∷◌ p ps) String.[] rest h = absurd (ground arith)
strip_prefix-codes (String.◌∷◌ p ps) (String.◌∷◌ c s) rest h =
    ground (arith, eqb_iff (code p) (code c), strip_prefix-codes ps s rest)
