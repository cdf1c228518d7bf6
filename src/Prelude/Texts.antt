-- ===== src/Prelude/Texts.antt =====
-- Texts: emptiness, membership, the size of a JavaScript `Set`, and the two hash formats.
use Prim.Native.Nat.{ℕ, suc, ◌≤◌}
use Prim.Native.Char.{code}
use Prim.Native.String.{String}
use mathlib.Core.Path.{◌≡◌, refl}
use mathlib.Core.Bool.{Bool, true, false, not, ◌&&◌, ◌||◌}
use mathlib.Core.List.{List, [], ◌∷◌}
use native.Mathlib.Omega.{arith}
use text.Mathlib.Text.{◌==◌, starts_with}
use mihver.Prelude.Tests.{leb, eqb, if◌then◌else◌}
use mihver.Prelude.Lists.{length}

-- `typeof value === "string" && value.length > 0`
unfoldable pub nonempty : String → Bool
nonempty s = not (s == "")

-- `Set#has` and `Array#includes` on texts
unfoldable pub includes : List String → String → Bool
includes [] s = false
includes (x ∷ xs) s = x == s || includes xs s

-- The size of `new Set(xs)`.
unfoldable pub set_size : List String → ℕ
unfolding includes
set_size [] = 0
set_size (x ∷ xs) = let rest = set_size xs in if includes xs x then rest else suc rest

-- The code points of a text.
unfoldable pub codes : String → List ℕ
codes String.[] = []
codes (String.◌∷◌ c s) = code c ∷ codes s

is_hex : ℕ → Bool
is_hex c = leb b'0' c && leb c b'9' || leb b'a' c && leb c b'f'

all_hex : List ℕ → Bool
all_hex [] = true
all_hex (c ∷ cs) = is_hex c && all_hex cs

strip : List ℕ → List ℕ → List ℕ
strip [] cs = cs
strip (p ∷ ps) [] = []
strip (p ∷ ps) (c ∷ cs) = strip ps cs

-- `/^sha256:[0-9a-f]{64}$/`
unfoldable pub is_hash64 : String → Bool
unfolding all_hex is_hex strip codes
is_hash64 s =
    let digits = strip (codes "sha256:") (codes s) in
    starts_with s "sha256:" && eqb (length digits) 64 && all_hex digits

-- `/^[0-9a-f]{40}$/`
unfoldable pub is_hex40 : String → Bool
unfolding all_hex is_hex codes
is_hex40 s = eqb (length (codes s)) 40 && all_hex (codes s)

-- `/^[0-9a-f]{64}$/`
unfoldable pub is_hex64 : String → Bool
unfolding all_hex is_hex codes
is_hex64 s = eqb (length (codes s)) 64 && all_hex (codes s)

pub set_size-le-length : (xs : List String) → set_size xs ≤ length xs
unfolding set_size
set_size-le-length [] = omega arith
set_size-le-length (x ∷ xs) = ground (arith, set_size-le-length xs)

-- The texts are pairwise different.
abbrev pub Distinct : List String → Type 0
Distinct [] = Unit
Distinct (x ∷ xs) = (includes xs x ≡ false) × Distinct xs

pub set_size-Distinct : (xs : List String) → set_size xs ≡ length xs → Distinct xs
unfolding set_size
set_size-Distinct [] h = tt
set_size-Distinct (x ∷ xs) h = ground (arith, set_size-le-length xs, set_size-Distinct xs)

pub Distinct-set_size : (xs : List String) → Distinct xs → set_size xs ≡ length xs
unfolding set_size
Distinct-set_size [] h = refl
Distinct-set_size (x ∷ xs) h = ground (arith, Distinct-set_size xs h.1)

-- Whether two lists of codes are equal.
unfoldable pub same_codes : List ℕ → List ℕ → Bool
same_codes [] [] = true
same_codes [] (y ∷ ys) = false
same_codes (x ∷ xs) [] = false
same_codes (x ∷ xs) (y ∷ ys) = eqb x y && same_codes xs ys
