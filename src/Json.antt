-- ===== src/Json.antt =====
-- scripts/dev/canonical-json.mjs: the canonical text of a JSON value.
-- `Json` holds the values that `canonicalizeJson` accepts. The values that it refuses (undefined,
-- functions, symbols, BigInt, non-finite numbers, lone surrogates, accessors, cycles, sparse arrays)
-- have no constructor here; callers that meet them have a case of their own. A text is the list of
-- its UTF-16 code units, which is what the sort of the keys compares.
pub mod KeyOrder
use Prim.Native.Nat.{ℕ, zero, suc, ◌+◌, ◌-◌, ◌*◌, ◌/◌, ◌%◌}
use mihver.Prelude.{
  String, Bool, true, false, List, [], ◌∷◌, ◌++◌, ltb, leb, eqb, codes, if◌then◌else◌,
}

mutual
  pub data Json : Type 0 where
    null : Json
    bool : Bool → Json
    -- a non-negative integer
    nat : ℕ → Json
    -- any other finite number, by the text that `JSON.stringify` gives it
    num : String → Json
    str : String → Json
    arr : Items → Json
    obj : Fields → Json

  pub data Items : Type 0 where
    nil : Items
    cons : Json → Items → Items

  pub data Fields : Type 0 where
    end : Fields
    field : String → Json → Fields → Fields

-- An object literal.
fields_of : List (String × Json) → Fields
fields_of [] = end
fields_of ((k, v) ∷ rest) = field k v (fields_of rest)

unfoldable pub object : List (String × Json) → Json
unfolding fields_of
object ps = obj (fields_of ps)

-- The UTF-16 code units of a code point.
units_of : ℕ → List ℕ
units_of c =
    if ltb c 0x10000
    then c ∷ []
    else (0xd800 + (c - 0x10000) / 0x400) ∷ (0xdc00 + (c - 0x10000) % 0x400) ∷ []

units_of_all : List ℕ → List ℕ
units_of_all [] = []
units_of_all (c ∷ cs) = units_of c ++ units_of_all cs

-- The code units of a text.
unfoldable pub units : String → List ℕ
unfolding units_of units_of_all codes
units s = units_of_all (codes s)

decimal_from : ℕ → ℕ → List ℕ → List ℕ
decimal_from zero n acc = acc
decimal_from (suc fuel) n acc =
    let digits = (b'0' + n % 10) ∷ acc in
    let rest = decimal_from fuel (n / 10) digits in if ltb n 10 then digits else rest

-- A number's decimal text: `n + 1` rounds are enough, since each divides by ten.
unfoldable pub decimal : ℕ → List ℕ
unfolding decimal_from
decimal n = decimal_from (suc n) n []

hex_digit : ℕ → ℕ
hex_digit d = if ltb d 10 then b'0' + d else b'a' + (d - 10)

-- One code unit as `JSON.stringify` writes it inside a string.
escape : ℕ → List ℕ
unfolding hex_digit
escape c =
    if eqb c b'"'
    then b'\\' ∷ b'"' ∷ []
    else if eqb c b'\\'
    then b'\\' ∷ b'\\' ∷ []
    else if eqb c 8
    then b'\\' ∷ b'b' ∷ []
    else if eqb c 9
    then b'\\' ∷ b't' ∷ []
    else if eqb c 10
    then b'\\' ∷ b'n' ∷ []
    else if eqb c 12
    then b'\\' ∷ b'f' ∷ []
    else if eqb c 13
    then b'\\' ∷ b'r' ∷ []
    else if ltb c 32
    then b'\\' ∷ b'u' ∷ b'0' ∷ b'0' ∷ hex_digit (c / 16) ∷ hex_digit (c % 16) ∷ []
    else c ∷ []

escape_all : List ℕ → List ℕ
escape_all [] = []
escape_all (c ∷ cs) = escape c ++ escape_all cs

-- `JSON.stringify` of a string
unfoldable pub quote : String → List ℕ
unfolding units escape escape_all
quote s = b'"' ∷ escape_all (units s) ++ b'"' ∷ []

-- A property's key and its canonical text `"key":value`.
pub record Entry : Type 0 where
  pub key : List ℕ
  pub text : List ℕ

-- The order of strings in JavaScript: by code units.
unfoldable pub less : List ℕ → List ℕ → Bool
less xs [] = false
less [] (y ∷ ys) = true
less (x ∷ xs) (y ∷ ys) = if eqb x y then less xs ys else ltb x y

unfoldable pub insert : Entry → List Entry → List Entry
insert e [] = e ∷ []
insert e (x ∷ xs) = if less e.key x.key then e ∷ x ∷ xs else x ∷ insert e xs

unfoldable pub sort : List Entry → List Entry
sort [] = []
sort (e ∷ es) = insert e (sort es)

unfoldable pub join : List (List ℕ) → List ℕ
join [] = []
join (t ∷ []) = t
join (t ∷ u ∷ ts) = t ++ b',' ∷ join (u ∷ ts)

unfoldable pub texts : List Entry → List (List ℕ)
texts [] = []
texts (e ∷ es) = e.text ∷ texts es

unfoldable mutual
  pub serialize : Json → List ℕ
  serialize null = codes "null"
  serialize (bool true) = codes "true"
  serialize (bool false) = codes "false"
  serialize (nat n) = decimal n
  serialize (num t) = codes t
  serialize (str s) = quote s
  serialize (arr xs) = b'[' ∷ join (serialize_items xs) ++ b']' ∷ []
  serialize (obj fs) = b'{' ∷ join (texts (sort (entries fs))) ++ b'}' ∷ []

  pub serialize_items : Items → List (List ℕ)
  serialize_items nil = []
  serialize_items (cons x xs) = serialize x ∷ serialize_items xs

  pub entries : Fields → List Entry
  entries end = []
  entries (field k v fs) =
      (record { key = units k; text = quote k ++ b':' ∷ serialize v }) ∷ entries fs

unfoldable pub canonicalize_json : Json → List ℕ
unfolding serialize serialize_items entries less insert sort join texts codes decimal quote
canonicalize_json v = serialize v
