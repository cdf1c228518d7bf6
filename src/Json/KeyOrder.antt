-- ===== src/Json/KeyOrder.antt =====
-- The canonical text does not depend on the order in which an object's properties were written.
use mihver.Prelude.{
  ℕ, String, ◌≡◌, ◌≢◌, refl, ap, true, false, inl, inr, List, [], ◌∷◌, ◌++◌, arith, Bool-cases,
}
use mihver.Json.{
  Json, Fields, obj, field, Entry, units, less, insert, sort, join, texts, entries,
  canonicalize_json,
}

less_asym : (xs ys : List ℕ) → less xs ys ≡ true → less ys xs ≡ false
unfolding less
less_asym [] [] h = refl
less_asym [] (y ∷ ys) h = refl
less_asym (x ∷ xs) [] h = ground arith
less_asym (x ∷ xs) (y ∷ ys) h = ground (arith, less_asym xs ys)

less_total : (xs ys : List ℕ) → xs ≢ ys → less xs ys ≡ false → less ys xs ≡ true
unfolding less
less_total [] [] d h = absurd (d refl)
less_total [] (y ∷ ys) d h = ground arith
less_total (x ∷ xs) [] d h = refl
less_total (x ∷ xs) (y ∷ ys) d h = ground (arith, less_total xs ys)

less_trans : (xs ys zs : List ℕ) → less xs ys ≡ true → less ys zs ≡ true → less xs zs ≡ true
unfolding less
less_trans [] [] zs h k = ground arith
less_trans [] (y ∷ ys) [] h k = ground arith
less_trans [] (y ∷ ys) (z ∷ zs) h k = refl
less_trans (x ∷ xs) [] zs h k = ground arith
less_trans (x ∷ xs) (y ∷ ys) [] h k = ground arith
less_trans (x ∷ xs) (y ∷ ys) (z ∷ zs) h k = ground (arith, less_trans xs ys zs)

-- From `a < x` and `x ≤ b` follows `a < b`, and from `b < a` and `a < x` follows `b < x`.
less_of_less_ge : (xs ys zs : List ℕ) → less xs ys ≡ true → less zs ys ≡ false → less zs xs ≡ false
less_of_less_ge xs ys zs h k = elim (Bool-cases (less zs xs)) [
  | inr e ↦ e
  | inl e ↦ cc (less_trans zs xs ys e h)
]

insert_comm :
    (a b : Entry) (es : List Entry)
    → a.key ≢ b.key
    → insert a (insert b es) ≡ insert b (insert a es)
unfolding insert
insert_comm a b [] d = ground (arith, less_asym a.key b.key, less_total a.key b.key)
insert_comm a b (e ∷ es) d = ground (
  arith,
  insert_comm a b es d,
  less_asym a.key b.key,
  less_total a.key b.key,
  less_of_less_ge a.key e.key b.key,
  less_of_less_ge b.key e.key a.key,
)

-- Two different properties that stand first can be written in either order: the canonical text,
-- and with it every digest of the program, is the same. Keys differ as sequences of code units.
canonicalize_json-swap :
    (j k : String) (v w : Json) (fs : Fields)
    → units j ≢ units k
    → canonicalize_json (obj (field j v (field k w fs)))
      ≡ canonicalize_json (obj (field k w (field j v fs)))
unfolding canonicalize_json
canonicalize_json-swap j k v w fs d =
    ap (λ es. b'{' ∷ join (texts es) ++ b'}' ∷ []) (insert_comm _ _ (sort (entries fs)) d)
