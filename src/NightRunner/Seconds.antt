-- ===== src/NightRunner/Seconds.antt =====
-- The sums of seconds in scripts/dev/night-runner.mjs, which are doubles: counted in a unit (a power
-- of two of a second, positive or negative) in which the doubles of the document are whole numbers,
-- a sum is rounded to 53 significant bits.
use native.Mathlib.Nat.{mul-le-mul_left, le-div_iff_mul-le}
use mihver.Prelude.{
  ℕ, zero, suc, ◌+◌, ◌*◌, ◌/◌, ◌%◌, ◌≤◌, ◌<◌, Bool, true, false, ◌||◌, ◌&&◌, arith, ltb, eqb,
  if◌then◌else◌, ◌≡◌, refl, Bool-cases, inl, inr,
}

-- 2 to the power 53: the whole numbers below it are exact.
abbrev pub exact_below : ℕ
exact_below = 9007199254740992

-- The distance of neighbouring doubles around a number, found by halving it.
unfoldable pub spacing : ℕ → ℕ → ℕ
spacing zero n = 1
spacing (suc fuel) n = elim (ltb n exact_below) [ true ↦ 1 | false ↦ 2 * spacing fuel (n / 2) ]

-- Whether the multiple of the spacing above is the nearest, the even one of two as near.
unfoldable pub rounds_up : ℕ → ℕ → Bool
rounds_up n u = ltb u (2 * (n % u)) || (eqb u (2 * (n % u)) && eqb ((n / u) % 2) 1)

-- A number rounded to a double, to the nearest and ties to even.
unfoldable pub round_double : ℕ → ℕ
round_double n = let u = spacing n n in if rounds_up n u then (n / u + 1) * u else (n / u) * u

-- `runtimeUsedSeconds + attemptRuntimeSeconds`. A sum that overflows is above every limit, here as
-- there.
unfoldable pub add_seconds : ℕ → ℕ → ℕ
add_seconds a b = round_double (a + b)

-- The spacing leaves 53 bits of the number: the fuel is enough.
spacing-fits : (fuel n : ℕ) → n ≤ fuel → n < exact_below * spacing fuel n
unfolding spacing
spacing-fits zero n h = omega (arith, h)
spacing-fits (suc fuel) n h = ground (arith, spacing-fits fuel (n / 2))

spacing-small : (fuel n : ℕ) → n < exact_below → spacing fuel n ≡ 1
unfolding spacing
spacing-small zero n h = refl
spacing-small (suc fuel) n h = ground arith

-- A sum that is exact as a double is not rounded.
round_double-exact : (n : ℕ) → n < exact_below → round_double n ≡ n
unfolding round_double rounds_up
round_double-exact n h = rw (spacing-small n n h) (ground arith)

-- Around a number that is not exact the doubles are at least two apart, and no further than its
-- first 53 bits allow.
spacing-tight :
    (fuel n : ℕ)
    → n ≤ fuel
    → exact_below ≤ n
    → (2 ≤ spacing fuel n) × (4503599627370496 * spacing fuel n ≤ n)
unfolding spacing
spacing-tight zero n h k = absurd (omega (arith, h, k))
spacing-tight (suc fuel) n h k = elim (Bool-cases (ltb (n / 2) exact_below)) [
  | inl e ↦ ground (arith, spacing-small fuel (n / 2))
  | inr e ↦ ground (arith, spacing-tight fuel (n / 2))
]

multiples-large : (q u : ℕ) → 2 ≤ u → 4503599627370496 ≤ q → exact_below ≤ q * u
multiples-large q u h k = omega (arith, mul-le-mul_left q h, k)

-- A sum that is not exact is not rounded to an exact one.
round_double-large : (n : ℕ) → exact_below ≤ n → exact_below ≤ round_double n
unfolding round_double
round_double-large n h =
    let (at_least, tight) = spacing-tight n n (omega arith) h in
    let quotient : 4503599627370496 ≤ n / spacing n n =
      (le-div_iff_mul-le {k = spacing n n} {x = 4503599627370496} {y = n}
          (omega (arith, at_least))).1
        tight in
    elim (Bool-cases (rounds_up n (spacing n n))) [
      | inl e ↦
          rw e
            (multiples-large (n / spacing n n + 1) (spacing n n) at_least (omega (arith, quotient)))
      | inr e ↦ rw e (multiples-large (n / spacing n n) (spacing n n) at_least quotient)
    ]

-- A sum of seconds that is rounded to less than the 53rd power of two is exact.
pub add_seconds-exact :
    (a b : ℕ) → add_seconds a b < exact_below → (add_seconds a b ≡ a + b) × (a < exact_below)
unfolding add_seconds
add_seconds-exact a b h = elim (Bool-cases (ltb (a + b) exact_below)) [
  | inl e ↦ (round_double-exact (a + b) (ground arith), ground arith)
  | inr e ↦ absurd (omega (arith, h, round_double-large (a + b) (ground arith)))
]
