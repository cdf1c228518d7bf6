-- ===== src/Council/Decision/Families.antt =====
-- The diversity rule of R1: two approvals from different provider and model families.
use mihver.Prelude.{
  ◌≤◌, String, ◌≡◌, ◌≢◌, refl, ◌⊎◌, inl, inr, true, false, some, List, [], ◌∷◌, arith, ◌==◌, eq_iff,
  includes, set_size, Bool-cases, Option-cases,
}
use mihver.Council.Types.{Seat, Vote}
use mihver.Council.Quorum.{seat_by_id, family, families}

abbrev pub In : {A : Type 0} → A → List A → Type 0
In a [] = ⊥
In a (x ∷ xs) = (x ≡ a) ⊎ In a xs

-- A vote among `votes` of a seat of the family `f`.
pub record Witnessed (seats : List Seat) (votes : List Vote) (f : String) : Type 0 where
  pub vote : Vote
  pub cast : In vote votes
  pub seat : Seat
  pub found : seat_by_id seats vote.seat_id ≡ some seat
  pub of_family : family seat ≡ f

Witnessed-cons :
    {seats : List Seat} {votes : List Vote} {f : String} (v : Vote)
    → Witnessed seats votes f
    → Witnessed seats (v ∷ votes) f
Witnessed-cons v w = record {
  vote = w.vote;
  cast = inr w.cast;
  seat = w.seat;
  found = w.found;
  of_family = w.of_family;
}

pub families-cons :
    (seats : List Seat) (v : Vote) (votes : List Vote) (fs : List String)
    → families seats (v ∷ votes) ≡ some fs
    → (s : Seat) × (gs : List String) × (seat_by_id seats v.seat_id ≡ some s)
      × (families seats votes ≡ some gs)
      × (fs ≡ family s ∷ gs)
unfolding families
families-cons seats v votes fs h = elim (Option-cases (seat_by_id seats v.seat_id)) [
  | inl e ↦ absurd (ground arith)
  | inr (s, e) ↦ elim (Option-cases (families seats votes)) [
    | inl n ↦ absurd (ground arith)
    | inr (gs, m) ↦ (s, gs, e, m, ground arith)
  ]
]

-- Every computed family is that of some vote.
families_sound :
    (seats : List Seat) (votes : List Vote) (fs : List String) (f : String)
    → families seats votes ≡ some fs
    → includes fs f ≡ true
    → Witnessed seats votes f
unfolding includes
families_sound seats [] fs f h k = absurd (unfold families in ground arith)
families_sound seats (v ∷ votes) fs f h k =
    let (s, gs, found, rest, e) = families-cons seats v votes fs h in
    elim (Bool-cases (family s == f)) [
      | inl same ↦ record {
        vote = v;
        cast = inl refl;
        seat = s;
        found = found;
        of_family = (eq_iff (family s) f).0 same;
      }
      | inr other ↦ Witnessed-cons v (families_sound seats votes gs f rest (ground arith))
    ]

-- Two different texts in a list.
pub record TwoOf (fs : List String) : Type 0 where
  pub one : String
  pub two : String
  pub has_one : includes fs one ≡ true
  pub has_two : includes fs two ≡ true
  pub differ : one ≢ two

TwoOf-cons : {fs : List String} (x : String) → TwoOf fs → TwoOf (x ∷ fs)
unfolding includes
TwoOf-cons x t = record {
  one = t.one;
  two = t.two;
  has_one = ground arith;
  has_two = ground arith;
  differ = t.differ;
}

TwoOf-of_new :
    (x : String) (fs : List String) → includes fs x ≡ false → 1 ≤ set_size fs → TwoOf (x ∷ fs)
unfolding set_size includes
TwoOf-of_new x [] h k = absurd (omega arith)
TwoOf-of_new x (y ∷ fs) h k = record {
  one = x;
  two = y;
  has_one = ground (arith, eq_iff x x);
  has_two = ground (arith, eq_iff y y);
  differ = ground (arith, eq_iff y x);
}

TwoOf-of_set_size : (fs : List String) → 2 ≤ set_size fs → TwoOf fs
unfolding set_size
TwoOf-of_set_size [] h = absurd (omega arith)
TwoOf-of_set_size (x ∷ fs) h = elim (Bool-cases (includes fs x)) [
  | inl old ↦ TwoOf-cons x (TwoOf-of_set_size fs (ground arith))
  | inr new ↦ TwoOf-of_new x fs new (ground arith)
]

-- Two votes of seats of different families.
pub record TwoFamilies (seats : List Seat) (votes : List Vote) : Type 0 where
  pub first : String
  pub second : String
  pub for_first : Witnessed seats votes first
  pub for_second : Witnessed seats votes second
  pub differ : first ≢ second

pub TwoFamilies-of_set_size :
    (seats : List Seat) (votes : List Vote) (fs : List String)
    → families seats votes ≡ some fs
    → 2 ≤ set_size fs
    → TwoFamilies seats votes
TwoFamilies-of_set_size seats votes fs h k =
    let t : TwoOf fs = TwoOf-of_set_size fs k in
    record {
      first = t.one;
      second = t.two;
      for_first = families_sound seats votes fs t.one h t.has_one;
      for_second = families_sound seats votes fs t.two h t.has_two;
      differ = t.differ;
    }
