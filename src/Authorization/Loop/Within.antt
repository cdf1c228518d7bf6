-- ===== src/Authorization/Loop/Within.antt =====
-- What an iteration of the loop may have noted and executed.
use mihver.Prelude.{
  sym, subst, ◌∙◌, some, ◌++◌, ◌==◌, true, false, ◌≢◌, ℕ, suc, ◌≤◌, String, ◌≡◌, refl, ap, List, [],
  ◌∷◌, map, arith, length, includes, Distinct, eq_iff, if◌then◌else◌,
}
use mihver.Authorization.Executor.Verified.{is_id-eq}
use mihver.Authorization.Executor.{Receipt}
use mihver.Authorization.Loop.{
  allowed_once, refused, Progress, LoopRecord, Round, ended, continued, verification_failed,
  allows_envelope, finish, canonical_id, log, Checked, LoopOutcome, Details,
}

abbrev pub ids_of : List Receipt → List String
ids_of receipts = map (λ r. r.body.authorization_id) receipts

includes-snoc :
    (xs : List String) (y x : String)
    → includes (xs ++ y ∷ []) x ≡ (if includes xs x then true else y == x)
unfolding includes
includes-snoc [] y x = ground arith
includes-snoc (z ∷ xs) y x = ground (arith, includes-snoc xs y x)

Distinct-snoc :
    (xs : List String) (y : String) → Distinct xs → includes xs y ≡ false → Distinct (xs ++ y ∷ [])
unfolding includes
Distinct-snoc [] y d h = (refl, tt)
Distinct-snoc (x ∷ xs) y d h =
    ground (arith, includes-snoc xs y x, Distinct-snoc xs y d.1, eq_iff x y, eq_iff y x)

ids_of-snoc :
    (rs : List Receipt) (r : Receipt)
    → ids_of (rs ++ r ∷ []) ≡ ids_of rs ++ r.body.authorization_id ∷ []
ids_of-snoc [] r = refl
ids_of-snoc (x ∷ rs) r = ap (◌∷◌ x.body.authorization_id) (ids_of-snoc rs r)

length-snoc : (rs : List Receipt) (r : Receipt) → length (rs ++ r ∷ []) ≡ suc (length rs)
length-snoc [] r = refl
length-snoc (x ∷ rs) r = ap suc (length-snoc rs r)

-- Between two iterations: as many receipts as iterations, one for each authorization so far.
pub record Between {W : Type 0} (n : ℕ) (p : Progress W) : Type 0 where
  pub count : length p.receipts ≡ n
  pub same_ids : ids_of p.receipts ≡ p.authorization_ids
  pub distinct : Distinct p.authorization_ids

-- Within an iteration, when its authorization has been noted.
pub record Within {W : Type 0} (n : ℕ) (id : String) (p : Progress W) : Type 0 where
  pub count : length p.receipts ≡ n
  pub noted : ids_of p.receipts ++ id ∷ [] ≡ p.authorization_ids
  pub distinct : Distinct (ids_of p.receipts)
  pub fresh : includes (ids_of p.receipts) id ≡ false

-- What a run has executed when it ends.
pub record Executed {W : Type 0} (n : ℕ) (r : LoopRecord W) : Type 0 where
  pub at_most : length r.receipts ≤ n
  pub distinct : Distinct (ids_of r.receipts)
  pub no_failure : r.outcome ≢ verification_failed

abbrev pub RoundOk : {W : Type 0} → ℕ → Round W → Type 0
RoundOk n (continued p) = Between (suc n) p
RoundOk n (ended r) = Executed (suc n) r

pub allowance_id :
    (checked : Checked) (id : String)
    → allows_envelope checked id ≡ true
    → canonical_id checked ≡ some id
unfolding allows_envelope canonical_id
allowance_id (allowed_once o) id h = is_id-eq o id h
allowance_id refused id h = absurd (ground arith)

pub Executed-of_Within :
    {W : Type 0} (n : ℕ) (id : String) (p : Progress W) (o : LoopOutcome) (count : ℕ) (d : Details)
    → Within n id p
    → o ≢ verification_failed
    → Executed (suc n) (finish p o count d)
unfolding finish log
Executed-of_Within n id p o count d w h = record {
  at_most = omega (arith, w.count);
  distinct = w.distinct;
  no_failure = h;
}

-- Noting a receipt of the noted authorization.
pub Between-of_Within :
    {W : Type 0} (n : ℕ) (id : String) (p : Progress W) (q : Progress W) (r : Receipt)
    → Within n id p
    → r.body.authorization_id ≡ id
    → q.receipts ≡ p.receipts ++ r ∷ []
    → q.authorization_ids ≡ p.authorization_ids
    → Between (suc n) q
Between-of_Within n id p q r w e rs ids = record {
  count = ap length rs ∙ length-snoc p.receipts r ∙ ap suc w.count;
  same_ids =
      ap ids_of rs
      ∙ ids_of-snoc p.receipts r
      ∙ ap (λ x. ids_of p.receipts ++ x ∷ []) e
      ∙ w.noted
      ∙ sym ids;
  distinct =
      subst Distinct (w.noted ∙ sym ids) (Distinct-snoc (ids_of p.receipts) id w.distinct w.fresh);
}
