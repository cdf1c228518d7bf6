-- ===== src/Publication/Inversion.antt =====
-- What the end of an action says of its parts.
use mihver.Prelude.{◌≡◌, refl, ap, true, false, Bool, Option, none, some, arith}
use mihver.Publication.Host.{
  Act, Run, Ended, done, blocked, threw, BlockReason, require, require_some, ◌>>=◌, continue,
}

module _ {W : Type 0} where
  -- A sequence that ends with a value: its first part did, and then the rest.
  pub record Bound {A B : Type 0} (m : Act W A) (f : A → Act W B) (s : Run W) (r : Ended B × Run W)
      : Type 0 where
    pub value : A
    pub middle : Run W
    pub first : m s ≡ (done value, middle)
    pub then_ends : f value middle ≡ r

  Bound-from :
      {A B : Type 0} (m : Act W A) (f : A → Act W B) (s u : Run W) (b : B) (e : Ended A) (t : Run W)
      → m s ≡ (e, t)
      → continue e f t ≡ (done b, u)
      → Bound m f s (done b, u)
  Bound-from m f s u b (done a) t h k = record { value = a; middle = t; first = h; then_ends = k }
  Bound-from m f s u b (blocked reason) t h k = absurd (ground arith)
  Bound-from m f s u b threw t h k = absurd (ground arith)

  pub bind-done :
      {A B : Type 0} (m : Act W A) (f : A → Act W B) (s u : Run W) (b : B)
      → (m >>= f) s ≡ (done b, u)
      → Bound m f s (done b, u)
  unfolding ◌>>=◌
  bind-done m f s u b h = Bound-from m f s u b (m s).0 (m s).1 refl h

  pub require-done :
      (b : Bool) (reason : BlockReason) (s t : Run W) (x : Unit {0})
      → require b reason s ≡ (done x, t)
      → (b ≡ true) × (s ≡ t)
  require-done true reason s t x h = (refl, ap (λ r. r.1) h)
  require-done false reason s t x h = absurd (ground arith)

  pub require_some-done :
      {A : Type 0} (o : Option A) (reason : BlockReason) (s t : Run W) (a : A)
      → require_some o reason s ≡ (done a, t)
      → (o ≡ some a) × (s ≡ t)
  require_some-done none reason s t a h = absurd (ground arith)
  require_some-done (some x) reason s t a h = (ground arith, ap (λ r. r.1) h)
