-- ===== src/Publication/Quiet.antt =====
-- Which commands the actions of a build run: a count of the commands of a kind that each leaves as
-- it is.
use mihver.Prelude.{
  ◌∙◌, ℕ, ◌+◌, ◌≡◌, refl, String, Bool, true, false, Option, none, some, List, [], ◌∷◌, arith,
  if◌then◌else◌,
}
use mihver.Publication.Host.{
  Host, Act, Run, Command, Ended, done, blocked, threw, try_git, git, require, require_some, ◌>>=◌,
  add, commit, continue, BlockReason, run_command, git_result, remove, read_tree,
}

abbrev pub tally : (Command → Bool) → List Command → ℕ
tally p [] = 0
tally p (c ∷ cs) = (if p c then 1 else 0) + tally p cs

-- Commands that read: they neither write the index nor commit.
abbrev pub is_write : Command → Bool
is_write (add path) = true
is_write (remove path) = true
is_write (read_tree tree) = true
is_write (commit message) = true
is_write _ = false

abbrev pub is_commit : Command → Bool
is_commit (commit message) = true
is_commit _ = false

pub is_commit-is_write : (c : Command) → is_write c ≡ false → is_commit c ≡ false
is_commit-is_write c h = ground arith

module _ {W : Type 0} (p : Command → Bool) where
  -- The action runs no command of the kind.
  abbrev pub Quiet : {A : Type 0} → Act W A → Type 0
  Quiet m = (s : Run W) → tally p (m s).1.commands ≡ tally p s.commands

  Quiet-continue :
      {A B : Type 0} (f : A → Act W B)
      → ((a : A) → Quiet (f a))
      → (e : Ended A) (t : Run W) → tally p (continue e f t).1.commands ≡ tally p t.commands
  Quiet-continue f h (done a) t = h a t
  Quiet-continue f h (blocked reason) t = refl
  Quiet-continue f h threw t = refl

  pub Quiet-bind :
      {A B : Type 0} (m : Act W A) (f : A → Act W B)
      → Quiet m
      → ((a : A) → Quiet (f a))
      → Quiet (m >>= f)
  unfolding ◌>>=◌
  Quiet-bind m f hm hf s = Quiet-continue f hf (m s).0 (m s).1 ∙ hm s

  pub Quiet-require : (b : Bool) (reason : BlockReason) → Quiet (require b reason)
  Quiet-require true reason s = refl
  Quiet-require false reason s = refl

  pub Quiet-require_some :
      {A : Type 0} (o : Option A) (reason : BlockReason) → Quiet (require_some o reason)
  Quiet-require_some none reason s = refl
  Quiet-require_some (some a) reason s = refl

  module _ (host : Host W) (dir root : String) where
    pub Quiet-run_command :
        (c : Command) (s : Run W)
        → p c ≡ false
        → tally p (run_command host dir root c s).1.commands ≡ tally p s.commands
    unfolding run_command
    Quiet-run_command c s h = rw h (omega arith)

    pub Quiet-try_git : (c : Command) → p c ≡ false → Quiet (try_git host dir root c)
    unfolding try_git
    Quiet-try_git c h s = Quiet-run_command c s h

    pub Quiet-git : (c : Command) → p c ≡ false → Quiet (git host dir root c)
    unfolding git
    Quiet-git c h s = given (run_command host dir root c s) ∙ Quiet-run_command c s h
      where
        given :
            (r : Option String × Run W) → tally p (git_result r).1.commands ≡ tally p r.1.commands
        given (none, t) = unfold git_result in refl
        given (some out, t) = unfold git_result in refl
