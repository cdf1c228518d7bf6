-- ===== src/Publication/Remote/RoundTrip.antt =====
-- The addresses of a repository that `parse_git_hub_remote` reads back.
use Prim.Native.String.{count}
use Prim.Native.Char.{Char}
use Prim.Native.String
use text.Mathlib.TextLemmas.{
  append_assoc, length-append as count-append, length-cons, nil-append, cons-append, length-cons,
}
use mihver.Prelude.{
  sym, ◌==◌, is_empty, is_space, ap, ◌∙◌, String, ◌≡◌, ◌≢◌, refl, true, false, some, none, arith,
  nonempty, has_code, cut, strip_prefix, strip_suffix, trim, trim_start, trim_end, eq_iff, eq_refl,
  Bool-cases, is_space, inl, inr,
}
use mihver.Publication.Remote.{Remote, match_name, match_path, match_remote, parse_git_hub_remote}

slash_append : (t : String) → String.◌++◌ "/" t ≡ String.◌∷◌ "/" t
slash_append t = cons-append "/" "" t ∙ ap (λ u. String.◌∷◌ "/" u) (nil-append t)

cut-append :
    (s t : String)
    → has_code b'/' s ≡ false
    → cut b'/' (String.◌++◌ s (String.◌++◌ "/" t)) ≡ (s, some t)
unfolding cut has_code
cut-append String.[] t h = rw (nil-append (String.◌++◌ "/" t), slash_append t) refl
cut-append (String.◌∷◌ c s) t h =
    rw (cons-append c s (String.◌++◌ "/" t), cut-append s t (ground arith)) (ground arith)

strip_prefix-append : (p s : String) → strip_prefix p (String.◌++◌ p s) ≡ some s
unfolding strip_prefix
strip_prefix-append String.[] s = rw (nil-append s) refl
strip_prefix-append (String.◌∷◌ c p) s =
    rw (cons-append c p s, strip_prefix-append p s) (ground arith)

strip_suffix_self : (t : String) → strip_suffix t t ≡ some ""
unfolding strip_suffix
strip_suffix_self String.[] = refl
strip_suffix_self (String.◌∷◌ c s) = rw (eq_refl (String.◌∷◌ c s)) refl

longer-ne : (c : Char) (s t : String) → String.◌∷◌ c (String.◌++◌ s t) ≢ t
longer-ne c s t e =
    absurd (omega (arith, ap String.count e, length-cons c (String.◌++◌ s t), count-append s t))

strip_suffix-append : (s t : String) → strip_suffix t (String.◌++◌ s t) ≡ some s
unfolding strip_suffix
strip_suffix-append String.[] t = rw (nil-append t) (strip_suffix_self t)
strip_suffix-append (String.◌∷◌ c s) t =
    rw (cons-append c s t, strip_suffix-append s t)
      (elim (Bool-cases (String.◌∷◌ c (String.◌++◌ s t) == t)) [
        | inl e ↦ absurd (longer-ne c s t ((eq_iff (String.◌∷◌ c (String.◌++◌ s t)) t).0 e))
        | inr e ↦ rw e refl
      ])

is_empty-git : (s : String) → is_empty (String.◌++◌ s ".git") ≡ false
unfolding is_empty
is_empty-git String.[] = refl
is_empty-git (String.◌∷◌ c s) = rw (cons-append c s ".git") refl

strip_suffix-slash_git : (s : String) → strip_suffix "/" (String.◌++◌ s ".git") ≡ none
unfolding strip_suffix
strip_suffix-slash_git String.[] = refl
strip_suffix-slash_git (String.◌∷◌ c s) =
    rw (cons-append c s ".git", strip_suffix-slash_git s)
      (elim (Bool-cases (String.◌∷◌ c (String.◌++◌ s ".git") == "/")) [
        | inl e ↦ absurd (
            omega (
              arith,
              ap String.count ((eq_iff (String.◌∷◌ c (String.◌++◌ s ".git")) "/").0 e),
              length-cons c (String.◌++◌ s ".git"),
              count-append s ".git",
            ))
        | inr e ↦ rw e refl
      ])

trim_end-git : (s : String) → trim_end (String.◌++◌ s ".git") ≡ String.◌++◌ s ".git"
unfolding trim_end is_space
trim_end-git String.[] = rw (nil-append ".git") refl
trim_end-git (String.◌∷◌ c s) =
    rw (cons-append c s ".git", trim_end-git s, is_empty-git s) (ground arith)

match_name-git :
    (name : String)
    → nonempty name ≡ true
    → has_code b'/' name ≡ false
    → match_name (String.◌++◌ name ".git") ≡ some name
unfolding match_name
match_name-git name n h =
    rw (strip_suffix-slash_git name, strip_suffix-append name ".git")
      (elim (Bool-cases (name == "")) [
        | inl e ↦ absurd (unfold nonempty in ground arith)
        | inr e ↦ rw (e, n, h) refl
      ])

-- The two conventional addresses of a repository.
abbrev pub https_address : String → String → String
https_address owner name =
    String.◌++◌ "https://github.com/"
      (String.◌++◌ owner (String.◌++◌ "/" (String.◌++◌ name ".git")))

trim_start-address :
    (rest : String)
    → trim_start (String.◌++◌ "https://github.com/" rest) ≡ String.◌++◌ "https://github.com/" rest
unfolding trim_start is_space
trim_start-address rest = rw (cons-append "h" "ttps://github.com/" rest) refl

address-git :
    (owner name : String)
    → https_address owner name
      ≡ String.◌++◌
          (String.◌++◌ "https://github.com/" (String.◌++◌ owner (String.◌++◌ "/" name)))
          ".git"
address-git owner name = rw (append_assoc, append_assoc, append_assoc) refl

trim-address : (owner name : String) → trim (https_address owner name) ≡ https_address owner name
unfolding trim
trim-address owner name =
    ap trim_end (trim_start-address _)
    ∙ ap trim_end (address-git owner name)
    ∙ trim_end-git _
    ∙ sym (address-git owner name)

match_remote-https_address :
    (owner name : String)
    → nonempty owner ≡ true
    → has_code b'/' owner ≡ false
    → nonempty name ≡ true
    → has_code b'/' name ≡ false
    → match_remote "https://github.com/" (https_address owner name)
      ≡ some (record { owner = owner; name = name })
unfolding match_remote match_path
match_remote-https_address owner name o p n q =
    rw
      (
        strip_prefix-append "https://github.com/"
            (String.◌++◌ owner (String.◌++◌ "/" (String.◌++◌ name ".git"))),
        match_remote,
      )
      (rw (cut-append owner (String.◌++◌ name ".git") p, o, match_name-git name n q) refl)

parse-trimmed :
    (url : String) (r : Remote)
    → trim url ≡ url
    → match_remote "https://github.com/" url ≡ some r
    → parse_git_hub_remote url ≡ some r
unfolding parse_git_hub_remote
parse-trimmed url r t h =
    let same : match_remote "https://github.com/" (trim url) ≡ some r =
      ap (match_remote "https://github.com/") t ∙ h in
    rw (same, parse_git_hub_remote) refl

-- The conventional https address of a repository is read back as its owner and its name, also a name
-- that itself ends in `.git`; neither may be empty or hold a slash.
pub parse_git_hub_remote-https_address :
    (owner name : String)
    → nonempty owner ≡ true
    → has_code b'/' owner ≡ false
    → nonempty name ≡ true
    → has_code b'/' name ≡ false
    → parse_git_hub_remote (https_address owner name) ≡ some (record { owner = owner; name = name })
parse_git_hub_remote-https_address owner name o p n q =
    parse-trimmed (https_address owner name) (record { owner = owner; name = name })
      (trim-address owner name) (match_remote-https_address owner name o p n q)
